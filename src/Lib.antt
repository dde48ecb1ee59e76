-- ===== src/Lib.antt =====
-- Models of the SIP server of project-mediaswitch: its string helpers, its user directory, its
-- registrar, its dialogs (calls), the dispatch of SIP packets and its web documents, and of the RTP
-- packets of its media server, with their correctness.
--
-- The program. A packet that the socket receives goes to projectsipsm::handlesippacket, which looks
-- at its method and headers and hands it to the registrar, to the dialogs or to the event state. The
-- registrar keeps a registration for each user@domain, challenges a REGISTER, looks the password up
-- in the directory, pings the registered clients and tells a control server. A dialog is one call: it challenges an
-- INVITE, tells the control server of it, and rings, answers, calls out or hangs up as that server
-- asks, with a timer for what does not come. The directory is a tree
-- of domains with their users, changed through web requests. All of it reads text by way of
-- `substring`, two positions in a shared buffer.
--
-- Files, and what they model:
--   Base: shared names, Boolean tests, lists over native numbers, a C++ int.
--   Text.Url, Text.Split: urlencode, urldecode, splitstring and joinstring of
--     projectlib/projectsipstring.cpp, over lists of bytes.
--   Text.Std: what is used of std::string (substr, find, rfind, find_first_of, c_str).
--   Text.Substring and below: the class substring of the same file. Its `buffer` is the shared
--     pointer, `startpos` and `endpos` are the positions, below 2 ^ 64 with their wrap-around.
--   Directory.Tree: projectsipdiruser, projectsipdirdomain and its maps, of
--     sip/projectsipdirectory.h and .cpp. Directory.Domains: adddomain, lookupdomain, removedomain
--     and the lookups of users and passwords. Directory.Http: httpget, httpput, httppatch and
--     httpdelete. A handler takes the tree and returns it.
--   Sip.Packet: what the handlers read of a packet. Sip.Dispatch: sip/projectsipsm.cpp.
--   Registrar: projectsipregistration of sip/projectsipregistrar.h, with expire and sendoptions;
--     Registrar.Handlers: regstart, regwaitauth, handleresponse and timerhandler, each from a
--     registration to a registration and the messages it sends, in order. Registrar.Store: the
--     container, registrarsippacket, httpcallbackanddie, unavailable and sendtoregisteredclient.
--     Registrar.Report: its httpget.
--   Sip.Json: the values of projectlib/json.hpp. Sip.Message: a packet that is composed, as its first
--     line and the calls that add to it, in order.
--   Dialog: the members of projectsipdialog and projectsipendpoint; Dialog.Act: the steps that the
--     functions are made of, each from a dialog to a dialog and what it sent. Dialog.Endpoint: sendpk
--     of sip/projectsipendpoint.cpp and updatecontrol; Dialog.Answers, Dialog.Requests,
--     Dialog.Invite: the answers and the requests of sip/projectsipdialog.cpp; Dialog.Challenges:
--     sip/projectsipdialoginvite.cpp and projectsipdialogrefer.cpp; Dialog.States: what `nextstate` is
--     bound to; Dialog.Timers: what the timer is bound to, and httpcallback; Dialog.Store: the
--     container and invitesippacket; Dialog.Http: httpget, httppost and httpput.
--   Dialog.Call: the abstract call, and the dialog as a run of it (Dialog.Call.Events has the events).
--     Dialog.Leads: steps that have an outcome. Dialog.Silence, Dialog.Admission: what they lead to.
--   Web: projectlib/projectwebdocument.h and .cpp. A document is its text and the positions of its
--     parts. Web.Names: the tables of methods and headers; Web.Parse: parsersline, parseheaders,
--     getheadervalue; Web.Compose: the writers and the accessors. Web.Headers, Web.Lines, Web.Table,
--     Web.Named, Web.Fuel: the loop of parseheaders, over lines and over any text; Web.Written, Web.StartLine, Web.RoundTrip: what
--     was written is read.
--   Rtp: rtp/projectrtppacket.h and .cpp, one RTP packet as an array and a length.
--   Tests: runs on concrete inputs.
--
-- Conventions. A result `none` is what C++ leaves undefined: an access through a null pointer or
-- outside an array. Parameters stand for code of libraries: `lexical_cast` for boost::lexical_cast,
-- `crc` for boost::crc_32_type,
-- `check_auth` and `digest` for the MD5 digest test of a packet against a challenge. The record `Env`
-- holds what is around a dialog, with the conversions of SDP and the reading of a composed packet,
-- which are not modelled. `garbage` is a member that no
-- constructor sets. Times are seconds,
-- and milliseconds for the timer of a dialog.
--
-- Bounds. The loop of removedomain runs on fuel, one more than
-- the length of the name, which is enough since each turn cuts a label off; that of parseheaders on one
-- more than the length of the text, since each turn moves on by a byte at least. The timer is followed over
-- a list of the times at which it fires, and the timer of a dialog over a number of firings, of which
-- four are enough with the three retries that the program sets.
--
-- Not modelled: what sip/projectsippacket.cpp adds to a web document, so that the handlers of SIP take a
-- packet as the values they read of it; JSON texts, of which a body enters parsed, with the values that are missing or of a wrong kind; httpuri; SDP, the DNS resolver, what an
-- endpoint does with the answer of the DNS, and the event state; sockets, timers and processes; the rest of the RTP server
-- under rtp/ and the call control under control/.
pub mod Base
pub mod Text
pub mod Directory
pub mod Sip
pub mod Registrar
pub mod Dialog
pub mod Web
pub mod Rtp
pub mod Tests
