-- ===== src/Sip/Message.antt =====
-- A packet that the server composes: its first line and the calls that add to it, in their order. What
-- text each call writes is projectsippacket's.
use project_mediaswitch.Base.{ℕ, Bool, true, ◌&&◌, List, [], ◌∷◌, Bytes, Option, ℤ}
use project_mediaswitch.Sip.Packet.{Packet, Method}

-- setstatusline and setrequestline
pub data Line : Type 0 where
  status : ℤ → Bytes → Line
  request : Method → Bytes → Line

-- The headers of projectsippacket that the dialogs write.
pub data Header : Type 0 where
  to_header from_header via_header call_id_header cseq_header contact_header : Header
  content_type content_length max_forwards alert_info subscription_state : Header

pub data Part : Type 0 where
  -- addcommonheaders()
  common_headers : Part
  -- addviaheader( host, ref ), addviaheader( host ), addwwwauthenticateheader( ref ), with the nonce that it makes, and
  -- addauthorizationheader( ref, user, password )
  via : Option Packet → Part
  new_via : Part
  challenge : Packet → Bytes → Part
  authorization : Packet → Bytes → Bytes → Part
  -- addheader( h, pk->getheader( g ) )
  copied : Header → Packet → Header → Part
  -- addheader( h, text ) and addheader( h, number )
  text : Header → Bytes → Part
  number : Header → ℤ → Part
  -- addheader( CSeq, std::to_string( n ) + " " + method )
  numbered : ℕ → Method → Part
  -- addheader( Contact, projectsippacket::contact( user, … ) ), of a user and of `pk->getuser()`
  contact : Bytes → Part
  contact_of : Packet → Part
  -- addremotepartyid( domain, name, number, hide ) and setbody
  remote_party : Bytes → Bytes → Bytes → Bool → Part
  body : Bytes → Part

pub record Message : Type 0 where
  pub line : Line
  pub parts : List Part

-- Composing a part goes through a null pointer where it reads the To header of a packet without one.
abbrev pub is_readable : Part → Bool
is_readable (contact_of pk) = pk.has_to
is_readable _ = true

abbrev pub composes : List Part → Bool
composes [] = true
composes (p ∷ ps) = is_readable p && composes ps
