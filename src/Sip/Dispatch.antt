-- ===== src/Sip/Dispatch.antt =====
-- sip/projectsipsm.cpp: which part of the server a packet goes to, and the guards on the way. What
-- the dialogs, the event state and the registrar then do with it is theirs.
pub mod Routes
use project_mediaswitch.Base.{
  ℕ, ◌≡◌, refl, ap, sym, ◌∙◌, Bool, true, false, not, ◌&&◌, ◌||◌, Bytes, Option, none, some,
  if◌then◌else◌, ℤ, is_nonpos, ◌>>=◌, ◌⊎◌, inl, inr, arith, Bool-cases, if-true, if-false,
  >>=-eq-some, some_injective,
}
use project_mediaswitch.Text.Substring.{Substring, to_int}
use project_mediaswitch.Sip.Packet.{
  Packet, Method, register, refer, notify, invite, ack, cancel, bye, options, subscribe, publish,
  response, unknown,
}

-- Where a packet ends up: it is dropped, or answered here with 200 OK, or handed on to
-- `projectsipregistration::registrarsippacket`, `projectsipdialog::invitesippacket` or
-- `projectsipeventsubscription::handlesippacket`.
pub data Target : Type 0 where
  dropped answered_ok registrar dialog event_state : Target

-- The headers that the handlers ask for.
abbrev pub options_headers : Packet → Bool
options_headers pk =
    pk.has_to && pk.has_from && pk.has_cseq && pk.has_call_id && pk.has_max_forwards && pk.has_via

abbrev pub register_headers : Packet → Bool
register_headers pk =
    pk.has_to && pk.has_from && pk.has_call_id && pk.has_cseq && pk.has_contact && pk.has_via

abbrev pub invite_headers : Packet → Bool
invite_headers pk = pk.has_to && pk.has_from && pk.has_call_id && pk.has_cseq && pk.has_via

-- A handler's guards: its headers, then `0 >= … .toint()`; `none` is a fault of `toint`.
unfoldable pub guarded : (Bytes → Option ℤ) → Bool → Packet → Target → Option Target
guarded lexical_cast headers pk target =
    if not headers
    then some dropped
    else (to_int lexical_cast pk.max_forwards >>= λ n.
        some (if is_nonpos n then dropped else target))

unfoldable pub handle_options : (Bytes → Option ℤ) → Packet → Option Target
unfolding guarded
handle_options lexical_cast pk = guarded lexical_cast (options_headers pk) pk answered_ok

unfoldable pub handle_register : (Bytes → Option ℤ) → Packet → Option Target
unfolding guarded
handle_register lexical_cast pk = guarded lexical_cast (register_headers pk) pk registrar

unfoldable pub handle_invite : (Bytes → Option ℤ) → Packet → Option Target
unfolding guarded
handle_invite lexical_cast pk = guarded lexical_cast (invite_headers pk) pk dialog

-- `taken` is the answer of `projectsipdialog::invitesippacket`.
unfoldable pub handle_response : Bool → Target
handle_response taken = if not taken then registrar else dialog

-- The switch on the method.
unfoldable pub target_of : (Bytes → Option ℤ) → Bool → Packet → Method → Option Target
unfolding handle_options handle_register handle_invite handle_response
target_of lexical_cast taken pk register = handle_register lexical_cast pk
target_of lexical_cast taken pk cancel = handle_invite lexical_cast pk
target_of lexical_cast taken pk invite = handle_invite lexical_cast pk
target_of lexical_cast taken pk refer = handle_invite lexical_cast pk
target_of lexical_cast taken pk options = handle_options lexical_cast pk
target_of lexical_cast taken pk subscribe = some event_state
target_of lexical_cast taken pk notify = some event_state
target_of lexical_cast taken pk publish = some event_state
target_of lexical_cast taken pk bye = some (handle_response taken)
target_of lexical_cast taken pk response = some (handle_response taken)
target_of lexical_cast taken pk ack = some (handle_response taken)
target_of lexical_cast taken pk unknown = some dropped

unfoldable pub handle_sip_packet : (Bytes → Option ℤ) → Bool → Packet → Option Target
unfolding target_of
handle_sip_packet lexical_cast taken pk = target_of lexical_cast taken pk pk.method
