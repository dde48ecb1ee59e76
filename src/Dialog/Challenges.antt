-- ===== src/Dialog/Challenges.antt =====
-- sip/projectsipdialoginvite.cpp and projectsipdialogrefer.cpp: the INVITE and the REFER that are challenged,
-- admitted or refused.
use project_mediaswitch.Base.{
  Bool, true, false, not, ◌||◌, Bytes, Option, none, some, codes, if◌then◌else◌, ℤ, is_nonpos, ◌==◌,
}
use project_mediaswitch.Text.Substring.{str, to_int}
use project_mediaswitch.Text.Substring.Find.{find_str}
use project_mediaswitch.Directory.Domains.{lookup_password_sub}
use project_mediaswitch.Sip.Json.{
  Json, Items, no_items, item, object, array, as_object, at_key, says,
}
use project_mediaswitch.Sip.Packet.{Packet, Method, refer, invite, ack}
use project_mediaswitch.Sip.Message.{Message}
use project_mediaswitch.Dialog.{
  Env, wait_for_ack_then_invite_auth, wait_for_ack, wait_for_ack_and_die, on_timeout_end_dialog,
  resend_401, dialog_ack_timeout,
}
use project_mediaswitch.Dialog.Act.{
  Act, ◌>>◌, with, through, modify, skip, when, go, wait_for_timer, set_retries, keep_tag, to_uint,
}
use project_mediaswitch.Dialog.Endpoint.{update_control}
use project_mediaswitch.Dialog.Answers.{send_401, send_403, trying, send_202}

abbrev pub is_ack : Method → Bool
is_ack m = elim m [ ack ↦ true | _ ↦ false ]

abbrev pub is_invite : Method → Bool
is_invite m = elim m [ invite ↦ true | _ ↦ false ]

abbrev pub is_refer : Method → Bool
is_refer m = elim m [ refer ↦ true | _ ↦ false ]

-- checkforhold
abbrev pub is_inactive : Items → Bool
is_inactive no_items = false
is_inactive (item v vs) =
    let further = is_inactive vs in
    (elim (as_object v) [ none ↦ false | some fs ↦ says (codes "direction") (codes "inactive") fs ])
    || further

abbrev pub media_inactive : Json → Bool
media_inactive (array vs) = is_inactive vs
media_inactive _ = false

abbrev pub origin_zero : Json → Bool
origin_zero (object fs) = says (codes "address") (codes "0.0.0.0") fs
origin_zero _ = false

unfoldable pub check_for_hold : Act
check_for_hold = with (λ d. through (as_object d.remote_sdp) (λ sdp. modify (λ e. record e {
  call_hold = media_inactive (at_key (codes "m") sdp) || origin_zero (at_key (codes "o") sdp);
})))

abbrev pub is_positive : ℤ → Bool
is_positive n = not (is_nonpos n)

-- The SDP of the other side, where the packet has one.
unfoldable pub take_sdp : Env → Packet → Act
take_sdp env pk = through (to_int env.lexical_cast pk.content_length) (λ n.
    if is_positive n
    then through (find_str pk.content_type (codes "sdp")) (λ found.
      when (not (found.endpos == 0))
        (modify (λ d. record d { remote_sdp = env.sdp_to_json pk.body d.remote_sdp })))
    else skip)

-- invite
unfoldable pub invited : Env → Packet → Act
unfolding take_sdp check_for_hold update_control trying
invited env pk =
    take_sdp env pk
    >> (if not (pk.to_tag.endpos == 0)
        then check_for_hold
          >> modify (λ d. record d { invite_pk = some pk; last_authenticated = some pk })
          >> update_control env
        else modify (λ d. record d { invite_pk = some pk; last_authenticated = some pk })
          >> update_control env
          >> trying env)

-- `checkauth`: without a challenge it fails.
abbrev pub check_auth : Env → Packet → Option Message → Bytes → Bool
check_auth env pk none password = false
check_auth env pk (some challenge) password = env.digest pk challenge password

-- `!password || !checkauth( … )`, as its opposite.
abbrev pub passes : Env → Packet → Option Message → Option Bytes → Bool
passes env pk challenge none = false
passes env pk challenge (some password) = check_auth env pk challenge password

-- A packet that does not pass.
abbrev pub refuse : Env → Act
refuse env =
    send_403 env
    >> go wait_for_ack_and_die
    >> wait_for_timer dialog_ack_timeout on_timeout_end_dialog

-- inviteauth, for a packet that passes.
abbrev pub admit_invite : Env → Packet → Act
admit_invite env pk =
    keep_tag pk.has_from pk.from_tag
    >> through pk.cseq_number (λ n. modify (λ d. record d {
      to_user = pk.user;
      from_user = pk.from_user;
      to_domain = str pk.host;
      domain = str pk.uri_host;
      authenticated = true;
      cseq = to_uint n;
    }))
    >> invited env pk

-- The directory is asked for the password, and the packet passes or is refused.
abbrev pub authenticate : Env → Packet → Act → Act
authenticate env pk admit =
    through (lookup_password_sub env.directory pk.auth_realm pk.auth_username)
      (λ password. with (λ d. if passes env pk d.auth_request password then admit else refuse env))

unfoldable pub invite_auth_state : Env → Packet → Act
unfolding invited send_403
invite_auth_state env pk = when (is_invite pk.method) (authenticate env pk (admit_invite env pk))

-- invitestart; the condition `1 /* do we need authenticating */` always holds.
unfoldable pub invite_start_state : Env → Packet → Act
unfolding invite_auth_state send_401
invite_start_state env pk =
    modify (λ d. record d { last_received = some pk })
    >> (if not (pk.auth_username.endpos == 0)
        then invite_auth_state env pk
        else set_retries 3
          >> send_401 env
          >> go wait_for_ack_then_invite_auth
          >> wait_for_timer dialog_ack_timeout resend_401)

-- refer, and referauth, for a packet that passes.
abbrev pub admit_refer : Env → Packet → Act
admit_refer env pk =
    modify (λ d. record d { domain = str pk.uri_host; authenticated = true; refer_pk = some pk })
    >> update_control env
    >> set_retries 3
    >> send_202 env

unfoldable pub handle_refer : Env → Packet → Act
unfolding update_control send_202 send_403 send_401
handle_refer env pk = when (is_refer pk.method) (
    if not (pk.auth_username.endpos == 0)
    then authenticate env pk (admit_refer env pk)
    else set_retries 3
      >> send_401 env
      >> go wait_for_ack
      >> wait_for_timer dialog_ack_timeout resend_401)
