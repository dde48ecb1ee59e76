-- ===== src/Dialog/Answers.antt =====
-- sip/projectsipdialog.cpp: the answers that a dialog gives, with the state and the timer that follow.
use project_mediaswitch.Base.{
  ◌+◌, ◌-◌, ◌%◌, Bool, true, false, not, ◌&&◌, List, [], ◌∷◌, ◌++◌, Bytes, some, codes, length,
  if◌then◌else◌, ℤ, pos, ◌==◌,
}
use project_mediaswitch.Text.Substring.{Substring, size_mod, set_start, set_end, str}
use project_mediaswitch.Sip.Packet.{Packet}
use project_mediaswitch.Sip.Message.{
  Message, Part, Header, status, common_headers, via, challenge, copied, text, number, contact_of,
  body, to_header, from_header, via_header, call_id_header, cseq_header, content_type,
  content_length, alert_info,
}
use project_mediaswitch.Dialog.{
  Dialog, Env, wait_for_ack, wait_for_ack_and_die, on_timeout_end_dialog,
  on_timeout_486_and_end_dialog, resend_200, resend_error, dialog_ack_timeout, dialog_setup_timeout,
}
use project_mediaswitch.Dialog.Act.{
  Act, ◌>>◌, with, through, modify, go, wait_for_timer, cancel_timer, set_retries, when,
}
use project_mediaswitch.Dialog.Endpoint.{send_pk}

-- The headers that are copied from the packet that is answered, around its To.
abbrev pub copy_of : Header → Packet → Part
copy_of h pk = copied h pk h

abbrev pub copies : Part → Packet → List Part
copies to pk =
    to
    ∷ copy_of from_header pk
    ∷ copy_of call_id_header pk
    ∷ copy_of cseq_header pk
    ∷ contact_of pk
    ∷ []

abbrev pub no_content : List Part
no_content = text content_length (codes "0") ∷ []

-- An answer without content.
abbrev pub bare_answer : ℤ → Bytes → List Part → Packet → Message
bare_answer code reason before pk = record {
  line = status code reason;
  parts = common_headers ∷ (before ++ copies (copy_of to_header pk) pk ++ no_content);
}

-- The URI of the To header with its `<` and `>`, and our tag.
abbrev pub widened : Substring → Substring
widened u =
    if u.endpos == 0
    then u
    else set_end (set_start u ((u.startpos + size_mod - 1) % size_mod)) ((u.endpos + 1) % size_mod)

abbrev pub tagged : Bytes → Packet → Part
tagged tag pk = text to_header (str (widened pk.to_uri) ++ (codes ";tag=" ++ tag))

abbrev pub with_via : Packet → List Part
with_via pk = via (some pk) ∷ []

-- send401 and send403, which keep their answer as the challenge that a digest is checked against.
abbrev pub send_challenge : ℤ → Bytes → Env → Act
send_challenge code reason env = with (λ d. through d.last_received (λ pk.
    let m = bare_answer code reason (via (some pk) ∷ challenge pk env.nonce ∷ []) pk in
    modify (λ e. record e { auth_request = some m }) >> send_pk env m))

unfoldable pub send_401 : Env → Act
unfolding send_pk
send_401 env = send_challenge (pos 401) (codes "Unauthorized") env

unfoldable pub send_403 : Env → Act
unfolding send_pk
send_403 env = send_challenge (pos 403) (codes "Failed auth") env

unfoldable pub trying : Env → Act
unfolding send_pk
trying env =
    with (λ d.
      through d.last_received (λ pk.
        send_pk env (bare_answer (pos 100) (codes "Trying") (copy_of via_header pk ∷ []) pk)))
    >> wait_for_timer dialog_setup_timeout on_timeout_486_and_end_dialog

unfoldable pub temporarily_unavailable : Env → Act
unfolding send_pk
temporarily_unavailable env =
    with (λ d. through d.last_received (λ pk.
      send_pk env (bare_answer (pos 480) (codes "Temporarily Unavailable") (with_via pk) pk)))
    >> go wait_for_ack_and_die
    >> wait_for_timer dialog_ack_timeout on_timeout_end_dialog

abbrev pub ringing_message : Dialog → Packet → Message
ringing_message d pk = record {
  line = status (pos 180) (codes "Ringing");
  parts =
      common_headers
      ∷ copy_of via_header pk
      ∷ (copies (tagged d.our_tag pk) pk
          ++ no_content
          ++ (if length d.alert_info == 0 then [] else text alert_info d.alert_info ∷ []));
}

unfoldable pub ringing : Env → Act
unfolding send_pk
ringing env = with (λ d. when (not d.call_ringing && not d.call_answered && not d.call_hung_up) (
    through d.invite_pk (λ pk.
      send_pk env (ringing_message d pk)
      >> cancel_timer
      >> modify (λ e. record e { call_ringing = true; ringing_at = env.now })
      >> wait_for_timer dialog_setup_timeout on_timeout_486_and_end_dialog)))

abbrev pub ok_message : Bytes → Dialog → Packet → Message
ok_message content d pk = record {
  line = status (pos 200) (codes "Ok");
  parts =
      common_headers
      ∷ via (some pk)
      ∷ (copies (tagged d.our_tag pk) pk
          ++ (number content_length (pos (length content))
              ∷ (if length content == 0
                  then []
                  else text content_type (codes "application/sdp") ∷ body content ∷ [])));
}

-- send200; `final` says that the ACK ends the dialog.
unfoldable pub send_200 : Env → Bytes → Bool → Act
unfolding send_pk
send_200 env content final =
    with (λ d. through d.last_received (λ pk. send_pk env (ok_message content d pk)))
    >> (if final then go wait_for_ack_and_die else go wait_for_ack)
    >> wait_for_timer dialog_ack_timeout resend_200

unfoldable pub send_202 : Env → Act
unfolding send_pk
send_202 env = with (λ d. through d.last_received (λ pk. send_pk env (record {
  line = status (pos 202) (codes "Accepted");
  parts = common_headers ∷ via (some pk) ∷ (copies (tagged d.our_tag pk) pk ++ no_content);
})))

unfoldable pub send_error : Env → Act
unfolding send_pk
send_error env =
    with (λ d.
      through d.last_received
        (λ pk. send_pk env (bare_answer d.error_code d.error_reason (with_via pk) pk)))
    >> go wait_for_ack_and_die
    >> wait_for_timer dialog_ack_timeout resend_error

-- ok
unfoldable pub ok : Env → Bytes → Act
unfolding send_200
ok env content =
    set_retries 3
    >> send_200 env content false
    >> go wait_for_ack
    >> wait_for_timer dialog_ack_timeout on_timeout_end_dialog

unfoldable pub answer : Env → Bytes → Act
unfolding send_200
answer env content = with (λ d. when (not d.call_answered) (
    set_retries 3
    >> send_200 env content false
    >> go wait_for_ack
    >> modify (λ e. record e { call_answered = true; answer_at = env.now })
    >> wait_for_timer dialog_ack_timeout on_timeout_end_dialog))
