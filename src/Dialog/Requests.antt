-- ===== src/Dialog/Requests.antt =====
-- sip/projectsipdialog.cpp and projectsipdialogrefer.cpp: the requests that a dialog makes, and the hang
-- up, which is a BYE, a CANCEL or an error answer.
use project_mediaswitch.Base.{
  ℕ, ◌+◌, ◌%◌, true, not, [], ◌∷◌, ◌++◌, Bytes, Option, none, some, codes, if◌then◌else◌, ℤ,
}
use project_mediaswitch.Text.Substring.{is_valid, str}
use project_mediaswitch.Sip.Packet.{Packet, bye, cancel, notify}
use project_mediaswitch.Sip.Message.{
  Message, request, common_headers, via, new_via, copied, text, numbered, contact_of, body,
  to_header, from_header, call_id_header, content_type, content_length, subscription_state,
}
use project_mediaswitch.Dialog.{
  Dialog, Env, wait_for_ack_and_die, wait_for_200, wait_for_200_and_die,
  wait_for_200_then_ack_and_die, on_timeout_end_dialog, resend_bye, resend_cancel,
  dialog_ack_timeout,
}
use project_mediaswitch.Dialog.Act.{
  Act, ◌>>◌, with, through, modify, skip, go, wait_for_timer, set_retries, to_uint, uint_mod,
}
use project_mediaswitch.Dialog.Endpoint.{send_pk}
use project_mediaswitch.Dialog.Answers.{copy_of, no_content, send_error}

-- `<sip:user@domain>`, and the same with a tag.
abbrev pub angle_uri : Bytes → Bytes → Bytes
angle_uri user home = codes "<sip:" ++ (user ++ (codes "@" ++ (home ++ codes ">")))

abbrev pub tagged_uri : Bytes → Bytes → Bytes → Bytes
tagged_uri user home tag = angle_uri user home ++ (codes ";tag=" ++ tag)

-- `pk->getcseq() + 1`. The sum of an `int` overflows at its largest value, where this one goes on.
abbrev pub next_cseq : ℤ → ℕ
next_cseq n = (to_uint n + 1) % uint_mod

abbrev pub bye_message : Dialog → Packet → Packet → ℕ → Message
bye_message d acked last n = record {
  line = request bye (str acked.request_uri);
  parts =
      text to_header (tagged_uri d.to_user d.to_domain (str d.their_tag))
      ∷ text from_header (tagged_uri d.from_user d.domain d.our_tag)
      ∷ new_via
      ∷ contact_of last
      ∷ text call_id_header d.call_id
      ∷ numbered n bye
      ∷ common_headers
      ∷ no_content;
}

-- What sendbye does with the last ACK, if there is one.
abbrev pub bye_of : Env → Dialog → Option Packet → Act
bye_of env d none = skip
bye_of env d (some acked) = through acked.cseq_number (λ n. through d.last_received (λ last.
    modify (λ e. record e { cseq = next_cseq n })
    >> send_pk env (bye_message d acked last (next_cseq n))
    >> go wait_for_200_and_die
    >> wait_for_timer dialog_ack_timeout resend_bye))

-- sendbye, which needs an established dialog: the tag of the other side and an ACK.
unfoldable pub send_bye : Env → Act
unfolding send_pk
send_bye env = with (λ d. if not (is_valid d.their_tag) then skip else bye_of env d d.ack_pk)

-- The packet that a CANCEL is about.
abbrev pub or_last : Option Packet → Packet → Packet
or_last none last = last
or_last (some pk) last = pk

abbrev pub cancel_message : Dialog → Packet → Packet → ℕ → Message
cancel_message d ref last n = record {
  line = request cancel (str ref.request_uri);
  parts =
      copy_of to_header ref
      ∷ copy_of from_header ref
      ∷ via (some last)
      ∷ contact_of last
      ∷ text call_id_header d.call_id
      ∷ numbered n cancel
      ∷ common_headers
      ∷ no_content;
}

abbrev pub cancel_of : Env → Dialog → Option Packet → Act
cancel_of env d none = skip
cancel_of env d (some last) = through last.cseq_number (λ n.
    modify (λ e. record e { cseq = next_cseq n })
    >> send_pk env (cancel_message d (or_last d.invite_pk last) last (next_cseq n))
    >> go wait_for_200_then_ack_and_die
    >> wait_for_timer dialog_ack_timeout resend_cancel)

-- sendcancel, which needs a received packet.
unfoldable pub send_cancel : Env → Act
unfolding send_pk
send_cancel env = with (λ d. cancel_of env d d.last_received)

unfoldable pub hangup : Env → Act
unfolding send_bye send_cancel send_error
hangup env =
    modify (λ d. record d { call_hung_up = true; end_at = env.now })
    >> with (λ d.
      if d.call_answered
      then send_bye env
      else if d.originator
      then send_cancel env
      else set_retries 3
        >> send_error env
        >> go wait_for_ack_and_die
        >> wait_for_timer dialog_ack_timeout on_timeout_end_dialog)

abbrev pub notify_message : Dialog → Packet → Packet → Message
notify_message d invited last = record {
  line = request notify (str invited.request_uri);
  parts =
      common_headers
      ∷ via (some last)
      ∷ copied to_header last from_header
      ∷ copied from_header last to_header
      ∷ contact_of last
      ∷ text call_id_header d.call_id
      ∷ numbered d.cseq notify
      ∷ text content_type (codes "message/sipfrag;version=2.0")
      ∷ text subscription_state (codes "active;expires=500")
      ∷ text content_length (codes "14")
      ∷ body (codes "SIP/2.0 200 OK")
      ∷ [];
}

abbrev pub notify_of : Env → Dialog → Option Packet → Act
notify_of env d none = skip
notify_of env d (some last) = through d.invite_pk (λ invited.
    send_pk env (notify_message d invited last)
    >> wait_for_timer dialog_ack_timeout on_timeout_end_dialog)

-- sendnotify, which needs a received packet.
unfoldable pub send_notify : Env → Act
unfolding send_pk
send_notify env = with (λ d. notify_of env d d.last_received)

-- notify
unfoldable pub notify_client : Env → Act
unfolding send_notify
notify_client env =
    modify (λ d. record d { cseq = (d.cseq + 1) % uint_mod }) >> send_notify env >> go wait_for_200
