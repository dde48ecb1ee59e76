-- ===== src/Dialog/Invite.antt =====
-- sip/projectsipdialog.cpp: the INVITE that a dialog sends and the ACK of its answer.
use project_mediaswitch.Base.{
  ℕ, ◌+◌, ◌%◌, Bool, true, false, ◌||◌, List, [], ◌∷◌, ◌++◌, Bytes, Option, none, some, codes,
  length, if◌then◌else◌, ℤ, pos, negsuc, ◌==◌, ◌>>=◌,
}
use project_mediaswitch.Text.Substring.{is_valid, str}
use project_mediaswitch.Sip.Json.{as_object, object}
use project_mediaswitch.Sip.Packet.{Packet, ack, invite}
use project_mediaswitch.Sip.Message.{
  Message, Part, request, common_headers, via, authorization, text, number, numbered, contact,
  contact_of, remote_party, body, to_header, from_header, call_id_header, content_type,
  content_length, max_forwards,
}
use project_mediaswitch.Dialog.{
  Dialog, Effect, Env, wait_for_invite_progress, wait_for_invite_progress_after_auth,
}
use project_mediaswitch.Dialog.Act.{
  Act, ◌>>◌, with, through, modify, go, followed, untrack, uint_mod,
}
use project_mediaswitch.Dialog.Endpoint.{deliver, send_pk}
use project_mediaswitch.Dialog.Answers.{copy_of, no_content}
use project_mediaswitch.Dialog.Requests.{angle_uri, tagged_uri}

-- The header Authorization or Proxy-Authorization, where the last packet asks for one.
abbrev pub is_code : ℕ → ℤ → Bool
is_code n (pos m) = m == n
is_code n (negsuc m) = false

abbrev pub wants_auth : ℤ → Bool
wants_auth code = is_code 401 code || is_code 407 code

abbrev pub authenticates : Option Packet → Bool
authenticates none = false
authenticates (some pk) = wants_auth pk.status_code

abbrev pub authorization_part : Dialog → Option Packet → List Part
authorization_part d none = []
authorization_part d (some pk) =
    if wants_auth pk.status_code then authorization pk d.from_user d.auth_secret ∷ [] else []

abbrev pub invite_message : Dialog → ℕ → Bytes → Message
invite_message d n sdp = record {
  line = request invite (codes "sip:" ++ (d.to_user ++ (codes "@" ++ d.to_domain)));
  parts =
      common_headers
      ∷ via d.last_received
      ∷ contact d.from_user
      ∷ text call_id_header d.call_id
      ∷ numbered n invite
      ∷ number max_forwards d.max_forwards
      ∷ text content_type (codes "application/sdp")
      ∷ number content_length (pos (length sdp))
      ∷ remote_party d.domain d.caller_id_name d.caller_id d.hide_cid
      ∷ (authorization_part d d.last_received
          ++ (text to_header (
                if is_valid d.their_tag
                then tagged_uri d.to_user d.to_domain (str d.their_tag)
                else angle_uri d.to_user d.to_domain)
              ∷ text from_header (tagged_uri d.from_user d.domain d.our_tag)
              ∷ body sdp
              ∷ []));
}

-- What sendinvite does once the packet was or was not sent.
abbrev pub invite_sent : Env → Message → Bool → Bool → Act
invite_sent env m authenticate false = untrack
invite_sent env m authenticate true =
    modify (λ d. record d { invite_pk = some (env.read m) })
    >> (if authenticate
        then go wait_for_invite_progress_after_auth
        else go wait_for_invite_progress)

abbrev pub Invited : Type 0
Invited = Option (Dialog × List Effect × Bool)

abbrev pub dispatch_invite : Env → Message → Dialog → Invited
dispatch_invite env m d = deliver env m d >>= λ done.
    followed done.1 (invite_sent env m (authenticates d.last_received) done.2 done.0) >>= λ after.
    some (after.0, after.1, done.2)

-- sendinvite, with its result. An SDP that is not an object is an exception.
unfoldable pub send_invite : Env → Dialog → Invited
unfolding deliver
send_invite env d = as_object d.our_sdp >>= λ fs.
    let n = (d.cseq + 1) % uint_mod in
    dispatch_invite env (invite_message d n (env.json_to_sdp (object fs))) (record d { cseq = n })

-- sendinvite where its result is not looked at.
unfoldable pub invite_again : Env → Act
unfolding send_invite
invite_again env d = send_invite env d >>= λ done. some (done.0, done.1)

abbrev pub ack_message : Dialog → Packet → Packet → Message
ack_message d invited last = record {
  line = request ack (str invited.request_uri);
  parts =
      common_headers
      ∷ via (some last)
      ∷ copy_of to_header last
      ∷ copy_of from_header last
      ∷ contact_of last
      ∷ text call_id_header d.call_id
      ∷ numbered d.cseq ack
      ∷ no_content;
}

-- sendack, for the INVITE that was sent.
unfoldable pub send_ack : Env → Act
unfolding send_pk
send_ack env = with (λ d. through d.invite_pk (λ invited. through d.last_received (λ last.
    let m = ack_message d invited last in
    modify (λ e. record e { cseq = (e.cseq + 1) % uint_mod; ack_pk = some (env.read m) })
    >> send_pk env m)))
