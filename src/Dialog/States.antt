-- ===== src/Dialog/States.antt =====
-- sip/projectsipdialog.cpp, projectsipdialoginvite.cpp and projectsipdialogrefer.cpp: the functions that
-- `nextstate` is bound to, and those that the timer is bound to.
use project_mediaswitch.Base.{
  Bool, true, false, not, ◌||◌, ◌&&◌, some, leb, ltb, if◌then◌else◌, ℤ, pos, negsuc,
}
use project_mediaswitch.Sip.Packet.{Packet, Method, refer, invite}
use project_mediaswitch.Dialog.{
  Env, State, invite_start, invite_auth, wait_for_ack_then_invite_auth, wait_for_next_instruction,
  wait_for_ack, wait_for_ack_and_die, wait_for_200, wait_for_200_and_die,
  wait_for_200_then_ack_and_die, wait_for_invite_progress, wait_for_invite_progress_after_auth,
  on_timeout_end_dialog, dialog_setup_timeout,
}
use project_mediaswitch.Dialog.Act.{
  Act, ◌>>◌, with, modify, skip, when, go, wait_for_timer, cancel_timer, keep_tag, untrack,
}
use project_mediaswitch.Dialog.Endpoint.{update_control}
use project_mediaswitch.Dialog.Answers.{trying}
use project_mediaswitch.Dialog.Invite.{is_code, wants_auth, invite_again, send_ack}
use project_mediaswitch.Dialog.Challenges.{
  is_ack, take_sdp, invite_auth_state, invite_start_state, handle_refer,
}

-- waitforacktheninviteauth
abbrev pub take_challenge_ack : Packet → Act
take_challenge_ack pk =
    when (is_ack pk.method)
      (modify (λ d. record d { ack_pk = some pk }) >> cancel_timer >> go invite_auth)

-- waitforack
abbrev pub take_ack : Env → Packet → Act
take_ack env pk = when (is_ack pk.method) (
    go wait_for_next_instruction
    >> keep_tag pk.has_from pk.from_tag
    >> modify (λ d. record d { ack_pk = some pk })
    >> cancel_timer
    >> update_control env)

-- waitforackanddie
abbrev pub take_last_ack : Env → Packet → Act
take_last_ack env pk =
    when (is_ack pk.method)
      (modify (λ d. record d { ack_pk = some pk }) >> update_control env >> untrack)

abbrev pub is_done : Packet → Bool
is_done pk = is_code 200 pk.status_code || is_code 481 pk.status_code

-- waitfor200, waitfor200anddie and waitfor200thenackanddie
abbrev pub take_200 : Packet → Act
take_200 pk =
    when (is_done pk) (go wait_for_next_instruction >> cancel_timer >> keep_tag pk.has_to pk.to_tag)

abbrev pub take_last_200 : Env → Packet → Act
take_last_200 env pk = when (is_done pk) (update_control env >> untrack)

abbrev pub take_200_and_ack : Env → Packet → Act
take_200_and_ack env pk = when (is_done pk) (send_ack env >> update_control env >> untrack)

-- The switch of waitfornextinstruction.
abbrev pub instructed : Env → Packet → Method → Act
instructed env pk invite =
    with
      (λ d. if d.call_answered && not d.call_hung_up then invite_start_state env pk else trying env)
instructed env pk refer = handle_refer env pk
instructed env pk _ = skip

-- waitfornextinstruction
unfoldable pub take_instruction : Env → Packet → Act
unfolding invite_start_state trying handle_refer
take_instruction env pk =
    modify (λ d. record d { last_received = some pk })
    >> instructed env pk pk.method
    >> wait_for_timer dialog_setup_timeout on_timeout_end_dialog

abbrev pub is_client_error : ℤ → Bool
is_client_error (pos n) = leb 400 n && ltb n 500
is_client_error (negsuc n) = false

-- The answers to our INVITE: it rings, it is answered, it failed.
abbrev pub progress_ringing : Env → Act
progress_ringing env =
    modify (λ d. record d { call_ringing = true; ringing_at = env.now }) >> update_control env

abbrev pub progress_failed : Env → Packet → Act
progress_failed env pk =
    modify (λ d. record d {
      error_code = pk.status_code;
      error_reason = pk.reason_phrase;
      call_hung_up = true;
      end_at = env.now;
    })
    >> update_control env

-- waitforinviteprogress
unfoldable pub take_progress : Env → Packet → Act
unfolding update_control take_sdp send_ack invite_again
take_progress env pk =
    if is_code 180 pk.status_code
    then progress_ringing env
    else if is_code 200 pk.status_code
    then modify (λ d. record d { call_answered = true; answer_at = env.now; authenticated = true })
      >> take_sdp env pk
      >> keep_tag pk.has_to pk.to_tag
      >> go wait_for_next_instruction
      >> send_ack env
      >> update_control env
    else if wants_auth pk.status_code
    then send_ack env >> invite_again env
    else when (is_client_error pk.status_code) (progress_failed env pk)

-- waitforinviteprogressafterauth
unfoldable pub take_progress_after_auth : Env → Packet → Act
unfolding update_control take_sdp send_ack
take_progress_after_auth env pk =
    if is_code 180 pk.status_code
    then progress_ringing env
    else if is_code 200 pk.status_code
    then modify (λ d. record d { call_answered = true; answer_at = env.now })
      >> take_sdp env pk
      >> keep_tag pk.has_to pk.to_tag
      >> send_ack env
      >> update_control env
    else when (is_client_error pk.status_code) (send_ack env >> progress_failed env pk)

-- nextstate( pk )
unfoldable pub run_state : Env → State → Packet → Act
unfolding invite_start_state invite_auth_state take_instruction take_progress
    take_progress_after_auth
run_state env invite_start pk = invite_start_state env pk
run_state env invite_auth pk = invite_auth_state env pk
run_state env wait_for_ack_then_invite_auth pk = take_challenge_ack pk
run_state env wait_for_next_instruction pk = take_instruction env pk
run_state env wait_for_ack pk = take_ack env pk
run_state env wait_for_ack_and_die pk = take_last_ack env pk
run_state env wait_for_200 pk = take_200 pk
run_state env wait_for_200_and_die pk = take_last_200 env pk
run_state env wait_for_200_then_ack_and_die pk = take_200_and_ack env pk
run_state env wait_for_invite_progress pk = take_progress env pk
run_state env wait_for_invite_progress_after_auth pk = take_progress_after_auth env pk
