-- ===== src/Dialog/Call/Refines.antt =====
-- Every packet, timer, answer of the control server and request of it is a run of the abstract call; the
-- call is admitted by a packet that passes, or by the answer to our own INVITE.
use project_mediaswitch.Base.{◌≡◌, refl, true, false, not, ◌&&◌, []}
use project_mediaswitch.Sip.Packet.{Packet, Method, refer, invite, cancel, bye}
use project_mediaswitch.Dialog.{
  Dialog, Env, State, invite_start, invite_auth, wait_for_ack_then_invite_auth,
  wait_for_next_instruction, wait_for_ack, wait_for_ack_and_die, wait_for_200, wait_for_200_and_die,
  wait_for_200_then_ack_and_die, wait_for_invite_progress, wait_for_invite_progress_after_auth,
}
use project_mediaswitch.Dialog.Act.{Act, ◌>>◌, untrack}
use project_mediaswitch.Dialog.Endpoint.{update_control}
use project_mediaswitch.Dialog.Invite.{is_code}
use project_mediaswitch.Dialog.States.{
  instructed, take_instruction, progress_ringing, progress_failed, take_progress,
  take_progress_after_auth, run_state, is_client_error,
}
use project_mediaswitch.Dialog.Store.{handle_bye, handled, receive}
use project_mediaswitch.Dialog.Call.{Rules, stays, moves, rings, answers, hangs_up, admits}
use project_mediaswitch.Dialog.Call.Runs.{
  Runs, RunsAt, Runs-skip, Runs-modify, Runs-quiet, Runs-seq_at, Runs-seq, Runs-if, Runs-when,
  Runs-after, Runs-at, RunsAt-if,
}
use project_mediaswitch.Dialog.Call.Sends.{
  Runs-trying, Runs-send_200, Runs-invite_again, Runs-send_ack,
}
use project_mediaswitch.Dialog.Call.Delivery.{
  Runs-set, Runs-keep_tag, Runs-untrack, Runs-update_control,
}
use project_mediaswitch.Dialog.Call.Challenges.{
  Authorised, Runs-take_sdp, Runs-invite_auth, Runs-invite_start, Runs-handle_refer,
}

module _ {R : Rules} (env : Env) (pk : Packet) (shown : R.Shown env.now) where
  Runs-instructed :
      (m : Method) (d : Dialog)
      → (Authorised env pk d.auth_request → R.Reason)
      → RunsAt R (instructed env pk m) d
  Runs-instructed invite d h = Runs-at _ d (
      RunsAt-if (d.call_answered && not d.call_hung_up) _ _ d (λ on. Runs-invite_start env pk d h)
        (Runs-trying env d))
  Runs-instructed refer d h = Runs-handle_refer env pk d h
  Runs-instructed _ d h = Runs-skip d

  Runs-take_instruction :
      (d : Dialog)
      → (Authorised env pk d.auth_request → R.Reason)
      → RunsAt R (take_instruction env pk) d
  unfolding take_instruction
  Runs-take_instruction d h =
      Runs-after _ _ d refl
        (Runs-seq_at _ _ _ (Runs-instructed pk.method _ h) (Runs-quiet _ (λ z. refl)))

  Runs-progress_ringing : Runs R (progress_ringing env)
  Runs-progress_ringing =
      Runs-seq _ _ (Runs-modify _ (λ d. moves stays (rings env.now shown refl)))
        (Runs-update_control env)

  Runs-progress_failed : Runs R (progress_failed env pk)
  Runs-progress_failed =
      Runs-seq _ _ (Runs-modify _ (λ d. moves stays (hangs_up env.now shown refl)))
        (Runs-update_control env)

  Runs-take_progress :
      (d : Dialog)
      → (is_code 200 pk.status_code ≡ true → R.Reason)
      → RunsAt R (take_progress env pk) d
  unfolding take_progress
  Runs-take_progress d h =
      RunsAt-if (is_code 180 pk.status_code) _ _ d (λ rang. Runs-progress_ringing d)
        (RunsAt-if (is_code 200 pk.status_code) _ _ d
          (λ good.
            Runs-seq _ _
              (Runs-modify _
                (λ e. moves (moves stays (answers env.now shown refl)) (admits (h good) refl)))
              (Runs-seq _ _ (Runs-take_sdp env pk) (
                Runs-seq _ _ (Runs-keep_tag pk.has_to pk.to_tag) (
                  Runs-set _ _ (λ e. refl)
                    (Runs-seq _ _ (Runs-send_ack env) (Runs-update_control env)))))
              d)
          (Runs-if _ _ _ (Runs-seq _ _ (Runs-send_ack env) (Runs-invite_again env))
            (Runs-when _ _ Runs-progress_failed) d))

  Runs-take_progress_after_auth : Runs R (take_progress_after_auth env pk)
  unfolding take_progress_after_auth
  Runs-take_progress_after_auth = Runs-if (is_code 180 pk.status_code) _ _ Runs-progress_ringing (
      Runs-if (is_code 200 pk.status_code) _ _
        (Runs-seq _ _ (Runs-modify _ (λ e. moves stays (answers env.now shown refl))) (
          Runs-seq _ _ (Runs-take_sdp env pk) (
            Runs-seq _ _ (Runs-keep_tag pk.has_to pk.to_tag)
              (Runs-seq _ _ (Runs-send_ack env) (Runs-update_control env)))))
        (Runs-when (is_client_error pk.status_code) _
          (Runs-seq _ _ (Runs-send_ack env) Runs-progress_failed)))

  Runs-done : (m : Act) → Runs R m → Runs R (m >> update_control env >> untrack)
  Runs-done m h = Runs-seq _ _ h (Runs-seq _ _ (Runs-update_control env) Runs-untrack)

  Runs-run_state :
      (s : State) (d : Dialog)
      → (Authorised env pk d.auth_request → R.Reason)
      → (s ≡ wait_for_invite_progress → is_code 200 pk.status_code ≡ true → R.Reason)
      → RunsAt R (run_state env s pk) d
  unfolding run_state
  Runs-run_state invite_start d h g = Runs-invite_start env pk d h
  Runs-run_state invite_auth d h g = Runs-invite_auth env pk d h
  Runs-run_state wait_for_ack_then_invite_auth d h g =
      Runs-when _ _ (Runs-set _ _ (λ e. refl) (Runs-set _ _ (λ e. refl) (Runs-quiet _ (λ e. refl))))
        d
  Runs-run_state wait_for_next_instruction d h g = Runs-take_instruction d h
  Runs-run_state wait_for_ack d h g =
      Runs-when _ _
        (Runs-set _ _ (λ e. refl)
          (Runs-seq _ _ (Runs-keep_tag pk.has_from pk.from_tag)
            (Runs-set _ _ (λ e. refl) (Runs-set _ _ (λ e. refl) (Runs-update_control env)))))
        d
  Runs-run_state wait_for_ack_and_die d h g =
      Runs-when _ _ (Runs-done _ (Runs-quiet _ (λ e. refl))) d
  Runs-run_state wait_for_200 d h g =
      Runs-when _ _
        (Runs-set _ _ (λ e. refl) (Runs-set _ _ (λ e. refl) (Runs-keep_tag pk.has_to pk.to_tag))) d
  Runs-run_state wait_for_200_and_die d h g =
      Runs-when _ _ (Runs-seq _ _ (Runs-update_control env) Runs-untrack) d
  Runs-run_state wait_for_200_then_ack_and_die d h g =
      Runs-when _ _ (Runs-done _ (Runs-send_ack env)) d
  Runs-run_state wait_for_invite_progress d h g = Runs-take_progress d (g refl)
  Runs-run_state wait_for_invite_progress_after_auth d h g = Runs-take_progress_after_auth d

  Runs-handle_bye : Runs R (handle_bye env pk)
  unfolding handle_bye
  Runs-handle_bye =
      Runs-seq _ _ (Runs-modify _ (λ d. moves stays (hangs_up env.now shown refl)))
        (Runs-seq _ _ (Runs-send_200 env [] false) (Runs-update_control env))

  Runs-handled :
      (m : Method) (d : Dialog)
      → (Authorised env pk d.auth_request → R.Reason)
      → (d.next_state ≡ wait_for_invite_progress → is_code 200 pk.status_code ≡ true → R.Reason)
      → RunsAt R (handled env pk m) d
  Runs-handled bye d h g = Runs-handle_bye d
  Runs-handled cancel d h g = Runs-handle_bye d
  Runs-handled _ d h g = Runs-at _ d (Runs-run_state d.next_state d h g)

  -- What a packet does to a dialog is a run of its call.
  pub Runs-receive :
      (d : Dialog)
      → (Authorised env pk d.auth_request → R.Reason)
      → (d.next_state ≡ wait_for_invite_progress → is_code 200 pk.status_code ≡ true → R.Reason)
      → RunsAt R (receive env pk) d
  unfolding receive
  Runs-receive d h g = Runs-after _ _ d refl (Runs-handled pk.method _ h g)
