-- ===== src/Dialog/Call/Sends.antt =====
-- The answers and requests of a dialog, and the report to the control server, as moves of its call:
-- only `ringing`, `answer` and `hangup` are moves at all.
use mathlib.Core.Path.{subst}
use project_mediaswitch.Base.{
  ℕ, ◌+◌, ◌%◌, ◌≡◌, refl, sym, ap, ◌∙◌, Bool, true, false, List, Bytes, Option, none, some, ℤ,
  >>=-eq-some, some_injective,
}
use project_mediaswitch.Sip.Json.{as_object, object}
use project_mediaswitch.Sip.Packet.{Packet}
use project_mediaswitch.Sip.Message.{Message}
use project_mediaswitch.Dialog.{Dialog, Effect, Env, State, Timer}
use project_mediaswitch.Dialog.Act.{
  Act, followed, uint_mod, ◌>>◌, with, through, go, wait_for_timer,
}
use project_mediaswitch.Dialog.Endpoint.{deliver, send_pk}
use project_mediaswitch.Dialog.Answers.{
  send_challenge, send_401, send_403, trying, temporarily_unavailable, ringing, send_200, send_202,
  send_error, ok, answer,
}
use project_mediaswitch.Dialog.Requests.{
  bye_of, send_bye, cancel_of, send_cancel, hangup, notify_of, send_notify, notify_client,
}
use project_mediaswitch.Dialog.Invite.{
  invite_sent, authenticates, invite_message, dispatch_invite, send_invite, invite_again, send_ack,
}
use project_mediaswitch.Dialog.Call.{Rules, call_of, Moves, stays, moves, rings, answers, hangs_up}
use project_mediaswitch.Dialog.Call.Runs.{
  Runs, Moves-same, Runs-skip, Runs-modify, Runs-quiet, Runs-seq, Runs-with, Runs-through, Runs-if,
  Runs-when,
}
use project_mediaswitch.Dialog.Call.Delivery.{
  deliver_same, Runs-send_pk, Runs-reading, Runs-set, Runs-untrack,
}

module _ {R : Rules} where
  -- An answer, and what follows it.
  Runs-answering :
      (env : Env) (m : Dialog → Packet → Message) (n : Act)
      → Runs R n
      → Runs R (with (λ d. through d.last_received (λ pk. send_pk env (m d pk))) >> n)
  Runs-answering env m n h = Runs-seq _ n (Runs-reading _ (λ d pk. Runs-send_pk env (m d pk))) h

  Runs-wait : (s : State) (ms : ℕ) (t : Timer) → Runs R (go s >> wait_for_timer ms t)
  Runs-wait s ms t = Runs-set _ _ (λ d. refl) (Runs-quiet _ (λ d. refl))

  Runs-send_challenge :
      (code : ℤ) (reason : Bytes) (env : Env) → Runs R (send_challenge code reason env)
  Runs-send_challenge code reason env =
      Runs-reading _ (λ d pk. Runs-set _ _ (λ e. refl) (Runs-send_pk env _))

  pub Runs-send_401 : (env : Env) → Runs R (send_401 env)
  unfolding send_401
  Runs-send_401 env = Runs-send_challenge _ _ env

  pub Runs-send_403 : (env : Env) → Runs R (send_403 env)
  unfolding send_403
  Runs-send_403 env = Runs-send_challenge _ _ env

  pub Runs-trying : (env : Env) → Runs R (trying env)
  unfolding trying
  Runs-trying env = Runs-answering env _ _ (Runs-quiet _ (λ d. refl))

  pub Runs-temporarily_unavailable : (env : Env) → Runs R (temporarily_unavailable env)
  unfolding temporarily_unavailable
  Runs-temporarily_unavailable env = Runs-answering env _ _ (Runs-wait _ _ _)

  pub Runs-send_200 :
      (env : Env) (content : Bytes) (final : Bool) → Runs R (send_200 env content final)
  unfolding send_200
  Runs-send_200 env content final = Runs-answering env _ _ (
      Runs-seq _ _ (Runs-if final _ _ (Runs-quiet _ (λ d. refl)) (Runs-quiet _ (λ d. refl)))
        (Runs-quiet _ (λ d. refl)))

  pub Runs-send_202 : (env : Env) → Runs R (send_202 env)
  unfolding send_202
  Runs-send_202 env = Runs-reading _ (λ d pk. Runs-send_pk env _)

  pub Runs-send_error : (env : Env) → Runs R (send_error env)
  unfolding send_error
  Runs-send_error env = Runs-answering env _ _ (Runs-wait _ _ _)

  pub Runs-ringing : (env : Env) → R.Shown env.now → Runs R (ringing env)
  unfolding ringing
  Runs-ringing env shown = Runs-with _ (λ d. Runs-when _ _ (
      Runs-through d.invite_pk _ (λ pk. Runs-seq _ _ (Runs-send_pk env _) (
        Runs-set _ _ (λ e. refl)
          (Runs-seq _ _ (Runs-modify _ (λ e. moves stays (rings env.now shown refl)))
            (Runs-quiet _ (λ e. refl)))))))

  pub Runs-ok : (env : Env) (content : Bytes) → Runs R (ok env content)
  unfolding ok
  Runs-ok env content =
      Runs-set _ _ (λ d. refl) (Runs-seq _ _ (Runs-send_200 env content false) (Runs-wait _ _ _))

  pub Runs-answer : (env : Env) (content : Bytes) → R.Shown env.now → Runs R (answer env content)
  unfolding answer
  Runs-answer env content shown = Runs-with _ (λ d. Runs-when _ _ (
      Runs-set _ _ (λ e. refl)
        (Runs-seq _ _ (Runs-send_200 env content false) (
          Runs-set _ _ (λ e. refl)
            (Runs-seq _ _ (Runs-modify _ (λ e. moves stays (answers env.now shown refl)))
              (Runs-quiet _ (λ e. refl)))))))

  Runs-send_bye_of : (env : Env) (d : Dialog) (o : Option Packet) → Runs R (bye_of env d o)
  Runs-send_bye_of env d none = Runs-skip
  Runs-send_bye_of env d (some acked) = Runs-through _ _ (λ n.
      Runs-through _ _
        (λ last. Runs-set _ _ (λ e. refl) (Runs-seq _ _ (Runs-send_pk env _) (Runs-wait _ _ _))))

  pub Runs-send_bye : (env : Env) → Runs R (send_bye env)
  unfolding send_bye
  Runs-send_bye env = Runs-with _ (λ d. Runs-if _ _ _ Runs-skip (Runs-send_bye_of env d d.ack_pk))

  Runs-send_cancel_of : (env : Env) (d : Dialog) (o : Option Packet) → Runs R (cancel_of env d o)
  Runs-send_cancel_of env d none = Runs-skip
  Runs-send_cancel_of env d (some last) =
      Runs-through _ _
        (λ n. Runs-set _ _ (λ e. refl) (Runs-seq _ _ (Runs-send_pk env _) (Runs-wait _ _ _)))

  pub Runs-send_cancel : (env : Env) → Runs R (send_cancel env)
  unfolding send_cancel
  Runs-send_cancel env = Runs-with _ (λ d. Runs-send_cancel_of env d d.last_received)

  pub Runs-hangup : (env : Env) → R.Shown env.now → Runs R (hangup env)
  unfolding hangup
  Runs-hangup env shown =
      Runs-seq _ _ (Runs-modify _ (λ d. moves stays (hangs_up env.now shown refl))) (
        Runs-with _ (λ d. Runs-if d.call_answered _ _ (Runs-send_bye env) (
          Runs-if d.originator _ _ (Runs-send_cancel env)
            (Runs-set _ _ (λ e. refl) (Runs-seq _ _ (Runs-send_error env) (Runs-wait _ _ _))))))

  Runs-invite_sent : (env : Env) (m : Message) (a b : Bool) → Runs R (invite_sent env m a b)
  Runs-invite_sent env m a false = Runs-untrack
  Runs-invite_sent env m a true =
      Runs-set _ _ (λ d. refl) (Runs-if a _ _ (Runs-quiet _ (λ d. refl)) (Runs-quiet _ (λ d. refl)))

  Runs-dispatch_invite :
      (env : Env) (m : Message) (d d' : Dialog) (sent : List Effect) (b : Bool)
      → dispatch_invite env m d ≡ some (d', sent, b)
      → Moves R (call_of d) (call_of d')
  Runs-dispatch_invite env m d d' sent b e =
      let (done, x, y) = >>=-eq-some (deliver env m d) _ e in
      let (after, x', y') =
        >>=-eq-some
          (followed done.1 (invite_sent env m (authenticates d.last_received) done.2 done.0)) _ y in
      let (rest, u, w) =
        >>=-eq-some (invite_sent env m (authenticates d.last_received) done.2 done.0) _ x' in
      let same : call_of rest.0 ≡ call_of d' =
        ap (λ z. call_of z.0) (some_injective w) ∙ ap (λ z. call_of z.0) (some_injective y') in
      subst (Moves R (call_of d)) same (
        subst (λ c. Moves R c (call_of rest.0))
          (sym (deliver_same call_of (λ code reason d. refl) env m d done.0 done.1 done.2 x))
          ((Runs-invite_sent env m _ done.2 done.0).runs rest.0 rest.1 u))

  pub Runs-send_invite :
      (env : Env) (d d' : Dialog) (sent : List Effect) (b : Bool)
      → send_invite env d ≡ some (d', sent, b)
      → Moves R (call_of d) (call_of d')
  unfolding send_invite
  Runs-send_invite env d d' sent b e =
      let (fs, x, y) = >>=-eq-some (as_object d.our_sdp) _ e in
      let n = (d.cseq + 1) % uint_mod in
      Runs-dispatch_invite env (invite_message d n (env.json_to_sdp (object fs)))
        (record d { cseq = n }) d' sent b y

  pub Runs-invite_again : (env : Env) → Runs R (invite_again env)
  unfolding invite_again
  Runs-invite_again env d = record {
    runs = λ d' sent e.
        let (done, x, y) = >>=-eq-some (send_invite env d) _ e in
        Moves-same (ap (λ z. call_of z.0) (some_injective y))
          (Runs-send_invite env d done.0 done.1 done.2 x);
  }

  pub Runs-send_ack : (env : Env) → Runs R (send_ack env)
  unfolding send_ack
  Runs-send_ack env = Runs-with _ (λ d. Runs-through d.invite_pk _ (λ invited.
      Runs-through d.last_received _ (λ last. Runs-set _ _ (λ e. refl) (Runs-send_pk env _))))

  Runs-notify_of : (env : Env) (d : Dialog) (o : Option Packet) → Runs R (notify_of env d o)
  Runs-notify_of env d none = Runs-skip
  Runs-notify_of env d (some last) =
      Runs-through d.invite_pk _
        (λ invited. Runs-seq _ _ (Runs-send_pk env _) (Runs-quiet _ (λ e. refl)))

  pub Runs-send_notify : (env : Env) → Runs R (send_notify env)
  unfolding send_notify
  Runs-send_notify env = Runs-with _ (λ d. Runs-notify_of env d d.last_received)

  pub Runs-notify_client : (env : Env) → Runs R (notify_client env)
  unfolding notify_client
  Runs-notify_client env =
      Runs-set _ _ (λ d. refl) (Runs-seq _ _ (Runs-send_notify env) (Runs-quiet _ (λ d. refl)))
