-- ===== src/Dialog/Call/Events.antt =====
-- Everything that happens to one dialog, as events in the order in which they come.
use project_mediaswitch.Base.{
  ℕ, ◌≡◌, refl, Bool, true, false, not, List, [], ◌∷◌, Bytes, Option, none, some, ℤ, ◌==◌, ◌⊎◌, inl,
  inr,
}
use project_mediaswitch.Sip.Json.{Fields}
use project_mediaswitch.Sip.Packet.{Packet}
use project_mediaswitch.Dialog.{
  Garbage, Dialog, Effect, Env, Timer, on_timeout_end_dialog, on_timeout_486_and_end_dialog,
  resend_200, resend_401, resend_error, resend_bye, resend_cancel, resend_notify,
  wait_for_invite_progress,
}
use project_mediaswitch.Dialog.Act.{Act, skip, ◌>>◌, untrack}
use project_mediaswitch.Dialog.Endpoint.{update_control}
use project_mediaswitch.Dialog.Invite.{is_code}
use project_mediaswitch.Dialog.Timers.{once_more, run_timer, fired, fire, http_callback, is_200}
use project_mediaswitch.Dialog.Store.{receive, begin}
use project_mediaswitch.Dialog.Http.{
  Action, put_answer, put_invite, put_ring_action, put_ok, put_notify, put_hangup_action,
  put_unknown, run_action, with_sdp,
}
use project_mediaswitch.Dialog.Call.{
  call_of, Rules, Moves, Moves-map, Moves-reason, Kept, Moves-Kept, Stamped, Moves-Stamped,
}
use project_mediaswitch.Dialog.Call.Runs.{
  Runs, RunsAt, Runs-skip, Runs-quiet, Runs-seq, Runs-with, Runs-through, Runs-if,
}
use project_mediaswitch.Dialog.Call.Sends.{
  Runs-send_401, Runs-send_200, Runs-send_error, Runs-temporarily_unavailable, Runs-send_bye,
  Runs-send_cancel, Runs-send_notify, Runs-ringing, Runs-ok, Runs-answer, Runs-hangup,
  Runs-invite_again, Runs-notify_client,
}
use project_mediaswitch.Dialog.Call.Delivery.{Runs-set, Runs-untrack, Runs-update_control}
use project_mediaswitch.Dialog.Call.Refines.{Runs-receive}
use project_mediaswitch.Dialog.Call.Challenges.{Authorised}

pub data Event : Type 0 where
  -- a packet of the dialog, its timer, the answer of the control server, and a PUT of it
  received : Packet → Event
  timer_fired : Bool → Event
  control_answered : Bool → Option ℤ → Event
  asked : Fields → Action → Event

unfoldable pub step : Env → Event → Act
step env (received pk) = receive env pk
step env (timer_fired aborted) = fire env aborted
step env (control_answered error status) = http_callback env error status
step env (asked b a) = run_action env b a

-- The events of a dialog, each with what is around it then.
unfoldable pub run : List (Env × Event) → Act
unfolding step
run [] = skip
run (e ∷ es) = step e.0 e.1 >> run es

module _ {R : Rules} (env : Env) where
  Runs-once_more :
      (again last : Act) (t : Timer) → Runs R again → Runs R last → Runs R (once_more again last t)
  Runs-once_more again last t h g = Runs-with _ (λ d.
      Runs-if (d.retries == 0) _ _ g
        (Runs-seq _ _ h (Runs-set _ _ (λ e. refl) (Runs-quiet _ (λ e. refl)))))

  Runs-give_up : Runs R (update_control env >> untrack)
  Runs-give_up = Runs-seq _ _ (Runs-update_control env) Runs-untrack

  Runs-run_timer : (t : Timer) → Runs R (run_timer env t)
  unfolding run_timer
  Runs-run_timer on_timeout_end_dialog = Runs-untrack
  Runs-run_timer on_timeout_486_and_end_dialog = Runs-temporarily_unavailable env
  Runs-run_timer resend_200 = Runs-once_more _ _ _ (Runs-send_200 env [] false) Runs-untrack
  Runs-run_timer resend_401 = Runs-once_more _ _ _ (Runs-send_401 env) Runs-untrack
  Runs-run_timer resend_error = Runs-once_more _ _ _ (Runs-send_error env) Runs-untrack
  Runs-run_timer resend_bye = Runs-once_more _ _ _ (Runs-send_bye env) Runs-give_up
  Runs-run_timer resend_cancel = Runs-once_more _ _ _ (Runs-send_cancel env) Runs-give_up
  Runs-run_timer resend_notify = Runs-once_more _ _ _ (Runs-send_notify env) Runs-untrack

  Runs-fired : (aborted : Bool) (o : Option (Timer × ℕ)) → Runs R (fired env aborted o)
  Runs-fired aborted none = Runs-skip
  Runs-fired aborted (some t) =
      Runs-if aborted _ _ Runs-skip (Runs-set _ _ (λ d. refl) (Runs-run_timer t.0))

  Runs-fire : (aborted : Bool) → Runs R (fire env aborted)
  unfolding fire
  Runs-fire aborted = Runs-with _ (λ d. Runs-fired aborted d.timer)

  Runs-http_callback : (error : Bool) (status : Option ℤ) → Runs R (http_callback env error status)
  unfolding http_callback
  Runs-http_callback error status = Runs-with _ (λ d. Runs-if d.call_hung_up _ _ Runs-untrack (
      Runs-if error _ _ (Runs-temporarily_unavailable env)
        (Runs-if (not (is_200 status)) _ _ (Runs-temporarily_unavailable env) Runs-skip)))

  Runs-with_sdp :
      (b : Fields) (k : Bytes → Act) → ((sdp : Bytes) → Runs R (k sdp)) → Runs R (with_sdp env b k)
  Runs-with_sdp b k h =
      Runs-if _ _ _ (Runs-set _ _ (λ d. refl) (Runs-through _ _ (λ fs. h _))) (h [])

  Runs-run_action : R.Shown env.now → (b : Fields) (a : Action) → Runs R (run_action env b a)
  unfolding run_action
  Runs-run_action shown b put_answer =
      Runs-set _ _ (λ d. refl) (Runs-with_sdp b _ (λ sdp. Runs-answer env sdp shown))
  Runs-run_action shown b put_invite = Runs-with_sdp b _ (λ sdp. Runs-invite_again env)
  Runs-run_action shown b put_ring_action =
      Runs-through _ _ (λ info. Runs-set _ _ (λ d. refl) (Runs-ringing env shown))
  Runs-run_action shown b put_ok = Runs-set _ _ (λ d. refl) (Runs-with_sdp b _ (Runs-ok env))
  Runs-run_action shown b put_notify = Runs-notify_client env
  Runs-run_action shown b put_hangup_action =
      Runs-set _ _ (λ d. refl)
        (Runs-through _ _
          (λ reason. Runs-through _ _ (λ code. Runs-set _ _ (λ d. refl) (Runs-hangup env shown))))
  Runs-run_action shown b put_unknown = Runs-skip

-- What it takes for an event to admit the call of a dialog: a packet that passes, or the answer 200 to
-- the INVITE that we sent.
abbrev pub Admitting : Env → Event → Dialog → Type 0
Admitting env (received pk) d =
    Authorised env pk d.auth_request
    ⊎ ((d.next_state ≡ wait_for_invite_progress) × (is_code 200 pk.status_code ≡ true))
Admitting env _ d = ⊥

-- The rules of one event.
abbrev pub rules_of : Env → Event → Dialog → Rules
rules_of env e d = record { Shown = λ n. n ≡ env.now; Reason = Admitting env e d }

Runs-step : (env : Env) (e : Event) (d : Dialog) → RunsAt (rules_of env e d) (step env e) d
unfolding step
Runs-step env (received pk) d = Runs-receive env pk refl d inl (λ waiting good. inr (waiting, good))
Runs-step env (timer_fired aborted) d = Runs-fire env aborted d
Runs-step env (control_answered error status) d = Runs-http_callback env error status d
Runs-step env (asked b a) d = Runs-run_action env refl b a d

-- A dialog becomes authenticated only by a packet: one that passes the digest test against the challenge
-- of the dialog, with the password that the directory has for its realm and username, or the answer 200
-- to the INVITE that the dialog sent. No timer, answer or request of the control server does it.
pub step-Admitting :
    (env : Env) (e : Event) (d d' : Dialog) (sent : List Effect)
    → step env e d ≡ some (d', sent)
    → d.authenticated ≡ false
    → d'.authenticated ≡ true
    → Admitting env e d
step-Admitting env e d d' sent x off on = Moves-reason ((Runs-step env e d).runs d' sent x) off on

-- One event keeps who the call is and what has happened.
pub step-Kept :
    (env : Env) (e : Event) (d d' : Dialog) (sent : List Effect)
    → step env e d ≡ some (d', sent)
    → Kept (call_of d) (call_of d')
step-Kept env e d d' sent x = Moves-Kept ((Runs-step env e d).runs d' sent x)

-- The times of events, and the rules of a run over them.
abbrev pub IsTimeOf : List (Env × Event) → ℕ → Type 0
IsTimeOf [] n = ⊥
IsTimeOf (e ∷ es) n = (n ≡ e.0.now) ⊎ IsTimeOf es n

abbrev pub rules_over : List (Env × Event) → Rules
rules_over es = record { Shown = IsTimeOf es; Reason = Unit }

Runs-run : (es : List (Env × Event)) → Runs (rules_over es) (run es)
unfolding run
Runs-run [] = Runs-skip
Runs-run (e ∷ es) =
    Runs-seq _ _
      (λ d. record {
        runs =
            λ d' sent x. Moves-map (λ n t. inl t) (λ r. tt) ((Runs-step e.0 e.1 d).runs d' sent x);
      })
      (λ d. record {
        runs = λ d' sent x. Moves-map (λ n t. inr t) (λ r. r) ((Runs-run es d).runs d' sent x);
      })

-- Whatever happens to a dialog, in whatever order, its call goes by moves of the abstract call: it
-- rings, is answered, is admitted or hangs up, and nothing else of it changes. The time that is noted
-- with a move is the time of one of the events.
pub run-Moves :
    (es : List (Env × Event)) (d d' : Dialog) (sent : List Effect)
    → run es d ≡ some (d', sent)
    → Moves (rules_over es) (call_of d) (call_of d')
run-Moves es d d' sent x = (Runs-run es d).runs d' sent x

-- Whatever happens to a dialog, in whatever order, it keeps its Call-ID, tag, side and start, and it
-- stays authenticated, ringing, answered and hung up once it is.
pub run-Kept :
    (es : List (Env × Event)) (d d' : Dialog) (sent : List Effect)
    → run es d ≡ some (d', sent)
    → Kept (call_of d) (call_of d')
run-Kept es d d' sent x = Moves-Kept (run-Moves es d d' sent x)

-- After whatever happens to a dialog that a packet began, the times of what has not happened are 0: of
-- ringing, of the answer and of the end.
pub run-Stamped :
    (g : Garbage) (env : Env) (k : Bytes) (es : List (Env × Event)) (d : Dialog)
    (sent : List Effect)
    → run es (begin g env k) ≡ some (d, sent)
    → Stamped (call_of d)
run-Stamped g env k es d sent x =
    Moves-Stamped (run-Moves es (begin g env k) d sent x)
      (record { rang = λ h. refl; was_answered = λ h. refl; ended = λ h. refl })
