-- ===== src/Dialog/Silence.antt =====
-- A dialog of which nothing more is heard: its timer takes it out of the container.
pub mod Timers
pub mod Resends
use mathlib.Core.Path.{subst}
use project_mediaswitch.Base.{
  ℕ, zero, suc, ◌+◌, ◌-◌, ◌≤◌, ◌≡◌, refl, sym, ap, ◌∙◌, Bool, true, false, not, List, [], ◌∷◌,
  Bytes, Option, none, some, bytes_eq, if◌then◌else◌, ℤ, ◌==◌, arith, inl, inr, Bool-cases, ◌⊎◌,
  some_injective,
}
use project_mediaswitch.Text.Substring.{is_valid}
use project_mediaswitch.Sip.Packet.{Packet}
use project_mediaswitch.Sip.Message.{Message, composes}
use project_mediaswitch.Dialog.{
  Dialog, Effect, Env, State, Timer, on_timeout_end_dialog, on_timeout_486_and_end_dialog,
  resend_200, resend_401, resend_error, resend_bye, resend_cancel, resend_notify,
}
use project_mediaswitch.Dialog.Act.{
  Act, skip, modify, ◌>>◌, with, through, when, go, wait_for_timer, untrack,
}
use project_mediaswitch.Dialog.Endpoint.{
  invited_of, referred_of, put_report, control_of, update_control, send_pk,
}
use project_mediaswitch.Dialog.Answers.{
  send_challenge, send_401, temporarily_unavailable, send_200, send_error,
}
use project_mediaswitch.Dialog.Requests.{
  bye_of, send_bye, cancel_of, send_cancel, notify_of, send_notify,
}
use project_mediaswitch.Dialog.Timers.{once_more, run_timer, fired, fire}
use project_mediaswitch.Dialog.Call.Events.{Event, timer_fired, step, run}
use project_mediaswitch.Dialog.Leads.{
  Leads, Leads-skip, Leads-modify, Leads-emit, Leads-seq, Leads-set, Leads-with, Leads-through,
  Leads-if, Leads-weaken, Leads-send_pk,
}

-- What the timer handlers read.
pub record View : Type 0 where
  pub last_received : Option Packet
  pub ack_pk : Option Packet
  pub invite_pk : Option Packet
  pub refer_pk : Option Packet
  pub control : Bytes

abbrev pub view : Dialog → View
view d = record {
  last_received = d.last_received;
  ack_pk = d.ack_pk;
  invite_pk = d.invite_pk;
  refer_pk = d.refer_pk;
  control = d.control;
}

-- The CSeq of a packet, if there is one, reads as a number.
abbrev pub HasCseq : Option Packet → Type 0
HasCseq none = Unit
HasCseq (some pk) = (n : ℤ) × (pk.cseq_number ≡ some n)

-- The dialog has received a packet, its control server is known, and what is read out of its packets is
-- there: the To and the sequence numbers, and what the report has of its INVITE
-- and of a REFER that has not been told yet.
pub record Ready (env : Env) (v : View) : Type 0 where
  pub packet : Packet
  pub received : v.last_received ≡ some packet
  pub numbered : HasCseq (some packet)
  pub addressed : packet.has_to ≡ true
  pub acked : HasCseq v.ack_pk
  pub report : Option (Bytes × Bytes × Bytes × ℤ)
  pub reported : invited_of env.lexical_cast v.invite_pk ≡ some report
  pub referral : Option (Bytes × Option Bytes)
  pub referred : referred_of v.refer_pk ≡ some referral
  pub known : bytes_eq v.control [] ≡ false

abbrev HasTo : Option Packet → Type 0
HasTo none = Unit
HasTo (some pk) = pk.has_to ≡ true

received-HasTo :
    {env : Env} {v : View} (h : Ready env v) (o : Option Packet) → o ≡ some h.packet → HasTo o
received-HasTo h o e = rw e h.addressed

-- A NOTIFY is about an INVITE.
abbrev pub HasInvite : Timer → View → Type 0
HasInvite resend_notify v = (pk : Packet) × (v.invite_pk ≡ some pk)
HasInvite _ v = Unit

-- The dialog is as it was for the handlers, with as many retries.
abbrev pub Still : Env → Timer → ℕ → Dialog → Type 0
Still env t r e = Ready env (view e) × HasInvite t (view e) × (e.retries ≡ r)

abbrev pub Gone : Dialog → Type 0
Gone e = (e.tracked ≡ false) × (e.timer ≡ none)

module _ (env : Env) (to : Timer) where
  pub Leads-untrack : (d : Dialog) → Leads untrack d Gone
  Leads-untrack d = Leads-modify _ d (refl, refl)

  Leads-put_report : (d : Dialog) → Ready env (view d) → Leads (put_report env) d (λ e. Unit)
  unfolding put_report
  Leads-put_report d h = Leads-with _ d (
      Leads-through _ _ d h.report h.reported
        (Leads-through _ _ d h.referral h.referred (Leads-set _ _ d (Leads-emit _ _ tt))))

  Leads-update_control :
      (d : Dialog) → Ready env (view d) → Leads (update_control env) d (λ e. Unit)
  unfolding update_control
  Leads-update_control d h = Leads-with _ d (
      Leads-if (bytes_eq d.control []) _ _ d (λ t. elim (differ (sym t ∙ h.known)) [ ])
        (λ f. Leads-put_report d h))
    where
      differ : true ≡ false → ⊥
      differ e = cc

  pub Leads-give_up :
      (d : Dialog) → Ready env (view d) → Leads (update_control env >> untrack) d Gone
  Leads-give_up d h =
      Leads-seq (λ e. Unit) _ _ d (Leads-update_control d h) (λ e u. Leads-untrack e)

  pub Leads-send :
      (m : Message) (r : ℕ) (d : Dialog)
      → composes m.parts ≡ true
      → Still env to r d
      → Leads (send_pk env m) d (Still env to r)
  Leads-send m r d whole h = Leads-send_pk env m d h.0.packet whole h.0.received h

  Leads-wait :
      (s : State) (ms : ℕ) (t : Timer) (r : ℕ) (d : Dialog)
      → Still env to r d
      → Leads (go s >> wait_for_timer ms t) d (Still env to r)
  Leads-wait s ms t r d h = Leads-set _ _ d (Leads-modify _ _ h)

  -- An answer to the last packet, and what is waited for then.
  Leads-answering :
      (m : Dialog → Packet → Message) (s : State) (ms : ℕ) (t : Timer) (r : ℕ) (d : Dialog)
      → ((pk : Packet) → pk.has_to ≡ true → composes (m d pk).parts ≡ true)
      → Still env to r d
      → Leads
          (with (λ d. through d.last_received (λ pk. send_pk env (m d pk)))
            >> go s
            >> wait_for_timer ms t)
          d
          (Still env to r)
  Leads-answering m s ms t r d whole h =
      Leads-seq (Still env to r) _ _ d
        (Leads-with _ d (
          Leads-through _ _ d h.0.packet h.0.received
            (Leads-send _ r d (whole h.0.packet h.0.addressed) h)))
        (λ e g. Leads-wait s ms t r e g)

  pub Leads-send_401 :
      (r : ℕ) (d : Dialog) → Still env to r d → Leads (send_401 env) d (Still env to r)
  unfolding send_401
  Leads-send_401 r d h = Leads-with _ d (
      Leads-through _ _ d h.0.packet h.0.received
        (Leads-set _ _ d (Leads-send _ r _ (rw (h.0.addressed) refl) h)))

  pub Leads-send_200 :
      (r : ℕ) (d : Dialog) → Still env to r d → Leads (send_200 env [] false) d (Still env to r)
  unfolding send_200
  Leads-send_200 r d h = Leads-answering _ _ _ _ r d (λ pk has. rw (has) refl) h

  pub Leads-send_error :
      (r : ℕ) (d : Dialog) → Still env to r d → Leads (send_error env) d (Still env to r)
  unfolding send_error
  Leads-send_error r d h = Leads-answering _ _ _ _ r d (λ pk has. rw (has) refl) h

  Leads-bye_of :
      (r : ℕ) (d : Dialog) (o : Option Packet)
      → HasCseq o
      → Still env to r d
      → Leads (bye_of env d o) d (Still env to r)
  Leads-bye_of r d none c h = Leads-skip d h
  Leads-bye_of r d (some acked) c h = Leads-through _ _ d c.0 c.1 (
      Leads-through _ _ d h.0.packet h.0.received (
        Leads-set _ _ d (
          Leads-seq (Still env to r) _ _ _ (Leads-send _ r _ (rw (h.0.addressed) refl) h)
            (λ e g. Leads-wait _ _ _ r e g))))

  pub Leads-send_bye :
      (r : ℕ) (d : Dialog) → Still env to r d → Leads (send_bye env) d (Still env to r)
  unfolding send_bye
  Leads-send_bye r d h = Leads-with _ d (
      Leads-if (not (is_valid d.their_tag)) _ _ d (λ t. Leads-skip d h)
        (λ f. Leads-bye_of r d d.ack_pk h.0.acked h))

  Leads-cancel_of :
      (r : ℕ) (d : Dialog) (o : Option Packet)
      → HasCseq o
      → HasTo o
      → Still env to r d
      → Leads (cancel_of env d o) d (Still env to r)
  Leads-cancel_of r d none c a h = Leads-skip d h
  Leads-cancel_of r d (some last) c a h = Leads-through _ _ d c.0 c.1 (
      Leads-set _ _ d (
        Leads-seq (Still env to r) _ _ _ (Leads-send _ r _ (rw (a) refl) h)
          (λ e g. Leads-wait _ _ _ r e g)))

  pub Leads-send_cancel :
      (r : ℕ) (d : Dialog) → Still env to r d → Leads (send_cancel env) d (Still env to r)
  unfolding send_cancel
  Leads-send_cancel r d h = Leads-with _ d (
      Leads-cancel_of r d d.last_received (received-HasCseq d.last_received h.0.received)
        (received-HasTo h.0 d.last_received h.0.received) h)
    where
      received-HasCseq : (o : Option Packet) → o ≡ some h.0.packet → HasCseq o
      received-HasCseq o e = rw e h.0.numbered

  Leads-notify_of :
      (r : ℕ) (d : Dialog) (o : Option Packet)
      → HasTo o
      → (pk : Packet) × (d.invite_pk ≡ some pk)
      → Still env to r d
      → Leads (notify_of env d o) d (Still env to r)
  Leads-notify_of r d none a c h = Leads-skip d h
  Leads-notify_of r d (some last) a c h = Leads-through _ _ d c.0 c.1 (
      Leads-seq (Still env to r) _ _ d (Leads-send _ r d (rw (a) refl) h)
        (λ e g. Leads-modify _ e g))

  pub Leads-send_notify :
      (r : ℕ) (d : Dialog)
      → (pk : Packet) × (d.invite_pk ≡ some pk)
      → Still env to r d
      → Leads (send_notify env) d (Still env to r)
  unfolding send_notify
  Leads-send_notify r d c h =
      Leads-with _ d
        (Leads-notify_of r d d.last_received (received-HasTo h.0 d.last_received h.0.received) c h)
