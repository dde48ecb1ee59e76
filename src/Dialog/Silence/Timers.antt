-- ===== src/Dialog/Silence/Timers.antt =====
-- The firings of the timer, until the dialog is gone.
use mathlib.Core.Path.{subst}
use project_mediaswitch.Base.{
  ℕ, zero, suc, ◌+◌, ◌-◌, ◌≤◌, ◌≡◌, refl, sym, ap, false, List, [], ◌∷◌, Option, none, some, ◌==◌,
  arith, inl, inr, ◌⊎◌, some_injective,
}
use project_mediaswitch.Dialog.{
  Dialog, Env, Timer, on_timeout_end_dialog, on_timeout_486_and_end_dialog, resend_200, resend_401,
  resend_error, resend_bye, resend_cancel, resend_notify,
}
use project_mediaswitch.Dialog.Act.{Act}
use project_mediaswitch.Dialog.Answers.{temporarily_unavailable}
use project_mediaswitch.Dialog.Timers.{once_more, run_timer, fired, fire}
use project_mediaswitch.Dialog.Call.Events.{Event, timer_fired, step, run}
use project_mediaswitch.Dialog.Leads.{
  Leads, Leads-skip, Leads-modify, Leads-seq, Leads-set, Leads-with, Leads-through, Leads-if,
  Leads-weaken,
}
use project_mediaswitch.Dialog.Silence.{
  view, Ready, HasInvite, Still, Gone, Leads-untrack, Leads-give_up, Leads-send, Leads-send_401,
  Leads-send_200, Leads-send_error, Leads-send_bye, Leads-send_cancel, Leads-send_notify,
}

-- How often a timer still fires, with so many retries left.
abbrev pub firings : Timer → ℕ → ℕ
firings on_timeout_end_dialog r = 1
firings on_timeout_486_and_end_dialog r = 2
firings _ r = r + 1

-- The dialog is gone, or waits for a timer that fires at most `n` times.
abbrev Waiting : Env → ℕ → Dialog → Type 0
Waiting env n e =
    (t : Timer) × (ms : ℕ) × (e.timer ≡ some (t, ms))
    × Ready env (view e)
    × HasInvite t (view e)
    × (firings t e.retries ≤ n)

abbrev Next : Env → ℕ → Dialog → Type 0
Next env n e = Gone e ⊎ Waiting env n e

module _ (env : Env) (n : ℕ) where
  -- A resend, and a timer that counts the retries.
  Leads-once_more :
      (again last : Act) (t : Timer) (d : Dialog)
      → ((r : ℕ) → firings t r ≡ r + 1)
      → Ready env (view d)
      → HasInvite t (view d)
      → d.retries ≤ n
      → (Still env t d.retries d → Leads again d (Still env t d.retries))
      → Leads last d Gone
      → Leads (once_more again last t) d (Next env n)
  Leads-once_more again last t d count h i few resend end = Leads-with _ d (
      Leads-if (d.retries == 0) _ _ d (λ z. Leads-weaken Gone _ d end (λ e g. inl g))
        (λ z. Leads-seq (Still env t d.retries) _ _ d (resend (h, i, refl)) (λ e g.
          Leads-set _ _ e
            (Leads-modify _ _ (inr (t, 3000, refl, g.0, g.1, fewer e.retries (some_left z) g.2))))))
    where
      some_left : (d.retries == 0) ≡ false → 1 ≤ d.retries
      some_left z = ground (arith, z)

      fewer : (r : ℕ) → 1 ≤ d.retries → r ≡ d.retries → firings t (r - 1) ≤ n
      fewer r left same = omega (arith, count (r - 1), few, left, same)

  Leads-run_timer :
      (t : Timer) (d : Dialog)
      → Ready env (view d)
      → HasInvite t (view d)
      → firings t d.retries ≤ n + 1
      → Leads (run_timer env t) d (Next env n)
  unfolding run_timer temporarily_unavailable
  Leads-run_timer on_timeout_end_dialog d h i few =
      Leads-weaken Gone _ d (Leads-untrack env on_timeout_end_dialog d) (λ e g. inl g)
  Leads-run_timer on_timeout_486_and_end_dialog d h i few =
      Leads-seq (Still env on_timeout_end_dialog d.retries) _ _ d
        (Leads-with _ d (
          Leads-through _ _ d h.packet h.received (
            Leads-send env on_timeout_end_dialog _ d.retries d (rw (h.addressed) refl)
              (h, tt, refl))))
        (λ e g.
          Leads-set _ _ e (
            Leads-modify _ _
              (inr (on_timeout_end_dialog, 3000, refl, g.0, tt, omega (arith, few)))))
  Leads-run_timer resend_200 d h i few =
      Leads-once_more _ _ resend_200 d (λ r. refl) h tt (omega (arith, few))
        (Leads-send_200 env resend_200 d.retries d) (Leads-untrack env resend_200 d)
  Leads-run_timer resend_401 d h i few =
      Leads-once_more _ _ resend_401 d (λ r. refl) h tt (omega (arith, few))
        (Leads-send_401 env resend_401 d.retries d) (Leads-untrack env resend_401 d)
  Leads-run_timer resend_error d h i few =
      Leads-once_more _ _ resend_error d (λ r. refl) h tt (omega (arith, few))
        (Leads-send_error env resend_error d.retries d) (Leads-untrack env resend_error d)
  Leads-run_timer resend_bye d h i few =
      Leads-once_more _ _ resend_bye d (λ r. refl) h tt (omega (arith, few))
        (Leads-send_bye env resend_bye d.retries d) (Leads-give_up env resend_bye d h)
  Leads-run_timer resend_cancel d h i few =
      Leads-once_more _ _ resend_bye d (λ r. refl) h tt (omega (arith, few))
        (Leads-send_cancel env resend_bye d.retries d) (Leads-give_up env resend_bye d h)
  Leads-run_timer resend_notify d h i few =
      Leads-once_more _ _ resend_notify d (λ r. refl) h i (omega (arith, few))
        (Leads-send_notify env resend_notify d.retries d i) (Leads-untrack env resend_notify d)

-- The timer fires `n` times, and nothing else happens.
abbrev pub silent : Env → ℕ → List (Env × Event)
silent env zero = []
silent env (suc n) = (env, timer_fired false) ∷ silent env n

Leads-fired_off :
    (env : Env) (o : Option (Timer × ℕ)) (d : Dialog)
    → o ≡ none
    → Gone d
    → Leads (fired env false o) d Gone
Leads-fired_off env none d e g = Leads-skip d g
Leads-fired_off env (some t) d e g = cc

silent-off : (env : Env) (n : ℕ) (d : Dialog) → Gone d → Leads (run (silent env n)) d Gone
unfolding run step fire
silent-off env zero d g = Leads-skip d g
silent-off env (suc n) d g =
    Leads-seq Gone _ _ d (Leads-with _ d (Leads-fired_off env d.timer d g.1 g))
      (λ e h. silent-off env n e h)

Leads-fired :
    (env : Env) (n : ℕ) (o : Option (Timer × ℕ)) (d : Dialog) (t : Timer) (ms : ℕ)
    → o ≡ some (t, ms)
    → Ready env (view d)
    → HasInvite t (view d)
    → firings t d.retries ≤ n + 1
    → Leads (fired env false o) d (Next env n)
Leads-fired env n none d t ms e h i few = cc
Leads-fired env n (some x) d t ms e h i few =
    let same : x.0 ≡ t = ap (λ p. p.0) (some_injective e) in
    Leads-set _ _ d (
      Leads-run_timer env n x.0 _ h (subst (λ s. HasInvite s (view d)) (sym same) i)
        (subst (λ s. firings s d.retries ≤ n + 1) (sym same) few))

-- A dialog that waits for a timer, and of which nothing more is heard, is taken out of the container by
-- firings of its timer, and no firing of it faults. Four firings are enough with three retries. The
-- dialog must have received a packet with a To, know its control server, and be able to read the
-- numbers of its packets and what it reports of its INVITE and of a REFER (whose Refer-To must be
-- there); a NOTIFY needs an INVITE.
pub silent-Gone :
    (env : Env) (n : ℕ) (d : Dialog) (t : Timer) (ms : ℕ)
    → d.timer ≡ some (t, ms)
    → Ready env (view d)
    → HasInvite t (view d)
    → firings t d.retries ≤ n
    → Leads (run (silent env n)) d Gone
unfolding run step fire
silent-Gone env zero d t ms e h i few = elim (no_firings t few) [ ]
  where
    no_firings : (s : Timer) → firings s d.retries ≤ 0 → ⊥
    no_firings on_timeout_end_dialog f = omega (arith, f)
    no_firings on_timeout_486_and_end_dialog f = omega (arith, f)
    no_firings _ f = omega (arith, f)
silent-Gone env (suc n) d t ms e h i few =
    Leads-seq (Next env n) _ _ d
      (Leads-with _ d (Leads-fired env n d.timer d t ms e h i (omega (arith, few))))
      (λ e next. elim next [
        | inl g ↦ silent-off env n e g
        | inr w ↦ silent-Gone env n e w.0 w.1 w.2 w.3 w.4 w.5
      ])
