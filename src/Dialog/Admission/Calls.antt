-- ===== src/Dialog/Admission/Calls.antt =====
-- Whole inbound calls, up to where the control server takes over or the dialog is dropped.
use mathlib.Core.Path.{subst}
use project_mediaswitch.Base.{
  ◌≡◌, refl, sym, ap, some_injective, true, false, List, [], ◌∷◌, Bytes, Option, none, some, ℕ,
}
use project_mediaswitch.Directory.Domains.{lookup_password_sub}
use project_mediaswitch.Sip.Packet.{Packet, invite, ack}
use project_mediaswitch.Dialog.{
  Garbage, Dialog, Env, Timer, on_timeout_end_dialog, wait_for_ack_then_invite_auth, invite_auth,
}
use project_mediaswitch.Dialog.Challenges.{passes}
use project_mediaswitch.Dialog.Store.{begin}
use project_mediaswitch.Dialog.Timers.{run_timer, fired, fire}
use project_mediaswitch.Dialog.Call.Events.{Event, received, timer_fired, step, run}
use project_mediaswitch.Dialog.Leads.{
  Leads, Leads-skip, Leads-modify, Leads-seq, Leads-set, Leads-with,
}
use project_mediaswitch.Dialog.Silence.{Gone}
use project_mediaswitch.Dialog.Admission.{
  challenge_of, Challenged, Admitted, Refused, Readable, Leads-first, Leads-ack,
}
use project_mediaswitch.Dialog.Admission.Invites.{Leads-right, Leads-wrong}

Leads-one :
    {Q : Dialog → Type 0} (env : Env) (e : Event) (d : Dialog)
    → Leads (step env e) d Q
    → Leads (run ((env, e) ∷ [])) d Q
unfolding run
Leads-one {Q = Q} env e d h = Leads-seq Q _ _ d h (λ c q. Leads-skip c q)

Leads-more :
    {P Q : Dialog → Type 0} (env : Env) (e : Event) (es : List (Env × Event)) (d : Dialog)
    → Leads (step env e) d P
    → ((c : Dialog) → P c → Leads (run es) c Q)
    → Leads (run ((env, e) ∷ es)) d Q
unfolding run
Leads-more {P = P} env e es d h g = Leads-seq P _ _ d h g

-- What is dropped for good: the dialog is not in the container, and it never was authenticated.
abbrev pub Dropped : Dialog → Type 0
Dropped e = Gone e × (e.authenticated ≡ false)

module _ (env : Env) (g : Garbage) (k : Bytes) (first acked second : Packet)
    (invites : first.method ≡ invite) (bare : first.auth_username.endpos ≡ 0)
    (acks : acked.method ≡ ack) (again : second.method ≡ invite)
    (addressed : first.has_to ≡ true) where
  Leads-challenged :
      {Q : Dialog → Type 0} (es : List (Env × Event))
      → ((d : Dialog)
          → Challenged invite_auth (challenge_of env.nonce first) d
          → Leads (run es) d Q)
      → Leads (run ((env, received first) ∷ (env, received acked) ∷ es)) (begin g env k) Q
  unfolding step
  Leads-challenged es h =
      Leads-more {P = Challenged wait_for_ack_then_invite_auth (challenge_of env.nonce first)} env _
        _ _ (Leads-first env first g k invites bare addressed)
        (λ c q.
          Leads-more {P = Challenged invite_auth (challenge_of env.nonce first)} env _ es c
            (Leads-ack env acked (challenge_of env.nonce first) c acks q) h)

  -- A new call whose first INVITE has no credentials is admitted when the challenge to it is
  -- acknowledged and answered by an INVITE that passes the digest test over that challenge, with the
  -- password in the directory: none of the three packets faults, and the dialog is then authenticated,
  -- has that INVITE and waits three minutes for the control server. Both INVITEs have a To; the second
  -- has a From and no To tag, its numbers and SDP type can be read, and its domain has a control server.
  pub inbound-Admitted :
      (password : Bytes)
      → Readable env second
      → second.to_tag.endpos ≡ 0
      → lookup_password_sub env.directory second.auth_realm second.auth_username
        ≡ some (some password)
      → env.digest second (challenge_of env.nonce first) password ≡ true
      → Leads
          (run ((env, received first) ∷ (env, received acked) ∷ (env, received second) ∷ []))
          (begin g env k)
          (Admitted second)
  unfolding step
  inbound-Admitted password readable untagged knows good = Leads-challenged _ (λ d q.
      Leads-one env _ d (
        Leads-right env second (challenge_of env.nonce first) d password readable again untagged
          knows good q))

  -- A new call whose second INVITE does not pass (there is no such user, or the digest test over the
  -- challenge fails) is refused, and when the timer then fires once, it is out of the container and
  -- never was authenticated. Nothing on the way faults. Both INVITEs have a To.
  pub inbound-Dropped :
      (password : Option Bytes)
      → lookup_password_sub env.directory second.auth_realm second.auth_username ≡ some password
      → passes env second (some (challenge_of env.nonce first)) password ≡ false
      → second.has_to ≡ true
      → Leads
          (run (
            (env, received first)
            ∷ (env, received acked)
            ∷ (env, received second)
            ∷ (env, timer_fired false)
            ∷ []))
          (begin g env k)
          Dropped
  unfolding step fire run_timer
  inbound-Dropped password knows bad has = Leads-challenged _ (λ d q.
      Leads-more {P = Refused} env _ _ d
        (Leads-wrong env second (challenge_of env.nonce first) d password again knows bad has q)
        (λ c r. Leads-one env _ c (Leads-with _ c (Leads-ended c c.timer r.2 r.0))))
    where
      Leads-timer :
          (c : Dialog) (t : Timer)
          → t ≡ on_timeout_end_dialog
          → c.authenticated ≡ false
          → Leads (run_timer env t) c Dropped
      Leads-timer c t e off =
          subst (λ s. Leads (run_timer env s) c Dropped) (sym e)
            (Leads-modify _ c ((refl, refl), off))

      Leads-ended :
          (c : Dialog) (o : Option (Timer × ℕ))
          → o ≡ some (on_timeout_end_dialog, 3000)
          → c.authenticated ≡ false
          → Leads (fired env false o) c Dropped
      Leads-ended c none e off = cc
      Leads-ended c (some t) e off =
          Leads-set _ _ c (Leads-timer _ t.0 (ap (λ p. p.0) (some_injective e)) off)
