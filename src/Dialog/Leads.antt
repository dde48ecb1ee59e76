-- ===== src/Dialog/Leads.antt =====
-- Steps that have an outcome: no null pointer and no exception on the way, and what holds afterwards.
use project_mediaswitch.Base.{
  ◌≡◌, refl, ap, ◌∙◌, Bool, true, false, List, [], ◌∷◌, ◌++◌, Option, none, some, if◌then◌else◌,
  ◌>>=◌,
}
use project_mediaswitch.Sip.Packet.{Packet}
use project_mediaswitch.Sip.Message.{Message, composes}
use project_mediaswitch.Dialog.{Dialog, Effect, send_to, Env}
use project_mediaswitch.Dialog.Act.{Act, fail, skip, modify, emit, ◌>>◌, with, through, followed}
use project_mediaswitch.Dialog.Endpoint.{deliver, delivered, composed, send_pk}

pub record Leads (m : Act) (d : Dialog) (Q : Dialog → Type 0) : Type 0 where
  pub after : Dialog
  pub sent : List Effect
  pub runs : m d ≡ some (after, sent)
  pub holds : Q after

delivered-last :
    (env : Env) (m : Message) (d : Dialog) (a r : Option Packet) (pk : Packet)
    → r ≡ some pk
    → (to : Packet) × (delivered env m d a r ≡ some (d, send_to to m ∷ [], true))
delivered-last env m d (some a) r pk e = (a, refl)
delivered-last env m d none r pk e = (pk, ap (delivered env m d none) e)

module _ {Q : Dialog → Type 0} where
  pub Leads-skip : (d : Dialog) → Q d → Leads skip d Q
  unfolding skip
  Leads-skip d h = record { after = d; sent = []; runs = refl; holds = h }

  pub Leads-modify : (f : Dialog → Dialog) (d : Dialog) → Q (f d) → Leads (modify f) d Q
  unfolding modify
  Leads-modify f d h = record { after = f d; sent = []; runs = refl; holds = h }

  pub Leads-emit : (x : Effect) (d : Dialog) → Q d → Leads (emit x) d Q
  unfolding emit
  Leads-emit x d h = record { after = d; sent = x ∷ []; runs = refl; holds = h }

  pub Leads-seq :
      (P : Dialog → Type 0) (m n : Act) (d : Dialog)
      → Leads m d P
      → ((e : Dialog) → P e → Leads n e Q)
      → Leads (m >> n) d Q
  unfolding ◌>>◌
  Leads-seq P m n d h g =
      let next = g h.after h.holds in
      record {
        after = next.after;
        sent = h.sent ++ next.sent;
        runs =
            ap (λ o. o >>= λ done. followed done.1 (n done.0)) h.runs
            ∙ ap (followed h.sent) next.runs;
        holds = next.holds;
      }

  -- A step that only sets members, and what follows it.
  pub Leads-set :
      (f : Dialog → Dialog) (m : Act) (d : Dialog) → Leads m (f d) Q → Leads (modify f >> m) d Q
  unfolding ◌>>◌ modify
  Leads-set f m d h = record {
    after = h.after;
    sent = h.sent;
    runs = ap (followed []) h.runs;
    holds = h.holds;
  }

  pub Leads-with : (k : Dialog → Act) (d : Dialog) → Leads (k d) d Q → Leads (with k) d Q
  unfolding with
  Leads-with k d h = record { after = h.after; sent = h.sent; runs = h.runs; holds = h.holds }

  pub Leads-through {ℓ} :
      {A : Type ℓ} (o : Option A) (k : A → Act) (d : Dialog) (a : A)
      → o ≡ some a
      → Leads (k a) d Q
      → Leads (through o k) d Q
  unfolding through
  Leads-through o k d a e h = record {
    after = h.after;
    sent = h.sent;
    runs = ap (λ p. p >>= λ x. k x d) e ∙ h.runs;
    holds = h.holds;
  }

  pub Leads-if :
      (b : Bool) (m n : Act) (d : Dialog)
      → (b ≡ true → Leads m d Q)
      → (b ≡ false → Leads n d Q)
      → Leads (if b then m else n) d Q
  Leads-if true m n d hm hn = hm (λ i. true)
  Leads-if false m n d hm hn = hn (λ i. false)

  pub Leads-weaken :
      (P : Dialog → Type 0) (m : Act) (d : Dialog)
      → Leads m d P
      → ((e : Dialog) → P e → Q e)
      → Leads m d Q
  Leads-weaken P m d h g = record {
    after = h.after;
    sent = h.sent;
    runs = h.runs;
    holds = g h.after h.holds;
  }

  -- A dialog that has a packet can send, and is not changed by it.
  pub Leads-send_pk :
      (env : Env) (m : Message) (d : Dialog) (pk : Packet)
      → composes m.parts ≡ true
      → d.last_received ≡ some pk
      → Q d
      → Leads (send_pk env m) d Q
  unfolding send_pk deliver composed
  Leads-send_pk env m d pk whole e h =
      let (to, x) = delivered-last env m d d.last_authenticated d.last_received pk e in
      record {
        after = d;
        sent = send_to to m ∷ [];
        runs =
            ap
              (λ b.
                (if b then (λ d. deliver env m d >>= λ done. some (done.0, done.1)) else fail) d)
              whole
            ∙ ap (λ o. o >>= λ done. some (done.0, done.1)) x;
        holds = h;
      }
