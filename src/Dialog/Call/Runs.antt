-- ===== src/Dialog/Call/Runs.antt =====
-- The steps that the functions of a dialog are made of, as moves of its call.
use mathlib.Core.Path.{subst}
use project_mediaswitch.Base.{
  ◌≡◌, refl, sym, ap, ◌∙◌, Bool, true, false, List, Option, some, if◌then◌else◌, >>=-eq-some,
  some_injective,
}
use project_mediaswitch.Dialog.{Dialog, Effect}
use project_mediaswitch.Dialog.Act.{Act, skip, modify, ◌>>◌, with, through, when}
use project_mediaswitch.Dialog.Call.{Call, Rules, call_of, Moves, stays, Moves-trans}

-- Where a step of a dialog leads, its call leads by moves.
pub record RunsAt (R : Rules) (m : Act) (d : Dialog) : Type 0 where
  pub runs :
      (d' : Dialog) (sent : List Effect) → m d ≡ some (d', sent) → Moves R (call_of d) (call_of d')

abbrev pub Runs : Rules → Act → Type 0
Runs R m = (d : Dialog) → RunsAt R m d

module _ {R : Rules} where
  pub Moves-same : {a b c : Call} → b ≡ c → Moves R a b → Moves R a c
  Moves-same {a = a} e h = subst (Moves R a) e h

  -- A step whose outcome is known.
  pub Runs-of :
      (m : Act) (d e : Dialog) (sent : List Effect)
      → m d ≡ some (e, sent)
      → Moves R (call_of d) (call_of e)
      → RunsAt R m d
  Runs-of m d e sent x h = record {
    runs = λ d' sent' y. Moves-same (ap (λ z. call_of z.0) (some_injective (sym x ∙ y))) h;
  }

  pub Runs-skip : Runs R skip
  unfolding skip
  Runs-skip d = Runs-of skip d d _ refl stays

  pub Runs-modify :
      (f : Dialog → Dialog)
      → ((d : Dialog) → Moves R (call_of d) (call_of (f d)))
      → Runs R (modify f)
  unfolding modify
  Runs-modify f h d = Runs-of (modify f) d (f d) _ refl (h d)

  -- A step that leaves the call alone.
  pub Runs-quiet :
      (f : Dialog → Dialog) → ((d : Dialog) → call_of d ≡ call_of (f d)) → Runs R (modify f)
  Runs-quiet f h = Runs-modify f (λ d. Moves-same (h d) stays)

  pub Runs-seq_at : (m n : Act) (d : Dialog) → RunsAt R m d → Runs R n → RunsAt R (m >> n) d
  unfolding ◌>>◌
  Runs-seq_at m n d hm hn = record {
    runs = λ d' sent e.
        let (done, x, y) = >>=-eq-some (m d) _ e in
        let (rest, x', y') = >>=-eq-some (n done.0) _ y in
        Moves-trans (hm.runs done.0 done.1 x) (
          Moves-same (ap (λ z. call_of z.0) (some_injective y'))
            ((hn done.0).runs rest.0 rest.1 x'));
  }

  pub Runs-seq : (m n : Act) → Runs R m → Runs R n → Runs R (m >> n)
  Runs-seq m n hm hn d = Runs-seq_at m n d (hm d) hn

  -- After a step that only sets members, at the dialog that has them.
  pub Runs-after :
      (f : Dialog → Dialog) (m : Act) (d : Dialog)
      → call_of (f d) ≡ call_of d
      → RunsAt R m (f d)
      → RunsAt R (modify f >> m) d
  unfolding ◌>>◌ modify
  Runs-after f m d same h = record {
    runs = λ d' sent e.
        let (rest, x, y) = >>=-eq-some (m (f d)) _ e in
        subst (λ c. Moves R c (call_of d')) same
          (Moves-same (ap (λ z. call_of z.0) (some_injective y)) (h.runs rest.0 rest.1 x));
  }

  pub Runs-at : (k : Dialog → Act) (d : Dialog) → RunsAt R (k d) d → RunsAt R (with k) d
  unfolding with
  Runs-at k d h = record { runs = h.runs }

  pub Runs-with : (k : Dialog → Act) → ((d : Dialog) → Runs R (k d)) → Runs R (with k)
  Runs-with k h d = Runs-at k d (h d d)

  pub RunsAt-through {ℓ} :
      {A : Type ℓ} (o : Option A) (k : A → Act) (d : Dialog)
      → ((a : A) → o ≡ some a → RunsAt R (k a) d)
      → RunsAt R (through o k) d
  unfolding through
  RunsAt-through o k d h = record {
    runs = λ d' sent e. let (a, x, y) = >>=-eq-some o _ e in (h a x).runs d' sent y;
  }

  pub Runs-through {ℓ} :
      {A : Type ℓ} (o : Option A) (k : A → Act) → ((a : A) → Runs R (k a)) → Runs R (through o k)
  Runs-through o k h d = RunsAt-through o k d (λ a e. h a d)

  pub RunsAt-if :
      (b : Bool) (m n : Act) (d : Dialog)
      → (b ≡ true → RunsAt R m d)
      → RunsAt R n d
      → RunsAt R (if b then m else n) d
  RunsAt-if true m n d hm hn = hm refl
  RunsAt-if false m n d hm hn = hn

  pub Runs-if : (b : Bool) (m n : Act) → Runs R m → Runs R n → Runs R (if b then m else n)
  Runs-if b m n hm hn d = RunsAt-if b m n d (λ t. hm d) (hn d)

  pub Runs-when : (b : Bool) (m : Act) → Runs R m → Runs R (when b m)
  Runs-when b m h = Runs-if b m skip h Runs-skip
