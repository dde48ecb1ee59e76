-- ===== src/Text/Split/Parts.antt =====
-- The parts that `splitstring` finds, as a plain recursion.
use project_mediaswitch.Base.{
  ==_refl, ℕ, ◌≡◌, ◌≢◌, refl, sym, ap, ◌∙◌, List, [], ◌∷◌, ◌++◌, append-nil, append_assoc, Bytes,
  All, ◌==◌, if◌then◌else◌, arith,
}
use project_mediaswitch.Text.Split.{is_nil, split_loop, at_least_one, split_string}

abbrev pub IsPlain : ℕ → Bytes → Type 0
IsPlain d = All (λ c. c ≢ d)

pub split_loop-append :
    (d : ℕ) (item : Bytes) (out : List Bytes) (x rest : Bytes)
    → All (λ c. c ≢ d) x
    → split_loop d item out (x ++ rest) ≡ split_loop d (item ++ x) out rest
unfolding split_loop
split_loop-append d item out [] rest h = rw append-nil
split_loop-append d item out (c ∷ x) rest h =
    ground
      (arith, split_loop-append d (item ++ (c ∷ [])) out x rest h.1, append_assoc item (c ∷ []) x)

-- `split_loop` with no accumulator for the finished parts.
unfoldable pub parts : ℕ → Bytes → Bytes → List Bytes
parts d item [] = if is_nil item then [] else item ∷ []
parts d item (c ∷ cs) =
    let pushed = item ∷ parts d [] cs in
    let longer = parts d (item ++ (c ∷ [])) cs in if c == d then pushed else longer

pub split_loop-parts :
    (d : ℕ) (item : Bytes) (out : List Bytes) (s : Bytes)
    → split_loop d item out s ≡ out ++ parts d item s
unfolding split_loop parts
split_loop-parts d [] out [] = sym (append-nil out)
split_loop-parts d (i ∷ item) out [] = refl
split_loop-parts d item out (c ∷ cs) = ground (
  arith,
  split_loop-parts d [] (out ++ (item ∷ [])) cs,
  append_assoc out (item ∷ []) (parts d [] cs),
  split_loop-parts d (item ++ (c ∷ [])) out cs,
)

-- `parts` finds at least one part in a string that is not empty.
pub at_least_one-parts :
    (d i : ℕ) (item s : Bytes) → at_least_one (parts d (i ∷ item) s) ≡ parts d (i ∷ item) s
unfolding parts
at_least_one-parts d i item [] = refl
at_least_one-parts d i item (c ∷ cs) = ground (arith, at_least_one-parts d i (item ++ (c ∷ [])) cs)

at_least_one-parts_nil :
    (d c : ℕ) (cs : Bytes) → at_least_one (parts d [] (c ∷ cs)) ≡ parts d [] (c ∷ cs)
unfolding parts
at_least_one-parts_nil d c cs = ground (arith, at_least_one-parts d c [] cs)

split_string-parts : (d : ℕ) (s : Bytes) → split_string s d ≡ at_least_one (parts d [] s)
unfolding split_string
split_string-parts d s = ap at_least_one (split_loop-parts d [] [] s)

-- A string with no delimiter is its only part.
pub split_string_plain : (d : ℕ) (s : Bytes) → IsPlain d s → split_string s d ≡ s ∷ []
unfolding split_string
split_string_plain d s h =
    ap (λ t. at_least_one (split_loop d [] [] t)) (sym (append-nil s))
    ∙ ap at_least_one (split_loop-append d [] [] s [] h)
    ∙ last s
  where
    last : (t : Bytes) → at_least_one (split_loop d t [] []) ≡ t ∷ []
    last [] = unfold split_loop in refl
    last (c ∷ t) = unfold split_loop in refl

-- What stands before the first delimiter is the first part; the others are those of what stands
-- behind it, if that is not empty.
pub split_string_cut :
    (d : ℕ) (host : Bytes) (c : ℕ) (cs : Bytes)
    → IsPlain d host
    → split_string (host ++ (d ∷ c ∷ cs)) d ≡ host ∷ split_string (c ∷ cs) d
unfolding split_string
split_string_cut d host c cs h =
    ap at_least_one (split_loop-append d [] [] host (d ∷ c ∷ cs) h ∙ first_cut)
    ∙ ap (◌∷◌ host) (sym (split_string-parts d (c ∷ cs) ∙ at_least_one-parts_nil d c cs))
  where
    first_cut : split_loop d host [] (d ∷ c ∷ cs) ≡ host ∷ parts d [] (c ∷ cs)
    first_cut =
        unfold split_loop in rw (==_refl d, split_loop) (split_loop-parts d [] (host ∷ []) (c ∷ cs))
