-- ===== src/Text/Split/RoundTrip.antt =====
-- `splitstring` and `joinstring` after one another.
use project_mediaswitch.Base.{
  All-append, ◌<◌, length, ℕ, ◌≡◌, ◌≢◌, refl, sym, ap, ◌∙◌, Bool, true, false, not, List, [], ◌∷◌,
  ◌++◌, append-nil, append_assoc, Bytes, All, ◌==◌, ==_iff, inl, inr, Bool-cases, arith, length,
}
use project_mediaswitch.Text.Split.{split_loop, at_least_one, split_string, join_loop, join_string}
use project_mediaswitch.Text.Split.Parts.{
  IsPlain, split_loop-append, parts, split_loop-parts, at_least_one-parts,
}

-- A part that `splitstring` can give back: not empty, and without the delimiter.
abbrev pub IsPart : ℕ → Bytes → Type 0
IsPart d p = (p ≢ []) × All (λ c. c ≢ d) p

-- What `joinstring` puts behind its first item.
joined : ℕ → List Bytes → Bytes
joined d [] = []
joined d (y ∷ ys) = d ∷ (y ++ joined d ys)

join_loop-joined :
    (d : ℕ) (c : ℕ) (ret : Bytes) (ys : List Bytes)
    → join_loop d (c ∷ ret) ys ≡ c ∷ (ret ++ joined d ys)
unfolding join_loop joined
join_loop-joined d c ret [] = ap (◌∷◌ c) (sym (append-nil ret))
join_loop-joined d c ret (y ∷ ys) =
    join_loop-joined d c ((ret ++ (d ∷ [])) ++ y) ys ∙ simp append_assoc

split_loop-joined :
    (d c : ℕ) (item : Bytes) (out : List Bytes) (ys : List Bytes)
    → All (IsPart d) ys
    → split_loop d (c ∷ item) out (joined d ys) ≡ out ++ ((c ∷ item) ∷ ys)
unfolding split_loop joined
split_loop-joined d c item out [] h = refl
split_loop-joined d c item out ([] ∷ ys) h = absurd (h.0.0 refl)
split_loop-joined d c item out ((e ∷ y) ∷ ys) h = ground (
  arith,
  split_loop-append d [] (out ++ ((c ∷ item) ∷ [])) (e ∷ y) (joined d ys) h.0.1,
  split_loop-joined d e y (out ++ ((c ∷ item) ∷ [])) ys h.1,
  append_assoc out ((c ∷ item) ∷ []) ((e ∷ y) ∷ ys),
)

-- Splitting what `joinstring` made of a non-empty list of parts, none of them empty or holding the
-- delimiter, gives the parts back.
pub split_string-join_string :
    (d : ℕ) (x : Bytes) (xs : List Bytes)
    → All (IsPart d) (x ∷ xs)
    → split_string (join_string (x ∷ xs) d) d ≡ x ∷ xs
unfolding split_string join_string
split_string-join_string d [] xs h = absurd (h.0.0 refl)
split_string-join_string d (c ∷ x) xs h =
    ap (λ s. at_least_one (split_loop d [] [] s)) (join_loop-joined d c x xs)
    ∙ ap at_least_one
        (split_loop-append d [] [] (c ∷ x) (joined d xs) h.0.1 ∙ split_loop-joined d c x [] xs h.1)

-- A string that is not empty and does not end in the delimiter.
unfoldable pub ends_plain : ℕ → Bytes → Bool
ends_plain d [] = false
ends_plain d (c ∷ []) = not (c == d)
ends_plain d (c ∷ e ∷ cs) = ends_plain d (e ∷ cs)

ends_plain-append :
    (d : ℕ) (xs : Bytes) (c : ℕ) (cs : Bytes)
    → ends_plain d (xs ++ (c ∷ cs)) ≡ ends_plain d (c ∷ cs)
unfolding ends_plain
ends_plain-append d [] c cs = refl
ends_plain-append d (x ∷ []) c cs = refl
ends_plain-append d (x ∷ y ∷ xs) c cs = ends_plain-append d (y ∷ xs) c cs

-- A delimiter is not the last byte, so what stands behind it ends plainly too.
pub ends_plain-tail :
    (d : ℕ) (xs cs : Bytes) → ends_plain d (xs ++ (d ∷ cs)) ≡ true → ends_plain d cs ≡ true
unfolding ends_plain
ends_plain-tail d xs [] h = ground (arith, ends_plain-append d xs d [])
ends_plain-tail d xs (c ∷ cs) h = ground (arith, ends_plain-append d xs d (c ∷ cs))

joined-parts :
    (d : ℕ) (item s : Bytes)
    → ends_plain d (item ++ s) ≡ true
    → joined d (parts d item s) ≡ d ∷ (item ++ s)
unfolding joined parts
joined-parts d [] [] h = unfold ends_plain in cc
joined-parts d (i ∷ item) [] h = refl
joined-parts d item (c ∷ cs) h = elim (Bool-cases (c == d)) [
  | inl e ↦
      rw (e, parts)
        (let same : c ≡ d = (==_iff c d).0 e in
          ap (λ t. d ∷ (item ++ t))
            (joined-parts d [] cs (ends_plain-tail d item cs (rw same at h)) ∙ rw same))
  | inr e ↦
      rw (e, parts)
        (joined-parts d (item ++ (c ∷ [])) cs (rw append_assoc h)
          ∙ ap (◌∷◌ d) (append_assoc item (c ∷ []) cs))
]

join_loop-parts :
    (d i : ℕ) (item s : Bytes)
    → ends_plain d (i ∷ (item ++ s)) ≡ true
    → join_loop d [] (parts d (i ∷ item) s) ≡ i ∷ (item ++ s)
unfolding parts
join_loop-parts d i item [] h = unfold join_loop in rw append-nil
join_loop-parts d i item (c ∷ cs) h = elim (Bool-cases (c == d)) [
  | inl e ↦
      rw (e, parts)
        (let same : c ≡ d = (==_iff c d).0 e in
          unfold join_loop in
          join_loop-joined d i item (parts d [] cs)
          ∙ ap (λ t. i ∷ (item ++ t))
              (joined-parts d [] cs (ends_plain-tail d (i ∷ item) cs (rw same at h)) ∙ rw same))
  | inr e ↦
      rw (e, parts)
        (join_loop-parts d i (item ++ (c ∷ [])) cs (rw append_assoc h)
          ∙ ap (◌∷◌ i) (append_assoc item (c ∷ []) cs))
]

-- Joining what `splitstring` made of a string gives the string back, if the delimiter is neither
-- its first nor its last byte. Delimiters inside may stand side by side.
pub join_string-split_string :
    (d c : ℕ) (s : Bytes)
    → c ≢ d
    → ends_plain d (c ∷ s) ≡ true
    → join_string (split_string (c ∷ s) d) d ≡ c ∷ s
unfolding split_string join_string
join_string-split_string d c s first last = elim (Bool-cases (c == d)) [
  | inl e ↦ absurd (first ((==_iff c d).0 e))
  | inr e ↦
      rw (e, split_loop)
        (ap (λ l. join_loop d [] (at_least_one l)) (split_loop-parts d (c ∷ []) [] s)
          ∙ ap (join_loop d []) (at_least_one-parts d c [] s)
          ∙ join_loop-parts d c [] s last)
]

split_loop-IsPlain :
    (d : ℕ) (item : Bytes) (out : List Bytes) (s : Bytes)
    → IsPlain d item
    → All (IsPlain d) out
    → All (IsPlain d) (split_loop d item out s)
unfolding split_loop
split_loop-IsPlain d [] out [] hi ho = ho
split_loop-IsPlain d (i ∷ item) out [] hi ho =
    All-append (IsPlain d) out ((i ∷ item) ∷ []) ho (hi, tt)
split_loop-IsPlain d item out (c ∷ cs) hi ho = elim (Bool-cases (c == d)) [
  | inl e ↦
      rw (e, split_loop)
        (split_loop-IsPlain d [] (out ++ (item ∷ [])) cs tt
          (All-append (IsPlain d) out (item ∷ []) ho (hi, tt)))
  | inr e ↦
      rw (e, split_loop)
        (split_loop-IsPlain d (item ++ (c ∷ [])) out cs
          (All-append (λ x. x ≢ d) item (c ∷ []) hi (ground (arith, ==_iff c d), tt)) ho)
]

at_least_one-IsPlain :
    (d : ℕ) (l : List Bytes)
    → All (IsPlain d) l
    → All (IsPlain d) (at_least_one l) × (0 < length (at_least_one l))
at_least_one-IsPlain d [] h = ((tt, tt), omega arith)
at_least_one-IsPlain d (x ∷ xs) h = (h, omega arith)

-- No part holds the delimiter, and there is always at least one part.
pub split_string-IsPlain :
    (d : ℕ) (s : Bytes)
    → All (All (λ c. c ≢ d)) (split_string s d) × (0 < length (split_string s d))
unfolding split_string
split_string-IsPlain d s =
    at_least_one-IsPlain d (split_loop d [] [] s) (split_loop-IsPlain d [] [] s tt tt)
