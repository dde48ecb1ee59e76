-- ===== src/Text/Substring/Find/Bounds.antt =====
-- Where the searches for one character lead: `findend` and `aftertoken`.
use project_mediaswitch.Base.{
  ℕ, zero, suc, ◌+◌, ◌-◌, ◌≤◌, ◌<◌, ◌≡◌, ◌≢◌, refl, sym, ap, ◌∙◌, ◌⊎◌, inl, inr, true, false, [],
  ◌∷◌, Bytes, Option, none, some, get_elem?, length, drop, take, length-drop, All, ltb, leb, ◌==◌,
  ltb→lt, ◌>>=◌, Bool-cases, arith,
}
use project_mediaswitch.Text.Std.{find_at, find}
use project_mediaswitch.Text.Substring.{
  Substring, IsIn, size_mod, size, of_range, str, str_in, str_slice,
}
use project_mediaswitch.Text.Substring.Find.{end_at, before_end, range_if, find_end, after_token}

-- The byte `c` stands nowhere in a text.
abbrev pub Lacks : ℕ → Bytes → Type 0
Lacks c = All (λ x. x ≢ c)

-- A search for one character finds its first place, `k` bytes on, or none.
abbrev Finds : ℕ → Bytes → ℕ → Option ℕ → Type 0
Finds c s i r =
    ((r ≡ none) × Lacks c s)
    ⊎ ((k : ℕ) × (r ≡ some (i + k))
        × (k < length s)
        × (get_elem? s k ≡ some c)
        × Lacks c (take k s))

find_at-Finds : (c : ℕ) (s : Bytes) (i : ℕ) → Finds c s i (find_at (c ∷ []) s i)
unfolding find_at
find_at-Finds c [] i = inl (refl, tt)
find_at-Finds c (x ∷ s) i = elim (Bool-cases (c == x)) [
  | inl e ↦ inr (0, rw (e, find_at) (ap some (omega arith)), omega arith, ground arith, tt)
  | inr e ↦ elim (find_at-Finds c s (i + 1)) [
    | inl (gone, lacks) ↦ inl (rw (e, find_at) gone, (ground arith, lacks))
    | inr (k, at, low, here, lacks) ↦ inr (
      suc k,
      rw (e, find_at) (at ∙ ap some (omega arith)),
      omega arith,
      here,
      (ground arith, lacks),
    )
  ]
]

find-Finds :
    (text : Bytes) (c pos : ℕ)
    → pos ≤ length text
    → Finds c (drop pos text) pos (find text (c ∷ []) pos)
unfolding find
find-Finds text c pos h =
    let e : leb pos (length text) ≡ true = ground arith in
    rw (e) (find_at-Finds c (drop pos text) pos)

get_elem?-drop : (i k : ℕ) (xs : Bytes) → get_elem? (drop i xs) k ≡ get_elem? xs (i + k)
get_elem?-drop zero k xs = let e : 0 + k ≡ k = omega arith in rw e
get_elem?-drop (suc i) k [] = refl
get_elem?-drop (suc i) k (x ∷ xs) =
    let e : suc i + k ≡ suc (i + k) = omega arith in rw e (get_elem?-drop i k xs)

Lacks-take : (c j k : ℕ) (xs : Bytes) → j ≤ k → Lacks c (take k xs) → Lacks c (take j xs)
Lacks-take c zero k xs h l = tt
Lacks-take c (suc j) zero xs h l = absurd (omega arith)
Lacks-take c (suc j) (suc k) [] h l = tt
Lacks-take c (suc j) (suc k) (x ∷ xs) h l = (l.0, Lacks-take c j k xs (omega arith) l.1)

Lacks-take_all : (c j : ℕ) (xs : Bytes) → Lacks c xs → Lacks c (take j xs)
Lacks-take_all c zero xs l = tt
Lacks-take_all c (suc j) [] l = tt
Lacks-take_all c (suc j) (x ∷ xs) l = (l.0, Lacks-take_all c j xs l.1)

-- `t` begins where `s` does, and ends before the first `c` of `s`, or with `s`.
pub record EndsAt (text : Bytes) (s t : Substring) (c : ℕ) : Type 0 where
  pub lies_in : IsIn text t
  pub same_start : t.startpos ≡ s.startpos
  pub shorter : t.endpos ≤ s.endpos
  pub lacks : Lacks c (str t)
  pub stop : (t.endpos ≡ s.endpos) ⊎ (get_elem? text t.endpos ≡ some c)

module _ (text : Bytes) (s : Substring) (v : IsIn text s) (c : ℕ) where
  cut-IsIn :
      (stop : ℕ)
      → s.startpos ≤ stop
      → stop ≤ s.endpos
      → IsIn text (of_range s.buffer s.startpos stop)
  cut-IsIn stop low high = record {
    has_buffer = v.has_buffer;
    ordered = low;
    fits = omega (arith, v.fits);
    machine = v.machine;
  }

  cut-EndsAt :
      (stop : ℕ)
      → s.startpos ≤ stop
      → stop ≤ s.endpos
      → Lacks c (take (stop - s.startpos) (drop s.startpos text))
      → (stop ≡ s.endpos) ⊎ (get_elem? text stop ≡ some c)
      → EndsAt text s (of_range s.buffer s.startpos stop) c
  cut-EndsAt stop low high lacks why = record {
    lies_in = cut-IsIn stop low high;
    same_start = refl;
    shorter = high;
    lacks = rw (str_slice text _ (cut-IsIn stop low high)) lacks;
    stop = why;
  }

  end_at-EndsAt :
      (r : Option ℕ)
      → Finds c (drop s.startpos text) s.startpos r
      → EndsAt text s (end_at s (before_end s r)) c
  end_at-EndsAt none (inl (gone, lacks)) =
      cut-EndsAt s.endpos v.ordered (omega arith)
        (Lacks-take_all c (s.endpos - s.startpos) (drop s.startpos text) lacks) (inl refl)
  end_at-EndsAt none (inr (k, at, low, here, lacks)) = cc
  end_at-EndsAt (some p) (inl (gone, lacks)) = cc
  end_at-EndsAt (some p) (inr (k, at, low, here, lacks)) =
      let e : p ≡ s.startpos + k = ground arith in
      elim (Bool-cases (ltb s.endpos p)) [
        | inl far ↦ rw (far) (
            cut-EndsAt s.endpos v.ordered (omega arith)
              (Lacks-take c (s.endpos - s.startpos) k (drop s.startpos text)
                (omega (arith, ltb→lt s.endpos p far)) lacks)
              (inl refl))
        | inr near ↦ rw (near) (
            cut-EndsAt p (omega arith) (ground arith)
              (let d : p - s.startpos ≡ k = omega arith in rw d lacks)
              (inr (rw e (sym (get_elem?-drop s.startpos k text) ∙ here))))
      ]

  -- `findend` ends the substring before its first `c`, or leaves it as it is where it holds none.
  pub find_end-EndsAt : (t : Substring) × (find_end s c ≡ some t) × EndsAt text s t c
  unfolding find_end
  find_end-EndsAt = (
    end_at s (before_end s (find text (c ∷ []) s.startpos)),
    ap (λ b. b >>= λ x. some (end_at s (before_end s (find x (c ∷ []) s.startpos)))) v.has_buffer,
    end_at-EndsAt _ (find-Finds text c s.startpos (omega (arith, v.ordered, v.fits))),
  )

take_all : (n : ℕ) (xs : Bytes) → length xs ≤ n → take n xs ≡ xs
take_all zero [] h = refl
take_all zero (x ∷ xs) h = elim h [ ]
take_all (suc n) [] h = refl
take_all (suc n) (x ∷ xs) h = ap (◌∷◌ x) (take_all n xs (omega arith))

get_elem?-lt : (xs : Bytes) (i : ℕ) {c : ℕ} → get_elem? xs i ≡ some c → i < length xs
get_elem?-lt [] i e = cc
get_elem?-lt (x ∷ xs) zero e = omega arith
get_elem?-lt (x ∷ xs) (suc i) e = omega (arith, get_elem?-lt xs i e)

-- The first `c` of a text is the one at `k` if none stands before it.
find_at_first :
    (c k : ℕ) (s : Bytes) (i : ℕ)
    → Lacks c (take k s)
    → get_elem? s k ≡ some c
    → find_at (c ∷ []) s i ≡ some (i + k)
unfolding find_at
find_at_first c k [] i l e = cc
find_at_first c zero (x ∷ s) i l e =
    let h : (c == x) ≡ true = ground arith in rw (h, find_at) (ap some (omega arith))
find_at_first c (suc k) (x ∷ s) i l e =
    let h : (c == x) ≡ false = ground (arith, l.0) in
    rw (h, find_at) (find_at_first c k s (i + 1) l.1 e ∙ ap some (omega arith))

find_lem :
    (text p : Bytes) (pos : ℕ)
    → leb pos (length text) ≡ true
    → find text p pos ≡ find_at p (drop pos text) pos
unfolding find
find_lem text p pos h = rw h

-- With the start one behind the end, `str` gives all that stands behind.
str_in_past :
    (text : Bytes) (t : Substring)
    → t.endpos < length text
    → 0 < t.endpos
    → t.startpos ≡ t.endpos + 1
    → length text < size_mod
    → str_in t (some text) ≡ drop t.startpos text
unfolding str_in
str_in_past text t inside positive past machine = ground (
  arith,
  take_all (size t) (drop t.startpos text) (omega (arith, size_wraps, length-drop t.startpos text)),
)
  where
    size_wraps : size t + 1 ≡ size_mod
    size_wraps = omega arith

-- Where the first `c` stands right behind a substring, not in it, `aftertoken` takes it all the
-- same: the length of its result wraps around to 2 ^ 64 - 1, and its text is all that follows in
-- the buffer, outside the substring.
pub after_token_outside :
    (text : Bytes) (s : Substring) (c : ℕ)
    → IsIn text s
    → 0 < s.endpos
    → Lacks c (str s)
    → get_elem? text s.endpos ≡ some c
    → (t : Substring) × (after_token s c ≡ some t)
      × (size t + 1 ≡ size_mod)
      × (str t ≡ drop (s.endpos + 1) text)
unfolding after_token str
after_token_outside text s c v pos lacks here = (
  of_range s.buffer (s.endpos + 1) s.endpos,
  ap
        (λ b. b >>= λ x. some (
          range_if s (before_end s (find x (c ∷ []) s.startpos))
            (λ at. of_range s.buffer (at + 1) s.endpos)))
        v.has_buffer
      ∙ ap (λ r. some (range_if s (before_end s r) (λ at. of_range s.buffer (at + 1) s.endpos)))
          found
      ∙ at_end,
  wraps,
  leaks,
)
  where
    inside : s.endpos < length text
    inside = get_elem?-lt text s.endpos here

    found : find text (c ∷ []) s.startpos ≡ some s.endpos
    found =
        let in_range : leb s.startpos (length text) ≡ true = ground (arith, v.ordered, v.fits) in
        let apart : s.startpos + (s.endpos - s.startpos) ≡ s.endpos = omega (arith, v.ordered) in
        rw (find_lem text (c ∷ []) s.startpos in_range) (
          find_at_first c (s.endpos - s.startpos) (drop s.startpos text) s.startpos
            (rw (str_slice text s v) at lacks)
            (get_elem?-drop s.startpos (s.endpos - s.startpos) text
              ∙ ap (get_elem? text) apart
              ∙ here)
          ∙ ap some apart)

    at_end :
        some (range_if s (before_end s (some s.endpos)) (λ at. of_range s.buffer (at + 1) s.endpos))
        ≡ some (of_range s.buffer (s.endpos + 1) s.endpos)
    at_end = ground arith

    wraps : size (of_range s.buffer (s.endpos + 1) s.endpos) + 1 ≡ size_mod
    wraps = unfold size in omega (arith, v.fits, v.machine)

    leaks : str (of_range s.buffer (s.endpos + 1) s.endpos) ≡ drop (s.endpos + 1) text
    leaks =
        ap (λ b. str_in (of_range s.buffer (s.endpos + 1) s.endpos) b) v.has_buffer
        ∙ str_in_past text (of_range s.buffer (s.endpos + 1) s.endpos) inside pos refl v.machine
