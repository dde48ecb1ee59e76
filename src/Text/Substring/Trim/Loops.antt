-- ===== src/Text/Substring/Trim/Loops.antt =====
-- The loops of ltrim and rtrim over a text.
use project_mediaswitch.Base.{
  ℕ, zero, suc, ◌+◌, ◌-◌, ◌≤◌, ◌<◌, ◌≡◌, ap, ◌∙◌, true, false, [], ◌∷◌, ◌++◌, Bytes, Option, some,
  get_elem?, length, drop, take, drop_step, slice_snoc, All, All-append, ltb, ◌==◌, if◌then◌else◌,
  inl, inr, Bool-cases, arith,
}
use project_mediaswitch.Text.Substring.Trim.{is_space, read, ltrim_loop, rtrim_loop}
use project_mediaswitch.Text.Substring.Compare.Literals.{NoNul}

abbrev pub IsSpaces : Bytes → Type 0
IsSpaces = All (λ c. is_space c ≡ true)

-- The text is empty or begins with another byte than white space.
abbrev pub StartsPlain : Bytes → Type 0
StartsPlain [] = Unit
StartsPlain (c ∷ cs) = is_space c ≡ false

-- The text is empty or ends with another byte than white space.
abbrev pub EndsPlain : Bytes → Type 0
EndsPlain [] = Unit
EndsPlain (c ∷ []) = is_space c ≡ false
EndsPlain (c ∷ d ∷ cs) = EndsPlain (d ∷ cs)

EndsPlain-concat : (xs : Bytes) (c : ℕ) → is_space c ≡ false → EndsPlain (xs ++ (c ∷ []))
EndsPlain-concat [] c h = h
EndsPlain-concat (x ∷ []) c h = h
EndsPlain-concat (x ∷ y ∷ xs) c h = EndsPlain-concat (y ∷ xs) c h

pub StartsPlain-prefix : (xs ys : Bytes) → StartsPlain (xs ++ ys) → StartsPlain xs
StartsPlain-prefix [] ys h = tt
StartsPlain-prefix (x ∷ xs) ys h = h

read-inside :
    (text : Bytes) (i c : ℕ) → i < length text → get_elem? text i ≡ some c → read text i ≡ some c
unfolding read
read-inside text i c h e = ground arith

-- The loop of ltrim leaves `k` bytes behind, all of them white space, of `k + n`.
pub record Skips (text : Bytes) (i left : ℕ) : Type 0 where
  pub k : ℕ
  pub n : ℕ
  pub result : ltrim_loop text i left ≡ some (i + k)
  pub total : k + n ≡ left
  pub spaces : IsSpaces (take k (drop i text))
  pub plain : StartsPlain (take n (drop (i + k) text))

pub ltrim_loop-Skips : (text : Bytes) (i left : ℕ) → i + left ≤ length text → Skips text i left
unfolding ltrim_loop
ltrim_loop-Skips text i zero h = record {
  k = 0;
  n = 0;
  result = ap some (omega arith);
  total = omega arith;
  spaces = tt;
  plain = tt;
}
ltrim_loop-Skips text i (suc left) h =
    let (c, at, tail) = drop_step i text (omega arith) in
    let seen = read-inside text i c (omega arith) at in
    let next = ltrim_loop-Skips text (i + 1) left (omega arith) in
    elim (Bool-cases (is_space c)) [
      | inl space ↦ record {
        k = suc next.k;
        n = next.n;
        result = rw (seen, ltrim_loop) (rw (space) (next.result ∙ ap some (omega arith)));
        total = omega (arith, next.total);
        spaces = rw tail (space, next.spaces);
        plain = let e : i + suc next.k ≡ i + 1 + next.k = omega arith in rw e next.plain;
      }
      | inr other ↦ record {
        k = 0;
        n = suc left;
        result = rw (seen, ltrim_loop) (rw (other) (ap some (omega arith)));
        total = omega arith;
        spaces = tt;
        plain = let e : i + 0 ≡ i = omega arith in rw (e, tail) other;
      }
    ]

-- The loop of rtrim keeps `m` bytes and takes `n`, all of them white space, of `m + n`.
pub record Keeps (text : Bytes) (start len : ℕ) (r : Option ℕ) : Type 0 where
  pub m : ℕ
  pub n : ℕ
  pub result : r ≡ some (start + m)
  pub total : m + n ≡ len
  pub spaces : IsSpaces (take n (drop (start + m) text))
  pub plain : EndsPlain (take m (drop start text))

NoNul-get_elem? :
    (text : Bytes) (i c : ℕ) → NoNul text → get_elem? text i ≡ some c → (c == 0) ≡ false
NoNul-get_elem? [] i c n e = cc
NoNul-get_elem? (x ∷ text) zero c n e = ground (arith, n.0)
NoNul-get_elem? (x ∷ text) (suc i) c n e = NoNul-get_elem? text i c n.1 e

rtrim_loop_stop :
    (text : Bytes) (start behind i : ℕ)
    → ltb start i ≡ false
    → rtrim_loop text start behind i ≡ some i
unfolding rtrim_loop
rtrim_loop_stop text start zero i h = rw h
rtrim_loop_stop text start (suc at) i h = rw h

-- One round, on a byte that is not NUL.
rtrim_loop_round :
    (text : Bytes) (start at c : ℕ)
    → read text at ≡ some c
    → (c == 0) ≡ false
    → ltb start (suc at) ≡ true
    → rtrim_loop text start (suc at) (suc at)
      ≡ (if is_space c then rtrim_loop text start at (suc at - 1) else some (suc at))
unfolding rtrim_loop
rtrim_loop_round text start at c seen byte inside = rw (inside, rtrim_loop) (rw (seen) (rw byte))

pub rtrim_loop-Keeps :
    (text : Bytes) (start len stop : ℕ)
    → start + len ≡ stop
    → stop ≤ length text
    → NoNul text
    → Keeps text start len (rtrim_loop text start stop stop)
rtrim_loop-Keeps text start zero stop e h n = record {
  m = 0;
  n = 0;
  result = rtrim_loop_stop text start stop stop (ground arith) ∙ ap some (omega arith);
  total = omega arith;
  spaces = tt;
  plain = tt;
}
rtrim_loop-Keeps text start (suc len) zero e h n = absurd (omega arith)
rtrim_loop-Keeps text start (suc len) (suc at) e h n =
    let (c, here, tail) = drop_step at text (omega arith) in
    let seen = read-inside text at c (omega arith) here in
    let text_byte = NoNul-get_elem? text at c n here in
    let inside : ltb start (suc at) ≡ true = ground arith in
    let next = rtrim_loop-Keeps text start len at (omega arith) (omega arith) n in
    let round = rtrim_loop_round text start at c seen text_byte inside in
    let next_at : (i : ℕ) → i ≡ at → get_elem? text i ≡ some c = λ i same. rw same here in
    let last : suc at - 1 ≡ at = omega arith in
    elim (Bool-cases (is_space c)) [
      | inl space ↦ record {
        m = next.m;
        n = suc next.n;
        result = round ∙ rw space (ap (rtrim_loop text start at) last ∙ next.result);
        total = omega (arith, next.total);
        spaces =
            rw (slice_snoc (start + next.m) next.n text (next_at _ (omega (arith, next.total))))
              (All-append (λ d. is_space d ≡ true) _ (c ∷ []) next.spaces (space, tt));
        plain = next.plain;
      }
      | inr other ↦ record {
        m = suc len;
        n = 0;
        result = round ∙ rw other (ap some (omega arith));
        total = omega arith;
        spaces = tt;
        plain =
            rw (slice_snoc start len text (next_at _ (omega arith)))
              (EndsPlain-concat (take len (drop start text)) c other);
      }
    ]
