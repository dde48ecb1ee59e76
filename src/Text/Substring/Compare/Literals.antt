-- ===== src/Text/Substring/Compare/Literals.antt =====
-- Comparing a substring with a literal of the program.
use project_mediaswitch.Base.{
  length-drop, length-take, ℕ, zero, suc, ◌+◌, ◌-◌, ◌≤◌, ◌<◌, ◌≡◌, ◌≢◌, refl, ap, ◌∙◌, sym, Bool,
  true, false, not, ◌&&◌, [], ◌∷◌, map, Bytes, bytes_eq, some, length, drop, take, All, ◌==◌, inl,
  inr, arith, Bool-cases,
}
use project_mediaswitch.Text.Std.{substr}
use project_mediaswitch.Text.Url.{to_lower}
use project_mediaswitch.Text.Substring.{Substring, IsIn, size, str, str_slice, size_of}
use project_mediaswitch.Text.Substring.Compare.{
  is_end, same, ne_loop, ne_str, ne_text, eq_loop, eq_text, eq_str,
}

abbrev pub NoNul : Bytes → Type 0
NoNul = All (λ c. 0 < c)

-- The text as the comparison sees it.
abbrev pub fold_case : Bool → Bytes → Bytes
fold_case true s = s
fold_case false s = map to_lower s

-- The case rule of a literal that is tested for the empty text.
size_zero :
    (text : Bytes) (s : Substring) → IsIn text s → (size s == 0) ≡ true → s.endpos - s.startpos ≡ 0
size_zero text s v h = ground (arith, size_of text s v)

-- One equation of characters decides the folded heads.
fold_case-cons :
    (sensitive : Bool) (x c : ℕ) (xs cs : Bytes)
    → bytes_eq (fold_case sensitive (x ∷ xs)) (fold_case sensitive (c ∷ cs))
      ≡ (same sensitive x c && bytes_eq (fold_case sensitive xs) (fold_case sensitive cs))
unfolding bytes_eq
fold_case-cons true x c xs cs = refl
fold_case-cons false x c xs cs = refl

fold_case-nil-cons :
    (sensitive : Bool) (c : ℕ) (cs : Bytes)
    → bytes_eq (fold_case sensitive []) (fold_case sensitive (c ∷ cs)) ≡ false
unfolding bytes_eq
fold_case-nil-cons true c cs = refl
fold_case-nil-cons false c cs = refl

fold_case-cons-nil :
    (sensitive : Bool) (c : ℕ) (cs : Bytes)
    → bytes_eq (fold_case sensitive (c ∷ cs)) (fold_case sensitive []) ≡ false
unfolding bytes_eq
fold_case-cons-nil true c cs = refl
fold_case-cons-nil false c cs = refl

fold_case-nil :
    (sensitive : Bool) → bytes_eq (fold_case sensitive []) (fold_case sensitive []) ≡ true
unfolding bytes_eq
fold_case-nil true = refl
fold_case-nil false = refl

-- No other byte is the same as NUL.
same_nul : (sensitive : Bool) (x : ℕ) → 0 < x → same sensitive x 0 ≡ false
unfolding to_lower
same_nul true x h = ground arith
same_nul false x h = ground arith

eq_loop-bytes_eq :
    (sensitive : Bool) (text : Bytes) (index left stop : ℕ) (rhs : Bytes)
    → index + left ≡ stop
    → left ≤ length text
    → NoNul text
    → eq_loop sensitive text index stop rhs
      ≡ some (bytes_eq (fold_case sensitive (take left text)) (fold_case sensitive rhs))
unfolding eq_loop
eq_loop-bytes_eq s [] index zero stop [] e h n = rw (fold_case-nil s)
eq_loop-bytes_eq s [] index zero stop (c ∷ rhs) e h n = rw (fold_case-nil-cons s c rhs)
eq_loop-bytes_eq s [] index (suc left) stop rhs e h n = absurd (omega arith)
eq_loop-bytes_eq s (x ∷ text) index zero stop [] e h n = ground (arith, fold_case-nil s)
eq_loop-bytes_eq s (x ∷ text) index zero stop (c ∷ rhs) e h n =
    ground (arith, fold_case-nil-cons s c rhs)
eq_loop-bytes_eq s (x ∷ text) index (suc left) stop [] e h n =
    ground (arith, same_nul s x n.0, fold_case-cons-nil s x (take left text))
eq_loop-bytes_eq s (x ∷ text) index (suc left) stop (c ∷ rhs) e h n = ground (
  arith,
  fold_case-cons s x c (take left text) rhs,
  eq_loop-bytes_eq s text (index + 1) left stop rhs (omega arith) (omega arith) n.1,
)

ne_loop-bytes_eq :
    (text : Bytes) (index left stop : ℕ) (rhs : Bytes)
    → index + left ≡ stop
    → left ≤ length text
    → ne_loop text index stop rhs ≡ not (bytes_eq (take left text) rhs)
unfolding ne_loop bytes_eq
ne_loop-bytes_eq [] index zero stop [] e h = refl
ne_loop-bytes_eq [] index zero stop (c ∷ rhs) e h = refl
ne_loop-bytes_eq [] index (suc left) stop rhs e h = absurd (omega arith)
ne_loop-bytes_eq (x ∷ text) index zero stop [] e h = ground arith
ne_loop-bytes_eq (x ∷ text) index zero stop (c ∷ rhs) e h = ground arith
ne_loop-bytes_eq (x ∷ text) index (suc left) stop [] e h = ground arith
ne_loop-bytes_eq (x ∷ text) index (suc left) stop (c ∷ rhs) e h =
    ground (arith, ne_loop-bytes_eq text (index + 1) left stop rhs (omega arith) (omega arith))

NoNul-drop : (n : ℕ) (text : Bytes) → NoNul text → NoNul (drop n text)
NoNul-drop zero text h = h
NoNul-drop (suc n) [] h = tt
NoNul-drop (suc n) (c ∷ text) h = NoNul-drop n text h.1

eq_text-bytes_eq :
    (text : Bytes) (s : Substring) (rhs : Bytes)
    → IsIn text s
    → NoNul text
    → eq_text s (some text) rhs
      ≡ some (
          bytes_eq
            (fold_case s.case_sensitive (substr text s.startpos (s.endpos - s.startpos)))
            (fold_case s.case_sensitive rhs))
unfolding eq_text
eq_text-bytes_eq text s rhs v n = elim (Bool-cases (size s == 0 && is_end rhs)) [
  | inl e ↦
      rw (e, eq_text) (empty_case s.case_sensitive rhs _ (size_zero text s v (ground arith)) e)
  | inr e ↦
      rw (e, eq_text)
        (eq_loop-bytes_eq s.case_sensitive (drop s.startpos text) s.startpos (s.endpos - s.startpos)
          s.endpos rhs (omega (arith, v.ordered))
          (omega (arith, v.fits, length-drop s.startpos text)) (NoNul-drop s.startpos text n))
]
  where
    empty_case :
        (sensitive : Bool) (r : Bytes) (k : ℕ)
        → k ≡ 0
        → (size s == 0 && is_end r) ≡ true
        → some true
          ≡ some (bytes_eq (fold_case sensitive (substr text s.startpos k)) (fold_case sensitive r))
    empty_case sensitive [] zero z e = rw (fold_case-nil sensitive)
    empty_case sensitive (c ∷ r) zero z e = ground arith
    empty_case sensitive r (suc k) z e = absurd (omega arith)

ne_text-bytes_eq :
    (text : Bytes) (s : Substring) (c : ℕ) (rhs : Bytes)
    → IsIn text s
    → ne_text s (some text) (c ∷ rhs)
      ≡ not (bytes_eq (substr text s.startpos (s.endpos - s.startpos)) (c ∷ rhs))
unfolding ne_text
ne_text-bytes_eq text s c rhs v = rw (ne_test) (
    ne_loop-bytes_eq (drop s.startpos text) s.startpos (s.endpos - s.startpos) s.endpos (c ∷ rhs)
      (omega (arith, v.ordered)) (omega (arith, v.fits, length-drop s.startpos text)))
  where
    ne_test : (size s == 0 && false) ≡ false
    ne_test = ground arith

str-ne-nil :
    (text : Bytes) (s : Substring)
    → IsIn text s
    → s.startpos < s.endpos
    → bytes_eq (fold_case s.case_sensitive (str s)) (fold_case s.case_sensitive []) ≡ false
str-ne-nil text s v h = rw (str_slice text s v) (
    nonempty s.case_sensitive (substr text s.startpos (s.endpos - s.startpos)) (
      omega (
        arith,
        v.fits,
        length-take (s.endpos - s.startpos) (drop s.startpos text),
        length-drop s.startpos text,
      )))
  where
    nonempty :
        (sensitive : Bool) (t : Bytes)
        → 0 < length t
        → bytes_eq (fold_case sensitive t) (fold_case sensitive []) ≡ false
    nonempty sensitive [] z = absurd (omega arith)
    nonempty sensitive (x ∷ t) z = fold_case-cons-nil sensitive x t

-- On a substring that lies in a text without NULs, operator== with a literal never leaves its
-- strings, and tells whether the text of the substring is the literal, up to case where the
-- substring is not case sensitive.
pub eq_str-bytes_eq :
    (text : Bytes) (s : Substring) (rhs : Bytes)
    → IsIn text s
    → NoNul text
    → eq_str s rhs
      ≡ some (bytes_eq (fold_case s.case_sensitive (str s)) (fold_case s.case_sensitive rhs))
unfolding eq_str
eq_str-bytes_eq text s rhs v n =
    ap (λ b. eq_text s b rhs) v.has_buffer
    ∙ eq_text-bytes_eq text s rhs v n
    ∙ ap (λ t. some (bytes_eq (fold_case s.case_sensitive t) (fold_case s.case_sensitive rhs)))
        (sym (str_slice text s v))

-- With a literal that is not empty, operator!= tells whether the text of the substring differs from
-- it, and pays no heed to case sensitivity.
pub ne_str-bytes_eq :
    (text : Bytes) (s : Substring) (rhs : Bytes)
    → IsIn text s
    → rhs ≢ []
    → ne_str s rhs ≡ not (bytes_eq (str s) rhs)
unfolding ne_str
ne_str-bytes_eq text s [] v ne = absurd (ne refl)
ne_str-bytes_eq text s (c ∷ rhs) v ne =
    ap (λ b. ne_text s b (c ∷ rhs)) v.has_buffer
    ∙ ne_text-bytes_eq text s c rhs v
    ∙ ap (λ t. not (bytes_eq t (c ∷ rhs))) (sym (str_slice text s v))

-- On a substring that is not empty, both operators are false at the empty literal: operator!=
-- tests whether the whole buffer is empty, and gives the answer for that the wrong way round.
pub ne_str_empty :
    (text : Bytes) (s : Substring)
    → IsIn text s
    → NoNul text
    → s.startpos < s.endpos
    → (eq_str s [] ≡ some false) × (ne_str s [] ≡ false)
unfolding ne_str
ne_str_empty text s v n h = (
  eq_str-bytes_eq text s [] v n ∙ ap some (str-ne-nil text s v h),
  ap (λ b. ne_text s b []) v.has_buffer ∙ unfold ne_text in ground (arith, v.fits),
)
