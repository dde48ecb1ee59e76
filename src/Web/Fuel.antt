-- ===== src/Web/Fuel.antt =====
-- The loop of parseheaders ends on any text.
use project_mediaswitch.Base.{
  ℕ, zero, suc, ◌+◌, ◌-◌, ◌≤◌, ◌<◌, ◌≡◌, refl, ap, ◌∙◌, ◌&&◌, [], ◌∷◌, Bytes, length, drop,
  length-drop, ltb, leb, ◌==◌, arith, inl, inr, Bool-cases,
}
use project_mediaswitch.Web.Parse.{
  cr, lf, is_separator, is_blank, skip, Seen, plain, after_cr, after_crlf, scan, get_header_value,
  Reading, Turn, done, next, is_at, after_value, at_byte, turn, read_headers,
}
use project_mediaswitch.Web.Headers.{loop-done}

skip_grows : (s : Bytes) (p : ℕ) → p ≤ skip s p
unfolding skip
skip_grows [] p = omega arith
skip_grows (c ∷ s) p = elim (Bool-cases (is_separator c)) [
  | inl e ↦ let later = skip_grows s (p + 1) in rw (e) (omega (arith, later))
  | inr e ↦ rw (e) (omega arith)
]

scan_grows : (k : Seen) (s : Bytes) (p : ℕ) → p ≤ scan k s p
unfolding scan
scan_grows k [] p = omega arith
scan_grows plain (c ∷ s) p = elim (Bool-cases (c == cr)) [
  | inl e ↦ rw (scan, e) (scan_grows after_cr s p)
  | inr e ↦ let later = scan_grows plain s (p + 1) in rw (scan, e) (omega (arith, later))
]
scan_grows after_cr (c ∷ s) p = elim (Bool-cases (c == lf)) [
  | inl e ↦ rw (scan, e) (scan_grows after_crlf s p)
  | inr e ↦ let later = scan_grows plain s (p + 2) in rw (scan, e) (omega (arith, later))
]
scan_grows after_crlf (c ∷ s) p = elim (Bool-cases (is_blank c)) [
  | inl e ↦ let later = scan_grows plain s (p + 3) in rw (scan, e) (omega (arith, later))
  | inr e ↦ rw (scan, e) (omega arith)
]

value_grows : (text : Bytes) (p : ℕ) → p ≤ (get_header_value text p).stop
unfolding get_header_value
value_grows text p =
    let a = skip_grows (drop p text) p in
    let q = skip (drop p text) p in let b = scan_grows plain (drop q text) q in omega (arith, a, b)

-- A turn at `p` ends the loop, or goes on behind `p` with a name that ends there.
data Advances (p : ℕ) : Turn → Type 0 where
  ended : {r : Reading} → Advances p (done r)
  moved : {r : Reading} {q : ℕ} → p < q → r.name.stop ≡ q → Advances p (next r q)

after_value-Advances :
    (text : Bytes) (r : Reading) (p : ℕ) → p ≤ r.value.stop → Advances p (after_value text r)
after_value-Advances text r p le = elim (Bool-cases (leb (length text) (r.value.stop + 3))) [
  | inl e ↦ rw (e) ended
  | inr e ↦
      elim (Bool-cases (is_at text (r.value.stop + 2) cr && is_at text (r.value.stop + 3) lf)) [
        | inl f ↦ rw (e, f) ended
        | inr f ↦ rw (e, f) (moved (omega (arith, le)) refl)
      ]
]

at_byte-Advances :
    (crc : Bytes → ℕ) (text : Bytes) (r : Reading) (p c : ℕ)
    → r.name.stop ≡ p
    → Advances p (at_byte crc text r p c)
at_byte-Advances crc text r p c e = elim (Bool-cases (is_separator c)) [
  | inl f ↦ elim (Bool-cases (ltb (length text) (r.name.start + (r.name.stop - r.name.start)))) [
    | inl g ↦ rw (f, g) ended
    | inr g ↦
        rw (f, g)
          (after_value-Advances text _ p
            (let n = value_grows text r.name.stop in omega (arith, n, e)))
  ]
  | inr f ↦ rw (f) (moved (omega arith) (omega (arith, e)))
]

same_next :
    (f g : Reading → ℕ → Reading) (p : ℕ) (t : Turn)
    → Advances p t
    → ((x : Reading) (q : ℕ) → p < q → x.name.stop ≡ q → f x q ≡ g x q)
    → (elim t [ done x ↦ x | next x q ↦ f x q ]) ≡ (elim t [ done x ↦ x | next x q ↦ g x q ])
same_next f g p (done x) a h = refl
same_next f g p (next x q) (moved lt at) h = h x q lt at

module _ (crc : Bytes → ℕ) (text : Bytes) where
  turn-Advances : (r : Reading) (p : ℕ) → r.name.stop ≡ p → Advances p (turn crc text r p)
  unfolding turn
  turn-Advances r p e = from (drop p text)
    where
      from : (s : Bytes) → Advances p (elim s [ [] ↦ done r | c ∷ t ↦ at_byte crc text r p c ])
      from [] = ended
      from (c ∷ t) = at_byte-Advances crc text r p c e

  turn-end : (r : Reading) (p : ℕ) → drop p text ≡ [] → turn crc text r p ≡ done r
  unfolding turn
  turn-end r p e = ap (λ s. elim s [ [] ↦ done r | c ∷ t ↦ at_byte crc text r p c ]) e

  nil_behind : (s : Bytes) → length s ≡ 0 → s ≡ []
  nil_behind [] e = refl
  nil_behind (c ∷ s) e = absurd (omega (arith, e))

  -- The loop of parseheaders ends: from a position at which the name so far ends, on fuel for the bytes
  -- that are left, it has the result that it has on any more fuel.
  pub read_headers_enough :
      (n k : ℕ) (r : Reading) (p : ℕ)
      → r.name.stop ≡ p
      → length text ≤ p + n
      → read_headers crc text (n + k) r p ≡ read_headers crc text n r p
  unfolding read_headers
  read_headers_enough zero zero r p e le = refl
  read_headers_enough zero (suc k) r p e le =
      let size = length-drop p text in
      let nil = nil_behind (drop p text) (omega (arith, size, le)) in
      let more : zero + suc k ≡ suc k = omega arith in
      ap (λ i. read_headers crc text i r p) more ∙ loop-done crc text k r r p (turn-end r p nil)
  read_headers_enough (suc n) k r p e le =
      let size : suc n + k ≡ suc (n + k) = omega arith in
      ap (λ i. read_headers crc text i r p) size
      ∙ same_next (read_headers crc text (n + k)) (read_headers crc text n) p (turn crc text r p)
          (turn-Advances r p e)
          (λ x q lt at. read_headers_enough n k x q at (omega (arith, lt, le)))
