-- ===== src/Web/Headers.antt =====
-- The loop of parseheaders over headers as addheader writes them.
use project_mediaswitch.Base.{
  ℕ, suc, ◌+◌, ◌≡◌, ◌≢◌, refl, sym, ap, ap₂, ◌∙◌, false, [], ◌∷◌, ◌++◌, append_assoc, append-nil,
  Bytes, length, drop, take, drop-drop, All, arith,
}
use project_mediaswitch.Text.Url.{to_lower}
use project_mediaswitch.Web.{span}
use project_mediaswitch.Web.Parse.{
  lower, is_separator, is_blank, skip, plain, scan, get_header_value, Reading, done, next, at_byte,
  turn, read_headers,
}

-- What stands behind a text, where its position is known.
pub drop-append : (x y : Bytes) → drop (length x) (x ++ y) ≡ y
drop-append [] y = refl
drop-append (c ∷ x) y = drop-append x y

pub drop_behind : (p : ℕ) (text x y : Bytes) → drop p text ≡ x ++ y → drop (p + length x) text ≡ y
drop_behind p text x y e =
    sym (drop-drop p (length x) text) ∙ ap (drop (length x)) e ∙ drop-append x y

-- A value as addheader can write it: no end of line in it, and no blank or colon at its start.
abbrev pub IsValue : Bytes → Type 0
IsValue v = All (λ c. c ≢ 13) v × (All (λ c. is_separator c ≡ false) (take 1 v))

scan-plain :
    (v s : Bytes) (e : ℕ)
    → All (λ c. c ≢ 13) v
    → scan plain (v ++ s) e ≡ scan plain s (e + length v)
unfolding scan
scan-plain [] s e h = ap (scan plain s) (omega arith)
scan-plain (c ∷ v) s e h = ground (arith, h.0, scan-plain v s (e + 1) h.1)

scan-end : (z : ℕ) (s : Bytes) (e : ℕ) → is_blank z ≡ false → scan plain (13 ∷ 10 ∷ z ∷ s) e ≡ e
unfolding scan
scan-end z s e h = rw (scan, h) refl

skip-value :
    (v s : Bytes) (p : ℕ)
    → All (λ c. is_separator c ≡ false) (take 1 v)
    → skip (v ++ (13 ∷ s)) p ≡ p
unfolding skip
skip-value [] s p h = refl
skip-value (c ∷ v) s p h = rw (h.0) refl

-- The bytes behind a header line: they do not go on with the value, and there are two at least.
pub record Behind (s : Bytes) : Type 0 where
  pub first : ℕ
  pub second : ℕ
  pub rest : Bytes
  pub shape : s ≡ first ∷ second ∷ rest
  pub not_blank : is_blank first ≡ false

skip-colon : (s : Bytes) (p : ℕ) → skip (b':' ∷ b' ' ∷ s) p ≡ skip s (p + 1 + 1)
unfolding skip
skip-colon s p = refl

pub get_header_value-line :
    (text : Bytes) (e : ℕ) (v s : Bytes)
    → drop e text ≡ b':' ∷ b' ' ∷ (v ++ (13 ∷ 10 ∷ s))
    → IsValue v
    → Behind s
    → get_header_value text e ≡ span (e + 2) (e + 2 + length v)
unfolding get_header_value
get_header_value-line text e v s at h b =
    let starts : skip (drop e text) e ≡ e + 2 =
      ap (λ t. skip t e) at
      ∙ skip-colon (v ++ (13 ∷ 10 ∷ s)) e
      ∙ skip-value v (10 ∷ s) (e + 1 + 1) h.1
      ∙ omega arith in
    let behind : drop (e + 2) text ≡ v ++ (13 ∷ 10 ∷ s) =
      drop_behind e text (b':' ∷ b' ' ∷ []) (v ++ (13 ∷ 10 ∷ s)) at in
    let ends : scan plain (drop (e + 2) text) (e + 2) ≡ e + 2 + length v =
      ap (λ t. scan plain t (e + 2)) (behind ∙ ap (λ t. v ++ (13 ∷ 10 ∷ t)) b.shape)
      ∙ scan-plain v _ (e + 2) h.0
      ∙ scan-end b.first (b.second ∷ b.rest) (e + 2 + length v) b.not_blank in
    ap (λ p. span p (scan plain (drop p text) p)) starts ∙ ap (span (e + 2)) ends

module _ (crc : Bytes → ℕ) (text : Bytes) where
  pub turn-at :
      (r : Reading) (p c : ℕ) (s : Bytes)
      → drop p text ≡ c ∷ s
      → turn crc text r p ≡ at_byte crc text r p c
  unfolding turn
  turn-at r p c s e = ap (λ t. elim t [ [] ↦ done r | x ∷ xs ↦ at_byte crc text r p x ]) e

  pub loop-next :
      (n : ℕ) (r r' : Reading) (p p' : ℕ)
      → turn crc text r p ≡ next r' p'
      → read_headers crc text (suc n) r p ≡ read_headers crc text n r' p'
  unfolding read_headers
  loop-next n r r' p p' e =
      ap (λ t. elim t [ done x ↦ x | next x q ↦ read_headers crc text n x q ]) e

  pub loop-done :
      (n : ℕ) (r r' : Reading) (p : ℕ)
      → turn crc text r p ≡ done r'
      → read_headers crc text (suc n) r p ≡ r'
  unfolding read_headers
  loop-done n r r' p e = ap (λ t. elim t [ done x ↦ x | next x q ↦ read_headers crc text n x q ]) e

  abbrev pub named : Reading → Bytes → Reading
  named r x = record r {
    name = span r.name.start (r.name.stop + length x);
    given = r.given ++ lower x;
  }

  named_more : (r : Reading) (c : ℕ) (x : Bytes) → named (named r (c ∷ [])) x ≡ named r (c ∷ x)
  named_more r c x =
      ap₂ (λ n g. record r { name = span r.name.start n; given = g }) (omega arith)
        (append_assoc r.given (to_lower c ∷ []) (lower x))

  named_none : (r : Reading) → r ≡ named r []
  named_none r =
      ap₂ (λ n g. record r { name = span r.name.start n; given = g }) (omega arith)
        (sym (append-nil r.given))

  at_plain :
      (r : Reading) (p c : ℕ)
      → is_separator c ≡ false
      → at_byte crc text r p c ≡ next (named r (c ∷ [])) (p + 1)
  at_plain r p c h = rw (h) refl

  -- The name of a header is read byte by byte.
  pub read_name :
      (x s : Bytes) (n : ℕ) (r : Reading) (p : ℕ)
      → drop p text ≡ x ++ s
      → All (λ c. is_separator c ≡ false) x
      → read_headers crc text (length x + n) r p
        ≡ read_headers crc text n (named r x) (p + length x)
  read_name [] s n r p at h =
      ap (λ k. read_headers crc text k r p) (omega arith)
      ∙ ap (λ r'. read_headers crc text n r' p) (named_none r)
      ∙ ap (read_headers crc text n (named r [])) (omega arith)
  read_name (c ∷ x) s n r p at h =
      ap (λ k. read_headers crc text k r p) (omega arith)
      ∙ loop-next (length x + n) r (named r (c ∷ [])) p (p + 1)
          (turn-at r p c (x ++ s) at ∙ at_plain r p c h.0)
      ∙ read_name x s n (named r (c ∷ [])) (p + 1) (drop_behind p text (c ∷ []) (x ++ s) at) h.1
      ∙ ap (λ r'. read_headers crc text n r' (p + 1 + length x)) (named_more r c x)
      ∙ ap (read_headers crc text n (named r (c ∷ x))) (omega arith)
