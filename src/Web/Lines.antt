-- ===== src/Web/Lines.antt =====
-- Header lines as addheader writes them, and the loop of parseheaders over them.
use mathlib.Core.Path.{subst}
use project_mediaswitch.Base.{
  ℕ, zero, suc, ◌+◌, ◌-◌, ◌≤◌, ◌≡◌, ◌≢◌, refl, sym, ap, ◌∙◌, false, List, [], ◌∷◌, ◌++◌, Bytes,
  none, some, length, length-append, length-drop, drop, get_elem?, All, ltb, leb, ◌==◌, arith,
}
use project_mediaswitch.Web.{span}
use project_mediaswitch.Web.Headers.{Behind, IsValue, drop_behind, get_header_value-line, turn-at}
use project_mediaswitch.Web.Parse.{
  cr, lf, crlf, is_separator, is_blank, Reading, done, next, is_at, after_value, take_value, turn,
}

-- Headers, with what stands behind them: an empty line, and a body.
pub record Field : Type 0 where
  pub name : Bytes
  pub value : Bytes

unfoldable pub lines : List Field → Bytes → Bytes
lines [] s = 13 ∷ 10 ∷ s
lines (f ∷ fs) s = f.name ++ (b':' ∷ b' ' ∷ (f.value ++ (13 ∷ 10 ∷ lines fs s)))

pub record IsName (x : Bytes) : Type 0 where
  pub first : ℕ
  pub others : Bytes
  pub shape : x ≡ first ∷ others
  pub plain : All (λ c. is_separator c ≡ false) x
  pub not_blank : is_blank first ≡ false
  pub not_cr : first ≢ 13

pub record IsField (f : Field) : Type 0 where
  pub name : IsName f.name
  pub value : IsValue f.value

-- The first bytes of a header line that goes on.
pub record Begun (s : Bytes) : Type 0 where
  pub behind : Behind s
  pub not_cr : behind.first ≢ 13

begun :
    (c : ℕ) (others s : Bytes) → is_blank c ≡ false → c ≢ 13 → Begun ((c ∷ others) ++ (b':' ∷ s))
begun c [] s h n = record {
  behind = record { first = c; second = b':'; rest = s; shape = refl; not_blank = h };
  not_cr = n;
}
begun c (d ∷ ds) s h n = record {
  behind = record { first = c; second = d; rest = ds ++ (b':' ∷ s); shape = refl; not_blank = h };
  not_cr = n;
}

pub named-Begun : (x s : Bytes) → IsName x → Begun (x ++ (b':' ∷ s))
named-Begun x s h =
    subst (λ y. Begun (y ++ (b':' ∷ s))) (sym h.shape)
      (begun h.first h.others s h.not_blank h.not_cr)

pub lines-Behind : (fs : List Field) (s : Bytes) → All IsField fs → Behind (lines fs s)
unfolding lines
lines-Behind [] s h = record { first = 13; second = 10; rest = s; shape = refl; not_blank = refl }
lines-Behind (f ∷ fs) s h =
    (named-Begun f.name (b' ' ∷ (f.value ++ (13 ∷ 10 ∷ lines fs s))) h.0.name).behind

-- Positions whose bytes are known are in the text.
at_head :
    (p : ℕ) (text : Bytes) (c : ℕ) (s : Bytes) → drop p text ≡ c ∷ s → get_elem? text p ≡ some c
at_head zero text c s e = rw (e) refl
at_head (suc p) [] c s e = cc
at_head (suc p) (x ∷ text) c s e = at_head p text c s e

pub length_behind :
    (p : ℕ) (text : Bytes) (c : ℕ) (s : Bytes)
    → drop p text ≡ c ∷ s
    → length text ≡ p + suc (length s)
length_behind p text c s e =
    let n : length text - p ≡ suc (length s) = sym (length-drop p text) ∙ ap length e in
    omega (arith, n)

is_at-head :
    (p : ℕ) (text : Bytes) (c d : ℕ) (s : Bytes) → drop p text ≡ c ∷ s → is_at text p d ≡ (c == d)
is_at-head p text c d s e =
    ap (λ o. elim o [ none ↦ false | some x ↦ x == d ]) (at_head p text c s e)

module _ (crc : Bytes → ℕ) (text : Bytes) where
  pub ends_with :
      (r : Reading) (s : Bytes)
      → drop r.value.stop text ≡ 13 ∷ 10 ∷ 13 ∷ 10 ∷ s
      → after_value text r ≡ done r
  ends_with r s at =
      let size : leb (length text) (r.value.stop + 3) ≡ false =
        let n = length_behind r.value.stop text 13 (10 ∷ 13 ∷ 10 ∷ s) at in ground (arith, n) in
      let behind = drop_behind r.value.stop text crlf (13 ∷ 10 ∷ s) at in
      let third = is_at-head (r.value.stop + 2) text 13 cr (10 ∷ s) behind in
      let fourth =
        is_at-head (r.value.stop + 2 + 1) text 10 lf s
          (drop_behind (r.value.stop + 2) text (13 ∷ []) (10 ∷ s) behind) in
      let same : r.value.stop + 2 + 1 ≡ r.value.stop + 3 = omega arith in
      rw (size, third, sym same, fourth) refl

  pub goes_on :
      (r : Reading) (c d : ℕ) (s : Bytes)
      → drop r.value.stop text ≡ 13 ∷ 10 ∷ c ∷ d ∷ s
      → c ≢ 13
      → after_value text r
        ≡ next
            (record r {
              name = span (r.value.stop + 2) (r.value.stop + 2);
              given = [];
              count = r.count + 1;
            })
            (r.value.stop + 2)
  goes_on r c d s at h =
      let size : leb (length text) (r.value.stop + 3) ≡ false =
        let n = length_behind r.value.stop text 13 (10 ∷ c ∷ d ∷ s) at in ground (arith, n) in
      let third =
        is_at-head (r.value.stop + 2) text c cr (d ∷ s)
          (drop_behind r.value.stop text crlf (c ∷ d ∷ s) at) in
      let other : (c == 13) ≡ false = ground (arith, h) in rw (size, third, other) refl

  pub value_turn :
      (r : Reading) (v s : Bytes)
      → drop r.name.stop text ≡ b':' ∷ b' ' ∷ (v ++ (13 ∷ 10 ∷ s))
      → IsValue v
      → Behind s
      → r.name.start ≤ r.name.stop
      → turn crc text r r.name.stop
        ≡ take_value crc text r (span (r.name.stop + 2) (r.name.stop + 2 + length v))
  value_turn r v s at h b le =
      let size : ltb (length text) (r.name.start + (r.name.stop - r.name.start)) ≡ false =
        let n = length_behind r.name.stop text b':' (b' ' ∷ (v ++ (13 ∷ 10 ∷ s))) at in
        ground (arith, n, le) in
      turn-at crc text r r.name.stop b':' (b' ' ∷ (v ++ (13 ∷ 10 ∷ s))) at
      ∙ rw (size, get_header_value-line text r.name.stop v s at h b) refl

pub size-lines :
    (f : Field) (fs : List Field) (s : Bytes)
    → length (lines (f ∷ fs) s) ≡ length f.name + (length f.value + (length (lines fs s) + 4))
unfolding lines
size-lines f fs s =
    let a = length-append f.name (b':' ∷ b' ' ∷ (f.value ++ (13 ∷ 10 ∷ lines fs s))) in
    let b = length-append f.value (13 ∷ 10 ∷ lines fs s) in omega (arith, a, b)
