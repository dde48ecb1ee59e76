-- ===== src/Text/Substring/Compare/Pairs.antt =====
-- Comparing two substrings.
use project_mediaswitch.Base.{
  ℕ, ◌<◌, ◌≡◌, ◌∙◌, ap₂, Bool, true, false, not, [], ◌∷◌, Bytes, some, length, drop, ◌==◌,
  if◌then◌else◌, arith,
}
use project_mediaswitch.Text.Substring.{Substring, IsIn, size}
use project_mediaswitch.Text.Substring.Compare.{
  move_on, eq_sub_loop, eq_sub_text, eq_sub, ne_sub_loop, ne_sub_text, ne_sub,
}

-- A start inside a text is not its end.
move_on-inside :
    (other : Bytes) (n : ℕ) → n < length other → (move_on other n == length other) ≡ false
move_on-inside other n h = ground arith

eq_sub_loop-inside :
    (sensitive : Bool) (text other : Bytes) (rit : ℕ)
    → (rit == length other) ≡ false
    → eq_sub_loop sensitive text other rit ≡ false
unfolding eq_sub_loop
eq_sub_loop-inside sensitive [] other rit h = h
eq_sub_loop-inside sensitive (x ∷ text) other rit h = rw h

ne_sub_loop-inside :
    (text other : Bytes) (rit : ℕ)
    → (rit == length other) ≡ false
    → ne_sub_loop text other rit ≡ true
unfolding ne_sub_loop
ne_sub_loop-inside [] other rit h = rw h
ne_sub_loop-inside (x ∷ text) other rit h = rw h

-- With a second substring that is not empty, operator== is false, even for two substrings with the
-- same text, and operator!= tells only whether the two lengths differ.
pub eq_sub-ne_sub :
    (text other : Bytes) (l r : Substring)
    → IsIn text l
    → IsIn other r
    → r.startpos < r.endpos
    → (eq_sub l r ≡ some false) × (ne_sub l r ≡ not (size l == size r))
unfolding eq_sub ne_sub
eq_sub-ne_sub text other l r vl vr h = (
  ap₂ (λ b c. eq_sub_text l r b c) vl.has_buffer vr.has_buffer ∙ eq_case,
  ap₂ (λ b c. ne_sub_text l r b c) vl.has_buffer vr.has_buffer ∙ ne_case,
)
  where
    inside : (move_on other r.startpos == length other) ≡ false
    inside = move_on-inside other r.startpos (omega (arith, vr.fits))

    eq_case : eq_sub_text l r (some text) (some other) ≡ some false
    eq_case =
        unfold eq_sub_text in
        ground (
          arith,
          eq_sub_loop-inside (if not r.case_sensitive then false else l.case_sensitive)
              (drop l.startpos text) other (move_on other r.startpos) inside,
        )

    ne_case : ne_sub_text l r (some text) (some other) ≡ not (size l == size r)
    ne_case =
        unfold ne_sub_text in
        ground
          (arith, ne_sub_loop-inside (drop l.startpos text) other (move_on other r.startpos) inside)
