-- ===== src/Text/Substring/Trim/Laws.antt =====
-- What `trim` leaves of a substring.
use project_mediaswitch.Base.{
  ℕ, ◌+◌, ◌-◌, ◌≤◌, ◌<◌, ◌≡◌, refl, ap, ◌∙◌, ◌++◌, Bytes, some, length, drop, take, slice-add,
  arith,
}
use project_mediaswitch.Text.Substring.{Substring, size_mod, IsIn, of_range, str, str_slice}
use project_mediaswitch.Text.Substring.Trim.{ltrim, rtrim_loop, rtrim, trim}
use project_mediaswitch.Text.Substring.Compare.Literals.{NoNul}
use project_mediaswitch.Text.Substring.Trim.Loops.{
  IsSpaces, StartsPlain, EndsPlain, StartsPlain-prefix, Skips, ltrim_loop-Skips, Keeps,
  rtrim_loop-Keeps,
}

-- `t` is `s` without the white space at its ends.
pub record IsTrimmed (text : Bytes) (s t : Substring) : Type 0 where
  pub lies_in : IsIn text t
  pub before : Bytes
  pub after : Bytes
  pub split : str s ≡ before ++ (str t ++ after)
  pub spaces_before : IsSpaces before
  pub spaces_after : IsSpaces after
  pub starts_plain : StartsPlain (str t)
  pub ends_plain : EndsPlain (str t)

ltrim_lem :
    (text : Bytes) (s : Substring) (l : Skips text s.startpos (s.endpos - s.startpos))
    → s.buffer ≡ some text
    → ltrim s ≡ some (of_range (some text) (s.startpos + l.k) s.endpos)
unfolding ltrim
ltrim_lem text s l b = ground (arith, b, l.result)

rtrim_lem :
    (text : Bytes) (start stop : ℕ)
    (r : Keeps text start (stop - start) (rtrim_loop text start stop stop))
    → start ≤ stop
    → rtrim (of_range (some text) start stop) ≡ some (of_range (some text) start (start + r.m))
unfolding rtrim
rtrim_lem text start stop r h = ground (arith, r.result, r.total)

str_range :
    (text : Bytes) (start m : ℕ)
    → start + m ≤ length text
    → length text < size_mod
    → str (of_range (some text) start (start + m)) ≡ take m (drop start text)
str_range text start m h k =
    str_slice text (of_range (some text) start (start + m))
      (record { has_buffer = refl; ordered = omega arith; fits = h; machine = k })
    ∙ ap (λ j. take j (drop start text)) (omega arith)

-- A slice of `k + (m + n)` bytes is cut in three.
slice_three :
    (text : Bytes) (start k m n len : ℕ)
    → k + (m + n) ≡ len
    → take len (drop start text)
      ≡ take k (drop start text)
        ++ (take m (drop (start + k) text) ++ take n (drop (start + k + m) text))
slice_three text start k m n len e = rw (← e) (
    slice-add start k (m + n) text
    ∙ ap (λ z. take k (drop start text) ++ z) (slice-add (start + k) m n text))

-- What both loops did, put together.
module _ (text : Bytes) (s : Substring) (v : IsIn text s)
    (l : Skips text s.startpos (s.endpos - s.startpos))
    (r : Keeps text
      (s.startpos + l.k)
      (s.endpos - (s.startpos + l.k))
      (rtrim_loop text (s.startpos + l.k) s.endpos s.endpos)) where
  abbrev trimmed : Substring
  trimmed = of_range (some text) (s.startpos + l.k) (s.startpos + l.k + r.m)

  trim-trimmed : trim s ≡ some trimmed
  unfolding trim
  trim-trimmed =
      rw (ltrim_lem text s l v.has_buffer)
        (rtrim_lem text (s.startpos + l.k) s.endpos r (omega (arith, v.ordered, l.total)))

  str-trimmed : str trimmed ≡ take r.m (drop (s.startpos + l.k) text)
  str-trimmed =
      str_range text (s.startpos + l.k) r.m (omega (arith, v.ordered, v.fits, l.total, r.total))
        v.machine

  StartsPlain-trimmed : StartsPlain (take r.m (drop (s.startpos + l.k) text))
  StartsPlain-trimmed = StartsPlain-prefix _ (take r.n (drop (s.startpos + l.k + r.m) text)) (
      rw (← slice-add (s.startpos + l.k) r.m r.n text)
        (let e : r.m + r.n ≡ l.n = omega (arith, v.ordered, l.total, r.total) in rw e l.plain))

  trimmed-IsTrimmed : IsTrimmed text s trimmed
  trimmed-IsTrimmed = record {
    lies_in = record {
      has_buffer = refl;
      ordered = omega arith;
      fits = omega (arith, v.ordered, v.fits, l.total, r.total);
      machine = v.machine;
    };
    before = take l.k (drop s.startpos text);
    after = take r.n (drop (s.startpos + l.k + r.m) text);
    split = rw str-trimmed (
        str_slice text s v
        ∙ slice_three text s.startpos l.k r.m r.n (s.endpos - s.startpos)
            (omega (arith, v.ordered, l.total, r.total)));
    spaces_before = l.spaces;
    spaces_after = r.spaces;
    starts_plain = rw str-trimmed StartsPlain-trimmed;
    ends_plain = rw str-trimmed r.plain;
  }

-- On a substring that lies in a text without NULs, `trim` never reads outside the text, takes away
-- white space only, and leaves a text that neither begins nor ends with white space.
pub trim-IsTrimmed :
    (text : Bytes) (s : Substring)
    → IsIn text s
    → NoNul text
    → (t : Substring) × (trim s ≡ some t) × IsTrimmed text s t
trim-IsTrimmed text s v no_nul =
    let l =
      ltrim_loop-Skips text s.startpos (s.endpos - s.startpos) (omega (arith, v.ordered, v.fits)) in
    let r =
      rtrim_loop-Keeps text (s.startpos + l.k) (s.endpos - (s.startpos + l.k)) s.endpos
        (omega (arith, v.ordered, l.total)) v.fits no_nul in
    (trimmed text s v l r, trim-trimmed text s v l r, trimmed-IsTrimmed text s v l r)
