-- ===== src/Tests/Substrings.antt =====
-- Tests of the substrings, on one text with white space and a separator.
use project_mediaswitch.Base.{
  ◌-◌, ◌≡◌, refl, true, not, [], ◌∷◌, Bytes, Option, none, some, codes, bytes_eq, ltb,
  if◌then◌else◌, ℤ, pos, arith,
}
use project_mediaswitch.Text.Std.{c_string}
use project_mediaswitch.Text.Substring.{Substring, IsIn, str, of_string, of_range, to_int}
use project_mediaswitch.Text.Substring.Trim.{trim}
use project_mediaswitch.Text.Substring.Trim.Laws.{IsTrimmed, trim-IsTrimmed}
use project_mediaswitch.Text.Substring.Compare.{eq_str, ne_str}
use project_mediaswitch.Text.Substring.Compare.Literals.{
  fold_case, eq_str-bytes_eq, ne_str-bytes_eq,
}

abbrev header : Bytes
header = codes " OPTIONS @x"

-- " OPTIONS ", with the separator right behind it.
abbrev method : Substring
method = of_range (some header) 0 9

method-IsIn : IsIn header method
method-IsIn = record {
  has_buffer = refl;
  ordered = omega arith;
  fits = omega arith;
  machine = omega arith;
}

trim_method : trim method ≡ some (of_range (some header) 1 8)
unfolding trim
trim_method = refl

trim-IsTrimmed_example : (t : Substring) × (trim method ≡ some t) × IsTrimmed header method t
trim-IsTrimmed_example = trim-IsTrimmed header method method-IsIn (omega arith)

eq_str-bytes_eq_example :
    eq_str method (codes "x")
    ≡ some (bytes_eq (fold_case true (str method)) (fold_case true (codes "x")))
eq_str-bytes_eq_example = eq_str-bytes_eq header method (codes "x") method-IsIn (omega arith)

ne_str-bytes_eq_example : ne_str method (codes "x") ≡ not (bytes_eq (str method) (codes "x"))
ne_str-bytes_eq_example = ne_str-bytes_eq header method (codes "x") method-IsIn (grind arith)

-- A substring is not equal to itself.

-- A `lexical_cast` that knows one digit.
abbrev one_digit : Bytes → Option ℤ
one_digit [] = none
one_digit (c ∷ []) = if ltb c b'0' then none else if ltb b'9' c then none else some (pos (c - b'0'))
one_digit (c ∷ d ∷ cs) = none

abbrev seven : Substring
seven = of_string (codes "7")

to_int_run : to_int one_digit seven ≡ some (pos 7)
unfolding to_int c_string
to_int_run = refl

seven-IsIn : IsIn (codes "7") seven
seven-IsIn = record {
  has_buffer = refl;
  ordered = omega arith;
  fits = omega arith;
  machine = omega arith;
}
