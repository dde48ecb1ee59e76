-- ===== src/Text/Std.antt =====
-- The searches of `std::string` and of the C library that the source calls, over lists of bytes.
-- A position is counted from the start of the string; `none` is `std::string::npos` or NULL.
use project_mediaswitch.Base.{
  ℕ, ◌+◌, Bool, true, false, ◌&&◌, ◌||◌, [], ◌∷◌, Bytes, Option, none, some, length, drop, take,
  leb, ◌==◌, if◌then◌else◌,
}
use project_mediaswitch.Text.Url.{to_lower}

unfoldable pub is_prefix : Bytes → Bytes → Bool
is_prefix [] s = true
is_prefix (x ∷ p) [] = false
is_prefix (x ∷ p) (c ∷ s) = x == c && is_prefix p s

-- The first match in `s`, whose first byte stands at position `i`.
unfoldable pub find_at : Bytes → Bytes → ℕ → Option ℕ
unfolding is_prefix
find_at p [] i = if is_prefix p [] then some i else none
find_at p (c ∷ s) i = if is_prefix p (c ∷ s) then some i else find_at p s (i + 1)

-- `s.find( p, pos )`
unfoldable pub find : Bytes → Bytes → ℕ → Option ℕ
unfolding find_at
find s p pos = if leb pos (length s) then find_at p (drop pos s) pos else none

-- The last match that starts at `limit` or before.
unfoldable pub rfind_at : Bytes → Bytes → ℕ → ℕ → Option ℕ
unfolding is_prefix
rfind_at p [] i limit = if is_prefix p [] && leb i limit then some i else none
rfind_at p (c ∷ s) i limit = elim (rfind_at p s (i + 1) limit) [
  | some j ↦ some j
  | none ↦ if is_prefix p (c ∷ s) && leb i limit then some i else none
]

-- `s.rfind( p, pos )`
unfoldable pub rfind : Bytes → Bytes → ℕ → Option ℕ
unfolding rfind_at
rfind s p pos = rfind_at p s 0 pos

unfoldable pub is_in : Bytes → ℕ → Bool
is_in [] c = false
is_in (x ∷ set) c = x == c || is_in set c

unfoldable pub find_in_at : Bytes → Bytes → ℕ → Option ℕ
unfolding is_in
find_in_at set [] i = none
find_in_at set (c ∷ s) i = if is_in set c then some i else find_in_at set s (i + 1)

-- `s.find_first_of( set, pos )`
unfoldable pub find_first_of : Bytes → Bytes → ℕ → Option ℕ
unfolding find_in_at
find_first_of s set pos = find_in_at set (drop pos s) pos

-- `s.substr( pos, n )` for a `pos` that is not behind the end.
abbrev pub substr : Bytes → ℕ → ℕ → Bytes
substr s pos n = take n (drop pos s)

-- What a C function reads of a `std::string`: it stops at the first NUL.
unfoldable pub c_string : Bytes → Bytes
c_string [] = []
c_string (c ∷ s) = if c == 0 then [] else c ∷ c_string s

unfoldable pub is_prefix_nocase : Bytes → Bytes → Bool
unfolding to_lower
is_prefix_nocase [] s = true
is_prefix_nocase (x ∷ p) [] = false
is_prefix_nocase (x ∷ p) (c ∷ s) = to_lower x == to_lower c && is_prefix_nocase p s

-- `strcasestr`, as an offset into its first argument.
unfoldable pub str_case_str : Bytes → Bytes → ℕ → Option ℕ
unfolding is_prefix_nocase
str_case_str [] p i = if is_prefix_nocase p [] then some i else none
str_case_str (c ∷ s) p i = if is_prefix_nocase p (c ∷ s) then some i else str_case_str s p (i + 1)
