-- ===== src/Text/Substring/Compare.antt =====
-- The comparison operators of `substring`. A `const char *` is the bytes before its NUL. `none` is a
-- read behind that NUL, or through a null buffer.
pub mod Literals
pub mod Pairs
use project_mediaswitch.Base.{
  ℕ, ◌+◌, Bool, true, false, not, ◌&&◌, ◌||◌, List, [], ◌∷◌, Bytes, Option, none, some, length,
  drop, leb, ltb, ◌==◌, if◌then◌else◌, get_elem?,
}
use project_mediaswitch.Text.Url.{to_lower}
use project_mediaswitch.Text.Substring.{Substring, size}

-- `0 == *rhs`
abbrev pub is_end : Bytes → Bool
is_end [] = true
is_end (c ∷ cs) = false

-- The character tests of the loops, with and without case.
abbrev pub same : Bool → ℕ → ℕ → Bool
same sensitive x y = if sensitive then x == y else to_lower x == to_lower y

-- The loop of operator!= over a `const char *`, and the test behind it.
unfoldable pub ne_loop : Bytes → ℕ → ℕ → Bytes → Bool
ne_loop [] index stop rhs = not (is_end rhs)
ne_loop (x ∷ text) index stop [] = not (index == stop)
ne_loop (x ∷ text) index stop (c ∷ rhs) =
    let rest = ne_loop text (index + 1) stop rhs in
    if index == stop then true else if x == c then rest else true

unfoldable pub ne_text : Substring → Option Bytes → Bytes → Bool
unfolding ne_loop size
ne_text s none rhs = is_end rhs
ne_text s (some text) rhs =
    if is_end rhs
    then not (ltb 0 (length text))
    else if size s == 0 && is_end rhs
    then false
    else ne_loop (drop s.startpos text) s.startpos s.endpos rhs

-- operator!=( const substring &, const char * )
unfoldable pub ne_str : Substring → Bytes → Bool
unfolding ne_text
ne_str s rhs = ne_text s s.buffer rhs

-- The loop of operator== over a `const char *`, and the test behind it.
unfoldable pub eq_loop : Bool → Bytes → ℕ → ℕ → Bytes → Option Bool
eq_loop sensitive [] index stop rhs = some (is_end rhs)
eq_loop sensitive (x ∷ text) index stop [] =
    if index == stop then some true else if same sensitive x 0 then none else some false
eq_loop sensitive (x ∷ text) index stop (c ∷ rhs) =
    let rest = eq_loop sensitive text (index + 1) stop rhs in
    if index == stop then some false else if same sensitive x c then rest else some false

unfoldable pub eq_text : Substring → Option Bytes → Bytes → Option Bool
unfolding eq_loop size
eq_text s none rhs = some (not (is_end rhs))
eq_text s (some text) rhs =
    if size s == 0 && is_end rhs
    then some true
    else eq_loop s.case_sensitive (drop s.startpos text) s.startpos s.endpos rhs

-- operator==( const substring &, const char * )
unfoldable pub eq_str : Substring → Bytes → Option Bool
unfolding eq_text
eq_str s rhs = eq_text s s.buffer rhs

-- moveonbyn( s, n ), as an index
abbrev pub move_on : Bytes → ℕ → ℕ
move_on s n = if leb (length s) n then length s else n

-- What an iterator at an index reads: the NUL at the end.
abbrev pub char_or_nul : Option ℕ → ℕ
char_or_nul none = 0
char_or_nul (some c) = c

-- The loop of operator== over a second substring, which leaves by `break` as long as `rit` is not at
-- the end, and the test behind it.
unfoldable pub eq_sub_loop : Bool → Bytes → Bytes → ℕ → Bool
eq_sub_loop sensitive [] other rit = rit == length other
eq_sub_loop sensitive (x ∷ text) other rit =
    let rest = eq_sub_loop sensitive text other (rit + 1) in
    if not (rit == length other)
    then false
    else if same sensitive x (char_or_nul (get_elem? other rit))
    then rest
    else false

unfoldable pub eq_sub_text : Substring → Substring → Option Bytes → Option Bytes → Option Bool
unfolding eq_sub_loop size
eq_sub_text l r none none = some false
eq_sub_text l r none (some other) = some true
eq_sub_text l r (some text) none = if not (size l == size r) then some false else none
eq_sub_text l r (some text) (some other) =
    if not (size l == size r)
    then some false
    else some (
        eq_sub_loop (if not r.case_sensitive then false else l.case_sensitive)
          (drop l.startpos text) other (move_on other r.startpos))

-- operator==( const substring &, const substring & )
unfoldable pub eq_sub : Substring → Substring → Option Bool
unfolding eq_sub_text
eq_sub l r = eq_sub_text l r l.buffer r.buffer

-- The loop of operator!= over a second substring, and the test behind it.
unfoldable pub ne_sub_loop : Bytes → Bytes → ℕ → Bool
ne_sub_loop [] other rit = not (rit == length other)
ne_sub_loop (x ∷ text) other rit =
    let rest = ne_sub_loop text other (rit + 1) in
    if not (rit == length other)
    then true
    else if x == char_or_nul (get_elem? other rit)
    then rest
    else true

unfoldable pub ne_sub_text : Substring → Substring → Option Bytes → Option Bytes → Bool
unfolding ne_sub_loop size
ne_sub_text l r none none = true
ne_sub_text l r none (some other) = false
ne_sub_text l r (some text) none = not (ltb 0 (length text))
ne_sub_text l r (some text) (some other) =
    if size l == size r
    then false
    else ne_sub_loop (drop l.startpos text) other (move_on other r.startpos)

-- operator!=( const substring &, const substring & )
unfoldable pub ne_sub : Substring → Substring → Bool
unfolding ne_sub_text
ne_sub l r = ne_sub_text l r l.buffer r.buffer
