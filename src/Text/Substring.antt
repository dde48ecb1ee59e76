-- ===== src/Text/Substring.antt =====
-- The class `substring` of projectlib/projectsipstring.h and .cpp: two positions in a shared string.
-- A `size_t` is a number below 2 ^ 64, whose wrap-around is written out. `none` as a buffer is the
-- null `stringptr`; `none` as a result is an access through it or out of bounds, which the C++
-- leaves undefined.
pub mod Find
pub mod Trim
pub mod Edges
pub mod Compare
use project_mediaswitch.Base.{
  ◌≤◌, ◌<◌, ◌≡◌, arith, ℕ, ◌+◌, ◌-◌, ◌%◌, Bool, true, false, ◌||◌, ◌&&◌, not, [], Bytes, Option,
  none, some, length, ltb, leb, ◌==◌, if◌then◌else◌, ℤ, negsuc, pos, ◌>>=◌,
}
use project_mediaswitch.Text.Std.{substr, c_string}

pub record Substring : Type 0 where
  pub buffer : Option Bytes
  pub startpos : ℕ
  pub endpos : ℕ
  pub case_sensitive : Bool

abbrev pub size_mod : ℕ
size_mod = 18446744073709551616

-- substring()
abbrev pub empty : Substring
empty = record { buffer = none; startpos = 0; endpos = 0; case_sensitive = true }

-- substring( const char * ) and substring( stringptr )
abbrev pub of_string : Bytes → Substring
of_string s = record { buffer = some s; startpos = 0; endpos = length s; case_sensitive = true }

-- substring( substring, size_t, size_t ), and with the buffer alone substring( stringptr, ... )
abbrev pub of_range : Option Bytes → ℕ → ℕ → Substring
of_range b start stop = record {
  buffer = b;
  startpos = start;
  endpos = stop;
  case_sensitive = true;
}

-- substring( substring * )
abbrev pub copy : Substring → Substring
copy s = record {
  buffer = s.buffer;
  startpos = s.startpos;
  endpos = s.endpos;
  case_sensitive = s.case_sensitive;
}

-- length(): `endpos - startpos` in a `size_t`.
unfoldable pub size : Substring → ℕ
size s = (s.endpos + size_mod - s.startpos) % size_mod

-- The tests of str() and strptr(), on the buffer that the pointer leads to.
unfoldable pub str_in : Substring → Option Bytes → Bytes
unfolding size
str_in s none = []
str_in s (some text) =
    if s.endpos == 0
    then []
    else if ltb (length text) s.startpos
    then []
    else if ltb (length text) s.endpos
    then []
    else substr text s.startpos (size s)

-- str() and strptr()
unfoldable pub str : Substring → Bytes
unfolding str_in
str s = str_in s s.buffer

-- The substring lies in its string `text`.
pub record IsIn (text : Bytes) (s : Substring) : Type 0 where
  pub has_buffer : s.buffer ≡ some text
  pub ordered : s.startpos ≤ s.endpos
  pub fits : s.endpos ≤ length text
  pub machine : length text < size_mod

pub size_of : (text : Bytes) (s : Substring) → IsIn text s → size s ≡ s.endpos - s.startpos
unfolding size
size_of text s v = omega (arith, v.ordered, v.fits, v.machine)

-- A substring that lies in its string is the text between its positions.
pub str_slice :
    (text : Bytes) (s : Substring)
    → IsIn text s
    → str s ≡ substr text s.startpos (s.endpos - s.startpos)
unfolding str
str_slice text s v = rw (v.has_buffer, str_in) (ground (arith, size_of text s v))

-- end( size_t ), start( size_t ) and cs( bool )
abbrev pub set_end : Substring → ℕ → Substring
set_end s e = record s { endpos = e }

abbrev pub set_start : Substring → ℕ → Substring
set_start s e = record s { startpos = e }

abbrev pub set_case : Substring → Bool → Substring
set_case s b = record s { case_sensitive = b }

-- operator++, with the old end as its value
unfoldable pub increment : Substring → Substring × ℕ
increment s = (record s { endpos = (s.endpos + 1) % size_mod }, s.endpos)

-- operator--: the end is taken down, and up again if it fell below the start.
unfoldable pub decrement : Substring → Substring × ℕ
decrement s =
    let e = (s.endpos + size_mod - 1) % size_mod in
    let e' = if ltb e s.startpos then s.startpos else e in (record s { endpos = e' }, e')

unfoldable pub is_valid : Substring → Bool
is_valid s = elim s.buffer [ none ↦ false | some text ↦ not (s.endpos == 0) ]

-- The copy that `toint` takes of the text before the cast: `none` where it would read behind the
-- NUL of the buffer, or where its own NUL falls behind its 200 bytes.
unfoldable pub to_int_copy : Bytes → ℕ → ℕ → Option Bytes
to_int_copy text start l =
    if ltb (length text + 1) (start + l) || leb 200 l
    then none
    else some (c_string (substr text start l))

-- `retval`, as `boost::lexical_cast< int >` leaves it.
abbrev pub or_minus_one : Option ℤ → ℤ
or_minus_one none = negsuc 0
or_minus_one (some n) = n

unfoldable pub to_int_in : (Bytes → Option ℤ) → Bytes → ℕ → ℕ → Option ℤ
unfolding to_int_copy
to_int_in lexical_cast text start l =
    if ltb 200 l
    then some (negsuc 0)
    else to_int_copy text start l >>= λ b. some (or_minus_one (lexical_cast b))

-- toint(). `lexical_cast` is boost's, where `none` is a `bad_lexical_cast`.
unfoldable pub to_int : (Bytes → Option ℤ) → Substring → Option ℤ
unfolding to_int_in size
to_int lexical_cast s = s.buffer >>= λ text. to_int_in lexical_cast text s.startpos (size s)
