-- ===== src/Text/Substring/Find.antt =====
-- The searches of `substring`: rfind, find, mvend_first_of, findsubstr, findend and aftertoken.
-- Each `const char *` argument is a literal of the program, read up to its NUL.
pub mod Bounds
use project_mediaswitch.Base.{
  ℕ, ◌+◌, ◌-◌, ◌%◌, Bool, true, false, [], ◌∷◌, Bytes, Option, none, some, length, drop, ltb, ◌==◌,
  if◌then◌else◌, ◌>>=◌,
}
use project_mediaswitch.Text.Std.{find, rfind, find_first_of, c_string, str_case_str}
use project_mediaswitch.Text.Substring.{Substring, of_range, size_mod}

-- `npos` or a place outside the substring is "not found".
abbrev pub within : (ℕ → Bool) → Option ℕ → Option ℕ
within outside none = none
within outside (some p) = if outside p then none else some p

-- The test of every forward search: `rfindpos > this->endpos`.
abbrev pub before_end : Substring → Option ℕ → Option ℕ
before_end s = within (λ p. ltb s.endpos p)

abbrev pub not_before_start : Substring → Option ℕ → Option ℕ
not_before_start s = within (λ p. ltb p s.startpos)

-- The result for "not found" is the empty substring at 0.
abbrev pub or_nothing : Substring → Option Substring → Substring
or_nothing s none = of_range s.buffer 0 0
or_nothing s (some r) = r

abbrev pub range_if : Substring → Option ℕ → (ℕ → Substring) → Substring
range_if s none f = of_range s.buffer 0 0
range_if s (some p) f = f p

-- rfind( const char * ): the search starts at `endpos - l`, in a `size_t`.
unfoldable pub rfind_str : Substring → Bytes → Option Substring
rfind_str s p = s.buffer >>= λ text.
    let l = length p in
    some (
      range_if s (not_before_start s (rfind text p ((s.endpos + size_mod - l) % size_mod)))
        (λ at. of_range s.buffer at (at + l)))

-- rfind( const char )
unfoldable pub rfind_char : Substring → ℕ → Option Substring
rfind_char s c = s.buffer >>= λ text. some (
    range_if s (not_before_start s (rfind text (c ∷ []) ((s.endpos + size_mod - 1) % size_mod)))
      (λ at. of_range s.buffer at (at + 1)))

-- find( const char * ), with strcasestr where the case does not matter.
unfoldable pub find_pos : Substring → Bytes → Bytes → Option ℕ
find_pos s text p =
    if s.case_sensitive
    then find text p s.startpos
    else str_case_str (c_string (drop s.startpos text)) p s.startpos

unfoldable pub find_str : Substring → Bytes → Option Substring
unfolding find_pos
find_str s p = s.buffer >>= λ text.
    some
      (range_if s (before_end s (find_pos s text p)) (λ at. of_range s.buffer at (at + length p)))

-- find( const char, size_t )
unfoldable pub find_char : Substring → ℕ → ℕ → Option Substring
find_char s c offset = s.buffer >>= λ text. some (
    range_if s (before_end s (find text (c ∷ []) ((s.startpos + offset) % size_mod)))
      (λ at. of_range s.buffer at (at + 1)))

abbrev pub end_at : Substring → Option ℕ → Substring
end_at s none = of_range s.buffer s.startpos s.endpos
end_at s (some p) = of_range s.buffer s.startpos p

-- mvend_first_of( const char * )
unfoldable pub mvend_first_of : Substring → Bytes → Option Substring
mvend_first_of s set =
    s.buffer >>= λ text. some (end_at s (before_end s (find_first_of text set s.startpos)))

-- mvend_first_of( const char )
unfoldable pub mvend_first_of_char : Substring → ℕ → Option Substring
mvend_first_of_char s c =
    s.buffer >>= λ text. some (end_at s (before_end s (find_first_of text (c ∷ []) s.startpos)))

-- findend( const char )
unfoldable pub find_end : Substring → ℕ → Option Substring
find_end s c = s.buffer >>= λ text. some (end_at s (before_end s (find text (c ∷ []) s.startpos)))

abbrev pub stop_at : Substring → ℕ → Option ℕ → Substring
stop_at s start none = of_range s.buffer start s.endpos
stop_at s start (some p) = of_range s.buffer start p

-- What findsubstr does behind its opening text; the stop 0 is "to the end".
abbrev pub up_to : Substring → Bytes → ℕ → ℕ → Substring
up_to s text stop start =
    if stop == 0
    then of_range s.buffer start s.endpos
    else stop_at s start (before_end s (find text (stop ∷ []) start))

-- findsubstr( const char, const char )
unfoldable pub find_substr : Substring → ℕ → ℕ → Option Substring
find_substr s open_char stop = s.buffer >>= λ text. some (
    range_if s (before_end s (find text (open_char ∷ []) s.startpos))
      (λ at. up_to s text stop (at + 1)))

-- findsubstr( const char *, const char )
unfoldable pub find_substr_str : Substring → Bytes → ℕ → Option Substring
find_substr_str s p stop = s.buffer >>= λ text.
    some
      (range_if s (before_end s (find text p s.startpos)) (λ at. up_to s text stop (at + length p)))

-- aftertoken( const char * )
unfoldable pub after_token_str : Substring → Bytes → Option Substring
after_token_str s p = s.buffer >>= λ text. some (
    range_if s (before_end s (find text p s.startpos))
      (λ at. of_range s.buffer (at + length p) s.endpos))

-- aftertoken( const char )
unfoldable pub after_token : Substring → ℕ → Option Substring
after_token s c = s.buffer >>= λ text. some (
    range_if s (before_end s (find text (c ∷ []) s.startpos))
      (λ at. of_range s.buffer (at + 1) s.endpos))
