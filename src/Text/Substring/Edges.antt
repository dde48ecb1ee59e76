-- ===== src/Text/Substring/Edges.antt =====
-- The edges of `toint` and of operator--: fixed buffers and unsigned positions.
use project_mediaswitch.Base.{
  length-take, length-drop, drop, ◌-◌, ◌≡◌, refl, ap, ◌∙◌, Bytes, Option, none, some, length, ltb,
  ◌==◌, if◌then◌else◌, ℤ, negsuc, ◌>>=◌, arith,
}
use project_mediaswitch.Text.Std.{c_string}
use project_mediaswitch.Text.Substring.{
  Substring, IsIn, size_mod, size, size_of, str, str_slice, or_minus_one, to_int_in, to_int,
  decrement,
}

-- On a substring that lies in its string, `toint` converts the text, up to a NUL in it, where that
-- is shorter than 200 bytes, with -1 for what is no number; it gives -1 for a text of more than 200
-- bytes; and at 200 bytes it writes behind its array, whatever the text.
pub to_int_cases :
    (lexical_cast : Bytes → Option ℤ) (text : Bytes) (s : Substring)
    → IsIn text s
    → to_int lexical_cast s ≡ (
        if ltb (length (str s)) 200
        then some (or_minus_one (lexical_cast (c_string (str s))))
        else if length (str s) == 200
        then none
        else some (negsuc 0))
unfolding to_int
to_int_cases lexical_cast text s v =
    ap (λ b. to_int_text b) v.has_buffer
    ∙ unfold to_int_in in
      ground (arith, size_of text s v, length-str, v.ordered, v.fits, str_slice text s v)
  where
    to_int_text : Option Bytes → Option ℤ
    to_int_text b = b >>= λ t. to_int_in lexical_cast t s.startpos (size s)

    length-str : length (str s) ≡ size s
    length-str =
        ap length (str_slice text s v)
        ∙ omega (
          arith,
          length-take (s.endpos - s.startpos) (drop s.startpos text),
          length-drop s.startpos text,
          size_of text s v,
          v.ordered,
          v.fits,
        )

-- On a substring that lies in its string, operator-- takes the end one byte back, but leaves a
-- substring alone that is empty; and where it ends at 0 the end wraps around to 2 ^ 64 - 1. The
-- start and the buffer stay, and the value is the new end.
pub decrement_cases :
    (text : Bytes) (s : Substring)
    → IsIn text s
    → ((decrement s).0.endpos ≡ (
        if s.endpos == 0
        then size_mod - 1
        else if ltb s.startpos s.endpos
        then s.endpos - 1
        else s.endpos))
      × ((decrement s).0.startpos ≡ s.startpos)
      × ((decrement s).0.buffer ≡ some text)
      × ((decrement s).1 ≡ (decrement s).0.endpos)
unfolding decrement
decrement_cases text s v = (ground (arith, v.ordered, v.fits, v.machine), refl, v.has_buffer, refl)
