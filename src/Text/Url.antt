-- ===== src/Text/Url.antt =====
-- The URL coding of projectlib/projectsipstring.cpp. A `char` is a byte below 256, and an `int`
-- that is stored in a `char` is kept to its lowest eight bits.
pub mod RoundTrip
use Prim.Native.Nat.{bit_or, bit_and}
use project_mediaswitch.Base.{
  ℕ, ◌+◌, ◌-◌, ◌*◌, ◌/◌, ◌%◌, Bool, ◌||◌, ◌&&◌, [], ◌∷◌, ◌++◌, Bytes, leb, ◌==◌, if◌then◌else◌,
  codes, get_elem?, Option, some, none,
}

-- The character tests of the C library, in its default locale.
abbrev pub is_digit : ℕ → Bool
is_digit c = leb b'0' c && leb c b'9'

abbrev pub is_upper : ℕ → Bool
is_upper c = leb b'A' c && leb c b'Z'

abbrev pub is_lower : ℕ → Bool
is_lower c = leb b'a' c && leb c b'z'

unfoldable pub is_alnum : ℕ → Bool
is_alnum c = is_digit c || is_upper c || is_lower c

unfoldable pub to_lower : ℕ → ℕ
to_lower c = if is_upper c then c + 32 else c

-- `ch - '0'` or `tolower( ch ) - 'a' + 10`, as a `char`.
unfoldable pub from_hex : ℕ → ℕ
unfolding to_lower
from_hex ch = if is_digit ch then ch - b'0' else (to_lower ch + 256 - b'a' + 10) % 256

abbrev hex_digits : Bytes
hex_digits = codes "0123456789abcdef"

abbrev or_zero : Option ℕ → ℕ
or_zero none = 0
or_zero (some c) = c

unfoldable pub to_hex : ℕ → ℕ
to_hex c = or_zero (get_elem? hex_digits (bit_and c 15))

-- The characters that stand for themselves.
unfoldable pub is_unreserved : ℕ → Bool
unfolding is_alnum
is_unreserved c = is_alnum c || c == b'-' || c == b'_' || c == b'.' || c == b'~'

-- What one character adds to the encoded string.
unfoldable pub encode_byte : ℕ → Bytes
unfolding is_unreserved to_hex
encode_byte c =
    if is_unreserved c
    then c ∷ []
    else if c == b' '
    then b'+' ∷ []
    else b'%' ∷ to_hex (c / 16) ∷ to_hex (bit_and c 15) ∷ []

unfoldable pub url_encode : Bytes → Bytes
unfolding encode_byte
url_encode [] = []
url_encode (c ∷ cs) = encode_byte c ++ url_encode cs

-- `fromhex( d1 ) << 4 | fromhex( d2 )`, as a `char`.
unfoldable pub hex_pair : ℕ → ℕ → ℕ
unfolding from_hex
hex_pair d1 d2 = bit_or (from_hex d1 * 16 % 256) (from_hex d2)

-- A `%` that ends the string is dropped. Behind a `%` with one character the second digit is the
-- NUL that ends every `std::string`, and `moveonbyn` stops at the end.
unfoldable pub url_decode : Bytes → Bytes
unfolding hex_pair
url_decode [] = []
url_decode (c ∷ []) = if c == b'%' then [] else if c == b'+' then b' ' ∷ [] else c ∷ []
url_decode (c ∷ d ∷ []) =
    let rest = url_decode (d ∷ []) in
    if c == b'%' then hex_pair d 0 ∷ [] else if c == b'+' then b' ' ∷ rest else c ∷ rest
url_decode (c ∷ d ∷ e ∷ cs) =
    let rest = url_decode (d ∷ e ∷ cs) in
    let after = url_decode cs in
    if c == b'%' then hex_pair d e ∷ after else if c == b'+' then b' ' ∷ rest else c ∷ rest
