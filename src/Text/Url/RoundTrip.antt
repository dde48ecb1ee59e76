-- ===== src/Text/Url/RoundTrip.antt =====
-- What `urlencode` writes, and `urldecode` behind it.
use Prim.Native.Nat.{bit_and}
use project_mediaswitch.Base.{
  All-append, ℕ, zero, suc, ◌*◌, ◌/◌, ◌≤◌, ◌<◌, ◌≡◌, refl, ap, ◌∙◌, Bool, true, ◌||◌, ◌&&◌, [], ◌∷◌,
  ◌++◌, inl, inr, Bytes, All, ◌==◌, ==_iff, length, length-append, arith, Bool-cases,
}
use project_mediaswitch.Text.Url.{
  is_unreserved, encode_byte, to_hex, hex_pair, url_encode, url_decode,
}

abbrev pub IsByte : ℕ → Type 0
IsByte c = c < 256

-- A test of the bytes below a bound, run on each of them.
every : (ℕ → Bool) → ℕ → Bool
every test zero = true
every test (suc bound) = every test bound && test bound

every-below : (test : ℕ → Bool) (bound c : ℕ) → c < bound → every test bound ≡ true → test c ≡ true
unfolding every
every-below test zero c small passed = elim small [ ]
every-below test (suc bound) c small passed =
    ground (arith, small, passed, every-below test bound c)

hex_pair_table : every (λ c. hex_pair (to_hex (c / 16)) (to_hex (bit_and c 15)) == c) 256 ≡ true
unfolding every hex_pair to_hex
hex_pair_table = refl

-- Two hex digits give back the byte that they were made from.
pub hex_pair-to_hex : (c : ℕ) → c < 256 → hex_pair (to_hex (c / 16)) (to_hex (bit_and c 15)) ≡ c
hex_pair-to_hex c h = (==_iff _ c).0 (every-below _ 256 c h hex_pair_table)

url_decode_plain :
    (c : ℕ) (rest : Bytes) → is_unreserved c ≡ true → url_decode (c ∷ rest) ≡ c ∷ url_decode rest
unfolding url_decode is_unreserved
url_decode_plain c [] h = ground arith
url_decode_plain c (d ∷ []) h = ground arith
url_decode_plain c (d ∷ e ∷ rest) h = ground arith

url_decode_plus : (rest : Bytes) → url_decode (b'+' ∷ rest) ≡ b' ' ∷ url_decode rest
unfolding url_decode
url_decode_plus [] = refl
url_decode_plus (d ∷ []) = refl
url_decode_plus (d ∷ e ∷ rest) = refl

url_decode_percent :
    (d e : ℕ) (rest : Bytes) → url_decode (b'%' ∷ d ∷ e ∷ rest) ≡ hex_pair d e ∷ url_decode rest
unfolding url_decode
url_decode_percent d e rest = refl

url_decode-encode_byte :
    (c : ℕ) (rest : Bytes) → c < 256 → url_decode (encode_byte c ++ rest) ≡ c ∷ url_decode rest
unfolding encode_byte
url_decode-encode_byte c rest h = elim (Bool-cases (is_unreserved c)) [
  | inl plain ↦ rw (plain) (url_decode_plain c rest plain)
  | inr special ↦ elim (Bool-cases (c == b' ')) [
    | inl space ↦ ground (arith, url_decode_plus rest)
    | inr other ↦
        rw (special, other)
          (ground (
            arith,
            url_decode_percent (to_hex (c / 16)) (to_hex (bit_and c 15)) rest,
            hex_pair-to_hex c h,
          ))
  ]
]

-- Decoding what `urlencode` wrote gives the string back, for every string of bytes.
pub url_decode-url_encode : (s : Bytes) → All IsByte s → url_decode (url_encode s) ≡ s
unfolding url_encode
url_decode-url_encode [] h = unfold url_decode in refl
url_decode-url_encode (c ∷ s) h =
    url_decode-encode_byte c (url_encode s) h.0 ∙ ap (◌∷◌ c) (url_decode-url_encode s h.1)

-- The bytes that a query string may hold with no further coding.
pub is_url_safe : ℕ → Bool
is_url_safe c = is_unreserved c || c == b'+' || c == b'%'

abbrev pub IsUrlSafe : ℕ → Type 0
IsUrlSafe c = is_url_safe c ≡ true

nibbles_table :
    every (λ c. is_url_safe (to_hex (c / 16)) && is_url_safe (to_hex (bit_and c 15))) 256 ≡ true
unfolding every to_hex is_url_safe is_unreserved
nibbles_table = refl

encode_byte-IsUrlSafe : (c : ℕ) → c < 256 → All IsUrlSafe (encode_byte c)
unfolding encode_byte is_url_safe
encode_byte-IsUrlSafe c h = elim (Bool-cases (is_unreserved c)) [
  | inl plain ↦ rw (plain) (ground arith)
  | inr special ↦ ground (
    arith,
    special,
    every-below (λ d. is_url_safe (to_hex (d / 16)) && is_url_safe (to_hex (bit_and d 15))) 256 c h
        nibbles_table,
  )
]

length-encode_byte : (c : ℕ) → length (encode_byte c) ≤ 3
unfolding encode_byte
length-encode_byte c = ground arith

-- Every byte that `urlencode` writes for a string of bytes may stand in a URL, and three times the
-- length, the space that it reserves, is enough.
pub url_encode-IsUrlSafe :
    (s : Bytes)
    → All IsByte s
    → All IsUrlSafe (url_encode s) × (length (url_encode s) ≤ length s * 3)
unfolding url_encode
url_encode-IsUrlSafe [] h = (tt, omega arith)
url_encode-IsUrlSafe (c ∷ s) h =
    let (safe, short) = url_encode-IsUrlSafe s h.1 in
    (
      All-append IsUrlSafe (encode_byte c) (url_encode s) (encode_byte-IsUrlSafe c h.0) safe,
      omega (arith, length-append (encode_byte c) (url_encode s), length-encode_byte c, short),
    )

-- `urldecode` never writes more than it reads, whatever the input.
pub length-url_decode : (s : Bytes) → length (url_decode s) ≤ length s
unfolding url_decode
length-url_decode [] = omega arith
length-url_decode (c ∷ []) = ground arith
length-url_decode (c ∷ d ∷ []) = ground (arith, length-url_decode (d ∷ []))
length-url_decode (c ∷ d ∷ e ∷ cs) =
    ground (arith, length-url_decode (d ∷ e ∷ cs), length-url_decode cs)
