-- ===== src/Tests/Strings.antt =====
-- Tests of the URL coding and of splitting and joining.
use project_mediaswitch.Base.{arith, ◌≢◌, ◌≡◌, refl, [], ◌∷◌, Bytes, List, All, codes}
use project_mediaswitch.Text.Url.{url_encode, url_decode}
use project_mediaswitch.Text.Url.RoundTrip.{url_decode-url_encode}
use project_mediaswitch.Text.Split.{split_string, join_string}
use project_mediaswitch.Text.Split.RoundTrip.{
  ends_plain, split_string-join_string, join_string-split_string,
}

abbrev query : Bytes
query = codes "a b+c%"

url_encode_run : url_encode query ≡ codes "a+b%2bc%25"
unfolding url_encode
url_encode_run = refl

-- A `%` at the end is dropped, and one digit is read as the high one.
url_decode_broken : url_decode (codes "x%") ≡ codes "x"
unfolding url_decode
url_decode_broken = refl

url_decode-url_encode_example : url_decode (url_encode query) ≡ query
url_decode-url_encode_example = url_decode-url_encode query (omega arith)

abbrev host_name : Bytes
host_name = codes "sub.domain.com"

abbrev host_parts : List Bytes
host_parts = codes "sub" ∷ codes "domain" ∷ codes "com" ∷ []

split_string_host : split_string host_name b'.' ≡ host_parts
unfolding split_string
split_string_host = refl

split_string-join_string_example : split_string (join_string host_parts b'.') b'.' ≡ host_parts
split_string-join_string_example =
    split_string-join_string b'.' (codes "sub") (codes "domain" ∷ codes "com" ∷ []) parts_fit
  where
    parts_fit : All (λ p. (p ≢ []) × All (λ c. c ≢ b'.') p) host_parts
    parts_fit = grind arith

join_string-split_string_example :
    join_string (split_string (codes "a..b") b'.') b'.' ≡ codes "a..b"
unfolding ends_plain
join_string-split_string_example =
    join_string-split_string b'.' b'a' (codes "..b") (omega arith) refl
