-- ===== src/Web/Named.antt =====
-- The names of the headers: no separator is in one.
use project_mediaswitch.Base.{
  ℕ, ◌≡◌, refl, Bool, true, false, ◌&&◌, not, [], ◌∷◌, Bytes, codes, All, ◌==◌, arith,
}
use project_mediaswitch.Web.Names.{
  Header, accept, accept_charset, accept_encoding, accept_language, authorization, expect, from,
  host, if_match, if_modified_since, if_none_match, if_range, if_unmodified_since, max_forwards,
  proxy_authorization, range, referer, te, user_agent, accept_ranges, age, etag, location,
  proxy_authenticate, retry_after, server, vary, www_authenticate, allow, content_encoding,
  content_language, content_length, content_location, content_md5, content_range, content_type,
  expires, last_modified, header_str,
}
use project_mediaswitch.Web.Parse.{is_separator, is_blank}
use project_mediaswitch.Web.Lines.{IsName}

unfoldable plain : Bytes → Bool
plain [] = true
plain (c ∷ s) = not (is_separator c) && plain s

plain_cases : (b c : Bool) → (not b && c) ≡ true → (b ≡ false) × (c ≡ true)
plain_cases true c h = cc
plain_cases false c h = (refl, h)

plain-All : (s : Bytes) → plain s ≡ true → All (λ c. is_separator c ≡ false) s
unfolding plain
plain-All [] h = tt
plain-All (c ∷ s) h = let a = plain_cases (is_separator c) (plain s) h in (a.0, plain-All s a.1)

plain-IsName :
    (c : ℕ) (s : Bytes)
    → plain (c ∷ s) ≡ true
    → is_blank c ≡ false
    → (c == 13) ≡ false
    → IsName (c ∷ s)
plain-IsName c s h b n = record {
  first = c;
  others = s;
  shape = refl;
  plain = plain-All (c ∷ s) h;
  not_blank = b;
  not_cr = ground (arith, n);
}

pub header_str-IsName : (h : Header) → IsName (header_str h)
unfolding header_str plain
header_str-IsName accept = plain-IsName b'A' (codes "ccept") refl refl refl
header_str-IsName accept_charset = plain-IsName b'A' (codes "ccept-Charset") refl refl refl
header_str-IsName accept_encoding = plain-IsName b'A' (codes "ccept-Encoding") refl refl refl
header_str-IsName accept_language = plain-IsName b'A' (codes "ccept-Language") refl refl refl
header_str-IsName authorization = plain-IsName b'A' (codes "uthorization") refl refl refl
header_str-IsName expect = plain-IsName b'E' (codes "xpect") refl refl refl
header_str-IsName from = plain-IsName b'F' (codes "rom") refl refl refl
header_str-IsName host = plain-IsName b'H' (codes "ost") refl refl refl
header_str-IsName if_match = plain-IsName b'I' (codes "f-Match") refl refl refl
header_str-IsName if_modified_since = plain-IsName b'I' (codes "f-Modified-Since") refl refl refl
header_str-IsName if_none_match = plain-IsName b'I' (codes "f-None-Match") refl refl refl
header_str-IsName if_range = plain-IsName b'I' (codes "f-Range") refl refl refl
header_str-IsName if_unmodified_since =
    plain-IsName b'I' (codes "f-Unmodified-Since") refl refl refl
header_str-IsName max_forwards = plain-IsName b'M' (codes "ax-Forwards") refl refl refl
header_str-IsName proxy_authorization =
    plain-IsName b'P' (codes "roxy-Authorization") refl refl refl
header_str-IsName range = plain-IsName b'R' (codes "ange") refl refl refl
header_str-IsName referer = plain-IsName b'R' (codes "eferer") refl refl refl
header_str-IsName te = plain-IsName b'T' (codes "E") refl refl refl
header_str-IsName user_agent = plain-IsName b'U' (codes "ser-Agent") refl refl refl
header_str-IsName accept_ranges = plain-IsName b'A' (codes "ccept-Ranges") refl refl refl
header_str-IsName age = plain-IsName b'A' (codes "ge") refl refl refl
header_str-IsName etag = plain-IsName b'E' (codes "Tag") refl refl refl
header_str-IsName location = plain-IsName b'L' (codes "ocation") refl refl refl
header_str-IsName proxy_authenticate = plain-IsName b'P' (codes "roxy-Authenticate") refl refl refl
header_str-IsName retry_after = plain-IsName b'R' (codes "etry-After") refl refl refl
header_str-IsName server = plain-IsName b'S' (codes "erver") refl refl refl
header_str-IsName vary = plain-IsName b'V' (codes "ary") refl refl refl
header_str-IsName www_authenticate = plain-IsName b'W' (codes "WW-Authenticate") refl refl refl
header_str-IsName allow = plain-IsName b'A' (codes "llow") refl refl refl
header_str-IsName content_encoding = plain-IsName b'C' (codes "ontent-Encoding") refl refl refl
header_str-IsName content_language = plain-IsName b'C' (codes "ontent-Language") refl refl refl
header_str-IsName content_length = plain-IsName b'C' (codes "ontent-Length") refl refl refl
header_str-IsName content_location = plain-IsName b'C' (codes "ontent-Location") refl refl refl
header_str-IsName content_md5 = plain-IsName b'C' (codes "ontent-MD5") refl refl refl
header_str-IsName content_range = plain-IsName b'C' (codes "ontent-Range") refl refl refl
header_str-IsName content_type = plain-IsName b'C' (codes "ontent-Type") refl refl refl
header_str-IsName expires = plain-IsName b'E' (codes "xpires") refl refl refl
header_str-IsName last_modified = plain-IsName b'L' (codes "ast-Modified") refl refl refl
