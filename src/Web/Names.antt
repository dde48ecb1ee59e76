-- ===== src/Web/Names.antt =====
-- The names and the numbers of methods and headers in projectlib/projectwebdocument.h and .cpp: the
-- strings that are written, and the CRC-32 of their lower-case letters, by which they are read.
use project_mediaswitch.Base.{
  ℕ, List, [], ◌∷◌, Bytes, Option, none, some, codes, ◌==◌, if◌then◌else◌,
}

-- The enumeration of methods; `unknown` is METHODUNKNOWN, and `unlisted` is the -1 of a method that is
-- not in it.
pub data Method : Type 0 where
  options get head post put patch delete trace connect response unknown unlisted : Method

-- The enumeration of headers.
pub data Header : Type 0 where
  accept accept_charset accept_encoding accept_language authorization expect : Header
  from host if_match if_modified_since if_none_match if_range : Header
  if_unmodified_since max_forwards proxy_authorization range referer te : Header
  user_agent accept_ranges age etag location proxy_authenticate retry_after : Header
  server vary www_authenticate allow content_encoding content_language : Header
  content_length content_location content_md5 content_range content_type : Header
  expires last_modified : Header

-- getheaderstr
unfoldable pub header_str : Header → Bytes
header_str accept = codes "Accept"
header_str accept_charset = codes "Accept-Charset"
header_str accept_encoding = codes "Accept-Encoding"
header_str accept_language = codes "Accept-Language"
header_str authorization = codes "Authorization"
header_str expect = codes "Expect"
header_str from = codes "From"
header_str host = codes "Host"
header_str if_match = codes "If-Match"
header_str if_modified_since = codes "If-Modified-Since"
header_str if_none_match = codes "If-None-Match"
header_str if_range = codes "If-Range"
header_str if_unmodified_since = codes "If-Unmodified-Since"
header_str max_forwards = codes "Max-Forwards"
header_str proxy_authorization = codes "Proxy-Authorization"
header_str range = codes "Range"
header_str referer = codes "Referer"
header_str te = codes "TE"
header_str user_agent = codes "User-Agent"
header_str accept_ranges = codes "Accept-Ranges"
header_str age = codes "Age"
header_str etag = codes "ETag"
header_str location = codes "Location"
header_str proxy_authenticate = codes "Proxy-Authenticate"
header_str retry_after = codes "Retry-After"
header_str server = codes "Server"
header_str vary = codes "Vary"
header_str www_authenticate = codes "WWW-Authenticate"
header_str allow = codes "Allow"
header_str content_encoding = codes "Content-Encoding"
header_str content_language = codes "Content-Language"
header_str content_length = codes "Content-Length"
header_str content_location = codes "Content-Location"
header_str content_md5 = codes "Content-MD5"
header_str content_range = codes "Content-Range"
header_str content_type = codes "Content-Type"
header_str expires = codes "Expires"
header_str last_modified = codes "Last-Modified"

-- getmethodstr
unfoldable pub method_str : Method → Bytes
method_str options = codes "OPTIONS"
method_str get = codes "GET"
method_str head = codes "HEAD"
method_str post = codes "POST"
method_str put = codes "PUT"
method_str patch = codes "PATCH"
method_str delete = codes "DELETE"
method_str trace = codes "TRACE"
method_str connect = codes "CONNECT"
method_str response = []
method_str unknown = []
method_str unlisted = []

-- The number of a header in the enumeration.
unfoldable pub index_of : Header → ℕ
index_of accept = 0
index_of accept_charset = 1
index_of accept_encoding = 2
index_of accept_language = 3
index_of authorization = 4
index_of expect = 5
index_of from = 6
index_of host = 7
index_of if_match = 8
index_of if_modified_since = 9
index_of if_none_match = 10
index_of if_range = 11
index_of if_unmodified_since = 12
index_of max_forwards = 13
index_of proxy_authorization = 14
index_of range = 15
index_of referer = 16
index_of te = 17
index_of user_agent = 18
index_of accept_ranges = 19
index_of age = 20
index_of etag = 21
index_of location = 22
index_of proxy_authenticate = 23
index_of retry_after = 24
index_of server = 25
index_of vary = 26
index_of www_authenticate = 27
index_of allow = 28
index_of content_encoding = 29
index_of content_language = 30
index_of content_length = 31
index_of content_location = 32
index_of content_md5 = 33
index_of content_range = 34
index_of content_type = 35
index_of expires = 36
index_of last_modified = 37

-- The cases of a switch.
abbrev pub Cases : Type 0 → Type 0
Cases A = List (ℕ × A)

unfoldable pub case_of : {A : Type 0} → Cases A → ℕ → Option A
case_of [] c = none
case_of (x ∷ xs) c = if x.0 == c then some x.1 else case_of xs c

-- The switch of getmethodfromcrc.
unfoldable pub method_cases : Cases Method
method_cases =
    (3493198471, options)
    ∷ (4248514160, get)
    ∷ (2817783452, head)
    ∷ (1519021197, post)
    ∷ (2928708052, put)
    ∷ (3794507318, patch)
    ∷ (974290055, delete)
    ∷ (828102049, trace)
    ∷ (1959786783, connect)
    ∷ []

-- The switch of getheaderfromcrc.
unfoldable pub header_cases : Cases Header
header_cases =
    (3005279540, accept)
    ∷ (379737127, accept_charset)
    ∷ (2687938133, accept_encoding)
    ∷ (480585391, accept_language)
    ∷ (2053999599, authorization)
    ∷ (482521170, expect)
    ∷ (3105530224, from)
    ∷ (3475444733, host)
    ∷ (1168849366, if_match)
    ∷ (1848278858, if_modified_since)
    ∷ (1529156225, if_none_match)
    ∷ (2893522586, if_range)
    ∷ (462614015, if_unmodified_since)
    ∷ (2957174193, max_forwards)
    ∷ (146921266, proxy_authorization)
    ∷ (2475121225, range)
    ∷ (1440495237, referer)
    ∷ (928136154, te)
    ∷ (2191772431, user_agent)
    ∷ (2930364553, accept_ranges)
    ∷ (2704281778, age)
    ∷ (3514087100, etag)
    ∷ (1587448267, location)
    ∷ (2775274866, proxy_authenticate)
    ∷ (882486162, retry_after)
    ∷ (1517147638, server)
    ∷ (315970471, vary)
    ∷ (1561078874, www_authenticate)
    ∷ (2118729960, allow)
    ∷ (3836410099, content_encoding)
    ∷ (1480159241, content_language)
    ∷ (314322716, content_length)
    ∷ (3531376759, content_location)
    ∷ (2628900099, content_md5)
    ∷ (1051632209, content_range)
    ∷ (3266185539, content_type)
    ∷ (2593941644, expires)
    ∷ (4183802465, last_modified)
    ∷ []

-- getmethodfromcrc and getheaderfromcrc; `none` is -1.
unfoldable pub method_from_crc : ℕ → Option Method
unfolding method_cases case_of
method_from_crc c = case_of method_cases c

unfoldable pub header_from_crc : ℕ → Option Header
unfolding header_cases case_of
header_from_crc c = case_of header_cases c
