-- ===== src/Web.antt =====
-- projectlib/projectwebdocument.h and .cpp: a document of a start line, headers and a body. The document
-- is a string that the substrings of its parts share; each is kept as two positions in it. `crc` is
-- the checksum of boost::crc_32_type over the bytes that it was given.
pub mod Names
pub mod Parse
pub mod Compose
pub mod Headers
pub mod Lines
pub mod Table
pub mod Fuel
pub mod Written
pub mod StartLine
pub mod Named
pub mod RoundTrip
use project_mediaswitch.Base.{
  ℕ, ◌+◌, ◌-◌, ◌*◌, Bool, false, List, [], ◌∷◌, Bytes, Option, some, length, ◌==◌, if◌then◌else◌, ℤ,
  negsuc,
}
use project_mediaswitch.Text.Substring.{of_range, str}
use project_mediaswitch.Web.Names.{Method, unknown}

pub record Span : Type 0 where
  pub start : ℕ
  pub stop : ℕ

abbrev pub span : ℕ → ℕ → Span
span a b = record { start = a; stop = b }

abbrev pub max_headers : ℕ
max_headers = 50

-- The array `headers` is a function of its index.
pub record Document : Type 0 where
  pub text : Bytes
  pub body : Span
  pub headers : ℕ → Span
  pub headers_parsed : Bool
  pub header_count : ℕ
  pub method : Method
  pub status_code : ℤ
  pub method_str : Span
  pub status_code_str : Span
  pub reason_phrase : Span
  pub uri : Span
  pub rsline : Span

-- The constructors: of an empty document, where the text is empty, and of one that was received.
abbrev pub of_text : Bytes → Document
of_text text =
    let all = span 0 (length text) in
    record {
      text = text;
      body = all;
      headers = λ i. span 0 0;
      headers_parsed = false;
      header_count = 0;
      method = unknown;
      status_code = negsuc 0;
      method_str = all;
      status_code_str = all;
      reason_phrase = all;
      uri = all;
      rsline = all;
    }

-- The text of a part.
unfoldable pub text_of : Bytes → Span → Bytes
unfolding str
text_of text s = str (of_range (some text) s.start s.stop)

-- storeheader: the first free one of the three places of a header.
abbrev pub free_place : (ℕ → Span) → ℕ → List ℕ → ℕ → Bool
free_place slots i [] j = false
free_place slots i (k ∷ ks) j =
    let later = free_place slots i ks j in
    if (slots (i + max_headers * k)).stop == 0 then j == (i + max_headers * k) else later

unfoldable pub store_header : ℕ → Span → (ℕ → Span) → ℕ → Span
store_header i v slots j = if free_place slots i (0 ∷ 1 ∷ 2 ∷ []) j then v else slots j
