-- ===== src/Web/Parse.antt =====
-- projectlib/projectwebdocument.cpp: the parsing of a document.
use project_mediaswitch.Base.{
  ℕ, zero, suc, ◌+◌, ◌-◌, Bool, true, false, ◌&&◌, ◌||◌, [], ◌∷◌, ◌++◌, Bytes, Option, none, some,
  codes, length, take, drop, get_elem?, ltb, leb, ◌==◌, if◌then◌else◌, ℤ, negsuc, ◌>>=◌,
}
use project_mediaswitch.Text.Url.{to_lower}
use project_mediaswitch.Text.Std.{find}
use project_mediaswitch.Web.{Span, span, Document, text_of, store_header}
use project_mediaswitch.Web.Names.{
  Method, response, unlisted, Header, index_of, method_from_crc, header_from_crc,
}

abbrev pub cr : ℕ
cr = 13

abbrev pub lf : ℕ
lf = 10

-- getversion()
abbrev pub version : Bytes
version = codes "HTTP/1.1"

abbrev pub crlf : Bytes
crlf = cr ∷ lf ∷ []

abbrev pub lower : Bytes → Bytes
lower [] = []
lower (c ∷ s) = to_lower c ∷ lower s

abbrev pub is_separator : ℕ → Bool
is_separator c = c == b':' || c == b' '

abbrev pub is_blank : ℕ → Bool
is_blank c = c == b' ' || c == 9

-- The first loop of getheadervalue: where the value starts.
unfoldable pub skip : Bytes → ℕ → ℕ
skip [] p = p
skip (c ∷ s) p = let later = skip s (p + 1) in if is_separator c then later else p

-- The second loop: where it ends, at a line end that no blank follows.
pub data Seen : Type 0 where
  plain after_cr after_crlf : Seen

unfoldable pub scan : Seen → Bytes → ℕ → ℕ
scan k [] e = e
scan plain (c ∷ s) e = elim (c == cr) [ true ↦ scan after_cr s e | false ↦ scan plain s (e + 1) ]
scan after_cr (c ∷ s) e = elim (c == lf) [
  | true ↦ scan after_crlf s e
  | false ↦ scan plain s (e + 2)
]
scan after_crlf (c ∷ s) e = elim (is_blank c) [ true ↦ scan plain s (e + 3) | false ↦ e ]

-- getheadervalue, for a header name that ends at `e`.
unfoldable pub get_header_value : Bytes → ℕ → Span
unfolding skip scan
get_header_value text e = let p = skip (drop e text) e in span p (scan plain (drop p text) p)

-- The locals of parseheaders: the name so far with the bytes that its checksum was given, the table,
-- the count, and the last value.
pub record Reading : Type 0 where
  pub name : Span
  pub given : Bytes
  pub headers : ℕ → Span
  pub count : ℕ
  pub value : Span

pub data Turn : Type 0 where
  done : Reading → Turn
  next : Reading → ℕ → Turn

abbrev pub is_at : Bytes → ℕ → ℕ → Bool
is_at text i c = elim (get_elem? text i) [ none ↦ false | some x ↦ x == c ]

abbrev pub stored : Option Header → Span → (ℕ → Span) → ℕ → Span
stored none v slots = slots
stored (some h) v slots = store_header (index_of h) v slots

-- What follows a value: the end of the text, the empty line, or the next header.
abbrev pub after_value : Bytes → Reading → Turn
after_value text r =
    if leb (length text) (r.value.stop + 3)
    then done r
    else if is_at text (r.value.stop + 2) cr && is_at text (r.value.stop + 3) lf
    then done r
    else next
        (record r {
          name = span (r.value.stop + 2) (r.value.stop + 2);
          given = [];
          count = r.count + 1;
        })
        (r.value.stop + 2)

abbrev pub take_value : (Bytes → ℕ) → Bytes → Reading → Span → Turn
take_value crc text r v =
    after_value text
      (record r { value = v; headers = stored (header_from_crc (crc r.given)) v r.headers })

abbrev pub at_byte : (Bytes → ℕ) → Bytes → Reading → ℕ → ℕ → Turn
at_byte crc text r pos c =
    if is_separator c
    then if ltb (length text) (r.name.start + (r.name.stop - r.name.start))
      then done r
      else take_value crc text r (get_header_value text r.name.stop)
    else next
        (record r {
          name = span r.name.start (r.name.stop + 1);
          given = r.given ++ (to_lower c ∷ []);
        })
        (pos + 1)

-- One turn of the loop of parseheaders, at a position.
unfoldable pub turn : (Bytes → ℕ) → Bytes → Reading → ℕ → Turn
unfolding get_header_value store_header
turn crc text r pos = elim (drop pos text) [ [] ↦ done r | c ∷ s ↦ at_byte crc text r pos c ]

-- The loop on fuel. A turn moves on by at least one byte.
unfoldable pub read_headers : (Bytes → ℕ) → Bytes → ℕ → Reading → ℕ → Reading
unfolding turn
read_headers crc text zero r pos = r
read_headers crc text (suc n) r pos = elim (turn crc text r pos) [
  | done r' ↦ r'
  | next r' pos' ↦ read_headers crc text n r' pos'
]

abbrev pub at_most : ℕ → ℕ → ℕ
at_most n m = if ltb m n then m else n

-- parseheaders
unfoldable pub parse_headers : (Bytes → ℕ) → Document → Document
unfolding read_headers
parse_headers crc d =
    let start = d.rsline.stop + 2 in
    let r =
      read_headers crc d.text (length d.text + 1)
        (record {
          name = span start start;
          given = [];
          headers = d.headers;
          count = 0;
          value = span 0 0;
        })
        start in
    record d {
      headers_parsed = true;
      header_count = r.count;
      headers = r.headers;
      body = span (at_most (r.value.stop + 4) (length d.text)) (length d.text);
    }

abbrev pub or_unlisted : Option Method → Method
or_unlisted none = unlisted
or_unlisted (some m) = m

abbrev pub or_failed : Option ℤ → ℤ
or_failed none = negsuc 0
or_failed (some n) = n

-- The line from its two spaces to its end: a status line where the version stands at the start.
abbrev pub read_line : (Bytes → ℕ) → (Bytes → Option ℤ) → Document → ℕ → ℕ → ℕ → ℕ → Document
read_line crc lexical_cast d version_at sp1 sp2 end_line =
    if version_at == 0
    then record d {
      rsline = span 0 end_line;
      method = response;
      status_code_str = span (sp1 + 1) sp2;
      reason_phrase = span sp2 end_line;
      status_code = or_failed (lexical_cast (text_of d.text (span (sp1 + 1) sp2)));
    }
    else record d {
      rsline = span 0 end_line;
      method_str = span 0 sp1;
      method = or_unlisted (method_from_crc (crc (lower (take sp1 d.text))));
      uri = span (sp1 + 1) sp2;
    }

abbrev pub or_same : Document → Option Document → Document
or_same d none = d
or_same d (some e) = e

-- parsersline; a line that is not one changes nothing.
unfoldable pub parse_rs_line : (Bytes → ℕ) → (Bytes → Option ℤ) → Document → Document
unfolding find text_of
parse_rs_line crc lexical_cast d = or_same d (
    find d.text version 0 >>= λ version_at. find d.text (b' ' ∷ []) 0 >>= λ sp1.
    find d.text (b' ' ∷ []) (sp1 + 1) >>= λ sp2. find d.text crlf 0 >>= λ end_line.
    if ltb end_line sp2
    then none
    else some (read_line crc lexical_cast d version_at sp1 sp2 end_line))
