-- ===== src/Web/Compose.antt =====
-- projectlib/projectwebdocument.cpp: the composing of a document, and the access to one.
use project_mediaswitch.Base.{
  ℕ, ◌+◌, ◌-◌, Bool, true, false, not, [], ◌∷◌, ◌++◌, Bytes, Option, none, some, length, take, drop,
  ltb, leb, ◌==◌, if◌then◌else◌, ℤ, pos, negsuc,
}
use project_mediaswitch.Text.Std.{find}
use project_mediaswitch.Web.{span, Document, text_of, store_header}
use project_mediaswitch.Web.Names.{
  Method, response, unknown, Header, content_length, header_str, method_str, index_of,
}
use project_mediaswitch.Web.Parse.{crlf, version, parse_rs_line, parse_headers}

-- std::string::erase( pos, n ) and insert
abbrev pub erase : ℕ → ℕ → Bytes → Bytes
erase at n s = take at s ++ drop (at + n) s

abbrev pub insert : ℕ → Bytes → Bytes → Bytes
insert at t s = take at s ++ (t ++ drop at s)

-- The line takes the place of as many bytes as `rsline` ends at.
abbrev pub put_line : Bytes → ℕ → Bytes → Bytes
put_line line n text = if n == 0 then insert 0 line text else insert 0 line (erase 0 n text)

abbrev pub code_digits : (ℤ → Bytes) → ℤ → Bytes
code_digits to_string (pos n) =
    (if ltb n 100 then b'0' ∷ [] else [])
    ++ ((if ltb n 10 then b'0' ∷ [] else []) ++ to_string (pos n))
code_digits to_string (negsuc n) = b'0' ∷ b'0' ∷ to_string (negsuc n)

-- setstatusline, with `std::to_string`. The zeros in front of the code are not part of statuscodestr.
unfoldable pub set_status_line : (ℤ → Bytes) → ℤ → Bytes → Document → Document
set_status_line to_string code reason d =
    let digits = code_digits to_string code in
    let after_code = length version + 1 + length digits in
    let line = version ++ (b' ' ∷ (digits ++ (b' ' ∷ (reason ++ crlf)))) in
    record d {
      status_code = code;
      status_code_str = span (after_code - length (to_string code)) after_code;
      reason_phrase = span (after_code + 1) (after_code + 1 + length reason);
      text = put_line line d.rsline.stop d.text;
      rsline = span 0 (length line - 1);
    }

-- The text of a request line, without its end.
abbrev pub request_line : Method → Bytes → Bytes
request_line m uri = method_str m ++ (b' ' ∷ (uri ++ (b' ' ∷ version)))

-- setrequestline: the end of `rsline` is set before it is used, so that as many bytes as the new line
-- has go from the front of a document that is not empty.
unfoldable pub set_request_line : Method → Bytes → Document → Document
unfolding method_str
set_request_line m uri d =
    let line = request_line m uri in
    record d {
      method = m;
      method_str = span d.method_str.start (length (method_str m));
      uri = span (length (method_str m) + 1) (length (method_str m) + 1 + length uri);
      rsline = span d.rsline.start (length line);
      text = put_line (line ++ crlf) (length line) d.text;
    }

abbrev pub header_line : Header → Bytes → Bytes
header_line h value = header_str h ++ (b':' ∷ b' ' ∷ (value ++ crlf))

-- The last two bytes go, where a header stands before.
abbrev pub without_end : Document → Bytes
without_end d = if d.header_count == 0 then d.text else take (length d.text - 2) d.text

abbrev pub append_header : Header → Bytes → Document → Document
append_header h value d =
    let start = length (without_end d) + length (header_str h) + 2 in
    record d {
      text = without_end d ++ (header_line h value ++ crlf);
      headers = store_header (index_of h) (span start (start + length value)) d.headers;
      header_count = d.header_count + 1;
    }

-- In front of a body the header is put before the empty line, and stored with the start of the body.
abbrev pub insert_header : Header → Bytes → Document → Document
insert_header h value d =
    let line = header_line h value in
    let stop = d.body.start + length line - 4 in
    record d {
      text =
          if d.header_count == 0
          then insert d.body.start (line ++ crlf) d.text
          else insert (d.body.start - 2) line d.text;
      headers = store_header (index_of h) (span d.body.start stop) d.headers;
      body = span (d.body.start + length line) (d.body.stop + length line);
      header_count = d.header_count + 1;
    }

-- addheader
unfoldable pub add_header : Header → Bytes → Document → Document
unfolding header_str store_header
add_header h value d =
    if d.body.stop - d.body.start == 0 then append_header h value d else insert_header h value d

-- setbody, of bytes without a NUL.
unfoldable pub set_body : Bytes → Document → Document
set_body content d =
    let rest =
      if d.body.stop == 0 then d.text else erase d.body.start (d.body.stop - d.body.start) d.text in
    record d { text = rest ++ content; body = span (length rest) (length rest + length content) }

-- append, of bytes without a NUL.
unfoldable pub append : Bytes → Document → Document
append more d = record d {
  text = d.text ++ more;
  body = if d.headers_parsed then span d.body.start (d.body.stop + length more) else d.body;
}

-- The accessors, which parse what is not parsed.
abbrev pub is_unknown : Method → Bool
is_unknown m = elim m [ unknown ↦ true | _ ↦ false ]

abbrev pub is_response : Method → Bool
is_response m = elim m [ response ↦ true | _ ↦ false ]

module _ (crc : Bytes → ℕ) (lexical_cast : Bytes → Option ℤ) where
  unfoldable pub with_line : Document → Document
  unfolding parse_rs_line
  with_line d = if is_unknown d.method then parse_rs_line crc lexical_cast d else d

  unfoldable pub with_headers : Document → Document
  unfolding with_line parse_headers
  with_headers d = let e = with_line d in if e.headers_parsed then e else parse_headers crc e

  -- getmethod, getstatuscode, getreasonphrase, getrequesturi, isrequest, getheader, hasheader and
  -- getbody
  abbrev pub get_method : Document → Method
  get_method d = (with_line d).method

  abbrev pub get_status_code : Document → ℤ
  get_status_code d = (with_line d).status_code

  abbrev pub get_reason_phrase : Document → Bytes
  get_reason_phrase d = text_of d.text (with_line d).reason_phrase

  abbrev pub get_request_uri : Document → Bytes
  get_request_uri d = text_of d.text (with_line d).uri

  abbrev pub is_request : Document → Bool
  is_request d = not (is_response (with_line d).method)

  abbrev pub get_header : Document → Header → Bytes
  get_header d h = text_of d.text ((with_headers d).headers (index_of h))

  abbrev pub has_header : Document → Header → Bool
  has_header d h = not (((with_headers d).headers (index_of h)).stop == 0)

  abbrev pub get_body : Document → Bytes
  get_body d = text_of d.text (with_headers d).body

  abbrev pub holds : Document → Option ℤ → Bool
  holds d none = false
  holds d (some (negsuc n)) = false
  holds d (some (pos n)) = leb n ((with_headers d).body.stop - (with_headers d).body.start)

  -- iscomplete; `lexical_cast` reads a number that a `size_t` holds.
  unfoldable pub is_complete : Document → Bool
  unfolding with_headers find
  is_complete d = elim (find d.text (crlf ++ crlf) 0) [
    | none ↦ false
    | some i ↦
        if has_header d content_length
        then holds d (lexical_cast (get_header d content_length))
        else true
  ]
