-- ===== src/Web/RoundTrip.antt =====
-- A request that is composed with setrequestline, addheader and setbody, and then read.
use project_mediaswitch.Base.{
  ℕ, zero, suc, ◌+◌, ◌≡◌, refl, sym, ap, ap₂, ◌∙◌, true, false, List, [], ◌∷◌, ◌++◌, append_assoc,
  append-nil, Bytes, Option, some, length, length-append, drop, All, ◌==◌, if◌then◌else◌, arith, ℤ,
}
use project_mediaswitch.Web.{span, Document, of_text}
use project_mediaswitch.Web.Names.{Method, header_str, method_str, method_from_crc}
use project_mediaswitch.Web.Parse.{lower, crlf, or_unlisted, parse_rs_line, parse_headers}
use project_mediaswitch.Web.Headers.{drop-append, drop_behind}
use project_mediaswitch.Web.Compose.{
  request_line, set_request_line, put_line, set_body, with_line, with_headers,
}
use project_mediaswitch.Web.Lines.{Field, lines, IsField}
use project_mediaswitch.Web.Table.{table, parse_headers-lines}
use project_mediaswitch.Web.Written.{
  Entry, fields, add_headers, Known, Written, add_headers-Written,
}
use project_mediaswitch.Web.Headers.{IsValue}
use project_mediaswitch.Web.Named.{header_str-IsName}
use project_mediaswitch.Web.StartLine.{lacks, is_named, parse_rs_line-request}

lines-append : (fs : List Field) (s : Bytes) → lines fs [] ++ s ≡ lines fs s
unfolding lines
lines-append [] s = refl
lines-append (f ∷ fs) s =
    append_assoc f.name (b':' ∷ b' ' ∷ (f.value ++ (13 ∷ 10 ∷ lines fs []))) s
    ∙ ap (λ t. f.name ++ (b':' ∷ b' ' ∷ t))
        (append_assoc f.value (13 ∷ 10 ∷ lines fs []) s
          ∙ ap (λ t. f.value ++ (13 ∷ 10 ∷ t)) (lines-append fs s))

none-behind : (n : ℕ) (s : Bytes) → s ≡ [] → drop n s ≡ []
none-behind zero s e = e
none-behind (suc n) s e = ap (drop (suc n)) e

put_line-nil : (l : Bytes) (n : ℕ) → put_line l n [] ≡ l
put_line-nil l zero = append-nil l
put_line-nil l (suc n) =
    let other : (suc n == 0) ≡ false = ground arith in
    rw (other) (ap (λ t. l ++ t) (none-behind (0 + suc n) [] refl) ∙ append-nil l)

set_body-text :
    (content : Bytes) (d : Document)
    → d.body ≡ span 0 0
    → (set_body content d).text ≡ d.text ++ content
unfolding set_body
set_body-text content d e = let stop : d.body.stop ≡ 0 = ap (λ b. b.stop) e in rw (stop) refl

set_body-body :
    (content : Bytes) (d : Document)
    → d.body ≡ span 0 0
    → (set_body content d).body ≡ span (length d.text) (length d.text + length content)
unfolding set_body
set_body-body content d e = let stop : d.body.stop ≡ 0 = ap (λ b. b.stop) e in rw (stop) refl

-- A request line, headers and a body, one after the other, on an empty document.
unfoldable pub request : Method → Bytes → List Entry → Bytes → Document
unfolding set_request_line add_headers set_body
request m uri ls content = set_body content (add_headers ls (set_request_line m uri (of_text [])))

fields-IsField : (ls : List Entry) → All (λ k. IsValue k.1) ls → All IsField (fields ls)
fields-IsField [] h = tt
fields-IsField (l ∷ ls) h =
    (record { name = header_str-IsName l.0; value = h.0 }, fields-IsField ls h.1)

module _ (crc : Bytes → ℕ) (m : Method) (uri : Bytes) (l : Entry) (ls : List Entry) where
  started-text : (set_request_line m uri (of_text [])).text ≡ request_line m uri ++ crlf
  unfolding set_request_line
  started-text = put_line-nil (request_line m uri ++ crlf) (length (request_line m uri))

  headed-Written :
      All (λ k. Known crc k.0) (l ∷ ls)
      → Written crc
          (request_line m uri ++ crlf)
          (l ∷ ls)
          (set_request_line m uri (of_text []))
          (add_headers (l ∷ ls) (set_request_line m uri (of_text [])))
  unfolding set_request_line
  headed-Written k =
      add_headers-Written crc l ls (request_line m uri ++ crlf)
        (set_request_line m uri (of_text [])) started-text refl k

  request-text :
      (content : Bytes)
      → All (λ k. Known crc k.0) (l ∷ ls)
      → (request m uri (l ∷ ls) content).text
        ≡ request_line m uri ++ (13 ∷ 10 ∷ lines (fields (l ∷ ls)) content)
  unfolding request set_request_line
  request-text content k =
      let w = headed-Written k in
      let behind = lines (fields (l ∷ ls)) [] in
      set_body-text content (add_headers (l ∷ ls) (set_request_line m uri (of_text []))) w.body
      ∙ ap (λ t. t ++ content) w.text
      ∙ append_assoc (request_line m uri ++ crlf) behind content
      ∙ ap (λ t. (request_line m uri ++ crlf) ++ t) (lines-append (fields (l ∷ ls)) content)
      ∙ append_assoc (request_line m uri) crlf (lines (fields (l ∷ ls)) content)

  request-body :
      (content : Bytes)
      → All (λ k. Known crc k.0) (l ∷ ls)
      → (request m uri (l ∷ ls) content).body.stop ≡ length (request m uri (l ∷ ls) content).text
  unfolding request
  request-body content k =
      let w = headed-Written k in
      let d = add_headers (l ∷ ls) (set_request_line m uri (of_text [])) in
      ap (λ b. b.stop) (set_body-body content d w.body)
      ∙ sym (length-append d.text content)
      ∙ ap length (sym (set_body-text content d w.body))

  request-start :
      (content : Bytes)
      → All (λ k. Known crc k.0) (l ∷ ls)
      → (request m uri (l ∷ ls) content).body.start + length content
        ≡ length (request m uri (l ∷ ls) content).text
  unfolding request
  request-start content k =
      let w = headed-Written k in
      let d = add_headers (l ∷ ls) (set_request_line m uri (of_text [])) in
      ap (λ b. b.start + length content) (set_body-body content d w.body)
      ∙ sym (length-append d.text content)
      ∙ ap length (sym (set_body-text content d w.body))

  abbrev lined : Document → Document
  lined d = record d {
    rsline = span 0 (length (request_line m uri));
    method_str = span 0 (length (method_str m));
    method = or_unlisted (method_from_crc (crc (lower (method_str m))));
    uri = span (length (method_str m) + 1) (length (method_str m) + 1 + length uri);
  }

  read_back :
      (lexical_cast : Bytes → Option ℤ) (t s : Bytes)
      → t ≡ request_line m uri ++ (13 ∷ 10 ∷ lines (fields (l ∷ ls)) s)
      → is_named m ≡ true
      → lacks 32 uri ≡ true
      → lacks 13 uri ≡ true
      → with_headers crc lexical_cast (of_text t) ≡ parse_headers crc (lined (of_text t))
  unfolding with_headers with_line
  read_back lexical_cast t s e h b g =
      let read : parse_rs_line crc lexical_cast (of_text t) ≡ lined (of_text t) =
        ap (λ x. parse_rs_line crc lexical_cast (of_text x)) e
        ∙ parse_rs_line-request m uri (lines (fields (l ∷ ls)) s) crc lexical_cast h b g
        ∙ ap (λ x. lined (of_text x)) (sym e) in
      ap (λ d. if d.headers_parsed then d else parse_headers crc d) read

  lines_behind :
      (t s : Bytes)
      → t ≡ request_line m uri ++ (13 ∷ 10 ∷ s)
      → drop (length (request_line m uri) + 2) t ≡ s
  lines_behind t s e =
      drop_behind (length (request_line m uri)) t crlf s
        (ap (drop (length (request_line m uri))) e ∙ drop-append (request_line m uri) (13 ∷ 10 ∷ s))

  -- A request composed on an empty document with setrequestline, addheader for one header or more and
  -- setbody is read back from its text: a method with a name that its checksum stands for, a URI
  -- without a blank or an end of line, headers that their checksums stand for with values that
  -- neither hold a CR nor start with a blank or a colon, and any body. The method is the same, and
  -- the URI, the values of the headers and the body are read at the positions that composing
  -- stored, and the body's bytes stand there.
  pub request-read :
      (lexical_cast : Bytes → Option ℤ) (content : Bytes)
      → is_named m ≡ true
      → method_from_crc (crc (lower (method_str m))) ≡ some m
      → lacks 32 uri ≡ true
      → lacks 13 uri ≡ true
      → All (λ k. Known crc k.0) (l ∷ ls)
      → All (λ k. IsValue k.1) (l ∷ ls)
      → let d = request m uri (l ∷ ls) content in
        let e = with_headers crc lexical_cast (of_text d.text) in
        (e.method ≡ m)
        × (e.uri ≡ d.uri)
        × (e.headers ≡ d.headers)
        × (e.body ≡ d.body)
        × (drop d.body.start d.text ≡ content)
  unfolding parse_headers request set_request_line
  request-read lexical_cast content h c b g k v =
      let d = request m uri (l ∷ ls) content in
      let w = headed-Written k in
      let text = request-text content k in
      let back = read_back lexical_cast d.text content text h b g in
      let read =
        parse_headers-lines crc (lined (of_text d.text))
          (record { name = header_str l.0; value = l.1 }) (fields ls) content
          (lines_behind d.text (lines (fields (l ∷ ls)) content) text)
          (fields-IsField (l ∷ ls) v) in
      let size : length (request_line m uri ++ crlf) ≡ length (request_line m uri) + 2 =
        length-append (request_line m uri) crlf in
      let start : (parse_headers crc (lined (of_text d.text))).body.start ≡ d.body.start =
        let ours = request-start content k in let theirs = read.2 in omega (arith, ours, theirs) in
      (
        ap (λ e. e.method) back ∙ ap or_unlisted c,
        ap (λ e. e.uri) back ∙ sym w.uri,
        ap (λ e. e.headers) back
            ∙ read.0
            ∙ ap (λ p. table crc p (fields (l ∷ ls)) (λ i. span 0 0)) (sym size)
            ∙ sym w.headers,
        ap (λ e. e.body) back ∙ ap₂ span start (read.3 ∙ sym (request-body content k)),
        ap (λ p. drop p d.text) (sym start) ∙ read.1,
      )
