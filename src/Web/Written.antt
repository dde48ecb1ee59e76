-- ===== src/Web/Written.antt =====
-- What addheader writes, and where it says the values are.
use mathlib.Core.Path.{subst}
use project_mediaswitch.Base.{
  ℕ, ◌+◌, ◌-◌, ◌≡◌, refl, sym, ap, ap₂, ◌∙◌, false, List, [], ◌∷◌, ◌++◌, append_assoc, Bytes, some,
  length, length-append, take, All, ◌==◌, arith,
}
use project_mediaswitch.Web.{span, Document}
use project_mediaswitch.Web.Names.{Header, header_str, header_from_crc}
use project_mediaswitch.Web.Parse.{crlf, lower, stored}
use project_mediaswitch.Web.Compose.{header_line, without_end, append_header, add_header}
use project_mediaswitch.Web.Lines.{Field, lines}
use project_mediaswitch.Web.Table.{table}

-- Headers with their values, in the order in which they are added.
abbrev pub Entry : Type 0
Entry = Header × Bytes

abbrev pub fields : List Entry → List Field
fields [] = []
fields (l ∷ ls) = record { name = header_str l.0; value = l.1 } ∷ fields ls

unfoldable pub add_headers : List Entry → Document → Document
add_headers [] d = d
add_headers (l ∷ ls) d = add_headers ls (add_header l.0 l.1 d)

-- The checksum of a header's name stands for that header.
abbrev pub Known : (Bytes → ℕ) → Header → Type 0
Known crc h = header_from_crc (crc (lower (header_str h))) ≡ some h

pub record Written (crc : Bytes → ℕ) (x : Bytes) (ls : List Entry) (d e : Document) : Type 0 where
  pub text : e.text ≡ x ++ lines (fields ls) []
  pub headers : e.headers ≡ table crc (length x) (fields ls) d.headers
  pub rsline : e.rsline ≡ d.rsline
  pub uri : e.uri ≡ d.uri
  pub body : e.body ≡ d.body

pub take-append : (x y : Bytes) → take (length x) (x ++ y) ≡ x
take-append [] y = refl
take-append (c ∷ x) y = ap (λ t. c ∷ t) (take-append x y)

header_line-append :
    (h : Header) (v s : Bytes)
    → header_line h v ++ s ≡ header_str h ++ (b':' ∷ b' ' ∷ (v ++ (13 ∷ 10 ∷ s)))
header_line-append h v s =
    append_assoc (header_str h) (b':' ∷ b' ' ∷ (v ++ crlf)) s
    ∙ ap (λ t. header_str h ++ (b':' ∷ b' ' ∷ t)) (append_assoc v crlf s)

without_end-append :
    (d : Document) (x : Bytes) (k : ℕ)
    → d.text ≡ x ++ crlf
    → d.header_count ≡ k + 1
    → without_end d ≡ x
without_end-append d x k e n =
    let some_header : (d.header_count == 0) ≡ false = ground (arith, n) in
    let size : length d.text - 2 ≡ length x = omega (arith, ap length e ∙ length-append x crlf) in
    rw (some_header, size, e) (take-append x crlf)

length-header_line :
    (h : Header) (v : Bytes) → length (header_line h v) ≡ length (header_str h) + 2 + length v + 2
length-header_line h v =
    let a = length-append (header_str h) (b':' ∷ b' ' ∷ (v ++ crlf)) in
    let b = length-append v crlf in omega (arith, a, b)

pub no_body :
    (d : Document)
    → d.body.stop - d.body.start ≡ 0
    → (h : Header) (v : Bytes) → add_header h v d ≡ append_header h v d
unfolding add_header
no_body d e h v = rw (e) refl

module _ (crc : Bytes → ℕ) where
  added_text :
      (h : Header) (v x : Bytes) (d : Document)
      → without_end d ≡ x
      → (append_header h v d).text ≡ (x ++ header_line h v) ++ crlf
  added_text h v x d e = rw (e) (sym (append_assoc x (header_line h v) crlf))

  added_headers :
      (h : Header) (v x : Bytes) (d : Document)
      → without_end d ≡ x
      → Known crc h
      → (append_header h v d).headers
        ≡ stored
            (header_from_crc (crc (lower (header_str h))))
            (span
              (length x + length (header_str h) + 2)
              (length x + length (header_str h) + 2 + length v))
            d.headers
  added_headers h v x d e k = rw (e, k) refl

  pub add_headers-Written :
      (l : Entry) (ls : List Entry) (x : Bytes) (d : Document)
      → without_end d ≡ x
      → d.body.stop - d.body.start ≡ 0
      → All (λ m. Known crc m.0) (l ∷ ls)
      → Written crc x (l ∷ ls) d (add_headers (l ∷ ls) d)
  unfolding add_headers lines
  add_headers-Written l [] x d e b k =
      let one = no_body d b l.0 l.1 in
      subst (Written crc x (l ∷ []) d) (sym one) (record {
        text =
            added_text l.0 l.1 x d e
            ∙ append_assoc x (header_line l.0 l.1) crlf
            ∙ ap (λ t. x ++ t) (header_line-append l.0 l.1 crlf);
        headers = added_headers l.0 l.1 x d e k.0;
        rsline = refl;
        uri = refl;
        body = refl;
      })
  add_headers-Written l (m ∷ ls) x d e b k =
      let x' = x ++ header_line l.0 l.1 in
      let one = no_body d b l.0 l.1 in
      let d' = append_header l.0 l.1 d in
      let e' = without_end-append d' x' d.header_count (added_text l.0 l.1 x d e) refl in
      let more = add_headers-Written m ls x' d' e' b k.1 in
      let size : length x' ≡ length x + length (header_str l.0) + 2 + length l.1 + 2 =
        let a = length-header_line l.0 l.1 in
        let c = length-append x (header_line l.0 l.1) in omega (arith, a, c) in
      subst (λ a. Written crc x (l ∷ m ∷ ls) d (add_headers (m ∷ ls) a)) (sym one)
        (record {
          text =
              more.text
              ∙ append_assoc x (header_line l.0 l.1) (lines (fields (m ∷ ls)) [])
              ∙ ap (λ t. x ++ t) (header_line-append l.0 l.1 (lines (fields (m ∷ ls)) []));
          headers =
              more.headers
              ∙ ap₂ (λ p t. table crc p (fields (m ∷ ls)) t) size (added_headers l.0 l.1 x d e k.0);
          rsline = more.rsline;
          uri = more.uri;
          body = more.body;
        })
