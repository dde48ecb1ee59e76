-- ===== src/Web/Table.antt =====
-- What parseheaders leaves in the table of a document with header lines.
use mathlib.Core.Path.{subst}
use project_mediaswitch.Base.{
  ℕ, suc, ◌+◌, ◌-◌, ◌≤◌, ◌≡◌, refl, sym, ap, ◌∙◌, true, false, List, [], ◌∷◌, ◌++◌, Bytes, length,
  length-drop, drop, All, ltb, arith,
}
use project_mediaswitch.Web.{Span, span, Document}
use project_mediaswitch.Web.Names.{header_from_crc}
use project_mediaswitch.Web.Lines.{
  Field, lines, IsName, IsField, named-Begun, size-lines, lines-Behind, length_behind, ends_with,
  goes_on, value_turn,
}
use project_mediaswitch.Web.Headers.{
  Behind, IsValue, drop_behind, loop-next, loop-done, named, read_name,
}
use project_mediaswitch.Web.Parse.{
  crlf, lower, Reading, stored, after_value, turn, read_headers, at_most, parse_headers,
}

-- The table after the headers: each known name has the positions of its value.
abbrev pub table : (Bytes → ℕ) → ℕ → List Field → (ℕ → Span) → ℕ → Span
table crc p [] slots = slots
table crc p (f ∷ fs) slots =
    let start = p + length f.name + 2 in
    let stop = start + length f.value in
    table crc (stop + 2) fs (stored (header_from_crc (crc (lower f.name))) (span start stop) slots)

module _ (crc : Bytes → ℕ) (text : Bytes) where
  abbrev fresh : ℕ → (ℕ → Span) → ℕ → Span → Reading
  fresh p slots k v = record { name = span p p; given = []; headers = slots; count = k; value = v }

  -- The locals where the loop has read headers from `p` on, with `s` behind them.
  pub record HasRead (p : ℕ) (f : Field) (fs : List Field) (s : Bytes) (slots : ℕ → Span) (k : ℕ)
      (r : Reading) : Type 0 where
    pub headers : r.headers ≡ table crc p (f ∷ fs) slots
    pub count : r.count ≡ k + length fs
    pub behind : drop r.value.stop text ≡ 13 ∷ 10 ∷ 13 ∷ 10 ∷ s

  abbrev valued : Field → ℕ → (ℕ → Span) → ℕ → Reading
  valued f p slots k =
      let v = span (p + length f.name + 2) (p + length f.name + 2 + length f.value) in
      record (named crc text (fresh p slots k v) f.name) {
        value = v;
        headers = stored (header_from_crc (crc (lower f.name))) v slots;
      }

  -- The turn at the end of a name.
  field_turn :
      (f : Field) (p : ℕ) (s : Bytes) (slots : ℕ → Span) (k : ℕ) (v : Span)
      → drop p text ≡ f.name ++ (b':' ∷ b' ' ∷ (f.value ++ (13 ∷ 10 ∷ s)))
      → IsValue f.value
      → Behind s
      → turn crc text (named crc text (fresh p slots k v) f.name) (p + length f.name)
        ≡ after_value text (valued f p slots k)
  field_turn f p s slots k v at h b =
      value_turn crc text (named crc text (fresh p slots k v) f.name) f.value s
        (drop_behind p text f.name (b':' ∷ b' ' ∷ (f.value ++ (13 ∷ 10 ∷ s))) at) h b (omega arith)

  value_behind :
      (f : Field) (p : ℕ) (s : Bytes)
      → drop p text ≡ f.name ++ (b':' ∷ b' ' ∷ (f.value ++ (13 ∷ 10 ∷ s)))
      → drop (p + length f.name + 2 + length f.value) text ≡ 13 ∷ 10 ∷ s
  value_behind f p s at = drop_behind (p + length f.name + 2) text f.value (13 ∷ 10 ∷ s) (
      drop_behind (p + length f.name) text (b':' ∷ b' ' ∷ []) (f.value ++ (13 ∷ 10 ∷ s))
        (drop_behind p text f.name (b':' ∷ b' ' ∷ (f.value ++ (13 ∷ 10 ∷ s))) at))

  -- A name, on fuel for it and one turn more.
  to_value :
      (f : Field) (p : ℕ) (s : Bytes) (slots : ℕ → Span) (k : ℕ) (v : Span) (n : ℕ)
      → drop p text ≡ f.name ++ s
      → IsName f.name
      → length f.name + 1 ≤ n
      → read_headers crc text n (fresh p slots k v) p
        ≡ read_headers crc text
            (suc (n - length f.name - 1))
            (named crc text (fresh p slots k v) f.name)
            (p + length f.name)
  to_value f p s slots k v n at h le =
      ap (λ i. read_headers crc text i (fresh p slots k v) p) (omega (arith, le))
      ∙ read_name crc text f.name s (suc (n - length f.name - 1)) (fresh p slots k v) p at h.plain

  pub read_lines :
      (f : Field) (fs : List Field) (s : Bytes) (p : ℕ) (slots : ℕ → Span) (k : ℕ) (v : Span)
      (n : ℕ)
      → drop p text ≡ lines (f ∷ fs) s
      → All IsField (f ∷ fs)
      → length (lines (f ∷ fs) s) ≤ n
      → HasRead p f fs s slots k (read_headers crc text n (fresh p slots k v) p)
  unfolding lines
  read_lines f [] s p slots k v n at h le =
      let size = size-lines f [] s in
      let behind = value_behind f p (13 ∷ 10 ∷ s) at in
      let e =
        to_value f p (b':' ∷ b' ' ∷ (f.value ++ (13 ∷ 10 ∷ 13 ∷ 10 ∷ s))) slots k v n at h.0.name
          (omega (arith, size, le))
        ∙ loop-done crc text (n - length f.name - 1) (named crc text (fresh p slots k v) f.name)
            (valued f p slots k) (p + length f.name)
            (field_turn f p (13 ∷ 10 ∷ s) slots k v at h.0.value (lines-Behind [] s h.1)
              ∙ ends_with crc text (valued f p slots k) s behind) in
      subst (HasRead p f [] s slots k) (sym e)
        (record { headers = refl; count = omega arith; behind = behind })
  read_lines f (g ∷ gs) s p slots k v n at h le =
      let size = size-lines f (g ∷ gs) s in
      let rest = lines (g ∷ gs) s in
      let b = named-Begun g.name (b' ' ∷ (g.value ++ (13 ∷ 10 ∷ lines gs s))) h.1.0.name in
      let behind = value_behind f p rest at in
      let stop = p + length f.name + 2 + length f.value in
      let r = valued f p slots k in
      let e =
        to_value f p (b':' ∷ b' ' ∷ (f.value ++ (13 ∷ 10 ∷ rest))) slots k v n at h.0.name
          (omega (arith, size, le))
        ∙ loop-next crc text (n - length f.name - 1) (named crc text (fresh p slots k v) f.name)
            (fresh (stop + 2) r.headers (k + 1) r.value) (p + length f.name) (stop + 2)
            (field_turn f p rest slots k v at h.0.value b.behind
              ∙ goes_on crc text r b.behind.first b.behind.second b.behind.rest
                  (behind ∙ ap (λ t. 13 ∷ 10 ∷ t) b.behind.shape) b.not_cr) in
      let more =
        read_lines g gs s (stop + 2) r.headers (k + 1) r.value (n - length f.name - 1)
          (drop_behind stop text crlf rest behind) h.1 (omega (arith, size, le)) in
      subst (HasRead p f (g ∷ gs) s slots k) (sym e)
        (record { headers = more.headers; count = more.count ∙ omega arith; behind = more.behind })

at_most-read :
    (text : Bytes) (p : ℕ) (s : Bytes)
    → drop p text ≡ 13 ∷ 10 ∷ 13 ∷ 10 ∷ s
    → at_most (p + 4) (length text) ≡ p + 4
at_most-read text p s at =
    let n = length_behind p text 13 (10 ∷ 13 ∷ 10 ∷ s) at in
    let fits : ltb (length text) (p + 4) ≡ false = ground (arith, n) in rw (fits) refl

capped_size :
    (text : Bytes) (p : ℕ) (s : Bytes)
    → drop p text ≡ 13 ∷ 10 ∷ 13 ∷ 10 ∷ s
    → at_most (p + 4) (length text) + length s ≡ length text
capped_size text p s at =
    let n = length_behind p text 13 (10 ∷ 13 ∷ 10 ∷ s) at in
    let capped = at_most-read text p s at in omega (arith, n, capped)

module _ (crc : Bytes → ℕ) (d : Document) (f : Field) (fs : List Field) (s : Bytes) where
  -- parseheaders reads the header lines, at least one, that follow the start line up to the first empty
  -- line. Each is a name that is not empty, has no blank or colon in it and does not start with a tab or
  -- a CR, then a colon and a blank, and a value that has no CR in it and does not start with a blank or
  -- a colon. Each known name gets the positions of its value in the table, the body is all that stands
  -- behind the empty line, and the count is one less than the number of lines.
  pub parse_headers-lines :
      drop (d.rsline.stop + 2) d.text ≡ lines (f ∷ fs) s
      → All IsField (f ∷ fs)
      → ((parse_headers crc d).headers ≡ table crc (d.rsline.stop + 2) (f ∷ fs) d.headers)
        × (drop (parse_headers crc d).body.start d.text ≡ s)
        × ((parse_headers crc d).body.start + length s ≡ length d.text)
        × ((parse_headers crc d).body.stop ≡ length d.text)
        × ((parse_headers crc d).header_count ≡ length fs)
        × ((parse_headers crc d).headers_parsed ≡ true)
  unfolding parse_headers lines
  parse_headers-lines at h =
      let start = d.rsline.stop + 2 in
      let size : length (lines (f ∷ fs) s) ≤ length d.text + 1 =
        let same = ap length at in omega (arith, length-drop start d.text, same) in
      let read =
        read_lines crc d.text f fs s start d.headers 0 (span 0 0) (length d.text + 1) at h size in
      let last = read.behind in
      let capped = at_most-read d.text _ s last in
      (
        read.headers,
        ap (λ p. drop p d.text) capped ∙ drop_behind _ d.text (13 ∷ 10 ∷ 13 ∷ 10 ∷ []) s last,
        capped_size d.text _ s last,
        refl,
        read.count ∙ omega arith,
        refl,
      )
