-- ===== src/Web/StartLine.antt =====
-- How parsersline reads a request line.
use project_mediaswitch.Base.{
  ℕ, suc, ◌+◌, ◌-◌, ◌≤◌, ◌≡◌, refl, sym, ap, ◌∙◌, Bool, Bool-cases, inl, inr, true, false, not,
  ◌&&◌, [], ◌∷◌, ◌++◌, append_assoc, Bytes, Option, some, length, length-append, length-drop, drop,
  take, leb, ltb, ◌==◌, arith, ℤ,
}
use project_mediaswitch.Text.Std.{is_prefix, find_at, find}
use project_mediaswitch.Web.{span, of_text}
use project_mediaswitch.Web.Names.{
  Method, options, get, head, post, put, patch, delete, trace, connect, response, unknown, unlisted,
  method_str, method_from_crc,
}
use project_mediaswitch.Web.Parse.{version, lower, parse_rs_line, or_unlisted}
use project_mediaswitch.Web.Headers.{drop-append, drop_behind}
use project_mediaswitch.Web.Written.{take-append}
use project_mediaswitch.Web.Compose.{request_line}

unfoldable pub lacks : ℕ → Bytes → Bool
lacks c [] = true
lacks c (x ∷ xs) = not (x == c) && lacks c xs

and_cases : (b c : Bool) → (not b && c) ≡ true → (b ≡ false) × (c ≡ true)
and_cases true c h = cc
and_cases false c h = (refl, h)

lacks-cons :
    (c x : ℕ) (xs : Bytes) → lacks c (x ∷ xs) ≡ true → ((x == c) ≡ false) × (lacks c xs ≡ true)
unfolding lacks
lacks-cons c x xs h = and_cases (x == c) (lacks c xs) h

lacks-append : (c : ℕ) (u v : Bytes) → lacks c u ≡ true → lacks c v ≡ true → lacks c (u ++ v) ≡ true
unfolding lacks
lacks-append c [] v h g = g
lacks-append c (x ∷ u) v h g = let a = lacks-cons c x u h in rw (a.0) (lacks-append c u v a.1 g)

is_prefix_self : (p t : Bytes) → is_prefix p (p ++ t) ≡ true
unfolding is_prefix
is_prefix_self [] t = refl
is_prefix_self (c ∷ p) t =
    let same : (c == c) ≡ true = ground arith in rw (same) (is_prefix_self p t)

find_at-first :
    (q : ℕ) (ps u t : Bytes) (i : ℕ)
    → lacks q u ≡ true
    → find_at (q ∷ ps) (u ++ ((q ∷ ps) ++ t)) i ≡ some (i + length u)
unfolding find_at lacks is_prefix
find_at-first q ps [] t i h = rw (is_prefix_self (q ∷ ps) t) (ap some (omega arith))
find_at-first q ps (c ∷ u) t i h =
    let a = lacks-cons q c u h in
    let other : (q == c) ≡ false = let n = a.0 in ground (arith, n) in
    rw (other) (find_at-first q ps u t (i + 1) a.1 ∙ ap some (omega arith))

-- A byte that the text before lacks starts the first match.
find-first :
    (q : ℕ) (ps u t : Bytes) (i : ℕ) (text : Bytes)
    → drop i text ≡ u ++ ((q ∷ ps) ++ t)
    → lacks q u ≡ true
    → find text (q ∷ ps) i ≡ some (i + length u)
unfolding find
find-first q ps u t i text at h =
    let n = length-append u ((q ∷ ps) ++ t) in
    let fits : leb i (length text) ≡ true =
      let m : length text - i ≡ length u + suc (length (ps ++ t)) =
        sym (length-drop i text) ∙ ap length at ∙ n in
      ground (arith, m) in
    rw (fits, at) (find_at-first q ps u t i h)

find_at-here :
    (p s : Bytes) (i : ℕ) → is_prefix p s ≡ true → (k : ℕ) × (find_at p s i ≡ some k) × (i ≤ k)
unfolding find_at
find_at-here p [] i h = (i, rw (h) refl, omega arith)
find_at-here p (c ∷ s) i h = (i, rw (h) refl, omega arith)

-- A match behind the start is found, and not before `i`.
find_at-later : (p u t : Bytes) (i : ℕ) → (k : ℕ) × (find_at p (u ++ (p ++ t)) i ≡ some k) × (i ≤ k)
unfolding find_at
find_at-later p [] t i = find_at-here p (p ++ t) i (is_prefix_self p t)
find_at-later p (c ∷ u) t i =
    let later = find_at-later p u t (i + 1) in
    elim (Bool-cases (is_prefix p (c ∷ (u ++ (p ++ t))))) [
      | inl e ↦ (i, rw (e) refl, omega arith)
      | inr e ↦ (later.0, rw (e) later.1, let n = later.2 in omega (arith, n))
    ]

-- The methods that a request can have.
abbrev pub is_named : Method → Bool
is_named m = elim m [ response ↦ false | unknown ↦ false | unlisted ↦ false | _ ↦ true ]

record Plain (m : Method) : Type 0 where
  pub no_blank : lacks 32 (method_str m) ≡ true
  pub no_cr : lacks 13 (method_str m) ≡ true
  pub not_version : (t : Bytes) → is_prefix version (method_str m ++ t) ≡ false

method-Plain : (m : Method) → is_named m ≡ true → Plain m
unfolding method_str lacks is_prefix
method-Plain options h = record { no_blank = refl; no_cr = refl; not_version = λ t. refl }
method-Plain get h = record { no_blank = refl; no_cr = refl; not_version = λ t. refl }
method-Plain head h = record { no_blank = refl; no_cr = refl; not_version = λ t. refl }
method-Plain post h = record { no_blank = refl; no_cr = refl; not_version = λ t. refl }
method-Plain put h = record { no_blank = refl; no_cr = refl; not_version = λ t. refl }
method-Plain patch h = record { no_blank = refl; no_cr = refl; not_version = λ t. refl }
method-Plain delete h = record { no_blank = refl; no_cr = refl; not_version = λ t. refl }
method-Plain trace h = record { no_blank = refl; no_cr = refl; not_version = λ t. refl }
method-Plain connect h = record { no_blank = refl; no_cr = refl; not_version = λ t. refl }
method-Plain response h = cc
method-Plain unknown h = cc
method-Plain unlisted h = cc

-- A version behind the start is not found at the start.
find-version :
    (u t : Bytes)
    → is_prefix version (u ++ (version ++ t)) ≡ false
    → (k : ℕ) × (find (u ++ (version ++ t)) version 0 ≡ some (k + 1))
unfolding find find_at
find-version [] t h = let self = is_prefix_self version t in cc
find-version (c ∷ u) t h =
    let later = find_at-later version u t 1 in
    let before : later.0 ≡ later.0 - 1 + 1 = let n = later.2 in omega (arith, n) in
    let found = later.1 ∙ ap (λ k. some k) before in
    let fits : leb 0 (length ((c ∷ u) ++ (version ++ t))) ≡ true = ground arith in
    (later.0 - 1, rw (fits, h) found)

module _ (m : Method) (uri rest : Bytes) where
  abbrev whole : Bytes
  whole = request_line m uri ++ (13 ∷ 10 ∷ rest)

  whole-parts : whole ≡ method_str m ++ (b' ' ∷ (uri ++ (b' ' ∷ (version ++ (13 ∷ 10 ∷ rest)))))
  whole-parts =
      append_assoc (method_str m) (b' ' ∷ (uri ++ (b' ' ∷ version))) (13 ∷ 10 ∷ rest)
      ∙ ap (λ t. method_str m ++ (b' ' ∷ t)) (append_assoc uri (b' ' ∷ version) (13 ∷ 10 ∷ rest))

  second : drop (length (method_str m) + 1) whole ≡ uri ++ (b' ' ∷ (version ++ (13 ∷ 10 ∷ rest)))
  second =
      drop_behind (length (method_str m)) whole (b' ' ∷ [])
        (uri ++ (b' ' ∷ (version ++ (13 ∷ 10 ∷ rest))))
        (ap (drop (length (method_str m))) whole-parts
          ∙ drop-append (method_str m) (b' ' ∷ (uri ++ (b' ' ∷ (version ++ (13 ∷ 10 ∷ rest))))))

  line-lacks : is_named m ≡ true → lacks 13 uri ≡ true → lacks 13 (request_line m uri) ≡ true
  unfolding lacks
  line-lacks h g =
      lacks-append 13 (method_str m) (b' ' ∷ (uri ++ (b' ' ∷ version))) (method-Plain m h).no_cr
        (lacks-append 13 uri (b' ' ∷ version) g refl)

  version_found : is_named m ≡ true → (k : ℕ) × (find whole version 0 ≡ some (k + 1))
  version_found h =
      let behind = version ++ (13 ∷ 10 ∷ rest) in
      let u = method_str m ++ (b' ' ∷ (uri ++ (b' ' ∷ []))) in
      let parts : u ++ behind ≡ whole =
        append_assoc (method_str m) (b' ' ∷ (uri ++ (b' ' ∷ []))) behind
        ∙ ap (λ t. method_str m ++ (b' ' ∷ t)) (append_assoc uri (b' ' ∷ []) behind)
        ∙ sym whole-parts in
      let found = find-version u (13 ∷ 10 ∷ rest) (
        ap (is_prefix version) (append_assoc (method_str m) (b' ' ∷ (uri ++ (b' ' ∷ []))) behind)
        ∙ (method-Plain m h).not_version ((b' ' ∷ (uri ++ (b' ' ∷ []))) ++ behind)) in
      (found.0, ap (λ t. find t version 0) (sym parts) ∙ found.1)

  method_part : take (length (method_str m)) whole ≡ method_str m
  method_part =
      ap (take (length (method_str m))) whole-parts
      ∙ take-append (method_str m) (b' ' ∷ (uri ++ (b' ' ∷ (version ++ (13 ∷ 10 ∷ rest)))))

  end_behind : ltb (length (request_line m uri)) (length (method_str m) + 1 + length uri) ≡ false
  end_behind =
      let a = length-append (method_str m) (b' ' ∷ (uri ++ (b' ' ∷ version))) in
      let b = length-append uri (b' ' ∷ version) in ground (arith, a, b)

  pub parse_rs_line-request :
      (crc : Bytes → ℕ) (lexical_cast : Bytes → Option ℤ)
      → is_named m ≡ true
      → lacks 32 uri ≡ true
      → lacks 13 uri ≡ true
      → parse_rs_line crc lexical_cast (of_text whole) ≡ record (of_text whole) {
        rsline = span 0 (length (request_line m uri));
        method_str = span 0 (length (method_str m));
        method = or_unlisted (method_from_crc (crc (lower (method_str m))));
        uri = span (length (method_str m) + 1) (length (method_str m) + 1 + length uri);
      }
  unfolding parse_rs_line
  parse_rs_line-request crc lexical_cast h b g =
      let found = version_found h in
      let blank1 =
        find-first 32 [] (method_str m) (uri ++ (b' ' ∷ (version ++ (13 ∷ 10 ∷ rest)))) 0 whole
          whole-parts (method-Plain m h).no_blank in
      let blank2 =
        find-first 32 [] uri (version ++ (13 ∷ 10 ∷ rest)) (length (method_str m) + 1) whole second
          b in
      let stop = find-first 13 (10 ∷ []) (request_line m uri) rest 0 whole refl (line-lacks h g) in
      let first : find whole (32 ∷ []) 0 ≡ some (length (method_str m)) =
        blank1 ∙ ap (λ k. some k) (omega arith) in
      let last : find whole (13 ∷ 10 ∷ []) 0 ≡ some (length (request_line m uri)) =
        stop ∙ ap (λ k. some k) (omega arith) in
      let status : (found.0 + 1 == 0) ≡ false = ground arith in
      rw (found.1, first, blank2, last, end_behind, status, method_part) refl
