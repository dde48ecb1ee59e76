-- ===== src/Directory/Domains/Names.antt =====
-- The labels of a name against its cut at the first dot.
use mathlib.Core.List.{reverse, reverse-cons}
use project_mediaswitch.Base.{
  ℕ, ◌≡◌, refl, ap, ◌∙◌, true, [], ◌∷◌, ◌++◌, Bytes, none, some, ◌==◌, ==_iff, inl, inr, Bool-cases,
  Option-cases, arith,
}
use project_mediaswitch.Text.Split.Parts.{IsPlain, split_string_plain, split_string_cut}
use project_mediaswitch.Text.Split.RoundTrip.{ends_plain, ends_plain-tail}
use project_mediaswitch.Text.Split.{split_string}
use project_mediaswitch.Directory.Domains.{labels, cut_at_dot}

cut_at_dot-none : (name : Bytes) → cut_at_dot name ≡ none → IsPlain b'.' name
unfolding cut_at_dot
cut_at_dot-none [] e = tt
cut_at_dot-none (c ∷ cs) e = elim (Option-cases (cut_at_dot cs)) [
  | inl h ↦ (ground arith, cut_at_dot-none cs h)
  | inr (p, h) ↦ ground (arith, h)
]

pub cut_at_dot-some :
    (name host rest : Bytes)
    → cut_at_dot name ≡ some (host, rest)
    → (name ≡ host ++ (b'.' ∷ rest)) × IsPlain b'.' host
unfolding cut_at_dot
cut_at_dot-some [] host rest e = cc
cut_at_dot-some (c ∷ cs) host rest e = elim (Bool-cases (c == b'.')) [
  | inl dot ↦
      let h : host ≡ [] = ground arith in
      let r : rest ≡ cs = ground arith in rw (h, r, (==_iff c b'.').0 dot) (refl, tt)
  | inr other ↦ elim (Option-cases (cut_at_dot cs)) [
    | inl gone ↦ ground arith
    | inr ((h, r), found) ↦
        let (joins, plain) = cut_at_dot-some cs h r found in
        let eh : host ≡ c ∷ h = ground arith in
        let er : rest ≡ r = ground arith in
        rw (eh, er) (ap (◌∷◌ c) joins, (ground (arith, ==_iff c b'.'), plain))
  ]
]

pub cut_at_dot_plain : (name : Bytes) → IsPlain b'.' name → cut_at_dot name ≡ none
unfolding cut_at_dot
cut_at_dot_plain [] h = refl
cut_at_dot_plain (c ∷ cs) h = ground (arith, cut_at_dot_plain cs h.1)

pub cut_at_dot-append :
    (host rest : Bytes) → IsPlain b'.' host → cut_at_dot (host ++ (b'.' ∷ rest)) ≡ some (host, rest)
unfolding cut_at_dot
cut_at_dot-append [] rest h = refl
cut_at_dot-append (c ∷ host) rest h = ground (arith, cut_at_dot-append host rest h.1)

-- A name with no dot is its only label.
pub labels_plain : (name : Bytes) → IsPlain b'.' name → labels name ≡ name ∷ []
labels_plain name h = ap reverse (split_string_plain b'.' name h)

pub labels_cut_none : (name : Bytes) → cut_at_dot name ≡ none → labels name ≡ name ∷ []
labels_cut_none name e = labels_plain name (cut_at_dot-none name e)

-- The text before the first dot is the last label.
pub labels-append :
    (host : Bytes) (c : ℕ) (cs : Bytes)
    → IsPlain b'.' host
    → labels (host ++ (b'.' ∷ c ∷ cs)) ≡ labels (c ∷ cs) ++ (host ∷ [])
labels-append host c cs h =
    ap reverse (split_string_cut b'.' host c cs h) ∙ reverse-cons host (split_string (c ∷ cs) b'.')

-- So it is for every cut of a name that does not end in a dot.
pub labels_cut :
    (name host rest : Bytes)
    → ends_plain b'.' name ≡ true
    → cut_at_dot name ≡ some (host, rest)
    → (labels name ≡ labels rest ++ (host ∷ [])) × (ends_plain b'.' rest ≡ true)
labels_cut name host rest e c =
    let (joins, plain) = cut_at_dot-some name host rest c in
    let tail = ends_plain-tail b'.' host rest (rw joins at e) in
    (rw joins (at_rest rest tail plain), tail)
  where
    at_rest :
        (r : Bytes)
        → ends_plain b'.' r ≡ true
        → IsPlain b'.' host
        → labels (host ++ (b'.' ∷ r)) ≡ labels r ++ (host ∷ [])
    at_rest [] t h = unfold ends_plain in cc
    at_rest (x ∷ r) t h = labels-append host x r h
