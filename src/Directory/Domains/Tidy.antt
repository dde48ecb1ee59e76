-- ===== src/Directory/Domains/Tidy.antt =====
-- `removedomain` as a whole: its end, its result and the lookup after it.
use project_mediaswitch.Base.{
  ℕ, zero, suc, ◌<◌, ◌≡◌, refl, ap, Bool, true, false, ◌&&◌, ◌||◌, [], ◌∷◌, Bytes, none, some,
  length, length-append, inl, inr, Bool-cases, Option-cases, arith,
}
use project_mediaswitch.Text.Split.RoundTrip.{ends_plain}
use project_mediaswitch.Directory.Tree.{
  Domain, subdomains, find_domain, has_no_users, has_no_subdomains,
}
use project_mediaswitch.Directory.Domains.Names.{cut_at_dot-some, labels_cut_none, labels_cut}
use project_mediaswitch.Directory.Domains.Removal.{
  walk-erased, walk-erase_child, remove_loop_cases, remove_loop-none,
}
use project_mediaswitch.Directory.Domains.{
  labels, walk, lookup_domain, update_at, cut_at_dot, erase_child, remove_top, remove_loop,
  remove_domain,
}

-- The rest of a name behind its first dot is shorter than the name.
length-cut_at_dot :
    (name host rest : Bytes) → cut_at_dot name ≡ some (host, rest) → length rest < length name
length-cut_at_dot name host rest e =
    let (joins, _) = cut_at_dot-some name host rest e in
    omega (arith, ap length joins, length-append host (b'.' ∷ rest))

remove_loop_total :
    (fuel : ℕ) (root : Domain) (name : Bytes) (force : Bool)
    → length name < fuel
    → (r : Domain × Bool) × (remove_loop fuel root name force ≡ some r)
unfolding remove_loop
remove_loop_total zero root name force h = absurd (omega arith)
remove_loop_total (suc fuel) root name force h = elim (Option-cases (cut_at_dot name)) [
  | inl c ↦ (remove_top root name force, rw (c, remove_loop))
  | inr ((host, rest), c) ↦
      let (r, inner) =
        remove_loop_total fuel (update_at (labels rest) (erase_child host) root) rest false
          (omega (arith, length-cut_at_dot name host rest c)) in
      elim (Option-cases (lookup_domain root rest)) [
        | inl l ↦ ((root, false), rw (c, remove_loop) (rw l))
        | inr (p, l) ↦ elim (Option-cases (find_domain host (subdomains p))) [
          | inl f ↦ ((root, false), rw (c, remove_loop) (rw (l) (rw f)))
          | inr (d, f) ↦ elim (Bool-cases (force || (has_no_users d && has_no_subdomains d))) [
            | inl go ↦ ((r.0, true), rw (c, remove_loop) (rw (l) (rw (f) (rw (go) (rw inner)))))
            | inr stay ↦ ((root, false), rw (c, remove_loop) (rw (l) (rw (f) (rw stay))))
          ]
        ]
      ]
]

-- `removedomain` ends for every tree and every name, with a result.
pub remove_domain_total :
    (root : Domain) (name : Bytes) (force : Bool)
    → (r : Domain × Bool) × (remove_domain root name force ≡ some r)
unfolding remove_domain
remove_domain_total root name force =
    remove_loop_total (suc (length name)) root name force (omega arith)

abbrev GoneIfDone : Bytes → Domain × Bool → Type 0
GoneIfDone name x = x.1 ≡ true → walk (labels name) x.0 ≡ none

remove_top-gone :
    (root : Domain) (name : Bytes) (force : Bool)
    → (remove_top root name force).1 ≡ true
    → walk (name ∷ []) (remove_top root name force).0 ≡ none
unfolding remove_top
remove_top-gone root name force h = ground (arith, h, walk-erase_child name root)

-- Where `removedomain` says that it removed a domain, a name that does not end in a dot is not
-- found any more.
pub lookup_domain-remove_domain :
    (root : Domain) (name : Bytes) (force : Bool) (root' : Domain)
    → ends_plain b'.' name ≡ true
    → remove_domain root name force ≡ some (root', true)
    → lookup_domain root' name ≡ none
unfolding remove_domain lookup_domain
lookup_domain-remove_domain root name force root' plain e = ground (arith, gone)
  where
    gone : walk (labels name) root' ≡ none
    gone =
        remove_loop_cases (GoneIfDone name) (length name) root name force (root', true) e (λ h. cc)
          (λ c h. rw (labels_cut_none name c) (remove_top-gone root name force h))
          (λ host rest r' c e' h. rw ((labels_cut name host rest plain c).0) (
            remove_loop-none (length name) _ _ rest false r' e'
              (walk-erased (labels rest) host root)))
          refl

-- Where it says that it removed nothing, the tree is as it was.
pub remove_domain_refused :
    (root : Domain) (name : Bytes) (force : Bool) (root' : Domain)
    → remove_domain root name force ≡ some (root', false)
    → root' ≡ root
unfolding remove_domain
remove_domain_refused root name force root' e =
    remove_loop_cases (λ x. x.1 ≡ false → x.0 ≡ root) (length name) root name force (root', false) e
      (λ h. refl) (λ c h. unfold remove_top in ground (arith, h)) (λ host rest r' c e' h. cc) refl
