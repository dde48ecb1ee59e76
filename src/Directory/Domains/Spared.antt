-- ===== src/Directory/Domains/Spared.antt =====
-- The tidying up of `removedomain` after the entry itself is erased.
use project_mediaswitch.Base.{
  ℕ, suc, ◌+◌, ◌≡◌, refl, sym, ap, ◌∙◌, Bool, true, false, ◌&&◌, ◌||◌, [], ◌∷◌, ◌++◌, Bytes, none,
  some, bytes_eq_refl, length, length-append, ◌>>=◌, inl, inr, Option-cases, arith,
}
use project_mediaswitch.Text.Split.Parts.{IsPlain}
use project_mediaswitch.Directory.Tree.{
  Domain, domain, subdomains, find_domain, has_no_users, has_no_subdomains,
}
use project_mediaswitch.Directory.Tree.Laws.{find_domain-erase_domain}
use project_mediaswitch.Directory.Domains.Walks.{map_domain, walk-update_at}
use project_mediaswitch.Directory.Domains.Names.{
  cut_at_dot_plain, cut_at_dot-append, labels_plain, labels-append,
}
use project_mediaswitch.Directory.Domains.Removal.{walk-append, remove_loop_erases}
use project_mediaswitch.Directory.Domains.{
  Labels, labels, walk, lookup_domain, update_at, cut_at_dot, erase_child, remove_top, remove_loop,
  remove_domain,
}

abbrev is_empty : Domain → Bool
is_empty d = has_no_users d && has_no_subdomains d

-- A call that tidies up stops at a domain that is not empty.
remove_loop_stops :
    (fuel : ℕ) (root : Domain) (mid rest : Bytes) (name : Bytes) {d : Domain}
    → cut_at_dot name ≡ some (mid, rest)
    → (walk (labels rest) root >>= walk (mid ∷ [])) ≡ some d
    → is_empty d ≡ false
    → remove_loop (suc fuel) root name false ≡ some (root, false)
unfolding remove_loop
remove_loop_stops fuel root mid rest name c w full = elim (Option-cases (lookup_domain root rest)) [
  | inl l ↦ rw (c, remove_loop) (rw l)
  | inr (p, l) ↦ elim (Option-cases (find_domain mid (subdomains p))) [
    | inl f ↦ rw (c, remove_loop) (rw (l) (rw f))
    | inr (e, f) ↦
        rw (c, remove_loop)
          (rw (l) (
            rw (f) (
              let stays : (has_no_users e && has_no_subdomains e) ≡ false = found l f in rw stays)))
  ]
]
  where
    found :
        {p e : Domain}
        → lookup_domain root rest ≡ some p
        → find_domain mid (subdomains p) ≡ some e
        → is_empty e ≡ false
    found {p} {e} l f = unfold lookup_domain walk in ground (arith, l, f, w, full)

-- Removing a domain whose parent has a name of two labels or more, and is not empty without it, erases
-- that one entry and changes nothing else.
pub remove_domain_spares :
    (root : Domain) (host mid : Bytes) (c : ℕ) (cs : Bytes) (p d : Domain)
    → IsPlain b'.' host
    → IsPlain b'.' mid
    → lookup_domain root (mid ++ (b'.' ∷ c ∷ cs)) ≡ some p
    → find_domain host (subdomains p) ≡ some d
    → (has_no_users (erase_child host p) && has_no_subdomains (erase_child host p)) ≡ false
    → remove_domain root (host ++ (b'.' ∷ (mid ++ (b'.' ∷ c ∷ cs)))) true
      ≡ some (update_at (labels (mid ++ (b'.' ∷ c ∷ cs))) (erase_child host) root, true)
unfolding remove_domain
remove_domain_spares root host mid c cs p d plain_host plain_mid found here full =
    remove_loop_erases (length name) root name true (cut_at_dot-append host parent plain_host) found
      here refl
    ∙ ap (λ o. o >>= λ r. some (r.0, true))
        (ap (λ n. remove_loop n root' parent false) longer ∙ stops)
  where
    parent : Bytes
    parent = mid ++ (b'.' ∷ c ∷ cs)

    name : Bytes
    name = host ++ (b'.' ∷ parent)

    root' : Domain
    root' = update_at (labels parent) (erase_child host) root

    longer : length name ≡ suc (length host + length parent)
    longer = omega (arith, length-append host (b'.' ∷ parent))

    at_parent : walk (labels parent) root ≡ some p
    at_parent = unfold lookup_domain in ground (arith, found)

    kept : (walk (labels (c ∷ cs)) root' >>= walk (mid ∷ [])) ≡ some (erase_child host p)
    kept =
        sym (walk-append (labels (c ∷ cs)) (mid ∷ []) root')
        ∙ ap (λ l. walk l root') (sym (labels-append mid c cs plain_mid))
        ∙ walk-update_at (labels parent) (erase_child host) root
        ∙ ap (map_domain (erase_child host)) at_parent

    stops : remove_loop (suc (length host + length parent)) root' parent false ≡ some (root', false)
    stops =
        remove_loop_stops (length host + length parent) root' mid (c ∷ cs) parent
          (cut_at_dot-append mid (c ∷ cs) plain_mid) kept full

has_no_users-erase_child :
    (h : Bytes) (p : Domain) → has_no_users (erase_child h p) ≡ has_no_users p
unfolding erase_child
has_no_users-erase_child h (domain m c []) = refl
has_no_users-erase_child h (domain m c (u ∷ us)) = refl

-- At the top level the test of the tidying up is "no users or no subdomains". So removing a domain
-- right under a top-level one takes that one away too, with all that is below it, where it has no
-- users itself, whatever other subdomains it has, and with its users where no other subdomain is
-- left.
pub remove_domain_takes_top :
    (root : Domain) (host : Bytes) (c : ℕ) (cs : Bytes) (p d : Domain) (below : Labels)
    → IsPlain b'.' host
    → IsPlain b'.' (c ∷ cs)
    → lookup_domain root (c ∷ cs) ≡ some p
    → find_domain host (subdomains p) ≡ some d
    → (has_no_users p || has_no_subdomains (erase_child host p)) ≡ true
    → (root' : Domain) × (remove_domain root (host ++ (b'.' ∷ c ∷ cs)) true ≡ some (root', true))
      × (walk ((c ∷ cs) ∷ below) root' ≡ none)
unfolding remove_domain
remove_domain_takes_top root host c cs p d below plain_host plain_top found here bare = (
  erase_child (c ∷ cs) root',
  remove_loop_erases (length (host ++ (b'.' ∷ c ∷ cs))) root (host ++ (b'.' ∷ c ∷ cs)) true
        (cut_at_dot-append host (c ∷ cs) plain_host) found here refl
      ∙ ap (λ o. o >>= λ r. some (r.0, true))
          (ap (λ n. remove_loop n root' (c ∷ cs) false) longer ∙ topmost),
  gone root',
)
  where
    root' : Domain
    root' = update_at (labels (c ∷ cs)) (erase_child host) root

    longer : length (host ++ (b'.' ∷ c ∷ cs)) ≡ suc (length host + length (c ∷ cs))
    longer = omega (arith, length-append host (b'.' ∷ c ∷ cs))

    at_top : walk (labels (c ∷ cs)) root ≡ some p
    at_top = unfold lookup_domain in ground (arith, found)

    kept : walk ((c ∷ cs) ∷ []) root' ≡ some (erase_child host p)
    kept =
        ap (λ l. walk l root') (sym (labels_plain (c ∷ cs) plain_top))
        ∙ walk-update_at (labels (c ∷ cs)) (erase_child host) root
        ∙ ap (map_domain (erase_child host)) at_top

    child : find_domain (c ∷ cs) (subdomains root') ≡ some (erase_child host p)
    child = unfold walk in ground (arith, kept)

    taken : remove_top root' (c ∷ cs) false ≡ (erase_child (c ∷ cs) root', true)
    taken =
        let test : (has_no_users (erase_child host p) || has_no_subdomains (erase_child host p))
            ≡ true =
          rw (has_no_users-erase_child host p) bare in
        unfold remove_top in rw (child, remove_top) (rw test)

    topmost :
        remove_loop (suc (length host + length (c ∷ cs))) root' (c ∷ cs) false
        ≡ some (erase_child (c ∷ cs) root', true)
    topmost =
        unfold remove_loop in rw (cut_at_dot_plain (c ∷ cs) plain_top, remove_loop) (ap some taken)

    gone : (r : Domain) → walk ((c ∷ cs) ∷ below) (erase_child (c ∷ cs) r) ≡ none
    gone (domain m k us) =
        unfold walk erase_child in
        rw (find_domain-erase_domain (c ∷ cs) (c ∷ cs) m) (rw (bytes_eq_refl (c ∷ cs)))
