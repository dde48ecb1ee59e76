-- ===== src/Directory/Domains/Removal.antt =====
-- What `removedomain` takes out of the tree.
use mathlib.Core.Path.{subst}
use project_mediaswitch.Base.{
  ℕ, zero, suc, ◌≡◌, refl, sym, ap, ◌∙◌, Bool, true, false, ◌&&◌, ◌||◌, [], ◌∷◌, ◌++◌, Bytes,
  Option, none, some, bytes_eq, bytes_eq_iff, bytes_eq_refl, ◌>>=◌, inl, inr, Bool-cases,
  Option-cases, arith,
}
use project_mediaswitch.Directory.Tree.{
  Domain, domain, subdomains, find_domain, has_no_users, has_no_subdomains,
}
use project_mediaswitch.Directory.Tree.Laws.{find_domain-put_domain, find_domain-erase_domain}
use project_mediaswitch.Directory.Domains.Walks.{map_domain, walk-update_at}
use project_mediaswitch.Directory.Domains.{
  Labels, labels, walk, lookup_domain, update_at, cut_at_dot, erase_child, remove_top, remove_loop,
}

pub walk-append : (p q : Labels) (d : Domain) → walk (p ++ q) d ≡ (walk p d >>= walk q)
unfolding walk
walk-append [] q d = refl
walk-append (k ∷ p) q d = elim (Option-cases (find_domain k (subdomains d))) [
  | inl e ↦ rw e
  | inr (c, e) ↦ rw e (walk-append p q c)
]

pub walk-erase_child : (h : Bytes) (d : Domain) → walk (h ∷ []) (erase_child h d) ≡ none
unfolding walk erase_child
walk-erase_child h (domain m c us) = rw (find_domain-erase_domain h h m, bytes_eq_refl h)

-- Behind an erased entry nothing is found.
pub walk-erased :
    (p : Labels) (h : Bytes) (d : Domain)
    → walk (p ++ (h ∷ [])) (update_at p (erase_child h) d) ≡ none
walk-erased p h d =
    walk-append p (h ∷ []) (update_at p (erase_child h) d)
    ∙ ap (λ o. o >>= walk (h ∷ [])) (walk-update_at p (erase_child h) d)
    ∙ gone (walk p d)
  where
    gone : (o : Option Domain) → (map_domain (erase_child h) o >>= walk (h ∷ [])) ≡ none
    gone none = refl
    gone (some e) = walk-erase_child h e

-- Erasing an entry makes no path lead anywhere that led nowhere.
erase_child-none :
    (p q : Labels) (h : Bytes) (d : Domain)
    → walk q d ≡ none
    → walk q (update_at p (erase_child h) d) ≡ none
unfolding walk update_at erase_child
erase_child-none p [] h d n = cc
erase_child-none [] (j ∷ js) h (domain m c us) n =
    rw (find_domain-erase_domain h j m)
      (elim (Bool-cases (bytes_eq h j)) [ inl e ↦ rw e | inr e ↦ rw e n ])
erase_child-none (k ∷ ks) (j ∷ js) h (domain m c us) n = elim (Option-cases (find_domain k m)) [
  | inl e ↦ rw (e, update_at) n
  | inr (d, e) ↦
      rw (e, update_at)
        (rw (find_domain-put_domain k j (update_at ks (erase_child h) d) m)
          (elim (Bool-cases (bytes_eq k j)) [
            | inl same ↦
                rw same (erase_child-none ks js h d (rw (← (bytes_eq_iff k j).0 same, e) at n))
            | inr other ↦ rw other n
          ]))
]

erase_child-none_here :
    (q : Labels) (h : Bytes) (d : Domain) → walk q d ≡ none → walk q (erase_child h d) ≡ none
unfolding update_at
erase_child-none_here q h d n = erase_child-none [] q h d n

pub same_result {ℓ} : {A : Type ℓ} {a b : A} → some a ≡ some b → a ≡ b
same_result e = cc

-- One call that erases the entry `host` and goes on to tidy up the parent.
pub remove_loop_erases :
    (fuel : ℕ) (root : Domain) (name : Bytes) (force : Bool) {host rest : Bytes} {p d : Domain}
    → cut_at_dot name ≡ some (host, rest)
    → lookup_domain root rest ≡ some p
    → find_domain host (subdomains p) ≡ some d
    → (force || (has_no_users d && has_no_subdomains d)) ≡ true
    → remove_loop (suc fuel) root name force ≡ (
        remove_loop fuel (update_at (labels rest) (erase_child host) root) rest false >>= λ r.
        some (r.0, true))
unfolding remove_loop
remove_loop_erases fuel root name force c l f go = rw (c, remove_loop) (rw (l) (rw (f) (rw go)))

inner_result :
    (o : Option (Domain × Bool)) (r : Domain × Bool)
    → (o >>= λ x. some (x.0, true)) ≡ some r
    → (r' : Domain × Bool) × (o ≡ some r') × ((r'.0, true) ≡ r)
inner_result none r e = cc
inner_result (some r') r e = (r', refl, same_result e)

-- The cases of one call of removedomain, for a property of its result.
pub remove_loop_cases {ℓ} :
    (P : Domain × Bool → Type ℓ) (fuel : ℕ) (root : Domain) (name : Bytes) (force : Bool)
    (r : Domain × Bool)
    → remove_loop (suc fuel) root name force ≡ some r
    → P (root, false)
    → (cut_at_dot name ≡ none → P (remove_top root name force))
    → ((host rest : Bytes) (r' : Domain × Bool)
        → cut_at_dot name ≡ some (host, rest)
        → remove_loop fuel (update_at (labels rest) (erase_child host) root) rest false ≡ some r'
        → P (r'.0, true))
    → P r
unfolding remove_loop
remove_loop_cases P fuel root name force r e refused top inner =
    elim (Option-cases (cut_at_dot name)) [
      | inl c ↦ subst P (same_result (sym (rw (c, remove_loop)) ∙ e)) (top c)
      | inr ((host, rest), c) ↦ elim (Option-cases (lookup_domain root rest)) [
        | inl l ↦ subst P (same_result (sym (rw (c, remove_loop) (rw l)) ∙ e)) refused
        | inr (p, l) ↦ elim (Option-cases (find_domain host (subdomains p))) [
          | inl f ↦ subst P (same_result (sym (rw (c, remove_loop) (rw (l) (rw f))) ∙ e)) refused
          | inr (d, f) ↦ elim (Bool-cases (force || (has_no_users d && has_no_subdomains d))) [
            | inl go ↦
                let (r', q, same) =
                  inner_result _ r (sym (remove_loop_erases fuel root name force c l f go) ∙ e) in
                subst P same (inner host rest r' c q)
            | inr stay ↦
                subst P (same_result (sym (rw (c, remove_loop) (rw (l) (rw (f) (rw stay)))) ∙ e))
                  refused
          ]
        ]
      ]
    ]

remove_top-none :
    (q : Labels) (root : Domain) (name : Bytes) (force : Bool)
    → walk q root ≡ none
    → walk q (remove_top root name force).0 ≡ none
unfolding remove_top
remove_top-none q root name force n = ground (arith, n, erase_child-none_here q name root n)

-- Removal makes no path lead anywhere that led nowhere.
pub remove_loop-none :
    (fuel : ℕ) (q : Labels) (root : Domain) (name : Bytes) (force : Bool) (r : Domain × Bool)
    → remove_loop fuel root name force ≡ some r
    → walk q root ≡ none
    → walk q r.0 ≡ none
remove_loop-none zero q root name force r e n = unfold remove_loop in cc
remove_loop-none (suc fuel) q root name force r e n =
    remove_loop_cases (λ x. walk q x.0 ≡ none) fuel root name force r e n
      (λ c. remove_top-none q root name force n)
      (λ host rest r' c e'.
        remove_loop-none fuel q _ rest false r' e' (erase_child-none (labels rest) q host root n))
