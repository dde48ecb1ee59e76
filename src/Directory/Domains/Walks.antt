-- ===== src/Directory/Domains/Walks.antt =====
-- What a lookup finds after a domain was added or written to.
use project_mediaswitch.Base.{
  ◌≡◌, ◌≢◌, refl, sym, ap, ap₂, ◌∙◌, ◌≤◌, [], ◌∷◌, Bytes, Option, none, some, bytes_eq,
  bytes_eq_iff, bytes_eq_refl, length, ltb, if◌then◌else◌, ◌>>=◌, inl, inr, Bool-cases,
  Option-cases, arith,
}
use project_mediaswitch.Text.Split.{split_string}
use project_mediaswitch.Directory.Tree.{
  Users, Domain, domain, Subdomains, subdomains, users, new_domain, find_domain, put_domain,
}
use project_mediaswitch.Directory.Tree.Laws.{find_domain-put_domain}
use project_mediaswitch.Directory.Domains.{
  Labels, labels, walk, lookup_domain, update_at, or_new, add_path, add_domain,
}

-- The users that a lookup finds; none where there is no domain.
abbrev pub users_of : Option Domain → Users
users_of none = []
users_of (some d) = users d

pub find_domain-put_self :
    (k : Bytes) (d : Domain) (m : Subdomains) → find_domain k (put_domain k d m) ≡ some d
find_domain-put_self k d m = ground (arith, find_domain-put_domain k k d m, bytes_eq_refl k)

or_new-walk_new : (ks : Labels) → or_new (walk ks new_domain) ≡ new_domain
unfolding walk find_domain
or_new-walk_new [] = refl
or_new-walk_new (k ∷ ks) = refl

or_new-walk :
    (ks : Labels) (o : Option Domain) → or_new (walk ks (or_new o)) ≡ or_new (o >>= walk ks)
or_new-walk ks none = or_new-walk_new ks
or_new-walk ks (some d) = refl

users_of-walk_new :
    (ks : Labels) (o : Option Domain) → users_of (walk ks (or_new o)) ≡ users_of (o >>= walk ks)
unfolding walk find_domain
users_of-walk_new [] none = refl
users_of-walk_new (k ∷ ks) none = refl
users_of-walk_new ks (some d) = refl

-- A path that was added leads to the domain that was there, or to a new one.
pub walk-add_path : (p : Labels) (d : Domain) → walk p (add_path p d) ≡ some (or_new (walk p d))
unfolding walk add_path
walk-add_path [] d = refl
walk-add_path (k ∷ ks) (domain m c us) =
    rw (find_domain-put_self k (add_path ks (or_new (find_domain k m))) m)
      (walk-add_path ks (or_new (find_domain k m)) ∙ ap some (or_new-walk ks (find_domain k m)))

-- Adding a path changes no users anywhere.
pub users_of-add_path :
    (p q : Labels) (d : Domain) → users_of (walk q (add_path p d)) ≡ users_of (walk q d)
unfolding walk add_path
users_of-add_path [] q d = refl
users_of-add_path (k ∷ ks) [] (domain m c us) = refl
users_of-add_path (k ∷ ks) (j ∷ js) (domain m c us) = elim (Bool-cases (bytes_eq k j)) [
  | inl e ↦ rw (find_domain-put_domain k j (add_path ks (or_new (find_domain k m))) m) (
      rw (← (bytes_eq_iff k j).0 e, bytes_eq_refl k)
        (users_of-add_path ks js (or_new (find_domain k m))
          ∙ users_of-walk_new js (find_domain k m)))
  | inr e ↦ rw (find_domain-put_domain k j (add_path ks (or_new (find_domain k m))) m) (rw e)
]

abbrev pub map_domain : (Domain → Domain) → Option Domain → Option Domain
map_domain f none = none
map_domain f (some d) = some (f d)

-- A write through the pointer to a domain changes what the lookup of its path finds.
pub walk-update_at :
    (p : Labels) (f : Domain → Domain) (d : Domain)
    → walk p (update_at p f d) ≡ map_domain f (walk p d)
unfolding walk update_at
walk-update_at [] f d = refl
walk-update_at (k ∷ ks) f (domain m c us) = elim (Option-cases (find_domain k m)) [
  | inl e ↦ rw (e, update_at) (rw e)
  | inr (d, e) ↦
      rw (e, update_at) (rw (find_domain-put_self k (update_at ks f d) m) (walk-update_at ks f d))
]

-- A write that leaves the subdomains alone changes the users of no other domain.
pub users_of-update_at :
    (p q : Labels) (f : Domain → Domain) (d : Domain)
    → ((e : Domain) → subdomains (f e) ≡ subdomains e)
    → p ≢ q
    → users_of (walk q (update_at p f d)) ≡ users_of (walk q d)
unfolding walk update_at
users_of-update_at [] [] f d keeps ne = absurd (ne refl)
users_of-update_at [] (j ∷ js) f d keeps ne =
    ap (λ m. users_of (find_domain j m >>= walk js)) (keeps d)
users_of-update_at (k ∷ ks) [] f (domain m c us) keeps ne = elim (Option-cases (find_domain k m)) [
  | inl e ↦ rw (e, update_at)
  | inr (d, e) ↦ rw (e, update_at)
]
users_of-update_at (k ∷ ks) (j ∷ js) f (domain m c us) keeps ne =
    elim (Option-cases (find_domain k m)) [
      | inl e ↦ rw (e, update_at)
      | inr (d, e) ↦ elim (Bool-cases (bytes_eq k j)) [
        | inl same ↦
            let at = (bytes_eq_iff k j).0 same in
            rw (e, update_at)
              (rw (find_domain-put_domain k j (update_at ks f d) m) (
                rw (← at, bytes_eq_refl k, e)
                  (users_of-update_at ks js f d keeps (λ t. ne (ap₂ ◌∷◌ at t)))))
        | inr other ↦
            rw (e, update_at) (rw (find_domain-put_domain k j (update_at ks f d) m) (rw other))
      ]
    ]

-- Names of at most five parts are looked up by their path.
pub lookup_domain-walk :
    (root : Domain) (name : Bytes)
    → length (split_string name b'.') ≤ 5
    → lookup_domain root name ≡ walk (labels name) root
unfolding lookup_domain
lookup_domain-walk root name h = ground arith

-- A domain that was added is found under its name, with what it held before if it was there, and
-- new otherwise, provided that the name has at most five parts; with more parts `lookupdomain`
-- never finds it. No domain loses or gains a user by it.
pub lookup_domain-add_domain :
    (root : Domain) (name other : Bytes)
    → (lookup_domain (add_domain root name) name ≡ (
        if ltb 5 (length (split_string name b'.'))
        then none
        else some (or_new (lookup_domain root name))))
      × (users_of (lookup_domain (add_domain root name) other)
          ≡ users_of (lookup_domain root other))
unfolding add_domain
lookup_domain-add_domain root name other = (
  elim (Bool-cases (ltb 5 (length (split_string name b'.')))) [
    | inl long ↦ unfold lookup_domain in rw long
    | inr short ↦ rw short (
        lookup_domain-walk (add_path (labels name) root) name (ground arith)
        ∙ walk-add_path (labels name) root
        ∙ ap (λ o. some (or_new o)) (sym (lookup_domain-walk root name (ground arith))))
  ],
  elim (Bool-cases (ltb 5 (length (split_string other b'.')))) [
    | inl long ↦ unfold lookup_domain in rw long
    | inr short ↦
        unfold lookup_domain in rw short (users_of-add_path (labels name) (labels other) root)
  ],
)
