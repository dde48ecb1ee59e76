-- ===== src/Directory/Tree/Laws.antt =====
-- The maps of the directory, by their lookups.
use project_mediaswitch.Base.{
  ◌≡◌, refl, [], ◌∷◌, Bytes, none, some, bytes_eq, bytes_eq_iff, if◌then◌else◌, arith,
}
use project_mediaswitch.Directory.Tree.{
  Users, Domain, domain, Subdomains, nil, entry, find_user, erase_user, find_domain, put_domain,
  erase_domain, users, add_user, remove_user,
}

pub find_user-erase_user :
    (k j : Bytes) (us : Users)
    → find_user j (erase_user k us) ≡ (if bytes_eq k j then none else find_user j us)
unfolding find_user erase_user
find_user-erase_user k j [] = ground arith
find_user-erase_user k j ((i, u) ∷ us) =
    ground
      (arith, bytes_eq_iff i k, bytes_eq_iff k j, bytes_eq_iff i j, find_user-erase_user k j us)

pub find_user-add_user :
    (k secret j : Bytes) (d : Domain)
    → find_user j (users (add_user k secret d)) ≡ (
        if bytes_eq k j
        then some (record { username = k; secret = secret })
        else find_user j (users d))
unfolding find_user add_user
find_user-add_user k secret j (domain m c us) = ground (arith, find_user-erase_user k j us)

pub find_user-remove_user :
    (k j : Bytes) (d : Domain)
    → find_user j (users (remove_user k d)) ≡ (if bytes_eq k j then none else find_user j (users d))
unfolding remove_user
find_user-remove_user k j (domain m c us) = find_user-erase_user k j us

pub find_domain-put_domain :
    (k j : Bytes) (d : Domain) (m : Subdomains)
    → find_domain j (put_domain k d m) ≡ (if bytes_eq k j then some d else find_domain j m)
unfolding find_domain put_domain
find_domain-put_domain k j d nil = refl
find_domain-put_domain k j d (entry i e m) =
    ground
      (arith, bytes_eq_iff i k, bytes_eq_iff k j, bytes_eq_iff i j, find_domain-put_domain k j d m)

pub find_domain-erase_domain :
    (k j : Bytes) (m : Subdomains)
    → find_domain j (erase_domain k m) ≡ (if bytes_eq k j then none else find_domain j m)
unfolding find_domain erase_domain
find_domain-erase_domain k j nil = ground arith
find_domain-erase_domain k j (entry i e m) =
    ground
      (arith, bytes_eq_iff i k, bytes_eq_iff k j, bytes_eq_iff i j, find_domain-erase_domain k j m)
