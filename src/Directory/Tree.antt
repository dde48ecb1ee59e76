-- ===== src/Directory/Tree.antt =====
-- The objects of the directory: `projectsipdirdomain` with its two `std::unordered_map`s. A map is an
-- association list; the order of its entries means nothing, as iteration over an unordered_map has
-- none. A `shared_ptr` to a domain is that node of the one tree that hangs under `dir`: a write
-- through it is the change of the node at its place.
pub mod Laws
use project_mediaswitch.Base.{
  ℕ, zero, suc, Bool, true, false, List, [], ◌∷◌, Bytes, Option, none, some, bytes_eq,
  if◌then◌else◌,
}

-- projectsipdiruser
pub record User : Type 0 where
  pub username : Bytes
  pub secret : Bytes

-- projectsipdirusers
abbrev pub Users : Type 0
Users = List (Bytes × User)

-- projectsipdirdomain: subdomains, controlhost (a pointer, null at first) and users. The member
-- `domain` of the class is never used.
mutual
  pub data Domain : Type 0 where
    domain : Subdomains → Option Bytes → Users → Domain

  pub data Subdomains : Type 0 where
    nil : Subdomains
    entry : Bytes → Domain → Subdomains → Subdomains

abbrev pub subdomains : Domain → Subdomains
subdomains (domain m c u) = m

abbrev pub control_host : Domain → Option Bytes
control_host (domain m c u) = c

abbrev pub users : Domain → Users
users (domain m c u) = u

-- projectsipdirdomain::create()
abbrev pub new_domain : Domain
new_domain = domain nil none []

-- find, emplace and erase of the map of users
unfoldable pub find_user : Bytes → Users → Option User
find_user k [] = none
find_user k ((j, u) ∷ us) = if bytes_eq j k then some u else find_user k us

unfoldable pub erase_user : Bytes → Users → Users
erase_user k [] = []
erase_user k ((j, u) ∷ us) = if bytes_eq j k then erase_user k us else (j, u) ∷ erase_user k us

-- find, size, erase of the map of domains, and the write of one entry, which is added if it is new
unfoldable pub find_domain : Bytes → Subdomains → Option Domain
find_domain k nil = none
find_domain k (entry j d m) = if bytes_eq j k then some d else find_domain k m

unfoldable pub put_domain : Bytes → Domain → Subdomains → Subdomains
put_domain k d nil = entry k d nil
put_domain k d (entry j e m) = if bytes_eq j k then entry j d m else entry j e (put_domain k d m)

unfoldable pub erase_domain : Bytes → Subdomains → Subdomains
erase_domain k nil = nil
erase_domain k (entry j d m) =
    if bytes_eq j k then erase_domain k m else entry j d (erase_domain k m)

-- `0 == users.size()` and `0 == subdomains.size()`
abbrev pub has_no_users : Domain → Bool
has_no_users (domain m c []) = true
has_no_users (domain m c (u ∷ us)) = false

abbrev pub has_no_subdomains : Domain → Bool
has_no_subdomains (domain nil c u) = true
has_no_subdomains (domain (entry k d m) c u) = false

-- adduser: an entry of that name is erased first.
unfoldable pub add_user : Bytes → Bytes → Domain → Domain
unfolding erase_user
add_user name secret (domain m c us) =
    domain m c ((name, record { username = name; secret = secret }) ∷ erase_user name us)

-- removeuser
unfoldable pub remove_user : Bytes → Domain → Domain
unfolding erase_user
remove_user name (domain m c us) = domain m c (erase_user name us)

-- userexist( std::string &user )
unfoldable pub user_exist_here : Domain → Bytes → Bool
user_exist_here d name = elim (find_user name (users d)) [ none ↦ false | some u ↦ true ]
