-- ===== src/Directory/Domains.antt =====
-- The operations of `projectsipdirdomain` on the tree under `dir`, here `root`: lookupdomain,
-- adddomain, removedomain, userexist and lookuppassword. A path is the labels of a name, from the
-- top-level one down; `none` as a domain is the null pointer.
pub mod Walks
pub mod Names
pub mod Removal
pub mod Tidy
pub mod Spared
use mathlib.Core.List.{reverse}
use project_mediaswitch.Base.{
  ℕ, zero, suc, Bool, true, false, ◌&&◌, ◌||◌, List, [], ◌∷◌, Bytes, Option, none, some, length,
  ltb, ◌==◌, if◌then◌else◌, ◌>>=◌,
}
use project_mediaswitch.Text.Split.{split_string}
use project_mediaswitch.Text.Substring.{Substring, str}
use project_mediaswitch.Text.Substring.Find.{mvend_first_of_char}
use project_mediaswitch.Directory.Tree.{
  User, Domain, domain, Subdomains, subdomains, users, new_domain, find_user, find_domain,
  put_domain, erase_domain, has_no_users, has_no_subdomains,
}

abbrev pub Labels : Type 0
Labels = List Bytes

-- The order in which the loops take the parts of a name: the last one first.
abbrev pub labels : Bytes → Labels
labels name = reverse (split_string name b'.')

-- The loop of lookupdomain.
unfoldable pub walk : Labels → Domain → Option Domain
walk [] d = some d
walk (k ∷ ks) d = find_domain k (subdomains d) >>= walk ks

-- lookupdomain( std::string & ): a name of more than five parts is not looked for.
unfoldable pub lookup_domain : Domain → Bytes → Option Domain
unfolding walk
lookup_domain root name =
    if ltb 5 (length (split_string name b'.')) then none else walk (labels name) root

-- lookupdomain( substring ): a port behind the name is cut off. The outer `none` is a null buffer.
unfoldable pub lookup_domain_sub : Domain → Substring → Option (Option Domain)
unfolding lookup_domain
lookup_domain_sub root name =
    mvend_first_of_char name b':' >>= λ t. some (lookup_domain root (str t))

-- A write through the pointer to the domain at a path.
unfoldable pub update_at : Labels → (Domain → Domain) → Domain → Domain
update_at [] f d = f d
update_at (k ∷ ks) f (domain m c us) = elim (find_domain k m) [
  | none ↦ domain m c us
  | some d ↦ domain (put_domain k (update_at ks f d) m) c us
]

abbrev pub or_new : Option Domain → Domain
or_new none = new_domain
or_new (some d) = d

-- The loop of adddomain: each part that is missing is created.
unfoldable pub add_path : Labels → Domain → Domain
add_path [] d = d
add_path (k ∷ ks) (domain m c us) =
    domain (put_domain k (add_path ks (or_new (find_domain k m))) m) c us

-- adddomain: the pointer that it returns is that to the path `labels name`.
unfoldable pub add_domain : Domain → Bytes → Domain
unfolding add_path
add_domain root name = add_path (labels name) root

-- userexist( std::string &, std::string & )
unfoldable pub user_exist : Domain → Bytes → Bytes → Bool
user_exist root name user = elim (lookup_domain root name >>= λ d. find_user user (users d)) [
  | none ↦ false
  | some u ↦ true
]

abbrev pub secret_of : Option User → Option Bytes
secret_of none = none
secret_of (some u) = some u.secret

-- lookuppassword( std::string &, std::string & )
unfoldable pub lookup_password : Domain → Bytes → Bytes → Option Bytes
lookup_password root name user =
    lookup_domain root name >>= λ d. secret_of (find_user user (users d))

-- lookuppassword( substring, substring ); the outer `none` is a null buffer.
unfoldable pub lookup_password_sub : Domain → Substring → Substring → Option (Option Bytes)
lookup_password_sub root name user = lookup_domain_sub root name >>= λ ref.
    some (ref >>= λ d. secret_of (find_user (str user) (users d)))

-- `domain.find( '.' )` with both `substr`s: the text before the first dot, and that behind it.
unfoldable pub cut_at_dot : Bytes → Option (Bytes × Bytes)
cut_at_dot [] = none
cut_at_dot (c ∷ cs) =
    let further = cut_at_dot cs >>= λ p. some (c ∷ p.0, p.1) in
    if c == b'.' then some ([], cs) else further

unfoldable pub erase_child : Bytes → Domain → Domain
erase_child k (domain m c us) = domain (erase_domain k m) c us

-- The branch of removedomain for a name with no dot.
unfoldable pub remove_top : Domain → Bytes → Bool → Domain × Bool
unfolding erase_child
remove_top root name force = elim (find_domain name (subdomains root)) [
  | none ↦ (root, false)
  | some d ↦
      if force || (has_no_users d || has_no_subdomains d)
      then (erase_child name root, true)
      else (root, false)
]

-- removedomain with fuel; `none` means that the fuel ran out. What the inner call returns is not
-- looked at.
unfoldable pub remove_loop : ℕ → Domain → Bytes → Bool → Option (Domain × Bool)
unfolding remove_top erase_child
remove_loop zero root name force = none
remove_loop (suc fuel) root name force = elim (cut_at_dot name) [
  | none ↦ some (remove_top root name force)
  | some (host, rest) ↦ elim (lookup_domain root rest) [
    | none ↦ some (root, false)
    | some p ↦ elim (find_domain host (subdomains p)) [
      | none ↦ some (root, false)
      | some d ↦
          let tidied =
            remove_loop fuel (update_at (labels rest) (erase_child host) root) rest false in
          let removed : Option (Domain × Bool) = tidied >>= λ r. some (r.0, true) in
          if force || (has_no_users d && has_no_subdomains d) then removed else some (root, false)
    ]
  ]
]

-- removedomain: each inner call has a shorter name.
unfoldable pub remove_domain : Domain → Bytes → Bool → Option (Domain × Bool)
unfolding remove_loop
remove_domain root name force = remove_loop (suc (length name)) root name force
