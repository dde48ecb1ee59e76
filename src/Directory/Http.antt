-- ===== src/Directory/Http.antt =====
-- The web requests of the directory: httpget, httpput, httppatch and httpdelete of
-- `projectsipdirdomain`. The JSON library is not modelled: a body stands for what the source reads
-- of it, and the document of an answer for what the source writes into it. A handler returns the
-- tree and the answer; `none` is a read through a null pointer.
pub mod Requests
pub mod Deletes
pub mod Runs
use project_mediaswitch.Base.{
  ℕ, ◌-◌, Bool, true, false, not, ◌&&◌, ◌||◌, List, [], ◌∷◌, map, Bytes, Option, none, some, length,
  leb, ltb, ◌==◌, if◌then◌else◌, ◌>>=◌,
}
use project_mediaswitch.Directory.Tree.{
  User, Users, Domain, domain, Subdomains, nil, entry, subdomains, control_host, users, add_user,
  remove_user,
}
use project_mediaswitch.Directory.Domains.{
  Labels, labels, walk, lookup_domain, update_at, add_domain, remove_domain,
}

-- What is under a key of an object: nothing, a value that `as_string` throws at, or a string.
pub data Member : Type 0 where
  missing ill_typed : Member
  string : Bytes → Member

-- An element of the array "users"; `as_object` throws where it is no object.
pub record UserObject : Type 0 where
  pub is_object : Bool
  pub username : Member
  pub secret : Member

-- What the handlers read of a body: the keys "control" and "secret" of the object that it is, and its
-- "users", where `none` is a key that is missing or no array, at which `as_array` throws.
pub record Body : Type 0 where
  pub is_object : Bool
  pub control : Member
  pub user_objects : Option (List UserObject)
  pub secret : Member

-- The status line, and what httpget lists.
pub record Response : Type 0 where
  pub status : ℕ
  pub listed_users : List Bytes
  pub listed_domains : List Bytes
  pub listed_control : Bytes

abbrev pub answer : ℕ → Response
answer code = record { status = code; listed_users = []; listed_domains = []; listed_control = [] }

abbrev pub set_control : Bytes → Domain → Domain
set_control c (domain m old us) = domain m (some c) us

abbrev pub clear_users : Domain → Domain
clear_users (domain m c us) = domain m c []

-- Whether the round for an object throws. An object without both keys is skipped.
abbrev pub throws_at : Member → Member → Bool
throws_at missing secret = false
throws_at ill_typed missing = false
throws_at ill_typed ill_typed = true
throws_at ill_typed (string s) = true
throws_at (string name) missing = false
throws_at (string name) ill_typed = true
throws_at (string name) (string s) = false

abbrev pub throws : UserObject → Bool
throws o = if o.is_object then throws_at o.username o.secret else true

-- One round of the loop over the users of a body.
abbrev pub add_object : Member → Member → Domain → Domain
add_object missing secret d = d
add_object ill_typed secret d = d
add_object (string name) missing d = d
add_object (string name) ill_typed d = d
add_object (string name) (string secret) d = add_user name secret d

-- The loop, which an exception ends: what was added before stays.
unfoldable pub add_objects : List UserObject → Domain → Domain
add_objects [] d = d
add_objects (o ∷ os) d =
    let rest = add_objects os (add_object o.username o.secret d) in if throws o then d else rest

-- Whether the loop comes to its end.
unfoldable pub all_added : List UserObject → Bool
all_added [] = true
all_added (o ∷ os) = not (throws o) && all_added os

-- The loop over what is under "users", where `as_array` may throw first.
abbrev pub listed : Option (List UserObject) → List UserObject
listed none = []
listed (some os) = os

abbrev pub all_listed : Option (List UserObject) → Bool
all_listed none = false
all_listed (some os) = all_added os

-- The element of a path at an index that its size allows.
abbrev pub part : List Bytes → ℕ → Bytes
part [] i = []
part (p ∷ ps) i = if i == 0 then p else part ps (i - 1)

-- An exception of a handler is answered with 500 by its caller in sip/projectsipmain.cpp.
abbrev pub done_or_thrown : Bool → ℕ → Response
done_or_thrown finished code = answer (if finished then code else 500)

-- The write of httppatch for a path of three parts, and for one of two.
abbrev pub patch_user : Member → Domain → Bytes → Bytes → Domain × Response
patch_user missing root name user = (root, answer 400)
patch_user ill_typed root name user = (root, answer 500)
patch_user (string secret) root name user =
    (update_at (labels name) (add_user user secret) root, answer 200)

abbrev pub patch_domain : Member → Option (List UserObject) → Domain → Bytes → Domain × Response
patch_domain missing us root name =
    (update_at (labels name) (add_objects (listed us)) root, done_or_thrown (all_listed us) 200)
patch_domain ill_typed us root name = (root, answer 500)
patch_domain (string c) us root name = (
  update_at (labels name) (λ d. add_objects (listed us) (set_control c d)) root,
  done_or_thrown (all_listed us) 200,
)

-- httppatch
unfoldable pub http_patch : Domain → List Bytes → Body → Domain × Response
unfolding add_objects all_added
http_patch root path body =
    if not (length path == 2) || not (length path == 3)
    then (root, answer 400)
    else elim (lookup_domain root (part path 1)) [
      | none ↦ (root, answer 404)
      | some d ↦
          if not body.is_object
          then (root, answer 500)
          else if length path == 3
          then patch_user body.secret root (part path 1) (part path 2)
          else patch_domain body.control body.user_objects root (part path 1)
    ]

-- What httpput does once the body is an object: the domain is added before "control" is read, and it
-- has its control host and no users before "users" is.
abbrev pub put_at : Member → Option (List UserObject) → Domain → Bytes → Domain × Response
put_at missing us root name = (add_domain root name, answer 500)
put_at ill_typed us root name = (add_domain root name, answer 500)
put_at (string c) us root name = (
  update_at (labels name) (λ d. add_objects (listed us) (clear_users (set_control c d)))
      (add_domain root name),
  done_or_thrown (all_listed us) 201,
)

-- httpput
unfoldable pub http_put : Domain → List Bytes → Body → Domain × Response
unfolding http_patch
http_put root path body =
    if leb (length path) 1
    then (root, answer 400)
    else if length path == 3
    then http_patch root path body
    else if not body.is_object
    then (root, answer 500)
    else put_at body.control body.user_objects root (part path 1)

-- httpdelete for a path of two parts; `removedomain` is called by force.
unfoldable pub delete_domain : Domain → Bytes → Option (Domain × Response)
delete_domain root name =
    remove_domain root name true >>= λ r. some (r.0, answer (if r.1 then 200 else 400))

-- httpdelete; the outer `none` is that of `remove_domain`.
unfoldable pub http_delete : Domain → List Bytes → Option (Domain × Response)
unfolding delete_domain
http_delete root path =
    if length path == 3
    then elim (lookup_domain root (part path 1)) [
      | none ↦ some (root, answer 404)
      | some d ↦
          some (update_at (labels (part path 1)) (remove_user (part path 2)) root, answer 200)
    ]
    else if length path == 2
    then delete_domain root (part path 1)
    else some (root, answer 400)

abbrev pub names : Subdomains → List Bytes
names nil = []
names (entry k d m) = k ∷ names m

-- The document of httpget: `ptr->controlhost->size()` reads through the pointer to the host.
unfoldable pub describe : Domain → Option Response
describe d = control_host d >>= λ c. some (record {
  status = 200;
  listed_users = map (λ e. e.1.username) (users d);
  listed_domains = names (subdomains d);
  listed_control = c;
})

-- httpget
unfoldable pub http_get : Domain → List Bytes → Option Response
unfolding describe
http_get root path =
    elim (if ltb 1 (length path) then lookup_domain root (part path 1) else some root) [
      | none ↦ some (answer 404)
      | some d ↦ describe d
    ]
