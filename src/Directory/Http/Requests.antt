-- ===== src/Directory/Http/Requests.antt =====
-- What the web requests do to the passwords of the directory.
use mathlib.Core.Path.{subst}
use project_mediaswitch.Base.{
  inl, inr, Bool-cases, not, ◌&&◌, ◌≤◌, ◌≡◌, ◌≢◌, refl, sym, ap, ◌∙◌, Bool, true, false, List, [],
  ◌∷◌, Bytes, Option, none, some, bytes_eq, length, if◌then◌else◌, ◌>>=◌, arith,
}
use project_mediaswitch.Text.Split.{split_string}
use project_mediaswitch.Directory.Tree.{
  Users, Domain, domain, subdomains, users, find_user, add_user,
}
use project_mediaswitch.Directory.Tree.Laws.{find_user-add_user}
use project_mediaswitch.Directory.Domains.Walks.{
  users_of, map_domain, walk-add_path, walk-update_at, users_of-add_path, users_of-update_at,
  lookup_domain-walk,
}
use project_mediaswitch.Directory.Domains.{
  labels, walk, or_new, add_path, add_domain, user_exist, secret_of, lookup_password,
}
use project_mediaswitch.Directory.Http.{
  Member, missing, ill_typed, string, UserObject, Body, Response, answer, set_control, clear_users,
  throws, add_object, add_objects, listed, all_listed, put_at, http_patch, http_put,
}

-- The password of a user among users.
abbrev pub password_in : Bytes → Users → Option Bytes
password_in user us = secret_of (find_user user us)

-- A password is looked up among the users of the domain that is found.
pub lookup_password-users_of :
    (root : Domain) (name user : Bytes)
    → length (split_string name b'.') ≤ 5
    → lookup_password root name user ≡ password_in user (users_of (walk (labels name) root))
unfolding lookup_password
lookup_password-users_of root name user h =
    rw (lookup_domain-walk root name h) (at (walk (labels name) root))
  where
    at :
        (o : Option Domain)
        → (o >>= λ d. secret_of (find_user user (users d))) ≡ password_in user (users_of o)
    at none = unfold find_user in refl
    at (some d) = refl

-- A user exists exactly where the lookup of the password finds one.
pub user_exist-lookup_password :
    (root : Domain) (name user : Bytes)
    → user_exist root name user
      ≡ elim (lookup_password root name user) as (λ _. Bool) [ none ↦ false | some secret ↦ true ]
unfolding user_exist lookup_password
user_exist-lookup_password root name user = ground arith

-- The guard of httppatch asks that the path has neither length 2 or not 3, which holds for every
-- path: each patch, and each put of a path of three parts, is answered by 400 and changes nothing.
pub http_patch_refuses :
    (root : Domain) (path : List Bytes) (dir name user : Bytes) (body : Body)
    → (http_patch root path body ≡ (root, answer 400))
      × (http_put root (dir ∷ name ∷ user ∷ []) body ≡ (root, answer 400))
unfolding http_put
http_patch_refuses root path dir name user body = (ground arith, refl)

-- What an object says of the secret of a user.
abbrev pub secret_for : Bytes → Member → Member → Option Bytes
secret_for user (string name) (string secret) = if bytes_eq name user then some secret else none
secret_for user (string name) missing = none
secret_for user (string name) ill_typed = none
secret_for user missing secret = none
secret_for user ill_typed secret = none

abbrev pub or_else : Option Bytes → Option Bytes → Option Bytes
or_else none b = b
or_else (some a) b = some a

-- The secret of the last object that names a user and has a secret, of those in front of the first
-- object that is not as it should be.
pub last_secret : Bytes → List UserObject → Option Bytes
last_secret user [] = none
last_secret user (o ∷ os) =
    let rest = or_else (last_secret user os) (secret_for user o.username o.secret) in
    if throws o then none else rest

password_in-add_object :
    (user : Bytes) (name secret : Member) (d : Domain)
    → password_in user (users (add_object name secret d))
      ≡ or_else (secret_for user name secret) (password_in user (users d))
password_in-add_object user missing secret d = refl
password_in-add_object user ill_typed secret d = refl
password_in-add_object user (string name) missing d = refl
password_in-add_object user (string name) ill_typed d = refl
password_in-add_object user (string name) (string secret) d =
    ground (arith, find_user-add_user name secret user d)

or_else_assoc : (a b c : Option Bytes) → or_else a (or_else b c) ≡ or_else (or_else a b) c
or_else_assoc none b c = refl
or_else_assoc (some a) b c = refl

password_in-add_objects :
    (user : Bytes) (os : List UserObject) (d : Domain)
    → password_in user (users (add_objects os d))
      ≡ or_else (last_secret user os) (password_in user (users d))
unfolding add_objects last_secret
password_in-add_objects user [] d = refl
password_in-add_objects user (o ∷ os) d = elim (Bool-cases (throws o)) [
  | inl bad ↦ rw (bad) refl
  | inr good ↦ rw (good) (
      password_in-add_objects user os (add_object o.username o.secret d)
      ∙ ap (or_else (last_secret user os)) (password_in-add_object user o.username o.secret d)
      ∙ or_else_assoc (last_secret user os) (secret_for user o.username o.secret)
          (password_in user (users d)))
]

add_object-subdomains :
    (name secret : Member) (d : Domain) → subdomains (add_object name secret d) ≡ subdomains d
unfolding add_user
add_object-subdomains missing secret d = refl
add_object-subdomains ill_typed secret d = refl
add_object-subdomains (string name) missing d = refl
add_object-subdomains (string name) ill_typed d = refl
add_object-subdomains (string name) (string secret) (domain m c us) = refl

add_objects-subdomains :
    (os : List UserObject) (d : Domain) → subdomains (add_objects os d) ≡ subdomains d
unfolding add_objects
add_objects-subdomains [] d = refl
add_objects-subdomains (o ∷ os) d = elim (Bool-cases (throws o)) [
  | inl bad ↦ rw (bad) refl
  | inr good ↦ rw (good) (
      add_objects-subdomains os (add_object o.username o.secret d)
      ∙ add_object-subdomains o.username o.secret d)
]

-- The write of httpput to the domain of its path.
abbrev pub put_into : Bytes → List UserObject → Domain → Domain
put_into c os d = add_objects os (clear_users (set_control c d))

put_into-subdomains :
    (c : Bytes) (os : List UserObject) (d : Domain) → subdomains (put_into c os d) ≡ subdomains d
put_into-subdomains c os (domain m old us) = add_objects-subdomains os _

put_into-password_in :
    (c : Bytes) (os : List UserObject) (user : Bytes) (d : Domain)
    → password_in user (users (put_into c os d)) ≡ last_secret user os
put_into-password_in c os user (domain m old us) =
    password_in-add_objects user os (domain m (some c) []) ∙ nothing_else (last_secret user os)
  where
    nothing_else : (o : Option Bytes) → or_else o (password_in user []) ≡ o
    nothing_else none = unfold find_user in refl
    nothing_else (some s) = refl

-- Whether a body is read to its end, and whether the users of the domain are replaced at all.
abbrev pub is_string : Member → Bool
is_string missing = false
is_string ill_typed = false
is_string (string c) = true

abbrev pub is_read : Body → Bool
is_read body = body.is_object && is_string body.control && all_listed body.user_objects

abbrev pub replaces_users : Body → Bool
replaces_users body = body.is_object && is_string body.control

-- What a put makes of the answer and of the passwords of the domain of its path and of another.
abbrev pub Puts : Domain → Bytes → Bytes → Bytes → Body → Domain × Response → Type 0
Puts root name other user body after =
    (after.1 ≡ answer (if is_read body then 201 else 500))
    × (lookup_password after.0 name user ≡ (
        if replaces_users body
        then last_secret user (listed body.user_objects)
        else lookup_password root name user))
    × (lookup_password after.0 other user ≡ lookup_password root other user)

module _ (root : Domain) (name other user : Bytes) (short : length (split_string name b'.') ≤ 5)
    (short' : length (split_string other b'.') ≤ 5) where
  -- Adding a domain changes no password.
  add_domain-password :
      (q : Bytes)
      → length (split_string q b'.') ≤ 5
      → lookup_password (add_domain root name) q user ≡ lookup_password root q user
  unfolding add_domain
  add_domain-password q h =
      lookup_password-users_of _ q user h
      ∙ ap (password_in user) (users_of-add_path (labels name) (labels q) root)
      ∙ sym (lookup_password-users_of root q user h)

  put_at-Puts :
      (control : Member) (os : Option (List UserObject)) (secret : Member)
      → labels name ≢ labels other
      → Puts root name other user
          (record { is_object = true; control = control; user_objects = os; secret = secret })
          (put_at control os root name)
  unfolding add_domain
  put_at-Puts missing os secret apart =
      (refl, add_domain-password name short, add_domain-password other short')
  put_at-Puts ill_typed os secret apart =
      (refl, add_domain-password name short, add_domain-password other short')
  put_at-Puts (string c) os secret apart = (
    refl,
    lookup_password-users_of _ name user short
        ∙ ap (λ o. password_in user (users_of o))
            (walk-update_at (labels name) (put_into c (listed os)) (add_path (labels name) root)
              ∙ ap (map_domain (put_into c (listed os))) (walk-add_path (labels name) root))
        ∙ put_into-password_in c (listed os) user (or_new (walk (labels name) root)),
    lookup_password-users_of _ other user short'
        ∙ ap (password_in user) (
            users_of-update_at (labels name) (labels other) (put_into c (listed os))
              (add_path (labels name) root) (put_into-subdomains c (listed os)) apart
            ∙ users_of-add_path (labels name) (labels other) root)
        ∙ sym (lookup_password-users_of root other user short'),
  )

-- A put of a domain, whose name has at most five parts, is answered 201 if the body is an object with
-- a string as its control host and an array of users each of which lacks a key or has both as
-- strings, and 500 otherwise. Where the body is an object with a control host, the users of the
-- domain are then those of the body and no others, up to the first that is not as it should be:
-- the password of each is that of its last object there. With another body the passwords of the
-- domain stay. The passwords of a domain with another path stay in any case.
pub lookup_password-http_put :
    (root : Domain) (dir name other user : Bytes) (body : Body)
    → length (split_string name b'.') ≤ 5
    → length (split_string other b'.') ≤ 5
    → labels name ≢ labels other
    → Puts root name other user body (http_put root (dir ∷ name ∷ []) body)
unfolding http_put
lookup_password-http_put root dir name other user body short short' apart =
    elim (Bool-cases body.is_object) [
      | inl obj ↦
          subst
            (λ (b : Bool).
              Puts root name other user (record body { is_object = b })
                (if not b
                  then (root, answer 500)
                  else put_at body.control body.user_objects root name))
            (sym obj)
            (put_at-Puts root name other user short short' body.control body.user_objects
              body.secret apart)
      | inr not_object ↦
          subst
            (λ (b : Bool).
              Puts root name other user (record body { is_object = b })
                (if not b
                  then (root, answer 500)
                  else put_at body.control body.user_objects root name))
            (sym not_object) (refl, refl, refl)
    ]
