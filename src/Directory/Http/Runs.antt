-- ===== src/Directory/Http/Runs.antt =====
-- Any sequence of requests from the empty directory, and what it leaves of the root.
use mathlib.Core.List.{reverse-cons}
use project_mediaswitch.Base.{
  ℕ, zero, suc, ◌≤◌, ◌≡◌, refl, ◌∙◌, Bool, true, false, List, [], ◌∷◌, ◌++◌, Bytes, Option, none,
  some, length, inl, inr, ◌==◌, Bool-cases, Option-cases, arith,
}
use project_mediaswitch.Text.Split.{split_string, split_loop, at_least_one}
use project_mediaswitch.Directory.Tree.{Domain, domain, control_host, remove_user, new_domain}
use project_mediaswitch.Directory.Domains.Removal.{remove_loop_cases}
use project_mediaswitch.Directory.Domains.{
  Labels, labels, lookup_domain, update_at, add_path, add_domain, erase_child, remove_top,
  remove_loop, remove_domain,
}
use project_mediaswitch.Directory.Http.{
  Member, missing, ill_typed, string, UserObject, listed, put_at, Body, Response, http_patch,
  http_put, http_delete, delete_domain, http_get, part,
}
use project_mediaswitch.Directory.Http.Requests.{put_into}

-- The requests that may change the directory, with the parts of their path.
pub data Request : Type 0 where
  put patch : List Bytes → Body → Request
  delete : List Bytes → Request

abbrev or_same : Domain → Option (Domain × Response) → Domain
or_same root none = root
or_same root (some r) = r.0

-- One request. `http_delete` always has a result, as `remove_domain` has.
pub step : Domain → Request → Domain
step root (put path body) = (http_put root path body).0
step root (patch path body) = (http_patch root path body).0
step root (delete path) = or_same root (http_delete root path)

pub run : Domain → List Request → Domain
run root [] = root
run root (q ∷ qs) = run (step root q) qs

labels-ne-nil : (name : Bytes) → (k : Bytes) × (ks : Labels) × (labels name ≡ k ∷ ks)
labels-ne-nil name =
    ends (split_string name b'.') (unfold split_string in filled (split_loop b'.' [] [] name))
  where
    filled : (l : List Bytes) → (x : Bytes) × (xs : List Bytes) × (at_least_one l ≡ x ∷ xs)
    filled [] = ([], [], refl)
    filled (x ∷ xs) = (x, xs, refl)

    ends :
        (l : List Bytes)
        → (x : Bytes) × (xs : List Bytes) × (l ≡ x ∷ xs)
        → (k : Bytes) × (ks : Labels) × (mathlib.Core.List.reverse l ≡ k ∷ ks)
    ends l (x, xs, e) = rw (e, reverse-cons) (first (mathlib.Core.List.reverse xs))
      where
        first : (r : Labels) → (k : Bytes) × (ks : Labels) × (r ++ (x ∷ []) ≡ k ∷ ks)
        first [] = (x, [], refl)
        first (y ∷ ys) = (y, ys ++ (x ∷ []), refl)

control_host-update_at :
    (k : Bytes) (ks : Labels) (f : Domain → Domain) (d : Domain)
    → control_host (update_at (k ∷ ks) f d) ≡ control_host d
unfolding update_at
control_host-update_at k ks f (domain m c us) = ground arith

control_host-update_at-labels :
    (name : Bytes) (f : Domain → Domain) (d : Domain)
    → control_host (update_at (labels name) f d) ≡ control_host d
control_host-update_at-labels name f d =
    let (k, ks, e) = labels-ne-nil name in rw e (control_host-update_at k ks f d)

control_host-add_domain :
    (root : Domain) (name : Bytes) → control_host (add_domain root name) ≡ control_host root
unfolding add_domain
control_host-add_domain root name = let (k, ks, e) = labels-ne-nil name in rw e (added k ks root)
  where
    added :
        (k : Bytes) (ks : Labels) (d : Domain) → control_host (add_path (k ∷ ks) d) ≡ control_host d
    added k ks (domain m c us) = unfold add_path in refl

control_host-erase_child :
    (h : Bytes) (d : Domain) → control_host (erase_child h d) ≡ control_host d
unfolding erase_child
control_host-erase_child h (domain m c us) = refl

control_host-remove_loop :
    (fuel : ℕ) (root : Domain) (name : Bytes) (force : Bool) (r : Domain × Bool)
    → remove_loop fuel root name force ≡ some r
    → control_host r.0 ≡ control_host root
control_host-remove_loop zero root name force r e = unfold remove_loop in cc
control_host-remove_loop (suc fuel) root name force r e =
    remove_loop_cases (λ x. control_host x.0 ≡ control_host root) fuel root name force r e refl
      (λ c. unfold remove_top in ground (arith, control_host-erase_child name root))
      (λ host rest r' c e'.
        control_host-remove_loop fuel _ rest false r' e'
        ∙ control_host-update_at-labels rest (erase_child host) root)

control_host-delete_domain :
    (root : Domain) (name : Bytes)
    → control_host (or_same root (delete_domain root name)) ≡ control_host root
unfolding delete_domain remove_domain
control_host-delete_domain root name =
    elim (Option-cases (remove_loop (suc (length name)) root name true)) [
      | inl e ↦ rw e
      | inr (r, e) ↦ rw e (control_host-remove_loop (suc (length name)) root name true r e)
    ]

control_host-put_at :
    (root : Domain) (name : Bytes) (control : Member) (os : Option (List UserObject))
    → control_host (put_at control os root name).0 ≡ control_host root
control_host-put_at root name missing os = control_host-add_domain root name
control_host-put_at root name ill_typed os = control_host-add_domain root name
control_host-put_at root name (string c) os =
    control_host-update_at-labels name (put_into c (listed os)) (add_domain root name)
    ∙ control_host-add_domain root name

control_host-http_put :
    (root : Domain) (path : List Bytes) (body : Body)
    → control_host (http_put root path body).0 ≡ control_host root
unfolding http_put http_patch
control_host-http_put root path body =
    ground (arith, control_host-put_at root (part path 1) body.control body.user_objects)

control_host-http_delete :
    (root : Domain) (path : List Bytes)
    → control_host (or_same root (http_delete root path)) ≡ control_host root
unfolding http_delete
control_host-http_delete root path = elim (Bool-cases (length path == 3)) [
  | inl user ↦
      rw (user, http_delete)
        (elim (Option-cases (lookup_domain root (part path 1))) [
          | inl gone ↦ rw gone
          | inr (d, found) ↦
              rw found
                (control_host-update_at-labels (part path 1) (remove_user (part path 2)) root)
        ])
  | inr other ↦ elim (Bool-cases (length path == 2)) [
    | inl two ↦ rw (other, http_delete) (rw two (control_host-delete_domain root (part path 1)))
    | inr long ↦ rw (other, http_delete) (rw long)
  ]
]

control_host-step : (root : Domain) (q : Request) → control_host (step root q) ≡ control_host root
unfolding step
control_host-step root (put path body) = control_host-http_put root path body
control_host-step root (patch path body) = unfold http_patch in ground arith
control_host-step root (delete path) = control_host-http_delete root path

control_host-run :
    (root : Domain) (qs : List Request) → control_host (run root qs) ≡ control_host root
unfolding run
control_host-run root [] = refl
control_host-run root (q ∷ qs) = control_host-run (step root q) qs ∙ control_host-step root q

-- After any requests from the empty directory, asking for the whole directory, by a path of one
-- part or none, reads through the null pointer to the control host of the root.
pub http_get-run :
    (qs : List Request) (path : List Bytes)
    → length path ≤ 1
    → http_get (run new_domain qs) path ≡ none
unfolding http_get
http_get-run qs path h = ground (arith, control_host-run new_domain qs)
