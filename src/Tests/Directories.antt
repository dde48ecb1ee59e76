-- ===== src/Tests/Directories.antt =====
-- Tests of the directory, on the domains of the comments in the source.
use project_mediaswitch.Base.{
  ◌≡◌, ◌≢◌, refl, Bool, true, false, [], ◌∷◌, Bytes, none, some, codes, bytes_eq, length, ltb,
  if◌then◌else◌, arith,
}
use project_mediaswitch.Text.Split.{split_string}
use project_mediaswitch.Text.Split.RoundTrip.{ends_plain}
use project_mediaswitch.Directory.Tree.{
  put_domain, find_user, Domain, domain, nil, entry, new_domain, add_user, find_domain,
  erase_domain, erase_user,
}
use project_mediaswitch.Directory.Domains.{
  cut_at_dot, labels, lookup_domain, update_at, or_new, add_domain, erase_child, remove_domain,
  lookup_password,
}
use project_mediaswitch.Directory.Domains.Walks.{users_of, lookup_domain-add_domain}
use project_mediaswitch.Directory.Domains.Tidy.{
  remove_domain_total, lookup_domain-remove_domain, remove_domain_refused,
}
use project_mediaswitch.Directory.Domains.Spared.{remove_domain_spares}
use project_mediaswitch.Directory.Http.{
  missing, string, Body, answer, http_put, http_delete, http_get,
}
use project_mediaswitch.Directory.Http.Requests.{Puts, lookup_password-http_put}
use project_mediaswitch.Directory.Http.Deletes.{lookup_password-http_delete}
use project_mediaswitch.Directory.Http.Runs.{put, delete, run, http_get-run}

abbrev bling : Bytes
bling = codes "bling.babblevoice.com"

abbrev blong : Bytes
blong = codes "blong.babblevoice.com"

abbrev body : Body
body = record {
  is_object = true;
  control = string (codes "http://127.0.0.1:9000");
  user_objects = some (
      record { is_object = true; username = string (codes "1003"); secret = string (codes "old") }
      ∷ record {
        is_object = true;
        username = string (codes "1003");
        secret = string (codes "mysecret");
      }
      ∷ record { is_object = true; username = string (codes "1004"); secret = missing }
      ∷ []);
  secret = missing;
}

abbrev empty_child : Domain
empty_child = domain nil none []

abbrev with_user : Domain
with_user =
    domain nil none ((codes "1003", record { username = codes "1003"; secret = codes "s" }) ∷ [])

-- babblevoice.com, with a user below it in bling, and an empty blong.
abbrev babblevoice : Domain
babblevoice =
    domain (entry (codes "bling") with_user (entry (codes "blong") empty_child nil)) none []

abbrev directory : Domain
directory =
    domain (entry (codes "com") (domain (entry (codes "babblevoice") babblevoice nil) none []) nil)
      none []

lookup_bling : lookup_domain directory bling ≡ some with_user
unfolding lookup_domain split_string find_domain bytes_eq
lookup_bling = refl

lookup_password_put :
    lookup_password (http_put new_domain (codes "dir" ∷ bling ∷ []) body).0 bling (codes "1003")
    ≡ some (codes "mysecret")
unfolding lookup_password http_put lookup_domain add_domain update_at split_string find_domain
    put_domain find_user erase_user bytes_eq add_user
lookup_password_put = refl

lookup_domain-add_domain_example :
    (lookup_domain (add_domain directory blong) blong ≡ (
      if ltb 5 (length (split_string blong b'.'))
      then none
      else some (or_new (lookup_domain directory blong))))
    × (users_of (lookup_domain (add_domain directory blong) bling)
        ≡ users_of (lookup_domain directory bling))
lookup_domain-add_domain_example = lookup_domain-add_domain directory blong bling

remove_domain_total_example : (r : Domain × Bool) × (remove_domain directory bling true ≡ some r)
remove_domain_total_example = remove_domain_total directory bling true

-- Without bling.
abbrev directory' : Domain
directory' =
    domain
      (entry (codes "com")
        (domain
          (entry (codes "babblevoice") (domain (entry (codes "blong") empty_child nil) none []) nil)
          none [])
        nil)
      none []

removed : remove_domain directory bling true ≡ some (directory', true)
unfolding remove_domain lookup_domain cut_at_dot update_at split_string find_domain put_domain
    erase_domain bytes_eq
removed = refl

lookup_domain-remove_domain_example : lookup_domain directory' bling ≡ none
unfolding ends_plain
lookup_domain-remove_domain_example =
    lookup_domain-remove_domain directory bling true directory' refl removed

remove_domain_refused_example : directory ≡ directory
unfolding remove_domain lookup_domain cut_at_dot split_string find_domain bytes_eq
remove_domain_refused_example = remove_domain_refused directory bling false directory refl

remove_domain_spares_example :
    remove_domain directory bling true
    ≡ some
        (update_at (labels (codes "babblevoice.com")) (erase_child (codes "bling")) directory, true)
unfolding lookup_domain split_string find_domain erase_child erase_domain bytes_eq
remove_domain_spares_example =
    remove_domain_spares directory (codes "bling") (codes "babblevoice") b'c' (codes "om")
      babblevoice with_user (omega arith) (omega arith) refl refl refl

-- Removing babblevoice.com takes com with it.

bling-ne-blong : labels bling ≢ labels blong
unfolding split_string
bling-ne-blong = grind arith

lookup_password-http_put_example :
    Puts directory bling blong
      (codes "1003")
      body
      (http_put directory (codes "dir" ∷ bling ∷ []) body)
unfolding split_string
lookup_password-http_put_example =
    lookup_password-http_put directory (codes "dir") bling blong (codes "1003") body (omega arith)
      (omega arith) bling-ne-blong

lookup_password-http_delete_example :
    (root' : Domain) × (http_delete directory (codes "dir" ∷ bling ∷ codes "1003" ∷ [])
      ≡ some (root', answer 200))
    × (lookup_password root' bling (codes "1004") ≡ (
        if bytes_eq (codes "1003") (codes "1004")
        then none
        else lookup_password directory bling (codes "1004")))
    × (lookup_password root' blong (codes "1004") ≡ lookup_password directory blong (codes "1004"))
unfolding split_string
lookup_password-http_delete_example =
    lookup_password-http_delete directory (codes "dir") bling blong (codes "1003") (codes "1004")
      with_user (omega arith) (omega arith) bling-ne-blong lookup_bling

http_get-run_example :
    http_get
      (run new_domain
        (put (codes "dir" ∷ bling ∷ []) body ∷ delete (codes "dir" ∷ blong ∷ []) ∷ []))
      (codes "dir" ∷ [])
    ≡ none
http_get-run_example =
    http_get-run (put (codes "dir" ∷ bling ∷ []) body ∷ delete (codes "dir" ∷ blong ∷ []) ∷ [])
      (codes "dir" ∷ []) (omega arith)
