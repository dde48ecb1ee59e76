-- ===== src/Directory/Http/Deletes.antt =====
-- Deleting a user.
use project_mediaswitch.Base.{
  ◌≤◌, ◌≡◌, ◌≢◌, refl, sym, ap, ◌∙◌, [], ◌∷◌, Bytes, Option, none, some, bytes_eq, length,
  if◌then◌else◌, arith,
}
use project_mediaswitch.Text.Split.{split_string}
use project_mediaswitch.Directory.Tree.{Domain, domain, subdomains, find_user, remove_user}
use project_mediaswitch.Directory.Tree.Laws.{find_user-remove_user}
use project_mediaswitch.Directory.Domains.Walks.{
  users_of, map_domain, walk-update_at, users_of-update_at,
}
use project_mediaswitch.Directory.Domains.{labels, walk, lookup_domain, update_at, lookup_password}
use project_mediaswitch.Directory.Http.Requests.{password_in, lookup_password-users_of}
use project_mediaswitch.Directory.Http.{answer, http_delete}

remove_user-subdomains :
    (user : Bytes) (d : Domain) → subdomains (remove_user user d) ≡ subdomains d
unfolding remove_user
remove_user-subdomains user (domain m c us) = refl

password_in-remove_user :
    (user asked : Bytes) (o : Option Domain)
    → password_in asked (users_of (map_domain (remove_user user) o))
      ≡ (if bytes_eq user asked then none else password_in asked (users_of o))
password_in-remove_user user asked none = unfold find_user in ground arith
password_in-remove_user user asked (some d) = ground (arith, find_user-remove_user user asked d)

-- Deleting a user of a domain that is found is answered by 200, and takes the password of that user
-- away. The other users of the domain, and those of every domain with another path, keep theirs.
pub lookup_password-http_delete :
    (root : Domain) (dir name other user asked : Bytes) (d : Domain)
    → length (split_string name b'.') ≤ 5
    → length (split_string other b'.') ≤ 5
    → labels name ≢ labels other
    → lookup_domain root name ≡ some d
    → (root' : Domain) × (http_delete root (dir ∷ name ∷ user ∷ []) ≡ some (root', answer 200))
      × (lookup_password root' name asked
          ≡ (if bytes_eq user asked then none else lookup_password root name asked))
      × (lookup_password root' other asked ≡ lookup_password root other asked)
unfolding http_delete
lookup_password-http_delete root dir name other user asked d short short' apart found = (
  update_at (labels name) (remove_user user) root,
  rw found,
  lookup_password-users_of _ name asked short
      ∙ ap (λ o. password_in asked (users_of o))
          (walk-update_at (labels name) (remove_user user) root)
      ∙ password_in-remove_user user asked (walk (labels name) root)
      ∙ ap (λ s. if bytes_eq user asked then none else s)
          (sym (lookup_password-users_of root name asked short)),
  lookup_password-users_of _ other asked short'
      ∙ ap (password_in asked) (
          users_of-update_at (labels name) (labels other) (remove_user user) root
            (remove_user-subdomains user) apart)
      ∙ sym (lookup_password-users_of root other asked short'),
)
