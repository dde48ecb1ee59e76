-- ===== src/Registrar/Report.antt =====
-- projectsipregistration::httpget of sip/projectsipregistrar.cpp: the report of the registrations of
-- one domain, or of one of its users, for the web server.
use project_mediaswitch.Base.{
  ℕ, ◌+◌, ◌≤◌, ◌≡◌, refl, List, [], ◌∷◌, ◌++◌, Bytes, Option, none, some, length, Option-cases,
  Bool-cases, inl, inr, if◌then◌else◌, ◌>>=◌, arith,
}
use project_mediaswitch.Directory.Tree.{Domain, User, Users, users, find_user}
use project_mediaswitch.Directory.Domains.{lookup_domain}
use project_mediaswitch.Registrar.{Registration}
use project_mediaswitch.Registrar.Handlers.Invariant.{Inv}
use project_mediaswitch.Registrar.Store.{Registrations, find_reg}
use project_mediaswitch.Registrar.Store.Kept.{Kept, find_reg-Inv}

-- The object `v` of one user: outstandingping, host, port, agent and the epoch "registered".
pub data UserReport : Type 0 where
  not_registered : UserReport
  registered_from : ℕ → Bytes → ℕ → Option Bytes → ℕ → UserReport

-- The body of the answer; `count` and `registered` are the members of those names.
pub data Answer : Type 0 where
  domain_not_found : Answer
  domain_report : Bytes → ℕ → ℕ → List (Bytes × UserReport) → Answer
  total : ℕ → Answer

-- `*authacceptpacket` of a registered client; `none` is the read through a null pointer.
unfoldable pub report_user : Option Registration → Option UserReport
report_user none = some not_registered
report_user (some r) =
    if r.is_registered
    then (r.auth_accept >>= λ a.
        some (
          registered_from r.outstanding_ping a.remote_host a.remote_port a.user_agent r.registered))
    else some not_registered

-- The loop over the users.
unfoldable pub report_users : Registrations → Bytes → Users → Option (List (Bytes × UserReport))
unfolding find_reg report_user
report_users regs domain [] = some []
report_users regs domain ((name, u) ∷ us) =
    report_user (find_reg (name ++ (b'@' ∷ domain)) regs) >>= λ v.
    report_users regs domain us >>= λ rest. some ((name, v) ∷ rest)

-- `registeredcount`
unfoldable pub count_registered : List (Bytes × UserReport) → ℕ
count_registered [] = 0
count_registered ((name, not_registered) ∷ vs) = count_registered vs
count_registered ((name, registered_from p h q a e) ∷ vs) = 1 + count_registered vs

abbrev report_domain : Registrations → Bytes → ℕ → Users → Option Answer
report_domain regs domain count us =
    report_users regs domain us >>= λ vs. some (domain_report domain count (count_registered vs) vs)

-- `users.find( path[ 2 ] )`, of which the loop takes one.
abbrev only : Bytes → Option User → Users
only name none = []
only name (some u) = (name, u) ∷ []

abbrev in_domain : Option Domain → (Domain → Option Answer) → Option Answer
in_domain none report = some domain_not_found
in_domain (some d) report = report d

unfoldable pub http_get : Domain → Registrations → List Bytes → Option Answer
unfolding report_users count_registered
http_get dir regs (reg ∷ domain ∷ []) =
    in_domain (lookup_domain dir domain)
      (λ d. report_domain regs domain (length (users d)) (users d))
http_get dir regs (reg ∷ domain ∷ name ∷ []) =
    in_domain (lookup_domain dir domain)
      (λ d. report_domain regs domain (length (users d)) (only name (find_user name (users d))))
http_get dir regs _ = some (total (length regs))

report_user-total :
    (k : Bytes) (r : Option Registration)
    → ((s : Registration) → r ≡ some s → Inv k s)
    → (v : UserReport) × (report_user r ≡ some v)
unfolding report_user
report_user-total k none h = (not_registered, refl)
report_user-total k (some r) h = elim (Bool-cases r.is_registered) [
  | inl on ↦ elim (Option-cases r.auth_accept) [
    | inl e ↦ elim (let v = (h r refl).accepted in (rw (on, e) at v)) [ ]
    | inr (a, e) ↦ (
      registered_from r.outstanding_ping a.remote_host a.remote_port a.user_agent r.registered,
      ground (arith, on, e),
    )
  ]
  | inr off ↦ (not_registered, ground (arith, off))
]

-- In a container whose registrations are sound the report of a list of users reads no null pointer;
-- it has one entry for each of them.
report_users-total :
    (regs : Registrations) (domain : Bytes) (us : Users)
    → Kept regs
    → (vs : List (Bytes × UserReport)) × (report_users regs domain us ≡ some vs)
      × (length vs ≡ length us)
unfolding report_users
report_users-total regs domain [] v = ([], refl, refl)
report_users-total regs domain ((name, u) ∷ us) v =
    let (w, x) =
      report_user-total _ (find_reg (name ++ (b'@' ∷ domain)) regs)
        (λ s e. find_reg-Inv _ regs s e v) in
    let (vs, y, l) = report_users-total regs domain us v in
    ((name, w) ∷ vs, rw (x) (rw (y) refl), omega (arith, l))

count_registered_bound : (vs : List (Bytes × UserReport)) → count_registered vs ≤ length vs
unfolding count_registered
count_registered_bound [] = omega arith
count_registered_bound ((name, not_registered) ∷ vs) = omega (arith, count_registered_bound vs)
count_registered_bound ((name, registered_from p h q a e) ∷ vs) =
    omega (arith, count_registered_bound vs)

only_bound : (name : Bytes) (us : Users) → length (only name (find_user name us)) ≤ length us
unfolding find_user
only_bound name [] = omega arith
only_bound name ((j, u) ∷ us) = ground (arith, only_bound name us)

-- The figures of an answer fit each other: registered users are among those listed, and these among
-- the users counted.
abbrev pub Consistent : Answer → Type 0
Consistent domain_not_found = Unit
Consistent (domain_report name count registered vs) = (registered ≤ length vs) × (length vs ≤ count)
Consistent (total n) = Unit

report_domain-Consistent :
    (regs : Registrations) (domain : Bytes) (count : ℕ) (us : Users)
    → Kept regs
    → length us ≤ count
    → (ans : Answer) × (report_domain regs domain count us ≡ some ans) × Consistent ans
report_domain-Consistent regs domain count us v room =
    let (vs, e, l) = report_users-total regs domain us v in
    (
      domain_report domain count (count_registered vs) vs,
      rw (e) refl,
      (count_registered_bound vs, omega (arith, l, room)),
    )

-- For a container whose registrations are sound, the web report answers every path (it reads no null
-- pointer), and in a report on a domain there are no more registered users than users listed and no
-- more listed than counted.
pub http_get-Consistent :
    (dir : Domain) (regs : Registrations) (path : List Bytes)
    → Kept regs
    → (ans : Answer) × (http_get dir regs path ≡ some ans) × Consistent ans
unfolding http_get
http_get-Consistent dir regs [] v = (total (length regs), refl, tt)
http_get-Consistent dir regs (a ∷ []) v = (total (length regs), refl, tt)
http_get-Consistent dir regs (a ∷ domain ∷ []) v = elim (Option-cases (lookup_domain dir domain)) [
  | inl e ↦ (domain_not_found, rw (e) refl, tt)
  | inr (d, e) ↦ rw (e) (report_domain-Consistent regs domain _ (users d) v (omega arith))
]
http_get-Consistent dir regs (a ∷ domain ∷ name ∷ []) v =
    elim (Option-cases (lookup_domain dir domain)) [
      | inl e ↦ (domain_not_found, rw (e) refl, tt)
      | inr (d, e) ↦ rw (e) (report_domain-Consistent regs domain _ _ v (only_bound name (users d)))
    ]
http_get-Consistent dir regs (a ∷ b ∷ c ∷ e ∷ path) v = (total (length regs), refl, tt)
