-- ===== src/Registrar/Handlers/Invariant.antt =====
-- The invariant of a registration: it is that of one user, a registered one has its accepted packet,
-- which the pings and the web report read, and at most seven pings are outstanding.
use mathlib.Core.Path.{subst}
use project_mediaswitch.Base.{
  ◌&&◌, ◌+◌, >>=-eq-some, some_injective, ℕ, ◌≤◌, ◌≡◌, refl, ap, Bool, true, false, List, Bytes,
  Option, none, some, ltb, ◌==◌, ℤ, inl, inr, Bool-cases, if-true, if-false, if-some, Option-cases,
  arith,
}
use project_mediaswitch.Text.Substring.Compare.{ne_sub}
use project_mediaswitch.Directory.Tree.{Domain, control_host}
use project_mediaswitch.Directory.Domains.{lookup_domain_sub, lookup_password_sub}
use project_mediaswitch.Sip.Packet.{Packet}
use project_mediaswitch.Registrar.{
  Registration, Effect, Sent, new_registration, with_domain, expire_accepted, expire, send_options,
  or_default, is_zero, is_below,
}
use project_mediaswitch.Registrar.Handlers.{
  reg_start, accept, tell_control, reg_accepted, passes, reg_answered, reg_wait_auth,
  handle_response, timer_handler,
}

abbrev pub Accepted : Bool → Option Packet → Type 0
Accepted false a = Unit
Accepted true none = ⊥
Accepted true (some a) = Unit

pub record Inv (user : Bytes) (r : Registration) : Type 0 where
  pub named : r.user ≡ user
  pub accepted : Accepted r.is_registered r.auth_accept
  pub pings : r.outstanding_ping ≤ 7

pub new_registration-Inv :
    (user : Bytes) (now : ℕ) (garbage : Bool) → Inv user (new_registration user now garbage)
new_registration-Inv user now garbage = record { named = refl; accepted = tt; pings = omega arith }

-- A step that can only fail or lead to one registration.
abbrev LeadsTo : Registration → Sent → Type 0
LeadsTo r none = Unit
LeadsTo r (some done) = done.0 ≡ r

with_domain-LeadsTo :
    (r : Registration) (send : Bytes → List Effect) (o : Option Domain)
    → LeadsTo r (with_domain r send o)
with_domain-LeadsTo r send none = refl
with_domain-LeadsTo r send (some d) = elim (Option-cases (control_host d)) [
  | inl e ↦ rw e tt
  | inr (h, e) ↦ rw e refl
]

expire_accepted-LeadsTo :
    (dir : Domain) (r : Registration) (a : Option Packet) → LeadsTo r (expire_accepted dir r a)
expire_accepted-LeadsTo dir r none = refl
expire_accepted-LeadsTo dir r (some a) = elim (Option-cases (lookup_domain_sub dir a.uri_host)) [
  | inl e ↦ rw e tt
  | inr (o, e) ↦ rw e (with_domain-LeadsTo r _ o)
]

-- `expire` only takes the mark of a registered client away.
pub expire-result :
    (dir : Domain) (r r' : Registration) (sent : List Effect)
    → expire dir r ≡ some (r', sent)
    → r' ≡ record r { is_registered = false }
unfolding expire
expire-result dir r r' sent e =
    rw e at (expire_accepted-LeadsTo dir (record r { is_registered = false }) r.auth_accept)

expire-Inv :
    {u : Bytes} (dir : Domain) (r r' : Registration) (sent : List Effect)
    → expire dir r ≡ some (r', sent)
    → Inv u r
    → Inv u r'
expire-Inv {u = u} dir r r' sent e v =
    rw (expire-result dir r r' sent e) (record { named = v.named; accepted = tt; pings = v.pings })

pub reg_start-Inv :
    {u : Bytes} (dir : Domain) (r r' : Registration) (pk : Packet) (sent : List Effect)
    → reg_start dir r pk ≡ some (r', sent)
    → Inv u r
    → Inv u r'
unfolding reg_start
reg_start-Inv {u = u} dir r r' pk sent e v = elim (Bool-cases (is_zero (or_default pk.expires))) [
  | inl z ↦
      let (d, x, y) = >>=-eq-some (expire dir r) _ (if-true _ z e) in
      let same : d.0 ≡ r' = ground (arith, y) in subst (Inv u) same (expire-Inv dir r d.0 d.1 x v)
  | inr z ↦ elim (Bool-cases (is_below (or_default pk.expires) 3600)) [
    | inl b ↦ ground (arith, z, b)
    | inr b ↦ ground (arith, z, b)
  ]
]

pub handle_response-Inv :
    {u : Bytes} (r r' : Registration) (pk : Packet) (sent : List Effect)
    → handle_response r pk ≡ some (r', sent)
    → Inv u r
    → Inv u r'
unfolding handle_response
handle_response-Inv {u = u} r r' pk sent e v = ground arith

send_options-Inv :
    {u : Bytes} (r : Registration) (d : Registration × List Effect)
    → send_options r ≡ some d
    → (r.outstanding_ping == 7) ≡ false
    → Inv u r
    → Inv u d.0
unfolding send_options
send_options-Inv {u = u} r d e room v =
    let (a, x, y) = >>=-eq-some r.auth_accept _ e in
    let pinged = record r { outstanding_ping = r.outstanding_ping + 1 } in
    let same : pinged ≡ d.0 =
      ap (λ p. p.0) (some_injective (if-some (a.has_contact && a.has_to) y)) in
    subst (Inv u) same
      (record { named = v.named; accepted = v.accepted; pings = ground (arith, v.pings) })

-- The timer, aborted or not and at whatever time, keeps a sound registration sound: it is that of the
-- same user, a registered one has its accepted packet, and at most seven pings are outstanding.
pub timer_handler-Inv :
    {u : Bytes} (dir : Domain) (now : ℕ) (aborted : Bool) (r r' : Registration) (sent : List Effect)
    → timer_handler dir now aborted r ≡ some (r', sent)
    → Inv u r
    → Inv u r'
unfolding timer_handler
timer_handler-Inv {u = u} dir now true r r' sent e v = ground arith
timer_handler-Inv {u = u} dir now false r r' sent e v = elim (Bool-cases (ltb r.expires now)) [
  | inl late ↦ expire-Inv dir r r' sent (if-true _ late e) v
  | inr early ↦ elim (Bool-cases (r.outstanding_ping == 7)) [
    | inl full ↦ expire-Inv dir r r' sent (if-true _ full (if-false _ early e)) v
    | inr room ↦
        let (d, x, y) = >>=-eq-some (send_options r) _ (if-false _ room (if-false _ early e)) in
        let same : d.0 ≡ r' = ground (arith, y) in
        subst (Inv u) same (send_options-Inv r d x room v)
  ]
]

accept-Inv :
    {u : Bytes} (now : ℕ) (x : ℤ) (r : Registration) (pk : Packet)
    → Inv u r
    → Inv u (accept now x r pk)
accept-Inv now x r pk v = record { named = v.named; accepted = tt; pings = omega arith }

tell_control-Inv :
    {u : Bytes} (r r' : Registration) (pk : Packet) (sent sent' : List Effect) (o : Option Domain)
    → tell_control r pk sent o ≡ some (r', sent')
    → Inv u r
    → Inv u r'
tell_control-Inv {u = u} r r' pk sent sent' none e v = ground arith
tell_control-Inv {u = u} r r' pk sent sent' (some d) e v =
    let (h, x, y) = >>=-eq-some (control_host d) _ e in
    let same : record r { auth_request = none } ≡ r' = ground (arith, y) in
    subst (Inv u) same (record { named = v.named; accepted = v.accepted; pings = v.pings })

reg_accepted-Inv :
    {u : Bytes} (dir : Domain) (now : ℕ) (r r' : Registration) (challenged pk : Packet)
    (sent : List Effect) (gone : Bool)
    → reg_accepted dir now r challenged pk ≡ some (r', sent, gone)
    → Inv u r
    → Inv u r'
reg_accepted-Inv {u = u} dir now r r' challenged pk sent gone e v =
    elim (Bool-cases (is_zero pk.expires)) [
      | inl z ↦ let same : r ≡ r' = ground (arith, e, z) in subst (Inv u) same v
      | inr z ↦ elim (Bool-cases (ne_sub challenged.challenge_cseq pk.cseq)) [
        | inl n ↦ let same : r ≡ r' = ground (arith, e, z, n) in subst (Inv u) same v
        | inr n ↦
            let (d, x, y) =
              >>=-eq-some _ (λ done. some (done.0, done.1, false))
                (if-false _ n (if-false _ z e)) in
            let (o, x', y') = >>=-eq-some (lookup_domain_sub dir pk.uri_host) _ x in
            let same : d.0 ≡ r' = ground (arith, y) in
            subst (Inv u) same (tell_control-Inv _ d.0 pk _ d.1 o y' (accept-Inv now _ r pk v))
      ]
    ]

pub reg_wait_auth-Inv :
    {u : Bytes} (check_auth : Packet → Packet → Bytes → Bool) (dir : Domain) (now : ℕ)
    (r r' : Registration) (pk : Packet) (sent : List Effect) (gone : Bool)
    → reg_wait_auth check_auth dir now r pk ≡ some (r', sent, gone)
    → Inv u r
    → Inv u r'
unfolding reg_wait_auth
reg_wait_auth-Inv {u = u} check_auth dir now r r' pk sent gone e v =
    let (password, x, y) =
      >>=-eq-some (lookup_password_sub dir pk.auth_realm pk.auth_username) _ e in
    answered password r.auth_request y
  where
    current : Registration
    current = record r { current = some pk }

    current-Inv : Inv u current
    current-Inv = record { named = v.named; accepted = v.accepted; pings = v.pings }

    answered :
        (password : Option Bytes) (challenged : Option Packet)
        → reg_answered check_auth dir now current pk password challenged ≡ some (r', sent, gone)
        → Inv u r'
    answered password none a =
        let (d, x, w) = >>=-eq-some (reg_start dir current pk) _ a in
        let same : d.0 ≡ r' = ground (arith, w) in
        subst (Inv u) same (reg_start-Inv dir current d.0 pk d.1 x current-Inv)
    answered password (some challenged) a =
        elim (Bool-cases (passes check_auth pk challenged password)) [
          | inl good ↦
              reg_accepted-Inv dir now current r' challenged pk sent gone (if-true _ good a)
                current-Inv
          | inr bad ↦
              let same : current ≡ r' = ground (arith, a, bad) in subst (Inv u) same current-Inv
        ]
