-- ===== src/Registrar/Access.antt =====
-- Who becomes registered, by which packet.
use project_mediaswitch.Base.{
  ℕ, ◌≡◌, refl, sym, ap, ◌∙◌, Bool, true, false, ◌&&◌, List, Bytes, Option, none, some, bytes_eq,
  bytes_eq_iff, inl, inr, Bool-cases, if-true, if-false, >>=-eq-some, if◌then◌else◌, arith,
}
use project_mediaswitch.Directory.Tree.{Domain}
use project_mediaswitch.Directory.Domains.{lookup_password_sub}
use project_mediaswitch.Sip.Packet.{Packet}
use project_mediaswitch.Registrar.{Registration, Effect, expire, or_default, is_zero, is_below}
use project_mediaswitch.Registrar.Handlers.{
  reg_start, reg_wait_auth, reg_answered, passes, handle_response,
}
use project_mediaswitch.Registrar.Handlers.Invariant.{expire-result}
use project_mediaswitch.Registrar.Store.Kept.{
  Kept, found_or_new-Inv, handle_packet-Inv, registrar_sip_packet-result,
}
use project_mediaswitch.Registrar.Store.Frame.{find_reg-settle}
use project_mediaswitch.Registrar.Store.{
  Registrations, find_reg, is_some, found_or_new, handle_packet, registrar_sip_packet,
}

-- The packet answers the challenge of the registration with a password of the directory.
pub record Authorised (check_auth : Packet → Packet → Bytes → Bool) (dir : Domain)
    (r : Registration) (pk : Packet) : Type 0 where
  pub challenged : Packet
  pub password : Bytes
  pub challenge_sent : r.auth_request ≡ some challenged
  pub password_known : lookup_password_sub dir pk.auth_realm pk.auth_username ≡ some (some password)
  pub digest_right : check_auth pk challenged password ≡ true

reg_start-stays :
    (dir : Domain) (r r' : Registration) (pk : Packet) (sent : List Effect)
    → reg_start dir r pk ≡ some (r', sent)
    → r.is_registered ≡ false
    → r'.is_registered ≡ false
unfolding reg_start
reg_start-stays dir r r' pk sent e off = elim (Bool-cases (is_zero (or_default pk.expires))) [
  | inl z ↦
      let (d, x, y) = >>=-eq-some (expire dir r) _ (if-true _ z e) in
      let same : d.0 ≡ r' = ground (arith, y) in
      sym (ap (λ s. s.is_registered) same)
      ∙ ap (λ s. s.is_registered) (expire-result dir r d.0 d.1 x)
  | inr z ↦ elim (Bool-cases (is_below (or_default pk.expires) 3600)) [
    | inl b ↦ ground (arith, z, b)
    | inr b ↦ ground (arith, z, b)
  ]
]

handle_response-stays :
    (r r' : Registration) (pk : Packet) (sent : List Effect)
    → handle_response r pk ≡ some (r', sent)
    → r.is_registered ≡ false
    → r'.is_registered ≡ false
unfolding handle_response
handle_response-stays r r' pk sent e off = ground arith

passes-Authorised :
    (check_auth : Packet → Packet → Bytes → Bool) (dir : Domain) (r : Registration)
    (pk challenged : Packet) (password : Option Bytes)
    → r.auth_request ≡ some challenged
    → lookup_password_sub dir pk.auth_realm pk.auth_username ≡ some password
    → passes check_auth pk challenged password ≡ true
    → Authorised check_auth dir r pk
passes-Authorised check_auth dir r pk challenged none c k p = cc
passes-Authorised check_auth dir r pk challenged (some password) c k p = record {
  challenged = challenged;
  password = password;
  challenge_sent = c;
  password_known = k;
  digest_right = p;
}

reg_wait_auth-Authorised :
    (check_auth : Packet → Packet → Bytes → Bool) (dir : Domain) (now : ℕ) (r r' : Registration)
    (pk : Packet) (sent : List Effect) (gone : Bool)
    → reg_wait_auth check_auth dir now r pk ≡ some (r', sent, gone)
    → r.is_registered ≡ false
    → r'.is_registered ≡ true
    → Authorised check_auth dir r pk
unfolding reg_wait_auth
reg_wait_auth-Authorised check_auth dir now r r' pk sent gone e off on =
    let (password, x, y) =
      >>=-eq-some (lookup_password_sub dir pk.auth_realm pk.auth_username) _ e in
    answered password r.auth_request refl x y
  where
    current : Registration
    current = record r { current = some pk }

    answered :
        (password : Option Bytes) (challenged : Option Packet)
        → r.auth_request ≡ challenged
        → lookup_password_sub dir pk.auth_realm pk.auth_username ≡ some password
        → reg_answered check_auth dir now current pk password challenged ≡ some (r', sent, gone)
        → Authorised check_auth dir r pk
    answered password none c k a =
        let (d, x, w) = >>=-eq-some (reg_start dir current pk) _ a in
        let same : d.0 ≡ r' = ground (arith, w) in
        let still = reg_start-stays dir current d.0 pk d.1 x off in ground (arith, still, on, same)
    answered password (some challenged) c k a =
        elim (Bool-cases (passes check_auth pk challenged password)) [
          | inl good ↦ passes-Authorised check_auth dir r pk challenged password c k good
          | inr bad ↦
              let same : current ≡ r' = ground (arith, a, bad) in
              let same_mark = ap (λ s. s.is_registered) same in ground (arith, same_mark, off, on)
        ]

handle_packet-Authorised :
    (check_auth : Packet → Packet → Bytes → Bool) (dir : Domain) (now : ℕ) (r r' : Registration)
    (pk : Packet) (sent : List Effect) (gone : Bool)
    → handle_packet check_auth dir now r pk ≡ some (r', sent, gone)
    → r.is_registered ≡ false
    → r'.is_registered ≡ true
    → Authorised check_auth dir r pk
unfolding handle_packet
handle_packet-Authorised check_auth dir now r r' pk sent gone e off on =
    elim (Bool-cases pk.is_request) [
      | inl q ↦ elim (Bool-cases (pk.has_authorization && is_some r.auth_request)) [
        | inl a ↦
            reg_wait_auth-Authorised check_auth dir now r r' pk sent gone
              (if-true _ a (if-true _ q e)) off on
        | inr a ↦
            let (d, x, y) = >>=-eq-some (reg_start dir r pk) _ (if-false _ a (if-true _ q e)) in
            let same : d.0 ≡ r' = ground (arith, y) in
            let still = reg_start-stays dir r d.0 pk d.1 x off in ground (arith, still, on, same)
      ]
      | inr q ↦
          let (d, x, y) = >>=-eq-some (handle_response r pk) _ (if-false _ q e) in
          let same : d.0 ≡ r' = ground (arith, y) in
          let still = handle_response-stays r d.0 pk d.1 x off in ground (arith, still, on, same)
    ]

abbrev pub registered_in : Option Registration → Bool
registered_in none = false
registered_in (some r) = r.is_registered

found-Authorised :
    (check_auth : Packet → Packet → Bytes → Bool) (dir : Domain) (now : ℕ) (garbage : Bool)
    (pk : Packet) (k : Bytes) (found : Option Registration)
    → Authorised check_auth dir (found_or_new k now garbage found) pk
    → (r : Registration) × (found ≡ some r) × Authorised check_auth dir r pk
found-Authorised check_auth dir now garbage pk k none a = elim (none_or_some a.challenge_sent) [ ]
  where
    none_or_some : {c : Packet} → none ≡ some c → ⊥
    none_or_some e = cc
found-Authorised check_auth dir now garbage pk k (some r) a = (r, refl, a)

found-off :
    (k : Bytes) (now : ℕ) (garbage : Bool) (found : Option Registration)
    → registered_in found ≡ false
    → (found_or_new k now garbage found).is_registered ≡ false
found-off k now garbage none h = refl
found-off k now garbage (some r) h = h

clash : {b : Bool} → b ≡ false → b ≡ true → ⊥
clash off on = cc

settled-on :
    (gone : Bool) (r : Registration)
    → registered_in (if gone then none else some r) ≡ true
    → r.is_registered ≡ true
settled-on true r h = cc
settled-on false r h = h

-- In a container whose registrations are sound, a user that was not registered and is registered
-- after a packet is the user@host that the packet is addressed to, and had a registration with a
-- challenge sent to it; the directory has a password under the realm and username of the packet's
-- credentials, and the digest test of the packet against that challenge with that password
-- succeeds.
pub registrar_sip_packet-Authorised :
    (check_auth : Packet → Packet → Bytes → Bool) (dir : Domain) (now : ℕ) (garbage : Bool)
    (rs rs' : Registrations) (pk : Packet) (sent : List Effect) (j : Bytes)
    → registrar_sip_packet check_auth dir now garbage rs pk ≡ some (rs', sent)
    → Kept rs
    → registered_in (find_reg j rs) ≡ false
    → registered_in (find_reg j rs') ≡ true
    → (pk.user_host ≡ j)
      × ((r : Registration) × (find_reg j rs ≡ some r) × Authorised check_auth dir r pk)
registrar_sip_packet-Authorised check_auth dir now garbage rs rs' pk sent j e v off on =
    elim (registrar_sip_packet-result check_auth dir now garbage rs rs' pk sent e) [
      | inl same ↦ elim (clash off (ap (λ s. registered_in (find_reg j s)) same ∙ on)) [ ]
      | inr (d, x, same) ↦
          let i =
            handle_packet-Inv check_auth dir now _ d.0 pk d.1 d.2 x
              (found_or_new-Inv pk.user_host now garbage rs v) in
          let read = rw (sym same, find_reg-settle pk.user_host j rs d i.named) at on in
          elim (Bool-cases (bytes_eq pk.user_host j)) [
            | inl y ↦
                let mine = (bytes_eq_iff pk.user_host j).0 y in
                let off' : registered_in (find_reg pk.user_host rs) ≡ false = rw mine off in
                let on' = settled-on d.2 d.0 (rw (y) at read) in
                let (r, found, a) =
                  found-Authorised check_auth dir now garbage pk pk.user_host
                    (find_reg pk.user_host rs)
                    (handle_packet-Authorised check_auth dir now _ d.0 pk d.1 d.2 x
                      (found-off pk.user_host now garbage (find_reg pk.user_host rs) off') on') in
                (mine, (r, ap (λ u. find_reg u rs) (sym mine) ∙ found, a))
            | inr n ↦ elim (clash off (ap registered_in (if-false _ n refl) ∙ read)) [ ]
          ]
    ]
