-- ===== src/Registrar/Store/Kept.antt =====
-- The invariant of the registrations, for the whole container.
use mathlib.Core.Path.{subst}
use project_mediaswitch.Base.{
  ℕ, ◌≡◌, sym, ap, Bool, true, false, ◌&&◌, List, [], ◌∷◌, Bytes, some, bytes_eq, bytes_eq_iff, All,
  inl, inr, ◌⊎◌, Bool-cases, Option-cases, if-true, if-false, if-some, ltb, >>=-eq-some,
  some_injective, arith,
}
use project_mediaswitch.Text.Substring.{size}
use project_mediaswitch.Directory.Tree.{Domain}
use project_mediaswitch.Sip.Packet.{Packet}
use project_mediaswitch.Registrar.{Registration, Effect}
use project_mediaswitch.Registrar.Handlers.{reg_start, handle_response}
use project_mediaswitch.Registrar.Handlers.Invariant.{
  Inv, new_registration-Inv, reg_start-Inv, reg_wait_auth-Inv, handle_response-Inv,
}
use project_mediaswitch.Registrar.Store.{
  Registrations, find_reg, erase_reg, put_reg, is_some, found_or_new, handle_packet, settle,
  registrar_sip_packet,
}

unfoldable pub Kept : Registrations → Type 0
Kept = All (λ r. Inv r.user r)

pub find_reg-Inv :
    (k : Bytes) (rs : Registrations) (r : Registration) → find_reg k rs ≡ some r → Kept rs → Inv k r
unfolding find_reg Kept
find_reg-Inv k [] r e v = cc
find_reg-Inv k (r' ∷ rs) r e v = elim (Bool-cases (bytes_eq r'.user k)) [
  | inl y ↦
      subst (λ u. Inv u r) ((bytes_eq_iff r'.user k).0 y)
        (subst (λ s. Inv r'.user s) (some_injective (if-true _ y e)) v.0)
  | inr n ↦ find_reg-Inv k rs r (if-false _ n e) v.1
]

pub found_or_new-Inv :
    (k : Bytes) (now : ℕ) (garbage : Bool) (rs : Registrations)
    → Kept rs
    → Inv k (found_or_new k now garbage (find_reg k rs))
found_or_new-Inv k now garbage rs v = elim (Option-cases (find_reg k rs)) [
  | inl e ↦ rw e (new_registration-Inv k now garbage)
  | inr (r, e) ↦ rw e (find_reg-Inv k rs r e v)
]

pub handle_packet-Inv :
    {u : Bytes} (check_auth : Packet → Packet → Bytes → Bool) (dir : Domain) (now : ℕ)
    (r r' : Registration) (pk : Packet) (sent : List Effect) (gone : Bool)
    → handle_packet check_auth dir now r pk ≡ some (r', sent, gone)
    → Inv u r
    → Inv u r'
unfolding handle_packet
handle_packet-Inv {u = u} check_auth dir now r r' pk sent gone e v =
    elim (Bool-cases pk.is_request) [
      | inl q ↦ elim (Bool-cases (pk.has_authorization && is_some r.auth_request)) [
        | inl a ↦
            reg_wait_auth-Inv check_auth dir now r r' pk sent gone (if-true _ a (if-true _ q e)) v
        | inr a ↦
            let (d, x, y) = >>=-eq-some (reg_start dir r pk) _ (if-false _ a (if-true _ q e)) in
            let same : d.0 ≡ r' = ground (arith, y) in
            subst (Inv u) same (reg_start-Inv dir r d.0 pk d.1 x v)
      ]
      | inr q ↦
          let (d, x, y) = >>=-eq-some (handle_response r pk) _ (if-false _ q e) in
          let same : d.0 ≡ r' = ground (arith, y) in
          subst (Inv u) same (handle_response-Inv r d.0 pk d.1 x v)
    ]

put_reg-Kept :
    (k : Bytes) (new : Registration) (rs : Registrations)
    → Inv k new
    → Kept rs
    → Kept (put_reg k new rs)
unfolding put_reg Kept
put_reg-Kept k new [] n v = (subst (λ u. Inv u new) (sym n.named) n, tt)
put_reg-Kept k new (r ∷ rs) n v = elim (Bool-cases (bytes_eq r.user k)) [
  | inl y ↦ rw y (subst (λ u. Inv u new) (sym n.named) n, v.1)
  | inr y ↦ rw y (v.0, put_reg-Kept k new rs n v.1)
]

pub erase_reg-Kept : (k : Bytes) (rs : Registrations) → Kept rs → Kept (erase_reg k rs)
unfolding erase_reg Kept
erase_reg-Kept k [] v = tt
erase_reg-Kept k (r ∷ rs) v = elim (Bool-cases (bytes_eq r.user k)) [
  | inl y ↦ rw y (erase_reg-Kept k rs v.1)
  | inr y ↦ rw y (v.0, erase_reg-Kept k rs v.1)
]

settle-Kept :
    (k : Bytes) (rs : Registrations) (r : Registration) (sent : List Effect) (gone : Bool)
    → Inv k r
    → Kept rs
    → Kept (settle k rs (r, sent, gone))
settle-Kept k rs r sent true i v = erase_reg-Kept k rs v
settle-Kept k rs r sent false i v = put_reg-Kept k r rs i v

-- A packet that is handled is ignored, or its handler's result is written to the container.
pub registrar_sip_packet-result :
    (check_auth : Packet → Packet → Bytes → Bool) (dir : Domain) (now : ℕ) (garbage : Bool)
    (rs rs' : Registrations) (pk : Packet) (sent : List Effect)
    → registrar_sip_packet check_auth dir now garbage rs pk ≡ some (rs', sent)
    → (rs ≡ rs')
      ⊎ ((d : Registration × List Effect × Bool) × (handle_packet check_auth dir now
              (found_or_new pk.user_host now garbage (find_reg pk.user_host rs))
              pk
            ≡ some d)
          × (settle pk.user_host rs d ≡ rs'))
unfolding registrar_sip_packet
registrar_sip_packet-result check_auth dir now garbage rs rs' pk sent e =
    elim (Bool-cases (ltb (size pk.request_uri) 4)) [
      | inl s ↦ inl (ap (λ p. p.0) (some_injective (if-true _ s e)))
      | inr s ↦
          let (d, x, y) =
            >>=-eq-some
              (handle_packet check_auth dir now
                (found_or_new pk.user_host now garbage (find_reg pk.user_host rs)) pk)
              _ (if-some pk.has_to (if-false _ s e)) in
          inr (d, x, ap (λ p. p.0) (some_injective y))
    ]

-- Whatever packet arrives and whatever the digest test says, a container in which every registration
-- is sound (a registered one has its accepted packet, and at most seven pings are outstanding) is
-- such a container afterwards.
pub registrar_sip_packet-Kept :
    (check_auth : Packet → Packet → Bytes → Bool) (dir : Domain) (now : ℕ) (garbage : Bool)
    (rs rs' : Registrations) (pk : Packet) (sent : List Effect)
    → registrar_sip_packet check_auth dir now garbage rs pk ≡ some (rs', sent)
    → Kept rs
    → Kept rs'
registrar_sip_packet-Kept check_auth dir now garbage rs rs' pk sent e v =
    elim (registrar_sip_packet-result check_auth dir now garbage rs rs' pk sent e) [
      | inl same ↦ subst Kept same v
      | inr (d, x, same) ↦
          let i =
            handle_packet-Inv check_auth dir now _ d.0 pk d.1 d.2 x
              (found_or_new-Inv pk.user_host now garbage rs v) in
          subst Kept same (settle-Kept pk.user_host rs d.0 d.1 d.2 i v)
    ]
