-- ===== src/Registrar/Removal.antt =====
-- A REGISTER that asks for zero seconds, without credentials and with them.
use project_mediaswitch.Base.{
  ℕ, ◌≡◌, refl, sym, ap, ◌∙◌, Bool, true, false, ◌&&◌, List, [], Bytes, none, some, bytes_eq_refl,
  if-true, if-false, if-some, ltb, >>=-eq-some, some_injective, if◌then◌else◌, arith, pos,
}
use project_mediaswitch.Text.Substring.{size}
use project_mediaswitch.Directory.Tree.{Domain}
use project_mediaswitch.Sip.Packet.{Packet}
use project_mediaswitch.Registrar.{Registration, Effect, expire, or_default, is_zero}
use project_mediaswitch.Registrar.Handlers.{reg_start, reg_wait_auth}
use project_mediaswitch.Registrar.Handlers.Invariant.{expire-result}
use project_mediaswitch.Registrar.Access.{Authorised, registered_in}
use project_mediaswitch.Registrar.Store.Kept.{Kept, found_or_new-Inv}
use project_mediaswitch.Registrar.Store.Frame.{find_reg-erase_reg, find_reg-put_reg}
use project_mediaswitch.Registrar.Store.{
  Registrations, find_reg, erase_reg, is_some, found_or_new, handle_packet, registrar_sip_packet,
  put_reg, settle,
}

reg_start-zero :
    (dir : Domain) (r r' : Registration) (pk : Packet) (sent : List Effect)
    → pk.expires ≡ pos 0
    → reg_start dir r pk ≡ some (r', sent)
    → r' ≡ record r { is_registered = false }
unfolding reg_start
reg_start-zero dir r r' pk sent z e =
    let zero : is_zero (or_default pk.expires) ≡ true = ap (λ n. is_zero (or_default n)) z in
    let (d, x, y) = >>=-eq-some (expire dir r) _ (if-true _ zero e) in
    let same : d.0 ≡ r' = ground (arith, y) in sym same ∙ expire-result dir r d.0 d.1 x

-- In a container whose registrations are sound, a request for zero seconds to an address of four
-- bytes or more, which reads no null pointer, leaves the user that it is addressed to not
-- registered, though it has no credentials.
pub removal_without_digest :
    (check_auth : Packet → Packet → Bytes → Bool) (dir : Domain) (now : ℕ) (garbage : Bool)
    (rs rs' : Registrations) (pk : Packet) (sent : List Effect)
    → Kept rs
    → ltb (size pk.request_uri) 4 ≡ false
    → pk.is_request ≡ true
    → pk.has_authorization ≡ false
    → pk.expires ≡ pos 0
    → registrar_sip_packet check_auth dir now garbage rs pk ≡ some (rs', sent)
    → registered_in (find_reg pk.user_host rs') ≡ false
unfolding registrar_sip_packet handle_packet
removal_without_digest check_auth dir now garbage rs rs' pk sent v long request bare z e =
    let k = pk.user_host in
    let r = found_or_new k now garbage (find_reg k rs) in
    let (d, x, y) =
      >>=-eq-some (handle_packet check_auth dir now r pk) _
        (if-some pk.has_to (if-false _ long e)) in
    let no_answer : (pk.has_authorization && is_some r.auth_request) ≡ false = rw bare refl in
    let (d', x', y') =
      >>=-eq-some (reg_start dir r pk) _ (if-false _ no_answer (if-true _ request x)) in
    let off = reg_start-zero dir r d'.0 pk d'.1 z x' in
    let named = ap (λ s. s.user) off ∙ (found_or_new-Inv k now garbage rs v).named in
    let result : put_reg k d'.0 rs ≡ rs' =
      ap (settle k rs) (some_injective y') ∙ ap (λ p. p.0) (some_injective y) in
    ap (λ m. registered_in (find_reg k m)) (sym result)
    ∙ ap registered_in (find_reg-put_reg k k d'.0 rs named)
    ∙ ap (λ b. registered_in (if b then some d'.0 else find_reg k rs)) (bytes_eq_refl k)
    ∙ ap (λ s. s.is_registered) off

-- An answer to the challenge with the right digest, to an address of four bytes or more, with a To, that
-- asks for zero seconds takes the registration of its user out of the container, and nothing is sent for
-- it, not even a reply.
pub removal_with_digest :
    (check_auth : Packet → Packet → Bytes → Bool) (dir : Domain) (now : ℕ) (garbage : Bool)
    (rs : Registrations) (r : Registration) (pk : Packet)
    → find_reg pk.user_host rs ≡ some r
    → ltb (size pk.request_uri) 4 ≡ false
    → pk.is_request ≡ true
    → pk.has_to ≡ true
    → pk.has_authorization ≡ true
    → pk.expires ≡ pos 0
    → Authorised check_auth dir r pk
    → (rs' : Registrations) × (registrar_sip_packet check_auth dir now garbage rs pk
        ≡ some (rs', []))
      × (find_reg pk.user_host rs' ≡ none)
unfolding registrar_sip_packet handle_packet reg_wait_auth
removal_with_digest check_auth dir now garbage rs r pk found long request to credentials z a = (
  erase_reg pk.user_host rs,
  simp (
    long, to, found, request, credentials, a.challenge_sent, a.password_known, a.digest_right, z,
  ),
  find_reg-erase_reg pk.user_host pk.user_host rs
      ∙ ap (λ b. if b then none else find_reg pk.user_host rs) (bytes_eq_refl pk.user_host),
)
