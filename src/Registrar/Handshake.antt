-- ===== src/Registrar/Handshake.antt =====
-- Two REGISTER packets after one another: the challenge and its answer.
use project_mediaswitch.Base.{
  ℕ, ◌≡◌, refl, sym, ap, ◌∙◌, Bool, true, false, List, [], ◌∷◌, Bytes, Option, none, some,
  bytes_eq_refl, ltb, ◌>>=◌, if◌then◌else◌, arith, ℤ, pos, negsuc,
}
use project_mediaswitch.Text.Substring.{size}
use project_mediaswitch.Text.Substring.Compare.{ne_sub}
use project_mediaswitch.Directory.Tree.{Domain, control_host}
use project_mediaswitch.Directory.Domains.{lookup_domain_sub, lookup_password_sub}
use project_mediaswitch.Sip.Packet.{Packet}
use project_mediaswitch.Registrar.{
  Registration, Effect, respond, reply, set_timer, control_put, control_uri, or_default, is_zero,
  is_below, add_seconds,
}
use project_mediaswitch.Registrar.Handlers.{reg_start, reg_wait_auth, accept}
use project_mediaswitch.Registrar.Store.Kept.{Kept, found_or_new-Inv}
use project_mediaswitch.Registrar.Store.Frame.{find_reg-settle}
use project_mediaswitch.Registrar.Store.{
  Registrations, find_reg, put_reg, found_or_new, handle_packet, registrar_sip_packet,
}

-- A REGISTER without credentials for an hour or more.
pub record Asks (pk : Packet) : Type 0 where
  pub long_uri : ltb (size pk.request_uri) 4 ≡ false
  pub is_request : pk.is_request ≡ true
  pub addressed : pk.has_to ≡ true
  pub no_credentials : pk.has_authorization ≡ false
  pub long_time : is_below (or_default pk.expires) 3600 ≡ false

-- A REGISTER that answers the challenge to `asked` and does not ask to be removed.
pub record Answers (check_auth : Packet → Packet → Bytes → Bool) (dir : Domain) (host : Bytes)
    (asked pk : Packet) : Type 0 where
  pub long_uri : ltb (size pk.request_uri) 4 ≡ false
  pub is_request : pk.is_request ≡ true
  pub addressed : pk.has_to ≡ true
  pub same_user : pk.user_host ≡ asked.user_host
  pub credentials : pk.has_authorization ≡ true
  pub stays : is_zero pk.expires ≡ false
  pub same_cseq : ne_sub asked.challenge_cseq pk.cseq ≡ false
  pub password : Bytes
  pub password_known : lookup_password_sub dir pk.auth_realm pk.auth_username ≡ some (some password)
  pub digest_right : check_auth pk asked password ≡ true
  pub home : Domain
  pub home_known : lookup_domain_sub dir pk.uri_host ≡ some (some home)
  pub home_hosted : control_host home ≡ some host

below_not_zero : (n : ℤ) → is_below n 3600 ≡ false → is_zero n ≡ false
below_not_zero (pos n) h = ground (arith, h)
below_not_zero (negsuc n) h = refl

-- The 401.
challenge :
    (dir : Domain) (r : Registration) (pk : Packet)
    → Asks pk
    → reg_start dir r pk
      ≡ some (
        record r { auth_request = some pk },
        respond (record (reply 401 pk) { challenge = true }) ∷ [],
      )
unfolding reg_start
challenge dir r pk a =
    let z = below_not_zero (or_default pk.expires) a.long_time in simp (z, a.long_time)

handle_packet-Asks :
    (check_auth : Packet → Packet → Bytes → Bool) (dir : Domain) (now : ℕ) (r : Registration)
    (pk : Packet)
    → Asks pk
    → handle_packet check_auth dir now r pk
      ≡ some (
        record r { auth_request = some pk },
        respond (record (reply 401 pk) { challenge = true }) ∷ [],
        false,
      )
unfolding handle_packet
handle_packet-Asks check_auth dir now r pk a =
    simp (a.is_request, a.no_credentials, challenge dir r pk a)

-- The 200.
handle_packet-Answers :
    (check_auth : Packet → Packet → Bytes → Bool) (dir : Domain) (now : ℕ) (host : Bytes)
    (r : Registration) (asked pk : Packet)
    → Answers check_auth dir host asked pk
    → r.auth_request ≡ some asked
    → (sent : List Effect) × (handle_packet check_auth dir now r pk
        ≡ some (
          record (accept now (or_default pk.expires) (record r { current = some pk }) pk) {
            auth_request = none;
          },
          sent,
          false,
        ))
unfolding handle_packet reg_wait_auth
handle_packet-Answers check_auth dir now host r asked pk a c = (
  respond (record (reply 200 pk) { contact_expires = or_default pk.expires })
      ∷ set_timer 30
      ∷ control_put (control_uri host pk pk.user) pk r.user
      ∷ [],
  simp (
    a.is_request, a.credentials, c, a.password_known, a.digest_right, a.stays, a.same_cseq,
    a.home_known, a.home_hosted,
  ),
)

-- A handled packet that leaves its registration in the container.
settled :
    (check_auth : Packet → Packet → Bytes → Bool) (dir : Domain) (now : ℕ) (garbage : Bool)
    (rs : Registrations) (pk : Packet) (r' : Registration) (sent : List Effect)
    → ltb (size pk.request_uri) 4 ≡ false
    → pk.has_to ≡ true
    → handle_packet check_auth dir now
        (found_or_new pk.user_host now garbage (find_reg pk.user_host rs))
        pk
      ≡ some (r', sent, false)
    → registrar_sip_packet check_auth dir now garbage rs pk
      ≡ some (put_reg pk.user_host r' rs, sent)
unfolding registrar_sip_packet
settled check_auth dir now garbage rs pk r' sent long to h = simp (long, to, h)

-- The two packets.
abbrev pub handshake :
    (Packet → Packet → Bytes → Bool)
    → Domain
    → ℕ
    → ℕ
    → Bool
    → Registrations
    → Packet
    → Packet
    → Option (Registrations × List Effect)
handshake check_auth dir now later garbage rs asked pk =
    registrar_sip_packet check_auth dir now garbage rs asked >>= λ s.
    registrar_sip_packet check_auth dir later garbage s.0 pk

-- In a container whose registrations are sound, after two requests with a To to addresses of four
-- bytes or more, a REGISTER without credentials for at least an hour and one for the same user with the
-- right digest, whose CSeq passes the comparison, whose own time is not 0 and whose domain has a
-- control server, the user is registered from the second packet, with no ping outstanding and no
-- challenge left, until the time that the second packet asks for, an hour if it names none.
pub handshake_registers :
    (check_auth : Packet → Packet → Bytes → Bool) (dir : Domain) (host : Bytes) (now later : ℕ)
    (garbage : Bool) (rs : Registrations) (asked pk : Packet)
    → Kept rs
    → Asks asked
    → Answers check_auth dir host asked pk
    → (rs' : Registrations) × (sent : List Effect) × (r : Registration) × (handshake check_auth dir
          now later garbage rs asked pk
        ≡ some (rs', sent))
      × (find_reg asked.user_host rs' ≡ some r)
      × (r.is_registered ≡ true)
      × (r.auth_accept ≡ some pk)
      × (r.auth_request ≡ none)
      × (r.outstanding_ping ≡ 0)
      × (r.expires ≡ add_seconds later (or_default pk.expires))
handshake_registers check_auth dir host now later garbage rs asked pk v q a =
    let k = asked.user_host in
    let r0 = found_or_new k now garbage (find_reg k rs) in
    let named = (found_or_new-Inv k now garbage rs v).named in
    let r1 = record r0 { auth_request = some asked } in
    let rs1 = put_reg k r1 rs in
    let first =
      settled check_auth dir now garbage rs asked r1 _ q.long_uri q.addressed
        (handle_packet-Asks check_auth dir now r0 asked q) in
    let found : find_reg k rs1 ≡ some r1 =
      find_reg-settle k k rs (r1, [], false) named
      ∙ ap (λ b. if b then some r1 else find_reg k rs) (bytes_eq_refl k) in
    let found' =
      ap (λ u. found_or_new u later garbage (find_reg u rs1)) a.same_user
      ∙ ap (found_or_new k later garbage) found in
    let (sent, handled) = handle_packet-Answers check_auth dir later host r1 asked pk a refl in
    let r2 = record (accept later (or_default pk.expires) (record r1 { current = some pk }) pk) {
      auth_request = none;
    } in
    let second =
      settled check_auth dir later garbage rs1 pk r2 sent a.long_uri a.addressed
        (ap (λ r. handle_packet check_auth dir later r pk) found' ∙ handled) in
    let rs2 = put_reg pk.user_host r2 rs1 in
    let found2 : find_reg k rs2 ≡ some r2 =
      ap (λ u. find_reg u rs2) (sym a.same_user)
      ∙ find_reg-settle pk.user_host pk.user_host rs1 (r2, [], false) (named ∙ sym a.same_user)
      ∙ ap (λ b. if b then some r2 else find_reg pk.user_host rs1) (bytes_eq_refl pk.user_host) in
    (
      rs2,
      sent,
      r2,
      ap (λ s. s >>= λ t. registrar_sip_packet check_auth dir later garbage t.0 pk) first ∙ second,
      found2,
      refl,
      refl,
      refl,
      refl,
      refl,
    )
