-- ===== src/Registrar/Handlers.antt =====
-- The state functions of a registration: regstart, regwaitauth, handleresponse and timerhandler.
pub mod Invariant
use project_mediaswitch.Base.{
  ℕ, ◌+◌, ◌-◌, ◌%◌, Bool, true, false, not, List, [], ◌∷◌, ◌++◌, Bytes, Option, none, some, codes,
  ltb, ◌==◌, if◌then◌else◌, ℤ, pos, negsuc, ◌>>=◌,
}
use project_mediaswitch.Text.Substring.{Substring, size}
use project_mediaswitch.Text.Substring.Find.{find_str}
use project_mediaswitch.Text.Substring.Compare.{ne_sub}
use project_mediaswitch.Directory.Tree.{Domain}
use project_mediaswitch.Directory.Domains.{lookup_domain_sub, lookup_password_sub}
use project_mediaswitch.Sip.Packet.{Packet}
use project_mediaswitch.Registrar.{
  Registration, Reply, Effect, respond, set_timer, control_put, Sent, reply, control_uri,
  with_domain, expire, send_options, or_default, is_zero, is_below, add_seconds,
  options_ping_frequency, options_max_fail_count, default_sip_expires,
}

-- regstart
unfoldable pub reg_start : Domain → Registration → Packet → Sent
unfolding expire
reg_start dir r pk =
    if is_zero (or_default pk.expires)
    then (expire dir r >>= λ done.
        some (done.0, respond (record (reply 200 pk) { min_expires = true }) ∷ done.1))
    else if is_below (or_default pk.expires) default_sip_expires
    then some (r, respond (record (reply 423 pk) { min_expires = true }) ∷ [])
    else some (
      record r { auth_request = some pk },
      respond (record (reply 401 pk) { challenge = true }) ∷ [],
    )

-- The registration of an accepted client, as it is before the control server is told.
abbrev pub accept : ℕ → ℤ → Registration → Packet → Registration
accept now expires r pk = record r {
  outstanding_ping = 0;
  auth_accept = some pk;
  expires = add_seconds now expires;
  registered = if r.is_registered then r.registered else now;
  is_registered = true;
  is_available = true;
}

-- The control server is told, and the challenge is used up.
abbrev pub tell_control : Registration → Packet → List Effect → Option Domain → Sent
tell_control r pk sent none = some (r, sent)
tell_control r pk sent (some d) =
    with_domain (record r { auth_request = none })
      (λ host. sent ++ (control_put (control_uri host pk pk.user) pk r.user ∷ [])) (some d)

-- What regwaitauth does for a client with the right password; the Bool says that the registration
-- was taken out of the container.
abbrev pub reg_accepted :
    Domain → ℕ → Registration → Packet → Packet → Option (Registration × List Effect × Bool)
reg_accepted dir now r challenged pk =
    if is_zero pk.expires
    then some (r, [], true)
    else if ne_sub challenged.challenge_cseq pk.cseq
    then some (r, [], false)
    else (lookup_domain_sub dir pk.uri_host
        >>= tell_control (accept now (or_default pk.expires) r pk) pk (
            respond (record (reply 200 pk) { contact_expires = or_default pk.expires })
            ∷ set_timer options_ping_frequency
            ∷ [])
        >>= λ done. some (done.0, done.1, false))

abbrev pub is_true : Option Bool → Bool
is_true none = false
is_true (some b) = b

-- `!password || !checkauth( … )`, as its opposite.
abbrev pub passes : (Packet → Packet → Bytes → Bool) → Packet → Packet → Option Bytes → Bool
passes check_auth pk challenged none = false
passes check_auth pk challenged (some password) = check_auth pk challenged password

abbrev pub reg_answered :
    (Packet → Packet → Bytes → Bool)
    → Domain
    → ℕ
    → Registration
    → Packet
    → Option Bytes
    → Option Packet
    → Option (Registration × List Effect × Bool)
reg_answered check_auth dir now r pk password none =
    reg_start dir r pk >>= λ done. some (done.0, done.1, false)
reg_answered check_auth dir now r pk password (some challenged) =
    if passes check_auth pk challenged password
    then reg_accepted dir now r challenged pk
    else some (r, respond (reply 403 pk) ∷ [], false)

-- regwaitauth. `check_auth pk challenged password` is `pk->checkauth( authrequest, password )`, an MD5
-- digest over both packets.
unfoldable pub reg_wait_auth :
    (Packet → Packet → Bytes → Bool)
    → Domain
    → ℕ
    → Registration
    → Packet
    → Option (Registration × List Effect × Bool)
reg_wait_auth check_auth dir now r pk =
    lookup_password_sub dir pk.auth_realm pk.auth_username >>= λ password.
    reg_answered check_auth dir now (record r { current = some pk }) pk password r.auth_request

abbrev pub unsigned_mod : ℕ
unsigned_mod = 4294967296

-- handleresponse: an answer to our OPTIONS takes one outstanding ping away.
unfoldable pub handle_response : Registration → Packet → Sent
handle_response r pk = elim r.auth_accept [
  | none ↦ some (r, [])
  | some a ↦ find_str pk.cseq (codes "OPTIONS") >>= λ found. some (
    if size found == 0 then r else record r {
      options_cseq = (r.options_cseq + 1) % unsigned_mod;
      outstanding_ping = if r.outstanding_ping == 0 then 0 else r.outstanding_ping - 1;
    },
    [],
  )
]

-- timerhandler; `aborted` is `operation_aborted`.
unfoldable pub timer_handler : Domain → ℕ → Bool → Registration → Sent
unfolding expire send_options
timer_handler dir now aborted r =
    if aborted
    then some (r, [])
    else if ltb r.expires now
    then expire dir r
    else if r.outstanding_ping == options_max_fail_count
    then expire dir r
    else (send_options r >>= λ done.
        some (done.0, done.1 ++ (set_timer options_ping_frequency ∷ [])))
