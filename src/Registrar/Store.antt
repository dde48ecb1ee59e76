-- ===== src/Registrar/Store.antt =====
-- sip/projectsipregistrar.cpp: the container `regs` of the registrations, which has one index, the
-- user, and the functions that work on it.
pub mod Frame
pub mod Kept
use project_mediaswitch.Base.{
  ℕ, Bool, true, false, ◌&&◌, List, [], ◌∷◌, Bytes, Option, none, some, bytes_eq, ltb,
  if◌then◌else◌, ◌>>=◌,
}
use project_mediaswitch.Text.Substring.{size}
use project_mediaswitch.Directory.Tree.{Domain, control_host}
use project_mediaswitch.Directory.Domains.{lookup_domain_sub}
use project_mediaswitch.Sip.Packet.{Packet}
use project_mediaswitch.Registrar.{
  Registration, Effect, control_delete, Sent, new_registration, control_uri,
}
use project_mediaswitch.Registrar.Handlers.{reg_start, reg_wait_auth, handle_response}

-- projectsipregistrations
abbrev pub Registrations : Type 0
Registrations = List Registration

-- find, erase and insert of the index `regindexuser`; a write through the pointer that the container
-- holds is the change of the entry at its place.
unfoldable pub find_reg : Bytes → Registrations → Option Registration
find_reg k [] = none
find_reg k (r ∷ rs) = if bytes_eq r.user k then some r else find_reg k rs

unfoldable pub erase_reg : Bytes → Registrations → Registrations
erase_reg k [] = []
erase_reg k (r ∷ rs) = if bytes_eq r.user k then erase_reg k rs else r ∷ erase_reg k rs

unfoldable pub put_reg : Bytes → Registration → Registrations → Registrations
put_reg k new [] = new ∷ []
put_reg k new (r ∷ rs) = if bytes_eq r.user k then new ∷ rs else r ∷ put_reg k new rs

abbrev pub is_some {ℓ} : {A : Type ℓ} → Option A → Bool
is_some none = false
is_some (some a) = true

-- The registration that the packet is for: the one in the container, or a new one.
abbrev pub found_or_new : Bytes → ℕ → Bool → Option Registration → Registration
found_or_new user now garbage none = new_registration user now garbage
found_or_new user now garbage (some r) = r

-- What a handler did to the registration, and whether it took it out of the container.
unfoldable pub handle_packet :
    (Packet → Packet → Bytes → Bool)
    → Domain
    → ℕ
    → Registration
    → Packet
    → Option (Registration × List Effect × Bool)
handle_packet check_auth dir now r pk =
    if pk.is_request
    then if pk.has_authorization && is_some r.auth_request
      then reg_wait_auth check_auth dir now r pk
      else (reg_start dir r pk >>= λ done. some (done.0, done.1, false))
    else (handle_response r pk >>= λ done. some (done.0, done.1, false))

abbrev pub settle : Bytes → Registrations → Registration × List Effect × Bool → Registrations
settle k rs (r, sent, gone) = if gone then erase_reg k rs else put_reg k r rs

-- registrarsippacket. The user is read out of the To, by way of a null pointer where there is none.
unfoldable pub registrar_sip_packet :
    (Packet → Packet → Bytes → Bool)
    → Domain
    → ℕ
    → Bool
    → Registrations
    → Packet
    → Option (Registrations × List Effect)
unfolding find_reg handle_packet
registrar_sip_packet check_auth dir now garbage rs pk =
    if ltb (size pk.request_uri) 4
    then some (rs, [])
    else if pk.has_to
    then (handle_packet check_auth dir now
          (found_or_new pk.user_host now garbage (find_reg pk.user_host rs)) pk
        >>= λ done. some (settle pk.user_host rs done, done.1))
    else none

-- httpcallbackanddie, on the registration that asked the control server
unfoldable pub http_callback_and_die : Registration → Registrations → Registrations
unfolding erase_reg
http_callback_and_die r rs = if r.is_registered then rs else erase_reg r.user rs

-- unavailable
unfoldable pub unavailable : Domain → Registration → Sent
unavailable dir r = r.auth_accept >>= λ a. lookup_domain_sub dir a.uri_host >>= λ o. o >>= λ d.
    control_host d >>= λ host.
    some (record r { is_available = false }, control_delete (control_uri host a a.user) ∷ [])

-- sendtoregisteredclient: the packet whose sender `pk` is passed on to, if there is one.
unfoldable pub send_to_registered_client : Registrations → Bytes → Option Packet
unfolding find_reg
send_to_registered_client rs user = find_reg user rs >>= λ r. r.auth_accept
