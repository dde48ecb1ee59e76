-- ===== src/Registrar.antt =====
-- sip/projectsipregistrar.h and projectsipregistrar.cpp: one registration. A handler returns the new
-- registration with what it sent, in order; `none` is a read through a null pointer. Times are in
-- seconds. The members `nextping` and `isavailable` are written and never read; the first is left out.
pub mod Handlers
pub mod Store
pub mod Access
pub mod Timer
pub mod Handshake
pub mod Removal
pub mod Report
use project_mediaswitch.Base.{
  ℕ, ◌+◌, ◌-◌, ◌%◌, Bool, true, false, ◌&&◌, List, [], ◌∷◌, ◌++◌, Bytes, Option, none, some, codes,
  ltb, ◌==◌, if◌then◌else◌, ℤ, pos, negsuc, ◌>>=◌,
}
use project_mediaswitch.Text.Substring.{Substring, str}
use project_mediaswitch.Directory.Tree.{Domain, control_host}
use project_mediaswitch.Directory.Domains.{lookup_domain_sub}
use project_mediaswitch.Sip.Packet.{Packet}

abbrev pub options_ping_frequency : ℕ
options_ping_frequency = 30

abbrev pub options_max_fail_count : ℕ
options_max_fail_count = 7

abbrev pub default_sip_expires : ℕ
default_sip_expires = 3600

-- projectsipregistration. `auth_request` is the packet that the 401 in `authrequest` answers: it is
-- from there that its headers are copied.
pub record Registration : Type 0 where
  pub user : Bytes
  pub registered : ℕ
  pub is_registered : Bool
  pub is_available : Bool
  pub expires : ℕ
  pub outstanding_ping : ℕ
  pub options_cseq : ℕ
  pub auth_request : Option Packet
  pub auth_accept : Option Packet
  pub current : Option Packet

-- A SIP answer: its status, the packet whose Via, To, From, Call-ID and CSeq it copies and whose
-- user its Contact names, the parameter "expires" of that Contact (0 for none), and whether it has
-- Min-Expires and a challenge.
pub record Reply : Type 0 where
  pub status : ℕ
  pub answered : Packet
  pub contact_expires : ℤ
  pub min_expires : Bool
  pub challenge : Bool

-- What a handler sends: an answer, an OPTIONS request to the accepted client, requests to the
-- control server, and the start of the timer.
pub data Effect : Type 0 where
  respond : Reply → Effect
  send_request : Packet → Bytes → ℕ → Effect
  control_put : Bytes → Packet → Bytes → Effect
  control_delete : Bytes → Effect
  set_timer : ℕ → Effect

abbrev pub Sent : Type 0
Sent = Option (Registration × List Effect)

-- The constructor. `isavailable` is not set there: any value may stand for it.
abbrev pub new_registration : Bytes → ℕ → Bool → Registration
new_registration user now garbage = record {
  user = user;
  registered = now;
  is_registered = false;
  is_available = garbage;
  expires = now + default_sip_expires;
  outstanding_ping = 0;
  options_cseq = 0;
  auth_request = none;
  auth_accept = none;
  current = none;
}

abbrev pub reply : ℕ → Packet → Reply
reply status pk = record {
  status = status;
  answered = pk;
  contact_expires = pos 0;
  min_expires = false;
  challenge = false;
}

-- `*ptr->controlhost` + "/reg/" + domain + '/' + user
abbrev pub control_uri : Bytes → Packet → Bytes → Bytes
control_uri host domain_of user =
    host ++ (codes "/reg/" ++ (str domain_of.uri_host ++ (b'/' ∷ user)))

-- What is done with a domain that the directory has; without one nothing is.
abbrev pub with_domain : Registration → (Bytes → List Effect) → Option Domain → Sent
with_domain r send none = some (r, [])
with_domain r send (some d) = control_host d >>= λ host. some (r, send host)

abbrev pub expire_accepted : Domain → Registration → Option Packet → Sent
expire_accepted dir r none = some (r, [])
expire_accepted dir r (some a) =
    lookup_domain_sub dir a.uri_host
    >>= with_domain r (λ host. control_delete (control_uri host a a.user) ∷ [])

-- expire()
unfoldable pub expire : Domain → Registration → Sent
expire dir r = expire_accepted dir (record r { is_registered = false }) r.auth_accept

-- sendoptions(). The URI of the request is read out of the Contact of the accepted packet and the user of
-- its Contact out of the To: without one of these the read goes through a null pointer.
unfoldable pub send_options : Registration → Sent
send_options r = r.auth_accept >>= λ a.
    if a.has_contact && a.has_to
    then some (
      record r { outstanding_ping = r.outstanding_ping + 1 },
      send_request a r.user r.options_cseq ∷ [],
    )
    else none

-- `-1 == expires` is "not said".
abbrev pub or_default : ℤ → ℤ
or_default (pos n) = pos n
or_default (negsuc n) = if n == 0 then pos default_sip_expires else negsuc n

abbrev pub is_zero : ℤ → Bool
is_zero (pos n) = n == 0
is_zero (negsuc n) = false

abbrev pub is_below : ℤ → ℕ → Bool
is_below (pos n) k = ltb n k
is_below (negsuc n) k = true

-- `now + seconds( expires )`; a time before the start of the clock counts as 0.
abbrev pub add_seconds : ℕ → ℤ → ℕ
add_seconds now (pos n) = now + n
add_seconds now (negsuc n) = now - (n + 1)
