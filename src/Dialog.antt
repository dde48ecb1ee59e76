-- ===== src/Dialog.antt =====
-- sip/projectsipdialog.h: the state of a dialog, what it sends, and the steps that its functions are
-- made of. A step returns the new dialog with what it sent, in order; `none` is a read through a null
-- pointer or an exception that nothing catches. The members `setimer` (never used) and
-- `lastackpacket` (written and never read) are left out.
pub mod Challenges
pub mod Invite
pub mod Act
pub mod Endpoint
pub mod Answers
pub mod Requests
pub mod States
pub mod Timers
pub mod Store
pub mod Http
pub mod Call
pub mod Leads
pub mod Silence
pub mod Admission
use project_mediaswitch.Base.{
  ℕ, ◌+◌, ◌-◌, ◌%◌, Bool, true, false, List, [], ◌∷◌, ◌++◌, Bytes, Option, none, some, ltb,
  if◌then◌else◌, ℤ, pos, negsuc, ◌>>=◌,
}
use project_mediaswitch.Text.Substring.{Substring, empty, of_string, is_valid, str}
use project_mediaswitch.Directory.Tree.{Domain}
use project_mediaswitch.Sip.Json.{Json, object, no_fields}
use project_mediaswitch.Sip.Packet.{Packet}
use project_mediaswitch.Sip.Message.{Message}
use project_mediaswitch.Registrar.Store.{Registrations}

abbrev pub dialog_setup_timeout : ℕ
dialog_setup_timeout = 180000

abbrev pub dialog_ack_timeout : ℕ
dialog_ack_timeout = 3000

-- What `nextstate` is bound to.
pub data State : Type 0 where
  invite_start invite_auth wait_for_ack_then_invite_auth : State
  wait_for_next_instruction wait_for_ack wait_for_ack_and_die : State
  wait_for_200 wait_for_200_and_die wait_for_200_then_ack_and_die : State
  wait_for_invite_progress wait_for_invite_progress_after_auth : State

-- What the timer is bound to.
pub data Timer : Type 0 where
  on_timeout_end_dialog on_timeout_486_and_end_dialog : Timer
  resend_200 resend_401 resend_error resend_bye resend_cancel resend_notify : Timer

-- `retries` is an `int` that is set to 3 and taken down when it is not 0. `tracked` says that the
-- container has the dialog.
pub record Dialog : Type 0 where
  pub call_id : Bytes
  pub alert_info : Bytes
  pub cseq : ℕ
  pub next_state : State
  pub invite_pk : Option Packet
  pub refer_pk : Option Packet
  pub ack_pk : Option Packet
  pub auth_request : Option Message
  pub timer : Option (Timer × ℕ)
  pub retries : ℕ
  pub authenticated : Bool
  pub originator : Bool
  pub domain : Bytes
  pub remote_sdp : Json
  pub our_sdp : Json
  pub call_ringing : Bool
  pub call_answered : Bool
  pub call_hung_up : Bool
  pub call_hold : Bool
  pub start_at : ℕ
  pub ringing_at : ℕ
  pub answer_at : ℕ
  pub end_at : ℕ
  pub our_tag : Bytes
  pub their_tag : Substring
  pub auth_secret : Bytes
  pub from_user : Bytes
  pub to_domain : Bytes
  pub to_user : Bytes
  pub max_forwards : ℤ
  pub caller_id : Bytes
  pub caller_id_name : Bytes
  pub hide_cid : Bool
  pub control : Bytes
  -- projectsipendpoint
  pub last_received : Option Packet
  pub last_authenticated : Option Packet
  pub error_code : ℤ
  pub error_reason : Bytes
  pub tracked : Bool

-- The values that nothing sets before they are read: `rand()`, the tag, `maxforwards` and `hidecid`.
pub record Garbage : Type 0 where
  pub random : ℕ
  pub tag : Bytes
  pub max_forwards : ℤ
  pub hide_cid : Bool

-- The constructors of projectsipdialog and projectsipendpoint.
abbrev pub new_dialog : Garbage → ℕ → Dialog
new_dialog g now = record {
  call_id = [];
  alert_info = [];
  cseq = g.random;
  next_state = invite_start;
  invite_pk = none;
  refer_pk = none;
  ack_pk = none;
  auth_request = none;
  timer = none;
  retries = 3;
  authenticated = false;
  originator = false;
  domain = [];
  remote_sdp = object no_fields;
  our_sdp = object no_fields;
  call_ringing = false;
  call_answered = false;
  call_hung_up = false;
  call_hold = false;
  start_at = now;
  ringing_at = 0;
  answer_at = 0;
  end_at = 0;
  our_tag = g.tag;
  their_tag = empty;
  auth_secret = [];
  from_user = [];
  to_domain = [];
  to_user = [];
  max_forwards = g.max_forwards;
  caller_id = [];
  caller_id_name = [];
  hide_cid = g.hide_cid;
  control = [];
  last_received = none;
  last_authenticated = none;
  error_code = pos 0;
  error_reason = [];
  tracked = false;
}

-- The object that the control server is told: "to", "from", "contact" and "maxforwards" of the INVITE,
-- "to" and "replaces" of the REFER, "remote" of the last packet, and the members of the dialog.
pub record Report : Type 0 where
  pub call_id : Bytes
  pub domain : Bytes
  pub invited : Option (Bytes × Bytes × Bytes × ℤ)
  pub referred : Option (Bytes × Option Bytes)
  pub authenticated : Bool
  pub ring : Bool
  pub answered : Bool
  pub hold : Bool
  pub originator : Bool
  pub hangup : Bool
  pub error : ℤ × Bytes
  pub remote : Option (Bytes × ℕ)
  pub sdp : Json × Json
  pub epochs : ℕ × ℕ × ℕ × ℕ

-- What a dialog sends: a packet to where a packet came from, a packet to a host that the DNS is asked
-- for, and the PUT of a report.
pub data Effect : Type 0 where
  send_to : Packet → Message → Effect
  resolve : Bytes → Message → Effect
  control_put : Bytes → Report → Effect

-- What is around a dialog: the directory, the registrations, the clock, and the functions that are not
-- modelled (`digest` is the comparison of `checkauth` once there is a challenge, `read` the packet
-- class on a composed packet, `lexical_cast` boost's), and the nonce that `addwwwauthenticateheader` makes.
pub record Env : Type 0 where
  pub directory : Domain
  pub registrations : Registrations
  pub now : ℕ
  pub nonce : Bytes
  pub digest : Packet → Message → Bytes → Bool
  pub read : Message → Packet
  pub sdp_to_json : Bytes → Json → Json
  pub json_to_sdp : Json → Bytes
  pub lexical_cast : Bytes → Option ℤ
