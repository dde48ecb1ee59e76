-- ===== src/Tests/Dialogs.antt =====
-- Tests of the dialogs: a call of the one user of one domain, admitted, refused and left alone.
use project_mediaswitch.Base.{
  ◌≡◌, refl, sym, ap, ◌∙◌, ◌>>=◌, some_injective, true, false, List, [], ◌∷◌, Bytes, Option, none,
  some, codes, bytes_eq, ℤ, pos, if◌then◌else◌, arith,
}
use project_mediaswitch.Text.Std.{find_first_of, c_string}
use project_mediaswitch.Text.Split.{split_string}
use project_mediaswitch.Text.Substring.{of_string, is_valid, size, str, to_int}
use project_mediaswitch.Text.Substring.Find.{mvend_first_of_char, find_str}
use project_mediaswitch.Directory.Tree.{find_user, find_domain}
use project_mediaswitch.Directory.Domains.{
  lookup_domain, lookup_domain_sub, lookup_password_sub, walk,
}
use project_mediaswitch.Sip.Packet.{Packet, invite, ack}
use project_mediaswitch.Dialog.{Garbage, Dialog, Effect, Env, resend_200, invite_auth}
use project_mediaswitch.Dialog.Act.{Sent, modify, ◌>>◌, with, through, skip, emit}
use project_mediaswitch.Dialog.Endpoint.{update_control, put_report, composed, send_pk, deliver}
use project_mediaswitch.Dialog.Answers.{trying}
use project_mediaswitch.Dialog.Challenges.{invite_auth_state, invited, take_sdp}
use project_mediaswitch.Dialog.States.{run_state}
use project_mediaswitch.Dialog.Store.{
  Dialogs, find_dialog, begin, receive, settle, put_dialog, erase_dialog, invite_sip_packet,
}
use project_mediaswitch.Dialog.Store.Frame.{
  Grants, invite_sip_packet-Grants, invite_sip_packet_frame,
}
use project_mediaswitch.Dialog.Call.{call_of, Moves, Kept, Stamped}
use project_mediaswitch.Dialog.Call.Events.{
  Event, received, timer_fired, step, run, rules_over, Admitting, step-Admitting, run-Moves,
  run-Kept, run-Stamped,
}
use project_mediaswitch.Dialog.Leads.{Leads}
use project_mediaswitch.Dialog.Silence.{Gone, Ready, view}
use project_mediaswitch.Dialog.Silence.Timers.{silent, silent-Gone}
use project_mediaswitch.Dialog.Admission.{challenge_of, Admitted, Readable}
use project_mediaswitch.Dialog.Admission.Calls.{inbound-Admitted, inbound-Dropped, Dropped}
use project_mediaswitch.Tests.Registrations.{lan, directory, asking, password_known}

-- A cast that knows two numbers.
abbrev lexical_cast : Bytes → Option ℤ
lexical_cast b =
    if bytes_eq b (codes "70")
    then some (pos 70)
    else if bytes_eq b (codes "0")
    then some (pos 0)
    else none

-- The digest passes for one password.
abbrev around : Bytes → Env
around secret = record {
  directory = directory;
  registrations = [];
  now = 9;
  nonce = codes "n";
  digest = λ pk m password. bytes_eq password secret;
  read = λ m. asking;
  sdp_to_json = λ text old. old;
  json_to_sdp = λ v. [];
  lexical_cast = lexical_cast;
}

abbrev env : Env
env = around (codes "s")

abbrev garbage : Garbage
garbage = record { random = 7; tag = codes "t"; max_forwards = pos 0; hide_cid = false }

abbrev k : Bytes
k = codes "a84b4c76"

abbrev first : Packet
first = record asking {
  method = invite;
  content_length = of_string (codes "0");
  content_type = of_string (codes "text");
}

abbrev acked : Packet
acked = record first { method = ack }

abbrev second : Packet
second = record first {
  auth_realm = of_string (codes "lan");
  auth_username = of_string (codes "1003");
}

second-Readable : (secret : Bytes) → Readable (around secret) second
unfolding to_int bytes_eq c_string find_str lookup_domain split_string find_domain walk
    find_first_of str
second-Readable secret = record {
  has_to = refl;
  has_from = refl;
  cseq = pos 1;
  has_cseq = refl;
  length = pos 0;
  has_length = refl;
  found = _;
  has_type = refl;
  report = _;
  reported = refl;
  home = lan;
  has_home = refl;
  host = codes "http://c";
  has_host = refl;
}

inbound-Admitted_example :
    Leads
      (run ((env, received first) ∷ (env, received acked) ∷ (env, received second) ∷ []))
      (begin garbage env k)
      (Admitted second)
unfolding bytes_eq
inbound-Admitted_example =
    inbound-Admitted env garbage k first acked second refl refl refl refl refl (codes "s")
      (second-Readable (codes "s")) refl password_known refl

-- A directory whose password is not the one that the digest was made with.
abbrev elsewhere : Env
elsewhere = around (codes "x")

inbound-Dropped_example :
    Leads
      (run (
        (elsewhere, received first)
        ∷ (elsewhere, received acked)
        ∷ (elsewhere, received second)
        ∷ (elsewhere, timer_fired false)
        ∷ []))
      (begin garbage elsewhere k)
      Dropped
unfolding bytes_eq
inbound-Dropped_example =
    inbound-Dropped elsewhere garbage k first acked second refl refl refl refl refl
      (some (codes "s")) password_known refl refl

-- The dialog whose challenge was acknowledged.
abbrev waiting : Dialog
waiting = record (begin garbage env k) {
  next_state = invite_auth;
  auth_request = some (challenge_of (codes "n") first);
}

abbrev dialog_of : Sent → Dialog
dialog_of none = waiting
dialog_of (some p) = p.0

abbrev sent_of : Sent → List Effect
sent_of none = []
sent_of (some p) = p.1

abbrev admission : Sent
admission = step env (received second) waiting

abbrev admitted : Dialog
admitted = dialog_of admission

admission_runs :
    (admission ≡ some (admitted, sent_of admission))
    × (admitted.authenticated ≡ true)
    × (admitted.tracked ≡ true)
    × (bytes_eq admitted.call_id k ≡ true)
unfolding composed step receive modify ◌>>◌ with through skip emit run_state invite_auth_state
    invited take_sdp update_control put_report trying send_pk deliver to_int bytes_eq c_string
    find_str lookup_domain split_string find_domain walk find_first_of str lookup_password_sub
    lookup_domain_sub mvend_first_of_char find_user size is_valid
admission_runs = (refl, refl, refl, refl)

step-Admitting_example : Admitting env (received second) waiting
step-Admitting_example =
    step-Admitting env (received second) waiting admitted (sent_of admission) admission_runs.0 refl
      admission_runs.1

-- The container with the dialog that waits, and after the packet.
abbrev before : Dialogs
before = waiting ∷ []

abbrev after : Dialogs
after = settle k before admitted

packet_taken : invite_sip_packet garbage env before second ≡ some (after, sent_of admission, true)
unfolding invite_sip_packet find_dialog bytes_eq step
packet_taken = ap (λ o. o >>= λ done. some (settle k before done.0, done.1, true)) admission_runs.0

found_after : find_dialog k after ≡ some admitted
unfolding find_dialog put_dialog erase_dialog bytes_eq
found_after =
    ap (λ b. find_dialog k (if b then admitted ∷ [] else [])) admission_runs.2
    ∙ ap (λ b. if b then some admitted else none) admission_runs.3

unauthenticated : (d : Dialog) → find_dialog k before ≡ some d → d.authenticated ≡ false
unfolding find_dialog bytes_eq
unauthenticated d e = ap (λ z. z.authenticated) (sym (some_injective e))

invite_sip_packet-Grants_example :
    (k ≡ k) × (d : Dialog) × (find_dialog k before ≡ some d) × Grants env second d
invite_sip_packet-Grants_example =
    invite_sip_packet-Grants garbage env before after second (sent_of admission) true k admitted
      packet_taken found_after admission_runs.1 unauthenticated

invite_sip_packet_frame_example :
    find_dialog (codes "other") after ≡ find_dialog (codes "other") before
unfolding bytes_eq
invite_sip_packet_frame_example =
    invite_sip_packet_frame garbage env before after second (sent_of admission) true (codes "other")
      packet_taken refl

-- The three packets of an admitted call.
abbrev packets : List (Env × Event)
packets = (env, received first) ∷ (env, received acked) ∷ (env, received second) ∷ []

call : Leads (run packets) (begin garbage env k) (Admitted second)
unfolding bytes_eq
call =
    inbound-Admitted env garbage k first acked second refl refl refl refl refl (codes "s")
      (second-Readable (codes "s")) refl password_known refl

run-Moves_example : Moves (rules_over packets) (call_of (begin garbage env k)) (call_of call.after)
run-Moves_example = run-Moves packets (begin garbage env k) call.after call.sent call.runs

run-Kept_example : Kept (call_of (begin garbage env k)) (call_of call.after)
run-Kept_example = run-Kept packets (begin garbage env k) call.after call.sent call.runs

run-Stamped_example : Stamped (call_of call.after)
run-Stamped_example = run-Stamped garbage env k packets call.after call.sent call.runs

-- A call that was answered, and whose ACK never comes.
abbrev answered : Dialog
answered = record waiting {
  timer = some (resend_200, 3000);
  invite_pk = some second;
  last_received = some second;
  control = codes "http://c";
}

answered-Ready : Ready env (view answered)
unfolding bytes_eq to_int c_string
answered-Ready = record {
  packet = second;
  received = refl;
  numbered = (pos 1, refl);
  addressed = refl;
  acked = tt;
  report = _;
  reported = refl;
  referral = _;
  referred = refl;
  known = refl;
}

silent-Gone_example : Leads (run (silent env 4)) answered Gone
silent-Gone_example =
    silent-Gone env 4 answered resend_200 3000 refl answered-Ready tt (omega arith)
