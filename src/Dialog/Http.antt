-- ===== src/Dialog/Http.antt =====
-- sip/projectsipdialog.cpp: what the control server asks of the dialogs, and the count of them.
use project_mediaswitch.Base.{
  ℕ, Bool, true, false, List, [], Bytes, Option, none, some, codes, bytes_eq, length, get_elem?,
  ◌==◌, if◌then◌else◌, ℤ, pos, ◌>>=◌,
}
use project_mediaswitch.Sip.Json.{
  Json, Fields, object, no_fields, field, string, integer, has_key, at_key, as_object, as_int64,
  as_boolean, object_at, string_at, string_or,
}
use project_mediaswitch.Dialog.{Dialog, Garbage, Effect, Env, new_dialog}
use project_mediaswitch.Dialog.Act.{Act, ◌>>◌, through, modify, skip, set_retries, narrow}
use project_mediaswitch.Dialog.Answers.{answer, ok, ringing}
use project_mediaswitch.Dialog.Requests.{hangup, notify_client}
use project_mediaswitch.Dialog.Invite.{send_invite, invite_again}
use project_mediaswitch.Dialog.Store.{Dialogs, find_dialog, settle}

-- The answer to a web request: the status line, where one is set, and the JSON that it carries.
pub record Answer : Type 0 where
  pub line : Option (ℤ × Bytes)
  pub content : Option Json

abbrev pub plain : ℤ → Bytes → Answer
plain code reason = record { line = some (code, reason); content = none }

abbrev pub with_content : Json → Answer
with_content v = record { line = some (pos 200, codes "Ok"); content = some v }

-- httpget; `counter` is `projectsipdialogcounter`.
unfoldable pub http_get : Dialogs → ℕ → Answer
http_get ds counter = with_content (
    object (
      field (codes "count") (integer (pos (length ds)))
        (field (codes "counter") (integer (pos counter)) no_fields)))

-- A request with an SDP has it kept, and then answered with as text.
abbrev pub with_sdp : Env → Fields → (Bytes → Act) → Act
with_sdp env b k =
    if has_key (codes "sdp") b
    then modify (λ d. record d { our_sdp = at_key (codes "sdp") b })
      >> through (object_at (codes "sdp") b) (λ fs. k (env.json_to_sdp (object fs)))
    else k []

abbrev pub put_ring : Env → Fields → Act
put_ring env b =
    through (string_or [] (codes "alertinfo") b)
      (λ info. modify (λ d. record d { alert_info = info }) >> ringing env)

abbrev pub hangup_code : Fields → Option ℤ
hangup_code b =
    if has_key (codes "code") b
    then (as_int64 (at_key (codes "code") b) >>= λ n. some (narrow n))
    else some (pos 404)

abbrev pub put_hangup : Env → Fields → Act
put_hangup env b =
    set_retries 3
    >> through (string_or [] (codes "reason") b) (λ reason.
      through (hangup_code b)
        (λ code. modify (λ d. record d { error_reason = reason; error_code = code }) >> hangup env))

pub data Action : Type 0 where
  put_answer put_invite put_ring_action put_ok put_notify put_hangup_action put_unknown : Action

-- The comparisons of `action` with the names.
unfoldable pub action_of : Bytes → Action
action_of a =
    if bytes_eq a (codes "answer")
    then put_answer
    else if bytes_eq a (codes "invite")
    then put_invite
    else if bytes_eq a (codes "ring")
    then put_ring_action
    else if bytes_eq a (codes "ok")
    then put_ok
    else if bytes_eq a (codes "notify")
    then put_notify
    else if bytes_eq a (codes "hangup")
    then put_hangup_action
    else put_unknown

-- What an action does with its dialog.
unfoldable pub run_action : Env → Fields → Action → Act
unfolding answer invite_again ringing ok notify_client hangup
run_action env b put_answer = set_retries 3 >> with_sdp env b (answer env)
run_action env b put_invite = with_sdp env b (λ sdp. invite_again env)
run_action env b put_ring_action = put_ring env b
run_action env b put_ok = set_retries 3 >> with_sdp env b (ok env)
run_action env b put_notify = notify_client env
run_action env b put_hangup_action = put_hangup env b
run_action env b put_unknown = skip

abbrev pub action_answer : Action → Answer
action_answer put_invite = record { line = none; content = none }
action_answer put_unknown = plain (pos 404) (codes "Not found")
action_answer _ = plain (pos 200) (codes "Ok")

abbrev pub Handled : Type 0
Handled = Option (Dialogs × List Effect × Answer)

abbrev pub put_on : Env → Dialogs → Fields → Action → Bytes → Option Dialog → Handled
put_on env ds b a k none = some (ds, [], plain (pos 404) (codes "Not found"))
put_on env ds b a k (some d) =
    run_action env b a d >>= λ done. some (settle k ds done.0, done.1, action_answer a)

-- httpput; its test of the length of the path lets a path of one part through.
unfoldable pub http_put : Env → Dialogs → List Bytes → Json → Handled
unfolding action_of run_action find_dialog
http_put env ds path content = as_object content >>= λ b.
    if length path == 0
    then some (ds, [], plain (pos 404) (codes "Not found"))
    else if has_key (codes "callid") b
    then (get_elem? path 1 >>= λ a.
        string_at (codes "callid") b >>= λ k. put_on env ds b (action_of a) k (find_dialog k ds))
    else some (ds, [], plain (pos 404) (codes "Not found"))

-- The members of a new dialog that the request sets; `none` is a `boost::bad_get`.
abbrev pub domain_of : Bytes → Fields → Option Bytes
domain_of own to = if has_key (codes "domain") to then string_at (codes "domain") to else some own

abbrev pub hide_of : Bool → Fields → Option Bool
hide_of old cid =
    if has_key (codes "private") cid then as_boolean (at_key (codes "private") cid) else some old

unfoldable pub requested : Fields → Dialog → Option Dialog
requested b d = object_at (codes "from") b >>= λ from. string_at (codes "domain") from >>= λ domain.
    string_at (codes "user") from >>= λ user.
    string_or d.auth_secret (codes "authsecret") from >>= λ secret.
    object_at (codes "to") b >>= λ to. domain_of domain to >>= λ to_domain.
    string_at (codes "user") to >>= λ to_user. as_int64 (at_key (codes "maxforwards") b) >>= λ hops.
    object_at (codes "cid") b >>= λ cid. string_at (codes "number") cid >>= λ number.
    string_at (codes "name") cid >>= λ name. hide_of d.hide_cid cid >>= λ hide.
    string_or d.control (codes "control") b >>= λ control. some (record d {
      domain = domain;
      from_user = user;
      auth_secret = secret;
      to_domain = to_domain;
      to_user = to_user;
      max_forwards = narrow hops;
      caller_id = number;
      caller_id_name = name;
      hide_cid = hide;
      control = control;
      our_sdp = at_key (codes "sdp") b;
    })

-- What the caller is told of the INVITE.
abbrev pub invite_answer : Dialog → Bool → Answer
invite_answer d false = plain d.error_code d.error_reason
invite_answer d true = with_content (object (field (codes "callid") (string d.call_id) no_fields))

abbrev pub call_out : Env → Dialogs → Option Dialog → Handled
call_out env ds none = some (ds, [], plain (pos 500) (codes "Missing param or params in invite"))
call_out env ds (some d) = send_invite env d >>= λ done.
    some (settle d.call_id ds done.0, done.1, invite_answer done.0 done.2)

-- httppost; `call_id` is that of `projectsippacket::callid`. Any other action sets no answer.
unfoldable pub http_post : Garbage → Bytes → Env → Dialogs → List Bytes → Json → Handled
unfolding requested send_invite
http_post g call_id env ds path content = get_elem? path 1 >>= λ a.
    if bytes_eq a (codes "invite")
    then call_out env ds (
        as_object content >>= λ b.
        requested b
          (record (new_dialog g env.now) { call_id = call_id; originator = true; tracked = true }))
    else some (ds, [], record { line = none; content = none })
