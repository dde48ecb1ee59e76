-- ===== src/Dialog/Timers.antt =====
-- sip/projectsipdialog.cpp and projectsipdialogrefer.cpp: what the timer of a dialog is bound to, and the
-- answer of the control server.
use project_mediaswitch.Base.{
  ℕ, ◌-◌, Bool, false, not, [], Option, none, some, if◌then◌else◌, ℤ, ◌==◌,
}
use project_mediaswitch.Dialog.{
  Env, dialog_ack_timeout, Timer, on_timeout_end_dialog, on_timeout_486_and_end_dialog, resend_200,
  resend_401, resend_error, resend_bye, resend_cancel, resend_notify,
}
use project_mediaswitch.Dialog.Act.{Act, ◌>>◌, with, modify, skip, wait_for_timer, untrack}
use project_mediaswitch.Dialog.Endpoint.{update_control}
use project_mediaswitch.Dialog.Answers.{send_401, temporarily_unavailable, send_200, send_error}
use project_mediaswitch.Dialog.Requests.{send_bye, send_cancel, send_notify}
use project_mediaswitch.Dialog.Invite.{is_code}

-- Once more, or, when no retries are left, the end.
abbrev pub once_more : Act → Act → Timer → Act
once_more again last t = with (λ d.
    if d.retries == 0
    then last
    else again
      >> modify (λ e. record e { retries = e.retries - 1 })
      >> wait_for_timer dialog_ack_timeout t)

-- resend200, resend401, resenderror and resendnotify end with untrack, resendbye and resendcancel with
-- a last report. A CANCEL is followed by BYEs.
abbrev pub resend_200_again : Env → Act
resend_200_again env = once_more (send_200 env [] false) untrack resend_200

abbrev pub resend_401_again : Env → Act
resend_401_again env = once_more (send_401 env) untrack resend_401

abbrev pub resend_error_again : Env → Act
resend_error_again env = once_more (send_error env) untrack resend_error

abbrev pub resend_bye_again : Env → Act
resend_bye_again env = once_more (send_bye env) (update_control env >> untrack) resend_bye

abbrev pub resend_cancel_again : Env → Act
resend_cancel_again env = once_more (send_cancel env) (update_control env >> untrack) resend_bye

abbrev pub resend_notify_again : Env → Act
resend_notify_again env = once_more (send_notify env) untrack resend_notify

-- The handlers, each under the name that the timer has for it.
unfoldable pub run_timer : Env → Timer → Act
unfolding update_control send_401 temporarily_unavailable send_200 send_error send_bye send_cancel
    send_notify
run_timer env on_timeout_end_dialog = untrack
run_timer env on_timeout_486_and_end_dialog = temporarily_unavailable env
run_timer env resend_200 = resend_200_again env
run_timer env resend_401 = resend_401_again env
run_timer env resend_error = resend_error_again env
run_timer env resend_bye = resend_bye_again env
run_timer env resend_cancel = resend_cancel_again env
run_timer env resend_notify = resend_notify_again env

-- The timer of a dialog, which is then not set until the handler sets it; `aborted` is
-- `operation_aborted`.
abbrev pub fired : Env → Bool → Option (Timer × ℕ) → Act
fired env aborted none = skip
fired env aborted (some t) =
    if aborted then skip else modify (λ d. record d { timer = none }) >> run_timer env t.0

unfoldable pub fire : Env → Bool → Act
unfolding run_timer
fire env aborted = with (λ d. fired env aborted d.timer)

abbrev pub is_200 : Option ℤ → Bool
is_200 none = false
is_200 (some code) = is_code 200 code

-- httpcallback, with whether the request failed and the status of the response, if there is one.
unfoldable pub http_callback : Env → Bool → Option ℤ → Act
unfolding temporarily_unavailable
http_callback env error status = with (λ d.
    if d.call_hung_up
    then untrack
    else if error
    then temporarily_unavailable env
    else if not (is_200 status)
    then temporarily_unavailable env
    else skip)
