-- ===== src/Dialog/Admission.antt =====
-- An inbound call from its first INVITE to the control server: the challenge, its ACK, and the INVITE
-- that answers the challenge, rightly or wrongly.
pub mod Invites
pub mod Calls
use mathlib.Core.Path.{subst}
use project_mediaswitch.Base.{
  ◌≡◌, refl, sym, ap, ◌∙◌, Bool, true, false, not, List, [], ◌∷◌, Bytes, Option, none, some, codes,
  bytes_eq, bytes_eq_refl, if◌then◌else◌, ℤ, ◌==◌, arith, ℕ, pos,
}
use project_mediaswitch.Text.Substring.{str, to_int, Substring, is_valid, of_string}
use project_mediaswitch.Text.Substring.Find.{find_str}
use project_mediaswitch.Directory.Tree.{Domain, control_host}
use project_mediaswitch.Directory.Domains.{lookup_domain, lookup_password_sub}
use project_mediaswitch.Sip.Json.{Json}
use project_mediaswitch.Sip.Packet.{Packet, Method, invite, ack}
use project_mediaswitch.Sip.Message.{Message, via, challenge}
use project_mediaswitch.Dialog.{
  Garbage, Dialog, Env, State, wait_for_ack_then_invite_auth, invite_auth, wait_for_ack_and_die,
  on_timeout_486_and_end_dialog, on_timeout_end_dialog,
}
use project_mediaswitch.Dialog.Act.{Act, skip, modify, ◌>>◌, with, through, keep_tag, when, untrack}
use project_mediaswitch.Dialog.Endpoint.{
  invited_of, control_of, put_report, update_control, send_pk,
}
use project_mediaswitch.Dialog.Answers.{bare_answer, send_challenge, send_401, send_403, trying}
use project_mediaswitch.Dialog.States.{run_state}
use project_mediaswitch.Dialog.Challenges.{
  is_ack, is_invite, is_positive, take_sdp, invited, passes, check_for_hold, refuse, admit_invite,
  authenticate, invite_auth_state, invite_start_state,
}
use project_mediaswitch.Dialog.Store.{begin, handled, receive}
use project_mediaswitch.Dialog.Timers.{run_timer, fired, fire}
use project_mediaswitch.Dialog.Call.Events.{Event, received, timer_fired, step, run}
use project_mediaswitch.Dialog.Leads.{
  Leads, Leads-skip, Leads-modify, Leads-emit, Leads-seq, Leads-set, Leads-with, Leads-through,
  Leads-if, Leads-weaken, Leads-send_pk,
}

-- The challenge that a packet is answered with, with its nonce.
abbrev pub challenge_of : Bytes → Packet → Message
challenge_of nonce pk =
    bare_answer (pos 401) (codes "Unauthorized") (via (some pk) ∷ challenge pk nonce ∷ []) pk

-- The dialog waits in a state, with a challenge out and no control server yet.
abbrev pub Challenged : State → Message → Dialog → Type 0
Challenged s m e =
    (e.next_state ≡ s)
    × (e.auth_request ≡ some m)
    × (e.control ≡ [])
    × (e.authenticated ≡ false)
    × (e.refer_pk ≡ none)

-- The call is admitted, and waits for the control server.
abbrev pub Admitted : Packet → Dialog → Type 0
Admitted pk e =
    (e.authenticated ≡ true)
    × (e.invite_pk ≡ some pk)
    × (e.last_authenticated ≡ some pk)
    × (e.timer ≡ some (on_timeout_486_and_end_dialog, 180000))

-- The call is refused, and ends with the ACK or in three seconds.
abbrev pub Refused : Dialog → Type 0
Refused e =
    (e.authenticated ≡ false)
    × (e.next_state ≡ wait_for_ack_and_die)
    × (e.timer ≡ some (on_timeout_end_dialog, 3000))

-- What is read out of the INVITE that is admitted, and the control server of its domain.
pub record Readable (env : Env) (pk : Packet) : Type 0 where
  pub has_to : pk.has_to ≡ true
  pub has_from : pk.has_from ≡ true
  pub cseq : ℤ
  pub has_cseq : pk.cseq_number ≡ some cseq
  pub length : ℤ
  pub has_length : to_int env.lexical_cast pk.content_length ≡ some length
  pub found : Substring
  pub has_type : find_str pk.content_type (codes "sdp") ≡ some found
  pub report : Option (Bytes × Bytes × Bytes × ℤ)
  pub reported : invited_of env.lexical_cast (some pk) ≡ some report
  pub home : Domain
  pub has_home : lookup_domain env.directory (str pk.uri_host) ≡ some home
  pub host : Bytes
  pub has_host : control_host home ≡ some host

module _ (env : Env) (pk : Packet) where
  pub Leads-handled :
      {Q : Dialog → Type 0} (m : Method) (d : Dialog)
      → pk.method ≡ m
      → Leads (handled env pk m) (record d { last_received = some pk }) Q
      → Leads (receive env pk) d Q
  unfolding receive
  Leads-handled {Q = Q} m d e h =
      Leads-set _ _ d
        (subst (λ n. Leads (handled env pk n) (record d { last_received = some pk }) Q) (sym e) h)

  pub Leads-state :
      {Q : Dialog → Type 0} (s : State) (d : Dialog)
      → d.next_state ≡ s
      → Leads (run_state env s pk) d Q
      → Leads (with (λ d. run_state env d.next_state pk)) d Q
  Leads-state {Q = Q} s d e h =
      Leads-with _ d (subst (λ n. Leads (run_state env n pk) d Q) (sym e) h)

  -- The first INVITE, without credentials, is challenged.
  Leads-first :
      (g : Garbage) (k : Bytes)
      → pk.method ≡ invite
      → pk.auth_username.endpos ≡ 0
      → pk.has_to ≡ true
      → Leads
          (receive env pk)
          (begin g env k)
          (Challenged wait_for_ack_then_invite_auth (challenge_of env.nonce pk))
  unfolding run_state invite_start_state send_401
  Leads-first g k invites bare has = Leads-handled invite _ invites (
      Leads-with _ _ (
        Leads-set _ _ _ (
          Leads-if (not (pk.auth_username.endpos == 0)) _ _ _ (λ given. elim (no given) [ ])
            (λ f. Leads-set _ _ _ (
              Leads-seq
                (λ e.
                  (e.auth_request ≡ some (challenge_of env.nonce pk))
                  × (e.control ≡ [])
                  × (e.authenticated ≡ false)
                  × (e.refer_pk ≡ none))
                _ _ _
                (Leads-with _ _ (
                  Leads-through _ _ _ pk refl (
                    Leads-set _ _ _
                      (Leads-send_pk env _ _ pk (rw (has) refl) refl (refl, refl, refl, refl)))))
                (λ e h. Leads-set _ _ e (Leads-modify _ _ (refl, h.0, h.1, h.2, h.3))))))))
    where
      no : not (pk.auth_username.endpos == 0) ≡ true → ⊥
      no h = ground (arith, h, bare)

  -- Its ACK.
  Leads-ack :
      (m : Message) (d : Dialog)
      → pk.method ≡ ack
      → Challenged wait_for_ack_then_invite_auth m d
      → Leads (receive env pk) d (Challenged invite_auth m)
  unfolding run_state
  Leads-ack m d acks h = Leads-handled ack d acks (
      Leads-state wait_for_ack_then_invite_auth _ h.0 (
        Leads-if _ _ _ _
          (λ t. Leads-set _ _ _ (Leads-set _ _ _ (Leads-modify _ _ (refl, h.1, h.2, h.3, h.4))))
          (λ f. elim (no f) [ ])))
    where
      no : is_ack pk.method ≡ false → ⊥
      no f = cc
