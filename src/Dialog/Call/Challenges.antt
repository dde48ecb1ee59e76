-- ===== src/Dialog/Call/Challenges.antt =====
-- The INVITE and the REFER that are challenged, as moves of the call: only a packet that passes admits
-- it.
use project_mediaswitch.Base.{◌≡◌, refl, true, not, Bytes, Option, none, some, ◌==◌}
use project_mediaswitch.Directory.Domains.{lookup_password_sub}
use project_mediaswitch.Sip.Packet.{Packet}
use project_mediaswitch.Sip.Message.{Message}
use project_mediaswitch.Dialog.{Dialog, resend_401, Env, State}
use project_mediaswitch.Dialog.Act.{Act, ◌>>◌, go, wait_for_timer, set_retries}
use project_mediaswitch.Dialog.Answers.{send_401}
use project_mediaswitch.Dialog.Challenges.{
  check_for_hold, take_sdp, invited, passes, refuse, admit_invite, authenticate, invite_auth_state,
  invite_start_state, admit_refer, handle_refer, is_refer, is_invite,
}
use project_mediaswitch.Dialog.Call.{Rules, stays, moves, admits}
use project_mediaswitch.Dialog.Call.Runs.{
  Runs, RunsAt, Runs-skip, Runs-modify, Runs-quiet, Runs-seq, Runs-with, Runs-through, Runs-if,
  Runs-when, Runs-after, Runs-at, RunsAt-through, RunsAt-if,
}
use project_mediaswitch.Dialog.Call.Sends.{Runs-send_401, Runs-send_403, Runs-trying, Runs-send_202}
use project_mediaswitch.Dialog.Call.Delivery.{Runs-set, Runs-keep_tag, Runs-update_control}

-- The packet has the password that the directory knows for its user, by the digest over the challenge.
abbrev pub Authorised : Env → Packet → Option Message → Type 0
Authorised env pk challenge =
    (password : Bytes) × (m : Message) × (lookup_password_sub env.directory pk.auth_realm
        pk.auth_username
      ≡ some (some password))
    × (challenge ≡ some m)
    × (env.digest pk m password ≡ true)

passes-Authorised :
    (env : Env) (pk : Packet) (challenge : Option Message) (password : Option Bytes)
    → lookup_password_sub env.directory pk.auth_realm pk.auth_username ≡ some password
    → passes env pk challenge password ≡ true
    → Authorised env pk challenge
passes-Authorised env pk challenge none e h = cc
passes-Authorised env pk none (some password) e h = cc
passes-Authorised env pk (some m) (some password) e h = (password, m, e, refl, h)

module _ {R : Rules} (env : Env) (pk : Packet) where
  Runs-check_for_hold : Runs R check_for_hold
  unfolding check_for_hold
  Runs-check_for_hold = Runs-with _ (λ d. Runs-through _ _ (λ sdp. Runs-quiet _ (λ e. refl)))

  pub Runs-take_sdp : Runs R (take_sdp env pk)
  unfolding take_sdp
  Runs-take_sdp = Runs-through _ _ (λ n.
      Runs-if _ _ _ (Runs-through _ _ (λ found. Runs-when _ _ (Runs-quiet _ (λ d. refl))))
        Runs-skip)

  Runs-invited : Runs R (invited env pk)
  unfolding invited
  Runs-invited = Runs-seq _ _ Runs-take_sdp (
      Runs-if _ _ _
        (Runs-seq _ _ Runs-check_for_hold (Runs-set _ _ (λ d. refl) (Runs-update_control env)))
        (Runs-set _ _ (λ d. refl) (Runs-seq _ _ (Runs-update_control env) (Runs-trying env))))

  Runs-refuse : Runs R (refuse env)
  Runs-refuse =
      Runs-seq _ _ (Runs-send_403 env) (Runs-set _ _ (λ d. refl) (Runs-quiet _ (λ d. refl)))

  Runs-admit_invite : R.Reason → Runs R (admit_invite env pk)
  Runs-admit_invite r = Runs-seq _ _ (Runs-keep_tag pk.has_from pk.from_tag) (
      Runs-seq _ _ (Runs-through _ _ (λ n. Runs-modify _ (λ d. moves stays (admits r refl))))
        Runs-invited)

  Runs-admit_refer : R.Reason → Runs R (admit_refer env pk)
  Runs-admit_refer r =
      Runs-seq _ _ (Runs-modify _ (λ d. moves stays (admits r refl)))
        (Runs-seq _ _ (Runs-update_control env) (Runs-set _ _ (λ d. refl) (Runs-send_202 env)))

  Runs-authenticate :
      (admit : Act) (d : Dialog)
      → (Authorised env pk d.auth_request → Runs R admit)
      → RunsAt R (authenticate env pk admit) d
  Runs-authenticate admit d h = RunsAt-through _ _ d (λ password e. Runs-at _ d (
      RunsAt-if (passes env pk d.auth_request password) _ _ d
        (λ good. h (passes-Authorised env pk d.auth_request password e good) d) (Runs-refuse d)))

  pub Runs-invite_auth :
      (d : Dialog)
      → (Authorised env pk d.auth_request → R.Reason)
      → RunsAt R (invite_auth_state env pk) d
  unfolding invite_auth_state
  Runs-invite_auth d h =
      RunsAt-if (is_invite pk.method) _ _ d
        (λ yes. Runs-authenticate _ d (λ good. Runs-admit_invite (h good))) (Runs-skip d)

  Runs-challenge :
      (s : State) (d : Dialog)
      → RunsAt R (set_retries 3 >> send_401 env >> go s >> wait_for_timer 3000 resend_401) d
  Runs-challenge s =
      Runs-set _ _ (λ d. refl)
        (Runs-seq _ _ (Runs-send_401 env) (Runs-set _ _ (λ d. refl) (Runs-quiet _ (λ d. refl))))

  pub Runs-invite_start :
      (d : Dialog)
      → (Authorised env pk d.auth_request → R.Reason)
      → RunsAt R (invite_start_state env pk) d
  unfolding invite_start_state
  Runs-invite_start d h = Runs-after _ _ d refl (
      RunsAt-if (not (pk.auth_username.endpos == 0)) _ _ _ (λ given. Runs-invite_auth _ h)
        (Runs-challenge _ _))

  pub Runs-handle_refer :
      (d : Dialog)
      → (Authorised env pk d.auth_request → R.Reason)
      → RunsAt R (handle_refer env pk) d
  unfolding handle_refer
  Runs-handle_refer d h =
      RunsAt-if (is_refer pk.method) _ _ d
        (λ yes.
          RunsAt-if (not (pk.auth_username.endpos == 0)) _ _ d
            (λ given. Runs-authenticate _ d (λ good. Runs-admit_refer (h good)))
            (Runs-challenge _ d))
        (Runs-skip d)
