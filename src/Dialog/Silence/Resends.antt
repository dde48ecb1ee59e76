-- ===== src/Dialog/Silence/Resends.antt =====
-- resend200 while no ACK comes: what is sent, and how often.
use project_mediaswitch.Base.{ℕ, zero, suc, ◌≡◌, true, List, [], ◌∷◌, Option, none, some}
use project_mediaswitch.Sip.Packet.{Packet}
use project_mediaswitch.Sip.Message.{Message}
use project_mediaswitch.Dialog.{Dialog, Effect, send_to, Env, resend_200}
use project_mediaswitch.Dialog.Answers.{ok_message}

-- Where the packets of a dialog go: to the last packet that was authenticated, or else to the last one.
abbrev pub recipient : Option Packet → Packet → Packet
recipient none last = last
recipient (some authenticated) last = authenticated

abbrev pub times : ℕ → Effect → List Effect
times zero x = []
times (suc n) x = x ∷ times n x

module _ (env : Env) (pk : Packet) (has_to : pk.has_to ≡ true) where
  -- The dialog, where it waits with `n` retries for the ACK of an answer to `pk`.
  abbrev awaiting : ℕ → ℕ → Dialog → Dialog
  awaiting ms n d = record d { timer = some (resend_200, ms); retries = n; last_received = some pk }

  abbrev answer_to : Dialog → Effect
  answer_to d = send_to (recipient d.last_authenticated pk) (ok_message [] d pk)
