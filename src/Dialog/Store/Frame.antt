-- ===== src/Dialog/Store/Frame.antt =====
-- What a packet changes in the container of dialogs, and which dialogs it can authenticate.
use mathlib.Core.Path.{subst}
use project_mediaswitch.Base.{
  ◌≡◌, refl, sym, ap, ◌∙◌, Bool, true, false, List, [], ◌∷◌, Bytes, none, some, bytes_eq,
  bytes_eq_iff, length, ltb, if-true, if-some, if-false, ◌⊎◌, inl, inr, Bool-cases, Option-cases,
  >>=-eq-some, some_injective,
}
use project_mediaswitch.Sip.Packet.{response, Packet, Method, invite}
use project_mediaswitch.Sip.Message.{composes}
use project_mediaswitch.Dialog.{Garbage, Dialog, Effect, Env, wait_for_invite_progress}
use project_mediaswitch.Dialog.Invite.{is_code}
use project_mediaswitch.Dialog.Store.{
  Dialogs, find_dialog, settle, receive, begin, received_by, unknown_for, taken_by,
  no_dialog_message, invite_sip_packet,
}
use project_mediaswitch.Dialog.Call.Challenges.{Authorised}
use project_mediaswitch.Dialog.Call.Events.{received, step, step-Admitting, step-Kept}
use project_mediaswitch.Dialog.Store.Find.{find_dialog-settle_other, find_dialog-settle_same}

-- How `invitesippacket` ends: the container is as it was, or one dialog had the packet: the one of the
-- container, or for an INVITE a new one.
abbrev Began : Garbage → Env → Dialogs → Packet → Dialog → Type 0
Began g env ds pk d =
    (find_dialog pk.call_id ds ≡ some d)
    ⊎ ((find_dialog pk.call_id ds ≡ none) × (d ≡ begin g env pk.call_id))

abbrev Had : Garbage → Env → Dialogs → Dialogs → Packet → List Effect → Type 0
Had g env ds ds' pk sent =
    (d : Dialog) × (d' : Dialog) × Began g env ds pk d
    × (receive env pk d ≡ some (d', sent))
    × (settle pk.call_id ds d' ≡ ds')

received_by-Had :
    (g : Garbage) (env : Env) (ds ds' : Dialogs) (pk : Packet) (d : Dialog) (sent : List Effect)
    (taken : Bool)
    → Began g env ds pk d
    → received_by env ds pk d ≡ some (ds', sent, taken)
    → Had g env ds ds' pk sent
received_by-Had g env ds ds' pk d sent taken b e =
    let (done, x, y) = >>=-eq-some (receive env pk d) _ e in
    let same : done.1 ≡ sent = ap (λ z. z.1) (some_injective y) in
    (
      d,
      done.0,
      b,
      subst (λ s. receive env pk d ≡ some (done.0, s)) same x,
      ap (λ z. z.0) (some_injective y),
    )

unknown_dialog-Had :
    (g : Garbage) (env : Env) (ds ds' : Dialogs) (pk : Packet) (m : Method) (sent : List Effect)
    (taken : Bool)
    → find_dialog pk.call_id ds ≡ none
    → unknown_for g env ds pk m ≡ some (ds', sent, taken)
    → (ds ≡ ds') ⊎ Had g env ds ds' pk sent
unknown_dialog-Had g env ds ds' pk invite sent taken new e =
    inr (received_by-Had g env ds ds' pk _ sent taken (inr (new, refl)) e)
unknown_dialog-Had g env ds ds' pk response sent taken new e =
    inl (ap (λ z. z.0) (some_injective e))
unknown_dialog-Had g env ds ds' pk _ sent taken new e =
    inl
      (ap (λ z. z.0) (some_injective (if-some (composes (no_dialog_message env.nonce pk).parts) e)))

pub invite_sip_packet-Had :
    (g : Garbage) (env : Env) (ds ds' : Dialogs) (pk : Packet) (sent : List Effect) (taken : Bool)
    → invite_sip_packet g env ds pk ≡ some (ds', sent, taken)
    → (ds ≡ ds') ⊎ Had g env ds ds' pk sent
unfolding invite_sip_packet
invite_sip_packet-Had g env ds ds' pk sent taken e = elim (Bool-cases (ltb (length pk.call_id) 5)) [
  | inl short ↦ inl (ap (λ z. z.0) (some_injective (if-true _ short e)))
  | inr long ↦ known (Option-cases (find_dialog pk.call_id ds)) (if-false _ long e)
]
  where
    known :
        (find_dialog pk.call_id ds ≡ none) ⊎ ((d : Dialog) × (find_dialog pk.call_id ds ≡ some d))
        → taken_by g env ds pk (find_dialog pk.call_id ds) ≡ some (ds', sent, taken)
        → (ds ≡ ds') ⊎ Had g env ds ds' pk sent
    known (inl new) x =
        unknown_dialog-Had g env ds ds' pk pk.method sent taken new
          (sym (ap (taken_by g env ds pk) new) ∙ x)
    known (inr (d, old)) x = inr (
        received_by-Had g env ds ds' pk d sent taken (inl old)
          (sym (ap (taken_by g env ds pk) old) ∙ x))

-- The dialog that had the packet is the one of its Call-ID, before and after.
find-call_id : (k : Bytes) (ds : Dialogs) (d : Dialog) → find_dialog k ds ≡ some d → d.call_id ≡ k
unfolding find_dialog
find-call_id k [] d e = cc
find-call_id k (c ∷ ds) d e = elim (Bool-cases (bytes_eq c.call_id k)) [
  | inl y ↦
      ap (λ z. z.call_id) (sym (some_injective (if-true _ y e))) ∙ (bytes_eq_iff c.call_id k).0 y
  | inr n ↦ find-call_id k ds d (if-false _ n e)
]

Began-call_id :
    (g : Garbage) (env : Env) (ds : Dialogs) (pk : Packet) (d : Dialog)
    → Began g env ds pk d
    → d.call_id ≡ pk.call_id
Began-call_id g env ds pk d (inl old) = find-call_id pk.call_id ds d old
Began-call_id g env ds pk d (inr (new, e)) = ap (λ z. z.call_id) e

receive-call_id :
    (env : Env) (pk : Packet) (d d' : Dialog) (sent : List Effect)
    → receive env pk d ≡ some (d', sent)
    → d'.call_id ≡ d.call_id
unfolding step
receive-call_id env pk d d' sent e = (step-Kept env (received pk) d d' sent e).same_id

-- A packet leaves every dialog as it is but that of its Call-ID.
pub invite_sip_packet_frame :
    (g : Garbage) (env : Env) (ds ds' : Dialogs) (pk : Packet) (sent : List Effect) (taken : Bool)
    (j : Bytes)
    → invite_sip_packet g env ds pk ≡ some (ds', sent, taken)
    → bytes_eq pk.call_id j ≡ false
    → find_dialog j ds' ≡ find_dialog j ds
invite_sip_packet_frame g env ds ds' pk sent taken j e other =
    elim (invite_sip_packet-Had g env ds ds' pk sent taken e) [
      | inl same ↦ ap (find_dialog j) (sym same)
      | inr (d, d', b, x, same) ↦
          ap (find_dialog j) (sym same)
          ∙ find_dialog-settle_other pk.call_id j ds d'
              (receive-call_id env pk d d' sent x ∙ Began-call_id g env ds pk d b) other
    ]

-- What authenticates the dialog `d` by the packet.
abbrev pub Grants : Env → Packet → Dialog → Type 0
Grants env pk d =
    Authorised env pk d.auth_request
    ⊎ ((d.next_state ≡ wait_for_invite_progress) × (is_code 200 pk.status_code ≡ true))

new-Grants : (g : Garbage) (env : Env) (pk : Packet) (k : Bytes) → Grants env pk (begin g env k) → ⊥
new-Grants g env pk k (inl (password, m, known, challenged, good)) = cc
new-Grants g env pk k (inr (waiting, good)) = cc

-- The dialog of a Call-ID that was not authenticated before a packet (or was not there), and is after it,
-- is the one that the packet is for, it was there before, and the packet passes the digest test against
-- the challenge that was sent for it, with the password in the directory, or it is the answer 200 to
-- the INVITE that the dialog sent. So the first INVITE of a call never authenticates it.
pub invite_sip_packet-Grants :
    (g : Garbage) (env : Env) (ds ds' : Dialogs) (pk : Packet) (sent : List Effect) (taken : Bool)
    (j : Bytes) (d' : Dialog)
    → invite_sip_packet g env ds pk ≡ some (ds', sent, taken)
    → find_dialog j ds' ≡ some d'
    → d'.authenticated ≡ true
    → ((d : Dialog) → find_dialog j ds ≡ some d → d.authenticated ≡ false)
    → (j ≡ pk.call_id) × (d : Dialog) × (find_dialog j ds ≡ some d) × Grants env pk d
unfolding step
invite_sip_packet-Grants g env ds ds' pk sent taken j d' e found on before =
    elim (Bool-cases (bytes_eq pk.call_id j)) [
      | inr other ↦
          let old = sym (invite_sip_packet_frame g env ds ds' pk sent taken j e other) ∙ found in
          elim (differ (sym (before d' old) ∙ on)) [ ]
      | inl same ↦ granted ((bytes_eq_iff pk.call_id j).0 same)
    ]
  where
    differ : false ≡ true → ⊥
    differ h = cc

    granted :
        pk.call_id ≡ j
        → (j ≡ pk.call_id) × (d : Dialog) × (find_dialog j ds ≡ some d) × Grants env pk d
    granted same = elim (invite_sip_packet-Had g env ds ds' pk sent taken e) [
      | inl nothing ↦ elim (differ (sym (before d' (ap (find_dialog j) nothing ∙ found)) ∙ on)) [ ]
      | inr (d, c, b, x, put) ↦
          let is_c : c ≡ d' =
            find_dialog-settle_same pk.call_id ds c d'
              (receive-call_id env pk d c sent x ∙ Began-call_id g env ds pk d b)
              (ap (find_dialog pk.call_id) put ∙ ap (λ k. find_dialog k ds') same ∙ found) in
          elim b [
            | inl old ↦
                let there = ap (λ k. find_dialog k ds) (sym same) ∙ old in
                (
                  sym same,
                  d,
                  there,
                  step-Admitting env (received pk) d c sent x (before d there)
                      (ap (λ z. z.authenticated) is_c ∙ on),
                )
            | inr (new, is_new) ↦
                elim (new-Grants g env pk pk.call_id (
                  subst (Grants env pk) is_new (
                    step-Admitting env (received pk) d c sent x (ap (λ z. z.authenticated) is_new)
                      (ap (λ z. z.authenticated) is_c ∙ on)))) [ ]
          ]
    ]
