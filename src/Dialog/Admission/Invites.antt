-- ===== src/Dialog/Admission/Invites.antt =====
-- The INVITE that answers the challenge, with the right password and with a wrong one.
use mathlib.Core.Path.{subst}
use project_mediaswitch.Base.{
  ◌≡◌, refl, sym, ap, ◌∙◌, Bool, true, false, not, [], Bytes, Option, none, some, bytes_eq,
  bytes_eq_refl, ◌==◌, arith,
}
use project_mediaswitch.Text.Substring.{str, Substring, is_valid}
use project_mediaswitch.Directory.Domains.{lookup_domain, lookup_password_sub}
use project_mediaswitch.Sip.Json.{Json}
use project_mediaswitch.Sip.Packet.{Packet, invite}
use project_mediaswitch.Sip.Message.{Message}
use project_mediaswitch.Dialog.{Dialog, Env, invite_auth}
use project_mediaswitch.Dialog.Act.{keep_tag}
use project_mediaswitch.Dialog.Endpoint.{
  invited_of, referred_of, control_of, put_report, update_control,
}
use project_mediaswitch.Dialog.Answers.{send_403, trying}
use project_mediaswitch.Dialog.States.{run_state}
use project_mediaswitch.Dialog.Challenges.{
  is_invite, is_positive, take_sdp, invited, passes, invite_auth_state,
}
use project_mediaswitch.Dialog.Store.{receive}
use project_mediaswitch.Dialog.Leads.{
  Leads, Leads-skip, Leads-modify, Leads-emit, Leads-seq, Leads-set, Leads-with, Leads-through,
  Leads-if, Leads-send_pk,
}
use project_mediaswitch.Dialog.Admission.{
  Challenged, Admitted, Refused, Readable, Leads-handled, Leads-state,
}

module _ (env : Env) (pk : Packet) where
  Leads-keep_tag :
      {Q : Dialog → Type 0} (has : Bool) (tag : Substring) (d : Dialog)
      → has ≡ true
      → Q d
      → ((t : Substring) → Q (record d { their_tag = t }))
      → Leads (keep_tag has tag) d Q
  Leads-keep_tag has tag d there h g = Leads-with _ d (
      Leads-if (is_valid d.their_tag) _ _ d (λ t. Leads-skip d h)
        (λ f. Leads-if has _ _ d (λ t. Leads-modify _ d (g _)) (λ missing. elim (no missing) [ ])))
    where
      no : has ≡ false → ⊥
      no missing = cc

  Leads-take_sdp :
      {Q : Dialog → Type 0} (d : Dialog)
      → Readable env pk
      → Q d
      → ((v : Json) → Q (record d { remote_sdp = v }))
      → Leads (take_sdp env pk) d Q
  unfolding take_sdp
  Leads-take_sdp d r h g = Leads-through _ _ d r.length r.has_length (
      Leads-if (is_positive r.length) _ _ d
        (λ t. Leads-through _ _ d r.found r.has_type (
          Leads-if (not (r.found.endpos == 0)) _ _ d (λ some_sdp. Leads-modify _ d (g _))
            (λ f. Leads-skip d h)))
        (λ f. Leads-skip d h))

  -- The dialog of the INVITE, before the control server is told.
  abbrev Telling : Dialog → Type 0
  Telling e =
      (e.authenticated ≡ true)
      × (e.control ≡ [])
      × (e.last_received ≡ some pk)
      × (e.domain ≡ str pk.uri_host)
      × (e.refer_pk ≡ none)

  abbrev Told : Dialog → Type 0
  Told e =
      (e.authenticated ≡ true)
      × (e.last_received ≡ some pk)
      × (e.invite_pk ≡ some pk)
      × (e.last_authenticated ≡ some pk)

  Leads-tell :
      (d : Dialog)
      → Readable env pk
      → d.control ≡ []
      → d.domain ≡ str pk.uri_host
      → d.refer_pk ≡ none
      → Told d
      → Leads (update_control env) d Told
  unfolding update_control put_report
  Leads-tell d r none_yet its unreferred h = Leads-with _ d (
      Leads-if (bytes_eq d.control []) _ _ d
        (λ t.
          subst (λ o. Leads (control_of env o) d Told) (sym home_of)
            (Leads-through _ _ d r.host r.has_host (
              Leads-set _ _ d (
                Leads-with _ _ (
                  Leads-through _ _ _ r.report reads
                    (Leads-through _ _ _ none nothing (Leads-set _ _ _ (Leads-emit _ _ h))))))))
        (λ f. elim (no f) [ ]))
    where
      home_of : lookup_domain env.directory d.domain ≡ some r.home
      home_of = ap (lookup_domain env.directory) its ∙ r.has_home

      reads : invited_of env.lexical_cast d.invite_pk ≡ some r.report
      reads = ap (invited_of env.lexical_cast) h.2 ∙ r.reported

      nothing : referred_of d.refer_pk ≡ some none
      nothing = ap referred_of unreferred

      no : bytes_eq d.control [] ≡ false → ⊥
      no f = differ (sym (bytes_eq_refl []) ∙ ap (λ c. bytes_eq c []) (sym none_yet) ∙ f)
        where
          differ : true ≡ false → ⊥
          differ x = cc

  Leads-invited :
      (d : Dialog)
      → Readable env pk
      → pk.to_tag.endpos ≡ 0
      → Telling d
      → Leads (invited env pk) d (Admitted pk)
  unfolding invited trying
  Leads-invited d r untagged h = Leads-seq Telling _ _ d (Leads-take_sdp d r h (λ v. h)) (λ e t.
      Leads-if (not (pk.to_tag.endpos == 0)) _ _ e (λ tagged. elim (no tagged) [ ])
        (λ f. Leads-set _ _ e (
          Leads-seq Told _ _ _ (Leads-tell _ r t.1 t.3 t.4 (t.0, t.2, refl, refl)) (λ c told.
            Leads-seq Told _ _ c
              (Leads-with _ c (
                Leads-through _ _ c pk told.1
                  (Leads-send_pk env _ c pk (rw (r.has_to) refl) told.1 told)))
              (λ b last. Leads-modify _ b (last.0, last.2, last.3, refl))))))
    where
      no : not (pk.to_tag.endpos == 0) ≡ true → ⊥
      no x = ground (arith, x, untagged)

  -- The INVITE with the right password.
  pub Leads-right :
      (m : Message) (d : Dialog) (password : Bytes)
      → Readable env pk
      → pk.method ≡ invite
      → pk.to_tag.endpos ≡ 0
      → lookup_password_sub env.directory pk.auth_realm pk.auth_username ≡ some (some password)
      → env.digest pk m password ≡ true
      → Challenged invite_auth m d
      → Leads (receive env pk) d (Admitted pk)
  unfolding run_state invite_auth_state
  Leads-right m d password r invites untagged knows good h = Leads-handled env pk invite d invites (
      Leads-state env pk invite_auth _ h.0 (
        Leads-if (is_invite pk.method) _ _ _
          (λ t. Leads-through _ _ _ (some password) knows (
            Leads-with _ _ (
              Leads-if (passes env pk d.auth_request (some password)) _ _ _
                (λ pass.
                  Leads-seq
                    (λ e. (e.control ≡ []) × (e.last_received ≡ some pk) × (e.refer_pk ≡ none)) _ _
                    _
                    (Leads-keep_tag pk.has_from pk.from_tag _ r.has_from (h.2, refl, h.4)
                      (λ v. (h.2, refl, h.4)))
                    (λ e k.
                      Leads-seq Telling _ _ e
                        (Leads-through _ _ e r.cseq r.has_cseq
                          (Leads-modify _ e (refl, k.0, k.1, refl, k.2)))
                        (λ c l. Leads-invited c r untagged l)))
                (λ fail. elim (no (sym passed ∙ fail)) [ ]))))
          (λ f. elim (not_invite f) [ ])))
    where
      passed : passes env pk d.auth_request (some password) ≡ true
      passed = ap (λ o. passes env pk o (some password)) h.1 ∙ good

      no : true ≡ false → ⊥
      no x = cc

      not_invite : is_invite pk.method ≡ false → ⊥
      not_invite f = cc

  -- The INVITE with a wrong password.
  pub Leads-wrong :
      (m : Message) (d : Dialog) (password : Option Bytes)
      → pk.method ≡ invite
      → lookup_password_sub env.directory pk.auth_realm pk.auth_username ≡ some password
      → passes env pk (some m) password ≡ false
      → pk.has_to ≡ true
      → Challenged invite_auth m d
      → Leads (receive env pk) d Refused
  unfolding run_state invite_auth_state send_403
  Leads-wrong m d password invites knows bad has h = Leads-handled env pk invite d invites (
      Leads-state env pk invite_auth _ h.0 (
        Leads-if (is_invite pk.method) _ _ _
          (λ t. Leads-through _ _ _ password knows (
            Leads-with _ _ (
              Leads-if (passes env pk d.auth_request password) _ _ _
                (λ pass. elim (no (sym pass ∙ failed)) [ ])
                (λ fail.
                  Leads-seq (λ e. e.authenticated ≡ false) _ _ _
                    (Leads-with _ _ (
                      Leads-through _ _ _ pk refl
                        (Leads-set _ _ _ (Leads-send_pk env _ _ pk (rw (has) refl) refl h.3))))
                    (λ e k. Leads-set _ _ e (Leads-modify _ _ (k, refl, refl)))))))
          (λ f. elim (not_invite f) [ ])))
    where
      failed : passes env pk d.auth_request password ≡ false
      failed = ap (λ o. passes env pk o password) h.1 ∙ bad

      no : true ≡ false → ⊥
      no x = cc

      not_invite : is_invite pk.method ≡ false → ⊥
      not_invite f = cc
