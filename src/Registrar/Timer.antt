-- ===== src/Registrar/Timer.antt =====
-- The timer of a registration over several firings, while nothing is heard of the client.
use project_mediaswitch.Base.{
  ℕ, ◌+◌, ◌≤◌, ◌≡◌, refl, sym, ap, ◌∙◌, true, false, List, [], ◌∷◌, ◌++◌, append_assoc, Bytes, some,
  length, ltb, ◌==◌, if◌then◌else◌, ◌>>=◌, inl, inr, Bool-cases, arith,
}
use project_mediaswitch.Directory.Tree.{Domain, control_host}
use project_mediaswitch.Directory.Domains.{lookup_domain_sub}
use project_mediaswitch.Sip.Packet.{Packet}
use project_mediaswitch.Registrar.{
  Registration, Effect, control_delete, send_request, set_timer, Sent, control_uri, expire,
  send_options,
}
use project_mediaswitch.Registrar.Handlers.{timer_handler}
use project_mediaswitch.Registrar.Handlers.Invariant.{Inv}

-- The timer at each of the times, while nothing is heard of the client. After `expire` it is not set
-- again.
unfoldable pub fires : Domain → List ℕ → Registration → Sent
fires dir [] r = some (r, [])
fires dir (t ∷ ts) r =
    if r.is_registered
    then (timer_handler dir t false r >>= λ done.
        fires dir ts done.0 >>= λ rest. some (rest.0, done.1 ++ rest.1))
    else some (r, [])

-- What the timer does while the client is registered.
abbrev round : Domain → ℕ → List ℕ → Registration → Sent
round dir t ts r = timer_handler dir t false r >>= λ done.
    fires dir ts done.0 >>= λ rest. some (rest.0, done.1 ++ rest.1)

-- The outcome of a run that ends with the control server being told.
abbrev pub GivenUp : Bytes → Packet → Sent → Type 0
GivenUp host a run =
    (r : Registration) × (pings : List Effect) × (run
      ≡ some (r, pings ++ (control_delete (control_uri host a a.user) ∷ [])))
    × (r.is_registered ≡ false)

fires-on :
    (dir : Domain) (t : ℕ) (ts : List ℕ) (r : Registration)
    → r.is_registered ≡ true
    → fires dir (t ∷ ts) r ≡ round dir t ts r
unfolding fires
fires-on dir t ts r on = ap (λ b. if b then round dir t ts r else some (r, [])) on

module _ (dir : Domain) (a : Packet) (d : Domain) (host : Bytes)
    (known : lookup_domain_sub dir a.uri_host ≡ some (some d)) (hosted : control_host d ≡ some host)
    (contact : a.has_contact ≡ true) (to : a.has_to ≡ true) where
  pub expire_tells :
      (r : Registration)
      → r.auth_accept ≡ some a
      → expire dir r
        ≡ some (record r { is_registered = false }, control_delete (control_uri host a a.user) ∷ [])
  unfolding expire
  expire_tells r e = rw (e) (rw (known, hosted) refl)

  fires-off :
      (ts : List ℕ) (r : Registration) → r.is_registered ≡ false → fires dir ts r ≡ some (r, [])
  unfolding fires
  fires-off [] r e = refl
  fires-off (t ∷ ts) r e = rw e refl

  fires-expired :
      (t : ℕ) (ts : List ℕ) (r : Registration)
      → r.is_registered ≡ true
      → r.auth_accept ≡ some a
      → timer_handler dir t false r ≡ expire dir r
      → GivenUp host a (fires dir (t ∷ ts) r)
  fires-expired t ts r on e h =
      let off = record r { is_registered = false } in
      (
        off,
        [],
        fires-on dir t ts r on
            ∙ ap
                (λ m. m >>= λ done. fires dir ts done.0 >>= λ rest. some (rest.0, done.1 ++ rest.1))
                (h ∙ expire_tells r e)
            ∙ ap
                (λ m.
                  m >>= λ rest. some (rest.0, control_delete (control_uri host a a.user) ∷ rest.1))
                (fires-off ts off refl),
        refl,
      )

  fires-ping :
      (t : ℕ) (ts : List ℕ) (r r' : Registration) (sent : List Effect)
      → r.is_registered ≡ true
      → timer_handler dir t false r ≡ some (r', sent)
      → GivenUp host a (fires dir ts r')
      → GivenUp host a (fires dir (t ∷ ts) r)
  fires-ping t ts r r' sent on h (z, pings, run, off) = (
    z,
    sent ++ pings,
    fires-on dir t ts r on
        ∙ ap (λ m. m >>= λ done. fires dir ts done.0 >>= λ rest. some (rest.0, done.1 ++ rest.1)) h
        ∙ ap (λ m. m >>= λ rest. some (rest.0, sent ++ rest.1)) run
        ∙ ap (λ l. some (z, l)) (sym (append_assoc sent pings _)),
    off,
  )

  -- A registered client whose domain has a control server, whose accepted packet had a Contact and a To,
  -- and of which nothing is heard, is given up: after enough firings of the timer, at whatever times (eight, less the pings that are
  -- outstanding), it is not registered and the last thing sent is the DELETE to the control server.
  pub fires-GivenUp :
      (u : Bytes) (ts : List ℕ) (r : Registration)
      → Inv u r
      → r.is_registered ≡ true
      → r.auth_accept ≡ some a
      → 8 ≤ length ts + r.outstanding_ping
      → GivenUp host a (fires dir ts r)
  unfolding timer_handler send_options
  fires-GivenUp u [] r v on e enough = ground (arith, v.pings, enough)
  fires-GivenUp u (t ∷ ts) r v on e enough = elim (Bool-cases (ltb r.expires t)) [
    | inl late ↦ fires-expired t ts r on e (rw (late) refl)
    | inr early ↦ elim (Bool-cases (r.outstanding_ping == 7)) [
      | inl full ↦ fires-expired t ts r on e (rw (early) (rw (full) refl))
      | inr room ↦
          let next = record r { outstanding_ping = r.outstanding_ping + 1 } in
          fires-ping t ts r next (send_request a r.user r.options_cseq ∷ set_timer 30 ∷ []) on
            (rw (early) (rw (room) (rw e (rw (contact, to) refl))))
            (fires-GivenUp u ts next
              (record { named = v.named; accepted = v.accepted; pings = ground (arith, v.pings) })
              on e (omega arith))
    ]
  ]
