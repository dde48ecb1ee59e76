-- ===== src/Dialog/Call/Delivery.antt =====
-- A packet that leaves and the report to the control server, which are no moves of the call.
use project_mediaswitch.Base.{
  ◌≡◌, refl, ap, ◌∙◌, Bool, List, [], Bytes, Option, none, some, bytes_eq, ℤ, inl, inr, Bool-cases,
  >>=-eq-some, some_injective, if-true, if-false, ◌>>=◌,
}
use project_mediaswitch.Text.Substring.{is_valid, Substring}
use project_mediaswitch.Directory.Tree.{Domain, find_user, users}
use project_mediaswitch.Directory.Domains.{lookup_domain_sub}
use project_mediaswitch.Sip.Packet.{Packet}
use project_mediaswitch.Sip.Message.{Message, composes}
use project_mediaswitch.Registrar.Store.{is_some}
use project_mediaswitch.Dialog.{Dialog, Effect, Env}
use project_mediaswitch.Dialog.Act.{Act, fail, modify, emit, ◌>>◌, with, through, keep_tag, untrack}
use project_mediaswitch.Dialog.Endpoint.{
  failed, delivered, deliver, composed, send_pk, to_domain_of, to_client, put_report, control_of,
  update_control,
}
use project_mediaswitch.Dialog.Call.{Rules, call_of, stays}
use project_mediaswitch.Dialog.Call.Runs.{
  Runs-skip, Runs, Runs-of, Moves-same, Runs-quiet, Runs-seq, Runs-with, Runs-through, Runs-if,
  Runs-when,
}

-- What a dialog is apart from the error that a failed packet leaves in it.
module _ {ℓ} {V : Type ℓ} (view : Dialog → V)
    (apart : (code : ℤ) (reason : Bytes) (d : Dialog) → view d ≡ view (failed code reason d)) where
  to_client_same :
      (m : Message) (d d' : Dialog) (o : Option Packet) (sent : List Effect) (b : Bool)
      → to_client m d o ≡ some (d', sent, b)
      → view d ≡ view d'
  to_client_same m d d' none sent b e = apart _ _ d ∙ ap (λ x. view x.0) (some_injective e)
  to_client_same m d d' (some a) sent b e = ap (λ x. view x.0) (some_injective e)

  to_domain_of_same :
      (env : Env) (m : Message) (pk : Packet) (d d' : Dialog) (o : Option Domain)
      (sent : List Effect) (b : Bool)
      → to_domain_of env m pk d o ≡ some (d', sent, b)
      → view d ≡ view d'
  to_domain_of_same env m pk d d' none sent b e = ap (λ x. view x.0) (some_injective e)
  to_domain_of_same env m pk d d' (some home) sent b e =
      elim (Bool-cases (is_some (find_user pk.user (users home)))) [
        | inl known ↦ to_client_same m d d' _ sent b (if-true _ known e)
        | inr strange ↦ apart _ _ d ∙ ap (λ x. view x.0) (some_injective (if-false _ strange e))
      ]

  deliver_from :
      (env : Env) (m : Message) (d d' : Dialog) (a r : Option Packet) (sent : List Effect)
      (b : Bool)
      → delivered env m d a r ≡ some (d', sent, b)
      → view d ≡ view d'
  deliver_from env m d d' (some a) r sent b e = ap (λ x. view x.0) (some_injective e)
  deliver_from env m d d' none (some r) sent b e = ap (λ x. view x.0) (some_injective e)
  deliver_from env m d d' none none sent b e =
      let (o, x, y) = >>=-eq-some (lookup_domain_sub env.directory (env.read m).host) _ e in
      to_domain_of_same env m (env.read m) d d' o sent b y

  pub deliver_same :
      (env : Env) (m : Message) (d d' : Dialog) (sent : List Effect) (b : Bool)
      → deliver env m d ≡ some (d', sent, b)
      → view d ≡ view d'
  unfolding deliver
  deliver_same env m d d' sent b e =
      deliver_from env m d d' d.last_authenticated d.last_received sent b e

module _ {R : Rules} where
  Runs-emit : (x : Effect) → Runs R (emit x)
  unfolding emit
  Runs-emit x d = Runs-of (emit x) d d _ refl stays

  Runs-fail : Runs R fail
  Runs-fail d = record { runs = λ d' sent e. cc }

  Runs-deliver :
      (env : Env) (m : Message) → Runs R (λ d. deliver env m d >>= λ done. some (done.0, done.1))
  Runs-deliver env m d = record {
    runs = λ d' sent e.
        let (done, x, y) = >>=-eq-some (deliver env m d) _ e in
        Moves-same
          (deliver_same call_of (λ code reason d. refl) env m d done.0 done.1 done.2 x
            ∙ ap (λ x. call_of x.0) (some_injective y))
          stays;
  }

  pub Runs-send_pk : (env : Env) (m : Message) → Runs R (send_pk env m)
  unfolding send_pk composed
  Runs-send_pk env m = Runs-if (composes m.parts) _ _ (Runs-deliver env m) Runs-fail

  pub Runs-reading :
      (k : Dialog → Packet → Act)
      → ((d : Dialog) (pk : Packet) → Runs R (k d pk))
      → Runs R (with (λ d. through d.last_received (k d)))
  Runs-reading k h = Runs-with _ (λ d. Runs-through d.last_received (k d) (h d))

  pub Runs-set :
      (f : Dialog → Dialog) (m : Act)
      → ((d : Dialog) → call_of d ≡ call_of (f d))
      → Runs R m
      → Runs R (modify f >> m)
  Runs-set f m h k = Runs-seq (modify f) m (Runs-quiet f h) k

  pub Runs-keep_tag : (has : Bool) (tag : Substring) → Runs R (keep_tag has tag)
  Runs-keep_tag has tag = Runs-with _ (λ d.
      Runs-if (is_valid d.their_tag) _ _ Runs-skip
        (Runs-if has _ _ (Runs-quiet _ (λ e. refl)) Runs-fail))

  pub Runs-untrack : Runs R untrack
  Runs-untrack = Runs-quiet _ (λ d. refl)

  Runs-put_report : (env : Env) → Runs R (put_report env)
  unfolding put_report
  Runs-put_report env =
      Runs-with _ (λ d.
        Runs-through _ _ (λ o. Runs-through _ _ (λ r. Runs-set _ _ (λ e. refl) (Runs-emit _))))

  Runs-control_of : (env : Env) (o : Option Domain) → Runs R (control_of env o)
  Runs-control_of env none = Runs-with _ (λ d. Runs-when d.call_hung_up _ Runs-untrack)
  Runs-control_of env (some home) =
      Runs-through _ _ (λ host. Runs-set _ _ (λ e. refl) (Runs-put_report env))

  pub Runs-update_control : (env : Env) → Runs R (update_control env)
  unfolding update_control
  Runs-update_control env =
      Runs-with _
        (λ d. Runs-if (bytes_eq d.control []) _ _ (Runs-control_of env _) (Runs-put_report env))
