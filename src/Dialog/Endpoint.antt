-- ===== src/Dialog/Endpoint.antt =====
-- sip/projectsipendpoint.cpp: how a packet leaves, and `updatecontrol` of sip/projectsipdialog.cpp. A
-- host that the directory does not know is looked up in the DNS; what `handlesrvresolve` and
-- `handleresolve` do with the answer is not modelled.
use project_mediaswitch.Base.{
  Bool, true, false, ◌&&◌, List, [], ◌∷◌, ◌++◌, Bytes, Option, none, some, codes, bytes_eq,
  if◌then◌else◌, ℤ, pos, ◌==◌, ◌>>=◌,
}
use project_mediaswitch.Text.Substring.{str, to_int}
use project_mediaswitch.Directory.Tree.{Domain, control_host, find_user, users}
use project_mediaswitch.Directory.Domains.{lookup_domain, lookup_domain_sub}
use project_mediaswitch.Sip.Packet.{Packet}
use project_mediaswitch.Sip.Message.{Message, composes}
use project_mediaswitch.Registrar.Store.{is_some, send_to_registered_client}
use project_mediaswitch.Dialog.{Dialog, Report, Effect, send_to, resolve, control_put, Env}
use project_mediaswitch.Dialog.Act.{Act, fail, modify, emit, ◌>>◌, with, through, when, untrack}

-- What a failed `sendpk` leaves behind.
abbrev pub failed : ℤ → Bytes → Dialog → Dialog
failed code reason d = record d { error_code = code; error_reason = reason }

abbrev pub Delivery : Type 0
Delivery = Option (Dialog × List Effect × Bool)

-- A registered client has the packet sent to where it registered from.
abbrev pub to_client : Message → Dialog → Option Packet → Delivery
to_client m d none = some (failed (pos 480) (codes "Temporarily Unavailable") d, [], false)
to_client m d (some a) = some (d, send_to a m ∷ [], true)

abbrev pub to_domain_of : Env → Message → Packet → Dialog → Option Domain → Delivery
to_domain_of env m pk d none = some (d, resolve (codes "_sip._udp." ++ str pk.host) m ∷ [], true)
to_domain_of env m pk d (some home) =
    if is_some (find_user pk.user (users home))
    then to_client m d (send_to_registered_client env.registrations pk.user_host)
    else some (failed (pos 404) (codes "To user not found") d, [], false)

-- The choice of sendpk between the packets of the dialog.
abbrev pub delivered : Env → Message → Dialog → Option Packet → Option Packet → Delivery
delivered env m d (some a) r = some (d, send_to a m ∷ [], true)
delivered env m d none (some r) = some (d, send_to r m ∷ [], true)
delivered env m d none none =
    lookup_domain_sub env.directory (env.read m).host >>= to_domain_of env m (env.read m) d

-- sendpk
unfoldable pub deliver : Env → Message → Dialog → Delivery
deliver env m d = delivered env m d d.last_authenticated d.last_received

-- What follows the composing of a packet.
unfoldable pub composed : Message → Act → Act
composed m next = if composes m.parts then next else fail

-- A packet that is composed and given to sendpk, the result of which is not looked at.
unfoldable pub send_pk : Env → Message → Act
unfolding deliver
send_pk env m = composed m (λ d. deliver env m d >>= λ done. some (done.0, done.1))

-- The members of the report that are read out of packets; `none` is a fault of `toint`, or a null
-- pointer to a header that is not there.
abbrev pub invited_of :
    (Bytes → Option ℤ) → Option Packet → Option (Option (Bytes × Bytes × Bytes × ℤ))
invited_of lexical_cast none = some none
invited_of lexical_cast (some pk) =
    if pk.has_to && pk.has_from
    then (to_int lexical_cast pk.max_forwards >>= λ n.
        some (some (pk.user, pk.from_user, pk.contact, n)))
    else none

abbrev pub referred_of : Option Packet → Option (Option (Bytes × Option Bytes))
referred_of none = some none
referred_of (some pk) =
    if pk.has_refer_to
    then some
        (some (pk.refer_to_user, if pk.replaces.endpos == 0 then none else some (str pk.replaces)))
    else none

abbrev pub report_of :
    Dialog → Option (Bytes × Bytes × Bytes × ℤ) → Option (Bytes × Option Bytes) → Report
report_of d invited referred = record {
  call_id = d.call_id;
  domain = d.domain;
  invited = invited;
  referred = referred;
  authenticated = d.authenticated;
  ring = d.call_ringing;
  answered = d.call_answered;
  hold = d.call_hold;
  originator = d.originator;
  hangup = d.call_hung_up;
  error = (d.error_code, d.error_reason);
  remote = elim d.last_received [ none ↦ none | some pk ↦ some (pk.remote_host, pk.remote_port) ];
  sdp = (d.remote_sdp, d.our_sdp);
  epochs = (d.start_at, d.ringing_at, d.answer_at, d.end_at);
}

-- The request to the control server, which has the REFER told once.
unfoldable pub put_report : Env → Act
put_report env = with (λ d. through (invited_of env.lexical_cast d.invite_pk) (λ invited.
    through (referred_of d.refer_pk) (λ referred.
      modify (λ e. record e { refer_pk = none })
      >> emit (
          control_put (d.control ++ (codes "/dialog/" ++ d.call_id))
            (report_of d invited referred)))))

-- The domain of the dialog, which was looked up.
abbrev pub control_of : Env → Option Domain → Act
control_of env none = with (λ d. when d.call_hung_up untrack)
control_of env (some home) =
    through (control_host home)
      (λ host. modify (λ d. record d { control = host }) >> put_report env)

-- updatecontrol; none of its callers looks at its result.
unfoldable pub update_control : Env → Act
unfolding put_report
update_control env = with (λ d.
    if bytes_eq d.control []
    then control_of env (lookup_domain env.directory d.domain)
    else put_report env)
