-- ===== src/Tests/Registrations.antt =====
-- Tests of the registrar: one user of one domain registers, stays silent, and is removed.
use project_mediaswitch.Base.{
  ◌≡◌, refl, ap₂, ◌∙◌, Bool, true, false, List, [], ◌∷◌, Bytes, none, some, codes, bytes_eq, pos,
  negsuc, arith,
}
use project_mediaswitch.Text.Std.{find_first_of}
use project_mediaswitch.Text.Split.{split_string}
use project_mediaswitch.Text.Substring.{of_string, empty, size, str}
use project_mediaswitch.Text.Substring.Find.{mvend_first_of_char}
use project_mediaswitch.Text.Substring.Compare.{ne_sub}
use project_mediaswitch.Directory.Tree.{Domain, domain, nil, entry, find_user, find_domain}
use project_mediaswitch.Directory.Domains.{
  lookup_domain, lookup_domain_sub, lookup_password_sub, walk,
}
use project_mediaswitch.Sip.Packet.{Packet, register}
use project_mediaswitch.Registrar.{Registration, Effect, new_registration, expire}
use project_mediaswitch.Registrar.Handlers.{reg_start, reg_wait_auth, timer_handler}
use project_mediaswitch.Registrar.Handlers.Invariant.{Inv, timer_handler-Inv}
use project_mediaswitch.Registrar.Store.{
  Registrations, find_reg, registrar_sip_packet, handle_packet, put_reg,
}
use project_mediaswitch.Registrar.Store.Kept.{Kept, registrar_sip_packet-Kept}
use project_mediaswitch.Registrar.Store.Frame.{registrar_sip_packet_frame}
use project_mediaswitch.Registrar.Access.{
  Authorised, registered_in, registrar_sip_packet-Authorised,
}
use project_mediaswitch.Registrar.Timer.{fires, GivenUp, fires-GivenUp}
use project_mediaswitch.Registrar.Report.{Answer, Consistent, http_get, http_get-Consistent}
use project_mediaswitch.Registrar.Handshake.{Asks, Answers, handshake, handshake_registers}
use project_mediaswitch.Registrar.Removal.{removal_without_digest, removal_with_digest}

abbrev pub lan : Domain
lan =
    domain nil (some (codes "http://c"))
      ((codes "1003", record { username = codes "1003"; secret = codes "s" }) ∷ [])

abbrev pub directory : Domain
directory = domain (entry (codes "lan") lan nil) none []

abbrev user_host : Bytes
user_host = codes "1003@lan"

-- A digest test that passes for one password.
abbrev check_auth : Packet → Packet → Bytes → Bool
check_auth pk challenged password = elim password [ [] ↦ false | c ∷ cs ↦ true ]

-- A REGISTER for 3600 seconds without credentials.
abbrev pub asking : Packet
asking = record {
  method = register;
  is_request = true;
  request_uri = of_string (codes "sip:lan");
  has_to = true;
  has_from = true;
  has_call_id = true;
  has_cseq = true;
  has_contact = true;
  has_refer_to = false;
  has_via = true;
  has_max_forwards = true;
  has_authorization = false;
  max_forwards = of_string (codes "70");
  cseq = of_string (codes "1 REGISTER");
  challenge_cseq = of_string (codes "1 REGISTER");
  user_agent = none;
  user_host = user_host;
  user = codes "1003";
  uri_host = of_string (codes "lan");
  expires = pos 3600;
  auth_realm = empty;
  auth_username = empty;
  status_code = negsuc 0;
  reason_phrase = [];
  call_id = codes "a84b4c76";
  cseq_number = some (pos 1);
  to_uri = empty;
  to_tag = empty;
  host = of_string (codes "lan");
  refer_to_user = [];
  from_user = codes "1003";
  from_tag = empty;
  contact = [];
  content_length = empty;
  content_type = empty;
  body = [];
  replaces = empty;
  remote_host = codes "10.0.0.7";
  remote_port = 5060;
}

abbrev answering : Packet
answering = record asking {
  has_authorization = true;
  auth_realm = of_string (codes "lan");
  auth_username = of_string (codes "1003");
}

abbrev leaving : Packet
leaving = record asking { expires = pos 0 }

abbrev leaving_answer : Packet
leaving_answer = record answering { expires = pos 0 }

abbrev challenged : Registration
challenged = record (new_registration user_host 5 false) { auth_request = some asking }

abbrev registered : Registration
registered = record (new_registration user_host 5 false) {
  registered = 6;
  is_registered = true;
  is_available = true;
  expires = 3606;
  auth_accept = some answering;
  current = some answering;
}

challenged-Kept : Kept (challenged ∷ [])
unfolding Kept
challenged-Kept = (record { named = refl; accepted = tt; pings = omega arith }, tt)

registered-Inv : Inv user_host registered
registered-Inv = record { named = refl; accepted = tt; pings = omega arith }

registered-Kept : Kept (registered ∷ [])
unfolding Kept
registered-Kept = (registered-Inv, tt)

pub lan_known : lookup_domain_sub directory (of_string (codes "lan")) ≡ some (some lan)
unfolding lookup_domain_sub lookup_domain split_string find_domain bytes_eq walk mvend_first_of_char
    str find_first_of
lan_known = refl

pub password_known :
    lookup_password_sub directory (of_string (codes "lan")) (of_string (codes "1003"))
    ≡ some (some (codes "s"))
unfolding lookup_password_sub lookup_domain_sub lookup_domain split_string find_domain bytes_eq walk
    mvend_first_of_char find_user str find_first_of
password_known = refl

answered :
    (sent : List Effect) × (registrar_sip_packet check_auth directory 6 false
        (challenged ∷ [])
        answering
      ≡ some (registered ∷ [], sent))
unfolding registrar_sip_packet handle_packet find_reg put_reg reg_wait_auth bytes_eq size ne_sub
    lookup_password_sub lookup_domain_sub lookup_domain split_string find_domain walk
    mvend_first_of_char find_user str find_first_of
answered = (_, refl)

left :
    (sent : List Effect) × (registrar_sip_packet check_auth directory 7 false
        (registered ∷ [])
        leaving
      ≡ some (record registered { is_registered = false } ∷ [], sent))
unfolding registrar_sip_packet handle_packet find_reg put_reg reg_start expire bytes_eq size
    lookup_domain_sub lookup_domain split_string find_domain walk mvend_first_of_char str
    find_first_of
left = (_, refl)

authorised :
    (pk : Packet)
    → pk.auth_realm ≡ of_string (codes "lan")
    → pk.auth_username ≡ of_string (codes "1003")
    → Authorised check_auth directory challenged pk
authorised pk r u = record {
  challenged = asking;
  password = codes "s";
  challenge_sent = refl;
  password_known = ap₂ (lookup_password_sub directory) r u ∙ password_known;
  digest_right = refl;
}

found_challenged : find_reg user_host (challenged ∷ []) ≡ some challenged
unfolding find_reg bytes_eq
found_challenged = refl

registrar_sip_packet-Kept_example : Kept (registered ∷ [])
registrar_sip_packet-Kept_example =
    registrar_sip_packet-Kept check_auth directory 6 false (challenged ∷ []) (registered ∷ [])
      answering answered.0 answered.1 challenged-Kept

registrar_sip_packet_frame_example :
    find_reg (codes "1004@lan") (registered ∷ []) ≡ find_reg (codes "1004@lan") (challenged ∷ [])
unfolding bytes_eq
registrar_sip_packet_frame_example =
    registrar_sip_packet_frame check_auth directory 6 false (challenged ∷ []) (registered ∷ [])
      answering answered.0 (codes "1004@lan") answered.1 challenged-Kept refl

registrar_sip_packet-Authorised_example :
    (user_host ≡ user_host)
    × ((r : Registration) × (find_reg user_host (challenged ∷ []) ≡ some r)
        × Authorised check_auth directory r answering)
unfolding find_reg bytes_eq
registrar_sip_packet-Authorised_example =
    registrar_sip_packet-Authorised check_auth directory 6 false (challenged ∷ []) (registered ∷ [])
      answering answered.0 user_host answered.1 challenged-Kept refl refl

fires-GivenUp_example :
    GivenUp
      (codes "http://c")
      answering
      (fires directory (36 ∷ 66 ∷ 96 ∷ 126 ∷ 156 ∷ 186 ∷ 216 ∷ 246 ∷ []) registered)
fires-GivenUp_example =
    fires-GivenUp directory answering lan (codes "http://c") lan_known refl refl refl user_host
      (36 ∷ 66 ∷ 96 ∷ 126 ∷ 156 ∷ 186 ∷ 216 ∷ 246 ∷ []) registered registered-Inv refl refl
      (omega arith)

http_get-Consistent_example :
    (ans : Answer) × (http_get directory (registered ∷ []) (codes "reg" ∷ codes "lan" ∷ [])
      ≡ some ans)
    × Consistent ans
http_get-Consistent_example =
    http_get-Consistent directory (registered ∷ []) (codes "reg" ∷ codes "lan" ∷ []) registered-Kept

asks : Asks asking
unfolding size
asks = record {
  long_uri = refl;
  is_request = refl;
  addressed = refl;
  no_credentials = refl;
  long_time = refl;
}

answers : Answers check_auth directory (codes "http://c") asking answering
unfolding size ne_sub
answers = record {
  long_uri = refl;
  is_request = refl;
  addressed = refl;
  same_user = refl;
  credentials = refl;
  stays = refl;
  same_cseq = refl;
  password = codes "s";
  password_known = password_known;
  digest_right = refl;
  home = lan;
  home_known = lan_known;
  home_hosted = refl;
}

handshake_registers_example :
    (rs' : Registrations) × (sent : List Effect) × (r : Registration) × (handshake check_auth
        directory 5 6 false [] asking answering
      ≡ some (rs', sent))
    × (find_reg user_host rs' ≡ some r)
    × (r.is_registered ≡ true)
    × (r.auth_accept ≡ some answering)
    × (r.auth_request ≡ none)
    × (r.outstanding_ping ≡ 0)
    × (r.expires ≡ 3606)
unfolding Kept
handshake_registers_example =
    handshake_registers check_auth directory (codes "http://c") 5 6 false [] asking answering tt
      asks answers

removal_without_digest_example :
    registered_in (find_reg user_host (record registered { is_registered = false } ∷ [])) ≡ false
unfolding size
removal_without_digest_example =
    removal_without_digest check_auth directory 7 false (registered ∷ [])
      (record registered { is_registered = false } ∷ []) leaving left.0 registered-Kept refl refl
      refl refl left.1

removal_with_digest_example :
    (rs' : Registrations) × (registrar_sip_packet check_auth directory 7 false
        (challenged ∷ [])
        leaving_answer
      ≡ some (rs', []))
    × (find_reg user_host rs' ≡ none)
unfolding size
removal_with_digest_example =
    removal_with_digest check_auth directory 7 false (challenged ∷ []) challenged leaving_answer
      found_challenged refl refl refl refl refl (authorised leaving_answer refl refl)

pinged :
    (sent : List Effect) × (timer_handler directory 36 false registered
      ≡ some (record registered { outstanding_ping = 1 }, sent))
unfolding timer_handler
pinged = (_, refl)

timer_handler-Inv_example : Inv user_host (record registered { outstanding_ping = 1 })
timer_handler-Inv_example =
    timer_handler-Inv directory 36 false registered (record registered { outstanding_ping = 1 })
      pinged.0 pinged.1 registered-Inv
