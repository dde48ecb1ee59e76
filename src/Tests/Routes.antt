-- ===== src/Tests/Routes.antt =====
-- Tests of the dispatch: a REGISTER with a hop counter and one without.
use project_mediaswitch.Base.{
  ◌≡◌, refl, true, false, Bytes, Option, none, some, codes, ℤ, pos, negsuc, [], bytes_eq,
  if◌then◌else◌, ◌⊎◌,
}
use project_mediaswitch.Text.Std.{c_string}
use project_mediaswitch.Text.Substring.{of_string, empty, to_int}
use project_mediaswitch.Sip.Packet.{Packet, register, ack}
use project_mediaswitch.Sip.Dispatch.{registrar, handle_sip_packet, register_headers}
use project_mediaswitch.Sip.Dispatch.Routes.{
  HopsLeft, is_reply, handle_sip_packet-registrar, is_fault, handle_sip_packet-no_hops,
}

-- A cast that knows one number.
abbrev lexical_cast : Bytes → Option ℤ
lexical_cast b = if bytes_eq b (codes "70") then some (pos 70) else none

abbrev packet : Packet
packet = record {
  method = register;
  is_request = true;
  request_uri = of_string (codes "sip:lan");
  has_to = true;
  has_from = true;
  has_call_id = true;
  has_cseq = true;
  has_contact = true;
  has_refer_to = false;
  has_via = true;
  has_max_forwards = true;
  has_authorization = false;
  max_forwards = of_string (codes "70");
  cseq = of_string (codes "1 REGISTER");
  challenge_cseq = of_string (codes "1 REGISTER");
  user_agent = none;
  user_host = codes "1003@lan";
  user = codes "1003";
  uri_host = of_string (codes "lan");
  expires = pos 3600;
  auth_realm = empty;
  auth_username = empty;
  status_code = negsuc 0;
  reason_phrase = [];
  call_id = codes "a84b4c76";
  cseq_number = some (pos 1);
  to_uri = empty;
  to_tag = empty;
  host = of_string (codes "lan");
  refer_to_user = [];
  from_user = codes "1003";
  from_tag = empty;
  contact = [];
  content_length = empty;
  content_type = empty;
  body = [];
  replaces = empty;
  remote_host = codes "10.0.0.7";
  remote_port = 5060;
}

abbrev without_hops : Packet
without_hops = record packet { has_max_forwards = false; max_forwards = empty }

-- A packet that no dialog knows reaches the registrar as an acknowledgement too.
abbrev stray_ack : Packet
stray_ack = record packet { method = ack }

handle_sip_packet_stray : handle_sip_packet lexical_cast false stray_ack ≡ some registrar
unfolding handle_sip_packet
handle_sip_packet_stray = refl

handle_sip_packet-registrar_example :
    ((register ≡ register) × (register_headers packet ≡ true) × HopsLeft lexical_cast packet)
    ⊎ ((is_reply register ≡ true) × (false ≡ false))
unfolding handle_sip_packet to_int bytes_eq c_string
handle_sip_packet-registrar_example = handle_sip_packet-registrar lexical_cast false packet refl

handle_sip_packet-no_hops_example :
    is_fault (handle_sip_packet lexical_cast false without_hops) ≡ true
handle_sip_packet-no_hops_example =
    handle_sip_packet-no_hops lexical_cast false without_hops refl refl
