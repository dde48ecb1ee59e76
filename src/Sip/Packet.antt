-- ===== src/Sip/Packet.antt =====
-- A received packet as the handlers see it: the values of the accessors of
-- sip/projectsippacket.h and projectlib/projectwebdocument.h that they call. How the accessors take
-- them out of the text of the packet is not modelled here. getuser, getuserhost, gethost, gettag and
-- sipuri read through a null pointer where the To, From, Contact or Refer-To is absent: the functions
-- that read them of a packet that may lack the header ask `has_to`, `has_from`, `has_contact` or
-- `has_refer_to`. REGISTER, INVITE, CANCEL and REFER are tested for To and From before they are handed
-- on; a REFER is not tested for its Refer-To.
use project_mediaswitch.Base.{ℕ, Bool, Bytes, Option, ℤ}
use project_mediaswitch.Text.Substring.{Substring}

-- The methods of `projectsippacket`; `response` is that of a status line, and `unknown` stands for
-- METHODUNKNOWN.
pub data Method : Type 0 where
  register refer notify invite ack cancel bye options subscribe publish response unknown : Method

pub record Packet : Type 0 where
  -- getmethod(), isrequest() and getrequesturi()
  pub method : Method
  pub is_request : Bool
  pub request_uri : Substring
  -- hasheader( … )
  pub has_to : Bool
  pub has_from : Bool
  pub has_call_id : Bool
  pub has_cseq : Bool
  pub has_contact : Bool
  pub has_refer_to : Bool
  pub has_via : Bool
  pub has_max_forwards : Bool
  pub has_authorization : Bool
  -- getheader( Max_Forwards ) and getheader( CSeq )
  pub max_forwards : Substring
  pub cseq : Substring
  -- getheader( CSeq ) of the 401 that the registrar answers the packet with, into which it is copied
  pub challenge_cseq : Substring
  -- getheader( User_Agent ), if there is one
  pub user_agent : Option Bytes
  -- getuserhost().str(), getuser().str() and geturihost()
  pub user_host : Bytes
  pub user : Bytes
  pub uri_host : Substring
  -- getexpires()
  pub expires : ℤ
  -- getheaderparam( Authorization, "realm" ) and "username"
  pub auth_realm : Substring
  pub auth_username : Substring
  -- getstatuscode(), and getreasonphrase().str()
  pub status_code : ℤ
  pub reason_phrase : Bytes
  -- getheader( Call_ID ).str(), and getcseq(), where `none` is an exception of `std::stoi`
  pub call_id : Bytes
  pub cseq_number : Option ℤ
  -- sipuri( getheader( To ) ).uri, gettag( To ), gethost() and getuser( To ) of the Refer-To header
  pub to_uri : Substring
  pub to_tag : Substring
  pub host : Substring
  pub refer_to_user : Bytes
  -- getuser( From ).str() and gettag( From )
  pub from_user : Bytes
  pub from_tag : Substring
  -- getheader( Contact ).str(), getheader( Content_Length ), getheader( Content_Type ), getbody() and
  -- getreplaces()
  pub contact : Bytes
  pub content_length : Substring
  pub content_type : Substring
  pub body : Bytes
  pub replaces : Substring
  -- getremotehost() and getremoteport()
  pub remote_host : Bytes
  pub remote_port : ℕ
