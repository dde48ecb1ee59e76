-- ===== src/Sip/Dispatch/Routes.antt =====
-- Which packets reach the registrar, and which make the dispatch read through a null pointer.
use project_mediaswitch.Base.{
  ◌≡◌, refl, ◌∙◌, Bool, true, false, Bytes, Option, none, some, ℤ, is_nonpos, ◌⊎◌, inl, inr, arith,
  Bool-cases, if-true, if-false, >>=-eq-some, some_injective,
}
use project_mediaswitch.Text.Substring.{Substring, to_int}
use project_mediaswitch.Sip.Packet.{
  Packet, Method, register, refer, notify, invite, ack, cancel, bye, options, subscribe, publish,
  response, unknown,
}
use project_mediaswitch.Sip.Dispatch.{
  Target, dropped, answered_ok, registrar, dialog, register_headers, invite_headers, guarded,
  handle_options, handle_register, handle_invite, handle_response, target_of, handle_sip_packet,
}

-- The hop counter of the packet is there and positive.
abbrev pub HopsLeft : (Bytes → Option ℤ) → Packet → Type 0
HopsLeft lexical_cast pk =
    (n : ℤ) × (to_int lexical_cast pk.max_forwards ≡ some n) × (is_nonpos n ≡ false)

abbrev pub is_reply : Method → Bool
is_reply m = elim m [ bye ↦ true | ack ↦ true | response ↦ true | _ ↦ false ]

distinct-targets : {A : Type 0} → dropped ≡ registrar → A
distinct-targets h = elim (no h) [ ]
  where
    no : dropped ≡ registrar → ⊥
    no g = cc

guarded-registrar :
    (lexical_cast : Bytes → Option ℤ) (headers : Bool) (pk : Packet) (target : Target)
    → guarded lexical_cast headers pk target ≡ some registrar
    → (target ≡ registrar) × (headers ≡ true) × HopsLeft lexical_cast pk
unfolding guarded
guarded-registrar lexical_cast false pk target e = cc
guarded-registrar lexical_cast true pk target e =
    let (n, x, y) = >>=-eq-some (to_int lexical_cast pk.max_forwards) _ e in
    elim (Bool-cases (is_nonpos n)) [
      | inl z ↦ distinct-targets (if-true target z (some_injective y))
      | inr p ↦ (if-false dropped p (some_injective y), refl, (n, x, p))
    ]

reply-registrar : (taken : Bool) → some (handle_response taken) ≡ some registrar → taken ≡ false
unfolding handle_response
reply-registrar true e = cc
reply-registrar false e = refl

target_of-registrar :
    (lexical_cast : Bytes → Option ℤ) (taken : Bool) (pk : Packet) (m : Method)
    → target_of lexical_cast taken pk m ≡ some registrar
    → ((m ≡ register) × (register_headers pk ≡ true) × HopsLeft lexical_cast pk)
      ⊎ ((is_reply m ≡ true) × (taken ≡ false))
unfolding target_of handle_options handle_register handle_invite
target_of-registrar lexical_cast taken pk register e =
    let h = guarded-registrar lexical_cast _ pk registrar e in inl (refl, h.1, h.2)
target_of-registrar lexical_cast taken pk cancel e =
    let h = guarded-registrar lexical_cast _ pk dialog e in cc
target_of-registrar lexical_cast taken pk invite e =
    let h = guarded-registrar lexical_cast _ pk dialog e in cc
target_of-registrar lexical_cast taken pk refer e =
    let h = guarded-registrar lexical_cast _ pk dialog e in cc
target_of-registrar lexical_cast taken pk options e =
    let h = guarded-registrar lexical_cast _ pk answered_ok e in cc
target_of-registrar lexical_cast taken pk bye e = inr (refl, reply-registrar taken e)
target_of-registrar lexical_cast taken pk response e = inr (refl, reply-registrar taken e)
target_of-registrar lexical_cast taken pk ack e = inr (refl, reply-registrar taken e)
target_of-registrar lexical_cast taken pk subscribe e = cc
target_of-registrar lexical_cast taken pk notify e = cc
target_of-registrar lexical_cast taken pk publish e = cc
target_of-registrar lexical_cast taken pk unknown e = cc

-- A packet goes to the registrar only if it is a REGISTER that has To, From, Call-ID, CSeq, Contact
-- and Via and a Max-Forwards that reads as a positive number, or if it is a BYE, an ACK or a
-- response and no dialog took it.
pub handle_sip_packet-registrar :
    (lexical_cast : Bytes → Option ℤ) (taken : Bool) (pk : Packet)
    → handle_sip_packet lexical_cast taken pk ≡ some registrar
    → ((pk.method ≡ register) × (register_headers pk ≡ true) × HopsLeft lexical_cast pk)
      ⊎ ((is_reply pk.method ≡ true) × (taken ≡ false))
unfolding handle_sip_packet
handle_sip_packet-registrar lexical_cast taken pk e =
    target_of-registrar lexical_cast taken pk pk.method e

-- Whether the handler of a method looks at Max-Forwards without having asked for it.
abbrev pub unasked : Packet → Method → Bool
unasked pk register = register_headers pk
unasked pk invite = invite_headers pk
unasked pk cancel = invite_headers pk
unasked pk refer = invite_headers pk
unasked pk _ = false

abbrev pub is_fault {ℓ} : {A : Type ℓ} → Option A → Bool
is_fault none = true
is_fault (some a) = false

to_int-null :
    (lexical_cast : Bytes → Option ℤ) (s : Substring)
    → s.buffer ≡ none
    → to_int lexical_cast s ≡ none
unfolding to_int
to_int-null lexical_cast s null = ground (arith, null)

guarded-fault :
    (lexical_cast : Bytes → Option ℤ) (headers : Bool) (pk : Packet) (target : Target)
    → to_int lexical_cast pk.max_forwards ≡ none
    → is_fault (guarded lexical_cast headers pk target) ≡ headers
unfolding guarded
guarded-fault lexical_cast false pk target h = refl
guarded-fault lexical_cast true pk target h = ground (arith, h)

target_of-fault :
    (lexical_cast : Bytes → Option ℤ) (taken : Bool) (pk : Packet) (m : Method)
    → pk.has_max_forwards ≡ false
    → to_int lexical_cast pk.max_forwards ≡ none
    → is_fault (target_of lexical_cast taken pk m) ≡ unasked pk m
unfolding target_of handle_options handle_register handle_invite
target_of-fault lexical_cast taken pk register absent h =
    guarded-fault lexical_cast _ pk registrar h
target_of-fault lexical_cast taken pk cancel absent h = guarded-fault lexical_cast _ pk dialog h
target_of-fault lexical_cast taken pk invite absent h = guarded-fault lexical_cast _ pk dialog h
target_of-fault lexical_cast taken pk refer absent h = guarded-fault lexical_cast _ pk dialog h
target_of-fault lexical_cast taken pk options absent h =
    guarded-fault lexical_cast _ pk answered_ok h ∙ ground (arith, absent)
target_of-fault lexical_cast taken pk bye absent h = refl
target_of-fault lexical_cast taken pk response absent h = refl
target_of-fault lexical_cast taken pk ack absent h = refl
target_of-fault lexical_cast taken pk subscribe absent h = refl
target_of-fault lexical_cast taken pk notify absent h = refl
target_of-fault lexical_cast taken pk publish absent h = refl
target_of-fault lexical_cast taken pk unknown absent h = refl

-- For a packet without Max-Forwards (the header is absent, its substring has no buffer) the dispatch
-- itself, that is handlesippacket with its tests of headers and without the registrar, the dialogs and
-- the event state behind it, reads through a null pointer exactly when the packet is a REGISTER,
-- INVITE, CANCEL or REFER with the headers that its handler asks for.
pub handle_sip_packet-no_hops :
    (lexical_cast : Bytes → Option ℤ) (taken : Bool) (pk : Packet)
    → pk.has_max_forwards ≡ false
    → pk.max_forwards.buffer ≡ none
    → is_fault (handle_sip_packet lexical_cast taken pk) ≡ unasked pk pk.method
unfolding handle_sip_packet
handle_sip_packet-no_hops lexical_cast taken pk absent null =
    target_of-fault lexical_cast taken pk pk.method absent
      (to_int-null lexical_cast pk.max_forwards null)
