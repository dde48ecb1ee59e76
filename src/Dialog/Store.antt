-- ===== src/Dialog/Store.antt =====
-- sip/projectsipdialog.cpp: the container `dialogs`, which has one index, the Call-ID, and
-- `invitesippacket`.
pub mod Find
pub mod Frame
use project_mediaswitch.Base.{
  Bool, true, false, List, [], ◌∷◌, ◌++◌, Bytes, Option, none, some, codes, bytes_eq, length, ltb,
  if◌then◌else◌, pos, ◌>>=◌,
}
use project_mediaswitch.Sip.Packet.{Packet, Method, invite, cancel, bye, response}
use project_mediaswitch.Sip.Message.{
  Message, composes, status, common_headers, via, challenge, text, content_type, to_header,
}
use project_mediaswitch.Dialog.{Dialog, Garbage, Effect, send_to, Env, new_dialog}
use project_mediaswitch.Dialog.Act.{Act, ◌>>◌, with, modify}
use project_mediaswitch.Dialog.Endpoint.{update_control}
use project_mediaswitch.Dialog.Answers.{send_200, copies, copy_of, no_content}
use project_mediaswitch.Dialog.States.{run_state}

-- projectsipdialogs: one dialog for a Call-ID.
abbrev pub Dialogs : Type 0
Dialogs = List Dialog

unfoldable pub find_dialog : Bytes → Dialogs → Option Dialog
find_dialog k [] = none
find_dialog k (d ∷ ds) = if bytes_eq d.call_id k then some d else find_dialog k ds

unfoldable pub erase_dialog : Bytes → Dialogs → Dialogs
erase_dialog k [] = []
erase_dialog k (d ∷ ds) = if bytes_eq d.call_id k then erase_dialog k ds else d ∷ erase_dialog k ds

-- insert, and a write through the pointer that the container holds.
unfoldable pub put_dialog : Bytes → Dialog → Dialogs → Dialogs
put_dialog k new [] = new ∷ []
put_dialog k new (d ∷ ds) = if bytes_eq d.call_id k then new ∷ ds else d ∷ put_dialog k new ds

-- The container after a step of the dialog `k`, which may have taken it out.
abbrev pub settle : Bytes → Dialogs → Dialog → Dialogs
settle k ds d = if d.tracked then put_dialog k d ds else erase_dialog k ds

-- handlebye
unfoldable pub handle_bye : Env → Packet → Act
unfolding send_200 update_control
handle_bye env pk =
    modify (λ d. record d { call_hung_up = true; end_at = env.now; last_received = some pk })
    >> send_200 env [] false
    >> update_control env

-- The switch of invitesippacket on the method.
abbrev pub handled : Env → Packet → Method → Act
handled env pk bye = handle_bye env pk
handled env pk cancel = handle_bye env pk
handled env pk _ = with (λ d. run_state env d.next_state pk)

-- The part of invitesippacket that is about the dialog of the packet.
unfoldable pub receive : Env → Packet → Act
unfolding handle_bye run_state
receive env pk = modify (λ d. record d { last_received = some pk }) >> handled env pk pk.method

-- The answer to a packet of a dialog that is not known, with a nonce.
abbrev pub no_dialog_message : Bytes → Packet → Message
no_dialog_message nonce pk = record {
  line = status (pos 481) (codes "Call Leg/Transaction Does Not Exist");
  parts =
      common_headers
      ∷ via (some pk)
      ∷ challenge pk nonce
      ∷ (copies (copy_of to_header pk) pk
          ++ (text content_type (codes "application/sdp") ∷ no_content));
}

-- The new dialog, which the container gets.
abbrev pub begin : Garbage → Env → Bytes → Dialog
begin g env k = record (new_dialog g env.now) { call_id = k; tracked = true }

abbrev pub Taken : Type 0
Taken = Option (Dialogs × List Effect × Bool)

abbrev pub received_by : Env → Dialogs → Packet → Dialog → Taken
received_by env ds pk d =
    receive env pk d >>= λ done. some (settle pk.call_id ds done.0, done.1, true)

-- A Call-ID that is not known.
abbrev pub unknown_for : Garbage → Env → Dialogs → Packet → Method → Taken
unknown_for g env ds pk response = some (ds, [], false)
unknown_for g env ds pk invite = received_by env ds pk (begin g env pk.call_id)
unknown_for g env ds pk _ =
    let m = no_dialog_message env.nonce pk in
    if composes m.parts then some (ds, send_to pk m ∷ [], false) else none

abbrev pub taken_by : Garbage → Env → Dialogs → Packet → Option Dialog → Taken
taken_by g env ds pk none = unknown_for g env ds pk pk.method
taken_by g env ds pk (some d) = received_by env ds pk d

-- invitesippacket; the Bool is its result.
unfoldable pub invite_sip_packet : Garbage → Env → Dialogs → Packet → Taken
unfolding receive find_dialog
invite_sip_packet g env ds pk =
    if ltb (length pk.call_id) 5
    then some (ds, [], true)
    else taken_by g env ds pk (find_dialog pk.call_id ds)
