-- ===== src/Registrar/Store/Frame.antt =====
-- What a packet changes in the container of registrations.
use project_mediaswitch.Base.{
  ℕ, ◌≡◌, refl, sym, ap, Bool, true, false, List, [], ◌∷◌, Bytes, none, some, bytes_eq, inl, inr,
  bytes_eq_iff, if◌then◌else◌, arith,
}
use project_mediaswitch.Directory.Tree.{Domain}
use project_mediaswitch.Sip.Packet.{Packet}
use project_mediaswitch.Registrar.{Registration, Effect}
use project_mediaswitch.Registrar.Store.Kept.{
  Kept, found_or_new-Inv, handle_packet-Inv, registrar_sip_packet-result,
}
use project_mediaswitch.Registrar.Store.{
  Registrations, find_reg, erase_reg, put_reg, settle, registrar_sip_packet,
}

pub find_reg-erase_reg :
    (k j : Bytes) (rs : Registrations)
    → find_reg j (erase_reg k rs) ≡ (if bytes_eq k j then none else find_reg j rs)
unfolding find_reg erase_reg
find_reg-erase_reg k j [] = ground arith
find_reg-erase_reg k j (r ∷ rs) = ground (
  arith,
  bytes_eq_iff r.user k,
  bytes_eq_iff k j,
  bytes_eq_iff r.user j,
  find_reg-erase_reg k j rs,
)

pub find_reg-put_reg :
    (k j : Bytes) (new : Registration) (rs : Registrations)
    → new.user ≡ k
    → find_reg j (put_reg k new rs) ≡ (if bytes_eq k j then some new else find_reg j rs)
unfolding find_reg put_reg
find_reg-put_reg k j new [] e = ground (arith, e)
find_reg-put_reg k j new (r ∷ rs) e = ground (
  arith,
  e,
  bytes_eq_iff r.user k,
  bytes_eq_iff k j,
  bytes_eq_iff r.user j,
  find_reg-put_reg k j new rs e,
)

-- The container after a packet, read at any user.
pub find_reg-settle :
    (k j : Bytes) (rs : Registrations) (d : Registration × List Effect × Bool)
    → d.0.user ≡ k
    → find_reg j (settle k rs d)
      ≡ (if bytes_eq k j then (if d.2 then none else some d.0) else find_reg j rs)
find_reg-settle k j rs (r, sent, true) e = find_reg-erase_reg k j rs
find_reg-settle k j rs (r, sent, false) e = find_reg-put_reg k j r rs e

-- In a container whose registrations are sound, a packet leaves the entry of every user as it is
-- but that of the user@host it is addressed to.
pub registrar_sip_packet_frame :
    (check_auth : Packet → Packet → Bytes → Bool) (dir : Domain) (now : ℕ) (garbage : Bool)
    (rs rs' : Registrations) (pk : Packet) (sent : List Effect) (j : Bytes)
    → registrar_sip_packet check_auth dir now garbage rs pk ≡ some (rs', sent)
    → Kept rs
    → bytes_eq pk.user_host j ≡ false
    → find_reg j rs' ≡ find_reg j rs
registrar_sip_packet_frame check_auth dir now garbage rs rs' pk sent j e v other =
    elim (registrar_sip_packet-result check_auth dir now garbage rs rs' pk sent e) [
      | inl same ↦ ap (find_reg j) (sym same)
      | inr (d, x, same) ↦
          let i =
            handle_packet-Inv check_auth dir now _ d.0 pk d.1 d.2 x
              (found_or_new-Inv pk.user_host now garbage rs v) in
          rw (sym same) (rw (find_reg-settle pk.user_host j rs d i.named, other) refl)
    ]
