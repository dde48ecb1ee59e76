-- ===== src/Rtp/Fields.antt =====
-- Writing and reading the fields of an RTP header.
use project_mediaswitch.Base.{ℕ, ◌+◌, ◌%◌, ◌≡◌, refl, arith}
use project_mediaswitch.Rtp.{
  RtpPacket, get_sequence_number, set_sequence_number, get_timestamp, set_timestamp, get_ssrc,
  get_next_timestamp,
}

-- A sequence number is read back to its lowest 16 bits after it is written; the timestamp, the
-- source, the first two bytes of the header and the length stay.
pub get_sequence_number-set_sequence_number :
    (sq : ℕ) (p : RtpPacket)
    → (get_sequence_number (set_sequence_number sq p) ≡ sq % 65536)
      × (get_timestamp (set_sequence_number sq p) ≡ get_timestamp p)
      × (get_ssrc (set_sequence_number sq p) ≡ get_ssrc p)
      × ((set_sequence_number sq p).pk 0 ≡ p.pk 0)
      × ((set_sequence_number sq p).pk 1 ≡ p.pk 1)
      × ((set_sequence_number sq p).size ≡ p.size)
unfolding get_sequence_number set_sequence_number get_timestamp get_ssrc
get_sequence_number-set_sequence_number sq p = (omega arith, refl, refl, refl, refl, refl)

-- A timestamp is read back to its lowest 32 bits after it is written, also as the timestamp of the
-- next packet less its 160 ticks; the sequence number, the source, the first two bytes and the
-- length stay.
pub get_timestamp-set_timestamp :
    (tmstp : ℕ) (p : RtpPacket)
    → (get_timestamp (set_timestamp tmstp p) ≡ tmstp % 4294967296)
      × (get_next_timestamp (set_timestamp tmstp p) ≡ (tmstp + 160) % 4294967296)
      × (get_sequence_number (set_timestamp tmstp p) ≡ get_sequence_number p)
      × (get_ssrc (set_timestamp tmstp p) ≡ get_ssrc p)
      × ((set_timestamp tmstp p).pk 0 ≡ p.pk 0)
      × ((set_timestamp tmstp p).pk 1 ≡ p.pk 1)
      × ((set_timestamp tmstp p).size ≡ p.size)
unfolding get_sequence_number set_timestamp get_timestamp get_ssrc get_next_timestamp
get_timestamp-set_timestamp tmstp p = (omega arith, omega arith, refl, refl, refl, refl, refl)
