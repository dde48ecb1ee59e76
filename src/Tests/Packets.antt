-- ===== src/Tests/Packets.antt =====
-- Tests of the RTP packets, on a fresh packet with one sequence number, timestamp and source.
use project_mediaswitch.Base.{◌≡◌, refl, [], ◌∷◌, Bytes, some, arith}
use project_mediaswitch.Rtp.{
  RtpPacket, new_packet, init, get_sequence_number, get_timestamp, set_timestamp, get_ssrc,
  get_next_timestamp, get_packet_version, get_packet_csrc_count, get_payload, get_payload_length,
  copy_bytes, read,
}
use project_mediaswitch.Rtp.Fields.{get_timestamp-set_timestamp}
use project_mediaswitch.Rtp.Payload.{copy_bytes-read}

abbrev packet : RtpPacket
packet = init 3735928559 new_packet

init_version :
    (get_packet_version packet ≡ 2)
    × (get_packet_csrc_count packet ≡ 0)
    × (get_ssrc packet ≡ 3735928559)
unfolding init get_ssrc
init_version = (refl, refl, refl)

get_timestamp-set_timestamp_example :
    (get_timestamp (set_timestamp 4294967295 packet) ≡ 4294967295)
    × (get_next_timestamp (set_timestamp 4294967295 packet) ≡ 159)
    × (get_sequence_number (set_timestamp 4294967295 packet) ≡ get_sequence_number packet)
    × (get_ssrc (set_timestamp 4294967295 packet) ≡ get_ssrc packet)
    × ((set_timestamp 4294967295 packet).pk 0 ≡ packet.pk 0)
    × ((set_timestamp 4294967295 packet).pk 1 ≡ packet.pk 1)
    × ((set_timestamp 4294967295 packet).size ≡ packet.size)
get_timestamp-set_timestamp_example = get_timestamp-set_timestamp 4294967295 packet

abbrev samples : Bytes
samples = 10 ∷ 20 ∷ 30 ∷ []

copy_bytes-read_example :
    (p' : RtpPacket) × (copy_bytes (some samples) packet ≡ some p')
    × (get_payload_length p' ≡ 3)
    × (read p'.pk (get_payload p') (get_payload_length p') ≡ samples)
    × (read p'.pk 0 (get_payload packet) ≡ read packet.pk 0 (get_payload packet))
unfolding init
copy_bytes-read_example = copy_bytes-read samples packet (omega arith)
