-- ===== src/Rtp.antt =====
-- rtp/projectrtppacket.h and projectrtppacket.cpp: an RTP packet, its header fields and its payload.
-- The array `pk` is a function of the position; the positions below 200 are in it, and `none` is an
-- access behind it. The 16-bit and 32-bit fields are in network order.
pub mod Fields
pub mod Payload
use Prim.Native.Nat.{bit_and, bit_or}
use project_mediaswitch.Base.{
  ℕ, zero, suc, ◌+◌, ◌-◌, ◌*◌, ◌/◌, ◌%◌, Bool, ◌||◌, [], ◌∷◌, Bytes, Option, none, some, length,
  ltb, ◌==◌, if◌then◌else◌,
}

abbrev pub rtp_max_length : ℕ
rtp_max_length = 200

abbrev pub g711_payload_bytes : ℕ
g711_payload_bytes = 160

abbrev pub ilbc20_payload_bytes : ℕ
ilbc20_payload_bytes = 38

abbrev pub ilbc30_payload_bytes : ℕ
ilbc30_payload_bytes = 50

-- `size_t`, in which `length` is
abbrev pub size_mod : ℕ
size_mod = 18446744073709551616

abbrev pub Array : Type 0
Array = ℕ → ℕ

-- rtppacket; the member `length` is `size` here.
pub record RtpPacket : Type 0 where
  pub size : ℕ
  pub pk : Array

unfoldable pub put : ℕ → ℕ → Array → Array
put i v a j = if j == i then v else a j

-- memcpy to a position, and from one
unfoldable pub put_all : ℕ → Bytes → Array → Array
put_all i [] a = a
put_all i (v ∷ vs) a = put_all (i + 1) vs (put i v a)

unfoldable pub read : Array → ℕ → ℕ → Bytes
read a i zero = []
read a i (suc n) = a i ∷ read a (i + 1) n

-- rtppacket()
abbrev pub new_packet : RtpPacket
new_packet = record { size = 0; pk = λ i. 0 }

unfoldable pub get_u16 : Array → ℕ → ℕ
get_u16 a i = a i * 256 + a (i + 1)

unfoldable pub put_u16 : ℕ → ℕ → Array → Array
unfolding put
put_u16 i v a = put (i + 1) (v % 256) (put i (v / 256 % 256) a)

unfoldable pub get_u32 : Array → ℕ → ℕ
unfolding get_u16
get_u32 a i = get_u16 a i * 65536 + get_u16 a (i + 2)

unfoldable pub put_u32 : ℕ → ℕ → Array → Array
unfolding put_u16
put_u32 i v a = put_u16 (i + 2) (v % 65536) (put_u16 i (v / 65536 % 65536) a)

-- init: the length stays.
unfoldable pub init : ℕ → RtpPacket → RtpPacket
unfolding put_u32
init ssrc p = record p { pk = put_u32 8 ssrc (put 0 0x80 (λ j. if ltb j 12 then 0 else p.pk j)) }

abbrev pub get_packet_version : RtpPacket → ℕ
get_packet_version p = bit_and (p.pk 0) 0xc0 / 64

abbrev pub get_packet_padding : RtpPacket → ℕ
get_packet_padding p = bit_and (p.pk 0) 0x20 / 32

abbrev pub get_packet_extension : RtpPacket → ℕ
get_packet_extension p = bit_and (p.pk 0) 0x10 / 16

abbrev pub get_packet_csrc_count : RtpPacket → ℕ
get_packet_csrc_count p = bit_and (p.pk 0) 0x0f

abbrev pub get_packet_marker : RtpPacket → ℕ
get_packet_marker p = bit_and (p.pk 1) 0x80 / 128

abbrev pub get_payload_type : RtpPacket → ℕ
get_payload_type p = bit_and (p.pk 1) 0x7f

-- setpayloadtype: the type is compared with two payload sizes.
unfoldable pub set_payload_type : ℕ → RtpPacket → RtpPacket
unfolding put
set_payload_type pt p = record {
  pk = put 1 (bit_or (bit_and (p.pk 1) 0x80) (bit_and pt 0x7f)) p.pk;
  size =
      if pt == ilbc20_payload_bytes
      then 12 + ilbc20_payload_bytes
      else if pt == ilbc30_payload_bytes
      then 12 + ilbc30_payload_bytes
      else 12 + g711_payload_bytes;
}

unfoldable pub get_sequence_number : RtpPacket → ℕ
unfolding get_u16
get_sequence_number p = get_u16 p.pk 2

unfoldable pub set_sequence_number : ℕ → RtpPacket → RtpPacket
unfolding put_u16
set_sequence_number sq p = record p { pk = put_u16 2 sq p.pk }

unfoldable pub get_timestamp : RtpPacket → ℕ
unfolding get_u32
get_timestamp p = get_u32 p.pk 4

-- getticksperpacket, and getnexttimestamp in a `uint32_t`
abbrev pub get_ticks_per_packet : ℕ
get_ticks_per_packet = g711_payload_bytes

unfoldable pub get_next_timestamp : RtpPacket → ℕ
unfolding get_timestamp
get_next_timestamp p = (get_timestamp p + get_ticks_per_packet) % 4294967296

unfoldable pub set_timestamp : ℕ → RtpPacket → RtpPacket
unfolding put_u32
set_timestamp tmstp p = record p { pk = put_u32 4 tmstp p.pk }

unfoldable pub get_ssrc : RtpPacket → ℕ
unfolding get_u32
get_ssrc p = get_u32 p.pk 8

-- getcsrc, "This function doesn't check bounds."
unfoldable pub get_csrc : RtpPacket → ℕ → Option ℕ
unfolding get_u32
get_csrc p index =
    if ltb rtp_max_length (16 + 4 * index) then none else some (get_u32 p.pk (12 + 4 * index))

-- The position to which getpayload points.
abbrev pub get_payload : RtpPacket → ℕ
get_payload p = 12 + get_packet_csrc_count p * 4

unfoldable pub get_payload_length : RtpPacket → ℕ
get_payload_length p = (p.size + size_mod - 12 - get_packet_csrc_count p * 4) % size_mod % 65536

unfoldable pub set_payload_length : ℕ → RtpPacket → RtpPacket
set_payload_length n p = record p { size = (get_payload p + n) % size_mod }

-- Both versions of copy, once the bytes are read: a null source changes nothing.
unfoldable pub copy_bytes : Option Bytes → RtpPacket → Option RtpPacket
unfolding put_all
copy_bytes none p = some p
copy_bytes (some src) p =
    if ltb rtp_max_length (get_payload p + length src)
    then none
    else some (record { pk = put_all (get_payload p) src p.pk; size = length src + get_payload p })

unfoldable pub copy : Option RtpPacket → RtpPacket → Option RtpPacket
unfolding copy_bytes get_payload_length read
copy none p = some p
copy (some src) p =
    if ltb rtp_max_length (get_payload src + get_payload_length src)
    then none
    else copy_bytes (some (read src.pk (get_payload src) (get_payload_length src))) p

-- copyheader
unfoldable pub copy_header : Option RtpPacket → RtpPacket → RtpPacket
unfolding put_all read
copy_header none p = p
copy_header (some src) p = record {
  size = src.size;
  pk = put_all 0 (read src.pk 0 (get_payload src)) p.pk;
}

-- rtppacket( rtppacket & ), on an array with anything in it
unfoldable pub copy_of : Array → RtpPacket → Option RtpPacket
unfolding put_all read
copy_of garbage p =
    if ltb rtp_max_length p.size
    then none
    else some (record { size = p.size; pk = put_all 0 (read p.pk 0 p.size) garbage })
