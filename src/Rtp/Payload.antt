-- ===== src/Rtp/Payload.antt =====
-- What `copy` writes, read back as a payload.
use Prim.Native.Nat.{bit_and}
use project_mediaswitch.Base.{
  ℕ, zero, suc, ◌+◌, ◌-◌, ◌%◌, ◌*◌, ◌≤◌, ◌<◌, ◌≡◌, refl, ap, ap₂, ◌∙◌, [], ◌∷◌, Bytes, some, length,
  arith,
}
use project_mediaswitch.Rtp.{
  RtpPacket, Array, put, put_all, read, get_payload, get_payload_length, copy_bytes, size_mod,
}

put_all-before : (i j : ℕ) (vs : Bytes) (a : Array) → j < i → put_all i vs a j ≡ a j
unfolding put_all put
put_all-before i j [] a h = refl
put_all-before i j (v ∷ vs) a h =
    put_all-before (i + 1) j vs (put i v a) (omega arith) ∙ ground (arith, h)

read-put_all_before :
    (n j i : ℕ) (vs : Bytes) (a : Array) → j + n ≤ i → read (put_all i vs a) j n ≡ read a j n
unfolding read
read-put_all_before zero j i vs a h = refl
read-put_all_before (suc n) j i vs a h =
    ap₂ (λ x y. x ∷ y) (put_all-before i j vs a (omega arith))
      (read-put_all_before n (j + 1) i vs a (omega arith))

read-put_all : (i : ℕ) (vs : Bytes) (a : Array) → read (put_all i vs a) i (length vs) ≡ vs
unfolding read put_all put
read-put_all i [] a = refl
read-put_all i (v ∷ vs) a =
    ap₂ (λ x y. x ∷ y) (put_all-before (i + 1) i vs (put i v a) (omega arith) ∙ ground arith)
      (read-put_all (i + 1) vs (put i v a))

-- Bytes that fit behind the header of a packet, within the 200 bytes of its array, are its payload
-- after `copy`, to their length; the header up to the payload stays.
pub copy_bytes-read :
    (src : Bytes) (p : RtpPacket)
    → get_payload p + length src ≤ 200
    → (p' : RtpPacket) × (copy_bytes (some src) p ≡ some p')
      × (get_payload_length p' ≡ length src)
      × (read p'.pk (get_payload p') (get_payload_length p') ≡ src)
      × (read p'.pk 0 (get_payload p) ≡ read p.pk 0 (get_payload p))
unfolding copy_bytes get_payload_length
copy_bytes-read src p fits = (
  after,
  ground (arith, fits),
  measured,
  ap₂ (read after.pk) same_start measured ∙ read-put_all (get_payload p) src p.pk,
  read-put_all_before (get_payload p) 0 (get_payload p) src p.pk (omega arith),
)
  where
    after : RtpPacket
    after = record { pk = put_all (get_payload p) src p.pk; size = length src + get_payload p }

    first : after.pk 0 ≡ p.pk 0
    first = put_all-before (get_payload p) 0 src p.pk (omega arith)

    same_start : get_payload after ≡ get_payload p
    same_start = ap (λ b. 12 + bit_and b 0x0f * 4) first

    measured : get_payload_length after ≡ length src
    measured =
        ap
          (λ b.
            (length src + get_payload p + size_mod - 12 - bit_and b 0x0f * 4) % size_mod % 65536)
          first
        ∙ omega (arith, fits)
