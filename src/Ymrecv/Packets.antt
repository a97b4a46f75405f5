-- ===== src/Ymrecv/Packets.antt =====
-- A packet that is framed as YMODEM says is read; what is read is a packet with its check.
use lite_forth.Common.{
  ℕ, zero, suc, ◌+◌, ◌-◌, ◌*◌, ◌/◌, ◌%◌, ◌^◌, ◌<◌, ◌≡◌, refl, sym, subst, arith, true, List, [],
  ◌∷◌, ◌++◌, Option, none, some, map, length, bit_or, bit_or-shifted, bit_xor-lt, ◌==◌, ==_iff,
}
use lite_forth.Ymrecv.{
  Line, crc_bits, crc_from, crc16, get_bytes, check_packet, packet_size, packet_body, read_packet,
}

crc_bits-lt : (left crc : ℕ) → crc < 2 ^ 16 → crc_bits left crc < 2 ^ 16
unfolding crc_bits
crc_bits-lt zero crc h = h
crc_bits-lt (suc left) crc h = crc_bits-lt left _ (omega arith)

crc_from-lt : (bs : List ℕ) (crc : ℕ) → crc < 2 ^ 16 → crc_from crc bs < 2 ^ 16
unfolding crc_from
crc_from-lt [] crc h = h
crc_from-lt (b ∷ bs) crc h =
    crc_from-lt bs _ (crc_bits-lt 8 _ (bit_xor-lt 16 crc (b * 2 ^ 8 % 2 ^ 16) h (omega arith)))

-- The bytes of a packet behind its first: the block number, its complement, the data, and the check.
abbrev pub frame : ℕ → List ℕ → Line → Line
frame blk bs rest =
    some blk
    ∷ some (255 - blk)
    ∷ (map some bs ++ (some (crc16 bs / 2 ^ 8) ∷ some (crc16 bs % 2 ^ 8) ∷ rest))

get_bytes-frame :
    (bs : List ℕ) (rest : Line) → get_bytes (length bs) (map some bs ++ rest) ≡ (some bs, rest)
unfolding get_bytes
get_bytes-frame [] rest = refl
get_bytes-frame (b ∷ bs) rest = rw (get_bytes, get_bytes-frame bs rest) refl

check_packet-frame :
    (bs : List ℕ) (rest : Line)
    → check_packet bs (some (crc16 bs / 2 ^ 8) ∷ some (crc16 bs % 2 ^ 8) ∷ rest) ≡ (some bs, rest)
unfolding check_packet crc16
check_packet-frame bs rest =
    let crc = crc16 bs in
    let small : crc < 2 ^ 16 = crc_from-lt bs 0 (omega arith) in
    let joined : bit_or (crc / 2 ^ 8 * 2 ^ 8) (crc % 2 ^ 8) ≡ crc / 2 ^ 8 * 2 ^ 8 + crc % 2 ^ 8 =
      bit_or-shifted 8 (crc / 2 ^ 8) (crc % 2 ^ 8) (omega (arith, small)) (omega arith) in
    let checked : (bit_or (crc / 2 ^ 8 * 2 ^ 8) (crc % 2 ^ 8) % 2 ^ 16 == crc) ≡ true =
      (==_iff _ _).1 (omega (arith, joined, small)) in
    rw checked refl

packet_body-frame :
    (bs : List ℕ) (rest : Line)
    → packet_body
        (length bs)
        (map some bs ++ (some (crc16 bs / 2 ^ 8) ∷ some (crc16 bs % 2 ^ 8) ∷ rest))
      ≡ (some bs, rest)
unfolding packet_body
packet_body-frame bs rest =
    let bytes = get_bytes-frame bs (some (crc16 bs / 2 ^ 8) ∷ some (crc16 bs % 2 ^ 8) ∷ rest) in
    subst
      (λ r.
        elim r.0 as (λ o. Option (List ℕ) × Line) [
          | none ↦ (none, r.1)
          | some bs' ↦ check_packet bs' r.1
        ]
        ≡ (some bs, rest))
      (sym bytes) (check_packet-frame bs rest)

-- A packet of the size that its first byte says, framed with its block number and its CRC, is read
-- as that block number and those bytes, and nothing behind it is taken from the line.
pub read_packet-frame :
    (c blk : ℕ) (bs : List ℕ) (rest : Line)
    → blk < 256
    → length bs ≡ packet_size c
    → read_packet c (frame blk bs rest) ≡ (some (blk, bs), rest)
unfolding read_packet
read_packet-frame c blk bs rest h size =
    let sum : (blk + (255 - blk) == 255) ≡ true = (==_iff _ _).1 (omega arith) in
    rw (read_packet, sum, sym size, packet_body-frame bs rest) refl
