-- ===== src/Tests/Packets.antt =====
-- A packet of 128 bytes, and the CRC's check value.
use lite_forth.Common.{ℕ, zero, suc, ◌≡◌, refl, arith, List, [], ◌∷◌, some, none}
use lite_forth.Ymrecv.{crc_bits, crc_from, crc16, read_packet, soh}
use lite_forth.Ymrecv.Packets.{frame, read_packet-frame}

crc_check : crc16 (49 ∷ 50 ∷ 51 ∷ 52 ∷ 53 ∷ 54 ∷ 55 ∷ 56 ∷ 57 ∷ []) ≡ 0x31C3
unfolding crc16 crc_from crc_bits
crc_check = refl

abbrev filler : ℕ → List ℕ
filler zero = []
filler (suc n) = 0x1A ∷ filler n

read_packet-frame_example :
    read_packet soh (frame 7 (filler 128) (none ∷ [])) ≡ (some (7, filler 128), none ∷ [])
read_packet-frame_example = read_packet-frame soh 7 (filler 128) (none ∷ []) (omega arith) refl
