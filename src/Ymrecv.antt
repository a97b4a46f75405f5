-- ===== src/Ymrecv.antt =====
-- The packets of the recovery mode's YMODEM receiver: src/ymrecv.c. The line is the list of what
-- y->get will return, byte by byte; `none` is a timeout, and so is the end of the list: a sender that
-- never falls silent is not in the model.
pub mod Packets
pub mod Start
pub mod Receive
use lite_forth.Common.{
  true, false, ℕ, zero, suc, ◌+◌, ◌-◌, ◌*◌, ◌/◌, ◌%◌, ◌^◌, List, [], ◌∷◌, Option, none, some,
  bit_or, bit_xor, ◌==◌, if◌then◌else◌,
}

-- SOH
abbrev pub soh : ℕ
soh = 0x01

abbrev pub Line : Type 0
Line = List (Option ℕ)

-- The inner loop of crc16, for the bits left.
unfoldable pub crc_bits : ℕ → ℕ → ℕ
crc_bits zero crc = crc
crc_bits (suc left) crc =
    crc_bits left ((if crc / 2 ^ 15 % 2 == 0 then crc * 2 else bit_xor (crc * 2) 0x1021) % 2 ^ 16)

unfoldable pub crc_from : ℕ → List ℕ → ℕ
crc_from crc [] = crc
crc_from crc (b ∷ bs) = crc_from (crc_bits 8 (bit_xor crc (b * 2 ^ 8 % 2 ^ 16))) bs

unfoldable pub crc16 : List ℕ → ℕ
crc16 bs = crc_from 0 bs

-- A byte, or -1, and the rest of the line.
abbrev pub get : Line → Option ℕ × Line
get [] = (none, [])
get (b ∷ line) = (b, line)

-- `n` bytes of the line into pkt, or `none` when one is missing, and the rest of the line.
unfoldable pub get_bytes : ℕ → Line → Option (List ℕ) × Line
get_bytes zero line = (some [], line)
get_bytes (suc n) [] = (none, [])
get_bytes (suc n) (none ∷ line) = (none, line)
get_bytes (suc n) (some b ∷ line) =
    let (bytes, rest) = get_bytes n line in
    (elim bytes [ none ↦ none | some bs ↦ some (b ∷ bs) ], rest)

-- The end of read_packet: the bytes of the packet with its check.
unfoldable pub check_packet : List ℕ → Line → Option (List ℕ) × Line
check_packet bs line =
    let (first, line') = get line in
    let (second, line'') = get line' in
    elim first [
      | none ↦ (none, line')
      | some hi ↦ elim second [
        | none ↦ (none, line'')
        | some lo ↦ (if bit_or (hi * 2 ^ 8) lo % 2 ^ 16 == crc16 bs then some bs else none, line'')
      ]
    ]

abbrev pub packet_size : ℕ → ℕ
packet_size c = if c == soh then 128 else 1024

unfoldable pub packet_body : ℕ → Line → Option (List ℕ) × Line
packet_body size line =
    let (bytes, rest) = get_bytes size line in
    elim bytes [ none ↦ (none, rest) | some bs ↦ check_packet bs rest ]

-- The block number with the packet, and the rest of the line; `none` is -1.
unfoldable pub read_packet : ℕ → Line → Option (ℕ × List ℕ) × Line
read_packet c line =
    let (first, line') = get line in
    let (second, line'') = get line' in
    let (body, rest) = packet_body (packet_size c) line'' in
    elim first [
      | none ↦ (none, line')
      | some blk ↦ elim second [
        | none ↦ (none, line'')
        | some nblk ↦ elim (blk + nblk == 255) [
          | true ↦ (elim body [ none ↦ none | some bs ↦ some (blk, bs) ], rest)
          | false ↦ (none, line'')
        ]
      ]
    ]
