-- ===== src/Ymrecv/Start.antt =====
-- The start of a transfer in src/ymrecv.c: purge, cancel, await_start and read_header. What is sent is
-- a list, the last byte first. The times are left out.
pub mod Ends
pub mod Errors
use lite_forth.Common.{
  [], ℕ, zero, suc, ◌+◌, ◌-◌, ◌*◌, ◌/◌, ◌^◌, Bool, true, false, not, ◌&&◌, ◌||◌, List, ◌∷◌, Option,
  none, some, ltb, leb, ◌==◌, if◌then◌else◌, get_or, length, neg32,
}
use lite_forth.Ymrecv.{Line, get, soh, read_packet}

-- STX, EOT, ACK, NAK, CAN and CRC
abbrev pub stx : ℕ
stx = 0x02

abbrev pub eot : ℕ
eot = 0x04

abbrev pub ack : ℕ
ack = 0x06

abbrev pub nak : ℕ
nak = 0x15

abbrev pub can : ℕ
can = 0x18

abbrev pub crc : ℕ
crc = 0x43

-- RETRIES, PACKET_MS and YMR_BLOCK
abbrev pub retries : ℕ
retries = 10

abbrev pub packet_ms : ℕ
packet_ms = 10000

abbrev pub ymr_block : ℕ
ymr_block = 4096

-- ERR_YMODEM_TRANSFER and ERR_YMODEM_SOURCE
abbrev pub transfer_error : ℕ
transfer_error = neg32 123

abbrev pub source_error : ℕ
source_error = neg32 124

-- Whether a byte came, and is this one.
abbrev pub is_byte : Option ℕ → ℕ → Bool
is_byte none b = false
is_byte (some c) b = c == b

-- A byte; a timeout counts as a NAK.
abbrev pub byte_of : Option ℕ → ℕ
byte_of none = nak
byte_of (some b) = b

unfoldable pub purge : Line → Line
purge [] = []
purge (none ∷ line) = line
purge (some b ∷ line) = purge line

-- Both ends of the line: what will be read, and what was sent.
pub record Wire : Type 0 where
  pub line : Line
  pub sent : List ℕ

abbrev pub put : ℕ → Wire → Wire
put b w = record w { sent = b ∷ w.sent }

unfoldable pub cancel : Wire → Wire
unfolding purge
cancel w = record { line = purge w.line; sent = can ∷ can ∷ w.sent }

-- The inner loop of await_start, until nothing comes.
unfoldable pub start_byte : Line → Option ℕ × Line
start_byte [] = (none, [])
start_byte (none ∷ line) = (none, line)
start_byte (some c ∷ line) =
    let rest = start_byte line in
    if (c == soh) || (c == stx) || (c == eot) || (c == can) then (some c, line) else rest

-- await_start's rounds of POLL_MS.
unfoldable pub await_rounds : ℕ → Wire → Option ℕ × Wire
unfolding start_byte
await_rounds zero w = (none, w)
await_rounds (suc left) w =
    let (c, line) = start_byte w.line in
    let w' : Wire = record { line = line; sent = crc ∷ w.sent } in
    let rest = await_rounds left w' in elim c [ none ↦ rest | some b ↦ (some b, w') ]

abbrev pub await_start : ℕ → Wire → Option ℕ × Wire
await_start ms w = await_rounds ((ms + 2999) / 3000) w

-- What read_header returns: NO_SENDER, 0, an error, or a file with its length (`none` is -1).
pub data Header : Type 0 where
  no_sender : Header
  no_file : Header
  broken : ℕ → Header
  file : List ℕ → Option ℕ → Header

-- The name in packet 0, of at most `left` characters.
unfoldable pub header_name : ℕ → List ℕ → List ℕ
header_name zero bs = []
header_name (suc left) [] = []
header_name (suc left) (b ∷ bs) = if b == 0 then [] else b ∷ header_name left bs

-- What follows the name's end.
unfoldable pub header_rest : List ℕ → List ℕ
header_rest [] = []
header_rest (b ∷ bs) = if b == 0 then bs else header_rest bs

abbrev pub is_digit : ℕ → Bool
is_digit b = leb 48 b && leb b 57

unfoldable pub digits_from : ℕ → List ℕ → ℕ
digits_from v [] = v
digits_from v (b ∷ bs) =
    let rest = digits_from (v * 10 + (b - 48)) bs in
    if is_digit b && ltb v (2 ^ 30) then rest else v

unfoldable pub header_length : List ℕ → Option ℕ
unfolding digits_from
header_length [] = none
header_length (b ∷ bs) = if is_digit b then some (digits_from 0 (b ∷ bs)) else none

-- The loop of read_header, on fuel: `none` means that it ran out.
unfoldable pub header_loop : ℕ → ℕ → ℕ → Wire → Option (Header × Wire)
header_loop zero ms errors w = none
header_loop (suc fuel) ms errors w =
    let (c, w') = await_start ms w in
    elim c [
      | none ↦ some (no_sender, w')
      | some b ↦ elim (b == can) [
        | true ↦
            let (second, line) = get w'.line in
            let w'' = record w' { line = line } in
            elim (is_byte second can) [
              | true ↦ some (broken transfer_error, w'')
              | false ↦ header_loop fuel ms errors w''
            ]
        | false ↦ elim (b == eot) [
          | true ↦ header_loop fuel ms errors (put ack w')
          | false ↦
              let (packet, line) = read_packet b w'.line in
              let purged = record w' { line = purge line } in
              let w'' = record w' { line = line } in
              elim packet [
                | none ↦ elim (leb retries (errors + 1)) [
                  | true ↦ some (broken transfer_error, purged)
                  | false ↦ header_loop fuel ms (errors + 1) (put nak purged)
                ]
                | some (blk, bs) ↦
                    if not (blk == 0)
                    then some (broken transfer_error, cancel w'')
                    else (if get_or bs 0 0 == 0
                        then some (no_file, put ack w'')
                        else some (
                          file (header_name 63 bs) (header_length (header_rest bs)),
                          put ack w'',
                        ))
              ]
        ]
      ]
    ]

-- More rounds than the line has bytes are enough.
abbrev pub read_header : ℕ → Wire → Option (Header × Wire)
read_header ms w = header_loop (suc (length w.line)) ms 0 w
