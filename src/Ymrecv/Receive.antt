-- ===== src/Ymrecv/Receive.antt =====
-- The receiver of src/ymrecv.c, ymr_receive. A write of a block is a call of the parameter
-- `write_block`: its error may depend on the calls before. The buffers are functions of the index; the
-- message for the terminal and the times are left out. The length in packet 0 is a long of 64 bits; the
-- loop compares its low 32 bits.
pub mod Ends
pub mod Safe
use lite_forth.Common.{
  [], ℕ, zero, suc, ◌+◌, ◌-◌, ◌/◌, ◌%◌, ◌^◌, Bool, true, false, not, ◌&&◌, ◌||◌, List, ◌∷◌, Option,
  none, some, ltb, leb, ◌==◌, if◌then◌else◌, update, length,
}
use lite_forth.Ymrecv.{get, soh, read_packet}
use lite_forth.Ymrecv.Start.{
  Header, Wire, ack, broken, byte_of, can, cancel, crc, eot, file, is_byte, nak, no_file, no_sender,
  packet_ms, purge, put, read_header, retries, source_error, stx, transfer_error, ymr_block,
}

-- A block that was given to write_block, with its bytes.
abbrev pub Written : Type 0
Written = List (ℕ × (ℕ → ℕ))

-- The locals of ymr_receive, its buffers, and the blocks written, the last first.
pub record Receiver : Type 0 where
  pub wire : Wire
  pub got : ℕ
  pub expected : ℕ
  pub errors : ℕ
  pub block0 : ℕ → ℕ
  pub work : ℕ → ℕ
  pub written : Written

-- How the loop over the data ends: cancelled by the sender, refused (why, with err), or complete.
pub data End : Type 0 where
  cancelled : End
  refused : ℕ → End
  complete : End

-- The result, *size, and what was written and sent.
pub record Received : Type 0 where
  pub result : ℕ
  pub size : ℕ
  pub wire : Wire
  pub written : Written

abbrev pub on_wire : Wire → Receiver → Receiver
on_wire w r = record r { wire = w }

-- (b ? io->work : io->block0)[at] = pkt[i]
unfoldable pub put_byte : ℕ → Receiver → Receiver
put_byte x r =
    if r.got / ymr_block == 0
    then record r { block0 = update r.block0 (r.got % ymr_block) x }
    else record r { work = update r.work (r.got % ymr_block) x }

-- memcmp(io->block0, io->magic, ...) == 0
unfoldable pub has_magic : ℕ → List ℕ → (ℕ → ℕ) → Bool
has_magic i [] block = true
has_magic i (m ∷ ms) block = (block i == m) && has_magic (i + 1) ms block

unfoldable pub wrong_magic : Option (List ℕ) → (ℕ → ℕ) → Bool
unfolding has_magic
wrong_magic none block = false
wrong_magic (some magic) block = not (has_magic 0 magic block)

abbrev pub new_receiver : Wire → (ℕ → ℕ) → (ℕ → ℕ) → Receiver
new_receiver w block0 work = record {
  wire = w;
  got = 0;
  expected = 1;
  errors = 0;
  block0 = block0;
  work = work;
  written = [];
}

abbrev pub nothing : ℕ → Wire → Option Received
nothing result w = some (record { result = result; size = 0; wire = w; written = [] })

module _ (write_block : Written → ℕ → (ℕ → ℕ) → ℕ) where
  -- The loop over the bytes of a packet: err, and the receiver.
  unfoldable pub store_bytes : ℕ → List ℕ → Receiver → ℕ × Receiver
  store_bytes size [] r = (0, r)
  store_bytes size (x ∷ bs) r =
      let b = r.got / ymr_block in
      let at = r.got % ymr_block in
      let r' = put_byte x r in
      let err = write_block r'.written b r'.work in
      let written = record r' { written = (b, r'.work) ∷ r'.written } in
      elim (ltb r.got size) [
        | false ↦ (0, r)
        | true ↦ elim ((at == ymr_block - 1) && not (b == 0)) [
          | false ↦ store_bytes size bs (record r' { got = r.got + 1 })
          | true ↦ elim (err == 0) [
            | false ↦ (err, written)
            | true ↦ store_bytes size bs (record written { got = r.got + 1 })
          ]
        ]
      ]

  -- A packet with a good check: how the loop ends, or the receiver that goes on.
  unfoldable pub take_packet : Option (List ℕ) → ℕ → ℕ → List ℕ → Receiver → Option End × Receiver
  take_packet magic size blk bs r =
      let (err, r') = store_bytes size bs (record r { errors = 0 }) in
      if blk == (r.expected + 255) % 256
      then (none, on_wire (put ack r.wire) r)
      else (if not (blk == r.expected)
          then (some (refused 0), r)
          else (if not (err == 0)
              then (some (refused err), r')
              else (if (r.expected == 1) && wrong_magic magic r'.block0
                  then (some (refused 0), r')
                  else (
                    none,
                    record r' { wire = put ack r'.wire; expected = (r.expected + 1) % 256 },
                  ))))

  -- The rest of a round that began with SOH or STX.
  unfoldable pub on_packet : Option (List ℕ) → ℕ → ℕ → Receiver → Option End × Receiver
  unfolding take_packet
  on_packet magic size c r =
      let (packet, after) = read_packet c r.wire.line in
      let purged = record r.wire { line = purge after } in
      let more = record r { errors = r.errors + 1 } in
      elim packet [
        | none ↦
            if leb retries (r.errors + 1)
            then (some (refused 0), on_wire purged more)
            else (none, on_wire (put nak purged) more)
        | some (blk, bs) ↦
            take_packet magic size blk bs (on_wire (record r.wire { line = after }) r)
      ]

  -- One round of the loop over the data.
  unfoldable pub data_round : Option (List ℕ) → ℕ → Receiver → Option End × Receiver
  unfolding on_packet
  data_round magic size r =
      let (c, line) = get r.wire.line in
      let (second, line') = get line in
      let w = record r.wire { line = line } in
      let w' = record r.wire { line = line' } in
      let more = record r { errors = r.errors + 1 } in
      if is_byte c eot
      then (if ltb r.got size then (some (refused 0), on_wire w r) else (
        some complete,
        on_wire (if is_byte second eot then put ack (put nak w') else put nak w') r,
      ))
      else (if is_byte c can
          then (if is_byte second can then (some cancelled, on_wire w' r) else (none, on_wire w' r))
          else (if is_byte c soh || is_byte c stx
              then on_packet magic size (byte_of c) (on_wire w r)
              else (if byte_of c == nak
                  then (if leb retries (r.errors + 1)
                      then (some (refused 0), on_wire w more)
                      else (none, on_wire (put nak w) more))
                  else (none, on_wire w r))))

  -- The loop over the data, on fuel.
  unfoldable pub data_loop : ℕ → Option (List ℕ) → ℕ → Receiver → Option (End × Receiver)
  data_loop zero magic size r = none
  data_loop (suc fuel) magic size r =
      let (end, r') = data_round magic size r in
      elim end [ none ↦ data_loop fuel magic size r' | some e ↦ some (e, r') ]

  -- After the loop: block 0 is written last. `none` means that read_header ran out of fuel.
  unfoldable pub finish : ℕ → End → Receiver → Option Received
  finish size cancelled r =
      some (record { result = transfer_error; size = 0; wire = r.wire; written = r.written })
  finish size (refused err) r = some (record {
    result = if err == 0 then source_error else err;
    size = 0;
    wire = cancel r.wire;
    written = r.written;
  })
  finish size complete r =
      let err = write_block r.written 0 r.block0 in
      let written = (0, r.block0) ∷ r.written in
      if err == 0
      then elim (read_header packet_ms r.wire) [
        | none ↦ none
        | some (file name length, w) ↦
            some (record { result = 0; size = size; wire = cancel w; written = written })
        | some (_, w) ↦ some (record { result = 0; size = size; wire = w; written = written })
      ]
      else some (record { result = err; size = 0; wire = cancel r.wire; written = written })

  -- The file that packet 0 announced, of `size` bytes. Rounds for every byte of the line, and for the
  -- retries, are enough.
  unfoldable pub receive_file : Option (List ℕ) → ℕ → Receiver → Option Received
  receive_file magic size r = elim (data_loop (length r.wire.line + suc retries) magic size r) [
    | none ↦ none
    | some (end, r') ↦ finish size end r'
  ]

  -- What packet 0 decides. `blocks` is io->blocks; block0 and work are what is in the buffers.
  unfoldable pub on_header :
      Option (List ℕ) → ℕ → (ℕ → ℕ) → (ℕ → ℕ) → Header → Wire → Option Received
  unfolding receive_file
  on_header magic blocks block0 work no_sender w = nothing transfer_error w
  on_header magic blocks block0 work no_file w = nothing transfer_error w
  on_header magic blocks block0 work (broken err) w = nothing err w
  on_header magic blocks block0 work (file name none) w = nothing source_error (cancel w)
  on_header magic blocks block0 work (file name (some size)) w =
      if (size == 0) || not (size % ymr_block == 0) || ltb blocks (size / ymr_block)
      then nothing source_error (cancel w)
      else receive_file magic (size % 2 ^ 32) (new_receiver (put crc w) block0 work)

  unfoldable pub ymr_receive :
      Option (List ℕ) → (blocks start_ms : ℕ) → (ℕ → ℕ) → (ℕ → ℕ) → Wire → Option Received
  unfolding on_header
  ymr_receive magic blocks start_ms block0 work w = elim (read_header start_ms w) [
    | none ↦ none
    | some (header, w') ↦ on_header magic blocks block0 work header w'
  ]
