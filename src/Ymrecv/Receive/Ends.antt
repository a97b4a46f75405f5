-- ===== src/Ymrecv/Receive/Ends.antt =====
-- The receiver ends, whatever comes over the line.
use lite_forth.Common.{
  ℕ, zero, suc, ◌+◌, ◌-◌, ◌/◌, ◌%◌, ◌^◌, ◌≤◌, ◌<◌, ◌≡◌, refl, subst, ap, ◌∙◌, arith, not, ◌&&◌,
  ◌||◌, List, [], ◌∷◌, Option, none, some, ltb, leb, ◌==◌, if◌then◌else◌, length, inl, inr,
  Bool-cases, Option-cases,
}
use lite_forth.Ymrecv.{get, soh, read_packet}
use lite_forth.Ymrecv.Start.{
  Wire, put, cancel, is_byte, can, eot, nak, stx, retries, Header, read_header, byte_of, ymr_block,
  packet_ms, no_sender, no_file, broken, file, crc,
}
use lite_forth.Ymrecv.Receive.{
  Written, Receiver, End, store_bytes, take_packet, put_byte, on_packet, data_round, data_loop,
  on_wire, finish, receive_file, on_header, ymr_receive, Received, wrong_magic, new_receiver,
  cancelled, refused, complete,
}
use lite_forth.Ymrecv.Start.Ends.{
  Line-cases, get-length, purge-le, read_packet-le, header_loop-Ended, Ended-some, Ended,
}

put_byte-wire : (x : ℕ) (r : Receiver) → (put_byte x r).wire ≡ r.wire
unfolding put_byte
put_byte-wire x r = elim (Bool-cases (r.got / ymr_block == 0)) [
  | inl first ↦ rw first refl
  | inr later ↦ rw later refl
]

module _ (write_block : Written → ℕ → (ℕ → ℕ) → ℕ) where
  store_bytes-wire :
      (size : ℕ) (bs : List ℕ) (r : Receiver) → (store_bytes write_block size bs r).1.wire ≡ r.wire
  unfolding store_bytes
  store_bytes-wire size [] r = refl
  store_bytes-wire size (x ∷ bs) r =
      let r' = put_byte x r in
      let b = r.got / ymr_block in
      let written = record r' { written = (b, r'.work) ∷ r'.written } in
      elim (Bool-cases (ltb r.got size)) [
        | inr full ↦ rw (store_bytes, full) refl
        | inl more ↦ elim (Bool-cases ((r.got % ymr_block == ymr_block - 1) && not (b == 0))) [
          | inr inside ↦
              rw (store_bytes, more, inside)
                (store_bytes-wire size bs (record r' { got = r.got + 1 }) ∙ put_byte-wire x r)
          | inl last ↦ elim (Bool-cases (write_block r'.written b r'.work == 0)) [
            | inr failed ↦ rw (store_bytes, more, last, failed) (put_byte-wire x r)
            | inl fine ↦
                rw (store_bytes, more, last, fine)
                  (store_bytes-wire size bs (record written { got = r.got + 1 })
                    ∙ put_byte-wire x r)
          ]
        ]
      ]

  take_packet-line :
      (magic : Option (List ℕ)) (size blk : ℕ) (bs : List ℕ) (r : Receiver)
      → (take_packet write_block magic size blk bs r).1.wire.line ≡ r.wire.line
  unfolding take_packet
  take_packet-line magic size blk bs r =
      let kept = ap (λ (w : Wire). w.line) (store_bytes-wire size bs (record r { errors = 0 })) in
      elim (Bool-cases (blk == (r.expected + 255) % 256)) [
        | inl again ↦ rw again refl
        | inr next ↦ elim (Bool-cases (blk == r.expected)) [
          | inr out_of_order ↦ rw (next, out_of_order) refl
          | inl in_order ↦
              elim (Bool-cases
                ((store_bytes write_block size bs (record r { errors = 0 })).0 == 0)) [
                  | inr failed ↦ rw (next, in_order, failed) kept
                  | inl fine ↦
                      elim (Bool-cases (
                        (r.expected == 1)
                        && wrong_magic magic
                            (store_bytes write_block size bs (record r { errors = 0 })).1.block0)) [
                              | inl wrong ↦ rw (next, in_order, fine, wrong) kept
                              | inr right ↦ rw (next, in_order, fine, right) kept
                            ]
                ]
        ]
      ]

  on_packet-line :
      (magic : Option (List ℕ)) (size c : ℕ) (r : Receiver)
      → length (on_packet write_block magic size c r).1.wire.line ≤ length r.wire.line
  unfolding on_packet
  on_packet-line magic size c r =
      let after = (read_packet c r.wire.line).1 in
      let fewer = read_packet-le c r.wire.line in
      elim (Option-cases (read_packet c r.wire.line).0) [
        | inl damaged ↦ elim (Bool-cases (leb retries (r.errors + 1))) [
          | inl enough ↦ rw (on_packet, damaged, enough) (omega (arith, fewer, purge-le after))
          | inr again ↦ rw (on_packet, damaged, again) (omega (arith, fewer, purge-le after))
        ]
        | inr ((blk, bs), whole) ↦
            rw (on_packet, whole)
              (omega (
                arith,
                fewer,
                ap (length {A = Option ℕ}) (
                    take_packet-line magic size blk bs
                      (on_wire (record r.wire { line = after }) r)),
              ))
      ]

  data_round-line :
      (magic : Option (List ℕ)) (size : ℕ) (r : Receiver)
      → length (data_round write_block magic size r).1.wire.line ≤ length r.wire.line - 1
  unfolding data_round
  data_round-line magic size r =
      let c = (get r.wire.line).0 in
      let line = (get r.wire.line).1 in
      let second = get-length line in
      let first = get-length r.wire.line in
      elim (Bool-cases (is_byte c eot)) [
        | inl ends ↦ elim (Bool-cases (ltb r.got size)) [
          | inl early ↦ rw (ends, early) (omega (arith, first))
          | inr done ↦ elim (Bool-cases (is_byte (get line).0 eot)) [
            | inl twice ↦ rw (ends, done, twice) (omega (arith, first, second))
            | inr once ↦ rw (ends, done, once) (omega (arith, first, second))
          ]
        ]
        | inr more ↦ elim (Bool-cases (is_byte c can)) [
          | inl is_can ↦ elim (Bool-cases (is_byte (get line).0 can)) [
            | inl twice ↦ rw (more, is_can, twice) (omega (arith, first, second))
            | inr once ↦ rw (more, is_can, once) (omega (arith, first, second))
          ]
          | inr not_can ↦ elim (Bool-cases (is_byte c soh || is_byte c stx)) [
            | inl packet ↦
                rw (more, not_can, packet)
                  (omega (
                    arith,
                    first,
                    on_packet-line magic size (byte_of c)
                        (on_wire (record r.wire { line = line }) r),
                  ))
            | inr other ↦ elim (Bool-cases (byte_of c == nak)) [
              | inr stray ↦ rw (more, not_can, other, stray) (omega (arith, first))
              | inl lost ↦ elim (Bool-cases (leb retries (r.errors + 1))) [
                | inl enough ↦ rw (more, not_can, other, lost, enough) (omega (arith, first))
                | inr again ↦ rw (more, not_can, other, lost, again) (omega (arith, first))
              ]
            ]
          ]
        ]
      ]

  -- With nothing left on the line, a round is a retry or the end.
  idle_round : Option (List ℕ) → ℕ → Receiver → Option End × Receiver
  idle_round magic size r =
      if leb retries (r.errors + 1)
      then (
        some (refused 0),
        on_wire (record r.wire { line = [] }) (record r { errors = r.errors + 1 }),
      )
      else (
        none,
        on_wire (record { line = []; sent = nak ∷ r.wire.sent })
            (record r { errors = r.errors + 1 }),
      )

  data_round-idle :
      (magic : Option (List ℕ)) (size : ℕ) (r : Receiver)
      → r.wire.line ≡ []
      → data_round write_block magic size r ≡ idle_round magic size r
  unfolding data_round idle_round
  data_round-idle magic size r e = rw e refl

  data_loop-idle :
      (fuel : ℕ) (magic : Option (List ℕ)) (size : ℕ) (r : Receiver)
      → r.wire.line ≡ []
      → retries < r.errors + fuel
      → 0 < fuel
      → Ended (data_loop write_block fuel magic size r)
  unfolding data_loop idle_round
  data_loop-idle zero magic size r e h p = absurd (omega arith)
  data_loop-idle (suc fuel) magic size r e h p = elim (Bool-cases (leb retries (r.errors + 1))) [
    | inl enough ↦ rw (data_loop, data_round-idle magic size r e, enough) tt
    | inr again ↦
        (let same = data_round-idle magic size r e in
          let line : (idle_round magic size r).1.wire.line ≡ [] = rw again refl in
          let errors : (idle_round magic size r).1.errors ≡ r.errors + 1 = rw again refl in
          let count = ap (λ t. t.1.errors) same ∙ errors in
          rw (data_loop, same, again)
            (data_loop-idle fuel magic size (data_round write_block magic size r).1
              (ap (λ t. t.1.wire.line) same ∙ line) (omega (arith, h, count))
              (ground (arith, again, h))))
  ]

  data_loop-Ended :
      (fuel : ℕ) (magic : Option (List ℕ)) (size : ℕ) (r : Receiver)
      → length r.wire.line + suc retries ≤ fuel
      → Ended (data_loop write_block fuel magic size r)
  unfolding data_loop
  data_loop-Ended zero magic size r h = absurd (omega arith)
  data_loop-Ended (suc fuel) magic size r h = elim (Line-cases r.wire.line) [
    | inl empty ↦ data_loop-idle (suc fuel) magic size r empty (omega (arith, h)) (omega arith)
    | inr some_byte ↦ elim (Option-cases (data_round write_block magic size r).0) [
      | inr (end, ends) ↦ rw (data_loop, ends) tt
      | inl more ↦
          rw (data_loop, more)
            (data_loop-Ended fuel magic size (data_round write_block magic size r).1
              (omega (arith, h, some_byte, data_round-line magic size r)))
    ]
  ]

  finish-Ended : (size : ℕ) (end : End) (r : Receiver) → Ended (finish write_block size end r)
  unfolding finish
  finish-Ended size cancelled r = tt
  finish-Ended size (refused err) r = tt
  finish-Ended size complete r = elim (Bool-cases (write_block r.written 0 r.block0 == 0)) [
    | inr failed ↦ rw failed tt
    | inl fine ↦ rw fine (
        last (read_header packet_ms r.wire)
          (header_loop-Ended (suc (length r.wire.line)) packet_ms 0 r.wire (omega arith)))
  ]
    where
      last :
          (o : Option (Header × Wire))
          → Ended o
          → Ended (elim o as (λ t. Option Received) [
            | none ↦ none
            | some (file name length, w) ↦ some (record {
              result = 0;
              size = size;
              wire = cancel w;
              written = (0, r.block0) ∷ r.written;
            })
            | some (_, w) ↦
                some (record {
                  result = 0;
                  size = size;
                  wire = w;
                  written = (0, r.block0) ∷ r.written;
                })
          ])
      last none h = absurd h
      last (some (file name size', w)) h = tt
      last (some (no_sender, w)) h = tt
      last (some (no_file, w)) h = tt
      last (some (broken err, w)) h = tt

  receive_file-Ended :
      (magic : Option (List ℕ)) (size : ℕ) (r : Receiver)
      → Ended (receive_file write_block magic size r)
  unfolding receive_file
  receive_file-Ended magic size r =
      let fuel = length r.wire.line + suc retries in
      let ended = data_loop-Ended fuel magic size r (omega arith) in
      elim (Option-cases (data_loop write_block fuel magic size r)) [
        | inl out ↦ absurd (subst Ended out ended)
        | inr ((end, r'), e) ↦ rw (Ended, e) (finish-Ended size end r')
      ]

  on_header-Ended :
      (magic : Option (List ℕ)) (blocks : ℕ) (block0 work : ℕ → ℕ) (header : Header) (w : Wire)
      → Ended (on_header write_block magic blocks block0 work header w)
  unfolding on_header
  on_header-Ended magic blocks block0 work no_sender w = tt
  on_header-Ended magic blocks block0 work no_file w = tt
  on_header-Ended magic blocks block0 work (broken err) w = tt
  on_header-Ended magic blocks block0 work (file name none) w = tt
  on_header-Ended magic blocks block0 work (file name (some size)) w =
      elim (Bool-cases
        ((size == 0) || not (size % ymr_block == 0) || ltb blocks (size / ymr_block))) [
          | inl bad ↦ rw bad tt
          | inr good ↦
              rw good
                (receive_file-Ended magic (size % 2 ^ 32) (new_receiver (put crc w) block0 work))
        ]

  -- When nothing more comes after a finite number of bytes and timeouts, ymr_receive ends with a
  -- result, whatever those are and whatever the writes return.
  pub ymr_receive-ends :
      (magic : Option (List ℕ)) (blocks start_ms : ℕ) (block0 work : ℕ → ℕ) (w : Wire)
      → (r : Received) × (ymr_receive write_block magic blocks start_ms block0 work w ≡ some r)
  unfolding ymr_receive
  ymr_receive-ends magic blocks start_ms block0 work w =
      let header = header_loop-Ended (suc (length w.line)) start_ms 0 w (omega arith) in
      Ended-some (ymr_receive write_block magic blocks start_ms block0 work w)
        (elim (Option-cases (read_header start_ms w)) [
          | inl out ↦ absurd (subst Ended out header)
          | inr ((h, w'), e) ↦ rw (Ended, e) (on_header-Ended magic blocks block0 work h w')
        ])
