-- ===== src/Ymrecv/Receive/Safe.antt =====
-- Block 0, which holds the magic, is written last.
use lite_forth.Common.{
  ℕ, zero, suc, ◌+◌, ◌-◌, ◌/◌, ◌%◌, ◌^◌, ◌≤◌, ◌≡◌, ◌≢◌, ◌⊎◌, refl, subst, sym, arith, true, not,
  ◌&&◌, ◌||◌, List, [], ◌∷◌, Option, none, some, ltb, leb, ltb→lt, ◌==◌, ==_iff, length, inl, inr,
  Bool-cases, Option-cases, All,
}
use lite_forth.Ymrecv.{get, soh, read_packet}
use lite_forth.Ymrecv.Start.{
  Wire, put, cancel, is_byte, byte_of, can, eot, nak, stx, crc, retries, Header, no_sender, no_file,
  broken, file, read_header, ymr_block, packet_ms,
}
use lite_forth.Ymrecv.Receive.{
  Written, Receiver, End, cancelled, refused, complete, put_byte, store_bytes, take_packet,
  wrong_magic, on_packet, data_round, data_loop, on_wire, finish, receive_file, on_header,
  ymr_receive, Received, new_receiver,
}
use lite_forth.Ymrecv.Start.Errors.{Fails, header_loop-Fails}

module _ (write_block : Written → ℕ → (ℕ → ℕ) → ℕ) where
  -- The writes are of blocks 1 to n, one after the other, and none of them failed.
  abbrev pub InOrder : ℕ → Written → Type 0
  InOrder zero [] = Unit {0}
  InOrder zero ((b, bytes) ∷ before) = ⊥
  InOrder (suc n) [] = ⊥
  InOrder (suc n) ((b, bytes) ∷ before) =
      (b ≡ suc n) × (write_block before b bytes ≡ 0) × InOrder n before

  -- Block 0 was not written.
  abbrev pub NotFirst : Written → Type 0
  NotFirst written = All (λ (w : ℕ × (ℕ → ℕ)). w.0 ≢ 0) written

  -- What ymr_receive may end with: the whole file written, block 0 last; block 0 refused by the
  -- device, as the last write; or an error before block 0.
  abbrev pub IsSafe : Received → Type 0
  IsSafe r =
      ((r.result ≡ 0)
        × (before : Written) × (bytes : ℕ → ℕ) × (r.written ≡ (0, bytes) ∷ before)
        × (write_block before 0 bytes ≡ 0)
        × InOrder (r.size / ymr_block - 1) before)
      ⊎ ((r.result ≢ 0)
          × (NotFirst r.written
              ⊎ ((before : Written) × (bytes : ℕ → ℕ) × (r.written ≡ (0, bytes) ∷ before)
                  × (write_block before 0 bytes ≡ r.result)
                  × NotFirst before)))

  InOrder-NotFirst : (n : ℕ) (written : Written) → InOrder n written → NotFirst written
  InOrder-NotFirst zero [] h = tt
  InOrder-NotFirst zero ((b, bytes) ∷ before) h = absurd h
  InOrder-NotFirst (suc n) [] h = absurd h
  InOrder-NotFirst (suc n) ((b, bytes) ∷ before) h =
      (λ e. absurd (omega (arith, e, h.0)), InOrder-NotFirst n before h.2)

  abbrev Inv : ℕ → Receiver → Type 0
  Inv size r = (r.got ≤ size) × InOrder (r.got / ymr_block - 1) r.written

  abbrev Stored : ℕ → ℕ × Receiver → Type 0
  Stored size (e, r) = ((e ≡ 0) × Inv size r) ⊎ ((e ≢ 0) × NotFirst r.written)

  put_byte-written : (x : ℕ) (r : Receiver) → (put_byte x r).written ≡ r.written
  unfolding put_byte
  put_byte-written x r = elim (Bool-cases (r.got / ymr_block == 0)) [
    | inl first ↦ rw first refl
    | inr later ↦ rw later refl
  ]

  store_bytes-Stored :
      (size : ℕ) (bs : List ℕ) (r : Receiver)
      → Inv size r
      → Stored size (store_bytes write_block size bs r)
  unfolding store_bytes
  store_bytes-Stored size [] r h = inl (refl, h)
  store_bytes-Stored size (x ∷ bs) r h =
      let r' = put_byte x r in
      let b = r.got / ymr_block in
      let same = put_byte-written x r in
      let written = record r' { written = (b, r'.work) ∷ r'.written } in
      elim (Bool-cases (ltb r.got size)) [
        | inr full ↦ rw (store_bytes, full) (inl (refl, h))
        | inl more ↦ elim (Bool-cases ((r.got % ymr_block == ymr_block - 1) && not (b == 0))) [
          | inr inside ↦
              (let still : (r.got + 1) / ymr_block - 1 ≡ b - 1 = ground (arith, inside) in
                rw (store_bytes, more, inside)
                  (store_bytes-Stored size bs (record r' { got = r.got + 1 })
                    (
                      omega (arith, ltb→lt _ _ more),
                      subst (λ (n : ℕ). InOrder n r'.written) (sym still)
                          (subst (InOrder (b - 1)) (sym same) h.1),
                    )))
          | inl last ↦ elim (Bool-cases (write_block r'.written b r'.work == 0)) [
            | inr failed ↦
                rw (store_bytes, more, last, failed)
                  (inr (
                    ground (arith, failed),
                    (
                      ground (arith, last),
                      subst NotFirst (sym same) (InOrder-NotFirst (b - 1) r.written h.1),
                    ),
                  ))
            | inl fine ↦
                (let next : (r.got + 1) / ymr_block - 1 ≡ suc (b - 1) = ground (arith, last) in
                  rw (store_bytes, more, last, fine)
                    (store_bytes-Stored size bs (record written { got = r.got + 1 })
                      (
                        omega (arith, ltb→lt _ _ more),
                        subst (λ (n : ℕ). InOrder n written.written) (sym next)
                            (
                              ground (arith, last),
                              (==_iff _ _).0 fine,
                              subst (InOrder (b - 1)) (sym same) h.1,
                            ),
                      )))
          ]
        ]
      ]

  -- What a round leaves: the invariant, the whole file but block 0, or no block 0.
  abbrev Round : ℕ → Option End × Receiver → Type 0
  Round size (none, r) = Inv size r
  Round size (some complete, r) = InOrder (size / ymr_block - 1) r.written
  Round size (some cancelled, r) = NotFirst r.written
  Round size (some (refused err), r) = NotFirst r.written

  Inv-NotFirst : (size : ℕ) (r : Receiver) → Inv size r → NotFirst r.written
  Inv-NotFirst size r h = InOrder-NotFirst (r.got / ymr_block - 1) r.written h.1

  Stored-NotFirst : (size e : ℕ) (r : Receiver) → Stored size (e, r) → NotFirst r.written
  Stored-NotFirst size e r (inl (fine, h)) = Inv-NotFirst size r h
  Stored-NotFirst size e r (inr (failed, h)) = h

  Stored-Inv : (size e : ℕ) (r : Receiver) → (e == 0) ≡ true → Stored size (e, r) → Inv size r
  Stored-Inv size e r zero_error (inl (fine, h)) = h
  Stored-Inv size e r zero_error (inr (failed, h)) = absurd (failed ((==_iff _ _).0 zero_error))

  take_packet-Round :
      (magic : Option (List ℕ)) (size blk : ℕ) (bs : List ℕ) (r : Receiver)
      → Inv size r
      → Round size (take_packet write_block magic size blk bs r)
  unfolding take_packet
  take_packet-Round magic size blk bs r h =
      let after = store_bytes write_block size bs (record r { errors = 0 }) in
      let stored = store_bytes-Stored size bs (record r { errors = 0 }) h in
      let not_first = Stored-NotFirst size after.0 after.1 stored in
      elim (Bool-cases (blk == (r.expected + 255) % 256)) [
        | inl again ↦ rw again h
        | inr next ↦ elim (Bool-cases (blk == r.expected)) [
          | inr out_of_order ↦ rw (next, out_of_order) (Inv-NotFirst size r h)
          | inl in_order ↦ elim (Bool-cases (after.0 == 0)) [
            | inr failed ↦ rw (next, in_order, failed) not_first
            | inl fine ↦ elim (Bool-cases ((r.expected == 1) && wrong_magic magic after.1.block0)) [
              | inl wrong ↦ rw (next, in_order, fine, wrong) not_first
              | inr right ↦
                  rw (next, in_order, fine, right) (Stored-Inv size after.0 after.1 fine stored)
            ]
          ]
        ]
      ]

  on_packet-Round :
      (magic : Option (List ℕ)) (size c : ℕ) (r : Receiver)
      → Inv size r
      → Round size (on_packet write_block magic size c r)
  unfolding on_packet
  on_packet-Round magic size c r h =
      let after = (read_packet c r.wire.line).1 in
      elim (Option-cases (read_packet c r.wire.line).0) [
        | inl damaged ↦ elim (Bool-cases (leb retries (r.errors + 1))) [
          | inl enough ↦ rw (on_packet, damaged, enough) (Inv-NotFirst size r h)
          | inr again ↦ rw (on_packet, damaged, again) h
        ]
        | inr ((blk, bs), whole) ↦
            rw (on_packet, whole)
              (take_packet-Round magic size blk bs (on_wire (record r.wire { line = after }) r) h)
      ]

  data_round-Round :
      (magic : Option (List ℕ)) (size : ℕ) (r : Receiver)
      → Inv size r
      → Round size (data_round write_block magic size r)
  unfolding data_round
  data_round-Round magic size r h =
      let c = (get r.wire.line).0 in
      let line = (get r.wire.line).1 in
      let not_first = Inv-NotFirst size r h in
      elim (Bool-cases (is_byte c eot)) [
        | inl ends ↦ elim (Bool-cases (ltb r.got size)) [
          | inl early ↦ rw (ends, early) not_first
          | inr done ↦
              (let all : r.got ≡ size = ground (arith, done, h) in
                rw (ends, done) (subst (λ (n : ℕ). InOrder (n / ymr_block - 1) r.written) all h.1))
        ]
        | inr more ↦ elim (Bool-cases (is_byte c can)) [
          | inl is_can ↦ elim (Bool-cases (is_byte (get line).0 can)) [
            | inl twice ↦ rw (more, is_can, twice) not_first
            | inr once ↦ rw (more, is_can, once) h
          ]
          | inr not_can ↦ elim (Bool-cases (is_byte c soh || is_byte c stx)) [
            | inl packet ↦
                rw (more, not_can, packet)
                  (on_packet-Round magic size (byte_of c)
                    (on_wire (record r.wire { line = line }) r) h)
            | inr other ↦ elim (Bool-cases (byte_of c == nak)) [
              | inr stray ↦ rw (more, not_can, other, stray) h
              | inl lost ↦ elim (Bool-cases (leb retries (r.errors + 1))) [
                | inl enough ↦ rw (more, not_can, other, lost, enough) not_first
                | inr again ↦ rw (more, not_can, other, lost, again) h
              ]
            ]
          ]
        ]
      ]

  new_receiver-Inv :
      (size : ℕ) (w : Wire) (block0 work : ℕ → ℕ) → Inv size (new_receiver w block0 work)
  new_receiver-Inv size w block0 work = (omega arith, tt)

  -- Where the loop may end.
  abbrev Looped : ℕ → Option (End × Receiver) → Type 0
  Looped size none = Unit {0}
  Looped size (some (end, r)) = Round size (some end, r)

  data_loop-Looped :
      (fuel : ℕ) (magic : Option (List ℕ)) (size : ℕ) (r : Receiver)
      → Inv size r
      → Looped size (data_loop write_block fuel magic size r)
  unfolding data_loop
  data_loop-Looped zero magic size r h = tt
  data_loop-Looped (suc fuel) magic size r h =
      let round = data_round-Round magic size r h in
      let r' = (data_round write_block magic size r).1 in
      elim (Option-cases (data_round write_block magic size r).0) [
        | inl more ↦
            rw (data_loop, more)
              (data_loop-Looped fuel magic size r'
                (subst (λ (o : Option End). Round size (o, r')) more round))
        | inr (end, ends) ↦
            rw (data_loop, ends) (subst (λ (o : Option End). Round size (o, r')) ends round)
      ]

  -- What may be returned.
  abbrev Safe : Option Received → Type 0
  Safe none = Unit {0}
  Safe (some r) = IsSafe r

  finish-Safe :
      (size : ℕ) (end : End) (r : Receiver)
      → Round size (some end, r)
      → Safe (finish write_block size end r)
  unfolding finish
  finish-Safe size cancelled r h = inr (omega arith, inl h)
  finish-Safe size (refused err) r h = elim (Bool-cases (err == 0)) [
    | inl source ↦ rw source (inr (omega arith, inl h))
    | inr failed ↦ rw failed (inr (ground (arith, failed), inl h))
  ]
  finish-Safe size complete r h = elim (Bool-cases (write_block r.written 0 r.block0 == 0)) [
    | inr failed ↦ rw failed (
        inr (
          ground (arith, failed),
          inr (
            r.written,
            r.block0,
            refl,
            refl,
            InOrder-NotFirst (size / ymr_block - 1) r.written h,
          ),
        ))
    | inl fine ↦ rw fine (last ((==_iff _ _).0 fine) (read_header packet_ms r.wire))
  ]
    where
      last :
          write_block r.written 0 r.block0 ≡ 0
          → (o : Option (Header × Wire))
          → Safe (elim o as (λ t. Option Received) [
            | none ↦ none
            | some (file name length, w) ↦ some (record {
              result = 0;
              size = size;
              wire = cancel w;
              written = (0, r.block0) ∷ r.written;
            })
            | some (_, w) ↦
                some (record {
                  result = 0;
                  size = size;
                  wire = w;
                  written = (0, r.block0) ∷ r.written;
                })
          ])
      last e none = tt
      last e (some (file name size', w)) = inl (refl, r.written, r.block0, refl, e, h)
      last e (some (no_sender, w)) = inl (refl, r.written, r.block0, refl, e, h)
      last e (some (no_file, w)) = inl (refl, r.written, r.block0, refl, e, h)
      last e (some (broken err, w)) = inl (refl, r.written, r.block0, refl, e, h)

  receive_file-Safe :
      (magic : Option (List ℕ)) (size : ℕ) (r : Receiver)
      → Inv size r
      → Safe (receive_file write_block magic size r)
  unfolding receive_file
  receive_file-Safe magic size r h =
      let fuel = length r.wire.line + suc retries in
      let looped = data_loop-Looped fuel magic size r h in
      elim (Option-cases (data_loop write_block fuel magic size r)) [
        | inl out ↦ rw (Safe, out) tt
        | inr ((end, r'), e) ↦ rw (Safe, e) (finish-Safe size end r' (subst (Looped size) e looped))
      ]

module _ (write_block : Written → ℕ → (ℕ → ℕ) → ℕ) where
  on_header-Safe :
      (magic : Option (List ℕ)) (blocks : ℕ) (block0 work : ℕ → ℕ) (header : Header) (w : Wire)
      → Fails (some (header, w))
      → Safe write_block (on_header write_block magic blocks block0 work header w)
  unfolding on_header
  on_header-Safe magic blocks block0 work no_sender w h = inr (omega arith, inl tt)
  on_header-Safe magic blocks block0 work no_file w h = inr (omega arith, inl tt)
  on_header-Safe magic blocks block0 work (broken err) w h = inr (h, inl tt)
  on_header-Safe magic blocks block0 work (file name none) w h = inr (omega arith, inl tt)
  on_header-Safe magic blocks block0 work (file name (some size)) w h =
      elim (Bool-cases
        ((size == 0) || not (size % ymr_block == 0) || ltb blocks (size / ymr_block))) [
          | inl bad ↦ rw bad (inr (omega arith, inl tt))
          | inr good ↦ rw good (
              receive_file-Safe write_block magic (size % 2 ^ 32)
                (new_receiver (put crc w) block0 work)
                (new_receiver-Inv write_block (size % 2 ^ 32) (put crc w) block0 work))
        ]

  -- Whatever comes over the line, and whatever the writes return: if ymr_receive returns 0, then
  -- blocks 1, 2, ... of the size it reports were written in this order, then block 0, and no write
  -- failed; if it returns an error, then block 0 was not written, or its write was the last and
  -- failed with this error.
  pub ymr_receive-IsSafe :
      (magic : Option (List ℕ)) (blocks start_ms : ℕ) (block0 work : ℕ → ℕ) (w : Wire)
      (r : Received)
      → ymr_receive write_block magic blocks start_ms block0 work w ≡ some r
      → IsSafe write_block r
  unfolding ymr_receive
  ymr_receive-IsSafe magic blocks start_ms block0 work w r e =
      let header = header_loop-Fails (suc (length w.line)) start_ms 0 w in
      subst (Safe write_block) e (elim (Option-cases (read_header start_ms w)) [
        | inl out ↦ rw (Safe, out) tt
        | inr ((h, w'), got) ↦
            rw (Safe, got) (on_header-Safe magic blocks block0 work h w' (subst Fails got header))
      ])
