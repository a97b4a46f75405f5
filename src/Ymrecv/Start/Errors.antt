-- ===== src/Ymrecv/Start/Errors.antt =====
-- The errors of read_header.
use lite_forth.Common.{
  ℕ, zero, suc, ◌+◌, get_or, ◌≢◌, arith, Option, some, leb, ◌==◌, inl, inr, Bool-cases,
  Option-cases,
}
use lite_forth.Ymrecv.{get, read_packet}
use lite_forth.Ymrecv.Start.{
  Wire, put, purge, is_byte, can, eot, ack, nak, retries, Header, broken, header_loop, await_start,
}

-- An error of read_header is ERR_YMODEM_TRANSFER.
abbrev pub Fails : Option (Header × Wire) → Type 0
Fails (some (broken err, w)) = err ≢ 0
Fails _ = Unit {0}

pub header_loop-Fails : (fuel ms errors : ℕ) (w : Wire) → Fails (header_loop fuel ms errors w)
unfolding header_loop
header_loop-Fails zero ms errors w = tt
header_loop-Fails (suc fuel) ms errors w = elim (Option-cases (await_start ms w).0) [
  | inl nothing_came ↦ rw (header_loop, nothing_came) tt
  | inr (b, came) ↦
      (let w' = (await_start ms w).1 in
        elim (Bool-cases (b == can)) [
          | inl is_can ↦ elim (Bool-cases (is_byte (get w'.line).0 can)) [
            | inl twice ↦ rw (header_loop, came, is_can, twice) (omega arith)
            | inr once ↦
                rw (header_loop, came, is_can, once)
                  (header_loop-Fails fuel ms errors (record w' { line = (get w'.line).1 }))
          ]
          | inr not_can ↦ elim (Bool-cases (b == eot)) [
            | inl is_eot ↦
                rw (header_loop, came, not_can, is_eot)
                  (header_loop-Fails fuel ms errors (put ack w'))
            | inr not_eot ↦
                (let after = (read_packet b w'.line).1 in
                  elim (Option-cases (read_packet b w'.line).0) [
                    | inl damaged ↦ elim (Bool-cases (leb retries (errors + 1))) [
                      | inl enough ↦
                          rw (header_loop, came, not_can, not_eot, damaged, enough) (omega arith)
                      | inr again ↦
                          rw (header_loop, came, not_can, not_eot, damaged, again)
                            (header_loop-Fails fuel ms (errors + 1)
                              (put nak (record w' { line = purge after })))
                    ]
                    | inr ((blk, bs), whole) ↦ elim (Bool-cases (blk == 0)) [
                      | inr other ↦
                          rw (header_loop, came, not_can, not_eot, whole, other) (omega arith)
                      | inl first ↦ elim (Bool-cases (get_or bs 0 0 == 0)) [
                        | inl last ↦ rw (header_loop, came, not_can, not_eot, whole, first, last) tt
                        | inr named ↦
                            rw (header_loop, came, not_can, not_eot, whole, first, named) tt
                      ]
                    ]
                  ])
          ]
        ])
]
