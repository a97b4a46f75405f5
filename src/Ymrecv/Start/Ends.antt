-- ===== src/Ymrecv/Start/Ends.antt =====
-- Reading takes bytes off the line, and read_header ends.
use lite_forth.Common.{
  ℕ, zero, suc, ◌+◌, ◌-◌, ◌/◌, ◌≤◌, ◌<◌, ◌≡◌, ◌⊎◌, refl, arith, ◌||◌, List, [], ◌∷◌, Option, none,
  some, leb, ◌==◌, get_or, length, inl, inr, Bool-cases, Option-cases,
}
use lite_forth.Ymrecv.{
  Line, get, soh, get_bytes, check_packet, packet_size, packet_body, read_packet,
}
use lite_forth.Ymrecv.Start.{
  Wire, put, purge, start_byte, await_rounds, await_start, is_byte, can, eot, ack, nak, stx,
  retries, header_loop, crc,
}

-- What is left of the line never grows.
pub Line-cases : (line : Line) → (line ≡ []) ⊎ (0 < length line)
Line-cases [] = inl refl
Line-cases (b ∷ line) = inr (omega arith)

pub get-length : (line : Line) → length (get line).1 ≡ length line - 1
get-length [] = omega arith
get-length (b ∷ line) = omega arith

pub purge-le : (line : Line) → length (purge line) ≤ length line
unfolding purge
purge-le [] = omega arith
purge-le (none ∷ line) = omega arith
purge-le (some b ∷ line) = omega (arith, purge-le line)

get_bytes-le : (n : ℕ) (line : Line) → length (get_bytes n line).1 ≤ length line
unfolding get_bytes
get_bytes-le zero line = omega arith
get_bytes-le (suc n) [] = omega arith
get_bytes-le (suc n) (none ∷ line) = omega arith
get_bytes-le (suc n) (some b ∷ line) = omega (arith, get_bytes-le n line)

check_packet-le : (bs : List ℕ) (line : Line) → length (check_packet bs line).1 ≤ length line
unfolding check_packet
check_packet-le bs [] = omega arith
check_packet-le bs (none ∷ line) = omega arith
check_packet-le bs (some hi ∷ []) = omega arith
check_packet-le bs (some hi ∷ none ∷ line) = omega arith
check_packet-le bs (some hi ∷ some lo ∷ line) = omega arith

packet_body-le : (size : ℕ) (line : Line) → length (packet_body size line).1 ≤ length line
unfolding packet_body
packet_body-le size line = elim (Option-cases (get_bytes size line).0) [
  | inl short ↦ rw (packet_body, short) (get_bytes-le size line)
  | inr (bs, read) ↦
      rw (packet_body, read)
        (omega (arith, get_bytes-le size line, check_packet-le bs (get_bytes size line).1))
]

pub read_packet-le : (c : ℕ) (line : Line) → length (read_packet c line).1 ≤ length line
unfolding read_packet
read_packet-le c [] = omega arith
read_packet-le c (none ∷ line) = omega arith
read_packet-le c (some blk ∷ []) = omega arith
read_packet-le c (some blk ∷ none ∷ line) = omega arith
read_packet-le c (some blk ∷ some nblk ∷ line) = elim (Bool-cases (blk + nblk == 255)) [
  | inr bad ↦ rw (read_packet, bad) (omega arith)
  | inl good ↦ rw (read_packet, good) (omega (arith, packet_body-le (packet_size c) line))
]

start_byte-lt :
    (line : Line) (c : ℕ) → (start_byte line).0 ≡ some c → length (start_byte line).1 < length line
unfolding start_byte
start_byte-lt [] c h = absurd (cc)
start_byte-lt (none ∷ line) c h = absurd (cc)
start_byte-lt (some b ∷ line) c h =
    elim (Bool-cases ((b == soh) || (b == stx) || (b == eot) || (b == can))) [
      | inl start ↦ rw start (omega arith)
      | inr other ↦
          rw other (let rest = start_byte-lt line c (rw other at h) in omega (arith, rest))
    ]

start_byte-le : (line : Line) → length (start_byte line).1 ≤ length line
unfolding start_byte
start_byte-le [] = omega arith
start_byte-le (none ∷ line) = omega arith
start_byte-le (some b ∷ line) =
    elim (Bool-cases ((b == soh) || (b == stx) || (b == eot) || (b == can))) [
      | inl start ↦ rw start (omega arith)
      | inr other ↦ rw other (omega (arith, start_byte-le line))
    ]

await_rounds-lt :
    (left : ℕ) (w : Wire) (c : ℕ)
    → (await_rounds left w).0 ≡ some c
    → length (await_rounds left w).1.line < length w.line
unfolding await_rounds
await_rounds-lt zero w c h = absurd (cc)
await_rounds-lt (suc left) w c h = elim (Option-cases (start_byte w.line).0) [
  | inl nothing_came ↦
      rw (await_rounds, nothing_came)
        (let rest =
            await_rounds-lt left (record { line = (start_byte w.line).1; sent = crc ∷ w.sent }) c
              (rw (await_rounds, nothing_came) at h) in
          omega (arith, rest, start_byte-le w.line))
  | inr (b, came) ↦ rw (await_rounds, came) (start_byte-lt w.line b came)
]

abbrev pub Ended {ℓ} : {A : Type ℓ} → Option A → Type 0
Ended none = ⊥
Ended (some a) = Unit {0}

pub Ended-some {ℓ} : {A : Type ℓ} (o : Option A) → Ended o → (a : A) × (o ≡ some a)
Ended-some none h = absurd h
Ended-some (some a) h = (a, refl)

pub header_loop-Ended :
    (fuel ms errors : ℕ) (w : Wire) → length w.line < fuel → Ended (header_loop fuel ms errors w)
unfolding header_loop
header_loop-Ended zero ms errors w h = absurd (omega arith)
header_loop-Ended (suc fuel) ms errors w h = elim (Option-cases (await_start ms w).0) [
  | inl nothing_came ↦ rw (header_loop, nothing_came) tt
  | inr (b, came) ↦
      (let w' = (await_start ms w).1 in
        let shorter = await_rounds-lt ((ms + 2999) / 3000) w b came in
        elim (Bool-cases (b == can)) [
          | inl is_can ↦ elim (Bool-cases (is_byte (get w'.line).0 can)) [
            | inl twice ↦ rw (header_loop, came, is_can, twice) tt
            | inr once ↦
                rw (header_loop, came, is_can, once)
                  (header_loop-Ended fuel ms errors (record w' { line = (get w'.line).1 })
                    (omega (arith, h, shorter, get-length w'.line)))
          ]
          | inr not_can ↦ elim (Bool-cases (b == eot)) [
            | inl is_eot ↦
                rw (header_loop, came, not_can, is_eot)
                  (header_loop-Ended fuel ms errors (put ack w') (omega (arith, h, shorter)))
            | inr not_eot ↦
                (let after = (read_packet b w'.line).1 in
                  elim (Option-cases (read_packet b w'.line).0) [
                    | inl damaged ↦ elim (Bool-cases (leb retries (errors + 1))) [
                      | inl enough ↦ rw (header_loop, came, not_can, not_eot, damaged, enough) tt
                      | inr again ↦
                          rw (header_loop, came, not_can, not_eot, damaged, again)
                            (header_loop-Ended fuel ms (errors + 1)
                              (put nak (record w' { line = purge after }))
                              (omega (arith, h, shorter, purge-le after, read_packet-le b w'.line)))
                    ]
                    | inr ((blk, bs), whole) ↦ elim (Bool-cases (blk == 0)) [
                      | inr other ↦ rw (header_loop, came, not_can, not_eot, whole, other) tt
                      | inl first ↦ elim (Bool-cases (get_or bs 0 0 == 0)) [
                        | inl last ↦ rw (header_loop, came, not_can, not_eot, whole, first, last) tt
                        | inr named ↦
                            rw (header_loop, came, not_can, not_eot, whole, first, named) tt
                      ]
                    ]
                  ])
          ]
        ])
]
