-- ===== src/Blake2s/Refine.antt =====
-- src/blake2s.c computes the hash of RFC 7693 (Blake2s/Rfc) from the pieces that it is given.
use lite_forth.Common.{
  ℕ, zero, suc, ◌+◌, ◌-◌, ◌/◌, ◌%◌, ◌^◌, ◌≤◌, ◌<◌, ◌≡◌, refl, sym, ap, ◌∙◌, arith, List, [], ◌∷◌,
  ◌++◌, Option, none, some, true, false, map, bit_xor, get_or, inl, inr, Bool-cases, ltb, leb, ◌&&◌,
  if◌then◌else◌, take, drop, replicate, length, u32,
}
use lite_forth.Blake2s.{
  HashState, block_bytes, compressed, absorb, b2s_hmac_putc, b2s_hmac_puts, b2s_hmac_final,
  store_words, blake2s_init_param, params, b2s_init,
}
use lite_forth.Blake2s.Rfc.{
  rfc_iv, rfc_words, little_words, little_bytes, blocks_before_last, key_block, initial, blake2s,
}
use lite_forth.Blake2s.Rounds.{
  IsEight, eight_words, compressed-rfc_f, compressed-IsEight, load_words-little_words,
  store_words-little_bytes,
}
use lite_forth.Blake2s.Stream.{
  putcs, putcs-++, putcs-room, putcs-full, b2s_hmac_puts-putcs, length-++, length-take, length-drop,
  take-++-drop,
}

-- The low and the high word of a 64-bit count.
abbrev low : ℕ → ℕ
low n = n % 2 ^ 32

abbrev high : ℕ → ℕ
high n = n / 2 ^ 32 % 2 ^ 32

-- The words that the code has after the last block of a message, `count` bytes of which came before: each block but
-- the last with the number of bytes up to its end, the last padded and with the final flag.
unfoldable message_words : ℕ → ℕ → List ℕ → List ℕ → List ℕ
message_words zero count h message =
    compressed h (low (count + length message)) (high (count + length message)) (2 ^ 32 - 1) 0
      (message ++ replicate (block_bytes - length message) 0)
message_words (suc blocks) count h message =
    message_words blocks (count + block_bytes)
      (compressed h (low (count + block_bytes)) (high (count + block_bytes)) 0 0
        (take block_bytes message))
      (drop block_bytes message)

abbrev pub digest : Option (List ℕ × HashState) → Option (List ℕ)
digest none = none
digest (some (out, s)) = some out

abbrev pub puts_all : HashState → List (List ℕ) → HashState
puts_all s [] = s
puts_all s (c ∷ cs) = puts_all (b2s_hmac_puts s c) cs

abbrev pub join_all : List (List ℕ) → List ℕ
join_all [] = []
join_all (c ∷ cs) = c ++ join_all cs

putc-bound :
    (s : HashState) (c : ℕ)
    → length s.buf ≤ block_bytes
    → length (b2s_hmac_putc s c).buf ≤ block_bytes
unfolding b2s_hmac_putc
putc-bound s c h = ground (arith, length-++ s.buf (c ∷ []))

putcs-bound :
    (s : HashState) (xs : List ℕ)
    → length s.buf ≤ block_bytes
    → length (putcs s xs).buf ≤ block_bytes
unfolding putcs
putcs-bound s [] h = h
putcs-bound s (x ∷ xs) h = putcs-bound (b2s_hmac_putc s x) xs (putc-bound s x h)

puts_all-putcs :
    (s : HashState) (chunks : List (List ℕ))
    → length s.buf ≤ block_bytes
    → puts_all s chunks ≡ putcs s (join_all chunks)
puts_all-putcs s [] h = unfold putcs in refl
puts_all-putcs s (c ∷ cs) h =
    ap (λ t. puts_all t cs) (b2s_hmac_puts-putcs s c h)
    ∙ puts_all-putcs (putcs s c) cs (putcs-bound s c h)
    ∙ sym (putcs-++ s c (join_all cs))

-- A hash on which no byte waits, `count` bytes in.
record IsAt (count : ℕ) (s : HashState) : Type 0 where
  waiting : s.buf ≡ []
  t_low : s.t0 ≡ low count
  t_high : s.t1 ≡ high count
  f_low : s.f0 ≡ 0
  f_high : s.f1 ≡ 0
  only : s.last_node ≡ 0

-- The carry of blake2s_increment_counter.
counter_carry :
    (count inc : ℕ)
    → inc ≤ 64
    → u32 (high count + (if ltb (u32 (low count + inc)) inc then 1 else 0)) ≡ high (count + inc)
counter_carry count inc h = elim (Bool-cases (ltb (u32 (low count + inc)) inc)) [
  | inl over ↦
      rw over
        (let wrapped : u32 (low count + inc) < inc = ground (arith, over) in omega (arith, wrapped))
  | inr fits ↦
      rw fits (let kept : inc ≤ u32 (low count + inc) = ground (arith, fits) in omega (arith, kept))
]

counter_low : (count inc : ℕ) → u32 (low count + inc) ≡ low (count + inc)
counter_low count inc = omega arith

absorb-IsAt :
    (count : ℕ) (s : HashState) (block : List ℕ)
    → IsAt count s
    → (absorb s block).h
      ≡ compressed s.h (low (count + block_bytes)) (high (count + block_bytes)) 0 0 block
unfolding absorb
absorb-IsAt count s block at = rw (
  at.t_low,
  at.t_high,
  counter_carry count block_bytes (omega arith),
  counter_low count block_bytes,
  at.f_low,
  at.f_high,
)

next-IsAt :
    (count : ℕ) (s : HashState) (block : List ℕ)
    → IsAt count s
    → IsAt (count + block_bytes) (record (absorb s block) { buf = [] })
unfolding absorb
next-IsAt count s block at = record {
  waiting = refl;
  t_low = rw at.t_low (counter_low count block_bytes);
  t_high = rw (at.t_low, at.t_high) (counter_carry count block_bytes (omega arith));
  f_low = at.f_low;
  f_high = at.f_high;
  only = at.only;
}

final-IsAt :
    (count : ℕ) (s : HashState) (message : List ℕ)
    → IsAt count s
    → length message ≤ block_bytes
    → digest (b2s_hmac_final (record s { buf = message }))
      ≡ some (take s.outlen (store_words (message_words 0 count s.h message)))
unfolding b2s_hmac_final message_words
final-IsAt count s message at h = rw (
  at.t_low,
  at.t_high,
  counter_carry count (length message) h,
  counter_low count (length message),
  at.f_low,
  at.f_high,
  at.only,
)

-- A block with more bytes behind it.
putcs-block :
    (count : ℕ) (s : HashState) (message : List ℕ)
    → IsAt count s
    → block_bytes < length message
    → putcs s message
      ≡ putcs (record (absorb s (take block_bytes message)) { buf = [] }) (drop block_bytes message)
unfolding absorb
putcs-block count s message at h =
    let first = take block_bytes message in
    let rest = drop block_bytes message in
    let size = length-take block_bytes message (omega (arith, h)) in
    let more = length-drop block_bytes message in
    ap (putcs s) (sym (take-++-drop block_bytes message))
    ∙ putcs-++ s first rest
    ∙ ap (λ t. putcs t rest)
        (putcs-room s first (omega (arith, size, ap (length {A = ℕ}) at.waiting)))
    ∙ ap (λ t. putcs (record s { buf = t ++ first }) rest) at.waiting
    ∙ putcs-full (record s { buf = first }) rest size (omega (arith, h, more))

message_digest :
    (blocks count : ℕ) (s : HashState) (message : List ℕ)
    → IsAt count s
    → blocks_before_last message ≡ blocks
    → digest (b2s_hmac_final (putcs s message))
      ≡ some (take s.outlen (store_words (message_words blocks count s.h message)))
unfolding message_words absorb
message_digest zero count s message at e =
    ap (λ t. digest (b2s_hmac_final t))
      (putcs-room s message (omega (arith, e, ap (length {A = ℕ}) at.waiting)))
    ∙ ap (λ t. digest (b2s_hmac_final (record s { buf = t ++ message }))) at.waiting
    ∙ final-IsAt count s message at (omega (arith, e))
message_digest (suc blocks) count s message at e =
    let first = take block_bytes message in
    let rest = drop block_bytes message in
    ap (λ t. digest (b2s_hmac_final t)) (putcs-block count s message at (omega (arith, e)))
    ∙ message_digest blocks (count + block_bytes) (record (absorb s first) { buf = [] }) rest
        (next-IsAt count s first at) (omega (arith, e, length-drop block_bytes message))
    ∙ ap
        (λ t.
          some (take s.outlen (store_words (message_words blocks (count + block_bytes) t rest))))
        (absorb-IsAt count s first at)

message_words-rfc_words :
    (blocks count : ℕ) (h message : List ℕ)
    → IsEight h
    → message_words blocks count h message ≡ rfc_words blocks count h message
unfolding message_words rfc_words
message_words-rfc_words zero count h message eight =
    compressed-rfc_f h (message ++ replicate (block_bytes - length message) 0)
      (count + length message) true eight
message_words-rfc_words (suc blocks) count h message eight =
    let next =
      compressed h (low (count + block_bytes)) (high (count + block_bytes)) 0 0
        (take block_bytes message) in
    message_words-rfc_words blocks (count + block_bytes) next (drop block_bytes message) (
      compressed-IsEight h (take block_bytes message) (low (count + block_bytes))
        (high (count + block_bytes)) 0 0)
    ∙ ap (λ t. rfc_words blocks (count + block_bytes) t (drop block_bytes message))
        (compressed-rfc_f h (take block_bytes message) (count + block_bytes) false eight)

start_digest :
    (hsize : ℕ) (p : List ℕ) (chunks : List (List ℕ))
    → digest (b2s_hmac_final (puts_all (blake2s_init_param hsize p) chunks))
      ≡ some (
          take hsize (
            little_bytes
              (rfc_words (blocks_before_last (join_all chunks)) 0 (initial p) (join_all chunks))))
unfolding blake2s_init_param little_words
start_digest hsize p chunks =
    let start = blake2s_init_param hsize p in
    let whole = join_all chunks in
    let blocks = blocks_before_last whole in
    ap (λ t. digest (b2s_hmac_final t)) (puts_all-putcs start chunks (omega arith))
    ∙ message_digest blocks 0 start whole
        (record {
          waiting = refl;
          t_low = refl;
          t_high = refl;
          f_low = refl;
          f_high = refl;
          only = refl;
        })
        refl
    ∙ ap (λ t. some (take hsize t))
        (store_words-little_bytes (message_words blocks 0 start.h whole)
          ∙ ap little_bytes (
              message_words-rfc_words blocks 0 start.h whole (eight_words _ _ _ _ _ _ _ _)
              ∙ ap (λ t. rfc_words blocks 0 t whole) (start_words p)))
  where
    start_words : (p : List ℕ) → (blake2s_init_param hsize p).h ≡ initial p
    start_words p =
        ap
          (λ t.
            map (λ i. bit_xor (get_or rfc_iv i 0) (get_or t i 0))
              (0 ∷ 1 ∷ 2 ∷ 3 ∷ 4 ∷ 5 ∷ 6 ∷ 7 ∷ []))
          (load_words-little_words p)

-- With a digest of 1 to 32 bytes and a key of at most 32, b2s_init succeeds, and the digest of any
-- message that is given in pieces is that of RFC 7693, written out in Blake2s/Rfc, of their join.
-- A salt and a personalization have 8 bytes, or are left out.
pub b2s_hmac_final-blake2s :
    (hsize : ℕ) (key : List ℕ) (salt personal : Option (List ℕ)) (chunks : List (List ℕ))
    → 1 ≤ hsize
    → hsize ≤ 32
    → length key ≤ 32
    → (s : HashState) × (b2s_init hsize key salt personal ≡ some s)
      × (digest (b2s_hmac_final (puts_all s chunks))
          ≡ some (blake2s hsize key salt personal (join_all chunks)))
unfolding b2s_init blake2s params
b2s_hmac_final-blake2s hsize [] salt personal chunks p q r =
    let start = params hsize 0 salt personal in
    let sized : (leb 1 hsize && leb hsize 32) ≡ true = ground arith in
    (blake2s_init_param hsize start, rw sized refl, start_digest hsize start chunks)
b2s_hmac_final-blake2s hsize (k ∷ ks) salt personal chunks p q r =
    let start = params hsize (length (k ∷ ks)) salt personal in
    let sized : (leb 1 hsize && leb hsize 32 && leb (length (k ∷ ks)) 32) ≡ true = ground arith in
    let keyed : ltb 0 (length (k ∷ ks)) ≡ true = ground arith in
    (
      b2s_hmac_puts (blake2s_init_param hsize start) (key_block (k ∷ ks)),
      rw (sized, keyed) refl,
      start_digest hsize start (key_block (k ∷ ks) ∷ chunks),
    )
