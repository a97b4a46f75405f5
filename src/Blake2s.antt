-- ===== src/Blake2s.antt =====
-- BLAKE2s with its buffer: src/blake2s.c and src/blake2s.h, in the form with the rounds as a loop.
-- Words and bytes are numbers, arrays are lists. `buf` holds the first `buflen` bytes of the
-- source's buf, so its length is buflen; the bytes behind them are never read, since b2s_hmac_final
-- clears them.
pub mod Stream
pub mod Rfc
pub mod Rounds
pub mod Refine
use lite_forth.Common.{
  [], ℕ, zero, suc, ◌+◌, ◌-◌, ◌*◌, ◌/◌, ◌%◌, ◌^◌, true, false, List, ◌∷◌, ◌++◌, map, Option, none,
  some, bit_or, bit_xor, ltb, leb, ◌==◌, ◌&&◌, if◌then◌else◌, get_or, set, take, drop, replicate,
  length, u32,
}

-- BLAKE2S_BLOCKBYTES
abbrev pub block_bytes : ℕ
block_bytes = 64

abbrev pub blake2s_iv : List ℕ
blake2s_iv =
    0x6A09E667 ∷ 0xBB67AE85 ∷ 0x3C6EF372 ∷ 0xA54FF53A ∷ 0x510E527F ∷ 0x9B05688C ∷ 0x1F83D9AB
    ∷ 0x5BE0CD19 ∷ []

abbrev pub blake2s_sigma : List (List ℕ)
blake2s_sigma =
    (0 ∷ 1 ∷ 2 ∷ 3 ∷ 4 ∷ 5 ∷ 6 ∷ 7 ∷ 8 ∷ 9 ∷ 10 ∷ 11 ∷ 12 ∷ 13 ∷ 14 ∷ 15 ∷ [])
    ∷ (14 ∷ 10 ∷ 4 ∷ 8 ∷ 9 ∷ 15 ∷ 13 ∷ 6 ∷ 1 ∷ 12 ∷ 0 ∷ 2 ∷ 11 ∷ 7 ∷ 5 ∷ 3 ∷ [])
    ∷ (11 ∷ 8 ∷ 12 ∷ 0 ∷ 5 ∷ 2 ∷ 15 ∷ 13 ∷ 10 ∷ 14 ∷ 3 ∷ 6 ∷ 7 ∷ 1 ∷ 9 ∷ 4 ∷ [])
    ∷ (7 ∷ 9 ∷ 3 ∷ 1 ∷ 13 ∷ 12 ∷ 11 ∷ 14 ∷ 2 ∷ 6 ∷ 5 ∷ 10 ∷ 4 ∷ 0 ∷ 15 ∷ 8 ∷ [])
    ∷ (9 ∷ 0 ∷ 5 ∷ 7 ∷ 2 ∷ 4 ∷ 10 ∷ 15 ∷ 14 ∷ 1 ∷ 11 ∷ 12 ∷ 6 ∷ 8 ∷ 3 ∷ 13 ∷ [])
    ∷ (2 ∷ 12 ∷ 6 ∷ 10 ∷ 0 ∷ 11 ∷ 8 ∷ 3 ∷ 4 ∷ 13 ∷ 7 ∷ 5 ∷ 15 ∷ 14 ∷ 1 ∷ 9 ∷ [])
    ∷ (12 ∷ 5 ∷ 1 ∷ 15 ∷ 14 ∷ 13 ∷ 4 ∷ 10 ∷ 0 ∷ 7 ∷ 6 ∷ 3 ∷ 9 ∷ 2 ∷ 8 ∷ 11 ∷ [])
    ∷ (13 ∷ 11 ∷ 7 ∷ 14 ∷ 12 ∷ 1 ∷ 3 ∷ 9 ∷ 5 ∷ 0 ∷ 15 ∷ 4 ∷ 8 ∷ 6 ∷ 2 ∷ 10 ∷ [])
    ∷ (6 ∷ 15 ∷ 14 ∷ 9 ∷ 11 ∷ 3 ∷ 0 ∷ 8 ∷ 12 ∷ 2 ∷ 13 ∷ 7 ∷ 1 ∷ 4 ∷ 10 ∷ 5 ∷ [])
    ∷ (10 ∷ 2 ∷ 8 ∷ 4 ∷ 7 ∷ 6 ∷ 1 ∷ 5 ∷ 15 ∷ 11 ∷ 9 ∷ 14 ∷ 3 ∷ 12 ∷ 13 ∷ 0 ∷ [])
    ∷ []

-- blake2s_state
pub record HashState : Type 0 where
  pub h : List ℕ
  pub t0 : ℕ
  pub t1 : ℕ
  pub f0 : ℕ
  pub f1 : ℕ
  pub buf : List ℕ
  pub outlen : ℕ
  pub last_node : ℕ

-- load32 over an array: little-endian words.
unfoldable pub load_words : List ℕ → List ℕ
load_words (a ∷ b ∷ c ∷ d ∷ rest) =
    bit_or (bit_or (bit_or a (b * 2 ^ 8)) (c * 2 ^ 16)) (d * 2 ^ 24) ∷ load_words rest
load_words _ = []

abbrev pub store32 : ℕ → List ℕ
store32 w = w % 256 ∷ w / 2 ^ 8 % 256 ∷ w / 2 ^ 16 % 256 ∷ w / 2 ^ 24 % 256 ∷ []

unfoldable pub store_words : List ℕ → List ℕ
store_words [] = []
store_words (w ∷ ws) = store32 w ++ store_words ws

abbrev pub rotr32 : ℕ → ℕ → ℕ
rotr32 w c = bit_or (w / 2 ^ c) (u32 (w * 2 ^ (32 - c)))

-- G on the locals v0 to v15, named by their numbers; x and y are the message words.
unfoldable pub mix : ℕ → ℕ → ℕ → ℕ → ℕ → ℕ → List ℕ → List ℕ
mix a b c d x y v =
    let va = u32 (get_or v a 0 + get_or v b 0 + x) in
    let vd = rotr32 (bit_xor (get_or v d 0) va) 16 in
    let vc = u32 (get_or v c 0 + vd) in
    let vb = rotr32 (bit_xor (get_or v b 0) vc) 12 in
    let va' = u32 (va + vb + y) in
    let vd' = rotr32 (bit_xor vd va') 8 in
    let vc' = u32 (vc + vd') in
    let vb' = rotr32 (bit_xor vb vc') 7 in set (set (set (set v a va') b vb') c vc') d vd'

-- One round, with its row of sigma.
unfoldable pub mix_round : List ℕ → List ℕ → List ℕ → List ℕ
unfolding mix
mix_round m s v =
    let word = λ (i : ℕ). get_or m (get_or s i 0) 0 in
    let v1 = mix 0 4 8 12 (word 0) (word 1) v in
    let v2 = mix 1 5 9 13 (word 2) (word 3) v1 in
    let v3 = mix 2 6 10 14 (word 4) (word 5) v2 in
    let v4 = mix 3 7 11 15 (word 6) (word 7) v3 in
    let v5 = mix 0 5 10 15 (word 8) (word 9) v4 in
    let v6 = mix 1 6 11 12 (word 10) (word 11) v5 in
    let v7 = mix 2 7 8 13 (word 12) (word 13) v6 in mix 3 4 9 14 (word 14) (word 15) v7

unfoldable pub mix_rounds : List ℕ → List (List ℕ) → List ℕ → List ℕ
unfolding mix_round
mix_rounds m [] v = v
mix_rounds m (s ∷ rows) v = mix_rounds m rows (mix_round m s v)

-- The words of the state that the compression makes from h, t, f and a block.
unfoldable pub compressed : List ℕ → ℕ → ℕ → ℕ → ℕ → List ℕ → List ℕ
unfolding load_words mix_rounds
compressed h t0 t1 f0 f1 block =
    let iv = λ (i : ℕ). get_or blake2s_iv i 0 in
    let v = mix_rounds (load_words block) blake2s_sigma (
      h
      ++ (iv 0
          ∷ iv 1
          ∷ iv 2
          ∷ iv 3
          ∷ bit_xor t0 (iv 4)
          ∷ bit_xor t1 (iv 5)
          ∷ bit_xor f0 (iv 6)
          ∷ bit_xor f1 (iv 7)
          ∷ [])) in
    map (λ i. bit_xor (get_or h i 0) (bit_xor (get_or v i 0) (get_or v (i + 8) 0)))
      (0 ∷ 1 ∷ 2 ∷ 3 ∷ 4 ∷ 5 ∷ 6 ∷ 7 ∷ [])

unfoldable pub blake2s_compress : HashState → List ℕ → HashState
blake2s_compress s block = record s { h = compressed s.h s.t0 s.t1 s.f0 s.f1 block }

unfoldable pub blake2s_increment_counter : HashState → ℕ → HashState
blake2s_increment_counter s inc =
    let t0 = u32 (s.t0 + inc) in
    record s { t0 = t0; t1 = u32 (s.t1 + (if ltb t0 inc then 1 else 0)) }

unfoldable pub blake2s_is_lastblock : HashState → ℕ
blake2s_is_lastblock s = if s.f0 == 0 then 0 else 1

unfoldable pub blake2s_set_lastblock : HashState → HashState
blake2s_set_lastblock s = record s {
  f0 = 2 ^ 32 - 1;
  f1 = if s.last_node == 0 then s.f1 else 2 ^ 32 - 1;
}

-- The counter moved on by a block, and the block compressed.
unfoldable pub absorb : HashState → List ℕ → HashState
unfolding blake2s_compress blake2s_increment_counter
absorb s block = blake2s_compress (blake2s_increment_counter s block_bytes) block

unfoldable pub b2s_hmac_putc : HashState → ℕ → HashState
b2s_hmac_putc s c =
    if length s.buf == block_bytes
    then record (absorb s s.buf) { buf = c ∷ [] }
    else record s { buf = s.buf ++ (c ∷ []) }

-- The loop over whole blocks of b2s_hmac_puts, on fuel: the state and the bytes that stay.
unfoldable pub puts_blocks : ℕ → HashState → List ℕ → HashState × List ℕ
puts_blocks zero s input = (s, input)
puts_blocks (suc fuel) s input = elim (ltb block_bytes (length input)) [
  | true ↦ puts_blocks fuel (absorb s (take block_bytes input)) (drop block_bytes input)
  | false ↦ (s, input)
]

unfoldable pub b2s_hmac_puts : HashState → List ℕ → HashState
b2s_hmac_puts s input =
    let left = block_bytes - length s.buf in
    if leb (length input) 0
    then s
    else (if ltb left (length input)
        then (let rest = drop left input in
            let r = puts_blocks (length rest) (absorb s (s.buf ++ take left input)) rest in
            record r.0 { buf = r.1 })
        else record s { buf = s.buf ++ input })

-- The digest and the state; `none` is -1, where the state was final before.
unfoldable pub b2s_hmac_final : HashState → Option (List ℕ × HashState)
unfolding blake2s_is_lastblock blake2s_increment_counter blake2s_set_lastblock blake2s_compress
    store_words
b2s_hmac_final s =
    let counted = blake2s_set_lastblock (blake2s_increment_counter s (length s.buf)) in
    let padded = s.buf ++ replicate (block_bytes - length s.buf) 0 in
    let done = blake2s_compress (record counted { buf = padded }) padded in
    if blake2s_is_lastblock s == 0 then some (take s.outlen (store_words done.h), done) else none

-- blake2s_init_param, with the parameter block as its bytes.
unfoldable pub blake2s_init_param : ℕ → List ℕ → HashState
unfolding load_words
blake2s_init_param outlen p = record {
  h =
      map (λ i. bit_xor (get_or blake2s_iv i 0) (get_or (load_words p) i 0))
        (0 ∷ 1 ∷ 2 ∷ 3 ∷ 4 ∷ 5 ∷ 6 ∷ 7 ∷ []);
  t0 = 0;
  t1 = 0;
  f0 = 0;
  f1 = 0;
  buf = [];
  outlen = outlen;
  last_node = 0;
}

-- `salt` and `personal` are 8 bytes, or `none` for NULL.
abbrev pub eight : Option (List ℕ) → List ℕ
eight none = replicate 8 0
eight (some bytes) = bytes

-- blake2s_param's 32 bytes.
unfoldable pub params : ℕ → ℕ → Option (List ℕ) → Option (List ℕ) → List ℕ
params hsize keylen salt personal =
    (hsize ∷ keylen ∷ 1 ∷ 1 ∷ []) ++ (replicate 12 0 ++ (eight salt ++ eight personal))

-- b2s_init with a key of `length key` bytes ([] for none): `none` is 0, a bad size.
unfoldable pub b2s_init : ℕ → List ℕ → Option (List ℕ) → Option (List ℕ) → Option HashState
unfolding blake2s_init_param params
b2s_init hsize key salt personal =
    let s = blake2s_init_param hsize (params hsize (length key) salt personal) in
    if leb 1 hsize && leb hsize 32 && leb (length key) 32
    then some (
        if ltb 0 (length key)
        then b2s_hmac_puts s (key ++ replicate (block_bytes - length key) 0)
        else s)
    else none

-- b2s_hmac_init: a key of 32 bytes, with a 64-bit count in the counter.
unfoldable pub b2s_hmac_init : List ℕ → ℕ → ℕ → Option HashState
unfolding b2s_init
b2s_hmac_init key hsize ctr = elim (b2s_init hsize key none none) [
  | none ↦ none
  | some s ↦ some (record s { t0 = bit_xor s.t0 (u32 ctr); t1 = bit_xor s.t1 (ctr / 2 ^ 32) })
]
