-- ===== src/Blake2s/Rfc.antt =====
-- BLAKE2s as RFC 7693 has it: G (3.1), F (3.2), the hash of a message (3.3) and the parameters (2.5,
-- 2.8). The constants and the steps are the RFC's; the state of G is a function of the index. Numbers
-- are words and bytes; only lists and arithmetic are shared with the model of src/blake2s.c.
use lite_forth.Common.{
  ℕ, zero, suc, ◌+◌, ◌-◌, ◌*◌, ◌/◌, ◌%◌, ◌^◌, Bool, true, false, List, [], ◌∷◌, ◌++◌, map, Option,
  none, some, bit_or, bit_xor, if◌then◌else◌, get_or, set, take, drop, replicate, length,
}

-- 2.6 the initialization vector, and 2.7 the message schedule.
abbrev pub rfc_iv : List ℕ
rfc_iv =
    0x6A09E667 ∷ 0xBB67AE85 ∷ 0x3C6EF372 ∷ 0xA54FF53A ∷ 0x510E527F ∷ 0x9B05688C ∷ 0x1F83D9AB
    ∷ 0x5BE0CD19 ∷ []

abbrev pub rfc_sigma : List (List ℕ)
rfc_sigma =
    (0 ∷ 1 ∷ 2 ∷ 3 ∷ 4 ∷ 5 ∷ 6 ∷ 7 ∷ 8 ∷ 9 ∷ 10 ∷ 11 ∷ 12 ∷ 13 ∷ 14 ∷ 15 ∷ [])
    ∷ (14 ∷ 10 ∷ 4 ∷ 8 ∷ 9 ∷ 15 ∷ 13 ∷ 6 ∷ 1 ∷ 12 ∷ 0 ∷ 2 ∷ 11 ∷ 7 ∷ 5 ∷ 3 ∷ [])
    ∷ (11 ∷ 8 ∷ 12 ∷ 0 ∷ 5 ∷ 2 ∷ 15 ∷ 13 ∷ 10 ∷ 14 ∷ 3 ∷ 6 ∷ 7 ∷ 1 ∷ 9 ∷ 4 ∷ [])
    ∷ (7 ∷ 9 ∷ 3 ∷ 1 ∷ 13 ∷ 12 ∷ 11 ∷ 14 ∷ 2 ∷ 6 ∷ 5 ∷ 10 ∷ 4 ∷ 0 ∷ 15 ∷ 8 ∷ [])
    ∷ (9 ∷ 0 ∷ 5 ∷ 7 ∷ 2 ∷ 4 ∷ 10 ∷ 15 ∷ 14 ∷ 1 ∷ 11 ∷ 12 ∷ 6 ∷ 8 ∷ 3 ∷ 13 ∷ [])
    ∷ (2 ∷ 12 ∷ 6 ∷ 10 ∷ 0 ∷ 11 ∷ 8 ∷ 3 ∷ 4 ∷ 13 ∷ 7 ∷ 5 ∷ 15 ∷ 14 ∷ 1 ∷ 9 ∷ [])
    ∷ (12 ∷ 5 ∷ 1 ∷ 15 ∷ 14 ∷ 13 ∷ 4 ∷ 10 ∷ 0 ∷ 7 ∷ 6 ∷ 3 ∷ 9 ∷ 2 ∷ 8 ∷ 11 ∷ [])
    ∷ (13 ∷ 11 ∷ 7 ∷ 14 ∷ 12 ∷ 1 ∷ 3 ∷ 9 ∷ 5 ∷ 0 ∷ 15 ∷ 4 ∷ 8 ∷ 6 ∷ 2 ∷ 10 ∷ [])
    ∷ (6 ∷ 15 ∷ 14 ∷ 9 ∷ 11 ∷ 3 ∷ 0 ∷ 8 ∷ 12 ∷ 2 ∷ 13 ∷ 7 ∷ 1 ∷ 4 ∷ 10 ∷ 5 ∷ [])
    ∷ (10 ∷ 2 ∷ 8 ∷ 4 ∷ 7 ∷ 6 ∷ 1 ∷ 5 ∷ 15 ∷ 11 ∷ 9 ∷ 14 ∷ 3 ∷ 12 ∷ 13 ∷ 0 ∷ [])
    ∷ []

-- 2.1: x >>> n
abbrev pub rotated : ℕ → ℕ → ℕ
rotated x n = bit_or (x / 2 ^ n) (x * 2 ^ (32 - n) % 2 ^ 32)

abbrev word : List ℕ → ℕ → ℕ
word v i = get_or v i 0

-- 3.1: G, an assignment to a word of v after the other, with R1 to R4 as 16, 12, 8 and 7.
unfoldable pub rfc_g : (a b c d x y : ℕ) → List ℕ → List ℕ
rfc_g a b c d x y v =
    let v1 = set v a ((word v a + word v b + x) % 2 ^ 32) in
    let v2 = set v1 d (rotated (bit_xor (word v1 d) (word v1 a)) 16) in
    let v3 = set v2 c ((word v2 c + word v2 d) % 2 ^ 32) in
    let v4 = set v3 b (rotated (bit_xor (word v3 b) (word v3 c)) 12) in
    let v5 = set v4 a ((word v4 a + word v4 b + y) % 2 ^ 32) in
    let v6 = set v5 d (rotated (bit_xor (word v5 d) (word v5 a)) 8) in
    let v7 = set v6 c ((word v6 c + word v6 d) % 2 ^ 32) in
    set v7 b (rotated (bit_xor (word v7 b) (word v7 c)) 7)

-- A round: the columns, then the diagonals.
unfoldable pub rfc_round : List ℕ → List ℕ → List ℕ → List ℕ
rfc_round m s v =
    let w = λ (i : ℕ). word m (word s i) in
    let v1 = rfc_g 0 4 8 12 (w 0) (w 1) v in
    let v2 = rfc_g 1 5 9 13 (w 2) (w 3) v1 in
    let v3 = rfc_g 2 6 10 14 (w 4) (w 5) v2 in
    let v4 = rfc_g 3 7 11 15 (w 6) (w 7) v3 in
    let v5 = rfc_g 0 5 10 15 (w 8) (w 9) v4 in
    let v6 = rfc_g 1 6 11 12 (w 10) (w 11) v5 in
    let v7 = rfc_g 2 7 8 13 (w 12) (w 13) v6 in rfc_g 3 4 9 14 (w 14) (w 15) v7

unfoldable pub rfc_rounds : List ℕ → List (List ℕ) → List ℕ → List ℕ
rfc_rounds m [] v = v
rfc_rounds m (s ∷ rows) v = rfc_rounds m rows (rfc_round m s v)

-- Bytes as little-endian words, and words as bytes.
unfoldable pub little_words : List ℕ → List ℕ
little_words (a ∷ b ∷ c ∷ d ∷ rest) =
    bit_or (bit_or (bit_or a (b * 2 ^ 8)) (c * 2 ^ 16)) (d * 2 ^ 24) ∷ little_words rest
little_words _ = []

unfoldable pub little_bytes : List ℕ → List ℕ
little_bytes [] = []
little_bytes (w ∷ ws) =
    w % 256 ∷ w / 2 ^ 8 % 256 ∷ w / 2 ^ 16 % 256 ∷ w / 2 ^ 24 % 256 ∷ little_bytes ws

-- 3.2: F, with the block as bytes, the 64-bit offset t, and whether the block is the last.
unfoldable pub rfc_f : List ℕ → List ℕ → ℕ → Bool → List ℕ
rfc_f h block t last =
    let inverted : ℕ = if last then 0xFFFFFFFF else 0 in
    let offsets =
      bit_xor (t % 2 ^ 32) (word rfc_iv 4)
      ∷ bit_xor (t / 2 ^ 32 % 2 ^ 32) (word rfc_iv 5)
      ∷ bit_xor inverted (word rfc_iv 6)
      ∷ word rfc_iv 7
      ∷ [] in
    let v = rfc_rounds (little_words block) rfc_sigma (h ++ (take 4 rfc_iv ++ offsets)) in
    map (λ i. bit_xor (word h i) (bit_xor (word v i) (word v (i + 8))))
      (0 ∷ 1 ∷ 2 ∷ 3 ∷ 4 ∷ 5 ∷ 6 ∷ 7 ∷ [])

-- 3.3: the words after the last block of a message, `count` bytes of which came before: each block
-- but the last with the number of bytes up to its end, the last padded with zeros.
unfoldable pub rfc_words : ℕ → ℕ → List ℕ → List ℕ → List ℕ
rfc_words zero count h message =
    rfc_f h (message ++ replicate (64 - length message) 0) (count + length message) true
rfc_words (suc blocks) count h message =
    rfc_words blocks (count + 64) (rfc_f h (take 64 message) (count + 64) false) (drop 64 message)

-- The blocks of a message but the last; an empty message has one block.
abbrev pub blocks_before_last : List ℕ → ℕ
blocks_before_last message = (length message - 1) / 64

-- 2.5: the parameter block: the sizes of digest and key, fanout and depth 1, and what tree hashing
-- leaves 0; then the salt and the personalization, of 8 bytes each, or zeros.
abbrev or_zeros : Option (List ℕ) → List ℕ
or_zeros none = 0 ∷ 0 ∷ 0 ∷ 0 ∷ 0 ∷ 0 ∷ 0 ∷ 0 ∷ []
or_zeros (some bytes) = bytes

abbrev pub parameter_block : (digest key : ℕ) → Option (List ℕ) → Option (List ℕ) → List ℕ
parameter_block digest key salt personal =
    digest
    ∷ key
    ∷ 1
    ∷ 1
    ∷ 0
    ∷ 0
    ∷ 0
    ∷ 0
    ∷ 0
    ∷ 0
    ∷ 0
    ∷ 0
    ∷ 0
    ∷ 0
    ∷ 0
    ∷ 0
    ∷ (or_zeros salt ++ or_zeros personal)

-- The key as the first block of the message, if there is a key.
abbrev pub key_block : List ℕ → List ℕ
key_block [] = []
key_block (k ∷ ks) = (k ∷ ks) ++ replicate (64 - length (k ∷ ks)) 0

abbrev pub initial : List ℕ → List ℕ
initial parameters =
    map (λ i. bit_xor (word rfc_iv i) (word (little_words parameters) i))
      (0 ∷ 1 ∷ 2 ∷ 3 ∷ 4 ∷ 5 ∷ 6 ∷ 7 ∷ [])

-- The hash of a message: of `hsize` bytes, with a key, a salt and a personalization.
unfoldable pub blake2s : ℕ → List ℕ → Option (List ℕ) → Option (List ℕ) → List ℕ → List ℕ
unfolding little_words
blake2s hsize key salt personal message =
    let whole = key_block key ++ message in
    take hsize (
      little_bytes (
        rfc_words (blocks_before_last whole) 0
          (initial (parameter_block hsize (length key) salt personal)) whole))
