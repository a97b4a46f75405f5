-- ===== src/Ctr/Positions.antt =====
-- Which keystream byte each byte of a block gets: the counter mode of doc/CH32H417/admin's
-- encrypted-blocks.md.
use lite_forth.Common.{
  ℕ, zero, suc, ◌+◌, ◌-◌, ◌*◌, ◌/◌, ◌%◌, ◌^◌, ◌<◌, ◌≤◌, ◌≡◌, refl, sym, ap, ◌∙◌, arith, List, [],
  ◌∷◌, ◌++◌, map, bit_xor, ltb, ◌==◌, get_or, length, Bool-cases, inl, inr,
}
use lite_forth.Ctr.Stream.{length-++}
use lite_forth.Ctr.{
  CtrKey, ctr_sm4, bytes, words, xor_words, add_round_key, sub_shift, mix_columns, aes_rounds,
  aes_encrypt, sm4_rounds, sm4_encrypt, ctr_encrypt_block, counter_block, xor_unit, crypt_units,
  ctr_crypt_block_sw, quad, round_keys,
}

length-bytes : (ws : List ℕ) → length (bytes ws) ≡ 4 * length ws
unfolding bytes
length-bytes [] = refl
length-bytes (w ∷ ws) = omega (arith, length-bytes ws)

length-words : (n : ℕ) (s : List ℕ) → length s ≡ 4 * n → length (words s) ≡ n
unfolding words
length-words zero [] h = refl
length-words zero (a ∷ s) h = absurd (omega (arith, h))
length-words (suc n) [] h = absurd (omega (arith, h))
length-words (suc n) (a ∷ []) h = absurd (omega (arith, h))
length-words (suc n) (a ∷ b ∷ []) h = absurd (omega (arith, h))
length-words (suc n) (a ∷ b ∷ c ∷ []) h = absurd (omega (arith, h))
length-words (suc n) (a ∷ b ∷ c ∷ d ∷ s) h = omega (arith, length-words n s (omega (arith, h)))

length-mix_columns : (n : ℕ) (s : List ℕ) → length s ≡ 4 * n → length (mix_columns s) ≡ 4 * n
unfolding mix_columns
length-mix_columns zero [] h = refl
length-mix_columns zero (a ∷ s) h = absurd (omega (arith, h))
length-mix_columns (suc n) [] h = absurd (omega (arith, h))
length-mix_columns (suc n) (a ∷ []) h = absurd (omega (arith, h))
length-mix_columns (suc n) (a ∷ b ∷ []) h = absurd (omega (arith, h))
length-mix_columns (suc n) (a ∷ b ∷ c ∷ []) h = absurd (omega (arith, h))
length-mix_columns (suc n) (a ∷ b ∷ c ∷ d ∷ s) h =
    omega (arith, length-mix_columns n s (omega (arith, h)))

length-xor_words : (xs ks : List ℕ) → length xs ≡ length ks → length (xor_words xs ks) ≡ length ks
unfolding xor_words
length-xor_words [] [] h = refl
length-xor_words [] (k ∷ ks) h = absurd (omega (arith, h))
length-xor_words (x ∷ xs) [] h = absurd (omega (arith, h))
length-xor_words (x ∷ xs) (k ∷ ks) h = omega (arith, length-xor_words xs ks (omega (arith, h)))

length-add_round_key :
    (rk : List ℕ) (round : ℕ) (s : List ℕ) → length s ≡ 16 → length (add_round_key rk round s) ≡ 16
unfolding add_round_key
length-add_round_key rk round s h =
    let four = length-words 4 s (omega (arith, h)) in
    omega (
      arith,
      length-bytes (xor_words (words s) (round_keys rk round)),
      length-xor_words (words s) (round_keys rk round) four,
    )

length-sub_shift : (s : List ℕ) → length (sub_shift s) ≡ 16
unfolding sub_shift
length-sub_shift s = refl

length-aes_rounds :
    (rk : List ℕ) (left round : ℕ) (s : List ℕ)
    → length s ≡ 16
    → length (aes_rounds rk left round s) ≡ 16
unfolding aes_rounds
length-aes_rounds rk zero round s h = h
length-aes_rounds rk (suc left) round s h = length-aes_rounds rk left (round + 1) _ (
    length-add_round_key rk round _ (elim (Bool-cases (ltb round 10)) [
      | inl middle ↦ rw middle (length-mix_columns 4 (sub_shift s) (length-sub_shift s))
      | inr last ↦ rw last (length-sub_shift s)
    ]))

length-ctr_encrypt_block :
    (k : CtrKey) (block : List ℕ) → length block ≡ 16 → length (ctr_encrypt_block k block) ≡ 16
unfolding ctr_encrypt_block aes_encrypt sm4_encrypt
length-ctr_encrypt_block k block h = elim (Bool-cases (k.cipher == ctr_sm4)) [
  | inl sm4 ↦ rw sm4 (
      let x = sm4_rounds k.rk (quad (words block)) in length-bytes (x.w3 ∷ x.w2 ∷ x.w1 ∷ x.w0 ∷ []))
  | inr aes ↦ rw aes (length-aes_rounds k.rk 10 1 _ (length-add_round_key k.rk 0 block h))
]

-- The byte at a place of the unit.
xor_unit_at :
    (ks buf rest : List ℕ) (j : ℕ)
    → j < length ks
    → j < length buf
    → get_or ((xor_unit ks buf).0 ++ rest) j 0 ≡ bit_xor (get_or buf j 0) (get_or ks j 0)
unfolding xor_unit
xor_unit_at [] buf rest j p q = absurd (omega (arith, p))
xor_unit_at (k ∷ ks) [] rest j p q = absurd (omega (arith, q))
xor_unit_at (k ∷ ks) (b ∷ buf) rest zero p q = refl
xor_unit_at (k ∷ ks) (b ∷ buf) rest (suc j) p q =
    xor_unit_at ks buf rest j (omega (arith, p)) (omega (arith, q))

-- The bytes behind the unit.
xor_unit_after :
    (ks buf rest : List ℕ) (p m : ℕ)
    → length ks ≤ length buf
    → p ≡ length ks + m
    → (get_or ((xor_unit ks buf).0 ++ rest) p 0 ≡ get_or rest m 0)
      × (get_or buf p 0 ≡ get_or (xor_unit ks buf).1 m 0)
      × (length (xor_unit ks buf).1 + length ks ≡ length buf)
unfolding xor_unit
xor_unit_after [] buf rest p m h e =
    let same : p ≡ m = omega (arith, e) in
    (ap (λ t. get_or rest t 0) same, ap (λ t. get_or buf t 0) same, omega arith)
xor_unit_after (k ∷ ks) [] rest p m h e = absurd (omega (arith, h))
xor_unit_after (k ∷ ks) (b ∷ buf) rest zero m h e = absurd (omega (arith, e))
xor_unit_after (k ∷ ks) (b ∷ buf) rest (suc p) m h e =
    let (x, y, z) = xor_unit_after ks buf rest p m (omega (arith, h)) (omega (arith, e)) in
    (x, y, omega (arith, z))

module _ (k : CtrKey) (nonce : List ℕ) (eight : length nonce ≡ 8) where
  length-counter_block : (count : ℕ) → length (counter_block nonce count) ≡ 16
  unfolding counter_block
  length-counter_block count = omega (
    arith,
    length-++ nonce
        (map (λ i. count / 2 ^ (56 - 8 * i) % 256) (0 ∷ 1 ∷ 2 ∷ 3 ∷ 4 ∷ 5 ∷ 6 ∷ 7 ∷ [])),
    eight,
  )

  -- The keystream of a unit.
  keystream : ℕ → List ℕ
  keystream count = ctr_encrypt_block k (counter_block nonce count)

  length-keystream : (count : ℕ) → length (keystream count) ≡ 16
  unfolding keystream
  length-keystream count =
      length-ctr_encrypt_block k (counter_block nonce count) (length-counter_block count)

  crypt_units_at :
      (i units count j : ℕ) (buf : List ℕ)
      → i < units
      → j < 16
      → 16 * i + j < length buf
      → count + i < 2 ^ 64
      → get_or (crypt_units k nonce units count buf) (16 * i + j) 0
        ≡ bit_xor (get_or buf (16 * i + j) 0) (get_or (keystream (count + i)) j 0)
  unfolding crypt_units keystream
  crypt_units_at i zero count j buf h p q r = absurd (omega arith)
  crypt_units_at zero (suc units) count j buf h p q r =
      let ks = keystream count in
      let here : 16 * 0 + j ≡ j = omega arith in
      let plain : count + 0 ≡ count = omega arith in
      rw (here, plain)
        (xor_unit_at ks buf _ j (omega (arith, length-keystream count, p)) (omega (arith, q)))
  crypt_units_at (suc i) (suc units) count j buf h p q r =
      let ks = keystream count in
      let next : (count + 1) % 2 ^ 64 ≡ count + 1 = omega arith in
      let rest = crypt_units k nonce units ((count + 1) % 2 ^ 64) (xor_unit ks buf).1 in
      let (x, y, z) =
        xor_unit_after ks buf rest (16 * suc i + j) (16 * i + j)
          (omega (arith, length-keystream count, q)) (omega (arith, length-keystream count)) in
      let more =
        crypt_units_at i units (count + 1) j (xor_unit ks buf).1 (omega arith) p
          (omega (arith, length-keystream count, q, z)) (omega arith) in
      let counted : count + 1 + i ≡ count + suc i = omega arith in
      x
      ∙ ap (λ t. get_or (crypt_units k nonce units t (xor_unit ks buf).1) (16 * i + j) 0) next
      ∙ more
      ∙ ap (λ t. bit_xor t (get_or (keystream (count + 1 + i)) j 0)) (sym y)
      ∙ ap (λ t. bit_xor (get_or buf (16 * suc i + j) 0) (get_or (keystream t) j 0)) counted

  -- With a nonce of 8 bytes, byte j of the 16-byte unit i of block n is xored with byte j of the
  -- encrypted counter block for the number n * 256 + i: no unit's keystream depends on the data,
  -- and none is skipped.
  pub ctr_crypt_block_sw_at :
      (n i j : ℕ) (buf : List ℕ)
      → j < 16
      → 16 * i + j < length buf
      → n * 256 + i < 2 ^ 64
      → get_or (ctr_crypt_block_sw k nonce n buf) (16 * i + j) 0
        ≡ bit_xor
            (get_or buf (16 * i + j) 0)
            (get_or (ctr_encrypt_block k (counter_block nonce (n * 256 + i))) j 0)
  unfolding ctr_crypt_block_sw keystream
  ctr_crypt_block_sw_at n i j buf p q r =
      crypt_units_at i ((length buf + 15) / 16) (n * 256) j buf (omega (arith, q)) p q r
