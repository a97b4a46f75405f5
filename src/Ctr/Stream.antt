-- ===== src/Ctr/Stream.antt =====
-- Counter mode is its own inverse, and keeps the length.
use lite_forth.Common.{
  ℕ, zero, suc, ◌+◌, ◌*◌, ◌/◌, ◌%◌, ◌^◌, ◌<◌, ◌≡◌, refl, sym, ap, ◌∙◌, subst, arith, List, [], ◌∷◌,
  ◌++◌, bit_xor, bit_xor_cancel, ltb, ◌==◌, if◌then◌else◌, length, All, Bool-cases, inl, inr,
}
use lite_forth.Ctr.{
  CtrKey, ctr_sm4, bytes, words, xor_words, add_round_key, sub_shift, mix_columns, aes_rounds,
  aes_encrypt, sm4_rounds, sm4_encrypt, ctr_encrypt_block, counter_block, xor_unit, crypt_units,
  ctr_crypt_block_sw, quad, round_keys,
}

abbrev pub IsByte : ℕ → Type 0
IsByte b = b < 2 ^ 8

bytes-All : (ws : List ℕ) → All IsByte (bytes ws)
unfolding bytes
bytes-All [] = tt
bytes-All (w ∷ ws) = (omega arith, (omega arith, (omega arith, (omega arith, bytes-All ws))))

add_round_key-All : (rk : List ℕ) (round : ℕ) (s : List ℕ) → All IsByte (add_round_key rk round s)
unfolding add_round_key
add_round_key-All rk round s = bytes-All (xor_words (words s) (round_keys rk round))

aes_rounds-All :
    (rk : List ℕ) (left round : ℕ) (s : List ℕ)
    → All IsByte s
    → All IsByte (aes_rounds rk left round s)
unfolding aes_rounds
aes_rounds-All rk zero round s h = h
aes_rounds-All rk (suc left) round s h =
    aes_rounds-All rk left (round + 1) _
      (add_round_key-All rk round (if ltb round 10 then mix_columns (sub_shift s) else sub_shift s))

-- A block is encrypted to bytes.
pub ctr_encrypt_block-All : (k : CtrKey) (block : List ℕ) → All IsByte (ctr_encrypt_block k block)
unfolding ctr_encrypt_block aes_encrypt sm4_encrypt
ctr_encrypt_block-All k block = elim (Bool-cases (k.cipher == ctr_sm4)) [
  | inl sm4 ↦
      rw sm4
        (let x = sm4_rounds k.rk (quad (words block)) in bytes-All (x.w3 ∷ x.w2 ∷ x.w1 ∷ x.w0 ∷ []))
  | inr aes ↦ rw aes (aes_rounds-All k.rk 10 1 _ (add_round_key-All k.rk 0 block))
]

-- The bytes of a unit, as they were.
taken : List ℕ → List ℕ → List ℕ
taken [] buf = []
taken (k ∷ ks) [] = []
taken (k ∷ ks) (b ∷ buf) = b ∷ taken ks buf

taken-++ : (ks buf : List ℕ) → taken ks buf ++ (xor_unit ks buf).1 ≡ buf
unfolding taken xor_unit
taken-++ [] buf = refl
taken-++ (k ∷ ks) [] = refl
taken-++ (k ∷ ks) (b ∷ buf) = ap (λ t. b ∷ t) (taken-++ ks buf)

rest-All : (ks buf : List ℕ) → All IsByte buf → All IsByte (xor_unit ks buf).1
unfolding xor_unit
rest-All [] buf h = h
rest-All (k ∷ ks) [] h = tt
rest-All (k ∷ ks) (b ∷ buf) h = rest-All ks buf h.1

-- A unit with the keystream on it twice, where other bytes follow if any followed.
xor_unit-twice :
    (ks buf rest : List ℕ)
    → All IsByte ks
    → All IsByte buf
    → ((xor_unit ks buf).1 ≡ [] → rest ≡ [])
    → xor_unit ks ((xor_unit ks buf).0 ++ rest) ≡ (taken ks buf, rest)
unfolding xor_unit taken
xor_unit-twice [] buf rest p q h = refl
xor_unit-twice (k ∷ ks) [] rest p q h =
    let none_left = h refl in subst (λ r. xor_unit (k ∷ ks) r ≡ ([], r)) (sym none_left) refl
xor_unit-twice (k ∷ ks) (b ∷ buf) rest p q h =
    let again = xor_unit-twice ks buf rest p.1 q.1 h in
    let back : bit_xor (bit_xor b k) k ≡ b = bit_xor_cancel 8 b k q.0 p.0 in rw (again, back) refl

xor_unit-empty : (ks : List ℕ) → xor_unit ks [] ≡ ([], [])
unfolding xor_unit
xor_unit-empty [] = refl
xor_unit-empty (k ∷ ks) = refl

crypt_units-empty :
    (k : CtrKey) (nonce : List ℕ) (n count : ℕ) → crypt_units k nonce n count [] ≡ []
unfolding crypt_units
crypt_units-empty k nonce zero count = refl
crypt_units-empty k nonce (suc n) count =
    let nothing = xor_unit-empty (ctr_encrypt_block k (counter_block nonce count)) in
    rw (crypt_units, nothing) (crypt_units-empty k nonce n ((count + 1) % 2 ^ 64))

crypt_units-twice :
    (k : CtrKey) (nonce : List ℕ) (n count : ℕ) (buf : List ℕ)
    → All IsByte buf
    → crypt_units k nonce n count (crypt_units k nonce n count buf) ≡ buf
unfolding crypt_units
crypt_units-twice k nonce zero count buf h = refl
crypt_units-twice k nonce (suc n) count buf h =
    let ks = ctr_encrypt_block k (counter_block nonce count) in
    let count' = (count + 1) % 2 ^ 64 in
    let rest = (xor_unit ks buf).1 in
    let again =
      xor_unit-twice ks buf (crypt_units k nonce n count' rest)
        (ctr_encrypt_block-All k (counter_block nonce count)) h
        (λ e. ap (crypt_units k nonce n count') e ∙ crypt_units-empty k nonce n count') in
    ap (λ r. r.0 ++ crypt_units k nonce n count' r.1) again
    ∙ ap (λ t. taken ks buf ++ t) (crypt_units-twice k nonce n count' rest (rest-All ks buf h))
    ∙ taken-++ ks buf

pub length-++ : (xs ys : List ℕ) → length (xs ++ ys) ≡ length xs + length ys
length-++ [] ys = omega arith
length-++ (x ∷ xs) ys = omega (arith, length-++ xs ys)

length-xor_unit :
    (ks buf : List ℕ) → length (xor_unit ks buf).0 + length (xor_unit ks buf).1 ≡ length buf
unfolding xor_unit
length-xor_unit [] buf = omega arith
length-xor_unit (k ∷ ks) [] = refl
length-xor_unit (k ∷ ks) (b ∷ buf) = omega (arith, length-xor_unit ks buf)

length-crypt_units :
    (k : CtrKey) (nonce : List ℕ) (n count : ℕ) (buf : List ℕ)
    → length (crypt_units k nonce n count buf) ≡ length buf
unfolding crypt_units
length-crypt_units k nonce zero count buf = refl
length-crypt_units k nonce (suc n) count buf =
    let u = xor_unit (ctr_encrypt_block k (counter_block nonce count)) buf in
    length-++ u.0 (crypt_units k nonce n ((count + 1) % 2 ^ 64) u.1)
    ∙ ap (λ t. length u.0 + t) (length-crypt_units k nonce n ((count + 1) % 2 ^ 64) u.1)
    ∙ length-xor_unit (ctr_encrypt_block k (counter_block nonce count)) buf

-- Encrypting twice with the same key, nonce and block number gives back any bytes, of any number
-- and by either cipher; once, it keeps their number.
pub ctr_crypt_block_sw-twice :
    (k : CtrKey) (nonce : List ℕ) (n : ℕ) (buf : List ℕ)
    → All IsByte buf
    → (ctr_crypt_block_sw k nonce n (ctr_crypt_block_sw k nonce n buf) ≡ buf)
      × (length (ctr_crypt_block_sw k nonce n buf) ≡ length buf)
unfolding ctr_crypt_block_sw
ctr_crypt_block_sw-twice k nonce n buf h =
    let units = (length buf + 15) / 16 in
    let size = length-crypt_units k nonce units (n * 256) buf in
    (
      ap
            (λ t.
              crypt_units k nonce ((t + 15) / 16) (n * 256)
                (crypt_units k nonce units (n * 256) buf))
            size
          ∙ crypt_units-twice k nonce units (n * 256) buf h,
      size,
    )
