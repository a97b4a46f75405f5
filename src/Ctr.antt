-- ===== src/Ctr.antt =====
-- Block encryption in counter mode: src/ctr.c. Bytes and words are numbers, arrays are lists; an
-- S-box is its 16 rows, each a number of 16 bytes.
pub mod Stream
pub mod Positions
use lite_forth.Common.{
  ℕ, zero, suc, ◌+◌, ◌-◌, ◌*◌, ◌/◌, ◌%◌, ◌^◌, List, [], ◌∷◌, ◌++◌, map, Option, none, some, bit_or,
  bit_xor, ltb, ◌==◌, if◌then◌else◌, get_or, length, u32, neg32, Bool, ◌&&◌,
}

-- CTR_AES128 and CTR_SM4
abbrev pub ctr_aes128 : ℕ
ctr_aes128 = 1

abbrev pub ctr_sm4 : ℕ
ctr_sm4 = 2

abbrev aes_sbox : List ℕ
aes_sbox =
    0x637c777bf26b6fc53001672bfed7ab76 ∷ 0xca82c97dfa5947f0add4a2af9ca472c0
    ∷ 0xb7fd9326363ff7cc34a5e5f171d83115 ∷ 0x04c723c31896059a071280e2eb27b275
    ∷ 0x09832c1a1b6e5aa0523bd6b329e32f84 ∷ 0x53d100ed20fcb15b6acbbe394a4c58cf
    ∷ 0xd0efaafb434d338545f9027f503c9fa8 ∷ 0x51a3408f929d38f5bcb6da2110fff3d2
    ∷ 0xcd0c13ec5f974417c4a77e3d645d1973 ∷ 0x60814fdc222a908846eeb814de5e0bdb
    ∷ 0xe0323a0a4906245cc2d3ac629195e479 ∷ 0xe7c8376d8dd54ea96c56f4ea657aae08
    ∷ 0xba78252e1ca6b4c6e8dd741f4bbd8b8a ∷ 0x703eb5664803f60e613557b986c11d9e
    ∷ 0xe1f8981169d98e949b1e87e9ce5528df ∷ 0x8ca1890dbfe6426841992d0fb054bb16 ∷ []

abbrev sm4_sbox : List ℕ
sm4_sbox =
    0xd690e9fecce13db716b614c228fb2c05 ∷ 0x2b679a762abe04c3aa44132649860699
    ∷ 0x9c4250f491ef987a33540b43edcfac62 ∷ 0xe4b31ca9c908e89580df94fa758f3fa6
    ∷ 0x4707a7fcf37317ba83593c19e6854fa8 ∷ 0x686b81b27164da8bf8eb0f4b70569d35
    ∷ 0x1e240e5e6358d1a225227c3b01217887 ∷ 0xd40046579fd327524c3602e7a0c4c89e
    ∷ 0xeabf8ad240c738b5a3f7f2cef96115a1 ∷ 0xe0ae5da49b341a55ad933230f58cb1e3
    ∷ 0x1df6e22e8266ca60c02923ab0d534e6f ∷ 0xd5db3745defd8e2f03ff6a726d6c5b51
    ∷ 0x8d1baf92bbddbc7f11d95c411f105ad8 ∷ 0x0ac13188a5cd7bbd2d74d012b8e5b4b0
    ∷ 0x8969974a0c96777e65b9f109c56ec684 ∷ 0x18f07dec3adc4d2079ee5f3ed7cb3948 ∷ []

unfoldable pub sbox : List ℕ → ℕ → ℕ
sbox rows x = get_or rows (x / 16) 0 / 256 ^ (15 - x % 16) % 256

abbrev pub get32 : ℕ → ℕ → ℕ → ℕ → ℕ
get32 a b c d = bit_or (bit_or (bit_or (a * 2 ^ 24) (b * 2 ^ 16)) (c * 2 ^ 8)) d

abbrev pub put32 : ℕ → List ℕ
put32 x = x / 2 ^ 24 % 256 ∷ x / 2 ^ 16 % 256 ∷ x / 2 ^ 8 % 256 ∷ x % 256 ∷ []

-- get32 and put32 over a whole array.
unfoldable pub words : List ℕ → List ℕ
words (a ∷ b ∷ c ∷ d ∷ rest) = get32 a b c d ∷ words rest
words _ = []

unfoldable pub bytes : List ℕ → List ℕ
bytes [] = []
bytes (w ∷ ws) = put32 w ++ bytes ws

abbrev pub rotl : ℕ → ℕ → ℕ
rotl x n = bit_or (u32 (x * 2 ^ n)) (x / 2 ^ (32 - n))

-- aes_subword and sm4_tau: the S-box on the four bytes.
unfoldable pub subword : List ℕ → ℕ → ℕ
unfolding sbox
subword rows x =
    bit_or
      (bit_or (bit_or (sbox rows (x / 2 ^ 24) * 2 ^ 24) (sbox rows (x / 2 ^ 16 % 256) * 2 ^ 16))
        (sbox rows (x / 2 ^ 8 % 256) * 2 ^ 8))
      (sbox rows (x % 256))

abbrev pub xtime : ℕ → ℕ
xtime x = bit_xor (x * 2) (if x / 128 % 2 == 0 then 0 else 0x1B) % 256

-- The key schedule from round key i on, the round keys before it with the last first.
unfoldable pub aes_expand : ℕ → ℕ → ℕ → List ℕ → List ℕ
unfolding subword
aes_expand zero i rcon rk = rk
aes_expand (suc left) i rcon rk =
    let last = get_or rk 0 0 in
    let mixed = bit_xor (subword aes_sbox (rotl last 8)) (rcon * 2 ^ 24) in
    let t = if i % 4 == 0 then mixed else last in
    let rcon' = if i % 4 == 0 then xtime rcon else rcon in
    aes_expand left (i + 1) rcon' (bit_xor (get_or rk 3 0) t ∷ rk)

unfoldable pub reversed : List ℕ → List ℕ → List ℕ
reversed [] out = out
reversed (x ∷ xs) out = reversed xs (x ∷ out)

unfoldable pub aes_setkey : List ℕ → List ℕ
unfolding aes_expand words reversed
aes_setkey key = reversed (aes_expand 40 4 1 (reversed (words key) [])) []

unfoldable pub xor_words : List ℕ → List ℕ → List ℕ
xor_words (x ∷ xs) (k ∷ ks) = bit_xor x k ∷ xor_words xs ks
xor_words _ _ = []

-- Round keys 4 * round to 4 * round + 3.
abbrev pub round_keys : List ℕ → ℕ → List ℕ
round_keys rk round = map (λ i. get_or rk (4 * round + i) 0) (0 ∷ 1 ∷ 2 ∷ 3 ∷ [])

unfoldable pub add_round_key : List ℕ → ℕ → List ℕ → List ℕ
unfolding words bytes xor_words
add_round_key rk round s = bytes (xor_words (words s) (round_keys rk round))

-- SubBytes and ShiftRows
unfoldable pub sub_shift : List ℕ → List ℕ
unfolding sbox
sub_shift s =
    map (λ i. sbox aes_sbox (get_or s ((i + 4 * (i % 4)) % 16) 0))
      (0 ∷ 1 ∷ 2 ∷ 3 ∷ 4 ∷ 5 ∷ 6 ∷ 7 ∷ 8 ∷ 9 ∷ 10 ∷ 11 ∷ 12 ∷ 13 ∷ 14 ∷ 15 ∷ [])

-- MixColumns
unfoldable pub mix_columns : List ℕ → List ℕ
mix_columns (a ∷ b ∷ c ∷ d ∷ rest) =
    let all = bit_xor (bit_xor (bit_xor a b) c) d in
    bit_xor a (bit_xor all (xtime (bit_xor a b)))
    ∷ bit_xor b (bit_xor all (xtime (bit_xor b c)))
    ∷ bit_xor c (bit_xor all (xtime (bit_xor c d)))
    ∷ bit_xor d (bit_xor all (xtime (bit_xor d a)))
    ∷ mix_columns rest
mix_columns _ = []

-- The rounds from `round` on.
unfoldable pub aes_rounds : List ℕ → ℕ → ℕ → List ℕ → List ℕ
unfolding sub_shift mix_columns add_round_key
aes_rounds rk zero round s = s
aes_rounds rk (suc left) round s =
    let t = sub_shift s in
    aes_rounds rk left (round + 1)
      (add_round_key rk round (if ltb round 10 then mix_columns t else t))

unfoldable pub aes_encrypt : List ℕ → List ℕ → List ℕ
unfolding aes_rounds
aes_encrypt rk block = aes_rounds rk 10 1 (add_round_key rk 0 block)

-- k or x of SM4: four words.
pub record Quad : Type 0 where
  pub w0 : ℕ
  pub w1 : ℕ
  pub w2 : ℕ
  pub w3 : ℕ

-- k[0] = k[1]; k[1] = k[2]; k[2] = k[3]; k[3] = next
abbrev pub shift_in : ℕ → Quad → Quad
shift_in next q = record { w0 = q.w1; w1 = q.w2; w2 = q.w3; w3 = next }

abbrev pub quad : List ℕ → Quad
quad ws = record { w0 = get_or ws 0 0; w1 = get_or ws 1 0; w2 = get_or ws 2 0; w3 = get_or ws 3 0 }

-- CK: byte j is (4 i + j) * 7 mod 256.
abbrev pub sm4_ck : ℕ → ℕ
sm4_ck i =
    get32 (4 * i * 7 % 256) ((4 * i + 1) * 7 % 256) ((4 * i + 2) * 7 % 256) ((4 * i + 3) * 7 % 256)

-- Round keys from i on.
unfoldable pub sm4_expand : ℕ → ℕ → Quad → List ℕ
unfolding subword
sm4_expand zero i k = []
sm4_expand (suc left) i k =
    let b = subword sm4_sbox (bit_xor (bit_xor (bit_xor k.w1 k.w2) k.w3) (sm4_ck i)) in
    let next = bit_xor (bit_xor (bit_xor k.w0 b) (rotl b 13)) (rotl b 23) in
    next ∷ sm4_expand left (i + 1) (shift_in next k)

unfoldable pub sm4_setkey : List ℕ → List ℕ
unfolding sm4_expand words xor_words
sm4_setkey key =
    sm4_expand 32 0
      (quad (xor_words (words key) (0xA3B1BAC6 ∷ 0x56AA3350 ∷ 0x677D9197 ∷ 0xB27022DC ∷ [])))

unfoldable pub sm4_rounds : List ℕ → Quad → Quad
unfolding subword
sm4_rounds [] x = x
sm4_rounds (rk ∷ rks) x =
    let b = subword sm4_sbox (bit_xor (bit_xor (bit_xor x.w1 x.w2) x.w3) rk) in
    let mixed = bit_xor (bit_xor (bit_xor x.w0 b) (rotl b 2)) (rotl b 10) in
    sm4_rounds rks (shift_in (bit_xor (bit_xor mixed (rotl b 18)) (rotl b 24)) x)

unfoldable pub sm4_encrypt : List ℕ → List ℕ → List ℕ
unfolding sm4_rounds words bytes
sm4_encrypt rk block =
    let x = sm4_rounds rk (quad (words block)) in bytes (x.w3 ∷ x.w2 ∷ x.w1 ∷ x.w0 ∷ [])

-- ctr_key
pub record CtrKey : Type 0 where
  pub cipher : ℕ
  pub rk : List ℕ
  pub key : List ℕ

-- `none` is -1, an unknown cipher.
unfoldable pub ctr_setkey : ℕ → List ℕ → Option CtrKey
ctr_setkey cipher key =
    if cipher == ctr_aes128
    then some (record { cipher = cipher; rk = aes_setkey key; key = key })
    else (if cipher == ctr_sm4
        then some (record { cipher = cipher; rk = sm4_setkey key; key = key })
        else none)

unfoldable pub ctr_encrypt_block : CtrKey → List ℕ → List ℕ
ctr_encrypt_block k block =
    if k.cipher == ctr_sm4 then sm4_encrypt k.rk block else aes_encrypt k.rk block

-- The counter block: the nonce and the count, big-endian.
unfoldable pub counter_block : List ℕ → ℕ → List ℕ
counter_block nonce count =
    nonce ++ map (λ i. count / 2 ^ (56 - 8 * i) % 256) (0 ∷ 1 ∷ 2 ∷ 3 ∷ 4 ∷ 5 ∷ 6 ∷ 7 ∷ [])

-- The inner loop: the bytes of a unit with the keystream on them, and the bytes behind the unit.
unfoldable pub xor_unit : List ℕ → List ℕ → List ℕ × List ℕ
xor_unit [] buf = ([], buf)
xor_unit (k ∷ ks) [] = ([], [])
xor_unit (k ∷ ks) (b ∷ buf) = let (done, rest) = xor_unit ks buf in (bit_xor b k ∷ done, rest)

-- The loop over the units of 16 bytes, as many as `buf` has.
unfoldable pub crypt_units : CtrKey → List ℕ → ℕ → ℕ → List ℕ → List ℕ
crypt_units k nonce zero count buf = buf
crypt_units k nonce (suc left) count buf =
    let (done, rest) = xor_unit (ctr_encrypt_block k (counter_block nonce count)) buf in
    done ++ crypt_units k nonce left ((count + 1) % 2 ^ 64) rest

unfoldable pub ctr_crypt_block_sw : CtrKey → List ℕ → ℕ → List ℕ → List ℕ
ctr_crypt_block_sw k nonce n buf = crypt_units k nonce ((length buf + 15) / 16) (n * 256) buf

-- ctr_crypt_block with an engine (CTR_HW): the engine's result, an int, and the buffer it leaves.
-- `aligned` is whether the buffer is on a 4-byte boundary.
unfoldable pub ctr_crypt_block :
    (CtrKey → List ℕ → List ℕ → ℕ × List ℕ) → Bool → CtrKey → List ℕ → ℕ → List ℕ → ℕ × List ℕ
ctr_crypt_block hw aligned k nonce n buf =
    let (r, buf') = hw k (counter_block nonce (n * 256)) buf in
    if (length buf % 16 == 0) && aligned
    then (if ltb r (2 ^ 31)
        then (if r == 0 then 0 else neg32 1, buf')
        else (0, ctr_crypt_block_sw k nonce n buf'))
    else (0, ctr_crypt_block_sw k nonce n buf)
