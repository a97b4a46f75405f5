-- ===== src/Tests/Crypt.antt =====
-- The ciphers on published vectors (FIPS-197 appendix B's key schedule data in C.1, and GB/T
-- 32907-2016 appendix A), and counter mode.
use lite_forth.Common.{
  All, length, ℕ, ◌*◌, ◌≡◌, refl, arith, List, [], ◌∷◌, ◌++◌, map, get_or, bit_xor,
}
use lite_forth.Ctr.{
  CtrKey, aes_setkey, aes_encrypt, sm4_setkey, sm4_encrypt, ctr_encrypt_block, counter_block,
  ctr_crypt_block_sw,
}
use lite_forth.Ctr.Stream.{IsByte, ctr_crypt_block_sw-twice}
use lite_forth.Ctr.Positions.{ctr_crypt_block_sw_at}

abbrev counting : List ℕ
counting = 0 ∷ 1 ∷ 2 ∷ 3 ∷ 4 ∷ 5 ∷ 6 ∷ 7 ∷ 8 ∷ 9 ∷ 10 ∷ 11 ∷ 12 ∷ 13 ∷ 14 ∷ 15 ∷ []

aes_vector :
    aes_encrypt (aes_setkey counting) (map (λ i. 17 * i) counting)
    ≡ 0x69 ∷ 0xC4 ∷ 0xE0 ∷ 0xD8 ∷ 0x6A ∷ 0x7B ∷ 0x04 ∷ 0x30 ∷ 0xD8 ∷ 0xCD ∷ 0xB7 ∷ 0x80 ∷ 0x70
      ∷ 0xB4 ∷ 0xC5 ∷ 0x5A ∷ []
unfolding aes_encrypt aes_setkey
aes_vector = refl

abbrev sm4_data : List ℕ
sm4_data =
    0x01 ∷ 0x23 ∷ 0x45 ∷ 0x67 ∷ 0x89 ∷ 0xAB ∷ 0xCD ∷ 0xEF ∷ 0xFE ∷ 0xDC ∷ 0xBA ∷ 0x98 ∷ 0x76 ∷ 0x54
    ∷ 0x32 ∷ 0x10 ∷ []

sm4_vector :
    sm4_encrypt (sm4_setkey sm4_data) sm4_data
    ≡ 0x68 ∷ 0x1E ∷ 0xDF ∷ 0x34 ∷ 0xD2 ∷ 0x06 ∷ 0x96 ∷ 0x5E ∷ 0x86 ∷ 0xB3 ∷ 0xE9 ∷ 0x4F ∷ 0x53
      ∷ 0x6E ∷ 0x42 ∷ 0x46 ∷ []
unfolding sm4_encrypt sm4_setkey
sm4_vector = refl

abbrev expanded : CtrKey
expanded = record { cipher = 1; rk = aes_setkey counting; key = counting }

-- 18 bytes: a unit and a part of the next.
abbrev message : List ℕ
message = counting ++ (200 ∷ 255 ∷ [])

abbrev nonce : List ℕ
nonce = 9 ∷ 8 ∷ 7 ∷ 6 ∷ 5 ∷ 4 ∷ 3 ∷ 2 ∷ []

message-All : All IsByte message
message-All = (
  omega arith,
  (
    omega arith,
    (
      omega arith,
      (
        omega arith,
        (
          omega arith,
          (
            omega arith,
            (
              omega arith,
              (
                omega arith,
                (
                  omega arith,
                  (
                    omega arith,
                    (
                      omega arith,
                      (
                        omega arith,
                        (
                          omega arith,
                          (
                            omega arith,
                            (omega arith, (omega arith, (omega arith, (omega arith, tt)))),
                          ),
                        ),
                      ),
                    ),
                  ),
                ),
              ),
            ),
          ),
        ),
      ),
    ),
  ),
)

ctr_crypt_block_sw-twice_example :
    (ctr_crypt_block_sw expanded nonce 5 (ctr_crypt_block_sw expanded nonce 5 message) ≡ message)
    × (length (ctr_crypt_block_sw expanded nonce 5 message) ≡ 18)
ctr_crypt_block_sw-twice_example = ctr_crypt_block_sw-twice expanded nonce 5 message message-All

ctr_crypt_block_sw_at_example :
    get_or (ctr_crypt_block_sw expanded nonce 5 message) 17 0
    ≡ bit_xor 255 (get_or (ctr_encrypt_block expanded (counter_block nonce 1281)) 1 0)
ctr_crypt_block_sw_at_example =
    ctr_crypt_block_sw_at expanded nonce refl 5 1 1 message (omega arith) (omega arith)
      (omega arith)
