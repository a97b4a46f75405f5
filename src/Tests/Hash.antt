-- ===== src/Tests/Hash.antt =====
-- BLAKE2s on the vector of RFC 7693, appendix B, and in pieces.
use lite_forth.Common.{ℕ, ◌-◌, ◌^◌, ◌≡◌, refl, arith, List, [], ◌∷◌, Option, some, none, replicate}
use lite_forth.Blake2s.{HashState, b2s_init, b2s_hmac_puts, b2s_hmac_final, compressed}
use lite_forth.Blake2s.Stream.{putcs, b2s_hmac_puts-putcs}
use lite_forth.Blake2s.Rfc.{blake2s}
use lite_forth.Blake2s.Refine.{digest, puts_all, join_all, b2s_hmac_final-blake2s}

abbrev hashed : Option HashState → List (List ℕ) → Option (List ℕ)
hashed none chunks = none
hashed (some s) chunks = digest (b2s_hmac_final (puts_all s chunks))

abbrev abc : List ℕ
abc = 0x61 ∷ 0x62 ∷ 0x63 ∷ []

abc_vector :
    hashed (b2s_init 32 [] none none) (abc ∷ [])
    ≡ some (
        0x50 ∷ 0x8C ∷ 0x5E ∷ 0x8C ∷ 0x32 ∷ 0x7C ∷ 0x14 ∷ 0xE2 ∷ 0xE1 ∷ 0xA7 ∷ 0x2B ∷ 0xA3 ∷ 0x4E
        ∷ 0xEB ∷ 0x45 ∷ 0x2F ∷ 0x37 ∷ 0x45 ∷ 0x8B ∷ 0x20 ∷ 0x9E ∷ 0xD6 ∷ 0x3A ∷ 0x29 ∷ 0x4D ∷ 0x99
        ∷ 0x9B ∷ 0x4C ∷ 0x86 ∷ 0x67 ∷ 0x59 ∷ 0x82 ∷ [])
unfolding b2s_init b2s_hmac_puts b2s_hmac_final compressed
abc_vector = refl

-- 70 bytes, more than a block.
abbrev long : List ℕ
long = replicate 70 7

abbrev half_full : HashState
half_full = record {
  h = replicate 8 1;
  t0 = 2 ^ 32 - 64;
  t1 = 0;
  f0 = 0;
  f1 = 0;
  buf = replicate 30 2;
  outlen = 32;
  last_node = 0;
}

b2s_hmac_puts-putcs_example : b2s_hmac_puts half_full long ≡ putcs half_full long
b2s_hmac_puts-putcs_example = b2s_hmac_puts-putcs half_full long (omega arith)

b2s_hmac_final-blake2s_example :
    (s : HashState) × (b2s_init 16 abc none (some (replicate 8 5)) ≡ some s)
    × (digest (b2s_hmac_final (puts_all s (long ∷ abc ∷ [])))
        ≡ some (blake2s 16 abc none (some (replicate 8 5)) (join_all (long ∷ abc ∷ []))))
b2s_hmac_final-blake2s_example =
    b2s_hmac_final-blake2s 16 abc none (some (replicate 8 5)) (long ∷ abc ∷ []) (omega arith)
      (omega arith) (omega arith)
