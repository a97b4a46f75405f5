-- ===== src/Blake2s/Rounds.antt =====
-- The compression of src/blake2s.c is F of RFC 7693.
use lite_forth.Common.{
  ℕ, ◌+◌, ◌*◌, ◌%◌, ◌/◌, ◌^◌, ◌-◌, ◌≡◌, refl, ap, ◌∙◌, Bool, true, false, List, [], ◌∷◌, ◌++◌,
  if◌then◌else◌, bit_or, bit_xor, get_or, map,
}
use lite_forth.Blake2s.{
  mix, mix_round, mix_rounds, load_words, store_words, blake2s_sigma, compressed,
}
use lite_forth.Blake2s.Rfc.{
  rfc_g, rfc_round, rfc_rounds, rfc_f, rfc_sigma, little_words, little_bytes,
}

-- Lists of 8 and of 16 words.
pub data IsEight : List ℕ → Type 0 where
  eight_words : (h0 h1 h2 h3 h4 h5 h6 h7 : ℕ) → IsEight (h0 ∷ h1 ∷ h2 ∷ h3 ∷ h4 ∷ h5 ∷ h6 ∷ h7 ∷ [])

data IsSixteen : List ℕ → Type 0 where
  sixteen :
      (v0 v1 v2 v3 v4 v5 v6 v7 v8 v9 v10 v11 v12 v13 v14 v15 : ℕ)
      → IsSixteen
          (v0 ∷ v1 ∷ v2 ∷ v3 ∷ v4 ∷ v5 ∷ v6 ∷ v7 ∷ v8 ∷ v9 ∷ v10 ∷ v11 ∷ v12 ∷ v13 ∷ v14 ∷ v15 ∷ [])

-- The columns and the diagonals that G mixes.
data IsLine : (a b c d : ℕ) → Type 0 where
  col0 : IsLine 0 4 8 12
  col1 : IsLine 1 5 9 13
  col2 : IsLine 2 6 10 14
  col3 : IsLine 3 7 11 15
  diag0 : IsLine 0 5 10 15
  diag1 : IsLine 1 6 11 12
  diag2 : IsLine 2 7 8 13
  diag3 : IsLine 3 4 9 14

-- A step that does what the RFC's does, and keeps the words.
record Agrees (v w : List ℕ) : Type 0 where
  same : v ≡ w
  words : IsSixteen v

mix-Agrees :
    (a b c d x y : ℕ) (v : List ℕ)
    → IsLine a b c d
    → IsSixteen v
    → Agrees (mix a b c d x y v) (rfc_g a b c d x y v)
unfolding mix rfc_g
mix-Agrees _ _ _ _ x y _ col0 (sixteen v0 v1 v2 v3 v4 v5 v6 v7 v8 v9 v10 v11 v12 v13 v14 v15) =
    record { same = refl; words = sixteen _ _ _ _ _ _ _ _ _ _ _ _ _ _ _ _ }
mix-Agrees _ _ _ _ x y _ col1 (sixteen v0 v1 v2 v3 v4 v5 v6 v7 v8 v9 v10 v11 v12 v13 v14 v15) =
    record { same = refl; words = sixteen _ _ _ _ _ _ _ _ _ _ _ _ _ _ _ _ }
mix-Agrees _ _ _ _ x y _ col2 (sixteen v0 v1 v2 v3 v4 v5 v6 v7 v8 v9 v10 v11 v12 v13 v14 v15) =
    record { same = refl; words = sixteen _ _ _ _ _ _ _ _ _ _ _ _ _ _ _ _ }
mix-Agrees _ _ _ _ x y _ col3 (sixteen v0 v1 v2 v3 v4 v5 v6 v7 v8 v9 v10 v11 v12 v13 v14 v15) =
    record { same = refl; words = sixteen _ _ _ _ _ _ _ _ _ _ _ _ _ _ _ _ }
mix-Agrees _ _ _ _ x y _ diag0 (sixteen v0 v1 v2 v3 v4 v5 v6 v7 v8 v9 v10 v11 v12 v13 v14 v15) =
    record { same = refl; words = sixteen _ _ _ _ _ _ _ _ _ _ _ _ _ _ _ _ }
mix-Agrees _ _ _ _ x y _ diag1 (sixteen v0 v1 v2 v3 v4 v5 v6 v7 v8 v9 v10 v11 v12 v13 v14 v15) =
    record { same = refl; words = sixteen _ _ _ _ _ _ _ _ _ _ _ _ _ _ _ _ }
mix-Agrees _ _ _ _ x y _ diag2 (sixteen v0 v1 v2 v3 v4 v5 v6 v7 v8 v9 v10 v11 v12 v13 v14 v15) =
    record { same = refl; words = sixteen _ _ _ _ _ _ _ _ _ _ _ _ _ _ _ _ }
mix-Agrees _ _ _ _ x y _ diag3 (sixteen v0 v1 v2 v3 v4 v5 v6 v7 v8 v9 v10 v11 v12 v13 v14 v15) =
    record { same = refl; words = sixteen _ _ _ _ _ _ _ _ _ _ _ _ _ _ _ _ }

-- One more line, mixed by both.
next_line :
    (a b c d x y : ℕ) (v w : List ℕ)
    → IsLine a b c d
    → Agrees v w
    → Agrees (mix a b c d x y v) (rfc_g a b c d x y w)
next_line a b c d x y v w line before =
    let here = mix-Agrees a b c d x y v line before.words in
    record { same = here.same ∙ ap (rfc_g a b c d x y) before.same; words = here.words }

mix_round-Agrees : (m s v : List ℕ) → IsSixteen v → Agrees (mix_round m s v) (rfc_round m s v)
unfolding mix_round rfc_round
mix_round-Agrees m s v h = next_line 3 4 9 14 _ _ _ _ diag3 (
    next_line 2 7 8 13 _ _ _ _ diag2 (
      next_line 1 6 11 12 _ _ _ _ diag1 (
        next_line 0 5 10 15 _ _ _ _ diag0 (
          next_line 3 7 11 15 _ _ _ _ col3 (
            next_line 2 6 10 14 _ _ _ _ col2 (
              next_line 1 5 9 13 _ _ _ _ col1
                (next_line 0 4 8 12 _ _ _ _ col0 (record { same = refl; words = h }))))))))

mix_rounds-rfc_rounds :
    (m : List ℕ) (rows : List (List ℕ)) (v : List ℕ)
    → IsSixteen v
    → mix_rounds m rows v ≡ rfc_rounds m rows v
unfolding mix_rounds rfc_rounds
mix_rounds-rfc_rounds m [] v h = refl
mix_rounds-rfc_rounds m (s ∷ rows) v h =
    let here = mix_round-Agrees m s v h in
    mix_rounds-rfc_rounds m rows (mix_round m s v) here.words ∙ ap (rfc_rounds m rows) here.same

pub load_words-little_words : (bytes : List ℕ) → load_words bytes ≡ little_words bytes
unfolding load_words little_words
load_words-little_words [] = refl
load_words-little_words (a ∷ []) = refl
load_words-little_words (a ∷ b ∷ []) = refl
load_words-little_words (a ∷ b ∷ c ∷ []) = refl
load_words-little_words (a ∷ b ∷ c ∷ d ∷ rest) =
    ap (λ t. bit_or (bit_or (bit_or a (b * 2 ^ 8)) (c * 2 ^ 16)) (d * 2 ^ 24) ∷ t)
      (load_words-little_words rest)

pub store_words-little_bytes : (ws : List ℕ) → store_words ws ≡ little_bytes ws
unfolding store_words little_bytes
store_words-little_bytes [] = refl
store_words-little_bytes (w ∷ ws) =
    ap (λ t. w % 256 ∷ w / 2 ^ 8 % 256 ∷ w / 2 ^ 16 % 256 ∷ w / 2 ^ 24 % 256 ∷ t)
      (store_words-little_bytes ws)

-- The end of the compression.
abbrev folded : List ℕ → List ℕ → List ℕ
folded h v =
    map (λ i. bit_xor (get_or h i 0) (bit_xor (get_or v i 0) (get_or v (i + 8) 0)))
      (0 ∷ 1 ∷ 2 ∷ 3 ∷ 4 ∷ 5 ∷ 6 ∷ 7 ∷ [])

-- What the compression makes of a block, at a 64-bit count.
pub compressed-rfc_f :
    (h block : List ℕ) (t : ℕ) (last : Bool)
    → IsEight h
    → compressed h (t % 2 ^ 32) (t / 2 ^ 32 % 2 ^ 32) (if last then 2 ^ 32 - 1 else 0) 0 block
      ≡ rfc_f h block t last
unfolding compressed rfc_f
compressed-rfc_f _ block t false (eight_words h0 h1 h2 h3 h4 h5 h6 h7) =
    let h = h0 ∷ h1 ∷ h2 ∷ h3 ∷ h4 ∷ h5 ∷ h6 ∷ h7 ∷ [] in
    let start =
      h
      ++ (0x6A09E667
          ∷ 0xBB67AE85
          ∷ 0x3C6EF372
          ∷ 0xA54FF53A
          ∷ bit_xor (t % 2 ^ 32) 0x510E527F
          ∷ bit_xor (t / 2 ^ 32 % 2 ^ 32) 0x9B05688C
          ∷ 0x1F83D9AB
          ∷ 0x5BE0CD19
          ∷ []) in
    ap (folded h) (
      ap (λ m. mix_rounds m blake2s_sigma start) (load_words-little_words block)
      ∙ mix_rounds-rfc_rounds (little_words block) rfc_sigma start
          (sixteen _ _ _ _ _ _ _ _ _ _ _ _ _ _ _ _))
compressed-rfc_f _ block t true (eight_words h0 h1 h2 h3 h4 h5 h6 h7) =
    let h = h0 ∷ h1 ∷ h2 ∷ h3 ∷ h4 ∷ h5 ∷ h6 ∷ h7 ∷ [] in
    let start =
      h
      ++ (0x6A09E667
          ∷ 0xBB67AE85
          ∷ 0x3C6EF372
          ∷ 0xA54FF53A
          ∷ bit_xor (t % 2 ^ 32) 0x510E527F
          ∷ bit_xor (t / 2 ^ 32 % 2 ^ 32) 0x9B05688C
          ∷ 0xE07C2654
          ∷ 0x5BE0CD19
          ∷ []) in
    ap (folded h) (
      ap (λ m. mix_rounds m blake2s_sigma start) (load_words-little_words block)
      ∙ mix_rounds-rfc_rounds (little_words block) rfc_sigma start
          (sixteen _ _ _ _ _ _ _ _ _ _ _ _ _ _ _ _))

pub compressed-IsEight :
    (h block : List ℕ) (t0 t1 f0 f1 : ℕ) → IsEight (compressed h t0 t1 f0 f1 block)
unfolding compressed
compressed-IsEight h block t0 t1 f0 f1 = eight_words _ _ _ _ _ _ _ _
