-- ===== src/Exfat/Write/Disjoint.antt =====
-- find_free after bitmap_mark, as exfat_create calls them for one file after another.
use lite_forth.Common.{
  ℕ, ◌+◌, ◌-◌, ◌/◌, ◌^◌, ◌≤◌, ◌<◌, ◌≡◌, ◌⊎◌, refl, subst, ◌∙◌, arith, true, ◌&&◌, List, ltb, leb,
  Bool-cases, inl, inr,
}
use lite_forth.Exfat.{ok, ExfatVol}
use lite_forth.Exfat.Write.{sector_bits, find_free, bitmap_mark}
use lite_forth.Exfat.Write.Bitmap.{Behaves, bitmap_bit, bitmap_mark_lem, bitmap_mark-low}
use lite_forth.Exfat.Write.Free.{IsLowest, find_free_lem}

module _ {K : Type 0} (read : K → ℕ → ℕ × List ℕ) (write : K → ℕ → List ℕ → ℕ × K)
    (behaves : Behaves read write) (vol : ExfatVol) (start : ℕ) (card : K) where
  -- A cluster that was marked is not free.
  marked-taken :
      (first n k : ℕ)
      → 2 ≤ first
      → first - 2 + n ≤ 2 ^ 32 - sector_bits
      → start + (first + n) / sector_bits < 2 ^ 32
      → first ≤ k + 2
      → k + 2 < first + n
      → bitmap_bit (read (bitmap_mark read write start first n true card).1) start k ≡ 1
  marked-taken first n k p q r low high =
      let inside : (leb first (k + 2) && ltb (k + 2) (first + n)) ≡ true =
        ground (arith, low, high) in
      let bit = (bitmap_mark_lem read write behaves start first n k true card p q r).1 in
      bit ∙ rw inside refl

  -- On a card that behaves: once bitmap_mark has succeeded in taking the clusters that find_free
  -- gave, the clusters that find_free gives next have none of them. Both runs have a cluster at
  -- least, and the volume's clusters and the bitmap's sectors have numbers of 32 bits.
  pub find_free-disjoint :
      (n m first second : ℕ)
      → vol.clusters + 2 < 2 ^ 32
      → start + (vol.clusters + 2) / sector_bits < 2 ^ 32
      → 0 < n
      → 0 < m
      → find_free (read card) vol start n ≡ ok first
      → (bitmap_mark read write start first n true card).0 ≡ 0
      → find_free (read (bitmap_mark read write start first n true card).1) vol start m ≡ ok second
      → (first + n ≤ second) ⊎ (second + m ≤ first)
  find_free-disjoint n m first second small room p q found taken again =
      let card' = (bitmap_mark read write start first n true card).1 in
      let here = subst (IsLowest (read card) start n vol.clusters) found (
        find_free_lem (read card) vol start n (behaves.reads card) (omega (arith, room))
          (omega (arith, small)) p) in
      let there = subst (IsLowest (read card') start m vol.clusters) again (
        find_free_lem (read card') vol start m (behaves.reads card') (omega (arith, room))
          (omega (arith, small)) q) in
      let low =
        bitmap_mark-low read write behaves start first n true card here.0
          (omega (arith, here, small)) p taken in
      let clash : (k : ℕ)
          → first ≤ k + 2
          → k + 2 < first + n
          → second ≤ k + 2
          → k + 2 < second + m
          → ⊥ =
        λ k a b c d. omega (
          arith,
          marked-taken first n k here.0 low (omega (arith, here, room)) a b,
          there.2 k (omega (arith, c)) (omega (arith, d, there)),
        ) in
      elim (Bool-cases (leb (first + n) second)) [
        | inl behind ↦ inl (ground (arith, behind))
        | inr not_behind ↦ elim (Bool-cases (leb (second + m) first)) [
          | inl before ↦ inr (ground (arith, before))
          | inr not_before ↦ elim (Bool-cases (leb first second)) [
            | inl later ↦ absurd (
                clash (second - 2) (ground (arith, later, there.0))
                  (ground (arith, not_behind, there.0)) (ground (arith, there.0))
                  (ground (arith, q, there.0)))
            | inr earlier ↦ absurd (
                clash (first - 2) (ground (arith, here.0)) (ground (arith, p, here.0))
                  (ground (arith, earlier, here.0)) (ground (arith, not_before, here.0)))
          ]
        ]
      ]
