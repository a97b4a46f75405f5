-- ===== src/Exfat/Clusters.antt =====
-- The clusters of a volume on the card.
use native.Mathlib.Nat.{mul-le-mul_right, mod-eq_of_lt}
use lite_forth.Common.{
  ℕ, ◌+◌, ◌-◌, ◌*◌, ◌/◌, ◌^◌, ◌≤◌, ◌<◌, ◌≡◌, refl, arith, false, ◌||◌, ltb, leb, ◌==◌, Bool-cases,
  inl, inr, pow_pos,
}
use lite_forth.Exfat.{ExfatVol, exfat_cluster_sector}

-- The clusters lie behind the FAT and within the volume, on a card of at most 2 ^ 32 sectors.
pub record IsSound (vol : ExfatVol) : Type 0 where
  pub fat_first : vol.start + 24 ≤ vol.fat
  pub fat_fits : vol.fat + (vol.clusters + 2 + 127) / 128 ≤ vol.heap
  pub heap_fits : vol.heap + vol.clusters * 2 ^ vol.spc_shift ≤ vol.start + vol.sectors
  pub card : vol.start + vol.sectors < 2 ^ 32
  pub some_cluster : 0 < vol.clusters
  pub shift : vol.spc_shift ≤ 16

-- A cluster of the volume.
pub record IsCluster (vol : ExfatVol) (c : ℕ) : Type 0 where
  pub first : 2 ≤ c
  pub last : c < vol.clusters + 2

-- What has no sector is no cluster, and the other way round.
pub exfat_cluster_sector-other :
    (vol : ExfatVol) (c : ℕ) → ¬ IsCluster vol c → exfat_cluster_sector vol c ≡ 0
unfolding exfat_cluster_sector
exfat_cluster_sector-other vol c other = elim (Bool-cases (ltb c 2 || leb vol.clusters (c - 2))) [
  | inl out ↦ rw out refl
  | inr inside ↦
      absurd (other (record { first = ground (arith, inside); last = ground (arith, inside) }))
]

pub sector-IsCluster :
    (vol : ExfatVol) (c : ℕ) → (exfat_cluster_sector vol c == 0) ≡ false → IsCluster vol c
unfolding exfat_cluster_sector
sector-IsCluster vol c h = elim (Bool-cases (ltb c 2 || leb vol.clusters (c - 2))) [
  | inl out ↦ absurd (cc (rw (out) at h))
  | inr inside ↦ record { first = ground (arith, inside); last = ground (arith, inside) }
]

module _ (vol : ExfatVol) (sound : IsSound vol) where
  -- The sectors of clusters up to c.
  span : (c d : ℕ) → c < d → c * 2 ^ vol.spc_shift + 2 ^ vol.spc_shift ≤ d * 2 ^ vol.spc_shift
  span c d h = omega (arith, mul-le-mul_right (2 ^ vol.spc_shift) h)

  pub exfat_cluster_sector_lem :
      (c : ℕ)
      → IsCluster vol c
      → exfat_cluster_sector vol c ≡ vol.heap + (c - 2) * 2 ^ vol.spc_shift
  unfolding exfat_cluster_sector
  exfat_cluster_sector_lem c k =
      let known : (ltb c 2 || leb vol.clusters (c - 2)) ≡ false = ground (arith, k.first, k.last) in
      let fits = span (c - 2) vol.clusters (omega (arith, k.first, k.last)) in
      let small : (c - 2) * 2 ^ vol.spc_shift < 2 ^ 32 =
        omega (arith, fits, pow_pos vol.spc_shift, sound.heap_fits, sound.card) in
      rw (known, mod-eq_of_lt small)
        (mod-eq_of_lt (omega (arith, fits, pow_pos vol.spc_shift, sound.heap_fits, sound.card)))

  -- On a sound volume, the sectors of a cluster c lie in its heap, those of a later cluster d lie
  -- behind them, and a number e that is no cluster has no sector.
  pub exfat_cluster_sector_bounds :
      (c d e : ℕ)
      → IsCluster vol c
      → IsCluster vol d
      → c < d
      → ¬ IsCluster vol e
      → (vol.heap ≤ exfat_cluster_sector vol c)
        × (exfat_cluster_sector vol d + 2 ^ vol.spc_shift ≤ vol.start + vol.sectors)
        × (exfat_cluster_sector vol c + 2 ^ vol.spc_shift ≤ exfat_cluster_sector vol d)
        × (exfat_cluster_sector vol e ≡ 0)
  exfat_cluster_sector_bounds c d e k k' h other =
      let at = exfat_cluster_sector_lem c k in
      let at' = exfat_cluster_sector_lem d k' in
      (
        omega (arith, at),
        omega (
          arith,
          at',
          span (d - 2) vol.clusters (omega (arith, k'.first, k'.last)),
          sound.heap_fits,
        ),
        omega (arith, at, at', span (c - 2) (d - 2) (omega (arith, k.first, h))),
        exfat_cluster_sector-other vol e other,
      )
