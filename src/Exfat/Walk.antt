-- ===== src/Exfat/Walk.antt =====
-- The cursor of a directory walk: what it keeps in range, and that each step brings the walk nearer to
-- its end, since a directory may have only so many clusters.
use native.Mathlib.Nat.{div-le_self, pow-le-pow_right}
use lite_forth.Common.{
  ℕ, suc, ◌+◌, ◌-◌, ◌*◌, ◌^◌, ◌≤◌, ◌<◌, ◌≡◌, ◌⊎◌, refl, ap, arith, ◌||◌, inl, inr, Bool-cases,
  subst, ==_iff, Bool, or_false, ltb-false, Option, none, some, ltb, leb, ltb→lt, ◌==◌,
  if◌then◌else◌, max, u32, List, pow_pos,
}
use lite_forth.Exfat.{
  Outcome, ok, fail, ExfatVol, DirCursor, FatCache, exfat_cluster_sector, fat_next, dir_entry,
  next_cluster, dir_advance, most_clusters, max_dir_bytes, dir_open, dir_fuel, fat_end,
}

pub Outcome-cases {ℓ} :
    {A : Type ℓ} (o : Outcome A) → ((a : A) × (o ≡ ok a)) ⊎ ((err : ℕ) × (o ≡ fail err))
Outcome-cases (ok a) = inl (a, refl)
Outcome-cases (fail err) = inr (err, refl)

-- The most clusters that a walk visits.
abbrev most : ExfatVol → ℕ
most vol = max (most_clusters vol) 1

pub record InDir (vol : ExfatVol) (d : DirCursor) : Type 0 where
  pub index : d.index < 16
  pub sector : d.sector < 2 ^ vol.spc_shift
  pub visited : d.visited ≤ most vol

-- The entries that a cursor may still come to, with its own.
unfoldable pub weight : ExfatVol → DirCursor → ℕ
weight vol d =
    if d.at_end == 0
    then suc (
        (15 - d.index)
        + 16 * ((2 ^ vol.spc_shift - 1 - d.sector) + 2 ^ vol.spc_shift * (most vol - d.visited)))
    else 0

pub weight-pos : (vol : ExfatVol) (d : DirCursor) → d.at_end ≡ 0 → 0 < weight vol d
unfolding weight
weight-pos vol d a = rw a (omega arith)

most-le : (vol : ExfatVol) → most vol ≤ max_dir_bytes
most-le vol = omega (arith, div-le_self max_dir_bytes (2 ^ (9 + vol.spc_shift)))

pub dir_open-InDir : (vol : ExfatVol) (c : ℕ) → InDir vol (dir_open c)
dir_open-InDir vol c = record {
  index = omega arith;
  sector = pow_pos vol.spc_shift;
  visited = omega arith;
}

pub weight-dir_open : (vol : ExfatVol) (c : ℕ) → weight vol (dir_open c) < dir_fuel vol
unfolding weight dir_fuel
weight-dir_open vol c =
    let p = 2 ^ vol.spc_shift in
    let left : most vol ≡ suc (most vol - 1) = omega arith in
    omega (arith, pow_pos vol.spc_shift, ap (λ (t : ℕ). p * t) left)

-- The same place, loaded; and a place that is nearer to the end.
abbrev SamePlace : ExfatVol → DirCursor → DirCursor → Type 0
SamePlace vol d d' = InDir vol d' × (weight vol d' ≡ weight vol d) × (d'.at_end ≡ 0)

abbrev Nearer : ExfatVol → DirCursor → DirCursor → Type 0
Nearer vol d d' = InDir vol d' × (weight vol d' < weight vol d)

abbrev Gives : (DirCursor → Type 0) → Outcome DirCursor → Type 0
Gives P (ok d) = P d
Gives P (fail err) = Unit {0}

abbrev Loads : (DirCursor → Type 0) → Outcome (Option DirCursor) → Type 0
Loads P (ok (some d)) = P d
Loads P (ok none) = Unit {0}
Loads P (fail err) = Unit {0}

module _ (vol : ExfatVol) where
  next_cluster-Gives :
      (d : DirCursor) (next : ℕ)
      → InDir vol d
      → d.at_end ≡ 0
      → Gives (Nearer vol d) (next_cluster vol d next)
  unfolding next_cluster weight
  next_cluster-Gives d next h a = elim (Bool-cases (next == fat_end)) [
    | inl last ↦
        rw (next_cluster, last)
          (
            record { index = omega arith; sector = pow_pos vol.spc_shift; visited = h.visited },
            rw a (omega arith),
          )
    | inr more ↦ elim (Bool-cases (bad || ltb (most_clusters vol) (u32 (d.visited + 1)))) [
      | inl broken ↦ rw (next_cluster, more, broken) tt
      | inr fine ↦
          (let room = ltb-false _ _ (or_false bad _ fine) in
            let same : u32 (d.visited + 1) ≡ d.visited + 1 =
              omega (arith, h.visited, most-le vol) in
            let left : most vol - d.visited ≡ suc (most vol - (d.visited + 1)) =
              omega (arith, room, same) in
            rw (next_cluster, more, fine)
              (
                record {
                  index = omega arith;
                  sector = pow_pos vol.spc_shift;
                  visited = omega (arith, room);
                },
                rw (a, same) (omega (arith, h.sector, ap (λ (t : ℕ). 2 ^ vol.spc_shift * t) left)),
              ))
    ]
  ]
    where
      bad : Bool
      bad = ltb next 2 || leb vol.clusters (next - 2)

module _ (read : ℕ → ℕ × List ℕ) (vol : ExfatVol) where
  -- The cursor with its entry loaded is at the same place.
  dir_entry-Loads : (d : DirCursor) → InDir vol d → Loads (SamePlace vol d) (dir_entry read vol d)
  unfolding dir_entry weight
  dir_entry-Loads d h = elim (Bool-cases (d.at_end == 0)) [
    | inr over ↦ rw (dir_entry, over) tt
    | inl inside ↦ elim (Bool-cases (first == 0)) [
      | inl broken ↦ rw (dir_entry, inside, broken) tt
      | inr known ↦ elim (Bool-cases (sector == d.loaded)) [
        | inl there ↦ rw (dir_entry, inside, known, there) (h, refl, (==_iff _ _).0 inside)
        | inr other ↦ elim (Bool-cases ((read sector).0 == 0)) [
          | inr failed ↦ rw (dir_entry, inside, known, other, failed) tt
          | inl fine ↦
              rw (dir_entry, inside, known, other, fine)
                (
                  record { index = h.index; sector = h.sector; visited = h.visited },
                  refl,
                  (==_iff _ _).0 inside,
                )
        ]
      ]
    ]
  ]
    where
      first : ℕ
      first = exfat_cluster_sector vol d.cluster

      sector : ℕ
      sector = u32 (first + d.sector)

  pub dir_entry-InDir :
      (d d' : DirCursor)
      → dir_entry read vol d ≡ ok (some d')
      → InDir vol d
      → InDir vol d' × (weight vol d' ≡ weight vol d) × (d'.at_end ≡ 0)
  dir_entry-InDir d d' e h = subst (Loads (SamePlace vol d)) e (dir_entry-Loads d h)

  dir_advance-Gives :
      (d : DirCursor) (cache : FatCache)
      → vol.spc_shift ≤ 16
      → InDir vol d
      → d.at_end ≡ 0
      → Gives (Nearer vol d) (dir_advance read vol d cache).0
  unfolding dir_advance weight
  dir_advance-Gives d cache shift h a = elim (Bool-cases (ltb (u32 (d.index + 1)) 16)) [
    | inl same_sector ↦
        (let here = ltb→lt _ _ same_sector in
          let step : u32 (d.index + 1) ≡ d.index + 1 = omega (arith, h.index) in
          rw (dir_advance, same_sector)
            (
              record { index = here; sector = h.sector; visited = h.visited },
              rw (a, step) (omega (arith, here, step)),
            ))
    | inr next_sector ↦ elim (Bool-cases (ltb (u32 (d.sector + 1)) (u32 (2 ^ vol.spc_shift)))) [
      | inl same_cluster ↦
          (let here = ltb→lt _ _ same_cluster in
            let all : u32 (2 ^ vol.spc_shift) ≡ 2 ^ vol.spc_shift = omega (arith, small) in
            let step : u32 (d.sector + 1) ≡ d.sector + 1 = omega (arith, h.sector, small) in
            rw (dir_advance, next_sector, same_cluster)
              (
                record {
                  index = omega arith;
                  sector = omega (arith, here, all);
                  visited = h.visited;
                },
                rw (a, step) (omega (arith, here, step, all)),
              ))
      | inr other_cluster ↦ elim (Outcome-cases (fat_next read vol d.cluster cache).0) [
        | inr (err, e) ↦ rw (dir_advance, next_sector, other_cluster, e) tt
        | inl (next, e) ↦
            rw (dir_advance, next_sector, other_cluster, e) (next_cluster-Gives vol d next h a)
      ]
    ]
  ]
    where
      small : 2 ^ vol.spc_shift ≤ 2 ^ 16
      small = pow-le-pow_right (omega arith) shift

  pub dir_advance-nearer :
      (d d' : DirCursor) (cache : FatCache)
      → (dir_advance read vol d cache).0 ≡ ok d'
      → vol.spc_shift ≤ 16
      → InDir vol d
      → d.at_end ≡ 0
      → InDir vol d' × (weight vol d' < weight vol d)
  dir_advance-nearer d d' cache e shift h a =
      subst (Gives (Nearer vol d)) e (dir_advance-Gives d cache shift h a)
