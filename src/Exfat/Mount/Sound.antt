-- ===== src/Exfat/Mount/Sound.antt =====
-- What a mounted volume is sure of.
use native.Mathlib.Nat.{mod-eq_of_lt, mul-le-mul_left}
use lite_forth.Common.{
  ℕ, zero, suc, ◌+◌, ◌-◌, ◌*◌, ◌/◌, ◌%◌, ◌^◌, ◌≤◌, ◌<◌, ◌≡◌, subst, or_false, or_false', Bool, ◌&&◌,
  arith, false, ◌||◌, not, ltb, ◌==◌, pow_pos, u32, min, List, [], ◌∷◌, Option, some, none, get_or,
  Bool-cases, inl, inr,
}
use lite_forth.Exfat.{
  ExfatVol, Outcome, ok, fail, FatCache, DirCursor, exfat_cluster_sector, le32, le64, parse_fail,
  entry_of, dir_entry, dir_advance, dir_open, no_fat, dir_fuel,
}
use lite_forth.Exfat.Walk.{Outcome-cases}
use lite_forth.Exfat.Mount.{
  bad_boot, take_boot, take_bitmap, bitmap_loop, try_volume, try_partitions, partitions,
  has_signature, is_exfat_boot, exfat_mount, boot_vol,
}
use lite_forth.Exfat.Clusters.{IsSound, IsCluster, sector-IsCluster}

module _ (start limit length fat fat_length heap clusters spc : ℕ)
    (good : bad_boot start limit length fat fat_length heap clusters spc ≡ false) where
  geometry :
      (spc ≤ 16)
      × (0 < clusters)
      × (length < 2 ^ 32)
      × (start + length < 2 ^ 32)
      × (24 ≤ fat)
      × (fat + fat_length ≤ heap)
      × (heap < length)
      × (clusters + 2 ≤ fat_length * 128)
      × (clusters * 2 ^ spc ≤ length - heap)
  unfolding bad_boot
  geometry = ground arith

-- A volume as exfat_mount promises it: sound, its root and its bitmap on clusters of it, and the
-- bitmap with a bit for each cluster.
pub record IsMounted (vol : ExfatVol) : Type 0 where
  pub sound : IsSound vol
  pub root : IsCluster vol vol.root
  pub bitmap : IsCluster vol vol.bitmap
  pub bits : vol.clusters ≤ 8 * vol.bitmap_bytes

-- Every volume that comes out has the property.
abbrev Gives : (ExfatVol → Type 0) → Outcome ExfatVol → Type 0
Gives P (ok vol) = P vol
Gives P (fail err) = Unit {0}

abbrev Filled : Option (Outcome ExfatVol × FatCache) → Type 0
Filled none = Unit {0}
Filled (some (r, cache)) = Gives IsMounted r

record IsBoot (vol : ExfatVol) : Type 0 where
  sound : IsSound vol
  root : IsCluster vol vol.root

boot_vol-IsSound :
    (start limit : ℕ) (b : List ℕ)
    → bad_boot start limit
        (le64 b 72)
        (le32 b 80)
        (le32 b 84)
        (le32 b 88)
        (le32 b 92)
        (get_or b 109 0)
      ≡ false
    → IsSound (boot_vol start b)
boot_vol-IsSound start limit b good =
    let g =
      geometry start limit (le64 b 72) (le32 b 80) (le32 b 84) (le32 b 88) (le32 b 92)
        (get_or b 109 0) good in
    let length = le64 b 72 in
    let fat = le32 b 80 in
    let heap = le32 b 88 in
    let e1 : u32 length ≡ length = mod-eq_of_lt g.2 in
    let e2 : u32 (start + fat) ≡ start + fat = mod-eq_of_lt (omega (arith, g.3, g.5, g.6)) in
    let e3 : u32 (start + heap) ≡ start + heap = mod-eq_of_lt (omega (arith, g.3, g.6)) in
    record {
      fat_first = omega (arith, e2, g.4);
      fat_fits = omega (arith, e2, e3, g.5, g.7);
      heap_fits = omega (arith, e1, e3, g.6, g.8);
      card = omega (arith, e1, g.3);
      some_cluster = g.1;
      shift = g.0;
    }

take_boot-IsBoot : (b : List ℕ) (start limit : ℕ) → Gives IsBoot (take_boot b start limit)
unfolding take_boot
take_boot-IsBoot b start limit = elim (Bool-cases refused) [
  | inl bad ↦ rw bad tt
  | inr good ↦ elim (Bool-cases (exfat_cluster_sector vol vol.root == 0)) [
    | inl no_root ↦ rw (good, no_root) tt
    | inr root ↦
        rw (good, root)
          (record {
            sound = boot_vol-IsSound start limit b (or_false first _ good);
            root = sector-IsCluster vol vol.root root;
          })
  ]
]
  where
    vol : ExfatVol
    vol = boot_vol start b

    first : Bool
    first = not (get_or b 108 0 == 9) || not (get_or b 110 0 == 1)

    refused : Bool
    refused =
        first
        || bad_boot start limit (le64 b 72) (le32 b 80) (le32 b 84) (le32 b 88) (le32 b 92)
            (get_or b 109 0)

take_bitmap-IsMounted :
    (vol : ExfatVol) (e : List ℕ) → IsBoot vol → Gives IsMounted (take_bitmap vol e)
unfolding take_bitmap
take_bitmap-IsMounted vol e boot = elim (Bool-cases (no_cluster || short)) [
  | inl bad ↦ rw bad tt
  | inr good ↦ rw good (record {
    sound = record {
      fat_first = boot.sound.fat_first;
      fat_fits = boot.sound.fat_fits;
      heap_fits = boot.sound.heap_fits;
      card = boot.sound.card;
      some_cluster = boot.sound.some_cluster;
      shift = boot.sound.shift;
    };
    root = record { first = boot.root.first; last = boot.root.last };
    bitmap = sector-IsCluster vol' vol'.bitmap (or_false' no_cluster short good);
    bits = enough (or_false no_cluster short good);
  })
]
  where
    vol' : ExfatVol
    vol' = record vol { bitmap = le32 e 20; bitmap_bytes = min (le64 e 24) 0xFFFFFFFF }

    no_cluster : Bool
    no_cluster = exfat_cluster_sector vol' vol'.bitmap == 0

    short : Bool
    short = ltb (le64 e 24) (u32 (vol.clusters + 7) / 8)

    enough : short ≡ false → vol.clusters ≤ 8 * min (le64 e 24) 0xFFFFFFFF
    enough long =
        let vol_bound : vol.clusters * 1 ≤ vol.clusters * 2 ^ vol.spc_shift =
          mul-le-mul_left vol.clusters (pow_pos vol.spc_shift) in
        let bytes : u32 (vol.clusters + 7) / 8 ≤ le64 e 24 = ground (arith, long) in
        omega (arith, bytes, boot.sound.fat_fits, boot.sound.heap_fits, boot.sound.card, vol_bound)

module _ (read : ℕ → ℕ × List ℕ) where
  bitmap_loop-Filled :
      (vol : ExfatVol) (fuel : ℕ) (d : DirCursor) (cache : FatCache)
      → IsBoot vol
      → Filled (bitmap_loop read vol fuel d cache)
  unfolding bitmap_loop
  bitmap_loop-Filled vol zero d cache boot = tt
  bitmap_loop-Filled vol (suc fuel) d cache boot = elim (Outcome-cases (dir_entry read vol d)) [
    | inr (err, e) ↦ rw (bitmap_loop, e) tt
    | inl (none, e) ↦ rw (bitmap_loop, e) tt
    | inl (some d', e) ↦ elim (Bool-cases (get_or (entry_of d') 0 0 == 0)) [
      | inl over ↦ rw (bitmap_loop, e, over) tt
      | inr more ↦
          elim (Bool-cases
            ((get_or (entry_of d') 0 0 == 0x81) && (get_or (entry_of d') 1 0 % 2 == 0))) [
              | inl found ↦
                  rw (bitmap_loop, e, more, found) (take_bitmap-IsMounted vol (entry_of d') boot)
              | inr other ↦ elim (Outcome-cases (dir_advance read vol d' cache).0) [
                | inr (err, a) ↦ rw (bitmap_loop, e, more, other, a) tt
                | inl (d'', a) ↦
                    rw (bitmap_loop, e, more, other, a)
                      (bitmap_loop-Filled vol fuel d'' (dir_advance read vol d' cache).1 boot)
              ]
            ]
    ]
  ]

  boot_loop-Filled :
      (o : Outcome ExfatVol) (cache : FatCache)
      → Gives IsBoot o
      → Filled (elim o [
        | fail e ↦ some (fail e, cache)
        | ok vol ↦ bitmap_loop read vol (dir_fuel vol) (dir_open vol.root) cache
      ])
  boot_loop-Filled (fail e) cache h = tt
  boot_loop-Filled (ok vol) cache h =
      bitmap_loop-Filled vol (dir_fuel vol) (dir_open vol.root) cache h

  try_volume-Filled :
      (start limit : ℕ) (cache : FatCache) → Filled (try_volume read start limit cache)
  unfolding try_volume
  try_volume-Filled start limit cache = elim (Bool-cases ((read start).0 == 0)) [
    | inr failed ↦ rw failed tt
    | inl fine ↦ elim (Bool-cases (is_exfat_boot (read start).1)) [
      | inr other ↦ rw (fine, other) tt
      | inl boot ↦
          rw (fine, boot)
            (boot_loop-Filled (take_boot (read start).1 start limit) cache
              (take_boot-IsBoot (read start).1 start limit))
    ]
  ]

  abbrev FilledOnly : Option (Outcome ExfatVol) → Type 0
  FilledOnly none = Unit {0}
  FilledOnly (some r) = Gives IsMounted r

  forget :
      (r : Option (Outcome ExfatVol × FatCache))
      → Filled r
      → FilledOnly (elim r [ none ↦ none | some (o, cache) ↦ some o ])
  forget none h = tt
  forget (some (o, cache)) h = h

  or_next :
      (r : Option (Outcome ExfatVol × FatCache)) (next : ℕ → FatCache → Option (Outcome ExfatVol))
      → Filled r
      → ((err : ℕ) (cache : FatCache) → FilledOnly (next err cache))
      → FilledOnly (elim r [
        | none ↦ none
        | some (ok vol, cache) ↦ some (ok vol)
        | some (fail err, cache) ↦ next err cache
      ])
  or_next none next h k = tt
  or_next (some (ok vol, cache)) next h k = h
  or_next (some (fail err, cache)) next h k = k err cache

  try_partitions-FilledOnly :
      (parts : List (ℕ × ℕ)) (err : ℕ) (cache : FatCache)
      → FilledOnly (try_partitions read parts err cache)
  unfolding try_partitions
  try_partitions-FilledOnly [] err cache = tt
  try_partitions-FilledOnly ((start, size) ∷ rest) err cache =
      or_next (try_volume read start size cache) (try_partitions read rest)
        (try_volume-Filled start size cache)
        (λ err' cache'. try_partitions-FilledOnly rest err' cache')

  exfat_mount-FilledOnly : FilledOnly (exfat_mount read)
  unfolding exfat_mount
  exfat_mount-FilledOnly = elim (Bool-cases ((read 0).0 == 0)) [
    | inr failed ↦ rw failed tt
    | inl fine ↦ elim (Bool-cases (is_exfat_boot (read 0).1)) [
      | inl boot ↦
          rw (fine, boot) (forget (try_volume read 0 0 no_fat) (try_volume-Filled 0 0 no_fat))
      | inr other ↦ elim (Bool-cases (has_signature (read 0).1)) [
        | inr unsigned ↦ rw (fine, other, unsigned) tt
        | inl signed ↦
            rw (fine, other, signed)
              (try_partitions-FilledOnly (partitions (read 0).1 4 0) parse_fail no_fat)
      ]
    ]
  ]

  -- Whatever is on the card, a volume that exfat_mount takes is sound: its FAT has an entry for each
  -- cluster and lies before the heap, the heap lies within the volume, and its root directory and its
  -- bitmap, which has a bit for each cluster, start at clusters of it.
  pub exfat_mount-IsMounted : (vol : ExfatVol) → exfat_mount read ≡ some (ok vol) → IsMounted vol
  exfat_mount-IsMounted vol h = subst FilledOnly h (exfat_mount-FilledOnly)
