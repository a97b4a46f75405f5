-- ===== src/Exfat/Mount.antt =====
-- Mounting: is_exfat_boot, take_boot, try_volume and exfat_mount of src/exfat.c.
pub mod Sound
use lite_forth.Common.{
  [], ℕ, zero, suc, ◌+◌, ◌-◌, ◌*◌, ◌/◌, ◌%◌, ◌^◌, Bool, true, false, not, ◌&&◌, ◌||◌, List, ◌∷◌,
  Option, none, some, ltb, leb, ◌==◌, if◌then◌else◌, get_or, replicate, u32, min, same_at,
}
use lite_forth.Exfat.{
  Outcome, ok, fail, ExfatVol, FatCache, DirCursor, le32, le64, bit, no_fat, dir_open, entry_of,
  exfat_cluster_sector, dir_fuel, dir_entry, dir_advance, parse_fail,
}

-- "EXFAT   "
abbrev pub exfat_name : List ℕ
exfat_name = 0x45 ∷ 0x58 ∷ 0x46 ∷ 0x41 ∷ 0x54 ∷ 0x20 ∷ 0x20 ∷ 0x20 ∷ []

-- The signature of a boot sector or an MBR.
abbrev pub has_signature : List ℕ → Bool
has_signature b = (get_or b 510 0 == 0x55) && (get_or b 511 0 == 0xAA)

unfoldable pub is_exfat_boot : List ℕ → Bool
unfolding same_at
is_exfat_boot b = same_at 3 exfat_name b && has_signature b && same_at 11 (replicate 53 0) b

-- The checks of take_boot, on the fields that it reads: true where it fails.
unfoldable pub bad_boot : (start limit length fat fat_length heap clusters spc : ℕ) → Bool
bad_boot start limit length fat fat_length heap clusters spc =
    (not (limit == 0) && ltb limit length)
    || ltb 16 spc
    || (clusters == 0)
    || ltb 0xFFFFFFFF length
    || ltb 0xFFFFFFFF (start + length)
    || ltb fat 24
    || ltb heap (fat + fat_length)
    || leb length heap
    || ltb (fat_length * 128) (clusters + 2)
    || ltb (length - heap) (clusters * 2 ^ spc)

-- The volume that take_boot fills in, with no bitmap yet.
abbrev pub boot_vol : ℕ → List ℕ → ExfatVol
boot_vol start b = record {
  start = start;
  sectors = u32 (le64 b 72);
  fat = u32 (start + le32 b 80);
  heap = u32 (start + le32 b 88);
  clusters = le32 b 92;
  root = le32 b 96;
  bitmap = 0;
  bitmap_bytes = 0;
  spc_shift = get_or b 109 0;
  dirty = bit (get_or b 106 0) 1;
}

unfoldable pub take_boot : List ℕ → ℕ → ℕ → Outcome ExfatVol
take_boot b start limit =
    let vol = boot_vol start b in
    if not (get_or b 108 0 == 9)
      || not (get_or b 110 0 == 1)
      || bad_boot start limit (le64 b 72) (le32 b 80) (le32 b 84) (le32 b 88) (le32 b 92)
          (get_or b 109 0)
    then fail parse_fail
    else (if exfat_cluster_sector vol vol.root == 0 then fail parse_fail else ok vol)

-- The volume with the bitmap that an entry of type 81 names.
unfoldable pub take_bitmap : ExfatVol → List ℕ → Outcome ExfatVol
take_bitmap vol e =
    let bytes = le64 e 24 in
    let vol' = record vol { bitmap = le32 e 20; bitmap_bytes = min bytes 0xFFFFFFFF } in
    if (exfat_cluster_sector vol' vol'.bitmap == 0) || ltb bytes (u32 (vol.clusters + 7) / 8)
    then fail parse_fail
    else ok vol'

-- The partitions of the MBR in b from entry i on: their starts and sizes.
unfoldable pub partitions : List ℕ → ℕ → ℕ → List (ℕ × ℕ)
partitions b zero i = []
partitions b (suc left) i =
    let at = 446 + i * 16 in
    let rest = partitions b left (i + 1) in
    if (get_or b (at + 4) 0 == 0x07) && not (le32 b (at + 8) == 0)
    then (le32 b (at + 8), le32 b (at + 12)) ∷ rest
    else rest

module _ (read : ℕ → ℕ × List ℕ) where
  -- The loop of try_volume over the root directory, on fuel; `none` means that it ran out.
  unfoldable pub bitmap_loop :
      ExfatVol → ℕ → DirCursor → FatCache → Option (Outcome ExfatVol × FatCache)
  bitmap_loop vol zero d cache = none
  bitmap_loop vol (suc fuel) d cache = elim (dir_entry read vol d) [
    | fail err ↦ some (fail err, cache)
    | ok none ↦ some (fail parse_fail, cache)
    | ok (some d') ↦
        let e = entry_of d' in
        let r = dir_advance read vol d' cache in
        elim (get_or e 0 0 == 0) [
          | true ↦ some (fail parse_fail, cache)
          | false ↦ elim ((get_or e 0 0 == 0x81) && (get_or e 1 0 % 2 == 0)) [
            | true ↦ some (take_bitmap vol e, cache)
            | false ↦ elim r.0 [
              | fail err ↦ some (fail err, r.1)
              | ok d'' ↦ bitmap_loop vol fuel d'' r.1
            ]
          ]
        ]
  ]

  unfoldable pub try_volume : ℕ → ℕ → FatCache → Option (Outcome ExfatVol × FatCache)
  try_volume start limit cache =
      let (err, b) = read start in
      if err == 0
      then (if is_exfat_boot b
          then elim (take_boot b start limit) [
            | fail e ↦ some (fail e, cache)
            | ok vol ↦ bitmap_loop vol (dir_fuel vol) (dir_open vol.root) cache
          ]
          else some (fail parse_fail, cache))
      else some (fail err, cache)

  -- The first partition that works, or the error of the last one.
  unfoldable pub try_partitions : List (ℕ × ℕ) → ℕ → FatCache → Option (Outcome ExfatVol)
  try_partitions [] err cache = some (fail err)
  try_partitions ((start, size) ∷ rest) err cache = elim (try_volume start size cache) [
    | none ↦ none
    | some (ok vol, cache') ↦ some (ok vol)
    | some (fail err', cache') ↦ try_partitions rest err' cache'
  ]

  unfoldable pub exfat_mount : Option (Outcome ExfatVol)
  unfolding partitions
  exfat_mount =
      let (err, b) = read 0 in
      if err == 0
      then (if is_exfat_boot b
          then elim (try_volume 0 0 no_fat) [ none ↦ none | some (r, cache) ↦ some r ]
          else (if has_signature b
              then try_partitions (partitions b 4 0) parse_fail no_fat
              else some (fail parse_fail)))
      else some (fail err)
