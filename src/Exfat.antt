-- ===== src/Exfat.antt =====
-- The exFAT reader and its directory walk: src/exfat.c, from the bytes of a sector up to
-- dir_advance. A sector is a list of 512 bytes; reading one is a parameter, an error and the bytes.
-- What a directory holds is not changed while it is walked. The two buffers are in the state: fat_buf
-- with fat_cached, and dir_buf with the cursor that reads through it.
pub mod Mount
pub mod Sets
pub mod Find
pub mod Write
pub mod Clusters
pub mod Walk
use lite_forth.Common.{
  [], ℕ, suc, ◌+◌, ◌-◌, ◌*◌, ◌/◌, ◌%◌, ◌^◌, ◌||◌, List, ◌∷◌, Option, none, some, bit_or, ltb, leb,
  ◌==◌, if◌then◌else◌, get_or, drop, u32, neg32, max,
}

-- EXFAT_SECTOR_BYTES / 4, ENTRY_BYTES, ENTRIES_PER_SECTOR and FAT_END
abbrev pub fat_entries : ℕ
fat_entries = 128

abbrev pub entry_bytes : ℕ
entry_bytes = 32

abbrev pub entries_per_sector : ℕ
entries_per_sector = 16

abbrev pub fat_end : ℕ
fat_end = 0xFFFFFFFF

-- MAX_DIR_BYTES, 2u << 20
abbrev pub max_dir_bytes : ℕ
max_dir_bytes = 2 ^ 21

-- ERR_BLK_PARSE_FAIL
abbrev pub parse_fail : ℕ
parse_fail = neg32 91

-- A function that returns 0 with what it fills in, or an error.
pub data Outcome {ℓ} (A : Type ℓ) : Type ℓ where
  ok : A → Outcome A
  fail : ℕ → Outcome A

-- exfat_vol
pub record ExfatVol : Type 0 where
  pub start : ℕ
  pub sectors : ℕ
  pub fat : ℕ
  pub heap : ℕ
  pub clusters : ℕ
  pub root : ℕ
  pub bitmap : ℕ
  pub bitmap_bytes : ℕ
  pub spc_shift : ℕ
  pub dirty : ℕ

-- exfat_file
pub record ExfatFile : Type 0 where
  pub length : ℕ
  pub valid : ℕ
  pub first_cluster : ℕ
  pub first_sector : ℕ
  pub entry_sector : ℕ
  pub entry_offset : ℕ
  pub flags : ℕ

-- fat_cached and fat_buf
pub record FatCache : Type 0 where
  pub cached : ℕ
  pub fat_buf : List ℕ

-- dir_cursor, without the two pointers that its functions take as arguments, and dir_buf.
pub record DirCursor : Type 0 where
  pub cluster : ℕ
  pub sector : ℕ
  pub index : ℕ
  pub loaded : ℕ
  pub visited : ℕ
  pub at_end : ℕ
  pub dir_buf : List ℕ

abbrev pub le16 : List ℕ → ℕ → ℕ
le16 p i = bit_or (get_or p i 0) (get_or p (i + 1) 0 * 2 ^ 8) % 2 ^ 16

abbrev pub le32 : List ℕ → ℕ → ℕ
le32 p i = u32 (
    bit_or
      (bit_or (bit_or (get_or p i 0) (get_or p (i + 1) 0 * 2 ^ 8)) (get_or p (i + 2) 0 * 2 ^ 16))
      (get_or p (i + 3) 0 * 2 ^ 24))

abbrev pub le64 : List ℕ → ℕ → ℕ
le64 p i = bit_or (le32 p i) (le32 p (i + 4) * 2 ^ 32) % 2 ^ 64

-- Bit k of a number.
abbrev pub bit : ℕ → ℕ → ℕ
bit x k = x / 2 ^ k % 2

unfoldable pub exfat_sum16 : ℕ → List ℕ → ℕ
exfat_sum16 sum [] = sum
exfat_sum16 sum (b ∷ p) =
    exfat_sum16 (((if sum % 2 == 0 then 0 else 0x8000) + sum / 2 + b) % 2 ^ 16) p

unfoldable pub exfat_cluster_sector : ExfatVol → ℕ → ℕ
exfat_cluster_sector vol c =
    if ltb c 2 || leb vol.clusters (c - 2)
    then 0
    else u32 (vol.heap + u32 ((c - 2) * 2 ^ vol.spc_shift))

abbrev pub no_fat : FatCache
no_fat = record { cached = 0; fat_buf = [] }

-- dir_open
abbrev pub dir_open : ℕ → DirCursor
dir_open cluster = record {
  cluster = cluster;
  sector = 0;
  index = 0;
  loaded = 0;
  visited = 1;
  at_end = 0;
  dir_buf = [];
}

-- The cursor's entry, from its first byte on.
abbrev pub entry_of : DirCursor → List ℕ
entry_of d = drop (d.index * entry_bytes) d.dir_buf

-- The most clusters that a directory may have: MAX_DIR_BYTES >> (9 + spc_shift).
abbrev pub most_clusters : ExfatVol → ℕ
most_clusters vol = max_dir_bytes / 2 ^ (9 + vol.spc_shift)

-- Fuel for a walk: more than the entries of the clusters that a walk may visit.
unfoldable pub dir_fuel : ExfatVol → ℕ
dir_fuel vol = suc (16 * (2 ^ vol.spc_shift * max (most_clusters vol) 1))

-- The cluster behind the cursor's.
unfoldable pub next_cluster : ExfatVol → DirCursor → ℕ → Outcome DirCursor
next_cluster vol d next =
    if next == fat_end
    then ok (record d { sector = 0; index = 0; at_end = 1 })
    else (if ltb next 2
          || leb vol.clusters (next - 2)
          || ltb (most_clusters vol) (u32 (d.visited + 1))
        then fail parse_fail
        else ok (record d { cluster = next; sector = 0; index = 0; visited = u32 (d.visited + 1) }))

module _ (read : ℕ → ℕ × List ℕ) where
  -- The entry, or an error, and the cache.
  unfoldable pub fat_next : ExfatVol → ℕ → FatCache → Outcome ℕ × FatCache
  fat_next vol c cache =
      let sector = u32 (vol.fat + c / fat_entries) in
      let (err, buf) = read sector in
      let at = λ (p : List ℕ). le32 p (4 * (c % fat_entries)) in
      if sector == cache.cached
      then (ok (at cache.fat_buf), cache)
      else (if err == 0
          then (ok (at buf), record { cached = sector; fat_buf = buf })
          else (fail err, record { cached = 0; fat_buf = buf }))

  -- The cursor with its sector in dir_buf: `none` at the end of the chain.
  unfoldable pub dir_entry : ExfatVol → DirCursor → Outcome (Option DirCursor)
  dir_entry vol d =
      let first = exfat_cluster_sector vol d.cluster in
      let sector = u32 (first + d.sector) in
      let (err, buf) = read sector in
      if d.at_end == 0
      then (if first == 0
          then fail parse_fail
          else (if sector == d.loaded
              then ok (some d)
              else (if err == 0
                  then ok (some (record d { loaded = sector; dir_buf = buf }))
                  else fail err)))
      else ok none

  unfoldable pub dir_advance : ExfatVol → DirCursor → FatCache → Outcome DirCursor × FatCache
  unfolding next_cluster
  dir_advance vol d cache =
      let (next, cache') = fat_next vol d.cluster cache in
      if ltb (u32 (d.index + 1)) entries_per_sector
      then (ok (record d { index = u32 (d.index + 1) }), cache)
      else (if ltb (u32 (d.sector + 1)) (u32 (2 ^ vol.spc_shift))
          then (ok (record d { sector = u32 (d.sector + 1); index = 0 }), cache)
          else (elim next [ fail err ↦ fail err | ok c ↦ next_cluster vol d c ], cache'))
