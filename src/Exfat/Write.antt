-- ===== src/Exfat/Write.antt =====
-- The allocation bitmap and the entry sets that are written: bitmap_start, bitmap_mark, find_free,
-- set_checksum, exfat_trim and exfat_delete of src/exfat.c. A card is a state that is read and
-- written by sectors. bitmap_start begins with no FAT sector cached.
pub mod Create
pub mod Bits
pub mod Bitmap
pub mod Free
pub mod Disjoint
use lite_forth.Common.{
  [], ℕ, zero, suc, ◌+◌, ◌-◌, ◌*◌, ◌/◌, ◌%◌, ◌^◌, Bool, true, false, not, ◌&&◌, ◌||◌, List, ◌∷◌,
  ◌++◌, bit_and, bit_or, ltb, leb, ◌==◌, if◌then◌else◌, get_or, set, take, drop, u32, sub32, neg32,
  min, max,
}
use lite_forth.Exfat.{
  Outcome, ok, fail, ExfatVol, ExfatFile, FatCache, le16, le32, le64, bit, no_fat, exfat_sum16,
  exfat_cluster_sector, fat_next, parse_fail, entry_bytes,
}
use lite_forth.Exfat.Sets.{clusters_of, first_sum}

-- Where the fuel ran out: no int has this value.
abbrev pub fuel_out : ℕ
fuel_out = 2 ^ 32

-- EXFAT_SECTOR_BYTES * 8, and ERR_CREATE_FILE_FAILED, ERR_DELETE_FILE_FAILED, ERR_FILE_SIZE_FAILED
abbrev pub sector_bits : ℕ
sector_bits = 4096

abbrev pub create_failed : ℕ
create_failed = neg32 63

abbrev pub delete_failed : ℕ
delete_failed = neg32 64

abbrev pub size_failed : ℕ
size_failed = neg32 66

-- Bytes put into a buffer from i on.
unfoldable pub put_bytes : ℕ → List ℕ → List ℕ → List ℕ
put_bytes i [] buf = buf
put_bytes i (b ∷ bs) buf = put_bytes (i + 1) bs (set buf i b)

abbrev pub put16 : ℕ → List ℕ
put16 x = x % 256 ∷ x / 2 ^ 8 % 256 ∷ []

abbrev pub put32 : ℕ → List ℕ
put32 x = put16 (x % 2 ^ 16) ++ put16 (x / 2 ^ 16 % 2 ^ 16)

abbrev pub put64 : ℕ → List ℕ
put64 x = put32 (x % 2 ^ 32) ++ put32 (x / 2 ^ 32)

-- The inner loop of bitmap_mark: the bits from i on, of a sector.
unfoldable pub mark_bits : Bool → ℕ → ℕ → List ℕ → List ℕ
mark_bits value zero i b = b
mark_bits value (suc left) i b =
    let old = get_or b (i / 8) 0 in
    let one = 2 ^ (i % 8) in
    mark_bits value left (i + 1)
      (set b (i / 8) (if value then bit_or old one else bit_and old (255 - one)))

-- SetChecksum of the entry set at e, of count entries behind the first.
abbrev pub set_checksum : List ℕ → ℕ → ℕ
set_checksum e count = exfat_sum16 (first_sum e) (take (count * entry_bytes) (drop entry_bytes e))

-- exfat_trim's and exfat_delete's test of the entry set at e that it is `file`'s.
unfoldable pub is_set_of : ExfatFile → List ℕ → Bool
is_set_of file e =
    let count = get_or e 1 0 in
    (get_or e 0 0 == 0x85)
    && leb 2 count
    && leb (file.entry_offset + (count + 1) * entry_bytes) 512
    && (le16 e 2 == set_checksum e count)
    && (le32 e (entry_bytes + 20) == file.first_cluster)
    && (le64 e (entry_bytes + 24) == file.length)

-- ~T_INUSE on the first byte of each entry, from entry i of the set at `offset` on.
unfoldable pub unuse : ℕ → ℕ → List ℕ → List ℕ
unuse zero at buf = buf
unuse (suc left) at buf =
    unuse left (at + entry_bytes) (set buf at (bit_and (get_or buf at 0) 0x7F))

module _ (read : ℕ → ℕ × List ℕ) where
  -- The loop of bitmap_start over the FAT, for the clusters left: whether they are contiguous.
  unfoldable pub is_run : ExfatVol → ℕ → ℕ → FatCache → Bool
  is_run vol zero c cache = true
  is_run vol (suc left) c cache =
      let (next, cache') = fat_next read vol c cache in
      elim next [
        | fail err ↦ false
        | ok n ↦ elim (n == u32 (c + 1)) [
          | true ↦ is_run vol left (u32 (c + 1)) cache'
          | false ↦ false
        ]
      ]

  unfoldable pub bitmap_start : ExfatVol → ℕ
  unfolding is_run
  bitmap_start vol =
      let unit = 2 ^ (9 + vol.spc_shift) in
      let n = u32 ((vol.bitmap_bytes + unit - 1) / unit) in
      if is_run vol (n - 1) vol.bitmap no_fat then exfat_cluster_sector vol vol.bitmap else 0

  -- find_free's loop: `left` bits from `bit` on, with w_buf; the first cluster of the run.
  unfoldable pub free_loop : (start n left at_bit run at : ℕ) → List ℕ → Outcome ℕ
  free_loop start n zero at_bit run at buf = fail create_failed
  free_loop start n (suc left) at_bit run at buf =
      let i = at_bit % sector_bits in
      let (err, fresh) = read (u32 (start + at_bit / sector_bits)) in
      let buf' = if i == 0 then fresh else buf in
      let at' = if run == 0 then at_bit else at in
      elim ((i == 0) && not (err == 0)) [
        | true ↦ fail err
        | false ↦ elim (bit (get_or buf' (i / 8) 0) (i % 8) == 0) [
          | false ↦ free_loop start n left (at_bit + 1) 0 at buf'
          | true ↦ elim (run + 1 == n) [
            | true ↦ ok (u32 (at' + 2))
            | false ↦ free_loop start n left (at_bit + 1) (run + 1) at' buf'
          ]
        ]
      ]

  abbrev pub find_free : ExfatVol → ℕ → ℕ → Outcome ℕ
  find_free vol start n = free_loop start n vol.clusters 0 0 0 []

module _ {K : Type 0} (read : K → ℕ → ℕ × List ℕ) (write : K → ℕ → List ℕ → ℕ × K) where
  -- The outer loop of bitmap_mark, from `at` to `stop`, on fuel. The inner loop's bound wraps around,
  -- and where it does, the round marks nothing and the source goes on for ever.
  unfoldable pub mark_loop : ℕ → (start at stop : ℕ) → Bool → K → ℕ × K
  mark_loop zero start at stop value card = (if ltb at stop then fuel_out else 0, card)
  mark_loop (suc fuel) start at stop value card =
      let sector = u32 (start + at / sector_bits) in
      let base = at / sector_bits * sector_bits in
      let next = max at (min stop (u32 (base + sector_bits))) in
      let (err, buf) = read card sector in
      let (err', card') = write card sector (mark_bits value (next - at) (at - base) buf) in
      elim (ltb at stop) [
        | false ↦ (0, card)
        | true ↦ elim (err == 0) [
          | false ↦ (err, card)
          | true ↦ elim (err' == 0) [
            | false ↦ (err', card')
            | true ↦ mark_loop fuel start next stop value card'
          ]
        ]
      ]

  unfoldable pub bitmap_mark : (start first n : ℕ) → Bool → K → ℕ × K
  bitmap_mark start first n value card =
      let at = sub32 first 2 in mark_loop (suc n) start at (u32 (at + n)) value card

  -- The end of exfat_trim and exfat_delete: the bits of clusters that are no longer used.
  unfoldable pub release : ExfatVol → (first n : ℕ) → K → ℕ × K
  unfolding bitmap_start
  release vol first n card =
      let start = bitmap_start (read card) vol in
      if start == 0 then (parse_fail, card) else bitmap_mark start first n false card

  -- The result, the file as updated, and the card.
  unfoldable pub exfat_trim : ExfatVol → ExfatFile → (bytes timestamp : ℕ) → K → ℕ × ExfatFile × K
  unfolding is_set_of put_bytes
  exfat_trim vol file bytes timestamp card =
      let (err, buf) = read card file.entry_sector in
      let at = file.entry_offset in
      let e = drop at buf in
      let s = at + entry_bytes in
      let sized =
        put_bytes (at + 12) (put32 timestamp)
          (put_bytes (s + 24) (put64 bytes) (put_bytes (s + 8) (put64 bytes) buf)) in
      let summed = put_bytes (at + 2) (put16 (set_checksum (drop at sized) (get_or e 1 0))) sized in
      let (err', card') = write card file.entry_sector summed in
      let file' = record file { length = bytes; valid = bytes } in
      let old_n = clusters_of vol file.length in
      let new_n = clusters_of vol bytes in
      let r = release vol (u32 (file.first_cluster + u32 new_n)) (u32 (old_n - new_n)) card' in
      if (file.flags % 2 == 0) || (bytes == 0) || ltb file.length bytes || ltb file.first_cluster 2
      then (size_failed, file, card)
      else (if not (err == 0)
          then (err, file, card)
          else (if not (is_set_of file e) || not (get_or e entry_bytes 0 == 0xC0)
              then (size_failed, file, card)
              else (if not (err' == 0)
                  then (err', file, card')
                  else (if ltb new_n old_n then (r.0, file', r.1) else (0, file', card')))))

  unfoldable pub exfat_delete : ExfatVol → ExfatFile → K → ℕ × K
  unfolding is_set_of unuse
  exfat_delete vol file card =
      let (err, buf) = read card file.entry_sector in
      let e = drop file.entry_offset buf in
      let (err', card') =
        write card file.entry_sector (unuse (get_or e 1 0 + 1) file.entry_offset buf) in
      if (file.flags % 2 == 0) || ltb file.first_cluster 2
      then (delete_failed, card)
      else (if not (err == 0)
          then (err, card)
          else (if not (is_set_of file e)
              then (delete_failed, card)
              else (if not (err' == 0)
                  then (err', card')
                  else release vol file.first_cluster (u32 (clusters_of vol file.length)) card')))
