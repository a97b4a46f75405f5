-- ===== src/Exfat/Find.antt =====
-- Files in a directory: file_extent, exfat_find and exfat_list of src/exfat.c. A name is the list of
-- its bytes; exfat_list's callback and its context are parameters.
pub mod Collects
pub mod Extent
pub mod Ends
use lite_forth.Common.{
  ℕ, zero, suc, ◌+◌, ◌-◌, ◌*◌, Bool, true, false, ◌&&◌, ◌||◌, List, Option, none, some, bit_or, ltb,
  leb, ◌==◌, if◌then◌else◌, ◌⊎◌, inl, inr, get_or, length, u32,
}
use lite_forth.Exfat.{
  Outcome, ok, fail, ExfatVol, ExfatFile, FatCache, DirCursor, le16, bit, no_fat, dir_open,
  entry_of, exfat_cluster_sector, fat_next, dir_entry, dir_advance, dir_fuel, parse_fail,
  entry_bytes, fat_end,
}
use lite_forth.Exfat.Sets.{
  FoundSet, begin_found, begin_listed, clusters_of, exfat_contiguous, exfat_directory,
  exfat_nofatchain, file_not_found, find_entry, list_entry, list_visit, name_hash, no_part, no_set,
}

module _ (read : ℕ → ℕ × List ℕ) where
  -- The loop of file_extent over the FAT, for the clusters left.
  unfoldable pub extent_loop : ExfatVol → ℕ → ℕ → ExfatFile → FatCache → Outcome ExfatFile
  extent_loop vol zero c f cache = ok f
  extent_loop vol (suc left) c f cache =
      let (r, cache') = fat_next read vol c cache in
      elim r [
        | fail err ↦ fail err
        | ok next ↦ elim (left == 0) [
          | true ↦
              if next == fat_end
              then ok (record f { flags = bit_or f.flags exfat_contiguous })
              else ok f
          | false ↦ elim (next == u32 (c + 1)) [
            | true ↦ extent_loop vol left next f cache'
            | false ↦ ok f
          ]
        ]
      ]

  unfoldable pub file_extent : ExfatVol → ℕ → ExfatFile → FatCache → Outcome ExfatFile
  file_extent vol stream_flags f cache =
      let n = clusters_of vol f.length in
      let placed = record f { first_sector = exfat_cluster_sector vol f.first_cluster } in
      if ltb f.length f.valid
      then fail parse_fail
      else (if f.first_cluster == 0
          then (if f.length == 0
              then ok (record f { flags = bit_or f.flags exfat_contiguous })
              else fail parse_fail)
          else (if (n == 0)
                || ltb f.first_cluster 2
                || leb vol.clusters (f.first_cluster - 2)
                || ltb (vol.clusters - (f.first_cluster - 2)) n
              then fail parse_fail
              else (if bit stream_flags 1 == 0
                  then extent_loop vol n f.first_cluster placed cache
                  else ok (record placed {
                    flags = bit_or f.flags (bit_or exfat_nofatchain exfat_contiguous);
                  }))))

  -- The loop over the secondary entries of a set: whether it is whole, with the cursor at the last
  -- one, or at the first that is not part of it.
  unfoldable pub set_loop :
      {S : Type 0}
      → ExfatVol
      → (ℕ → List ℕ → S → S)
      → ℕ
      → ℕ
      → DirCursor
      → FatCache
      → S
      → Outcome (Bool × DirCursor × S) × FatCache
  set_loop vol update zero k d cache s = (ok (true, d, s), cache)
  set_loop vol update (suc left) k d cache s =
      let (a, cache') = dir_advance read vol d cache in
      elim a [
        | fail err ↦ (fail err, cache')
        | ok d' ↦ elim (dir_entry read vol d') [
          | fail err ↦ (fail err, cache')
          | ok none ↦ (fail parse_fail, cache')
          | ok (some d'') ↦ elim (no_part k (entry_of d'')) [
            | true ↦ (ok (false, d'', s), cache')
            | false ↦ set_loop vol update left (k + 1) d'' cache' (update k (entry_of d'') s)
          ]
        ]
      ]

  -- The loop that exfat_find and exfat_list share: entries that begin no set are stepped over; of a
  -- set, `begin` and `update` collect what is in its first entry and in the others. `visit` is told
  -- of a whole set, with the cursor at its first entry, and ends the walk with a result or goes on.
  -- `finish` is the result at the directory's end, and `failed` that of an error. On fuel: `none`
  -- means that it ran out.
  module _ {S C R : Type 0} (vol : ExfatVol) (begin : List ℕ → S) (update : ℕ → List ℕ → S → S)
      (visit : C → DirCursor → S → FatCache → R ⊎ C) (finish : C → R) (failed : C → ℕ → R) where
    unfoldable pub walk : ℕ → DirCursor → FatCache → C → Option R
    walk zero d cache ctx = none
    walk (suc fuel) d cache ctx = elim (dir_entry read vol d) [
      | fail err ↦ some (failed ctx err)
      | ok none ↦ some (finish ctx)
      | ok (some d') ↦ elim (get_or (entry_of d') 0 0 == 0) [
        | true ↦ some (finish ctx)
        | false ↦ elim (no_set (entry_of d')) [
          | true ↦
              let (a, cache') = dir_advance read vol d' cache in
              elim a [ fail err ↦ some (failed ctx err) | ok next ↦ walk fuel next cache' ctx ]
          | false ↦
              let (r, cache') =
                set_loop vol update (get_or (entry_of d') 1 0) 1 d' cache (begin (entry_of d')) in
              elim r [
                | fail err ↦ some (failed ctx err)
                | ok (false, d2, s) ↦ walk fuel d2 cache' ctx
                | ok (true, d2, s) ↦ elim (visit ctx d' s cache') [
                  | inl result ↦ some result
                  | inr ctx' ↦
                      let (a, cache'') = dir_advance read vol d2 cache' in
                      elim a [
                        | fail err ↦ some (failed ctx' err)
                        | ok next ↦ walk fuel next cache'' ctx'
                      ]
                ]
              ]
        ]
      ]
    ]

  -- What exfat_find does with a whole set: the name compared, and the file's extent.
  unfoldable pub find_visit :
      ExfatVol → List ℕ → Unit {0} → DirCursor → FoundSet → FatCache → Outcome ExfatFile ⊎ Unit {0}
  find_visit vol name ctx d s cache =
      let e = entry_of d in
      let file : ExfatFile = record {
        length = s.data_length;
        valid = s.valid;
        first_cluster = s.first_cluster;
        first_sector = 0;
        entry_sector = d.loaded;
        entry_offset = d.index * entry_bytes;
        flags = if bit (le16 e 4) 4 == 0 then 0 else exfat_directory;
      } in
      if (s.sum == le16 e 2)
        && (s.name_len == length name)
        && (s.hash == name_hash 0 name)
        && (s.matched == length name)
      then inl (file_extent vol s.stream_flags file cache)
      else inr tt

  unfoldable pub exfat_find : ExfatVol → ℕ → List ℕ → Option (Outcome ExfatFile)
  exfat_find vol dir name =
      if (length name == 0) || ltb 255 (length name)
      then some (fail file_not_found)
      else (walk vol begin_found (find_entry name) (find_visit vol name)
          (λ ctx. fail file_not_found) (λ ctx err. fail err) (dir_fuel vol) (dir_open dir) no_fat
          tt)

  unfoldable pub exfat_list :
      {C : Type 0} → ExfatVol → ℕ → (C → List ℕ → ExfatFile → ℕ × C) → C → Option (ℕ × C)
  exfat_list vol dir fn ctx =
      walk vol begin_listed list_entry (list_visit fn) (λ ctx. (0, ctx)) (λ ctx err. (err, ctx))
        (dir_fuel vol) (dir_open dir) no_fat ctx
