-- ===== src/Exfat/Find/Extent.antt =====
-- Where a file that is found lies on the card.
use native.Mathlib.Nat.{
  mul-le-mul_left, mod-eq_of_lt, div-add-mod, mod-lt, div-eq_of_lt, pow-le-pow_right,
}
use native.Mathlib.Decide.{dec_lt}
use lite_forth.Common.{
  ℕ, zero, suc, ◌+◌, ◌-◌, ◌*◌, ◌/◌, ◌%◌, ◌^◌, ◌≤◌, ◌<◌, ◌≡◌, ◌⊎◌, refl, subst, ap, arith, Bool,
  false, ◌&&◌, ◌||◌, inl, inr, Bool-cases, List, Option, none, some, ltb, leb, ◌==◌, ==_iff, get_or,
  ltb-false, length, pow_pos, pow_add, bit_or, u32,
}
use lite_forth.Exfat.{
  Outcome, ok, fail, ExfatVol, ExfatFile, DirCursor, FatCache, exfat_cluster_sector, fat_next,
  fat_end, le16, bit, dir_fuel, dir_open, entry_of, no_fat,
}
use lite_forth.Exfat.Walk.{Outcome-cases}
use lite_forth.Exfat.Clusters.{IsSound, IsCluster, exfat_cluster_sector_lem}
use lite_forth.Exfat.Find.Collects.{walk-Results}
use lite_forth.Exfat.Sets.{
  match_chars, name_hash, exfat_contiguous, exfat_nofatchain, find_entry, begin_found,
  file_not_found, FoundSet, clusters_of,
}
use lite_forth.Exfat.Find.{exfat_find, find_visit, extent_loop, file_extent}

-- The part of a file that is written is no longer than the file. A file with no clusters is empty; the
-- clusters of any other, if it is contiguous, are in the volume and hold all of it.
pub record IsPlaced (vol : ExfatVol) (f : ExfatFile) : Type 0 where
  pub valid : f.valid ≤ f.length
  pub place :
      ((f.first_cluster ≡ 0) × (f.length ≡ 0))
      ⊎ (IsCluster vol f.first_cluster
          × (f.first_sector ≡ exfat_cluster_sector vol f.first_cluster)
          × (f.length ≤ (vol.clusters + 2 - f.first_cluster) * 2 ^ (9 + vol.spc_shift)))

abbrev Places : ExfatVol → Outcome ExfatFile → Type 0
Places vol (ok f) = IsPlaced vol f
Places vol (fail err) = Unit {0}

-- Enough clusters for the bytes, where the count is not 0.
clusters_of-enough :
    (vol : ExfatVol) (bytes k : ℕ)
    → bytes < 2 ^ 64
    → vol.spc_shift ≤ 16
    → 0 < clusters_of vol bytes
    → clusters_of vol bytes ≤ k
    → bytes ≤ k * 2 ^ (9 + vol.spc_shift)
clusters_of-enough vol bytes k word shift p h = elim (dec_lt (bytes + unit - 1) (2 ^ 64)) [
  | yes small ↦
      (let whole : (bytes + unit - 1) % 2 ^ 64 ≡ bytes + unit - 1 = mod-eq_of_lt small in
        let fewer : (bytes + unit - 1) / unit ≤ k = omega (arith, h, ap (λ t. t / unit) whole) in
        omega (
          arith,
          some_unit,
          div-add-mod (bytes + unit - 1) unit,
          mod-lt (bytes + unit - 1) some_unit,
          mul-le-mul_left unit fewer,
        ))
  | no over ↦
      (let below : (bytes + unit - 1) % 2 ^ 64 < unit = omega (arith, over, some_unit, few) in
        absurd (omega (arith, p, div-eq_of_lt below)))
]
  where
    unit : ℕ
    unit = 2 ^ (9 + vol.spc_shift)

    some_unit : 0 < unit
    some_unit = pow_pos (9 + vol.spc_shift)

    few : unit ≤ 2 ^ 25
    few =
        let most : 9 + vol.spc_shift ≤ 25 = omega (arith, shift) in
        pow-le-pow_right (omega arith) most

-- A flag makes no difference.
flagged :
    (vol : ExfatVol) (f : ExfatFile) (flags : ℕ)
    → IsPlaced vol f
    → IsPlaced vol (record f { flags = flags })
flagged vol f flags h = record { valid = h.valid; place = h.place }

module _ (read : ℕ → ℕ × List ℕ) (vol : ExfatVol) (sound : IsSound vol) where
  extent_loop-Places :
      (left c : ℕ) (f : ExfatFile) (cache : FatCache)
      → IsPlaced vol f
      → Places vol (extent_loop read vol left c f cache)
  unfolding extent_loop
  extent_loop-Places zero c f cache h = h
  extent_loop-Places (suc left) c f cache h = elim (Outcome-cases (fat_next read vol c cache).0) [
    | inr (err, e) ↦ rw (extent_loop, e) tt
    | inl (next, e) ↦ elim (Bool-cases (left == 0)) [
      | inl last ↦ elim (Bool-cases (next == fat_end)) [
        | inl end ↦
            rw (extent_loop, e, last, end) (flagged vol f (bit_or f.flags exfat_contiguous) h)
        | inr broken ↦ rw (extent_loop, e, last, broken) h
      ]
      | inr more ↦ elim (Bool-cases (next == u32 (c + 1))) [
        | inl follows ↦
            rw (extent_loop, e, more, follows)
              (extent_loop-Places left next f (fat_next read vol c cache).1 h)
        | inr apart ↦ rw (extent_loop, e, more, apart) h
      ]
    ]
  ]

  file_extent-Places :
      (stream_flags : ℕ) (f : ExfatFile) (cache : FatCache)
      → f.length < 2 ^ 64
      → Places vol (file_extent read vol stream_flags f cache)
  unfolding file_extent
  file_extent-Places stream_flags f cache word = elim (Bool-cases (ltb f.length f.valid)) [
    | inl bad ↦ rw (file_extent, bad) tt
    | inr fine ↦ elim (Bool-cases (f.first_cluster == 0)) [
      | inl unplaced ↦ elim (Bool-cases (f.length == 0)) [
        | inr full ↦ rw (file_extent, fine, unplaced, full) tt
        | inl empty ↦
            rw (file_extent, fine, unplaced, empty)
              (record {
                valid = ltb-false _ _ fine;
                place = inl ((==_iff _ _).0 unplaced, (==_iff _ _).0 empty);
              })
      ]
      | inr somewhere ↦ elim (Bool-cases outside) [
        | inl bad ↦ rw (file_extent, fine, somewhere, bad) tt
        | inr inside ↦ elim (Bool-cases (bit stream_flags 1 == 0)) [
          | inl chained ↦
              rw (file_extent, fine, somewhere, inside, chained)
                (extent_loop-Places n f.first_cluster placed cache (placed-IsPlaced fine inside))
          | inr contiguous ↦
              rw (file_extent, fine, somewhere, inside, contiguous)
                (flagged vol placed (bit_or f.flags (bit_or exfat_nofatchain exfat_contiguous))
                  (placed-IsPlaced fine inside))
        ]
      ]
    ]
  ]
    where
      n : ℕ
      n = clusters_of vol f.length

      placed : ExfatFile
      placed = record f { first_sector = exfat_cluster_sector vol f.first_cluster }

      outside : Bool
      outside =
          (n == 0)
          || ltb f.first_cluster 2
          || leb vol.clusters (f.first_cluster - 2)
          || ltb (vol.clusters - (f.first_cluster - 2)) n

      placed-IsPlaced : ltb f.length f.valid ≡ false → outside ≡ false → IsPlaced vol placed
      placed-IsPlaced fine inside = record {
        valid = ltb-false _ _ fine;
        place = inr (
          record { first = ground (arith, inside); last = ground (arith, inside) },
          refl,
          clusters_of-enough vol f.length (vol.clusters + 2 - f.first_cluster) word sound.shift
              (ground (arith, inside)) (ground (arith, inside)),
        );
      }

match_chars-keeps :
    (name e : List ℕ) (left j : ℕ) (s : FoundSet)
    → (match_chars name e left j s).data_length ≡ s.data_length
unfolding match_chars
match_chars-keeps name e zero j s = refl
match_chars-keeps name e (suc left) j s = elim (Bool-cases (ltb s.chars s.name_len)) [
  | inr done ↦ rw (match_chars, done) refl
  | inl more ↦ rw (match_chars, more) (match_chars-keeps name e left (j + 1) _)
]

find_entry-HasLength :
    (name : List ℕ) (k : ℕ) (e : List ℕ) (s : FoundSet)
    → s.data_length < 2 ^ 64
    → (find_entry name k e s).data_length < 2 ^ 64
unfolding find_entry
find_entry-HasLength name k e s h = elim (Bool-cases (k == 1)) [
  | inl stream ↦ rw stream (omega arith)
  | inr later ↦ elim (Bool-cases (get_or e 0 0 == 0xC1)) [
    | inr other ↦ rw (later, other) h
    | inl name_part ↦ rw (later, name_part, match_chars-keeps name e 15 0) h
  ]
]

-- A file with its bytes in the volume's sectors.
pub record IsInVolume (vol : ExfatVol) (f : ExfatFile) : Type 0 where
  pub valid : f.valid ≤ f.length
  pub cluster : 0 < f.length → IsCluster vol f.first_cluster
  pub bytes : 0 < f.length → 512 * f.first_sector + f.length ≤ 512 * (vol.start + vol.sectors)
  pub behind : 0 < f.length → vol.heap ≤ f.first_sector

module _ (vol : ExfatVol) (sound : IsSound vol) where
  placed_bytes :
      (c sector length : ℕ)
      → IsCluster vol c
      → sector ≡ exfat_cluster_sector vol c
      → length ≤ (vol.clusters + 2 - c) * 2 ^ (9 + vol.spc_shift)
      → (512 * sector + length ≤ 512 * (vol.start + vol.sectors)) × (vol.heap ≤ sector)
  placed_bytes c sector length k at fits =
      let unit = 2 ^ vol.spc_shift in
      let left : vol.clusters ≡ (c - 2) + (vol.clusters + 2 - c) = omega (arith, k.first, k.last) in
      let first = exfat_cluster_sector_lem vol sound c k in
      (
        omega (
          arith,
          at,
          first,
          fits,
          sound.heap_fits,
          pow_add 9 vol.spc_shift,
          ap (λ (t : ℕ). t * unit) left,
          ap (λ (t : ℕ). (vol.clusters + 2 - c) * t) (pow_add 9 vol.spc_shift),
        ),
        omega (arith, at, first),
      )

  in_volume :
      (f : ExfatFile)
      → f.valid ≤ f.length
      → ((f.first_cluster ≡ 0) × (f.length ≡ 0))
        ⊎ (IsCluster vol f.first_cluster
            × (f.first_sector ≡ exfat_cluster_sector vol f.first_cluster)
            × (f.length ≤ (vol.clusters + 2 - f.first_cluster) * 2 ^ (9 + vol.spc_shift)))
      → IsInVolume vol f
  in_volume f valid (inl (nowhere, empty)) = record {
    valid = valid;
    cluster = λ p. absurd (omega (arith, p, empty));
    bytes = λ p. absurd (omega (arith, p, empty));
    behind = λ p. absurd (omega (arith, p, empty));
  }
  in_volume f valid (inr (k, at, fits)) =
      let placed = placed_bytes f.first_cluster f.first_sector f.length k at fits in
      record { valid = valid; cluster = λ p. k; bytes = λ p. placed.0; behind = λ p. placed.1 }

  abbrev Found : Option (Outcome ExfatFile) → Type 0
  Found none = Unit {0}
  Found (some r) = Places vol r

  abbrev Visited : Outcome ExfatFile ⊎ Unit {0} → Type 0
  Visited (inl r) = Places vol r
  Visited (inr done) = Unit {0}

  module _ (read : ℕ → ℕ × List ℕ) (dir : ℕ) (name : List ℕ) where
    find_visit-Places :
        (ctx : Unit {0}) (d : DirCursor) (s : FoundSet) (cache : FatCache) (r : Outcome ExfatFile)
        → s.data_length < 2 ^ 64
        → find_visit read vol name ctx d s cache ≡ inl r
        → Places vol r
    unfolding find_visit
    find_visit-Places ctx d s cache r word e = subst Visited e (elim (Bool-cases same) [
      | inr other ↦ rw other tt
      | inl found ↦ rw found (file_extent-Places read vol sound s.stream_flags _ cache word)
    ])
      where
        same : Bool
        same =
            (s.sum == le16 (entry_of d) 2)
            && (s.name_len == length name)
            && (s.hash == name_hash 0 name)
            && (s.matched == length name)

    exfat_find-Found : Found (exfat_find read vol dir name)
    unfolding exfat_find
    exfat_find-Found = elim (Bool-cases ((length name == 0) || ltb 255 (length name))) [
      | inl bad ↦ rw bad tt
      | inr good ↦ rw good (
          walk-Results read vol begin_found (find_entry name) (find_visit read vol name)
            (λ ctx. fail file_not_found) (λ ctx err. fail err) (λ s. s.data_length < 2 ^ 64)
            (Places vol) (λ e. omega arith) (find_entry-HasLength name) find_visit-Places
            (λ ctx. tt) (λ ctx err. tt) (dir_fuel vol) (dir_open dir) no_fat tt)
    ]

    -- On a sound volume, a file that exfat_find finds has no more valid bytes than bytes; if it has
    -- any, its first cluster is one of the volume, and the bytes from its first sector on lie in the
    -- volume, behind its FAT.
    pub exfat_find-IsInVolume :
        (f : ExfatFile) → exfat_find read vol dir name ≡ some (ok f) → IsInVolume vol f
    exfat_find-IsInVolume f e =
        let placed = subst Found e exfat_find-Found in in_volume f placed.valid placed.place
