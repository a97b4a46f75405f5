-- ===== src/Tests/Exfat.antt =====
-- A card of 64 sectors with a volume of 8 clusters of one sector: FAT, root directory and bitmap.
use lite_forth.Common.{
  ℕ, zero, suc, ◌+◌, ◌%◌, ◌^◌, ◌≤◌, ◌≡◌, ◌⊎◌, refl, ap, ◌∙◌, All, update_self, update_ne, arith,
  true, ◌&&◌, List, [], ◌∷◌, some, ltb, leb, ◌==◌, if◌then◌else◌, update, replicate, length,
}
use lite_forth.Exfat.{
  Outcome, ok, ExfatVol, ExfatFile, exfat_cluster_sector, exfat_sum16, fat_next, dir_entry,
  dir_advance, dir_fuel,
}
use lite_forth.Exfat.Clusters.{IsSound, exfat_cluster_sector_bounds}
use lite_forth.Exfat.Mount.{
  exfat_mount, exfat_name, is_exfat_boot, take_boot, bad_boot, try_volume, bitmap_loop, take_bitmap,
}
use lite_forth.Exfat.Mount.Sound.{IsMounted, exfat_mount-IsMounted}
use lite_forth.Exfat.Sets.{find_entry, name_hash}
use lite_forth.Exfat.Find.{exfat_find, walk, set_loop, find_visit, file_extent}
use lite_forth.Exfat.Find.Ends.{exfat_find-ends}
use lite_forth.Exfat.Find.Extent.{IsInVolume, exfat_find-IsInVolume}
use lite_forth.Exfat.Write.{
  put_bytes, exfat_delete, bitmap_mark, bitmap_start, mark_loop, free_loop, release, find_free,
  mark_bits,
}
use lite_forth.Exfat.Write.Bits.{digit, IsByte}
use lite_forth.Exfat.Write.Bitmap.{Behaves, bitmap_bit, bitmap_mark_lem}
use lite_forth.Exfat.Write.Free.{IsLowest, find_free_lem}
use lite_forth.Exfat.Write.Disjoint.{find_free-disjoint}
use lite_forth.Exfat.Write.Create.{exfat_create, find_slot, move_end, entry_set, name_chars_ok}

-- The boot sector in sector 0: offsets 80 to 110 of the volume's geometry.
abbrev boot : List ℕ
boot = put_bytes 3 exfat_name (
    put_bytes 72 (64 ∷ []) (
      put_bytes 80 (24 ∷ 0 ∷ 0 ∷ 0 ∷ 1 ∷ 0 ∷ 0 ∷ 0 ∷ 32 ∷ 0 ∷ 0 ∷ 0 ∷ 8 ∷ 0 ∷ 0 ∷ 0 ∷ 2 ∷ [])
        (put_bytes 108 (9 ∷ 0 ∷ 1 ∷ []) (put_bytes 510 (0x55 ∷ 0xAA ∷ []) (replicate 512 0)))))

-- The root directory: the bitmap's entry, at cluster 3 and of one byte.
abbrev root_dir : List ℕ
root_dir = put_bytes 0 (0x81 ∷ []) (put_bytes 20 (3 ∷ 0 ∷ 0 ∷ 0 ∷ 1 ∷ []) (replicate 512 0))

abbrev Card : Type 0
Card = ℕ → List ℕ

abbrev card : Card
card s =
    if s == 0
    then boot
    else (if s == 24
        then put_bytes 8 (replicate 8 0xFF) (replicate 512 0)
        else (if s == 32
            then root_dir
            else (if s == 33 then put_bytes 0 (3 ∷ []) (replicate 512 0) else replicate 512 0)))

abbrev read : Card → ℕ → ℕ × List ℕ
read k s = (0, k s)

abbrev write : Card → ℕ → List ℕ → ℕ × Card
write k s buf = (0, update k s buf)

abbrev vol : ExfatVol
vol = record {
  start = 0;
  sectors = 64;
  fat = 24;
  heap = 32;
  clusters = 8;
  root = 2;
  bitmap = 3;
  bitmap_bytes = 1;
  spc_shift = 0;
  dirty = 0;
}

mounted : exfat_mount (read card) ≡ some (ok vol)
unfolding exfat_mount put_bytes is_exfat_boot try_volume take_boot bad_boot bitmap_loop dir_entry
    dir_advance dir_fuel exfat_cluster_sector take_bitmap
mounted = refl

-- "A.LOG", of 1000 bytes: two clusters.
abbrev log : List ℕ
log = 65 ∷ 46 ∷ 76 ∷ 79 ∷ 71 ∷ []

abbrev created : Outcome ExfatFile × Card
created = exfat_create read write vol log 1000 0x12345678 card

abbrev file : ExfatFile
file = record {
  length = 1000;
  valid = 0;
  first_cluster = 4;
  first_sector = 34;
  entry_sector = 32;
  entry_offset = 32;
  flags = 3;
}

created_file : created.0 ≡ ok file
unfolding exfat_create put_bytes find_slot move_end entry_set name_chars_ok exfat_find walk set_loop
    dir_entry dir_advance dir_fuel exfat_cluster_sector exfat_sum16 fat_next bitmap_mark
    bitmap_start mark_loop mark_bits free_loop
created_file = refl

found : exfat_find (read created.1) vol 2 log ≡ some (ok file)
unfolding exfat_create put_bytes find_slot move_end entry_set name_chars_ok exfat_find walk set_loop
    dir_entry dir_advance dir_fuel exfat_cluster_sector exfat_sum16 fat_next bitmap_mark
    bitmap_start mark_loop mark_bits free_loop find_visit find_entry file_extent name_hash
found = refl

-- The bitmap's byte while the file is there, and after exfat_delete.
deleted :
    (created.1 33 ≡ put_bytes 0 (15 ∷ []) (replicate 512 0))
    × ((exfat_delete read write vol file created.1).0 ≡ 0)
    × ((exfat_delete read write vol file created.1).1 33 ≡ card 33)
unfolding exfat_create exfat_delete put_bytes find_slot move_end entry_set name_chars_ok exfat_find
    walk set_loop dir_entry dir_advance dir_fuel exfat_cluster_sector exfat_sum16 fat_next
    bitmap_mark bitmap_start mark_loop mark_bits free_loop find_visit find_entry file_extent
    name_hash release
deleted = (refl, refl, refl)

vol-IsSound : IsSound vol
vol-IsSound = record {
  fat_first = omega arith;
  fat_fits = omega arith;
  heap_fits = omega arith;
  card = omega arith;
  some_cluster = omega arith;
  shift = omega arith;
}

exfat_mount-IsMounted_example : IsMounted vol
exfat_mount-IsMounted_example = exfat_mount-IsMounted (read card) vol mounted

exfat_cluster_sector_bounds_example :
    (32 ≤ exfat_cluster_sector vol 4)
    × (exfat_cluster_sector vol 9 + 2 ^ 0 ≤ 64)
    × (exfat_cluster_sector vol 4 + 2 ^ 0 ≤ exfat_cluster_sector vol 9)
    × (exfat_cluster_sector vol 1 ≡ 0)
exfat_cluster_sector_bounds_example =
    exfat_cluster_sector_bounds vol vol-IsSound 4 9 1
      (record { first = omega arith; last = omega arith })
      (record { first = omega arith; last = omega arith }) (omega arith)
      (λ k. absurd (omega (arith, k.first)))

exfat_find-ends_example : (r : Outcome ExfatFile) × (exfat_find (read created.1) vol 2 log ≡ some r)
exfat_find-ends_example = exfat_find-ends (read created.1) vol (omega arith) 2 log

exfat_find-IsInVolume_example : IsInVolume vol file
exfat_find-IsInVolume_example =
    exfat_find-IsInVolume vol vol-IsSound (read created.1) 2 log file found

find_free_lem_example : IsLowest (read card) 33 2 8 (find_free (read card) vol 33 2)
find_free_lem_example =
    find_free_lem (read card) vol 33 2 (λ s. refl) (omega arith) (omega arith) (omega arith)

-- A card whose sectors have 512 bytes whatever was written.
abbrev fit : ℕ → List ℕ → List ℕ
fit zero bytes = []
fit (suc n) [] = 0 ∷ fit n []
fit (suc n) (b ∷ bytes) = b % 256 ∷ fit n bytes

length-fit : (n : ℕ) (bytes : List ℕ) → length (fit n bytes) ≡ n
length-fit zero bytes = refl
length-fit (suc n) [] = ap suc (length-fit n [])
length-fit (suc n) (b ∷ bytes) = ap suc (length-fit n bytes)

fit-All : (n : ℕ) (bytes : List ℕ) → All IsByte (fit n bytes)
fit-All zero bytes = tt
fit-All (suc n) [] = (omega arith, fit-All n [])
fit-All (suc n) (b ∷ bytes) = (omega arith, fit-All n bytes)

fit_self : (n : ℕ) (bytes : List ℕ) → All IsByte bytes → length bytes ≡ n → fit n bytes ≡ bytes
fit_self zero [] h e = refl
fit_self zero (b ∷ bytes) h e = absurd (omega (arith, e))
fit_self (suc n) [] h e = absurd (omega (arith, e))
fit_self (suc n) (b ∷ bytes) h e =
    let byte : b % 256 ≡ b = omega (arith, h.0) in
    ap (λ (t : ℕ). t ∷ fit n bytes) byte ∙ ap (λ t. b ∷ t) (fit_self n bytes h.1 (omega (arith, e)))

abbrev read_fit : Card → ℕ → ℕ × List ℕ
read_fit k s = (0, fit 512 (k s))

fit-Behaves : Behaves read_fit write
fit-Behaves = record {
  reads = λ k s. refl;
  writes = λ k s buf. refl;
  size = λ k s. length-fit 512 (k s);
  bytes = λ k s. fit-All 512 (k s);
  same = λ k s buf h e. ap (fit 512) (update_self k s buf) ∙ fit_self 512 buf h e;
  other = λ k s s' buf h. ap (fit 512) (update_ne k s s' buf h);
}

bitmap_mark_lem_example :
    ((bitmap_mark read_fit write 33 4 2 true card).0 ≡ 0)
    × (bitmap_bit (read_fit (bitmap_mark read_fit write 33 4 2 true card).1) 33 3 ≡ (
        if leb 4 (3 + 2) && ltb (3 + 2) (4 + 2)
        then digit true
        else bitmap_bit (read_fit card) 33 3))
bitmap_mark_lem_example =
    bitmap_mark_lem read_fit write fit-Behaves 33 4 2 3 true card (omega arith) (omega arith)
      (omega arith)

-- Two clusters taken, and the two after them.
first_two : find_free (read_fit card) vol 33 2 ≡ ok 4
unfolding free_loop put_bytes
first_two = refl

next_two : find_free (read_fit (bitmap_mark read_fit write 33 4 2 true card).1) vol 33 2 ≡ ok 6
unfolding free_loop bitmap_mark mark_loop mark_bits put_bytes
next_two = refl

find_free-disjoint_example : (4 + 2 ≤ 6) ⊎ (6 + 2 ≤ 4)
find_free-disjoint_example =
    find_free-disjoint read_fit write fit-Behaves vol 33 card 2 2 4 6 (omega arith) (omega arith)
      (omega arith) (omega arith) first_two
      (bitmap_mark_lem read_fit write fit-Behaves 33 4 2 3 true card (omega arith) (omega arith)
        (omega arith)).0
      next_two
