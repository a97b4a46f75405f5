-- ===== src/Exfat/Write/Create.antt =====
-- A file made in the root directory: exfat_create of src/exfat.c. Steps that may fail are functions
-- of the card that give an outcome and the card; dir_buf is read anew where the source does so.
use lite_forth.Common.{
  [], ℕ, zero, suc, ◌+◌, ◌-◌, ◌*◌, Bool, true, false, not, ◌&&◌, ◌||◌, List, ◌∷◌, none, some,
  bit_or, ltb, leb, ◌==◌, if◌then◌else◌, get_or, replicate, length,
}
use lite_forth.Exfat.{
  Outcome, ok, fail, ExfatVol, ExfatFile, FatCache, DirCursor, no_fat, dir_open, entry_of,
  exfat_cluster_sector, dir_entry, dir_advance, dir_fuel, parse_fail, entry_bytes,
  entries_per_sector,
}
use lite_forth.Exfat.Sets.{
  clusters_of, file_not_found, name_hash, exfat_nofatchain, exfat_contiguous,
}
use lite_forth.Exfat.Find.{exfat_find}
use lite_forth.Exfat.Write.{
  put_bytes, put16, put32, put64, set_checksum, bitmap_start, find_free, bitmap_mark, create_failed,
  fuel_out,
}

-- Steps on a card K.
abbrev pub Act : Type 0 → Type 0 → Type 0
Act K A = K → Outcome A × K

infixl 5 ◌>>=◌ ◌>>◌
abbrev pub ◌>>=◌ : {K A B : Type 0} → Act K A → (A → Act K B) → Act K B
◌>>=◌ m f card =
    let (o, card') = m card in elim o [ fail err ↦ (fail err, card') | ok a ↦ f a card' ]

abbrev pub ◌>>◌ : {K B : Type 0} → Act K (Unit {0}) → Act K B → Act K B
m >> k = m >>= λ _. k

-- A result that does not depend on a write, and a test.
abbrev pub given : {K A : Type 0} → Outcome A → Act K A
given o card = (o, card)

abbrev pub guard : {K : Type 0} → Bool → ℕ → Act K (Unit {0})
guard true err card = (ok tt, card)
guard false err card = (fail err, card)

-- A write's error.
abbrev pub done : {K : Type 0} → (K → ℕ × K) → Act K (Unit {0})
done f card = let (err, card') = f card in if err == 0 then (ok tt, card') else (fail err, card')

-- " * / : < > ? \ |
abbrev pub forbidden : ℕ → Bool
forbidden c =
    (c == 34)
    || (c == 42)
    || (c == 47)
    || (c == 58)
    || (c == 60)
    || (c == 62)
    || (c == 63)
    || (c == 92)
    || (c == 124)

unfoldable pub name_chars_ok : List ℕ → Bool
name_chars_ok [] = true
name_chars_ok (c ∷ cs) = not (ltb c 0x20 || ltb 0x7E c || forbidden c) && name_chars_ok cs

abbrev pub name_ok : List ℕ → Bool
name_ok name = ltb 0 (length name) && leb (length name) 15 && name_chars_ok name

-- The locals of the search for three free entries in one sector.
pub record Slot : Type 0 where
  pub sector : ℕ
  pub index : ℕ
  pub run : ℕ
  pub end_sector : ℕ
  pub end_index : ℕ

-- The slot after the entry at the cursor.
unfoldable pub see_entry : DirCursor → Slot → Slot
see_entry d s =
    let kind = get_or (entry_of d) 0 0 in
    let run = if d.index == 0 then 0 else s.run in
    let ends = (kind == 0) && (s.end_sector == 0) in
    let starts = ltb kind 128 && (run == 0) in
    record {
      sector = if starts then d.loaded else s.sector;
      index = if starts then d.index else s.index;
      run = if ltb kind 128 then run + 1 else 0;
      end_sector = if ends then d.loaded else s.end_sector;
      end_index = if ends then d.index else s.end_index;
    }

unfoldable pub find_slot :
    (ℕ → ℕ × List ℕ) → ExfatVol → ℕ → DirCursor → FatCache → Slot → Outcome Slot
unfolding see_entry
find_slot read vol zero d cache s = fail fuel_out
find_slot read vol (suc fuel) d cache s = elim (dir_entry read vol d) [
  | fail err ↦ fail err
  | ok none ↦ fail create_failed
  | ok (some d') ↦
      let s' = see_entry d' s in
      let (a, cache') = dir_advance read vol d' cache in
      elim (s'.run == 3) [
        | true ↦ ok s'
        | false ↦ elim a [ fail err ↦ fail err | ok next ↦ find_slot read vol fuel next cache' s' ]
      ]
]

-- Entries from i on that end the directory, made unused ones.
unfoldable pub unend : ℕ → ℕ → List ℕ → List ℕ
unfolding put_bytes
unend zero i buf = buf
unend (suc left) i buf = unend left (i + 1) (
    if get_or buf (i * entry_bytes) 0 == 0
    then put_bytes (i * entry_bytes) (0x05 ∷ replicate 31 0) buf
    else buf)

-- The characters of a name entry.
unfoldable pub wide : List ℕ → List ℕ
wide [] = []
wide (c ∷ cs) = c ∷ 0 ∷ wide cs

-- The three entries of the set, with its checksum.
unfoldable pub entry_set : List ℕ → (bytes timestamp first : ℕ) → List ℕ
unfolding put_bytes name_hash wide
entry_set name bytes timestamp first =
    let t = put32 timestamp in
    let e0 = put_bytes 0 (0x85 ∷ 2 ∷ []) (replicate 96 0) in
    let e1 = put_bytes 16 t (put_bytes 12 t (put_bytes 8 t (put_bytes 4 (put16 0x20) e0))) in
    let e2 = put_bytes 22 (0x80 ∷ 0x80 ∷ 0x80 ∷ []) e1 in
    let s0 = put_bytes 35 (length name ∷ []) (put_bytes 32 (0xC0 ∷ 3 ∷ []) e2) in
    let s1 = put_bytes 40 (put64 0) (put_bytes 36 (put16 (name_hash 0 name)) s0) in
    let s2 = put_bytes 56 (put64 bytes) (put_bytes 52 (put32 first) s1) in
    let n = put_bytes 66 (wide name) (put_bytes 64 (0xC1 ∷ []) s2) in
    put_bytes 2 (put16 (set_checksum n 2)) n

module _ {K : Type 0} (read : K → ℕ → ℕ × List ℕ) (write : K → ℕ → List ℕ → ℕ × K) where
  abbrev pub load : ℕ → Act K (List ℕ)
  load sector card =
      let (err, buf) = read card sector in if err == 0 then (ok buf, card) else (fail err, card)

  abbrev pub store : ℕ → List ℕ → Act K (Unit {0})
  store sector buf = done (λ card. write card sector buf)

  -- That there is no file of that name.
  abbrev pub absent : ExfatVol → List ℕ → Act K (Unit {0})
  absent vol name card = elim (exfat_find (read card) vol vol.root name) [
    | none ↦ (fail fuel_out, card)
    | some (ok f) ↦ (fail create_failed, card)
    | some (fail err) ↦ if err == file_not_found then (ok tt, card) else (fail err, card)
  ]

  -- The end of the directory moved behind the new set.
  unfoldable pub move_end : Slot → Act K (Unit {0})
  unfolding unend
  move_end s card =
      if not (s.end_sector == 0) && not (s.end_sector == s.sector)
      then (do
        buf ← load s.end_sector
        store s.end_sector (unend (entries_per_sector - s.end_index) s.end_index buf))
          card
      else (ok tt, card)

  unfoldable pub exfat_create : ExfatVol → List ℕ → (bytes timestamp : ℕ) → Act K ExfatFile
  exfat_create vol name bytes timestamp = do
    guard (name_ok name && not (bytes == 0)) create_failed
    absent vol name
    let n = clusters_of vol bytes
    guard (leb n vol.clusters) create_failed
    start ← λ card. (ok (bitmap_start (read card) vol), card)
    guard (not (start == 0)) parse_fail
    slot ← λ card. (
      find_slot (read card) vol (dir_fuel vol) (dir_open vol.root) no_fat
          (record { sector = 0; index = 0; run = 0; end_sector = 0; end_index = 0 }),
      card,
    )
    first ← λ card. (find_free (read card) vol start n, card)
    done (bitmap_mark read write start first n true)
    store (exfat_cluster_sector vol first) (replicate 512 0)
    move_end slot
    buf ← load slot.sector
    store slot.sector
        (put_bytes (slot.index * entry_bytes) (entry_set name bytes timestamp first) buf)
    given (
        ok (record {
          length = bytes;
          valid = 0;
          first_cluster = first;
          first_sector = exfat_cluster_sector vol first;
          entry_sector = slot.sector;
          entry_offset = slot.index * entry_bytes;
          flags = bit_or exfat_nofatchain exfat_contiguous;
        }))
