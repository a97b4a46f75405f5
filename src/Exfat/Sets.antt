-- ===== src/Exfat/Sets.antt =====
-- Entry sets of a directory, as exfat_find and exfat_list of src/exfat.c read them, entry by entry.
use lite_forth.Common.{
  [], ℕ, zero, suc, ◌+◌, ◌-◌, ◌*◌, ◌/◌, ◌%◌, ◌^◌, Bool, true, false, not, ◌&&◌, ◌||◌, List, ◌∷◌,
  ◌++◌, bit_or, ltb, leb, ◌==◌, if◌then◌else◌, ◌⊎◌, inl, inr, get_or, take, drop, length, u32,
  neg32,
}
use lite_forth.Exfat.{
  ExfatVol, ExfatFile, FatCache, DirCursor, le16, le32, le64, bit, entry_of, exfat_sum16,
  entry_bytes,
}

-- ERR_FILE_NOT_FOUND, NAME_CHARS and the flags
abbrev pub file_not_found : ℕ
file_not_found = neg32 38

abbrev pub name_chars : ℕ
name_chars = 15

abbrev pub exfat_nofatchain : ℕ
exfat_nofatchain = 1

abbrev pub exfat_contiguous : ℕ
exfat_contiguous = 2

abbrev pub exfat_directory : ℕ
exfat_directory = 4

abbrev pub ascii_upper : ℕ → ℕ
ascii_upper c = if leb 97 c && leb c 122 then c - 32 else c

-- NameHash of a name, from `sum` on.
unfoldable pub name_hash : ℕ → List ℕ → ℕ
unfolding exfat_sum16
name_hash sum [] = sum
name_hash sum (c ∷ cs) = name_hash (exfat_sum16 sum (ascii_upper c ∷ 0 ∷ [])) cs

-- SetChecksum of an entry set's first entry.
abbrev pub first_sum : List ℕ → ℕ
first_sum e = exfat_sum16 (exfat_sum16 0 (take 2 e)) (take (entry_bytes - 4) (drop 4 e))

-- What exfat_find reads of an entry set.
pub record FoundSet : Type 0 where
  pub sum : ℕ
  pub stream_flags : ℕ
  pub name_len : ℕ
  pub hash : ℕ
  pub valid : ℕ
  pub first_cluster : ℕ
  pub data_length : ℕ
  pub matched : ℕ
  pub chars : ℕ

-- What exfat_list reads of one: `name` holds `chars` characters.
pub record ListedSet : Type 0 where
  pub sum : ℕ
  pub flags : ℕ
  pub name_len : ℕ
  pub valid : ℕ
  pub first_cluster : ℕ
  pub data_length : ℕ
  pub name : List ℕ

-- The loop of exfat_find over the characters of a name entry, from character j on.
unfoldable pub match_chars : List ℕ → List ℕ → ℕ → ℕ → FoundSet → FoundSet
match_chars name e zero j s = s
match_chars name e (suc left) j s = elim (ltb s.chars s.name_len) [
  | true ↦
      let same = ascii_upper (le16 e (2 + 2 * j)) == ascii_upper (get_or name s.chars 0) in
      match_chars name e left (j + 1) (record s {
        matched = if ltb s.chars (length name) && same then u32 (s.matched + 1) else s.matched;
        chars = u32 (s.chars + 1);
      })
  | false ↦ s
]

-- An entry of the set for exfat_find: k counts them from 1.
unfoldable pub find_entry : List ℕ → ℕ → List ℕ → FoundSet → FoundSet
unfolding match_chars
find_entry name k e s =
    let summed = record s { sum = exfat_sum16 s.sum (take entry_bytes e) } in
    if k == 1
    then (record summed {
      stream_flags = get_or e 1 0;
      name_len = get_or e 3 0;
      hash = le16 e 4;
      valid = le64 e 8;
      first_cluster = le32 e 20;
      data_length = le64 e 24;
    })
    else (if get_or e 0 0 == 0xC1 then match_chars name e name_chars 0 summed else summed)

-- The same for exfat_list.
unfoldable pub list_chars : List ℕ → ℕ → ℕ → ListedSet → ListedSet
list_chars e zero j s = s
list_chars e (suc left) j s = elim (ltb (length s.name) s.name_len) [
  | true ↦
      let c = le16 e (2 + 2 * j) in
      list_chars e left (j + 1)
        (record s { name = s.name ++ ((if leb 0x20 c && ltb c 0x7F then c else 0x3F) ∷ []) })
  | false ↦ s
]

unfoldable pub list_entry : ℕ → List ℕ → ListedSet → ListedSet
unfolding list_chars
list_entry k e s =
    let summed = record s { sum = exfat_sum16 s.sum (take entry_bytes e) } in
    if k == 1
    then (record summed {
      flags = if bit (get_or e 1 0) 1 == 0 then s.flags else bit_or s.flags exfat_nofatchain;
      name_len = get_or e 3 0;
      valid = le64 e 8;
      first_cluster = le32 e 20;
      data_length = le64 e 24;
    })
    else (if get_or e 0 0 == 0xC1 then list_chars e name_chars 0 summed else summed)

-- The clusters that a file of that many bytes takes, in uint64_t.
abbrev pub clusters_of : ExfatVol → ℕ → ℕ
clusters_of vol bytes = (bytes + 2 ^ (9 + vol.spc_shift) - 1) % 2 ^ 64 / 2 ^ (9 + vol.spc_shift)

-- An entry that does not begin an entry set.
abbrev pub no_set : List ℕ → Bool
no_set e = not (get_or e 0 0 == 0x85) || ltb (get_or e 1 0) 2 || ltb 18 (get_or e 1 0)

-- Entry k of a set that is not one: not in use, not secondary, or no stream first.
abbrev pub no_part : ℕ → List ℕ → Bool
no_part k e = not (get_or e 0 0 / 2 ^ 6 % 4 == 3) || ((k == 1) && not (get_or e 0 0 == 0xC0))

abbrev pub begin_found : List ℕ → FoundSet
begin_found e = record {
  sum = first_sum e;
  stream_flags = 0;
  name_len = 0;
  hash = 0;
  valid = 0;
  first_cluster = 0;
  data_length = 0;
  matched = 0;
  chars = 0;
}

abbrev pub begin_listed : List ℕ → ListedSet
begin_listed e = record {
  sum = first_sum e;
  flags = 0;
  name_len = 0;
  valid = 0;
  first_cluster = 0;
  data_length = 0;
  name = [];
}

-- What exfat_list does with a whole set: the callback told.
unfoldable pub list_visit :
    {C : Type 0}
    → (C → List ℕ → ExfatFile → ℕ × C)
    → C
    → DirCursor
    → ListedSet
    → FatCache
    → (ℕ × C) ⊎ C
list_visit fn ctx d s cache =
    let e = entry_of d in
    let file : ExfatFile = record {
      length = s.data_length;
      valid = s.valid;
      first_cluster = s.first_cluster;
      first_sector = 0;
      entry_sector = d.loaded;
      entry_offset = d.index * entry_bytes;
      flags = if bit (le16 e 4) 4 == 0 then s.flags else bit_or s.flags exfat_directory;
    } in
    let (stop, ctx') = fn ctx s.name file in
    if (s.sum == le16 e 2) && ltb 0 s.name_len && (length s.name == s.name_len)
    then (if stop == 0 then inr ctx' else inl (stop, ctx'))
    else inr ctx
