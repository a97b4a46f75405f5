-- ===== src/Datalog.antt =====
-- The search for the end of a log after a power cut: dl_find_end of src/datalog.c. A sector is a
-- list of 512 bytes; reading is a parameter, which gives an error and a sector, and does not change
-- what is read.
pub mod Search
use lite_forth.Common.{
  ℕ, zero, suc, ◌+◌, ◌-◌, ◌*◌, ◌/◌, ◌%◌, ◌^◌, Bool, true, false, not, ◌&&◌, ◌||◌, List, [], ◌∷◌,
  bit_or, ltb, ◌==◌, if◌then◌else◌, get_or, u32, neg32, bytes_at, same_at,
}

-- DL_RECORD / DL_SECTOR
abbrev pub sectors : ℕ
sectors = 32768 / 512

-- DL_MAGIC, "LFLB" and "LFLE"
abbrev pub dl_magic : List ℕ
dl_magic = 0x4C ∷ 0x46 ∷ 0x4C ∷ 0x4F ∷ 0x47 ∷ 0x30 ∷ 0x30 ∷ 0x31 ∷ []

abbrev pub record_magic : List ℕ
record_magic = 0x4C ∷ 0x46 ∷ 0x4C ∷ 0x42 ∷ []

abbrev pub end_magic : List ℕ
end_magic = 0x4C ∷ 0x46 ∷ 0x4C ∷ 0x45 ∷ []

abbrev pub get32 : ℕ → List ℕ → ℕ
get32 i buf =
    bit_or
      (bit_or (bit_or (get_or buf i 0) (get_or buf (i + 1) 0 * 2 ^ 8))
        (get_or buf (i + 2) 0 * 2 ^ 16))
      (get_or buf (i + 3) 0 * 2 ^ 24)

-- The frame at a block's start and at its end.
unfoldable pub starts : ℕ → List ℕ → List ℕ → Bool
unfolding same_at
starts k id buf =
    if k == 0
    then same_at 0 dl_magic buf && same_at 16 id buf
    else same_at 0 record_magic buf && same_at 4 id buf && (get32 12 buf == k)

unfoldable pub ends : ℕ → List ℕ → List ℕ → Bool
unfolding same_at
ends k id buf = (get32 496 buf == k) && same_at 500 id buf && same_at 508 end_magic buf

-- `err < 0 ? err : -1`
abbrev pub negative : ℕ → ℕ
negative err = if ltb err (2 ^ 31) then neg32 1 else err

module _ (read : ℕ → ℕ × List ℕ) where
  -- The error, and whether block k is written.
  unfoldable pub written : ℕ → List ℕ → ℕ × Bool
  written k id =
      let (err, first) = read (u32 (k * sectors)) in
      let (err', last) = read (u32 (k * sectors + sectors - 1)) in
      if err == 0
      then (if starts k id first
          then (if err' == 0 then (0, ends k id last) else (err', false))
          else (0, false))
      else (err, false)

  -- The loop of the search, on fuel: the number of blocks is enough.
  unfoldable pub find_end : ℕ → List ℕ → ℕ → ℕ → ℕ
  find_end zero id lo hi = lo
  find_end (suc fuel) id lo hi =
      let mid = lo + (hi - lo) / 2 in
      let r = written mid id in
      elim (ltb lo hi) [
        | true ↦ elim r.1 [
          | true ↦ find_end fuel id (mid + 1) hi
          | false ↦ elim (r.0 == 0) [ true ↦ find_end fuel id lo mid | false ↦ negative r.0 ]
        ]
        | false ↦ lo
      ]

  unfoldable pub dl_find_end : ℕ → ℕ
  unfolding bytes_at
  dl_find_end blocks =
      let (err, buf) = read 0 in
      let id = bytes_at 8 16 buf in
      let r = written 0 id in
      if err == 0
      then (if not (same_at 0 dl_magic buf) || (blocks == 0)
          then 0
          else (if r.1
              then find_end blocks id 1 blocks
              else (if r.0 == 0 then 0 else negative r.0)))
      else negative err
