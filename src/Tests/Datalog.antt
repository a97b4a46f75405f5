-- ===== src/Tests/Datalog.antt =====
-- A file of three blocks, of which the first two hold a log.
use lite_forth.Common.{
  ℕ, zero, suc, ◌/◌, ◌%◌, ◌≡◌, ◌⊎◌, refl, arith, List, [], ◌∷◌, ◌++◌, ltb, ◌==◌, if◌then◌else◌,
  bytes_at, same_at,
}
use lite_forth.Datalog.{starts, ends, written, dl_find_end, dl_magic, record_magic, end_magic}
use lite_forth.Datalog.Search.{IsWrittenTo, dl_find_end_lem, IsBoundary, dl_find_end-IsBoundary}

abbrev file_id : List ℕ
file_id = 1 ∷ 2 ∷ 3 ∷ 4 ∷ 5 ∷ 6 ∷ 7 ∷ 8 ∷ []

abbrev zeros : ℕ → List ℕ → List ℕ
zeros zero xs = xs
zeros (suc n) xs = 0 ∷ zeros n xs

abbrev file : ℕ → ℕ × List ℕ
file s =
    if ltb s 128
    then (if s % 64 == 0
        then (
          0,
          (if s == 0 then dl_magic ++ zeros 8 file_id else record_magic ++ file_id ++ (1 ∷ [])),
        )
        else (0, zeros 496 (s / 64 ∷ zeros 3 (file_id ++ end_magic))))
    else (0, [])

file-IsWrittenTo : IsWrittenTo file 2 3 file_id
unfolding written starts ends same_at IsWrittenTo
file-IsWrittenTo zero h = refl
file-IsWrittenTo (suc zero) h = refl
file-IsWrittenTo (suc (suc zero)) h = refl
file-IsWrittenTo (suc (suc (suc k))) h = absurd (omega arith)

dl_find_end_lem_example : dl_find_end file 3 ≡ 2
unfolding bytes_at
dl_find_end_lem_example = dl_find_end_lem file 2 3 (omega arith) (omega arith) refl file-IsWrittenTo

dl_find_end-IsBoundary_example :
    (dl_find_end file 3 ≡ 0) ⊎ IsBoundary file 3 (bytes_at 8 16 (file 0).1) (dl_find_end file 3)
dl_find_end-IsBoundary_example = dl_find_end-IsBoundary file 3
