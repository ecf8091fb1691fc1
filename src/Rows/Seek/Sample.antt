-- ===== src/Rows/Seek/Sample.antt =====
-- A reader of the rows of a list, which keeps the contract of RowReader.
use parquet_go.Prelude.{
  ℕ, ◌<◌, ◌≤◌, ◌≡◌, refl, List, [], ◌∷◌, ◌++◌, length, take, drop, none, some, arith, length-take,
  suc, zero,
}
use parquet_go.Rows.Stream.{eof, Read}
use parquet_go.Rows.Seek.{RowSource, IsSource}

-- The end of file comes behind the last row.
abbrev pub read_list : ℕ → List ℕ → Read ℕ × List ℕ
read_list n [] = (record { rows = []; error = some eof }, [])
read_list n (r ∷ rs) = (record { rows = take n (r ∷ rs); error = none }, drop n (r ∷ rs))

abbrev pub list_source : RowSource ℕ (List ℕ)
list_source = record { read = read_list; pending = λ s. s }

take-drop_whole : (n : ℕ) (s : List ℕ) → s ≡ take n s ++ drop n s
take-drop_whole zero s = refl
take-drop_whole (suc n) [] = refl
take-drop_whole (suc n) (r ∷ rs) = ground (arith, take-drop_whole n rs)

next_list : (n : ℕ) (s : List ℕ) → s ≡ (read_list n s).0.rows ++ (read_list n s).1
next_list n [] = refl
next_list n (r ∷ rs) = take-drop_whole n (r ∷ rs)

within_list : (n : ℕ) (s : List ℕ) → length (read_list n s).0.rows ≤ n
within_list n [] = omega arith
within_list n (r ∷ rs) = omega (arith, length-take n (r ∷ rs))

progress_list :
    (n : ℕ) (s : List ℕ)
    → 0 < n
    → (read_list n s).0.error ≡ none
    → 0 < length (read_list n s).0.rows
progress_list n [] h e = cc
progress_list n (r ∷ rs) h e = omega (arith, length-take n (r ∷ rs))

pub list_source-IsSource : IsSource list_source
list_source-IsSource = record { next = next_list; within = within_list; progress = progress_list }
