-- ===== src/Rows/Dedupe/Examples.antt =====
-- Runs of the deduplication, and its theorems at concrete inputs.
use parquet_go.Prelude.{
  ℕ, ◌≡◌, refl, List, [], ◌∷◌, Ordering, none, some, compare, take, IsOrder, compare-IsOrder,
}
use parquet_go.Rows.Stream.{eof, Read, delivered}
use parquet_go.Rows.Dedupe.{Dedupe, deduplicate, read_rows, write_rows}
use parquet_go.Rows.Dedupe.Laws.{Strict, deduplicate-Strict, distinct}
use parquet_go.Rows.Dedupe.Reader

-- Rows ordered by their first value.
abbrev key : List ℕ → ℕ
key [] = 0
key (x ∷ xs) = x

abbrev by_key : List ℕ → List ℕ → Ordering
by_key a b = compare (key a) (key b)

by_key-IsOrder : IsOrder by_key
by_key-IsOrder = record {
  flip = λ a b. compare-IsOrder.flip (key a) (key b);
  le_trans = λ a b c. compare-IsOrder.le_trans (key a) (key b) (key c);
}

abbrev fresh : Dedupe ℕ
fresh = record { last_row = [] }

abbrev rows : List (List ℕ)
rows = (1 ∷ 7 ∷ []) ∷ (1 ∷ 8 ∷ []) ∷ (2 ∷ []) ∷ []

keeps_two : (deduplicate by_key fresh rows).count ≡ 2
unfolding deduplicate
keeps_two = refl

deduplicate-Strict_example :
    Strict by_key (take (deduplicate by_key fresh rows).count (deduplicate by_key fresh rows).rows)
deduplicate-Strict_example =
    deduplicate-Strict by_key by_key-IsOrder rows ((refl, (refl, tt)), ((refl, tt), (tt, tt)))
      (refl, (refl, (refl, tt)))

abbrev calls : List (Read (List ℕ))
calls =
    record { rows = (1 ∷ []) ∷ []; error = none }
    ∷ record { rows = (1 ∷ 5 ∷ []) ∷ []; error = none }
    ∷ record { rows = (4 ∷ []) ∷ []; error = some eof }
    ∷ []

read_rows-distinct_example :
    distinct by_key [] (delivered calls) ≡ Reader.outcome by_key (read_rows by_key fresh calls)
read_rows-distinct_example = Reader.read_rows-distinct by_key fresh calls

write_rows-WritesDistinct_example :
    Reader.WritesDistinct by_key fresh rows (write_rows by_key (λ r. (2, none)) fresh rows)
write_rows-WritesDistinct_example =
    Reader.write_rows-WritesDistinct by_key (λ r. (2, none)) fresh rows
