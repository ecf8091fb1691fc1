-- ===== src/Rows/Range/Examples.antt =====
-- A chunk of pages that meets the documented behaviour of `Pages`, and the theorems at it.
use parquet_go.Prelude.{
  ℕ, ◌<◌, ◌≡◌, refl, List, [], ◌∷◌, ◌++◌, length, drop, none, some, arith, ap, if◌then◌else◌, leb,
}
use parquet_go.Prelude.Int.{pos}
use parquet_go.Rows.Stream.{Error, eof}
use parquet_go.Rows.Range.{PageResult, page, stop, PageSource, IsPages, RangePages}
use parquet_go.Rows.Range.{read_page, seek_to_row, pages}
use parquet_go.Rows.Range.Laws.{collect, pages-collect, seek_to_row-collect}

abbrev all : List ℕ
all = 10 ∷ 11 ∷ 12 ∷ 13 ∷ 14 ∷ []

-- Two rows to a page; the state is the list of rows that are left.
abbrev read_two : List ℕ → PageResult ℕ × List ℕ
read_two [] = (stop eof, [])
read_two (a ∷ []) = (page (a ∷ []), [])
read_two (a ∷ (b ∷ rest)) = (page (a ∷ b ∷ []), rest)

abbrev chunk : PageSource ℕ (List ℕ)
chunk = record {
  read_page = read_two;
  seek_to_row = λ s k. if leb k (length all) then some (drop k all) else none;
  close = λ s. s;
  pending = λ s. s;
  measure = λ s. length s;
}

page_rows : PageResult ℕ → List ℕ
page_rows (page rows) = rows
page_rows (stop e) = []

chunk-read_some :
    (s p : List ℕ)
    → (read_two s).0 ≡ page p
    → (s ≡ p ++ (read_two s).1) × (length (read_two s).1 < length s)
unfolding page_rows
chunk-read_some [] p e = cc
chunk-read_some (a ∷ []) p e = (rw (← ap page_rows e), omega arith)
chunk-read_some (a ∷ (b ∷ rest)) p e = (rw (← ap page_rows e), omega arith)

chunk-read_end : (s : List ℕ) (e : Error) → (read_two s).0 ≡ stop e → (e ≡ eof) × (s ≡ [])
chunk-read_end [] e h = (cc, refl)
chunk-read_end (a ∷ []) e h = cc
chunk-read_end (a ∷ (b ∷ rest)) e h = cc

chunk-IsPages : IsPages chunk all
chunk-IsPages = record {
  read_some = chunk-read_some;
  read_end = chunk-read_end;
  seek = λ s k h. (drop k all, ground arith, refl);
}

view : RangePages (List ℕ)
view = record { base = drop 1 all; off = 1; length = 3; remaining = 3 }

reads_range : collect chunk 9 view ≡ some (11 ∷ 12 ∷ 13 ∷ [])
unfolding collect read_page view
reads_range = refl

pages-collect_example :
    (p : RangePages (List ℕ)) × (pages chunk all 1 3 ≡ some p)
    × ((fuel : ℕ) → length p.base < fuel → collect chunk fuel p ≡ some (11 ∷ 12 ∷ 13 ∷ []))
pages-collect_example = pages-collect chunk chunk-IsPages all 1 3 (omega arith)

seek_to_row-collect_example :
    (q : RangePages (List ℕ)) × (seek_to_row chunk
        (record { base = []; off = 1; length = 3; remaining = 0 })
        (pos 2)
      ≡ some q)
    × ((fuel : ℕ) → length q.base < fuel → collect chunk fuel q ≡ some (13 ∷ []))
seek_to_row-collect_example =
    seek_to_row-collect chunk chunk-IsPages
      (record { base = []; off = 1; length = 3; remaining = 0 }) 2 (omega arith) (omega arith)
