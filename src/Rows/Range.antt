-- ===== src/Rows/Range.antt =====
-- row_range.go: the pages of rows [off, off + length) of a column chunk.
pub mod Laws
mod Examples
use parquet_go.Prelude.{
  ℕ, ◌+◌, ◌-◌, ◌<◌, ◌≡◌, Bool, true, false, List, [], ◌∷◌, ◌++◌, length, take, drop, Option, none,
  some, if◌then◌else◌, ltb, leb, ◌==◌,
}
use parquet_go.Prelude.Int.{ℤ, pos, negsuc}
use parquet_go.Rows.Stream.{Error, eof, failed}

-- What `Pages.ReadPage` returns; a page is the list of its rows.
pub data PageResult {ℓ} (R : Type ℓ) : Type ℓ where
  page : List R → PageResult R
  stop : Error → PageResult R

-- The `Pages` interface of a column chunk, over the states `S` of its implementation. The rows from
-- the current position to the end and a bound on the pages read until then describe a state.
pub record PageSource {ℓ} (R : Type ℓ) (S : Type 0) : Type ℓ where
  pub read_page : S → PageResult R × S
  pub seek_to_row : S → ℕ → Option S
  pub close : S → S
  pub pending : S → List R
  pub measure : S → ℕ

-- The documented behaviour of `Pages` for a chunk whose rows are `all`: pages are consecutive, the end
-- of file comes behind the last row, and a seek within the chunk finds the row.
pub record IsPages {ℓ} {R : Type ℓ} {S : Type 0} (src : PageSource R S) (all : List R)
    : Type ℓ where
  pub read_some :
      (s : S) (p : List R)
      → (src.read_page s).0 ≡ page p
      → (src.pending s ≡ p ++ src.pending ((src.read_page s).1))
        × (src.measure ((src.read_page s).1) < src.measure s)
  pub read_end :
      (s : S) (e : Error) → (src.read_page s).0 ≡ stop e → (e ≡ eof) × (src.pending s ≡ [])
  pub seek :
      (s : S) (k : ℕ)
      → k < length all + 1
      → (t : S) × (src.seek_to_row s k ≡ some t) × (src.pending t ≡ drop k all)

-- `rangePages`, with the position of `base` in its own state.
pub record RangePages (S : Type 0) : Type 0 where
  pub base : S
  pub off : ℕ
  pub length : ℕ
  pub remaining : ℕ

module _ {ℓ} {R : Type ℓ} {S : Type 0} (src : PageSource R S) where
  pub read_sized : RangePages S → PageResult R × S → PageResult R × RangePages S
  read_sized p (stop e, s) = (stop e, record p { base = s })
  read_sized p (page rows, s) =
      if leb (length rows) p.remaining
      then (page rows, record p { base = s; remaining = p.remaining - length rows })
      else (page (take p.remaining rows), record p { base = s; remaining = 0 })

  -- `rangePages.ReadPage`; `remaining` does not fall below 0.
  pub read_page : RangePages S → PageResult R × RangePages S
  unfolding read_sized
  read_page p = if p.remaining == 0 then (stop eof, p) else read_sized p (src.read_page p.base)

  pub seek_base : RangePages S → ℕ → Option S → Option (RangePages S)
  seek_base p i none = none
  seek_base p i (some s) = some (record p { base = s; remaining = p.length - i })

  -- `rangePages.SeekToRow`; `none` is an error, and the state is as it was.
  pub seek_to_row : RangePages S → ℤ → Option (RangePages S)
  unfolding seek_base
  seek_to_row p (negsuc n) = none
  seek_to_row p (pos i) =
      if ltb p.length i then none else seek_base p i (src.seek_to_row p.base (p.off + i))

  pub close : RangePages S → RangePages S
  close p = record p { base = src.close p.base; remaining = 0 }

  -- `rangeColumnChunk.Pages` over the pages of the base chunk; where it does not find the first row it
  -- returns an `errorPages`.
  pub pages : S → ℕ → ℕ → Option (RangePages S)
  pages s off len = elim (src.seek_to_row s off) [
    | none ↦ none
    | some t ↦ some (record { base = t; off = off; length = len; remaining = len })
  ]
