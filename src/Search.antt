-- ===== src/Search.antt =====
-- search.go: the search for the first page of a column chunk that may hold a value.
pub mod Linear
pub mod Binary
mod Examples
use parquet_go.Prelude.{
  ℕ, zero, suc, ◌+◌, ◌-◌, ◌/◌, Bool, true, false, ◌&&◌, ◌||◌, Option, none, some, Ordering, ltb,
  if◌then◌else◌, is_lt, is_gt, is_le,
}

-- What search.go reads of a `ColumnIndex`. Pages are numbered from 0, and `int` page numbers do
-- not leave the range of a slice's length.
pub record ColumnIndex {ℓ} (V : Type ℓ) : Type ℓ where
  pub num_pages : ℕ
  pub min_value : ℕ → V
  pub max_value : ℕ → V
  pub is_ascending : Bool

module _ {ℓ} {V : Type ℓ} (cmp : V → V → Ordering) where
  -- The test of `linearSearch`.
  abbrev pub contains : ColumnIndex V → V → ℕ → Bool
  contains index value i =
      is_le (cmp (index.min_value i) value) && is_le (cmp value (index.max_value i))

  -- `k` is the number of rounds that `for i := range n` has left.
  pub linear_loop : ColumnIndex V → V → ℕ → ℕ → ℕ
  linear_loop index value zero i = index.num_pages
  linear_loop index value (suc k) i =
      let rest = linear_loop index value k (i + 1) in if contains index value i then i else rest

  pub linear_search : ColumnIndex V → V → ℕ
  unfolding linear_loop
  linear_search index value = linear_loop index value index.num_pages 0

  -- The loop of `binarySearch`; `none` means that the fuel ran out.
  pub binary_loop : ColumnIndex V → V → ℕ → ℕ → ℕ → Option ℕ
  binary_loop index value zero current top = none
  binary_loop index value (suc fuel) current top =
      let next = (top - current) / 2 + current in
      let below = binary_loop index value fuel current next in
      let above = binary_loop index value fuel (next + 1) top in
      if ltb current top
      then (if is_lt (cmp value (index.min_value next))
          then below
          else if is_gt (cmp value (index.max_value next))
          then above
          else below)
      else some current

  -- The check behind the loop.
  pub verify_page : ColumnIndex V → V → ℕ → ℕ
  verify_page index value current =
      if ltb current index.num_pages
      then (if is_lt (cmp value (index.min_value current))
            || is_gt (cmp value (index.max_value current))
          then index.num_pages
          else current)
      else current

  -- Each round makes the range smaller, so `num_pages + 1` rounds are enough.
  pub binary_search : ColumnIndex V → V → Option ℕ
  unfolding binary_loop verify_page
  binary_search index value =
      elim (binary_loop index value (index.num_pages + 1) 0 index.num_pages) [
        | none ↦ none
        | some current ↦ some (verify_page index value current)
      ]

  pub find : ColumnIndex V → V → Option ℕ
  unfolding binary_search linear_search
  find index value =
      let found = binary_search index value in
      if index.is_ascending then found else some (linear_search index value)
