-- ===== src/Bounds/Indexer.antt =====
-- column_index.go: the indexers that collect the bounds of the pages, and `FileColumnIndex`, which
-- reads them back.
pub mod Pages
use parquet_go.Prelude.{
  ℕ, Bool, true, false, List, [], ◌∷◌, ◌++◌, map, length, get_elem?, Option, none, some, ◌==◌,
  if◌then◌else◌,
}
use parquet_go.Bounds.Order.{Direction, BoundaryOrder, boundary_order_of}

-- The arguments of `IndexPage`; a null `Value` is `none`.
pub record PageBounds {ℓ} (V : Type ℓ) : Type ℓ where
  pub num_values : ℕ
  pub num_nulls : ℕ
  pub min : Option V
  pub max : Option V

-- `format.ColumnIndex`
pub record FormatIndex : Type 0 where
  pub null_pages : List Bool
  pub null_counts : List ℕ
  pub min_values : List (List ℕ)
  pub max_values : List (List ℕ)
  pub boundary_order : BoundaryOrder

-- `baseColumnIndexer` and the slices of the indexer around it.
pub record Indexer {ℓ} (V : Type ℓ) : Type ℓ where
  pub null_pages : List Bool
  pub null_counts : List ℕ
  pub min_values : List V
  pub max_values : List V

module _ {ℓ} {V : Type ℓ} where
  -- `Reset` cuts every slice to length 0.
  pub reset : Indexer V → Indexer V
  reset i = record { null_pages = []; null_counts = []; min_values = []; max_values = [] }

  pub observe : Indexer V → ℕ → ℕ → Indexer V
  observe i num_values num_nulls = record i {
    null_pages = i.null_pages ++ (num_values == num_nulls) ∷ [];
    null_counts = i.null_counts ++ num_nulls ∷ [];
  }

  -- `min.int32()` and its like: the zero value of the type, of a null value.
  abbrev pub value_or : V → Option V → V
  value_or zero none = zero
  value_or zero (some v) = v

  -- `int32ColumnIndexer.IndexPage`, and so those for the other types of a fixed size.
  pub index_page : V → Indexer V → PageBounds V → Indexer V
  unfolding observe
  index_page zero i p =
      let j = observe i p.num_values p.num_nulls in
      record j {
        min_values = j.min_values ++ value_or zero p.min ∷ [];
        max_values = j.max_values ++ value_or zero p.max ∷ [];
      }

  abbrev pub append_non_null : List V → Option V → List V
  append_non_null vs none = vs
  append_non_null vs (some v) = vs ++ v ∷ []

  -- `be128ColumnIndexer.IndexPage`
  pub index_page_be128 : Indexer V → PageBounds V → Indexer V
  unfolding observe
  index_page_be128 i p =
      let j = observe i p.num_values p.num_nulls in
      record j {
        min_values = append_non_null j.min_values p.min;
        max_values = append_non_null j.max_values p.max;
      }

  -- `ColumnIndex()` over the bytes of a value and the search for the order of the values.
  pub column_index : (V → List ℕ) → (List V → Direction) → Indexer V → FormatIndex
  column_index bytes order i = record {
    null_pages = i.null_pages;
    null_counts = i.null_counts;
    min_values = map bytes i.min_values;
    max_values = map bytes i.max_values;
    boundary_order = boundary_order_of (order i.min_values) (order i.max_values);
  }

-- `FileColumnIndex.NumPages`
pub num_pages : FormatIndex → ℕ
num_pages f = length f.null_pages

-- What indexing a slice gives: the element, or a panic.
pub data Lookup {ℓ} (A : Type ℓ) : Type ℓ where
  found : A → Lookup A
  panic : Lookup A

abbrev pub at {ℓ} : {A : Type ℓ} → Option A → Lookup A
at none = panic
at (some a) = found a

-- `isNullPage`
pub null_page : List Bool → ℕ → Lookup Bool
null_page [] j = found false
null_page (b ∷ bs) j = at (get_elem? (b ∷ bs) j)

abbrev pub unless_null : Lookup Bool → Option (List ℕ) → Lookup (Option (List ℕ))
unless_null panic v = panic
unless_null (found true) v = found none
unless_null (found false) none = panic
unless_null (found false) (some v) = found (some v)

-- `FileColumnIndex.MinValue` and `MaxValue`: the null value of a null page, else the bytes.
pub min_value : FormatIndex → ℕ → Lookup (Option (List ℕ))
unfolding null_page
min_value f j = unless_null (null_page f.null_pages j) (get_elem? f.min_values j)

pub max_value : FormatIndex → ℕ → Lookup (Option (List ℕ))
unfolding null_page
max_value f j = unless_null (null_page f.null_pages j) (get_elem? f.max_values j)
