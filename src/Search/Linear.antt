-- ===== src/Search/Linear.antt =====
-- `linearSearch` against its description: the first page whose bounds enclose the value.
use parquet_go.Prelude.{
  ℕ, zero, suc, ◌+◌, ◌≤◌, ◌<◌, ◌≡◌, inl, inr, true, false, Ordering, arith, Bool-cases,
}
use native.Mathlib.Decide.{dec_lt}
use parquet_go.Prelude.Order.{below_suc}
use parquet_go.Search.{ColumnIndex, contains, linear_loop, linear_search}

module _ {ℓ} {V : Type ℓ} (cmp : V → V → Ordering) (index : ColumnIndex V) (value : V) where
  -- No page from `i` on and before `j` may hold the value.
  abbrev pub NoneIn : ℕ → ℕ → Type 0
  NoneIn i j = (k : ℕ) → i ≤ k → k < j → contains cmp index value k ≡ false

  -- `r` is the first page that may hold the value, or `num_pages` where there is none.
  pub record IsFirst (r : ℕ) : Type 0 where
    pub bounded : r ≤ index.num_pages
    pub before : (k : ℕ) → k < r → contains cmp index value k ≡ false
    pub here : r < index.num_pages → contains cmp index value r ≡ true

  linear_loop-IsFirst :
      (k i : ℕ)
      → i + k ≡ index.num_pages
      → ((j : ℕ) → j < i → contains cmp index value j ≡ false)
      → IsFirst (linear_loop cmp index value k i)
  unfolding linear_loop
  linear_loop-IsFirst zero i e h = record {
    bounded = omega arith;
    before = λ j p. h j (omega arith);
    here = λ p. absurd (omega arith);
  }
  linear_loop-IsFirst (suc k) i e h = elim (Bool-cases (contains cmp index value i)) [
    | inl p ↦ rw p (record { bounded = omega arith; before = h; here = λ _. p })
    | inr p ↦ rw p (linear_loop-IsFirst k (i + 1) (omega arith) (below_suc _ i h p))
  ]

  -- `linearSearch` returns the first page whose bounds enclose the value, and `NumPages` exactly
  -- where no page encloses it.
  pub linear_search-IsFirst : IsFirst (linear_search cmp index value)
  unfolding linear_search
  linear_search-IsFirst =
      linear_loop-IsFirst index.num_pages 0 (omega arith) (λ j p. absurd (omega arith))

  -- There is one such page only.
  pub IsFirst-unique : (r s : ℕ) → IsFirst r → IsFirst s → r ≡ s
  IsFirst-unique r s p q = elim (dec_lt r s) [
    | yes a ↦ cc (q.before r a, p.here (omega (arith, q.bounded)))
    | no a ↦ elim (dec_lt s r) [
      | yes b ↦ cc (p.before s b, q.here (omega (arith, p.bounded)))
      | no b ↦ omega arith
    ]
  ]
