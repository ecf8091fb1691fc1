-- ===== src/Rows/Merge.antt =====
-- merge.go: how the merging readers find the rows of one reader that they may emit together.
pub mod Run
pub mod Buffered
pub mod Two
pub mod Reader
pub mod Tree
pub mod Many
pub mod Emits
pub mod Loop
pub mod Ordered
mod Examples
use parquet_go.Prelude.{
  ℕ, zero, suc, ◌+◌, ◌-◌, ◌*◌, ◌/◌, Bool, true, false, ◌&&◌, List, length, get_elem?, Option, none,
  some, Ordering, is_le, is_lt, if◌then◌else◌, ltb, ◌==◌, min,
}

-- `k <= max` for a comparison's result `k`: `max` is 0 to include ties and -1 to exclude them.
abbrev pub at_most : Bool → Ordering → Bool
at_most true k = is_le k
at_most false k = is_lt k

-- The loops of `runLength` over the test `within` of the rows of a window of `len` rows; `none` means
-- that the fuel ran out.
module _ (within : ℕ → Bool) (len : ℕ) where
  -- `for hi < len(window) && … { lo = hi; hi *= 2 }`
  pub gallop : ℕ → ℕ → ℕ → Option (ℕ × ℕ)
  gallop zero lo hi = none
  gallop (suc fuel) lo hi =
      let further = gallop fuel hi (hi * 2) in
      if ltb hi len && within hi then further else some (lo, hi)

  -- `for lo+1 < hi { … }`
  pub refine : ℕ → ℕ → ℕ → Option ℕ
  refine zero lo hi = none
  refine (suc fuel) lo hi =
      let mid = (lo + hi) / 2 in
      let upper = refine fuel mid hi in
      let lower = refine fuel lo mid in
      if ltb (lo + 1) hi then (if within mid then upper else lower) else some hi

  abbrev pub refine_gallop : Option (ℕ × ℕ) → Option ℕ
  refine_gallop none = none
  refine_gallop (some (lo, hi)) = refine (len + 1) lo (min hi len)

  -- Both loops bring their numbers closer to `len` or to each other in each round.
  pub run_length_of : Option ℕ
  unfolding gallop refine
  run_length_of =
      let inside = refine_gallop (gallop (len + 1) 0 1) in
      if len == 0
      then some 0
      else if within 0
      then (if within (len - 1) then some len else inside)
      else some 0

module _ {ℓ} {R : Type ℓ} (compare : R → R → Ordering) where
  -- The test of the row at an index that is within the window.
  abbrev pub within_bound : Bool → List R → R → ℕ → Bool
  within_bound ties window bound i = elim (get_elem? window i) [
    | none ↦ false
    | some row ↦ at_most ties (compare row bound)
  ]

  -- `runLength`
  pub run_length : Bool → List R → R → Option ℕ
  unfolding run_length_of
  run_length ties window bound = run_length_of (within_bound ties window bound) (length window)
