-- ===== src/Bounds/Order.antt =====
-- order.go and order_purego.go: the order of the bounds of a column's pages, and boundaryOrderOf.
-- The loops over `data` run from its end; they only read, so the tests are met in another order.
pub mod Sorted
use parquet_go.Prelude.{
  ℕ, ◌+◌, Bool, true, false, ◌&&◌, not, List, [], ◌∷◌, Ordering, is_le, is_lt, is_gt, is_eq,
  if◌then◌else◌, length, ◌==◌, ltb, drop,
}
use parquet_go.Bounds.Bytes.{compare_bytes}

-- The int results +1, 0 and -1.
pub data Direction : Type 0 where
  up none down : Direction

module _ {ℓ} {A : Type ℓ} (cmp : A → A → Ordering) where
  -- `orderIsAscending` and `bytesAreInAscendingOrder`: no neighbours fall.
  pub is_ascending : List A → Bool
  is_ascending [] = true
  is_ascending (a ∷ []) = true
  is_ascending (a ∷ (b ∷ rest)) = not (is_gt (cmp a b)) && is_ascending (b ∷ rest)

  -- `orderIsDescending` and `bytesAreInDescendingOrder`.
  pub is_descending : List A → Bool
  is_descending [] = true
  is_descending (a ∷ []) = true
  is_descending (a ∷ (b ∷ rest)) = not (is_lt (cmp a b)) && is_descending (b ∷ rest)

  -- `orderOf`
  pub order_of : List A → Direction
  unfolding is_ascending is_descending
  order_of list =
      if ltb 1 (length list)
      then (if is_ascending list
          then Direction.up
          else if is_descending list
          then Direction.down
          else Direction.none)
      else Direction.none

  -- `skipBytesStreak`: from the last of the leading values that are equal to the first. The loop is at
  -- `last`, and `rest` is what follows.
  pub skip_streak_loop : A → A → List A → List A
  skip_streak_loop first last [] = last ∷ []
  skip_streak_loop first last (a ∷ rest) =
      if not (is_eq (cmp a first)) then last ∷ (a ∷ rest) else skip_streak_loop first a rest

  pub skip_streak : List A → List A
  unfolding skip_streak_loop
  skip_streak [] = []
  skip_streak (a ∷ rest) = skip_streak_loop a a rest

  -- The decision on what `skipBytesStreak` leaves.
  pub order_of_tail : List A → Direction
  unfolding is_ascending is_descending
  order_of_tail [] = Direction.up
  order_of_tail (a ∷ []) = Direction.up
  order_of_tail (a ∷ (b ∷ rest)) = elim (cmp a b) [
    | Ordering.lt ↦ if is_ascending (b ∷ rest) then Direction.up else Direction.none
    | Ordering.gt ↦ if is_descending (b ∷ rest) then Direction.down else Direction.none
    | Ordering.eq ↦ Direction.none
  ]

  -- `orderOfBytes`, over any values in place of byte slices.
  pub order_of_values : List A → Direction
  unfolding skip_streak order_of_tail
  order_of_values [] = Direction.none
  order_of_values (a ∷ []) = Direction.none
  order_of_values (a ∷ (b ∷ rest)) = order_of_tail (skip_streak (a ∷ (b ∷ rest)))

abbrev pub order_of_bytes : List (List ℕ) → Direction
order_of_bytes = order_of_values compare_bytes

-- `streakOfTrue` and `streakOfFalse`: the index of the first other value, or the length.
pub streak_of : Bool → List Bool → ℕ
streak_of v [] = 0
streak_of true (true ∷ rest) = streak_of true rest + 1
streak_of false (false ∷ rest) = streak_of false rest + 1
streak_of true (false ∷ rest) = 0
streak_of false (true ∷ rest) = 0

pub order_of_bool : List Bool → Direction
unfolding streak_of
order_of_bool [] = Direction.none
order_of_bool (a ∷ []) = Direction.none
order_of_bool (true ∷ (b ∷ rest)) =
    let list : List Bool = true ∷ (b ∷ rest) in
    let i = streak_of true list in
    let j = i + streak_of false (drop i list) in
    if i == length list
    then Direction.up
    else if j == length list
    then Direction.down
    else Direction.none
order_of_bool (false ∷ (b ∷ rest)) =
    let list : List Bool = false ∷ (b ∷ rest) in
    let i = streak_of false list in
    let j = i + streak_of true (drop i list) in
    if j == length list then Direction.up else Direction.none

-- `format.BoundaryOrder`
pub data BoundaryOrder : Type 0 where
  unordered ascending descending : BoundaryOrder

-- `boundaryOrderOf`
pub boundary_order_of : Direction → Direction → BoundaryOrder
boundary_order_of Direction.up Direction.up = BoundaryOrder.ascending
boundary_order_of Direction.down Direction.down = BoundaryOrder.descending
boundary_order_of _ _ = BoundaryOrder.unordered
