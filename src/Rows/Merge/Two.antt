-- ===== src/Rows/Merge/Two.antt =====
-- merge.go: the loop by which mergedRowReader2 merges the buffered rows of two readers.
use parquet_go.Prelude.{
  ℕ, zero, suc, ◌+◌, ◌-◌, ◌%◌, ◌^◌, Bool, false, ◌&&◌, List, [], ◌∷◌, ◌++◌, length, take, drop,
  Option, none, some, Ordering, if◌then◌else◌, ltb, leb,
}
use parquet_go.Rows.Merge.{run_length}

-- What the loop leaves: the rows emitted, the buffered rows of both readers, and the fields `prev`, as the
-- result of a comparison, and `streak`, as the pattern of an int32.
pub record Merged {ℓ} (R : Type ℓ) : Type ℓ where
  pub rows : List R
  pub left : List R
  pub right : List R
  pub prev : Ordering
  pub streak : ℕ

abbrev pub run_detection_streak : ℕ
run_detection_streak = 3

-- `m.streak >= runDetectionStreak`
abbrev pub is_streak : ℕ → Bool
is_streak streak = leb run_detection_streak streak && ltb streak (2 ^ 31)

-- The streak after a game that the reader `winner` won.
abbrev pub next_streak : Ordering → Ordering → ℕ → ℕ
next_streak Ordering.lt Ordering.lt streak = (streak + 1) % 2 ^ 32
next_streak Ordering.gt Ordering.gt streak = (streak + 1) % 2 ^ 32
next_streak _ _ streak = 0

module _ {ℓ} {R : Type ℓ} (compare : R → R → Ordering) where
  -- The number of rows that `emitRun` emits of the buffered rows, with room for `k`.
  unfoldable pub run_of : ℕ → List R → R → Option ℕ
  run_of k buffered bound =
      let window = take k buffered in
      if ltb 1 (length window)
      then elim (run_length compare false (drop 1 window) bound) [
        | none ↦ none
        | some n ↦ some (1 + n)
      ]
      else some 1

  -- `if !hasNext0 || !hasNext1 { break }`, else the rows of the further rounds behind those emitted.
  abbrev pub go_on : List R → List R → List R → Ordering → ℕ → Option (Merged R) → Option (Merged R)
  go_on out [] right prev streak more =
      some (record { rows = out; left = []; right = right; prev = prev; streak = streak })
  go_on out (x ∷ left) [] prev streak more =
      some (record { rows = out; left = x ∷ left; right = []; prev = prev; streak = streak })
  go_on out (x ∷ left) (y ∷ right) prev streak none = none
  go_on out (x ∷ left) (y ∷ right) prev streak (some m) = some (record m { rows = out ++ m.rows })

  -- The rows of a tie, the second one if there is room for `k` rows behind the first one.
  abbrev pub emit_tie :
      ℕ → R → List R → R → List R → (ℕ → List R → List R → Option (Merged R)) → Option (Merged R)
  emit_tie zero x left y right rest =
      go_on (x ∷ []) left (y ∷ right) Ordering.eq 0 (rest 0 left (y ∷ right))
  emit_tie (suc k) x left y right rest =
      go_on (x ∷ y ∷ []) left right Ordering.eq 0 (rest k left right)

  -- The loop of `ReadRows` with room for `k` rows; each round emits one at least. Both readers have buffered
  -- rows when it begins. `none` means that the fuel ran out.
  unfoldable pub merge_loop : ℕ → ℕ → List R → List R → Ordering → ℕ → Option (Merged R)
  unfolding run_of
  merge_loop fuel zero left right prev streak =
      some (record { rows = []; left = left; right = right; prev = prev; streak = streak })
  merge_loop zero (suc k) left right prev streak = none
  merge_loop (suc fuel) (suc k) [] right prev streak = none
  merge_loop (suc fuel) (suc k) (x ∷ left) [] prev streak = none
  merge_loop (suc fuel) (suc k) (x ∷ left) (y ∷ right) prev streak = elim (compare x y) [
    | Ordering.lt ↦
        let streak' = next_streak Ordering.lt prev streak in
        elim (if is_streak streak' then run_of (suc k) (x ∷ left) y else some 1) [
          | none ↦ none
          | some n ↦
              go_on (take n (x ∷ left)) (drop n (x ∷ left)) (y ∷ right) Ordering.lt streak'
                (merge_loop fuel (suc k - n) (drop n (x ∷ left)) (y ∷ right) Ordering.lt streak')
        ]
    | Ordering.gt ↦
        let streak' = next_streak Ordering.gt prev streak in
        elim (if is_streak streak' then run_of (suc k) (y ∷ right) x else some 1) [
          | none ↦ none
          | some n ↦
              go_on (take n (y ∷ right)) (x ∷ left) (drop n (y ∷ right)) Ordering.gt streak'
                (merge_loop fuel (suc k - n) (x ∷ left) (drop n (y ∷ right)) Ordering.gt streak')
        ]
    | Ordering.eq ↦ emit_tie k x left y right (λ k' l r. merge_loop fuel k' l r Ordering.eq 0)
  ]
