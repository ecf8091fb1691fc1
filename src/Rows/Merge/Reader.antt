-- ===== src/Rows/Merge/Reader.antt =====
-- merge.go: mergedRowReader2, the reader that merges the rows of two readers.
pub mod Steps
pub mod Calls
pub mod Whole
mod Examples
use parquet_go.Prelude.{
  ℕ, zero, suc, ◌+◌, Bool, true, false, List, [], ◌∷◌, ◌++◌, Option, none, some, Ordering,
}
use parquet_go.Rows.Stream.{Error, Read}
use parquet_go.Rows.Merge.Buffered.{Buffered, Outcome, stuck, failing, ready, read, refill}
use parquet_go.Rows.Merge.Two.{Merged, merge_loop}

-- The fields of mergedRowReader2; `left_live` and `right_live` tell whether the entries of `readers` are set, and
-- `prev` and `streak` are as in the loop.
pub record Two {ℓ} (R : Type ℓ) : Type ℓ where
  pub left : Buffered R
  pub right : Buffered R
  pub left_live : Bool
  pub right_live : Bool
  pub prev : Ordering
  pub streak : ℕ
  pub initialized : Bool

-- The rows and the error that a call of `ReadRows` returns, and the reader after it.
pub record Call {ℓ} (R : Type ℓ) : Type ℓ where
  pub rows : List R
  pub error : Option Error
  pub reader : Two R

-- What MergeRowReaders makes of two readers.
abbrev pub new_reader {ℓ} : {R : Type ℓ} → List (Read R) → List (Read R) → Two R
new_reader left right = record {
  left = record { window = []; source = left };
  right = record { window = []; source = right };
  left_live = false;
  right_live = false;
  prev = Ordering.eq;
  streak = 0;
  initialized = false;
}

module _ {ℓ} {R : Type ℓ} where
  -- What a `read` of either reader does to the state; an error other than the end is returned.
  abbrev pub set_left : Outcome R → Two R → Option (Option Error × Two R)
  set_left stuck m = none
  set_left (failing b) m = some (some Error.failed, record m { left = b })
  set_left (ready live b) m = some (none, record m { left = b; left_live = live })

  abbrev pub set_right : Outcome R → Two R → Option (Option Error × Two R)
  set_right stuck m = none
  set_right (failing b) m = some (some Error.failed, record m { right = b })
  set_right (ready live b) m = some (none, record m { right = b; right_live = live })

  -- The next step, unless there is an error to return.
  abbrev pub and_then :
      Option (Option Error × Two R)
      → (Two R → Option (Option Error × Two R))
      → Option (Option Error × Two R)
  and_then none next = none
  and_then (some (some e, m)) next = some (some e, m)
  and_then (some (none, m)) next = next m

  -- `initialize`
  abbrev pub initialize : Two R → Option (Option Error × Two R)
  initialize m = and_then (set_left (read m.left) m) (λ m. set_right (read m.right) m)

  -- `if !m.initialized { … }`
  abbrev pub start : Bool → Two R → Option (Option Error × Two R)
  start true m = some (none, m)
  start false m = initialize (record m { initialized = true })

  -- The readers without buffered rows are read.
  abbrev pub refills : Two R → Option (Option Error × Two R)
  refills m =
      and_then (set_left (refill m.left_live m.left) m)
        (λ m. set_right (refill m.right_live m.right) m)

  -- The loop over the buffered rows of the only reader left: the rows, and the buffered rows after them. `none`
  -- means that it copies a row of a buffer that holds none.
  abbrev pub copy_rows : ℕ → List R → Option (List R × List R)
  copy_rows zero window = some ([], window)
  copy_rows (suc k) [] = none
  copy_rows (suc k) (x ∷ []) = some (x ∷ [], [])
  copy_rows (suc k) (x ∷ y ∷ window) = elim (copy_rows k (y ∷ window)) [
    | none ↦ none
    | some (rows, window') ↦ some (x ∷ rows, window')
  ]

  abbrev pub only_left : Two R → Option (List R × List R) → Option (Call R)
  only_left m none = none
  only_left m (some (out, window)) = some (record {
    rows = out;
    error = none;
    reader = record m { left = record (m.left) { window = window } };
  })

  abbrev pub only_right : Two R → Option (List R × List R) → Option (Call R)
  only_right m none = none
  only_right m (some (out, window)) = some (record {
    rows = out;
    error = none;
    reader = record m { right = record (m.right) { window = window } };
  })

  abbrev pub both : Two R → Option (Merged R) → Option (Call R)
  both m none = none
  both m (some loop) = some (record {
    rows = loop.rows;
    error = none;
    reader = record m {
      left = record (m.left) { window = loop.left };
      right = record (m.right) { window = loop.right };
      prev = loop.prev;
      streak = loop.streak;
    };
  })

  module _ (compare : R → R → Ordering) where
    -- `switch { case r0 == nil: … }`, by which readers are alive.
    abbrev pub emit_rows : ℕ → Bool → Bool → Two R → Option (Call R)
    emit_rows room false false m = some (record { rows = []; error = some Error.eof; reader = m })
    emit_rows room false true m = only_right m (copy_rows room m.right.window)
    emit_rows room true false m = only_left m (copy_rows room m.left.window)
    emit_rows room true true m =
        both m (merge_loop compare room room m.left.window m.right.window m.prev m.streak)

    abbrev pub finish : ℕ → Option (Option Error × Two R) → Option (Call R)
    finish room none = none
    finish room (some (some e, m)) = some (record { rows = []; error = some e; reader = m })
    finish room (some (none, m)) = emit_rows room m.left_live m.right_live m

    -- `ReadRows` with a buffer of `room` rows.
    unfoldable pub read_rows : ℕ → Two R → Option (Call R)
    read_rows room m = finish room (and_then (start m.initialized m) refills)

    -- Calls of `ReadRows` with the given buffers until the first error: the rows of all calls, and the error.
    abbrev pub read_next :
        Option (Call R) → (Two R → Option (List R × Error)) → Option (List R × Error)
    read_next none later = none
    read_next (some c) later = elim c.error [
      | some e ↦ some (c.rows, e)
      | none ↦ elim (later c.reader) [ none ↦ none | some (rows, e) ↦ some (c.rows ++ rows, e) ]
    ]

    unfoldable pub read_all : List ℕ → Two R → Option (List R × Error)
    unfolding read_rows
    read_all [] m = none
    read_all (room ∷ rooms) m = read_next (read_rows room m) (λ m. read_all rooms m)
