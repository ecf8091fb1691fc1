-- ===== src/Rows/Group.antt =====
-- merge.go: the rows of a merged row group, which are counted, and of which a seek skips those in front.
pub mod Laws
mod Examples
use parquet_go.Prelude.{
  ℕ, zero, suc, ◌+◌, ◌-◌, List, [], ◌∷◌, ◌++◌, length, Option, none, some, if◌then◌else◌, ltb, min,
}
use parquet_go.Prelude.Int.{ℤ, pos, negsuc}
use parquet_go.Rows.Stream.{Error, eof, failed, Read}
use parquet_go.Rows.Seek.{RowSource}

-- `mergedRowGroupRows`, over the states of the reader that merges.
pub record GroupRows (S : Type 0) : Type 0 where
  pub reader : S
  pub row_index : ℤ
  pub seek_to : ℕ

-- What a call of `ReadRows` returns, and the rows that it has written to its buffer from the front on.
pub record Filled {ℓ} (R : Type ℓ) (S : Type 0) : Type ℓ where
  pub written : List R
  pub count : ℕ
  pub error : Option Error
  pub state : GroupRows S

-- `SeekToRow`
abbrev pub seek_to_row : {S : Type 0} → ℤ → GroupRows S → Option Error × GroupRows S
seek_to_row target g = elim g.row_index [
  | negsuc _ ↦ (some failed, g)
  | pos index ↦ elim target [
    | negsuc _ ↦ (some failed, g)
    | pos target ↦
        if ltb target index then (some failed, g) else (none, record g { seek_to = target })
  ]
]

-- The last error of closing the readers.
abbrev pub last_error : List (Option Error) → Option Error → Option Error
last_error [] last = last
last_error (none ∷ errors) last = last_error errors last
last_error (some e ∷ errors) last = last_error errors (some e)

-- `Close`, with what the `Close` of each reader returns.
abbrev pub close : {S : Type 0} → List (Option Error) → GroupRows S → Option Error × GroupRows S
close errors g = (last_error errors none, record g { row_index = negsuc 0; seek_to = 0 })

module _ {ℓ} {R : Type ℓ} {S : Type 0} (src : RowSource R S) where
  -- The last call of the merging reader, into the rest of the buffer.
  abbrev pub fill : ℕ → ℕ → List R → Read R × S → Filled R S
  fill index target written (r, s) = record {
    written = written ++ r.rows;
    count = length r.rows;
    error = r.error;
    state = record { reader = s; row_index = pos (index + length r.rows); seek_to = target };
  }

  -- A call in the loop has returned an error.
  abbrev pub give_up : ℕ → ℕ → List R → Error → Read R × S → Filled R S
  give_up index target written e (r, s) = record {
    written = written ++ r.rows;
    count = 0;
    error = some e;
    state = record { reader = s; row_index = pos index; seek_to = target };
  }

  -- The loop of `ReadRows` that skips rows, and what follows it, at the row `index` and with room for `room` rows
  -- behind those written. `none` means that the fuel ran out.
  unfoldable pub skip_rows : ℕ → ℕ → ℕ → ℕ → List R → S → Option (Filled R S)
  skip_rows zero room index target written s = none
  skip_rows (suc fuel) room index target written s =
      let call = src.read (min (target - index) room) s in
      let k = length call.0.rows in
      let more = skip_rows fuel (room - k) (index + k) target (written ++ call.0.rows) call.1 in
      if ltb index target
      then elim call.0.error [ none ↦ more | some e ↦ some (give_up index target written e call) ]
      else some (fill index target written (src.read room s))

  -- `ReadRows` into a buffer of `room` rows.
  unfoldable pub read_rows : ℕ → ℕ → GroupRows S → Option (Filled R S)
  unfolding skip_rows
  read_rows fuel room g = elim g.row_index [
    | negsuc _ ↦ some (record { written = []; count = 0; error = some eof; state = g })
    | pos index ↦ skip_rows fuel room index g.seek_to [] g.reader
  ]
