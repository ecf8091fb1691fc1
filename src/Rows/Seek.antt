-- ===== src/Rows/Seek.antt =====
-- merge.go: the wrapper of concatenated readers, which counts the rows read and seeks forward by reading
-- rows that it discards.
pub mod Laws
pub mod Sample
mod Examples
use parquet_go.Prelude.{
  ℕ, zero, suc, ◌+◌, ◌-◌, ◌≤◌, ◌<◌, ◌≡◌, List, ◌++◌, length, Option, none, some, if◌then◌else◌, ltb,
  min,
}
use parquet_go.Prelude.Int.{ℤ, pos, negsuc}
use parquet_go.Rows.Stream.{Error, failed, Read}

-- A RowReader over the states `S` of its implementation, called with the length of a buffer; `pending`
-- are the rows that it still has to deliver.
pub record RowSource {ℓ} (R : Type ℓ) (S : Type 0) : Type ℓ where
  pub read : ℕ → S → Read R × S
  pub pending : S → List R

-- The contract of RowReader: the rows come in their order, no more than there is room for, and a call
-- with room for a row and no error returns one.
pub record IsSource {ℓ} {R : Type ℓ} {S : Type 0} (src : RowSource R S) : Type ℓ where
  pub next : (n : ℕ) (s : S) → src.pending s ≡ (src.read n s).0.rows ++ src.pending (src.read n s).1
  pub within : (n : ℕ) (s : S) → length (src.read n s).0.rows ≤ n
  pub progress :
      (n : ℕ) (s : S) → 0 < n → (src.read n s).0.error ≡ none → 0 < length (src.read n s).0.rows

-- `concatenatingRowsWrapper`
pub record Wrapper (S : Type 0) : Type 0 where
  pub reader : S
  pub row_index : ℕ

module _ {ℓ} {R : Type ℓ} {S : Type 0} (src : RowSource R S) where
  -- The wrapper behind a call of its reader.
  abbrev pub after : Wrapper S → Read R × S → Wrapper S
  after w (r, s) = record { reader = s; row_index = w.row_index + length r.rows }

  -- `ReadRows` into a buffer of `n` rows.
  pub read_rows : ℕ → Wrapper S → Read R × Wrapper S
  read_rows n w = ((src.read n w.reader).0, after w (src.read n w.reader))

  -- The loop of `SeekToRow`, whose buffer has room for 64 rows: its error, and the wrapper.
  pub discard : ℕ → ℕ → Wrapper S → Option (Option Error × Wrapper S)
  discard zero target w = none
  discard (suc fuel) target w =
      let call = src.read (min (target - w.row_index) 64) w.reader in
      let more = discard fuel target (after w call) in
      if ltb w.row_index target
      then elim call.0.error [ none ↦ more | some e ↦ some (some e, after w call) ]
      else some (none, w)

  -- `SeekToRow`; each round reads a row at least.
  pub seek_to_row : ℤ → Wrapper S → Option (Option Error × Wrapper S)
  unfolding discard
  seek_to_row (negsuc n) w = some (some failed, w)
  seek_to_row (pos target) w =
      let sought = discard (target - w.row_index + 1) target w in
      if ltb target w.row_index then some (some failed, w) else sought
