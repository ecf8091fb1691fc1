-- ===== src/Rows/Merge/Many.antt =====
-- merge.go: mergedRowReader, the reader that merges the rows of any number of readers.
pub mod Reading
pub mod Draws
pub mod State
pub mod Steps
pub mod Rounds
pub mod Refill
pub mod Emission
pub mod Loop
pub mod Start
pub mod Whole
mod Examples
use parquet_go.Prelude.{
  ℕ, zero, suc, ◌+◌, ◌-◌, ◌%◌, ◌^◌, Bool, true, false, List, [], ◌∷◌, ◌++◌, Option, none, some,
  Ordering, length, take, drop, if◌then◌else◌, ◌==◌,
}
use parquet_go.Rows.Stream.{Error, Read}
use parquet_go.Rows.Merge.{run_length}
use parquet_go.Rows.Merge.Buffered.{Buffered, Outcome, stuck, failing, ready, read}
use parquet_go.Rows.Merge.Two.{is_streak}
use parquet_go.Rows.Merge.Tree.{update, parent, play_games, replay_games, run_bound}

-- The fields of mergedRowReader, with the number of its buffers. The slices are functions of their index, and a
-- negative player is `none`.
pub record Many {ℓ} (R : Type ℓ) : Type ℓ where
  pub size : ℕ
  pub buffers : ℕ → Buffered R
  pub losers : ℕ → Option ℕ
  pub count : ℕ
  pub winner : Option ℕ
  pub winner_leaf : ℕ
  pub streak : ℕ
  pub initialized : Bool

-- The rows and the error that a call of `ReadRows` returns, and the reader after it.
pub record Call {ℓ} (R : Type ℓ) : Type ℓ where
  pub rows : List R
  pub error : Option Error
  pub reader : Many R

-- What MergeRowReaders makes of `size` readers.
abbrev pub new_reader {ℓ} : {R : Type ℓ} → ℕ → (ℕ → List (Read R)) → Many R
new_reader size sources = record {
  size = size;
  buffers = λ i. record { window = []; source = sources i };
  losers = λ i. some 0;
  count = 0;
  winner = some 0;
  winner_leaf = 0;
  streak = 0;
  initialized = false;
}

-- `m.winner == prev`
abbrev pub same_player : Option ℕ → Option ℕ → Bool
same_player none none = true
same_player none (some b) = false
same_player (some a) none = false
same_player (some a) (some b) = a == b

-- `len(m.buffers) + winner`, where the winner may be -1.
abbrev pub leaf_of : ℕ → Option ℕ → ℕ
leaf_of size none = size - 1
leaf_of size (some w) = size + w

module _ {ℓ} {R : Type ℓ} where
  abbrev pub set_buffer : ℕ → Buffered R → Many R → Many R
  set_buffer i b m = record m { buffers = update m.buffers i b }

  -- The loop of `initialize` over the buffers: the error to return, the leaves, and the state. `next` is the rest
  -- of the loop.
  abbrev pub read_buffer :
      Outcome R
      → ℕ
      → (ℕ → Option ℕ)
      → Many R
      → ((ℕ → Option ℕ) → Many R → Option (Option Error × (ℕ → Option ℕ) × Many R))
      → Option (Option Error × (ℕ → Option ℕ) × Many R)
  read_buffer stuck i leaves m next = none
  read_buffer (failing b) i leaves m next =
      some (some Error.failed, leaves, record (set_buffer i b m) { count = 0 })
  read_buffer (ready true b) i leaves m next = next leaves (set_buffer i b m)
  read_buffer (ready false b) i leaves m next =
      next (update leaves i none) (record (set_buffer i b m) { count = m.count - 1 })

  abbrev pub read_buffers :
      ℕ → ℕ → (ℕ → Option ℕ) → Many R → Option (Option Error × (ℕ → Option ℕ) × Many R)
  read_buffers zero i leaves m = some (none, leaves, m)
  read_buffers (suc n) i leaves m =
      read_buffer (read (m.buffers i)) i leaves m (λ leaves m. read_buffers n (suc i) leaves m)

  -- A result's rows behind others.
  abbrev pub behind : List R → Option (Call R) → Option (Call R)
  behind rows none = none
  behind rows (some c) = some (record c { rows = rows ++ c.rows })

  -- `stale` is the row that the buffer of each reader holds at its beginning when no rows are buffered.
  module _ (compare : R → R → Ordering) (stale : ℕ → R) where
    abbrev pub head_of : R → List R → R
    head_of r [] = r
    head_of r (x ∷ window) = x

    abbrev pub heads : Many R → ℕ → R
    heads m i = head_of (stale i) (m.buffers i).window

    abbrev pub with_games : Many R → Option (Option ℕ × (ℕ → Option ℕ)) → Option (Many R)
    with_games m none = none
    with_games m (some (winner, losers)) =
        some (record m { winner = winner; losers = losers; winner_leaf = leaf_of m.size winner })

    abbrev pub play_all :
        Option (Option Error × (ℕ → Option ℕ) × Many R) → Option (Option Error × Many R)
    play_all none = none
    play_all (some (some e, leaves, m)) = some (some e, m)
    play_all (some (none, leaves, m)) = elim (m.count == 0) [
      | true ↦ some (none, m)
      | false ↦ elim (with_games m (play_games compare m.size (heads m) m.size leaves 0 m.losers)) [
        | none ↦ none
        | some m' ↦ some (none, m')
      ]
    ]

    -- `initialize`
    abbrev pub initialize : Many R → Option (Option Error × Many R)
    initialize m =
        play_all
          (read_buffers m.size 0 (λ i. some i) (record m { losers = λ i. some 0; count = m.size }))
