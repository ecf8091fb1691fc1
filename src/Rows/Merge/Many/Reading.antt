-- ===== src/Rows/Merge/Many/Reading.antt =====
-- merge.go: ReadRows of mergedRowReader.
use parquet_go.Prelude.{
  ℕ, zero, suc, ◌+◌, ◌-◌, ◌%◌, ◌^◌, Bool, true, false, List, [], ◌∷◌, ◌++◌, Option, none, some,
  Ordering, length, take, drop, if◌then◌else◌, ◌==◌,
}
use parquet_go.Rows.Stream.{Error}
use parquet_go.Rows.Merge.{run_length}
use parquet_go.Rows.Merge.Buffered.{Outcome, stuck, failing, ready, read}
use parquet_go.Rows.Merge.Two.{is_streak}
use parquet_go.Rows.Merge.Tree.{parent, replay_games, run_bound}
use parquet_go.Rows.Merge.Many.{
  Many, Call, same_player, set_buffer, behind, heads, with_games, initialize,
}

-- `stale` is the row that the buffer of each reader holds at its beginning when no rows are buffered.
module _ {ℓ} {R : Type ℓ} (compare : R → R → Ordering) (stale : ℕ → R) where
  -- `replayGames`: the path from a leaf to the root has fewer games than there are buffers.
  abbrev pub replay : Many R → Option (Many R)
  replay m = with_games compare stale m (
      replay_games compare m.size (heads compare stale m) m.size (parent m.winner_leaf) m.winner
        m.losers)

  -- The loop's next round after the games.
  abbrev pub then_with :
      (Many R → Many R) → Option (Many R) → (Many R → Option (Call R)) → Option (Call R)
  then_with f none next = none
  then_with f (some m) next = next (f m)

  -- `if m.winner != prev { m.streak = 0 }`
  abbrev pub reset_streak : Option ℕ → Many R → Many R
  reset_streak prev m = record m { streak = if same_player m.winner prev then m.streak else 0 }

  -- `if m.winner == prev { m.streak++ } else { m.streak = 0 }`
  abbrev pub count_streak : Option ℕ → Many R → Many R
  count_streak prev m = record m {
    streak = if same_player m.winner prev then (m.streak + 1) % 2 ^ 32 else 0;
  }

  -- The buffer of the winner `w` is read; `next` is the next round.
  abbrev pub refill_winner : ℕ → Outcome R → Many R → (Many R → Option (Call R)) → Option (Call R)
  refill_winner w stuck m next = none
  refill_winner w (failing b) m next =
      some (record { rows = []; error = some Error.failed; reader = set_buffer w b m })
  refill_winner w (ready true b) m next =
      then_with (reset_streak (some w)) (replay (set_buffer w b m)) next
  refill_winner w (ready false b) m next =
      then_with (reset_streak none)
        (replay (record (set_buffer w b m) { winner = none; count = m.count - 1 })) next

  -- The number of rows that are emitted together. A round of this loop that neither empties the buffer nor stops at
  -- the bound has used up the room, so that it has one round.
  abbrev pub run_count : ℕ → List R → Option R → Option ℕ
  run_count room window none = some (length (take room window))
  run_count room window (some bound) = run_length compare true (take room window) bound

  -- After rows of the winner have been emitted: `if !c.advance(n) { return n, nil }`, else the games and the
  -- further rounds.
  abbrev pub go_on :
      ℕ
      → List R
      → List R
      → (Many R → Many R)
      → Many R
      → (Many R → Option (Call R))
      → Option (Call R)
  go_on w out [] f m next = some (record {
    rows = out;
    error = none;
    reader = set_buffer w (record (m.buffers w) { window = [] }) m;
  })
  go_on w out (x ∷ window) f m next =
      behind out
        (then_with f (replay (set_buffer w (record (m.buffers w) { window = x ∷ window }) m)) next)

  -- The run, behind the row `x`. `m.streak = 0` comes before the games, which do not read it; a run that empties the
  -- buffer returns before it.
  abbrev pub emit_run :
      ℕ
      → ℕ
      → R
      → List R
      → Many R
      → Option (Option R)
      → (ℕ → Many R → Option (Call R))
      → Option (Call R)
  emit_run room w x window m none next = none
  emit_run room w x window m (some bound) next = elim (run_count room window bound) [
    | none ↦ none
    | some n ↦
        go_on w (x ∷ take n window) (drop n window) (λ m. record m { streak = 0 }) m
          (λ m. next (room - n) m)
  ]

  -- What follows the emission of the head `x` of the winner `w`, with room for `room` more rows.
  abbrev pub after_head :
      Bool → ℕ → ℕ → R → List R → Many R → (ℕ → Many R → Option (Call R)) → Option (Call R)
  after_head streak room w x [] m next = go_on w (x ∷ []) [] (λ m. m) m (λ m. next room m)
  after_head false room w x (y ∷ window) m next =
      go_on w (x ∷ []) (y ∷ window) (count_streak (some w)) m (λ m. next room m)
  after_head true room w x (y ∷ window) m next =
      let m' = set_buffer w (record (m.buffers w) { window = y ∷ window }) m in
      emit_run room w x (y ∷ window) m'
        (run_bound compare m.size (heads compare stale m') m.size (parent m.winner_leaf) m.losers
          none)
        next

  abbrev pub round : ℕ → ℕ → List R → Many R → (ℕ → Many R → Option (Call R)) → Option (Call R)
  round room w [] m next = refill_winner w (read (m.buffers w)) m (λ m. next (suc room) m)
  round room w (x ∷ window) m next = after_head (is_streak m.streak) room w x window m next

  -- `if m.count == 0 { err = io.EOF }`
  abbrev pub stop : Many R → Call R
  stop m = record { rows = []; error = if m.count == 0 then some Error.eof else none; reader = m }

  -- The loop of `ReadRows` with room for `room` rows. `none` means that the fuel ran out, or that the code would
  -- index a buffer by -1.
  unfoldable pub merge_loop : ℕ → ℕ → Many R → Option (Call R)
  merge_loop fuel zero m = some (stop m)
  merge_loop zero (suc room) m = if m.count == 0 then some (stop m) else none
  merge_loop (suc fuel) (suc room) m = elim (m.count == 0) [
    | true ↦ some (stop m)
    | false ↦ elim m.winner [
      | none ↦ none
      | some w ↦ round room w (m.buffers w).window m (λ room m. merge_loop fuel room m)
    ]
  ]

  abbrev pub start : Bool → Many R → Option (Option Error × Many R)
  start true m = some (none, m)
  start false m = initialize compare stale (record m { initialized = true })

  abbrev pub finish : ℕ → Option (Option Error × Many R) → Option (Call R)
  finish room none = none
  finish room (some (some e, m)) = some (record { rows = []; error = some e; reader = m })
  finish room (some (none, m)) = merge_loop (suc room) room m

  -- `ReadRows` with a buffer of `room` rows. Every round but the first one emits a row at least.
  unfoldable pub read_rows : ℕ → Many R → Option (Call R)
  unfolding merge_loop
  read_rows room m = finish room (start m.initialized m)

  -- Calls of `ReadRows` with the given buffers until the first error: the rows of all calls, and the error.
  abbrev pub read_next :
      Option (Call R) → (Many R → Option (List R × Error)) → Option (List R × Error)
  read_next none later = none
  read_next (some c) later = elim c.error [
    | some e ↦ some (c.rows, e)
    | none ↦ elim (later c.reader) [ none ↦ none | some (rows, e) ↦ some (c.rows ++ rows, e) ]
  ]

  unfoldable pub read_all : List ℕ → Many R → Option (List R × Error)
  unfolding read_rows
  read_all [] m = none
  read_all (room ∷ rooms) m = read_next (read_rows room m) (λ m. read_all rooms m)
