-- ===== src/Rows/Merge/Tree.antt =====
-- merge.go: the tournament tree of losers of mergedRowReader.
pub mod Nodes
pub mod Won
pub mod Frame
pub mod Replay
pub mod Play
pub mod Bound
use parquet_go.Prelude.{
  ℕ, zero, suc, ◌+◌, ◌-◌, ◌*◌, ◌/◌, Bool, true, false, Option, none, some, Ordering, is_lt,
  if◌then◌else◌, leb, ltb, ◌==◌,
}

-- `f[i] = v`
abbrev pub update {ℓ} : {A : Type ℓ} → (ℕ → A) → ℕ → A → ℕ → A
update f i v j = if j == i then v else f j

-- The position above one that is not the root.
abbrev pub parent : ℕ → ℕ
parent i = (i - 1) / 2

-- Slices are functions of their index: `losers`, whose value `none` is that of a negative number, and `head`, the
-- heads of the `size` buffers.
module _ {ℓ} {R : Type ℓ} (compare : R → R → Ordering) (size : ℕ) (head : ℕ → R) where
  -- `compare(head of a, head of b) < 0`
  abbrev pub is_before : ℕ → ℕ → Bool
  is_before a b = is_lt (compare (head a) (head b))

  -- `playGame`: the loser and the winner.
  abbrev pub play_game : Option ℕ → Option ℕ → Option ℕ × Option ℕ
  play_game none n2 = (none, n2)
  play_game (some a) none = (none, some a)
  play_game (some a) (some b) = if is_before a b then (some b, some a) else (some a, some b)

  -- What is found at a position that is a leaf or out of bounds.
  abbrev pub leaf_at : (ℕ → Option ℕ) → ℕ → Option ℕ
  leaf_at leaves i = if ltb (i - size) size then leaves (i - size) else none

  abbrev pub with_loser : ℕ → (ℕ → Option ℕ) → Option ℕ × Option ℕ → Option ℕ × (ℕ → Option ℕ)
  with_loser i losers (loser, winner) = (winner, update losers i loser)

  -- `playInitialGames`: the winner of the games below the position `i`, and the losers. Positions grow on the way
  -- down, so that `size` rounds are enough; `none` means that the fuel ran out.
  unfoldable pub play_games :
      ℕ → (ℕ → Option ℕ) → ℕ → (ℕ → Option ℕ) → Option (Option ℕ × (ℕ → Option ℕ))
  play_games zero leaves i losers = elim (leb size i) [
    | true ↦ some (leaf_at leaves i, losers)
    | false ↦ none
  ]
  play_games (suc fuel) leaves i losers = elim (leb size i) [
    | true ↦ some (leaf_at leaves i, losers)
    | false ↦ elim (play_games fuel leaves (2 * i + 1) losers) [
      | none ↦ none
      | some (n1, losers1) ↦ elim (play_games fuel leaves (2 * i + 2) losers1) [
        | none ↦ none
        | some (n2, losers2) ↦ some (with_loser i losers2 (play_game n1 n2))
      ]
    ]
  ]

  -- One round of `replayGames`, at the position `offset`: the winner, and the losers.
  abbrev pub replay_game : ℕ → Option ℕ → Option ℕ → (ℕ → Option ℕ) → Option ℕ × (ℕ → Option ℕ)
  replay_game offset winner none losers = (winner, losers)
  replay_game offset none (some player) losers = (some player, update losers offset none)
  replay_game offset (some w) (some player) losers =
      if is_before player w then (some player, update losers offset (some w)) else (some w, losers)

  -- `replayGames` from the position `offset` on to the root; positions become smaller on the way up.
  unfoldable pub replay_games :
      ℕ → ℕ → Option ℕ → (ℕ → Option ℕ) → Option (Option ℕ × (ℕ → Option ℕ))
  replay_games zero offset winner losers = none
  replay_games (suc fuel) offset winner losers =
      let (winner', losers') = replay_game offset winner (losers offset) losers in
      elim (offset == 0) [
        | true ↦ some (winner', losers')
        | false ↦ replay_games fuel (parent offset) winner' losers'
      ]

  -- The lower one of the bound and the head of a player; without a player or a bound, the other.
  abbrev pub lower_bound : Option ℕ → Option R → Option R
  lower_bound none bound = bound
  lower_bound (some player) none = some (head player)
  lower_bound (some player) (some bound) =
      if is_lt (compare (head player) bound) then some (head player) else some bound

  -- `runBound` from the position `offset` on; the bound of no reader is `none`.
  unfoldable pub run_bound : ℕ → ℕ → (ℕ → Option ℕ) → Option R → Option (Option R)
  run_bound zero offset losers bound = none
  run_bound (suc fuel) offset losers bound =
      let bound' = lower_bound (losers offset) bound in
      elim (offset == 0) [
        | true ↦ some bound'
        | false ↦ run_bound fuel (parent offset) losers bound'
      ]
