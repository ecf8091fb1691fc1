-- ===== src/Rows/Merge/Many/State.antt =====
-- The states of mergedRowReader between its steps.
use mathlib.Core.Path.{subst}
use parquet_go.Prelude.{
  ℕ, zero, suc, ◌+◌, ◌-◌, ◌<◌, ◌≡◌, ◌≢◌, refl, sym, ap, ◌∙◌, ◌⊎◌, inl, inr, Bool, true, false,
  Bool-cases, List, [], Option, none, some, Option-cases, Ordering, length, lt→ltb, ◌==◌,
  if◌then◌else◌, IsOrder, arith,
}
use parquet_go.Rows.Merge.Buffered.{Buffered, Ends, Holds, rest}
use parquet_go.Rows.Merge.Tree.{parent, leaf_at, replay_games}
use parquet_go.Rows.Merge.Tree.Nodes.{Under, here, Under-root}
use parquet_go.Rows.Merge.Tree.Won.{
  Games, NotAbove, IsPlayers, Won, leaf, Beside, top, Won-Under, Won-Beside, Won-least,
}
use parquet_go.Rows.Merge.Tree.Frame.{Beside-Same}
use parquet_go.Rows.Merge.Tree.Replay.{replay_games-Restored, update_ne}
use parquet_go.Rows.Merge.Many.{Many, leaf_of, set_buffer, heads, head_of, with_games}
use parquet_go.Rows.Merge.Many.Reading.{replay}

abbrev pub is_player : Option ℕ → Bool
is_player none = false
is_player (some w) = true

-- The number of readers that are not at their end.
abbrev pub count_players : ℕ → (ℕ → Option ℕ) → ℕ
count_players zero leaves = 0
count_players (suc n) leaves = count_players n leaves + (if is_player (leaves n) then 1 else 0)

module _ {ℓ} {R : Type ℓ} (compare : R → R → Ordering) (stale : ℕ → R) where
  -- The tree, where `leaves` are the players that are not at their end.
  abbrev pub games_of : Many R → (ℕ → Option ℕ) → Games R
  games_of m leaves = record { head = heads compare stale m; leaves = leaves; losers = m.losers }

  -- The rows that each reader still contributes.
  abbrev pub rests : Many R → (ℕ → Option ℕ) → ℕ → List R
  rests m leaves i = rest (is_player (leaves i)) (m.buffers i)

  -- The readers keep to their contract.
  pub record Core (m : Many R) (leaves : ℕ → Option ℕ) : Type ℓ where
    pub players : IsPlayers compare m.size leaves
    pub ends : (i : ℕ) → i < m.size → Holds (is_player (leaves i)) (Ends (m.buffers i).source)
    pub counted : m.count ≡ count_players m.size leaves
    pub started : m.initialized ≡ true

  -- All readers have rows buffered, and all games are played.
  pub record Settled (m : Many R) (leaves : ℕ → Option ℕ) : Type ℓ where
    pub core : Core m leaves
    pub filled :
        (i : ℕ) → i < m.size → Holds (is_player (leaves i)) (0 < length (m.buffers i).window)
    pub won : Won compare m.size (games_of m leaves) 0 m.winner
    pub place : m.winner_leaf ≡ leaf_of m.size m.winner

  -- All readers but the winner have rows buffered, and the games beside the winner's path are played.
  pub record Open (m : Many R) (leaves : ℕ → Option ℕ) (w : ℕ) : Type ℓ where
    pub core : Core m leaves
    pub is_winner : m.winner ≡ some w
    pub inside : w < m.size
    pub player : leaves w ≡ some w
    pub filled :
        (i : ℕ)
        → i < m.size
        → i ≢ w
        → Holds (is_player (leaves i)) (0 < length (m.buffers i).window)
    pub beside : Beside compare m.size (games_of m leaves) (m.size + w)
    pub place : m.winner_leaf ≡ m.size + w

  -- All readers were at their end when they were read first, and no game has been played.
  pub record Over (m : Many R) (leaves : ℕ → Option ℕ) : Type ℓ where
    pub ended : (i : ℕ) → i < m.size → leaves i ≡ none
    pub counted : m.count ≡ 0
    pub started : m.initialized ≡ true

  -- The state between two calls.
  abbrev pub IsReader : Many R → (ℕ → Option ℕ) → Type ℓ
  IsReader m leaves =
      Settled m leaves ⊎ ((w : ℕ) × Open m leaves w × ((m.buffers w).window ≡ [])) ⊎ Over m leaves

  -- The games are replayed after the reader of the winner's leaf has changed.
  pub record Replayed (m : Many R) (leaves : ℕ → Option ℕ) : Type ℓ where
    pub winner : Option ℕ
    pub losers : ℕ → Option ℕ
    pub is_result :
        replay compare stale m
        ≡ some (record m { winner = winner; losers = losers; winner_leaf = leaf_of m.size winner })
    pub won : Won compare m.size (record (games_of m leaves) { losers = losers }) 0 winner

  pub replay-Replayed :
      (o : IsOrder compare) (m : Many R) (leaves : ℕ → Option ℕ) (w : ℕ)
      → IsPlayers compare m.size leaves
      → w < m.size
      → m.winner ≡ leaves w
      → m.winner_leaf ≡ m.size + w
      → Beside compare m.size (games_of m leaves) (m.size + w)
      → Replayed m leaves
  replay-Replayed o m leaves w players h e place b =
      let g = games_of m leaves in
      let at_place : m.winner ≡ leaf_at compare m.size g.head leaves (m.size + w) =
        e ∙ own_leaf m.size w h in
      let restored =
        replay_games-Restored compare m.size o m.size (m.size + w) g m.winner players (omega arith)
          (ground arith) b (leaf (m.size + w) m.winner (omega arith) at_place) in
      record {
        winner = restored.winner;
        losers = restored.losers;
        is_result = ap (with_games compare stale m) (
            ap (λ p. replay_games compare m.size g.head m.size (parent p) m.winner m.losers) place
            ∙ restored.is_result);
        won = restored.won;
      }
    where
      own_leaf :
          (size w : ℕ)
          → w < size
          → leaves w ≡ leaf_at compare size (heads compare stale m) leaves (size + w)
      own_leaf size w h =
          let place : size + w - size ≡ w = omega arith in rw (place, lt→ltb w size h) refl

  pub Replayed-Settled :
      (m : Many R) (leaves : ℕ → Option ℕ) (r : Replayed m leaves)
      → Core m leaves
      → ((i : ℕ) → i < m.size → Holds (is_player (leaves i)) (0 < length (m.buffers i).window))
      → Settled
          (record m { winner = r.winner; losers = r.losers; winner_leaf = leaf_of m.size r.winner })
          leaves
  Replayed-Settled m leaves r core filled = record {
    core = record {
      players = core.players;
      ends = core.ends;
      counted = core.counted;
      started = core.started;
    };
    filled = filled;
    won = r.won;
    place = refl;
  }

  -- A new buffer for the winner, with the games beside its path as they were.
  pub set_buffer-Beside :
      (m : Many R) (leaves leaves' : ℕ → Option ℕ) (w : ℕ) (b : Buffered R)
      → IsPlayers compare m.size leaves
      → ((j : ℕ) → j ≢ w → leaves' j ≡ leaves j)
      → Beside compare m.size (games_of m leaves) (m.size + w)
      → Beside compare m.size (games_of (set_buffer w b m) leaves') (m.size + w)
  set_buffer-Beside m leaves leaves' w b players same beside =
      Beside-Same compare m.size (games_of m leaves) (games_of (set_buffer w b m) leaves') players
        (m.size + w) beside
        (record {
          losers = λ q off h. refl;
          heads = λ j off.
              ap (λ b. head_of compare stale (stale j) b.window)
                (update_ne m.buffers w b j (apart j off));
          leaves = λ j off. same j (apart j off);
        })
    where
      apart : (j : ℕ) → (Under (m.size + w) (m.size + j) → ⊥) → j ≢ w
      apart j off e = off (subst (λ k. Under (m.size + w) (m.size + k)) (sym e) here)

  -- Of the readers that are not the winner, nothing has changed; of the winner, what is to hold now holds.
  pub set_buffer-all :
      (m : Many R) (P : ℕ → Buffered R → Type 0) (w : ℕ) (b : Buffered R)
      → ((i : ℕ) → i < m.size → i ≢ w → P i (m.buffers i))
      → P w b
      → (i : ℕ) → i < m.size
      → P i ((set_buffer w b m).buffers i)
  set_buffer-all m P w b others own i h = elim (Bool-cases (i == w)) [
    | inl e ↦ rw e (subst (λ i. P i b) (ground arith) own)
    | inr e ↦ rw e (others i h (λ q. ground arith))
  ]

  -- The winner of the tree can be replaced.
  pub Settled-Open :
      (m : Many R) (leaves : ℕ → Option ℕ) (w : ℕ)
      → Settled m leaves
      → m.winner ≡ some w
      → Open m leaves w
  Settled-Open m leaves w s e =
      let (_, inside, player) =
        Won-Under compare m.size (games_of m leaves) s.core.players 0 w m.winner s.won e in
      record {
        core = s.core;
        is_winner = e;
        inside = inside;
        player = player;
        filled = λ i h _. s.filled i h;
        beside =
            Won-Beside compare m.size (games_of m leaves) s.core.players 0 w m.winner s.won e top;
        place = s.place ∙ ap (leaf_of m.size) e;
      }

  count_none :
      (n : ℕ) (leaves : ℕ → Option ℕ)
      → ((i : ℕ) → i < n → leaves i ≡ none)
      → count_players n leaves ≡ 0
  count_none zero leaves h = refl
  count_none (suc n) leaves h =
      rw (h n (omega arith)) (omega (arith, count_none n leaves (λ i l. h i (omega arith))))

  count_some :
      (n w : ℕ) (leaves : ℕ → Option ℕ) → w < n → leaves w ≡ some w → 0 < count_players n leaves
  count_some zero w leaves h e = absurd (omega arith)
  count_some (suc n) w leaves h e = elim (Bool-cases (w == n)) [
    | inl p ↦
        let last : leaves n ≡ some w = subst (λ k. leaves k ≡ some w) (ground arith) e in
        rw last (omega arith)
    | inr p ↦ omega (arith, count_some n w leaves (ground arith) e)
  ]

  pub Open-count : (m : Many R) (leaves : ℕ → Option ℕ) (w : ℕ) → Open m leaves w → 0 < m.count
  Open-count m leaves w h = rw h.core.counted (count_some m.size w leaves h.inside h.player)

  -- Without a winner, all readers are at their end.
  pub Settled-none :
      (o : IsOrder compare) (m : Many R) (leaves : ℕ → Option ℕ)
      → Settled m leaves
      → m.winner ≡ none
      → ((i : ℕ) → i < m.size → leaves i ≡ none) × (m.count ≡ 0)
  Settled-none o m leaves s e = (all, s.core.counted ∙ count_none m.size leaves all)
    where
      all : (i : ℕ) → i < m.size → leaves i ≡ none
      all i h = elim (Option-cases (leaves i)) [
        | inl n ↦ n
        | inr (j, p) ↦
            let own : leaves i ≡ some i = subst (λ j. leaves i ≡ some j) (s.core.players i j p) p in
            absurd (
              subst (λ w. NotAbove compare m.size (heads compare stale m) w (some i)) e
                (Won-least compare m.size (games_of m leaves) s.core.players o 0 i m.winner s.won h
                  own (Under-root (m.size + i))))
      ]
