-- ===== src/Rows/Merge/Tree/Play.antt =====
-- The initial games build the tree.
use mathlib.Core.Path.{subst}
use parquet_go.Prelude.{
  ℕ, zero, suc, ◌+◌, ◌*◌, ◌≤◌, ◌<◌, ◌≡◌, refl, sym, ◌∙◌, inl, inr, Bool-cases, Option, none, some,
  Ordering, leb, leb→le, IsOrder, arith,
}
use parquet_go.Rows.Merge.Tree.{update, leaf_at, is_before, play_game, play_games}
use parquet_go.Rows.Merge.Tree.Nodes.{Under, here, Under-le, Under-child, Under-apart}
use parquet_go.Rows.Merge.Tree.Won.{Games, NotAbove, IsPlayers, Won, leaf, from_left, from_right}
use parquet_go.Rows.Merge.Tree.Frame.{Same, Won-Same}
use parquet_go.Rows.Merge.Tree.Replay.{lt_le, le_of_not_lt, update_ne, update_self}

module _ {ℓ} {R : Type ℓ} (compare : R → R → Ordering) (size : ℕ) (head : ℕ → R)
    (leaves : ℕ → Option ℕ) where
  abbrev pub games : (ℕ → Option ℕ) → Games R
  games losers = record { head = head; leaves = leaves; losers = losers }

  -- The winner of the games below a position; nothing else has changed.
  pub record Played (i : ℕ) (losers : ℕ → Option ℕ) (result : Option (Option ℕ × (ℕ → Option ℕ)))
      : Type ℓ where
    pub winner : Option ℕ
    pub after : ℕ → Option ℕ
    pub is_result : result ≡ some (winner, after)
    pub won : Won compare size (games after) i winner
    pub elsewhere : (q : ℕ) → (Under i q → ⊥) → after q ≡ losers q

  leaf-Played :
      (i : ℕ) (losers : ℕ → Option ℕ)
      → size ≤ i
      → Played i losers (some (leaf_at compare size head leaves i, losers))
  leaf-Played i losers h = record {
    winner = leaf_at compare size head leaves i;
    after = losers;
    is_result = refl;
    won = leaf i (leaf_at compare size head leaves i) h refl;
    elsewhere = λ _ _. refl;
  }

  module _ (players : IsPlayers compare size leaves) (o : IsOrder compare) where
    -- The loser is noted at the position of its game.
    node-Played :
        (i : ℕ) (n1 n2 : Option ℕ) (losers : ℕ → Option ℕ)
        → i < size
        → Won compare size (games losers) (2 * i + 1) n1
        → Won compare size (games losers) (2 * i + 2) n2
        → Won compare size
            (games (update losers i (play_game compare size head n1 n2).0))
            i
            (play_game compare size head n1 n2).1
    node-Played i n1 n2 losers h d1 d2 = pick n1 n2 d1 d2
      where
        below :
            (c : ℕ) (w v : Option ℕ)
            → i < c
            → Won compare size (games losers) c w
            → Won compare size (games (update losers i v)) c w
        below c w v l d =
            Won-Same compare size (games losers) (games (update losers i v)) players c w d (record {
              losers = λ q u _. update_ne losers i v q (λ e. omega (arith, Under-le c q u, e));
              heads = λ _ _. refl;
              leaves = λ _ _. refl;
            })

        left_wins :
            (w v : Option ℕ)
            → NotAbove compare size head w v
            → Won compare size (games losers) (2 * i + 1) w
            → Won compare size (games losers) (2 * i + 2) v
            → Won compare size (games (update losers i v)) i w
        left_wins w v n d d' =
            let e = sym (update_self losers i v) in
            from_left i w h (below (2 * i + 1) w v (omega arith) d)
              (subst (Won compare size (games (update losers i v)) (2 * i + 2)) e
                (below (2 * i + 2) v v (omega arith) d'))
              (subst (NotAbove compare size head w) e n)

        right_wins :
            (w v : Option ℕ)
            → NotAbove compare size head w v
            → Won compare size (games losers) (2 * i + 2) w
            → Won compare size (games losers) (2 * i + 1) v
            → Won compare size (games (update losers i v)) i w
        right_wins w v n d d' =
            let e = sym (update_self losers i v) in
            from_right i w h (below (2 * i + 2) w v (omega arith) d)
              (subst (Won compare size (games (update losers i v)) (2 * i + 1)) e
                (below (2 * i + 1) v v (omega arith) d'))
              (subst (NotAbove compare size head w) e n)

        pick :
            (n1 n2 : Option ℕ)
            → Won compare size (games losers) (2 * i + 1) n1
            → Won compare size (games losers) (2 * i + 2) n2
            → Won compare size
                (games (update losers i (play_game compare size head n1 n2).0))
                i
                (play_game compare size head n1 n2).1
        pick none none d1 d2 = right_wins none none tt d2 d1
        pick none (some b) d1 d2 = right_wins (some b) none tt d2 d1
        pick (some a) none d1 d2 = left_wins (some a) none tt d1 d2
        pick (some a) (some b) d1 d2 = elim (Bool-cases (is_before compare size head a b)) [
          | inl e ↦ rw e (left_wins (some a) (some b) (lt_le (compare (head a) (head b)) e) d1 d2)
          | inr e ↦ rw e (right_wins (some b) (some a) (le_of_not_lt o (head a) (head b) e) d2 d1)
        ]

    pub play_games-Played :
        (fuel i : ℕ) (losers : ℕ → Option ℕ)
        → size ≤ i + fuel
        → Played i losers (play_games compare size head fuel leaves i losers)
    unfolding play_games
    play_games-Played zero i losers h = elim (Bool-cases (leb size i)) [
      | inl e ↦ rw (e, play_games) (leaf-Played i losers (omega arith))
      | inr e ↦ absurd (ground arith)
    ]
    play_games-Played (suc fuel) i losers h = elim (Bool-cases (leb size i)) [
      | inl e ↦ rw (e, play_games) (leaf-Played i losers (leb→le size i e))
      | inr e ↦
          let a = play_games-Played fuel (2 * i + 1) losers (omega arith) in
          let b = play_games-Played fuel (2 * i + 2) a.after (omega arith) in
          let same : Same compare size (Under (2 * i + 1)) (games a.after) (games b.after) =
            record {
              losers = λ q u _. b.elsewhere q (λ v. Under-apart i q u v);
              heads = λ _ _. refl;
              leaves = λ _ _. refl;
            } in
          let won =
            node-Played i a.winner b.winner b.after (ground arith)
              (Won-Same compare size (games a.after) (games b.after) players (2 * i + 1) a.winner
                a.won same)
              b.won in
          rw (e, play_games, a.is_result, b.is_result)
            (record {
              winner = (play_game compare size head a.winner b.winner).1;
              after = update b.after i (play_game compare size head a.winner b.winner).0;
              is_result = refl;
              won = won;
              elsewhere = λ q off.
                  update_ne b.after i (play_game compare size head a.winner b.winner).0 q
                    (λ e. off (subst (Under i) (sym e) here))
                  ∙ b.elsewhere q
                      (λ u. off (Under-child i (2 * i + 2) q (omega arith) (ground arith) u))
                  ∙ a.elsewhere q
                      (λ u. off (Under-child i (2 * i + 1) q (omega arith) (ground arith) u));
            })
    ]
