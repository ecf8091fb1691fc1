-- ===== src/Rows/Merge/Many/Rounds.antt =====
-- Which rows the rounds of mergedRowReader's loop emit.
use mathlib.Core.Path.{subst}
use parquet_go.Prelude.{
  ℕ, zero, suc, ◌+◌, ◌≤◌, ◌<◌, ◌≡◌, ◌≢◌, refl, sym, ap, ◌∙◌, inl, inr, Bool, true, false,
  Bool-cases, List, [], ◌∷◌, ◌++◌, Option, none, some, Ordering, length, length-take, take,
  take-take, is_le, All, All-imp, append_assoc, ◌==◌, IsOrder, arith,
}
use parquet_go.Rows.Stream.{Read}
use parquet_go.Rows.Merge.{within_bound}
use parquet_go.Rows.Merge.Run.{SortedRows, run_length-IsRun}
use parquet_go.Rows.Merge.Emits.{IsBelow, SortedRows-take}
use parquet_go.Rows.Merge.Buffered.{Buffered, Holds, rest, to_come}
use parquet_go.Rows.Merge.Tree.{update, parent, run_bound}
use parquet_go.Rows.Merge.Tree.Nodes.{Under-root}
use parquet_go.Rows.Merge.Tree.Won.{NotAbove, Won-least, at_leaf}
use parquet_go.Rows.Merge.Tree.Replay.{update_ne, update_self}
use parquet_go.Rows.Merge.Tree.Bound.{IsWithin, run_bound-Bounded}
use parquet_go.Rows.Merge.Many.{Many, set_buffer, heads, head_of}
use parquet_go.Rows.Merge.Many.Reading.{run_count}
use parquet_go.Rows.Merge.Many.Draws.{Draws, done, draw, AllSorted}
use parquet_go.Rows.Merge.Many.State.{is_player, games_of, rests, Settled, Open}

module _ {ℓ} {R : Type ℓ} (compare : R → R → Ordering) (stale : ℕ → R) where
  -- The row comes before none of the heads of the other readers too late.
  abbrev pub IsBefore : Many R → (ℕ → Option ℕ) → ℕ → R → Type 0
  IsBefore m leaves w r =
      (j : ℕ)
      → j < m.size
      → j ≢ w
      → leaves j ≡ some j
      → is_le (compare r (heads compare stale m j)) ≡ true

  -- Nor before any later row of them.
  IsBelow-rest :
      (o : IsOrder compare) (r s : R) (live : Bool) (window : List R) (source : List (Read R))
      → Holds live (0 < length window)
      → (live ≡ true → is_le (compare r (head_of compare stale s window)) ≡ true)
      → SortedRows compare (rest live (record { window = window; source = source }))
      → IsBelow compare r (rest live (record { window = window; source = source }))
  IsBelow-rest o r s false window source l h sorted = tt
  IsBelow-rest o r s true [] source l h sorted = absurd (omega arith)
  IsBelow-rest o r s true (y ∷ window) source l h (first, _) =
      (h refl, All-imp (λ z e. o.le_trans r y z (h refl) e) (window ++ to_come source) first)

  IsBefore-rest :
      (o : IsOrder compare) (m : Many R) (leaves : ℕ → Option ℕ) (w : ℕ) (r : R)
      → Open compare stale m leaves w
      → AllSorted compare m.size (rests compare stale m leaves)
      → IsBefore m leaves w r
      → (j : ℕ) → j < m.size
      → j ≢ w
      → IsBelow compare r (rests compare stale m leaves j)
  IsBefore-rest o m leaves w r h sorted before j l n =
      IsBelow-rest o r (stale j) (is_player (leaves j)) (m.buffers j).window (m.buffers j).source
        (h.filled j l n) (λ e. before j l n (own (leaves j) refl e)) (sorted j l)
    where
      own : (p : Option ℕ) → leaves j ≡ p → is_player p ≡ true → leaves j ≡ some j
      own none e f = cc
      own (some i) e f = e ∙ ap some (h.core.players j i e)

  -- Rows in front of one of many lists.
  front-Draws :
      (size w : ℕ) (f f' : ℕ → List R) (out : List R)
      → w < size
      → f w ≡ out ++ f' w
      → ((j : ℕ) → j < size → j ≢ w → f' j ≡ f j)
      → All (λ r. (j : ℕ) → j < size → j ≢ w → IsBelow compare r (f j)) out
      → Draws compare size f out f'
  front-Draws size w f f' [] l e o h = done f f' (λ j k. elim (Bool-cases (j == w)) [
    | inl p ↦ let same : w ≡ j = ground arith in subst (λ j. f j ≡ f' j) same e
    | inr p ↦ sym (o j k (λ q. ground arith))
  ])
  front-Draws size w f f' (x ∷ out) l e o (h, hs) =
      let between = update f w (out ++ f' w) in
      let own : between w ≡ out ++ f' w = update_self f w (out ++ f' w) in
      let other : (j : ℕ) → j < size → j ≢ w → between j ≡ f j =
        λ j k n. update_ne f w (out ++ f' w) j n in
      draw f between f' w x out l (e ∙ ap (λ xs. x ∷ xs) (sym own)) other h (
        front-Draws size w between f' out l own (λ j k n. o j k n ∙ sym (other j k n))
          (All-imp (λ r p j k n. subst (IsBelow compare r) (sym (other j k n)) (p j k n)) out hs))

  -- Rows in front of the winner's buffer that come before the heads of the others.
  pub emit-Draws :
      (o : IsOrder compare) (m : Many R) (leaves : ℕ → Option ℕ) (w : ℕ) (out window : List R)
      (streak : ℕ)
      → Open compare stale m leaves w
      → AllSorted compare m.size (rests compare stale m leaves)
      → (m.buffers w).window ≡ out ++ window
      → All (IsBefore m leaves w) out
      → Draws compare m.size (rests compare stale m leaves) out (
          rests compare stale
            (set_buffer w (record (m.buffers w) { window = window }) (record m { streak = streak }))
            leaves)
  emit-Draws o m leaves w out window streak h sorted e before =
      let b : Buffered R = record (m.buffers w) { window = window } in
      let m1 = set_buffer w b (record m { streak = streak }) in
      let later = to_come (m.buffers w).source in
      let first : rests compare stale m leaves w ≡ (m.buffers w).window ++ later =
        ap (λ p. rest (is_player p) (m.buffers w)) h.player in
      let second : rests compare stale m1 leaves w ≡ window ++ later =
        ap (λ p. rest (is_player p) (m1.buffers w)) h.player
        ∙ ap (rest true) (update_self m.buffers w b) in
      front-Draws m.size w (rests compare stale m leaves) (rests compare stale m1 leaves) out
        h.inside
        (first
          ∙ ap (λ xs. xs ++ later) e
          ∙ append_assoc out window later
          ∙ ap (λ xs. out ++ xs) (sym second))
        (λ j l n. ap (rest (is_player (leaves j))) (update_ne m.buffers w b j n))
        (All-imp (λ r p. IsBefore-rest o m leaves w r h sorted p) out before)

  pub head-IsBefore :
      (o : IsOrder compare) (m : Many R) (leaves : ℕ → Option ℕ) (w : ℕ) (x : R) (window : List R)
      → Settled compare stale m leaves
      → m.winner ≡ some w
      → (m.buffers w).window ≡ x ∷ window
      → IsBefore m leaves w x
  head-IsBefore o m leaves w x window s e p j l n player =
      let least =
        Won-least compare m.size (games_of compare stale m leaves) s.core.players o 0 j m.winner
          s.won l player (Under-root (m.size + j)) in
      let head : heads compare stale m w ≡ x = ap (head_of compare stale (stale w)) p in
      subst (λ r. is_le (compare r (heads compare stale m j)) ≡ true) head
        (subst (λ v. NotAbove compare m.size (heads compare stale m) v (some j)) e least)

  -- The rows that a run counts do not lie above the bound.
  run_below :
      (window : List R) (bound : R) (n : ℕ)
      → n ≤ length window
      → ((i : ℕ) → i < n → within_bound compare true window bound i ≡ true)
      → All (λ r. is_le (compare r bound) ≡ true) (take n window)
  run_below window bound zero l h = tt
  run_below [] bound (suc n) l h = absurd (omega arith)
  run_below (r ∷ window) bound (suc n) l h =
      (h 0 (omega arith), run_below window bound n (omega arith) (λ i p. h (suc i) (omega arith)))

  -- A run of the winner's rows.
  pub record Run (room : ℕ) (window : List R) (before : R → Type 0) (result : Option ℕ)
      : Type ℓ where
    pub n : ℕ
    pub is_result : result ≡ some n
    pub fits : n ≤ room
    pub rows_before : All before (take n window)

  pub run_count-Run :
      (o : IsOrder compare) (room : ℕ) (window : List R) (bound : Option R) (before : R → Type 0)
      → SortedRows compare window
      → ((r : R) → (b : R) → bound ≡ some b → is_le (compare r b) ≡ true → before r)
      → (bound ≡ none → (r : R) → before r)
      → Run room window before (run_count compare stale room window bound)
  run_count-Run o room window none before sorted f g = record {
    n = length (take room window);
    is_result = refl;
    fits = omega (arith, length-take room window);
    rows_before = every (take (length (take room window)) window);
  }
    where
      every : (rows : List R) → All before rows
      every [] = tt
      every (r ∷ rows) = (g refl r, every rows)
  run_count-Run o room window (some b) before sorted f g =
      let (n, result, run) =
        run_length-IsRun o true (take room window) b (SortedRows-take compare room window sorted) in
      let fits : n ≤ room = omega (arith, run.bounded, length-take room window) in
      record {
        n = n;
        is_result = result;
        fits = fits;
        rows_before =
            All-imp (λ r. f r b refl) (take n window)
              (subst (All (λ r. is_le (compare r b) ≡ true)) (take-take n room window fits)
                (run_below (take room window) b n run.bounded run.passed));
      }

  pub bound-IsBefore :
      (o : IsOrder compare) (m : Many R) (leaves : ℕ → Option ℕ) (w : ℕ)
      → Open compare stale m leaves w
      → (bound : Option R) × (run_bound compare m.size
            (heads compare stale m)
            m.size
            (parent m.winner_leaf)
            m.losers
            none
          ≡ some bound)
        × ((r : R) → (b : R) → bound ≡ some b → is_le (compare r b) ≡ true → IsBefore m leaves w r)
        × (bound ≡ none → (r : R) → IsBefore m leaves w r)
  bound-IsBefore o m leaves w h =
      let g = games_of compare stale m leaves in
      let bounded =
        run_bound-Bounded compare m.size o g h.core.players m.size (m.size + w) none (omega arith)
          (ground arith) h.beside in
      let covered : (j : ℕ)
          → j < m.size
          → j ≢ w
          → leaves j ≡ some j
          → IsWithin compare m.size bounded.found (heads compare stale m j) =
        λ j l n player. bounded.covers j l player (λ u. n (
          omega (
            arith,
            at_leaf compare m.size g h.core.players o (m.size + w) (m.size + j) (omega arith)
                (omega arith) u,
          ))) in
      (
        bounded.found,
        ap (λ p. run_bound compare m.size g.head m.size (parent p) m.losers none) h.place
            ∙ bounded.is_result,
        (λ r b e le j l n player. o.le_trans r b (heads compare stale m j) le (
            subst (λ x. IsWithin compare m.size x (heads compare stale m j)) e
              (covered j l n player))),
        (λ e r j l n player. absurd (
            subst (λ x. IsWithin compare m.size x (heads compare stale m j)) e
              (covered j l n player))),
      )
