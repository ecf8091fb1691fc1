-- ===== src/Rows/Merge/Many/Steps.antt =====
-- What the rounds of mergedRowReader's loop are made of.
use mathlib.Core.Path.{subst}
use parquet_go.Prelude.{
  ℕ, ◌+◌, ◌≤◌, ◌<◌, ◌≡◌, refl, sym, ap, ◌∙◌, ◌⊎◌, inl, inr, min, Bool-cases, List, [], ◌∷◌, ◌++◌,
  Option, none, some, Ordering, length, length-append, ◌==◌, IsOrder, arith,
}
use parquet_go.Rows.Stream.{Error}
use parquet_go.Rows.Merge.Buffered.{Buffered, Ends, Holds}
use parquet_go.Rows.Merge.Tree.Won.{Beside}
use parquet_go.Rows.Merge.Tree.Replay.{update_ne, update_self}
use parquet_go.Rows.Merge.Many.{Many, Call, leaf_of, set_buffer, behind}
use parquet_go.Rows.Merge.Many.Reading.{replay, then_with, go_on}
use parquet_go.Rows.Merge.Many.Draws.{Draws, AllSorted, Draws-append, Draws-SortedRows}
use parquet_go.Rows.Merge.Many.State.{
  is_player, games_of, rests, Core, Settled, Open, IsReader, replay-Replayed, set_buffer-Beside,
  set_buffer-all,
}

module _ {ℓ} {R : Type ℓ} (compare : R → R → Ordering) (stale : ℕ → R) where
  -- What a call, or the rest of one, leads to, with room for `room` rows and the rows `f` to come: its rows are drawn
  -- from them; there is one at least if there is room, or no rows are left and the end is reported.
  pub record Called (size room : ℕ) (f : ℕ → List R) (result : Option (Call R)) : Type ℓ where
    pub call : Call R
    pub is_result : result ≡ some call
    pub leaves : ℕ → Option ℕ
    pub same_size : call.reader.size ≡ size
    pub draws : Draws compare size f call.rows (rests compare stale call.reader leaves)
    pub after : IsReader compare stale call.reader leaves
    pub within : length call.rows ≤ room
    pub answer :
        ((call.error ≡ none) × (min room 1 ≤ length call.rows))
        ⊎ ((call.error ≡ some Error.eof)
            × ((i : ℕ) → i < size → rests compare stale call.reader leaves i ≡ []))

  pub behind-Called :
      (size room k : ℕ) (f g : ℕ → List R) (out : List R) (result : Option (Call R))
      → Draws compare size f out g
      → 0 < length out
      → length out + k ≤ room
      → Called size k g result
      → Called size room f (behind out result)
  behind-Called size room k f g out result d p h c =
      let call = c.call in
      rw c.is_result (record {
        call = record call { rows = out ++ call.rows };
        is_result = refl;
        leaves = c.leaves;
        same_size = c.same_size;
        draws =
            Draws-append compare size f g (rests compare stale call.reader c.leaves) out call.rows d
              c.draws;
        after = c.after;
        within = omega (arith, length-append out call.rows, c.within);
        answer = elim c.answer [
          | inl (e, some_row) ↦ inl (e, omega (arith, length-append out call.rows))
          | inr (e, empty) ↦ inr (e, empty)
        ];
      })

  -- The winner's buffer is replaced.
  pub Open-set :
      (m : Many R) (leaves : ℕ → Option ℕ) (w : ℕ) (b : Buffered R)
      → Open compare stale m leaves w
      → Ends b.source
      → Open compare stale (set_buffer w b m) leaves w
  Open-set m leaves w b h e = record {
    core = record {
      players = h.core.players;
      ends =
          set_buffer-all compare stale m (λ i b. Holds (is_player (leaves i)) (Ends b.source)) w b
            (λ i l _. h.core.ends i l) (rw h.player e);
      counted = h.core.counted;
      started = h.core.started;
    };
    is_winner = h.is_winner;
    inside = h.inside;
    player = h.player;
    filled = λ i l n.
        subst (λ b. Holds (is_player (leaves i)) (0 < length b.window))
          (sym (update_ne m.buffers w b i n)) (h.filled i l n);
    beside =
        set_buffer-Beside compare stale m leaves leaves w b h.core.players (λ _ _. refl) h.beside;
    place = h.place;
  }

  all_filled :
      (m : Many R) (leaves : ℕ → Option ℕ) (w : ℕ)
      → Open compare stale m leaves w
      → 0 < length (m.buffers w).window
      → (i : ℕ) → i < m.size
      → Holds (is_player (leaves i)) (0 < length (m.buffers i).window)
  all_filled m leaves w h l i k = elim (Bool-cases (i == w)) [
    | inl e ↦
        let same : w ≡ i = ground arith in
        let own : Holds (is_player (leaves w)) (0 < length (m.buffers w).window) = rw h.player l in
        subst (λ i. Holds (is_player (leaves i)) (0 < length (m.buffers i).window)) same own
    | inr e ↦ h.filled i k (λ q. ground arith)
  ]

  -- The games are replayed when all readers have rows buffered; only the field `streak` changes besides.
  pub replay-Settled {κ} :
      (o : IsOrder compare) (m : Many R) (leaves : ℕ → Option ℕ) (w : ℕ)
      → Core compare stale m leaves
      → w < m.size
      → m.winner ≡ leaves w
      → m.winner_leaf ≡ m.size + w
      → Beside compare m.size (games_of compare stale m leaves) (m.size + w)
      → ((i : ℕ) → i < m.size → Holds (is_player (leaves i)) (0 < length (m.buffers i).window))
      → (P : Option (Call R) → Type κ) (s : Many R → ℕ) (next : Many R → Option (Call R))
      → ((winner : Option ℕ) (losers : ℕ → Option ℕ) (streak : ℕ)
          → let m' : Many R = record m {
            winner = winner;
            losers = losers;
            winner_leaf = leaf_of m.size winner;
            streak = streak;
          } in
            Settled compare stale m' leaves → P (next m'))
      → P (then_with compare stale (λ m. record m { streak = s m }) (replay compare stale m) next)
  replay-Settled o m leaves w core inside e place beside filled P s next f =
      let r = replay-Replayed compare stale o m leaves w core.players inside e place beside in
      let m' : Many R = record m {
        winner = r.winner;
        losers = r.losers;
        winner_leaf = leaf_of m.size r.winner;
      } in
      subst (λ result. P (then_with compare stale (λ m. record m { streak = s m }) result next))
        (sym r.is_result)
        (f r.winner r.losers (s m') (record {
          core = record {
            players = core.players;
            ends = core.ends;
            counted = core.counted;
            started = core.started;
          };
          filled = filled;
          won = r.won;
          place = refl;
        }))

  pub Open-Settled {κ} :
      (o : IsOrder compare) (m : Many R) (leaves : ℕ → Option ℕ) (w : ℕ)
      → Open compare stale m leaves w
      → 0 < length (m.buffers w).window
      → (P : Option (Call R) → Type κ) (s : Many R → ℕ) (next : Many R → Option (Call R))
      → ((winner : Option ℕ) (losers : ℕ → Option ℕ) (streak : ℕ)
          → let m' : Many R = record m {
            winner = winner;
            losers = losers;
            winner_leaf = leaf_of m.size winner;
            streak = streak;
          } in
            Settled compare stale m' leaves → P (next m'))
      → P (then_with compare stale (λ m. record m { streak = s m }) (replay compare stale m) next)
  Open-Settled o m leaves w h l =
      replay-Settled o m leaves w h.core h.inside (h.is_winner ∙ sym h.player) h.place h.beside
        (all_filled m leaves w h l)

  -- What follows the emission of rows of the winner.
  pub go_on-Called :
      (o : IsOrder compare) (m : Many R) (leaves : ℕ → Option ℕ) (w room k : ℕ) (f : ℕ → List R)
      (out window : List R) (s : Many R → ℕ) (next : Many R → Option (Call R))
      → Open compare stale m leaves w
      → 0 < length out
      → length out + k ≤ room
      → AllSorted compare m.size f
      → Draws compare m.size f out
          (rests compare stale (set_buffer w (record (m.buffers w) { window = window }) m) leaves)
      → ((m' : Many R)
          → m'.size ≡ m.size
          → Settled compare stale m' leaves
          → AllSorted compare m.size (rests compare stale m' leaves)
          → Called m.size k (rests compare stale m' leaves) (next m'))
      → Called m.size room f
          (go_on compare stale w out window (λ m. record m { streak = s m }) m next)
  go_on-Called o m leaves w room k f out [] s next h p q sorted d more =
      let b : Buffered R = record (m.buffers w) { window = [] } in
      record {
        call = record { rows = out; error = none; reader = set_buffer w b m };
        is_result = refl;
        leaves = leaves;
        same_size = refl;
        draws = d;
        after = inr (
            inl (
              w,
              Open-set m leaves w b h (
                  subst (λ l. Holds (is_player l) (Ends b.source)) h.player
                    (h.core.ends w h.inside)),
              ap (λ b. b.window) (update_self m.buffers w b),
            ));
        within = omega arith;
        answer = inl (refl, omega arith);
      }
  go_on-Called o m leaves w room k f out (y ∷ window) s next h p q sorted d more =
      let b : Buffered R = record (m.buffers w) { window = y ∷ window } in
      let m1 = set_buffer w b m in
      let ends =
        subst (λ l. Holds (is_player l) (Ends b.source)) h.player (h.core.ends w h.inside) in
      let some_row : 0 < length (m1.buffers w).window =
        subst (λ b. 0 < length b.window) (sym (update_self m.buffers w b)) (omega arith) in
      let (_, sorted') =
        Draws-SortedRows compare m.size f (rests compare stale m1 leaves) out d sorted in
      behind-Called m.size room k f (rests compare stale m1 leaves) out
        (then_with compare stale (λ m. record m { streak = s m }) (replay compare stale m1) next) d
        p q
        (Open-Settled o m1 leaves w (Open-set m leaves w b h ends) some_row
          (λ result. Called m.size k (rests compare stale m1 leaves) result) s next
          (λ winner losers streak settled.
            more
              (record m1 {
                winner = winner;
                losers = losers;
                winner_leaf = leaf_of m.size winner;
                streak = streak;
              })
              refl settled sorted'))
