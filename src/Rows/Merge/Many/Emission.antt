-- ===== src/Rows/Merge/Many/Emission.antt =====
-- A round of mergedRowReader's loop that emits rows.
use mathlib.Core.Path.{subst}
use parquet_go.Prelude.{
  ℕ, suc, ◌-◌, ◌≤◌, ◌≡◌, sym, ap, ◌∙◌, Bool, true, false, List, [], ◌∷◌, Option, none, some,
  Ordering, length-take, take, drop, take-append-drop, IsOrder, arith,
}
use parquet_go.Rows.Merge.Run.{SortedRows}
use parquet_go.Rows.Merge.Emits.{SortedRows-front}
use parquet_go.Rows.Merge.Buffered.{Buffered, Ends, Holds, rest, to_come}
use parquet_go.Rows.Merge.Tree.{parent, run_bound}
use parquet_go.Rows.Merge.Tree.Replay.{update_self}
use parquet_go.Rows.Merge.Many.{Many, Call, set_buffer, heads}
use parquet_go.Rows.Merge.Many.Reading.{emit_run, after_head, count_streak}
use parquet_go.Rows.Merge.Many.Draws.{Draws, AllSorted, Draws-append, Draws-SortedRows}
use parquet_go.Rows.Merge.Many.State.{is_player, rests, Settled, Open, Settled-Open}
use parquet_go.Rows.Merge.Many.Steps.{Called, Open-set, go_on-Called}
use parquet_go.Rows.Merge.Many.Rounds.{
  IsBefore, emit-Draws, head-IsBefore, run_count-Run, bound-IsBefore,
}

module _ {ℓ} {R : Type ℓ} (compare : R → R → Ordering) (stale : ℕ → R) where
  -- The further rounds, with room for at most `room` rows.
  abbrev pub Goes : ℕ → ℕ → (ℕ → Option ℕ) → (ℕ → Many R → Option (Call R)) → Type ℓ
  Goes size room leaves next =
      (k : ℕ) (m : Many R)
      → k ≤ room
      → m.size ≡ size
      → Settled compare stale m leaves
      → AllSorted compare size (rests compare stale m leaves)
      → Called compare stale size k (rests compare stale m leaves) (next k m)

  own_ends :
      (m : Many R) (leaves : ℕ → Option ℕ) (w : ℕ)
      → Open compare stale m leaves w
      → Ends (m.buffers w).source
  own_ends m leaves w h =
      subst (λ l. Holds (is_player l) (Ends (m.buffers w).source)) h.player (h.core.ends w h.inside)

  own_sorted :
      (m : Many R) (leaves : ℕ → Option ℕ) (w : ℕ)
      → Open compare stale m leaves w
      → AllSorted compare m.size (rests compare stale m leaves)
      → SortedRows compare (m.buffers w).window
  own_sorted m leaves w h sorted =
      SortedRows-front compare (m.buffers w).window (to_come (m.buffers w).source) (
        subst (λ l. SortedRows compare (rest (is_player l) (m.buffers w))) h.player
          (sorted w h.inside))

  -- A run behind the head, which has been drawn.
  run-Called :
      (o : IsOrder compare) (m : Many R) (leaves : ℕ → Option ℕ) (w room : ℕ) (f : ℕ → List R)
      (x : R) (window : List R) (next : ℕ → Many R → Option (Call R))
      → Open compare stale m leaves w
      → (m.buffers w).window ≡ window
      → AllSorted compare m.size f
      → Draws compare m.size f (x ∷ []) (rests compare stale m leaves)
      → Goes m.size room leaves next
      → Called compare stale m.size (suc room) f (
          emit_run compare stale room w x window m
            (run_bound compare m.size
              (heads compare stale m)
              m.size
              (parent m.winner_leaf)
              m.losers
              none)
            next)
  run-Called o m leaves w room f x window next h e sorted d goes =
      let (bound, is_bound, covered, alone) = bound-IsBefore compare stale o m leaves w h in
      let (_, sorted') =
        Draws-SortedRows compare m.size f (rests compare stale m leaves) (x ∷ []) d sorted in
      let run =
        run_count-Run compare stale o room window bound (IsBefore compare stale m leaves w)
          (subst (SortedRows compare) e (own_sorted m leaves w h sorted')) covered alone in
      let n = run.n in
      let d' =
        emit-Draws compare stale o m leaves w (take n window) (drop n window) m.streak h sorted'
          (e ∙ sym (take-append-drop n window)) run.rows_before in
      let m1 = set_buffer w (record (m.buffers w) { window = drop n window }) m in
      rw (is_bound, run.is_result, emit_run)
        (go_on-Called compare stale o m leaves w (suc room) (room - n) f (x ∷ take n window)
          (drop n window) (λ m. 0) (λ m. next (room - n) m) h (omega arith)
          (omega (arith, length-take n window, run.fits)) sorted
          (Draws-append compare m.size f (rests compare stale m leaves)
            (rests compare stale m1 leaves) (x ∷ []) (take n window) d d')
          (λ m' same settled s. goes (room - n) m' (omega arith) same settled s))

  -- The head of the winner, and what follows it.
  pub after_head-Called :
      (o : IsOrder compare) (streak : Bool) (m : Many R) (leaves : ℕ → Option ℕ) (w room : ℕ)
      (x : R) (window : List R) (next : ℕ → Many R → Option (Call R))
      → Settled compare stale m leaves
      → m.winner ≡ some w
      → (m.buffers w).window ≡ x ∷ window
      → AllSorted compare m.size (rests compare stale m leaves)
      → Goes m.size room leaves next
      → Called compare stale m.size
          (suc room)
          (rests compare stale m leaves)
          (after_head compare stale streak room w x window m next)
  after_head-Called o streak m leaves w room x window next s e p sorted goes =
      by_window streak window p
    where
      opened : Open compare stale m leaves w
      opened = Settled-Open compare stale m leaves w s e

      drawn :
          (window : List R)
          → (m.buffers w).window ≡ x ∷ window
          → Draws compare m.size (rests compare stale m leaves) (x ∷ []) (
              rests compare stale
                (set_buffer w (record (m.buffers w) { window = window }) m)
                leaves)
      drawn window p =
          emit-Draws compare stale o m leaves w (x ∷ []) window m.streak opened sorted p
            (head-IsBefore compare stale o m leaves w x window s e p, tt)

      by_window :
          (streak : Bool) (window : List R)
          → (m.buffers w).window ≡ x ∷ window
          → Called compare stale m.size
              (suc room)
              (rests compare stale m leaves)
              (after_head compare stale streak room w x window m next)
      by_window streak [] p =
          go_on-Called compare stale o m leaves w (suc room) room (rests compare stale m leaves)
            (x ∷ []) [] (λ m. m.streak) (λ m. next room m) opened (omega arith) (omega arith) sorted
            (drawn [] p) (λ m' same settled t. goes room m' (omega arith) same settled t)
      by_window false (y ∷ window) p =
          go_on-Called compare stale o m leaves w (suc room) room (rests compare stale m leaves)
            (x ∷ []) (y ∷ window) (λ m. (count_streak compare stale (some w) m).streak)
            (λ m. next room m) opened (omega arith) (omega arith) sorted (drawn (y ∷ window) p)
            (λ m' same settled t. goes room m' (omega arith) same settled t)
      by_window true (y ∷ window) p =
          let b : Buffered R = record (m.buffers w) { window = y ∷ window } in
          run-Called o (set_buffer w b m) leaves w room (rests compare stale m leaves) x
            (y ∷ window) next
            (Open-set compare stale m leaves w b opened (own_ends m leaves w opened))
            (ap (λ b. b.window) (update_self m.buffers w b)) sorted (drawn (y ∷ window) p) goes
