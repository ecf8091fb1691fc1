-- ===== src/Rows/Merge/Many/Loop.antt =====
-- The loop of mergedRowReader ends, and draws its rows from the readers.
use mathlib.Core.Path.{subst}
use parquet_go.Prelude.{
  ℕ, zero, suc, ◌≤◌, ◌<◌, ◌≡◌, refl, sym, ap, inl, inr, false, Bool-cases, List, [], ◌∷◌, Option,
  none, some, Option-cases, Ordering, length, ◌==◌, IsOrder, arith,
}
use parquet_go.Rows.Merge.Run.{SortedRows}
use parquet_go.Rows.Merge.Buffered.{Holds, rest}
use parquet_go.Rows.Merge.Two.{is_streak}
use parquet_go.Rows.Merge.Many.{Many, Call}
use parquet_go.Rows.Merge.Many.Reading.{round, stop, merge_loop}
use parquet_go.Rows.Merge.Many.Draws.{done, AllSorted}
use parquet_go.Rows.Merge.Many.State.{
  is_player, rests, Settled, Open, IsReader, Settled-Open, Settled-none, Open-count,
}
use parquet_go.Rows.Merge.Many.Steps.{Called}
use parquet_go.Rows.Merge.Many.Refill.{refill_winner-Called}
use parquet_go.Rows.Merge.Many.Emission.{after_head-Called}

positive : (n : ℕ) → 0 < n → (n == 0) ≡ false
positive n h = elim (Bool-cases (n == 0)) [ inl e ↦ absurd (ground arith) | inr e ↦ e ]

uncons {ℓ} : {A : Type ℓ} (xs : List A) → 0 < length xs → (x : A) × (ys : List A) × (xs ≡ x ∷ ys)
uncons [] h = absurd (omega arith)
uncons (x ∷ xs) h = (x, xs, refl)

module _ {ℓ} {R : Type ℓ} (compare : R → R → Ordering) (stale : ℕ → R) where
  -- The readers are at their end.
  pub stop-Called :
      (room : ℕ) (m : Many R) (leaves : ℕ → Option ℕ)
      → IsReader compare stale m leaves
      → ((i : ℕ) → i < m.size → leaves i ≡ none)
      → m.count ≡ 0
      → Called compare stale m.size room
          (rests compare stale m leaves)
          (some (stop compare stale m))
  stop-Called room m leaves s ended counted = record {
    call = stop compare stale m;
    is_result = refl;
    leaves = leaves;
    same_size = refl;
    draws = done (rests compare stale m leaves) (rests compare stale m leaves) (λ _ _. refl);
    after = s;
    within = omega arith;
    answer = inr (rw counted refl, λ i l. ap (λ p. rest (is_player p) (m.buffers i)) (ended i l));
  }

  -- No room, and rows left.
  full-Called :
      (m : Many R) (leaves : ℕ → Option ℕ)
      → IsReader compare stale m leaves
      → 0 < m.count
      → Called compare stale m.size 0 (rests compare stale m leaves) (some (stop compare stale m))
  full-Called m leaves s h = record {
    call = stop compare stale m;
    is_result = refl;
    leaves = leaves;
    same_size = refl;
    draws = done (rests compare stale m leaves) (rests compare stale m leaves) (λ _ _. refl);
    after = s;
    within = omega arith;
    answer = inl (rw (positive m.count h) refl, omega arith);
  }

  -- The number of the readers does not change.
  sized :
      (n size k : ℕ) (f : ℕ → List R) (result : Option (Call R))
      → n ≡ size
      → (AllSorted compare n f → Called compare stale n k f result)
      → AllSorted compare size f
      → Called compare stale size k f result
  sized n size k f result e h =
      subst (λ size. AllSorted compare size f → Called compare stale size k f result) e h

  -- Each round emits a row when all readers have rows buffered.
  pub Settled-Called :
      (o : IsOrder compare) (fuel room : ℕ) (m : Many R) (leaves : ℕ → Option ℕ)
      → room ≤ fuel
      → Settled compare stale m leaves
      → AllSorted compare m.size (rests compare stale m leaves)
      → Called compare stale m.size room
          (rests compare stale m leaves)
          (merge_loop compare stale fuel room m)
  unfolding merge_loop
  Settled-Called o fuel zero m leaves h s sorted = elim (Option-cases m.winner) [
    | inl e ↦
        let (ended, counted) = Settled-none compare stale o m leaves s e in
        stop-Called 0 m leaves (inl s) ended counted
    | inr (w, e) ↦
        full-Called m leaves (inl s)
          (Open-count compare stale m leaves w (Settled-Open compare stale m leaves w s e))
  ]
  Settled-Called o zero (suc room) m leaves h s sorted = absurd (omega arith)
  Settled-Called o (suc fuel) (suc room) m leaves h s sorted = elim (Option-cases m.winner) [
    | inl e ↦
        let (ended, counted) = Settled-none compare stale o m leaves s e in
        rw (counted, merge_loop) (stop-Called (suc room) m leaves (inl s) ended counted)
    | inr (w, e) ↦
        let h' = Settled-Open compare stale m leaves w s e in
        let counted = positive m.count (Open-count compare stale m leaves w h') in
        let filled =
          subst (λ p. Holds (is_player p) (0 < length (m.buffers w).window)) h'.player
            (s.filled w h'.inside) in
        rw (counted, e, merge_loop)
          (let (x, window, p) = uncons (m.buffers w).window filled in
            subst
              (λ window.
                Called compare stale m.size (suc room) (rests compare stale m leaves) (
                  round compare stale room w window m (λ k m'. merge_loop compare stale fuel k m')))
              (sym p)
              (after_head-Called compare stale o (is_streak m.streak) m leaves w room x window
                (λ k m'. merge_loop compare stale fuel k m') s e p sorted
                (λ k m' l same settled.
                  sized m'.size m.size k (rests compare stale m' leaves)
                    (merge_loop compare stale fuel k m') same
                    (Settled-Called o fuel k m' leaves (omega arith) settled))))
  ]

  -- A round reads the buffer of the winner when it is empty.
  pub Open-Called :
      (o : IsOrder compare) (fuel room : ℕ) (m : Many R) (leaves : ℕ → Option ℕ) (w : ℕ)
      → room < fuel
      → Open compare stale m leaves w
      → (m.buffers w).window ≡ []
      → AllSorted compare m.size (rests compare stale m leaves)
      → Called compare stale m.size room
          (rests compare stale m leaves)
          (merge_loop compare stale fuel room m)
  unfolding merge_loop
  Open-Called o fuel zero m leaves w h s p sorted =
      full-Called m leaves (inr (inl (w, s, p))) (Open-count compare stale m leaves w s)
  Open-Called o zero (suc room) m leaves w h s p sorted = absurd (omega arith)
  Open-Called o (suc fuel) (suc room) m leaves w h s p sorted =
      let counted = positive m.count (Open-count compare stale m leaves w s) in
      rw (counted, s.is_winner, merge_loop)
        (subst
          (λ window.
            Called compare stale m.size (suc room) (rests compare stale m leaves)
              (round compare stale room w window m (λ k m'. merge_loop compare stale fuel k m')))
          (sym p)
          (refill_winner-Called compare stale o m leaves w (suc room)
            (λ m'. merge_loop compare stale fuel (suc room) m') s p
            (λ m' leaves' same settled rows.
              sized m'.size m.size (suc room) (rests compare stale m' leaves')
                (merge_loop compare stale fuel (suc room) m') same
                (Settled-Called o fuel (suc room) m' leaves' (omega arith) settled)
                (λ i l. subst (SortedRows compare) (rows i l) (sorted i l)))))
