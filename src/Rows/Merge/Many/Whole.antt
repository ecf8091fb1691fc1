-- ===== src/Rows/Merge/Many/Whole.antt =====
-- mergedRowReader, read to its end, returns the rows of all readers in order.
use mathlib.Core.List.{Perm}
use mathlib.Core.Path.{subst}
use parquet_go.Prelude.{
  ℕ, zero, suc, ◌<◌, ◌≡◌, refl, sym, ap, ◌∙◌, ◌⊎◌, inl, inr, true, List, [], ◌∷◌, ◌++◌, Option,
  some, Ordering, length, All, append-nil, IsOrder, arith,
}
use parquet_go.Rows.Stream.{Error, Read}
use parquet_go.Rows.Merge.Run.{SortedRows}
use parquet_go.Rows.Merge.Buffered.{Ends, to_come}
use parquet_go.Rows.Merge.Many.{Many, Call, new_reader}
use parquet_go.Rows.Merge.Many.Reading.{start, finish, read_rows, read_next, read_all, merge_loop}
use parquet_go.Rows.Merge.Many.Draws.{
  Draws, AllSorted, gather, Draws-append, Draws-SortedRows, Draws-Perm, Draws-length,
}
use parquet_go.Rows.Merge.Many.State.{rests, Settled, Over, IsReader}
use parquet_go.Rows.Merge.Many.Steps.{Called}
use parquet_go.Rows.Merge.Many.Refill.{Called-same}
use parquet_go.Rows.Merge.Many.Loop.{Settled-Called, Open-Called, stop-Called}
use parquet_go.Rows.Merge.Many.Start.{initialize-Started}

module _ {ℓ} {R : Type ℓ} (compare : R → R → Ordering) (stale : ℕ → R) (o : IsOrder compare) where
  -- The loop with the fuel that a call gives it.
  loop-Called :
      (room : ℕ) (m : Many R) (leaves : ℕ → Option ℕ)
      → IsReader compare stale m leaves
      → AllSorted compare m.size (rests compare stale m leaves)
      → Called compare stale m.size room
          (rests compare stale m leaves)
          (merge_loop compare stale (suc room) room m)
  unfolding merge_loop
  loop-Called room m leaves (inl s) sorted =
      Settled-Called compare stale o (suc room) room m leaves (omega arith) s sorted
  loop-Called room m leaves (inr (inl (w, s, e))) sorted =
      Open-Called compare stale o (suc room) room m leaves w (omega arith) s e sorted
  loop-Called zero m leaves (inr (inr s)) sorted =
      stop-Called compare stale 0 m leaves (inr (inr s)) s.ended s.counted
  loop-Called (suc room) m leaves (inr (inr s)) sorted =
      rw (s.counted, merge_loop)
        (stop-Called compare stale (suc room) m leaves (inr (inr s)) s.ended s.counted)

  is_started :
      (m : Many R) (leaves : ℕ → Option ℕ) → IsReader compare stale m leaves → m.initialized ≡ true
  is_started m leaves (inl s) = s.core.started
  is_started m leaves (inr (inl (w, s, e))) = s.core.started
  is_started m leaves (inr (inr s)) = s.started

  later-Called :
      (room : ℕ) (m : Many R) (leaves : ℕ → Option ℕ)
      → IsReader compare stale m leaves
      → AllSorted compare m.size (rests compare stale m leaves)
      → Called compare stale m.size room
          (rests compare stale m leaves)
          (read_rows compare stale room m)
  unfolding read_rows
  later-Called room m leaves s sorted =
      subst
        (λ i.
          Called compare stale m.size room (rests compare stale m leaves)
            (finish compare stale room (start compare stale i m)))
        (sym (is_started m leaves s)) (loop-Called room m leaves s sorted)

  first-Called :
      (room size : ℕ) (sources : ℕ → List (Read R))
      → ((i : ℕ) → i < size → Ends (sources i))
      → AllSorted compare size (λ i. to_come (sources i))
      → Called compare stale size room
          (λ i. to_come (sources i))
          (read_rows compare stale room (new_reader size sources))
  unfolding read_rows
  first-Called room size sources ends sorted =
      let s = initialize-Started compare stale size sources o ends in
      subst
        (λ result.
          Called compare stale size room (λ i. to_come (sources i))
            (finish compare stale room result))
        (sym s.is_result)
        (subst
          (λ n.
            AllSorted compare n (rests compare stale s.reader s.leaves)
            → Called compare stale n room (λ i. to_come (sources i))
                (merge_loop compare stale (suc room) room s.reader))
          s.same_size
          (λ sorted'.
            Called-same compare stale s.reader.size room (λ i. to_come (sources i))
              (rests compare stale s.reader s.leaves)
              (merge_loop compare stale (suc room) room s.reader)
              (λ i l. sym (s.rows i (subst (λ n. i < n) s.same_size l)))
              (loop-Called room s.reader s.leaves (state s.state) sorted'))
          (λ i l. subst (SortedRows compare) (sym (s.rows i l)) (sorted i l)))
    where
      state :
          {m : Many R} {leaves : ℕ → Option ℕ}
          → Settled compare stale m leaves ⊎ Over compare stale m leaves
          → IsReader compare stale m leaves
      state (inl s) = inl s
      state (inr s) = inr (inr s)

  -- The calls to the end: the rows of all of them, and the end.
  record Ended (size : ℕ) (f : ℕ → List R) (result : Option (List R × Error)) : Type ℓ where
    rows : List R
    left : ℕ → List R
    is_result : result ≡ some (rows, Error.eof)
    draws : Draws compare size f rows left
    empty : (i : ℕ) → i < size → left i ≡ []

  read_next-Ended :
      (size room : ℕ) (f : ℕ → List R) (result : Option (Call R))
      (later : Many R → Option (List R × Error))
      → 0 < room
      → AllSorted compare size f
      → Called compare stale size room f result
      → ((m : Many R) (leaves : ℕ → Option ℕ)
          → m.size ≡ size
          → IsReader compare stale m leaves
          → AllSorted compare size (rests compare stale m leaves)
          → length (gather size (rests compare stale m leaves)) < length (gather size f)
          → Ended size (rests compare stale m leaves) (later m))
      → Ended size f (read_next compare stale result later)
  read_next-Ended size room f result later p sorted called next =
      let c = called.call in
      let g = rests compare stale c.reader called.leaves in
      elim called.answer [
        | inr (e, empty) ↦
            rw (called.is_result, e)
              (record {
                rows = c.rows;
                left = g;
                is_result = refl;
                draws = called.draws;
                empty = empty;
              })
        | inl (e, some_row) ↦
            let (_, sorted') = Draws-SortedRows compare size f g c.rows called.draws sorted in
            let fewer = Draws-length compare size f g c.rows called.draws in
            let ended =
              next c.reader called.leaves called.same_size called.after sorted'
                (omega (arith, fewer, some_row)) in
            rw (called.is_result, e, ended.is_result)
              (record {
                rows = c.rows ++ ended.rows;
                left = ended.left;
                is_result = refl;
                draws =
                    Draws-append compare size f g ended.left c.rows ended.rows called.draws
                      ended.draws;
                empty = ended.empty;
              })
      ]

  read_all-Ended :
      (size : ℕ) (rooms : List ℕ) (m : Many R) (leaves : ℕ → Option ℕ)
      → m.size ≡ size
      → IsReader compare stale m leaves
      → AllSorted compare size (rests compare stale m leaves)
      → All (λ room. 0 < room) rooms
      → length (gather size (rests compare stale m leaves)) < length rooms
      → Ended size (rests compare stale m leaves) (read_all compare stale rooms m)
  unfolding read_all
  read_all-Ended size [] m leaves e s sorted p q = absurd (omega arith)
  read_all-Ended size (room ∷ rooms) m leaves e s sorted (p, ps) q =
      let f = rests compare stale m leaves in
      read_next-Ended size room f (read_rows compare stale room m)
        (λ m. read_all compare stale rooms m) p sorted
        (subst
          (λ n.
            AllSorted compare n f → Called compare stale n room f (read_rows compare stale room m))
          e (later-Called room m leaves s) sorted)
        (λ m' leaves' e' s' sorted' l.
          read_all-Ended size rooms m' leaves' e' s' sorted' ps (omega arith))

  gather-empty : (n : ℕ) (f : ℕ → List R) → ((i : ℕ) → i < n → f i ≡ []) → gather n f ≡ []
  gather-empty zero f h = refl
  gather-empty (suc n) f h =
      rw (gather-empty n f (λ i l. h i (omega arith)), h n (omega arith)) refl

  -- For an order, and readers that do not fail and whose calls bring rows or, in the end, `io.EOF`: if the rows of
  -- each are sorted, then calls of mergedRowReader's `ReadRows` with any buffers that are not empty, one more than
  -- there are rows, come to `io.EOF`, and return the rows of all readers, each once, in order and those of
  -- the same reader in its order, whatever the buffers hold where no rows are buffered.
  pub read_all-sources :
      (size : ℕ) (sources : ℕ → List (Read R)) (rooms : List ℕ)
      → ((i : ℕ) → i < size → Ends (sources i))
      → AllSorted compare size (λ i. to_come (sources i))
      → All (λ room. 0 < room) rooms
      → length (gather size (λ i. to_come (sources i))) < length rooms
      → (rows : List R) × (left : ℕ → List R) × (read_all compare stale rooms
            (new_reader size sources)
          ≡ some (rows, Error.eof))
        × SortedRows compare rows
        × Perm rows (gather size (λ i. to_come (sources i)))
        × Draws compare size (λ i. to_come (sources i)) rows left
        × ((i : ℕ) → i < size → left i ≡ [])
  unfolding read_all
  read_all-sources size sources [] ends sorted p q = absurd (omega arith)
  read_all-sources size sources (room ∷ rooms) ends sorted (p, ps) q =
      let f : ℕ → List R = λ i. to_come (sources i) in
      let e =
        read_next-Ended size room f (read_rows compare stale room (new_reader size sources))
          (λ m. read_all compare stale rooms m) p sorted
          (first-Called room size sources ends sorted)
          (λ m' leaves' e' s' sorted' l.
            read_all-Ended size rooms m' leaves' e' s' sorted' ps (omega arith)) in
      (
        e.rows,
        e.left,
        e.is_result,
        (Draws-SortedRows compare size f e.left e.rows e.draws sorted).0,
        subst (λ xs. Perm xs (gather size f))
            (ap (λ xs. e.rows ++ xs) (gather-empty size e.left e.empty) ∙ append-nil e.rows)
            (Draws-Perm compare size f e.left e.rows e.draws),
        e.draws,
        e.empty,
      )
