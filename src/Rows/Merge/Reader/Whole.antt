-- ===== src/Rows/Merge/Reader/Whole.antt =====
-- mergedRowReader2, read to its end, returns the rows of both readers in order.
use mathlib.Core.List.{Perm, perm_middle}
use mathlib.Core.List.Perm
use parquet_go.Prelude.{
  ℕ, ◌+◌, ◌<◌, ◌≡◌, refl, List, [], ◌∷◌, ◌++◌, Option, some, Ordering, length, All, append-nil, inl,
  inr, IsOrder, arith,
}
use parquet_go.Rows.Stream.{Error, Read}
use parquet_go.Rows.Merge.Buffered.{to_come, Ends}
use parquet_go.Rows.Merge.Run.{SortedRows}
use parquet_go.Rows.Merge.Emits.{Emits, done, from_left, from_right, Emits-append}
use parquet_go.Rows.Merge.Ordered.{Emits-SortedRows}
use parquet_go.Rows.Merge.Reader.{Two, Call, new_reader, read_rows, read_next, read_all}
use parquet_go.Rows.Merge.Reader.Steps.{IsReader, left_rows, right_rows}
use parquet_go.Rows.Merge.Reader.Calls.{Called, read_rows-Called}

module _ {ℓ} {R : Type ℓ} (compare : R → R → Ordering) where
  Emits-length :
      (xs ys rows xs' ys' : List R)
      → Emits compare xs ys rows xs' ys'
      → length xs + length ys ≡ length rows + (length xs' + length ys')
  Emits-length _ _ _ _ _ (done xs ys) = omega arith
  Emits-length _ _ _ _ _ (from_left x xs ys rows xs' ys' h e) =
      omega (arith, Emits-length xs ys rows xs' ys' e)
  Emits-length _ _ _ _ _ (from_right y xs ys rows xs' ys' h e) =
      omega (arith, Emits-length xs ys rows xs' ys' e)

  -- What is left of sorted lists is sorted.
  Emits-rest :
      (xs ys rows xs' ys' : List R)
      → Emits compare xs ys rows xs' ys'
      → SortedRows compare xs
      → SortedRows compare ys
      → SortedRows compare xs' × SortedRows compare ys'
  Emits-rest _ _ _ _ _ (done xs ys) s s' = (s, s')
  Emits-rest _ _ _ _ _ (from_left x xs ys rows xs' ys' h e) (_, s) s' =
      Emits-rest xs ys rows xs' ys' e s s'
  Emits-rest _ _ _ _ _ (from_right y xs ys rows xs' ys' h e) s (_, s') =
      Emits-rest xs ys rows xs' ys' e s s'

  Emits-Perm :
      (xs ys rows xs' ys' : List R)
      → Emits compare xs ys rows xs' ys'
      → Perm (rows ++ (xs' ++ ys')) (xs ++ ys)
  Emits-Perm _ _ _ _ _ (done xs ys) = Perm.refl _
  Emits-Perm _ _ _ _ _ (from_left x xs ys rows xs' ys' h e) =
      Perm.cons x (Emits-Perm xs ys rows xs' ys' e)
  Emits-Perm _ _ _ _ _ (from_right y xs ys rows xs' ys' h e) =
      Perm.trans (Perm.cons y (Emits-Perm xs ys rows xs' ys' e)) (Perm.symm (perm_middle xs ys))

  -- The calls to the end: the rows of all of them, and the end.
  record Ended (l r : List R) (result : Option (List R × Error)) : Type ℓ where
    rows : List R
    is_result : result ≡ some (rows, Error.eof)
    emits : Emits compare l r rows [] []

  read_next-Ended :
      (room : ℕ) (l r : List R) (result : Option (Call R)) (later : Two R → Option (List R × Error))
      → 0 < room
      → SortedRows compare l
      → SortedRows compare r
      → Called compare room l r result
      → ((m : Two R)
          → IsReader m
          → SortedRows compare (left_rows m)
          → SortedRows compare (right_rows m)
          → length (left_rows m) + length (right_rows m) < length l + length r
          → Ended (left_rows m) (right_rows m) (later m))
      → Ended l r (read_next compare result later)
  read_next-Ended room l r result later p sl sr called next =
      let c = called.call in
      elim called.answer [
        | inr (e, rows, le, re) ↦
            rw called.is_result (
              rw (e, le, re) (rw rows (record { rows = []; is_result = refl; emits = done [] [] })))
        | inl (e, some_row) ↦
            let fewer =
              Emits-length l r c.rows (left_rows c.reader) (right_rows c.reader) called.emits in
            let (sl', sr') =
              Emits-rest l r c.rows (left_rows c.reader) (right_rows c.reader) called.emits sl sr in
            let ended = next c.reader called.after sl' sr' (omega (arith, fewer, some_row)) in
            rw called.is_result (
              rw (e, ended.is_result)
                (record {
                  rows = c.rows ++ ended.rows;
                  is_result = refl;
                  emits =
                      Emits-append compare l r c.rows (left_rows c.reader) (right_rows c.reader)
                        ended.rows [] [] called.emits ended.emits;
                }))
      ]

  read_all-Ended :
      (o : IsOrder compare) (rooms : List ℕ) (m : Two R)
      → IsReader m
      → SortedRows compare (left_rows m)
      → SortedRows compare (right_rows m)
      → All (λ room. 0 < room) rooms
      → length (left_rows m) + length (right_rows m) < length rooms
      → Ended (left_rows m) (right_rows m) (read_all compare rooms m)
  unfolding read_all
  read_all-Ended o [] m h sl sr p q = absurd (omega arith)
  read_all-Ended o (room ∷ rooms) m h sl sr (p, ps) q =
      read_next-Ended room (left_rows m) (right_rows m) (read_rows compare room m)
        (λ m. read_all compare rooms m) p sl sr (read_rows-Called compare o room m h sl sr)
        (λ m' h' sl' sr' q'. read_all-Ended o rooms m' h' sl' sr' ps (omega arith))

  -- For an order, and two readers that do not fail and whose calls bring rows or, in the end, `io.EOF`: if the rows
  -- of each are sorted, then calls of mergedRowReader2's `ReadRows` with any buffers that are not empty, one more
  -- than there are rows, come to `io.EOF`, and return the rows of both readers, each once, in order and
  -- those of the same reader in its order.
  pub read_all-new_reader :
      (o : IsOrder compare) (left right : List (Read R)) (rooms : List ℕ)
      → Ends left
      → Ends right
      → SortedRows compare (to_come left)
      → SortedRows compare (to_come right)
      → All (λ room. 0 < room) rooms
      → length (to_come left) + length (to_come right) < length rooms
      → (rows : List R) × (read_all compare rooms (new_reader left right) ≡ some (rows, Error.eof))
        × SortedRows compare rows
        × Perm rows (to_come left ++ to_come right)
        × Emits compare (to_come left) (to_come right) rows [] []
  read_all-new_reader o left right rooms hl hr sl sr p q =
      let ended =
        read_all-Ended o rooms (new_reader left right)
          (record { left_ends = hl; right_ends = hr; fresh = (refl, refl) }) sl sr p q in
      let (sorted, _, _) =
        Emits-SortedRows compare (to_come left) (to_come right) ended.rows [] [] ended.emits sl
          sr in
      (
        ended.rows,
        ended.is_result,
        sorted,
        rw (← append-nil ended.rows)
            (Emits-Perm (to_come left) (to_come right) ended.rows [] [] ended.emits),
        ended.emits,
      )
