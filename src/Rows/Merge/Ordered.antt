-- ===== src/Rows/Merge/Ordered.antt =====
-- Rows that are emitted from sorted readers are sorted.
use parquet_go.Prelude.{
  min, ℕ, ◌≤◌, ◌<◌, ◌≡◌, true, List, ◌++◌, length, some, Ordering, All, is_le, IsOrder, arith,
}
use parquet_go.Rows.Merge.Run.{SortedRows}
use parquet_go.Rows.Merge.Two.{Merged, merge_loop}
use parquet_go.Rows.Merge.Emits.{Emits, done, from_left, from_right, IsBelow}
use parquet_go.Rows.Merge.Loop.{merge_loop-Good}

module _ {ℓ} {R : Type ℓ} (compare : R → R → Ordering) where
  -- What holds of all rows holds of those emitted and of those left.
  Emits-All :
      (P : R → Type 0) (xs ys rows xs' ys' : List R)
      → Emits compare xs ys rows xs' ys'
      → All P xs
      → All P ys
      → All P rows × All P xs' × All P ys'
  Emits-All P _ _ _ _ _ (done xs ys) h h' = (tt, h, h')
  Emits-All P _ _ _ _ _ (from_left x xs ys rows xs' ys' b e) (h, hs) h' =
      let (r, l, l') = Emits-All P xs ys rows xs' ys' e hs h' in ((h, r), l, l')
  Emits-All P _ _ _ _ _ (from_right y xs ys rows xs' ys' b e) h (h', hs') =
      let (r, l, l') = Emits-All P xs ys rows xs' ys' e h hs' in ((h', r), l, l')

  -- Every row emitted comes before those left.
  abbrev pub AreBelow : List R → List R → Type 0
  AreBelow rows ys = All (λ r. IsBelow compare r ys) rows

  pub Emits-SortedRows :
      (xs ys rows xs' ys' : List R)
      → Emits compare xs ys rows xs' ys'
      → SortedRows compare xs
      → SortedRows compare ys
      → SortedRows compare rows × AreBelow rows xs' × AreBelow rows ys'
  Emits-SortedRows _ _ _ _ _ (done xs ys) s s' = (tt, tt, tt)
  Emits-SortedRows _ _ _ _ _ (from_left x xs ys rows xs' ys' b e) (h, s) s' =
      let (r, l, l') = Emits-All (λ z. is_le (compare x z) ≡ true) xs ys rows xs' ys' e h b in
      let (sorted, below, below') = Emits-SortedRows xs ys rows xs' ys' e s s' in
      ((r, sorted), (l, below), (l', below'))
  Emits-SortedRows _ _ _ _ _ (from_right y xs ys rows xs' ys' b e) s (h, s') =
      let (r, l, l') = Emits-All (λ z. is_le (compare y z) ≡ true) xs ys rows xs' ys' e b h in
      let (sorted, below, below') = Emits-SortedRows xs ys rows xs' ys' e s s' in
      ((r, sorted), (l, below), (l', below'))

  -- For an order, and two readers that have buffered rows, whose rows, buffered and later ones, are sorted: the
  -- loop of mergedRowReader2 ends with at most as many rows as there is room for, and at least one if there
  -- is room, which it has taken from the fronts of the two; they are sorted and lie above none of the rows left,
  -- whatever streak it begins with.
  pub merge_loop-Emits :
      (o : IsOrder compare) (room : ℕ) (left right later_left later_right : List R)
      (prev : Ordering) (streak : ℕ)
      → 0 < length left
      → 0 < length right
      → SortedRows compare (left ++ later_left)
      → SortedRows compare (right ++ later_right)
      → (m : Merged R) × (merge_loop compare room room left right prev streak ≡ some m)
        × (length m.rows ≤ room)
        × (min room 1 ≤ length m.rows)
        × Emits compare
            (left ++ later_left)
            (right ++ later_right)
            m.rows
            (m.left ++ later_left)
            (m.right ++ later_right)
        × SortedRows compare m.rows
        × AreBelow m.rows (m.left ++ later_left)
        × AreBelow m.rows (m.right ++ later_right)
  merge_loop-Emits o room left right fl fr prev streak hl hr sl sr =
      let g =
        merge_loop-Good compare o room room left right fl fr prev streak (omega arith) hl hr sl
          sr in
      let m = g.merged in
      let (sorted, below, below') =
        Emits-SortedRows (left ++ fl) (right ++ fr) m.rows (m.left ++ fl) (m.right ++ fr) g.emits sl
          sr in
      (m, g.is_result, g.within, g.progress, g.emits, sorted, below, below')
