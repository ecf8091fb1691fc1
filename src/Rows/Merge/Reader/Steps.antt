-- ===== src/Rows/Merge/Reader/Steps.antt =====
-- What each call of mergedRowReader2 does first: the readers that have no rows buffered are read.
use mathlib.Core.Path.{subst}
use parquet_go.Prelude.{
  ℕ, ◌<◌, ◌≡◌, refl, sym, Bool, true, false, List, [], ◌++◌, Option, none, some, Ordering, length,
}
use parquet_go.Rows.Stream.{Error}
use parquet_go.Rows.Merge.Buffered.{
  Buffered, Outcome, read, refill, to_come, Ends, rest, Holds, Filled, read-Filled, refill-Filled,
}
use parquet_go.Rows.Merge.Reader.{Two, set_left, set_right, and_then, initialize, start, refills}

-- Whether a reader may still have rows: before the first call, both may.
abbrev pub waits : Bool → Bool → Bool
waits false live = true
waits true live = live

module _ {ℓ} {R : Type ℓ} where
  -- The rows that the left and the right reader still contribute.
  abbrev pub left_rows : Two R → List R
  left_rows m = rest (waits m.initialized m.left_live) m.left

  abbrev pub right_rows : Two R → List R
  right_rows m = rest (waits m.initialized m.right_live) m.right

  abbrev pub IsFresh : Bool → Two R → Type ℓ
  IsFresh true m = Unit {ℓ}
  IsFresh false m = (m.left.window ≡ []) × (m.right.window ≡ [])

  -- The readers neither fail nor return neither rows nor an error, and no rows are buffered before the first call.
  pub record IsReader (m : Two R) : Type ℓ where
    pub left_ends : Holds (waits m.initialized m.left_live) (Ends m.left.source)
    pub right_ends : Holds (waits m.initialized m.right_live) (Ends m.right.source)
    pub fresh : IsFresh m.initialized m

  -- The reader has been read: readers that are alive have rows buffered.
  pub record Ready (l r : List R) (result : Option (Option Error × Two R)) : Type ℓ where
    pub reader : Two R
    pub is_result : result ≡ some (none, reader)
    pub initialized : reader.initialized ≡ true
    pub left_ends : Holds reader.left_live (Ends reader.left.source)
    pub right_ends : Holds reader.right_live (Ends reader.right.source)
    pub left_filled : Holds reader.left_live (0 < length reader.left.window)
    pub right_filled : Holds reader.right_live (0 < length reader.right.window)
    pub left_same : rest reader.left_live reader.left ≡ l
    pub right_same : rest reader.right_live reader.right ≡ r

  set_both-Ready :
      (l r : List R) (a : Outcome R) (b : Two R → Outcome R) (m : Two R)
      → Filled l a
      → ((after : Buffered R) (live : Bool)
          → Filled r (b (record m { left = after; left_live = live })))
      → m.initialized ≡ true
      → Ready l r (and_then (set_left a m) (λ m. set_right (b m) m))
  set_both-Ready l r a b m f g i =
      let g' = g f.after f.live in
      rw f.is_result (
        rw g'.is_result record {
          reader = record m {
            left = f.after;
            left_live = f.live;
            right = g'.after;
            right_live = g'.live;
          };
          is_result = refl;
          initialized = i;
          left_ends = f.ends;
          right_ends = g'.ends;
          left_filled = f.filled;
          right_filled = g'.filled;
          left_same = f.same;
          right_same = g'.same;
        })

  refills-Ready :
      (m : Two R) (l r : List R)
      → m.initialized ≡ true
      → Holds m.left_live (Ends m.left.source)
      → Holds m.right_live (Ends m.right.source)
      → rest m.left_live m.left ≡ l
      → rest m.right_live m.right ≡ r
      → Ready l r (refills m)
  refills-Ready m l r i h k el er =
      subst (λ l. Ready l r (refills m)) el
        (subst (λ r. Ready (rest m.left_live m.left) r (refills m)) er
          (set_both-Ready (rest m.left_live m.left) (rest m.right_live m.right)
            (refill m.left_live m.left) (λ m. refill m.right_live m.right) m
            (refill-Filled m.left_live m.left.window m.left.source h)
            (λ _ _. refill-Filled m.right_live m.right.window m.right.source k) i))

  read_fresh :
      (b : Buffered R)
      → b.window ≡ []
      → Ends b.source
      → Filled (b.window ++ to_come b.source) (read b)
  read_fresh b e h =
      subst (λ w. Filled (w ++ to_come b.source) (read (record { window = w; source = b.source })))
        (sym e) (read-Filled b.source h)

  -- The first call reads both readers, and then each call those that have no rows buffered.
  pub start-Ready :
      (left right : Buffered R) (ll rl : Bool) (prev : Ordering) (streak : ℕ) (i : Bool)
      → let m : Two R = record {
        left = left;
        right = right;
        left_live = ll;
        right_live = rl;
        prev = prev;
        streak = streak;
        initialized = i;
      } in
        IsReader m → Ready (left_rows m) (right_rows m) (and_then (start i m) refills)
  start-Ready left right ll rl prev streak true h =
      let m : Two R = record {
        left = left;
        right = right;
        left_live = ll;
        right_live = rl;
        prev = prev;
        streak = streak;
        initialized = true;
      } in
      refills-Ready m (left_rows m) (right_rows m) refl h.left_ends h.right_ends refl refl
  start-Ready left right ll rl prev streak false h =
      let l = left.window ++ to_come left.source in
      let r = right.window ++ to_come right.source in
      let first : Ready l r (
          initialize (record {
            left = left;
            right = right;
            left_live = ll;
            right_live = rl;
            prev = prev;
            streak = streak;
            initialized = true;
          })) =
        set_both-Ready l r (read left) (λ m. read m.right)
          (record {
            left = left;
            right = right;
            left_live = ll;
            right_live = rl;
            prev = prev;
            streak = streak;
            initialized = true;
          })
          (read_fresh left h.fresh.0 h.left_ends) (λ _ _. read_fresh right h.fresh.1 h.right_ends)
          refl in
      rw first.is_result (
        refills-Ready first.reader l r first.initialized first.left_ends first.right_ends
          first.left_same first.right_same)
