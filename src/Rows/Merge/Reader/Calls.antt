-- ===== src/Rows/Merge/Reader/Calls.antt =====
-- What each call of mergedRowReader2 returns.
use mathlib.Core.Path.{subst}
use parquet_go.Prelude.{
  ℕ, zero, suc, ◌≤◌, ◌<◌, ◌≡◌, refl, ap, sym, min, Bool, true, false, List, [], ◌∷◌, ◌++◌, Option,
  none, some, Ordering, length, take, drop, length-take, ◌⊎◌, inl, inr, IsOrder, arith,
}
use parquet_go.Rows.Stream.{Error}
use parquet_go.Rows.Merge.Buffered.{Buffered, to_come, Ends, rest, Holds}
use parquet_go.Rows.Merge.Run.{SortedRows}
use parquet_go.Rows.Merge.Emits.{Emits, done, from_left, from_right}
use parquet_go.Rows.Merge.Loop.{merge_loop-Good}
use parquet_go.Rows.Merge.Reader.{
  Two, Call, and_then, start, refills, copy_rows, emit_rows, finish, read_rows,
}
use parquet_go.Rows.Merge.Reader.Steps.{IsReader, Ready, left_rows, right_rows, start-Ready}

module _ {ℓ} {R : Type ℓ} where
  -- The loop over the rows of the only reader that is left copies them in their order.
  copy_rows_lem :
      (k : ℕ) (window : List R)
      → 0 < length window
      → copy_rows k window ≡ some (take k window, drop k window)
  copy_rows_lem zero window h = refl
  copy_rows_lem (suc k) [] h = absurd (omega arith)
  copy_rows_lem (suc zero) (x ∷ []) h = refl
  copy_rows_lem (suc (suc k)) (x ∷ []) h = refl
  copy_rows_lem (suc k) (x ∷ y ∷ window) h = rw (copy_rows_lem k (y ∷ window) (omega arith)) refl

  module _ (compare : R → R → Ordering) where
    -- What a call leads to whose readers still had the rows `l` and `r`: the rows are taken from their fronts; there is
    -- one at least if there is room, or no rows are left and the end is reported.
    pub record Called (room : ℕ) (l r : List R) (result : Option (Call R)) : Type ℓ where
      pub call : Call R
      pub is_result : result ≡ some call
      pub emits : Emits compare l r call.rows (left_rows call.reader) (right_rows call.reader)
      pub after : IsReader call.reader
      pub within : length call.rows ≤ room
      pub answer :
          ((call.error ≡ none) × (min room 1 ≤ length call.rows))
          ⊎ ((call.error ≡ some Error.eof) × (call.rows ≡ []) × (l ≡ []) × (r ≡ []))

    take-Emits_left :
        (k : ℕ) (w later : List R) → Emits compare (w ++ later) [] (take k w) (drop k w ++ later) []
    take-Emits_left zero w later = done (w ++ later) []
    take-Emits_left (suc k) [] later = done later []
    take-Emits_left (suc k) (x ∷ w) later =
        from_left x (w ++ later) [] (take k w) (drop k w ++ later) [] tt (take-Emits_left k w later)

    take-Emits_right :
        (k : ℕ) (w later : List R) → Emits compare [] (w ++ later) (take k w) [] (drop k w ++ later)
    take-Emits_right zero w later = done [] (w ++ later)
    take-Emits_right (suc k) [] later = done [] later
    take-Emits_right (suc k) (x ∷ w) later =
        from_right x [] (w ++ later) (take k w) [] (drop k w ++ later) tt
          (take-Emits_right k w later)

    taken_one : (k : ℕ) (w : List R) → 0 < length w → min k 1 ≤ length (take k w)
    taken_one k w h = omega (arith, length-take k w)

    emit-Called :
        (o : IsOrder compare) (room : ℕ) (left right : Buffered R) (ll rl : Bool) (prev : Ordering)
        (streak : ℕ)
        → let m : Two R = record {
          left = left;
          right = right;
          left_live = ll;
          right_live = rl;
          prev = prev;
          streak = streak;
          initialized = true;
        } in
          Holds ll (Ends left.source)
          → Holds rl (Ends right.source)
          → Holds ll (0 < length left.window)
          → Holds rl (0 < length right.window)
          → SortedRows compare (rest ll left)
          → SortedRows compare (rest rl right)
          → Called room (rest ll left) (rest rl right) (emit_rows compare room ll rl m)
    emit-Called o room left right false false prev streak el er fl fr sl sr = record {
      call = record {
        rows = [];
        error = some Error.eof;
        reader = record {
          left = left;
          right = right;
          left_live = false;
          right_live = false;
          prev = prev;
          streak = streak;
          initialized = true;
        };
      };
      is_result = refl;
      emits = done [] [];
      after = record { left_ends = tt; right_ends = tt; fresh = tt };
      within = omega arith;
      answer = inr (refl, refl, refl, refl);
    }
    emit-Called o room left right false true prev streak el er fl fr sl sr =
        rw (copy_rows_lem room right.window fr) record {
          call = record {
            rows = take room right.window;
            error = none;
            reader = record {
              left = left;
              right = record right { window = drop room right.window };
              left_live = false;
              right_live = true;
              prev = prev;
              streak = streak;
              initialized = true;
            };
          };
          is_result = refl;
          emits = take-Emits_right room right.window (to_come right.source);
          after = record { left_ends = tt; right_ends = er; fresh = tt };
          within = omega (arith, length-take room right.window);
          answer = inl (refl, taken_one room right.window fr);
        }
    emit-Called o room left right true false prev streak el er fl fr sl sr =
        rw (copy_rows_lem room left.window fl) record {
          call = record {
            rows = take room left.window;
            error = none;
            reader = record {
              left = record left { window = drop room left.window };
              right = right;
              left_live = true;
              right_live = false;
              prev = prev;
              streak = streak;
              initialized = true;
            };
          };
          is_result = refl;
          emits = take-Emits_left room left.window (to_come left.source);
          after = record { left_ends = el; right_ends = tt; fresh = tt };
          within = omega (arith, length-take room left.window);
          answer = inl (refl, taken_one room left.window fl);
        }
    emit-Called o room left right true true prev streak el er fl fr sl sr =
        let g =
          merge_loop-Good compare o room room left.window right.window (to_come left.source)
            (to_come right.source) prev streak (omega arith) fl fr sl sr in
        let loop = g.merged in
        rw g.is_result record {
          call = record {
            rows = loop.rows;
            error = none;
            reader = record {
              left = record left { window = loop.left };
              right = record right { window = loop.right };
              left_live = true;
              right_live = true;
              prev = loop.prev;
              streak = loop.streak;
              initialized = true;
            };
          };
          is_result = refl;
          emits = g.emits;
          after = record { left_ends = el; right_ends = er; fresh = tt };
          within = g.within;
          answer = inl (refl, g.progress);
        }

    finish-Called :
        (o : IsOrder compare) (room : ℕ) (l r : List R) (result : Option (Option Error × Two R))
        → Ready l r result
        → SortedRows compare l
        → SortedRows compare r
        → Called room l r (finish compare room result)
    finish-Called o room l r result q sl sr =
        let m = q.reader in
        let m' : Two R = record m { initialized = true } in
        let same : m' ≡ m = ap (λ i. record m { initialized = i }) (sym q.initialized) in
        let called =
          emit-Called o room m.left m.right m.left_live m.right_live m.prev m.streak q.left_ends
            q.right_ends q.left_filled q.right_filled
            (subst (SortedRows compare) (sym q.left_same) sl)
            (subst (SortedRows compare) (sym q.right_same) sr) in
        rw q.is_result (
          subst (λ m''. Called room l r (emit_rows compare room m.left_live m.right_live m'')) same
            (subst (λ l. Called room l r (emit_rows compare room m.left_live m.right_live m'))
              q.left_same
              (subst
                (λ r.
                  Called room (rest m.left_live m.left) r
                    (emit_rows compare room m.left_live m.right_live m'))
                q.right_same called)))

    pub read_rows-Called :
        (o : IsOrder compare) (room : ℕ) (m : Two R)
        → IsReader m
        → SortedRows compare (left_rows m)
        → SortedRows compare (right_rows m)
        → Called room (left_rows m) (right_rows m) (read_rows compare room m)
    unfolding read_rows
    read_rows-Called o room m h sl sr =
        finish-Called o room (left_rows m) (right_rows m) (and_then (start m.initialized m) refills)
          (start-Ready m.left m.right m.left_live m.right_live m.prev m.streak m.initialized h) sl
          sr
