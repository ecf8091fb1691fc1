-- ===== src/Rows/Merge/Loop.antt =====
-- The loop of mergedRowReader2 ends, and what it emits is in order.
use mathlib.Core.Path.{subst}
use parquet_go.Prelude.{
  min, ℕ, zero, suc, ◌+◌, ◌-◌, ◌≤◌, ◌<◌, ◌≡◌, refl, sym, ◌⊎◌, inl, inr, Bool, true, false, List, [],
  ◌∷◌, ◌++◌, length, take, drop, Option, some, Ordering, if◌then◌else◌, All, All-imp,
  drop-append_short, take-append_short, length-take, length-append, is_le, IsOrder, arith,
}
use parquet_go.Rows.Merge.Run.{SortedRows}
use parquet_go.Rows.Merge.Two.{Merged, is_streak, next_streak, run_of, go_on, emit_tie, merge_loop}
use parquet_go.Rows.Merge.Emits.{
  Emits, done, from_left, from_right, IsBelow, Emits-append, Emits-left, Emits-right,
  SortedRows-drop, SortedRows-front, IsRunBefore, run_of-IsRunBefore,
}

Ordering-cases : (c : Ordering) → (c ≡ Ordering.lt) ⊎ (c ≡ Ordering.eq) ⊎ (c ≡ Ordering.gt)
Ordering-cases Ordering.lt = inl refl
Ordering-cases Ordering.eq = inr (inl refl)
Ordering-cases Ordering.gt = inr (inr refl)

module _ {ℓ} {R : Type ℓ} (compare : R → R → Ordering) (o : IsOrder compare) where
  -- What a run of the loop leads to, with `later_left` and `later_right` still to be read.
  pub record Good (k : ℕ) (left right later_left later_right : List R) (result : Option (Merged R))
      : Type ℓ where
    pub merged : Merged R
    pub is_result : result ≡ some merged
    pub emits :
        Emits compare
          (left ++ later_left)
          (right ++ later_right)
          merged.rows
          (merged.left ++ later_left)
          (merged.right ++ later_right)
    pub within : length merged.rows ≤ k
    pub progress : min k 1 ≤ length merged.rows

  taken :
      {k n : ℕ} {xs : List R} {bound : R}
      → IsRunBefore compare k n xs bound
      → 0 < length (take n xs)
  taken {n} {xs} run = omega (arith, length-take n xs, run.some_row, run.there)

  IsBelow-all :
      (x y : R) (ys : List R)
      → is_le (compare x y) ≡ true
      → SortedRows compare (y ∷ ys)
      → IsBelow compare x (y ∷ ys)
  IsBelow-all x y ys h (s, ss) = (h, All-imp (λ z e. o.le_trans x y z h e) ys s)

  go_on-Good :
      (k j : ℕ) (out l r l' r' fl fr : List R) (prev : Ordering) (streak : ℕ)
      (more : Option (Merged R))
      → Emits compare (l ++ fl) (r ++ fr) out (l' ++ fl) (r' ++ fr)
      → length out + j ≤ k
      → 0 < length out
      → (0 < length l' → 0 < length r' → Good j l' r' fl fr more)
      → Good k l r fl fr (go_on compare out l' r' prev streak more)
  go_on-Good k j out l r [] r' fl fr prev streak more e h p f = record {
    merged = record { rows = out; left = []; right = r'; prev = prev; streak = streak };
    is_result = refl;
    emits = e;
    within = omega arith;
    progress = omega arith;
  }
  go_on-Good k j out l r (x ∷ l') [] fl fr prev streak more e h p f = record {
    merged = record { rows = out; left = x ∷ l'; right = []; prev = prev; streak = streak };
    is_result = refl;
    emits = e;
    within = omega arith;
    progress = omega arith;
  }
  go_on-Good k j out l r (x ∷ l') (y ∷ r') fl fr prev streak more e h p f =
      let g = f (omega arith) (omega arith) in
      rw g.is_result record {
        merged = record (g.merged) { rows = out ++ g.merged.rows };
        is_result = refl;
        emits =
            Emits-append compare (l ++ fl) (r ++ fr) out ((x ∷ l') ++ fl) ((y ∷ r') ++ fr)
              g.merged.rows (g.merged.left ++ fl) (g.merged.right ++ fr) e g.emits;
        within = omega (arith, length-append out g.merged.rows, g.within);
        progress = omega (arith, length-append out g.merged.rows);
      }

  -- The number of rows that are emitted together, on a streak or not.
  picked :
      (b : Bool) (k : ℕ) (x : R) (xs : List R) (bound : R)
      → is_le (compare x bound) ≡ true
      → SortedRows compare (x ∷ xs)
      → (n : ℕ) × ((if b then run_of compare (suc k) (x ∷ xs) bound else some 1) ≡ some n)
        × IsRunBefore compare (suc k) n (x ∷ xs) bound
  picked true k x xs bound h s = run_of-IsRunBefore compare o k x xs bound h s
  picked false k x xs bound h s = (
    1,
    refl,
    record { some_row = omega arith; room = omega arith; there = omega arith; before = (h, tt) },
  )

  -- A run in front of the rows that are read later.
  run_front :
      (n : ℕ) (xs later : List R)
      → n ≤ length xs
      → (take n (xs ++ later) ≡ take n xs) × (drop n (xs ++ later) ≡ drop n xs ++ later)
  run_front n xs later h =
      (take-append_short n xs later (omega arith), drop-append_short n xs later h)

  Emits-run_left :
      (k n : ℕ) (xs fl : List R) (y : R) (ys : List R)
      → IsRunBefore compare k n xs y
      → SortedRows compare (y ∷ ys)
      → Emits compare (xs ++ fl) (y ∷ ys) (take n xs) (drop n xs ++ fl) (y ∷ ys)
  Emits-run_left k n xs fl y ys run s =
      let (front, behind) = run_front n xs fl run.there in
      let below = All-imp (λ x h. IsBelow-all x y ys h s) (take n xs) run.before in
      subst (λ t. Emits compare (xs ++ fl) (y ∷ ys) t (drop n xs ++ fl) (y ∷ ys)) front
        (subst (λ t. Emits compare (xs ++ fl) (y ∷ ys) (take n (xs ++ fl)) t (y ∷ ys)) behind
          (Emits-left compare n (xs ++ fl) (y ∷ ys)
            (subst (All (λ x. IsBelow compare x (y ∷ ys))) (sym front) below)))

  Emits-run_right :
      (k n : ℕ) (ys fr : List R) (x : R) (xs : List R)
      → IsRunBefore compare k n ys x
      → SortedRows compare (x ∷ xs)
      → Emits compare (x ∷ xs) (ys ++ fr) (take n ys) (x ∷ xs) (drop n ys ++ fr)
  Emits-run_right k n ys fr x xs run s =
      let (front, behind) = run_front n ys fr run.there in
      let below = All-imp (λ y h. IsBelow-all y x xs h s) (take n ys) run.before in
      subst (λ t. Emits compare (x ∷ xs) (ys ++ fr) t (x ∷ xs) (drop n ys ++ fr)) front
        (subst (λ t. Emits compare (x ∷ xs) (ys ++ fr) (take n (ys ++ fr)) (x ∷ xs) t) behind
          (Emits-right compare n (x ∷ xs) (ys ++ fr)
            (subst (All (λ y. IsBelow compare y (x ∷ xs))) (sym front) below)))

  rest_sorted :
      (n : ℕ) (xs later : List R)
      → n ≤ length xs
      → SortedRows compare (xs ++ later)
      → SortedRows compare (drop n xs ++ later)
  rest_sorted n xs later h s =
      subst (SortedRows compare) ((run_front n xs later h).1)
        (SortedRows-drop compare n (xs ++ later) s)

  step_room :
      (n k fuel : ℕ) (xs : List R)
      → 0 < n
      → n ≤ suc k
      → suc k ≤ suc fuel
      → (suc k - n ≤ fuel) × (length (take n xs) + (suc k - n) ≤ suc k)
  step_room n k fuel xs p q h = (omega arith, omega (arith, length-take n xs))

  eq_le :
      (x y : R)
      → compare x y ≡ Ordering.eq
      → (is_le (compare x y) ≡ true) × (is_le (compare y x) ≡ true)
  eq_le x y e = (rw e refl, rw (o.flip x y, e) refl)

  gt_le : (x y : R) → compare x y ≡ Ordering.gt → is_le (compare y x) ≡ true
  gt_le x y e = rw (o.flip x y, e) refl

  Good-none :
      (fuel : ℕ) (l r fl fr : List R) (prev : Ordering) (streak : ℕ)
      → Good 0 l r fl fr (merge_loop compare fuel 0 l r prev streak)
  unfolding merge_loop
  Good-none fuel l r fl fr prev streak = record {
    merged = record { rows = []; left = l; right = r; prev = prev; streak = streak };
    is_result = refl;
    emits = done (l ++ fl) (r ++ fr);
    within = omega arith;
    progress = omega arith;
  }

  emit_tie-Good :
      (k : ℕ) (x : R) (l : List R) (y : R) (r fl fr : List R)
      → is_le (compare x y) ≡ true
      → is_le (compare y x) ≡ true
      → SortedRows compare (x ∷ l ++ fl)
      → SortedRows compare (y ∷ r ++ fr)
      → (rest : ℕ → List R → List R → Option (Merged R))
      → ((l' r' : List R) → Good 0 l' r' fl fr (rest 0 l' r'))
      → ((k' : ℕ) → k ≡ suc k' → 0 < length l → 0 < length r → Good k' l r fl fr (rest k' l r))
      → Good (suc k) (x ∷ l) (y ∷ r) fl fr (emit_tie compare k x l y r rest)
  emit_tie-Good zero x l y r fl fr le ge sl sr rest last further =
      let rows = y ∷ r ++ fr in
      go_on-Good 1 0 (x ∷ []) (x ∷ l) (y ∷ r) l (y ∷ r) fl fr Ordering.eq 0 (rest 0 l (y ∷ r))
        (from_left x (l ++ fl) rows [] (l ++ fl) rows (IsBelow-all x y (r ++ fr) le sr)
          (done (l ++ fl) rows))
        (omega arith) (omega arith) (λ p q. last l (y ∷ r))
  emit_tie-Good (suc k) x l y r fl fr le ge sl sr rest last further =
      let rows = y ∷ r ++ fr in
      let behind = (IsBelow-all y x (l ++ fl) ge sl).1 in
      go_on-Good (suc (suc k)) k (x ∷ y ∷ []) (x ∷ l) (y ∷ r) l r fl fr Ordering.eq 0 (rest k l r)
        (from_left x (l ++ fl) rows (y ∷ []) (l ++ fl) (r ++ fr) (IsBelow-all x y (r ++ fr) le sr) (
          from_right y (l ++ fl) (r ++ fr) [] (l ++ fl) (r ++ fr) behind
            (done (l ++ fl) (r ++ fr))))
        (omega arith) (omega arith) (further k refl)

  pub merge_loop-Good :
      (fuel k : ℕ) (l r fl fr : List R) (prev : Ordering) (streak : ℕ)
      → k ≤ fuel
      → 0 < length l
      → 0 < length r
      → SortedRows compare (l ++ fl)
      → SortedRows compare (r ++ fr)
      → Good k l r fl fr (merge_loop compare fuel k l r prev streak)
  unfolding merge_loop
  merge_loop-Good fuel zero l r fl fr prev streak h hl hr sl sr = record {
    merged = record { rows = []; left = l; right = r; prev = prev; streak = streak };
    is_result = refl;
    emits = done (l ++ fl) (r ++ fr);
    within = omega arith;
    progress = omega arith;
  }
  merge_loop-Good zero (suc k) l r fl fr prev streak h hl hr sl sr = absurd (omega arith)
  merge_loop-Good (suc fuel) (suc k) [] r fl fr prev streak h hl hr sl sr = absurd (omega arith)
  merge_loop-Good (suc fuel) (suc k) (x ∷ l) [] fl fr prev streak h hl hr sl sr =
      absurd (omega arith)
  merge_loop-Good (suc fuel) (suc k) (x ∷ l) (y ∷ r) fl fr prev streak h hl hr sl sr =
      elim (Ordering-cases (compare x y)) [
        | inl e ↦
            let streak' = next_streak Ordering.lt prev streak in
            let front = SortedRows-front compare (x ∷ l) fl sl in
            let (n, result, run) = picked (is_streak streak') k x l y (rw e refl) front in
            let (less, room) = step_room n k fuel (x ∷ l) run.some_row run.room h in
            let l' = drop n (x ∷ l) in
            rw (e, merge_loop, result)
              (go_on-Good (suc k) (suc k - n) (take n (x ∷ l)) (x ∷ l) (y ∷ r) l' (y ∷ r) fl fr
                Ordering.lt streak'
                (merge_loop compare fuel (suc k - n) l' (y ∷ r) Ordering.lt streak')
                (Emits-run_left (suc k) n (x ∷ l) fl y (r ++ fr) run sr) room (taken run)
                (λ p q.
                  merge_loop-Good fuel (suc k - n) l' (y ∷ r) fl fr Ordering.lt streak' less p q
                    (rest_sorted n (x ∷ l) fl run.there sl) sr))
        | inr (inl e) ↦
            let (le, ge) = eq_le x y e in
            rw (e, merge_loop)
              (emit_tie-Good k x l y r fl fr le ge sl sr
                (λ k' l' r'. merge_loop compare fuel k' l' r' Ordering.eq 0)
                (λ l' r'. Good-none fuel l' r' fl fr Ordering.eq 0)
                (λ k' q p p'.
                  merge_loop-Good fuel k' l r fl fr Ordering.eq 0 (omega (arith, h, q)) p p' (sl.1)
                    (sr.1)))
        | inr (inr e) ↦
            let streak' = next_streak Ordering.gt prev streak in
            let front = SortedRows-front compare (y ∷ r) fr sr in
            let (n, result, run) = picked (is_streak streak') k y r x (gt_le x y e) front in
            let (less, room) = step_room n k fuel (y ∷ r) run.some_row run.room h in
            let r' = drop n (y ∷ r) in
            rw (e, merge_loop, result)
              (go_on-Good (suc k) (suc k - n) (take n (y ∷ r)) (x ∷ l) (y ∷ r) (x ∷ l) r' fl fr
                Ordering.gt streak'
                (merge_loop compare fuel (suc k - n) (x ∷ l) r' Ordering.gt streak')
                (Emits-run_right (suc k) n (y ∷ r) fr x (l ++ fl) run sl) room (taken run)
                (λ p q.
                  merge_loop-Good fuel (suc k - n) (x ∷ l) r' fl fr Ordering.gt streak' less p q sl
                    (rest_sorted n (y ∷ r) fr run.there sr)))
      ]
