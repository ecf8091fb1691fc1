-- ===== src/Rows/Merge/Emits.antt =====
-- The loop of mergedRowReader2 emits the rows of both readers in their order.
use mathlib.Core.Path.{subst}
use parquet_go.Prelude.{
  ℕ, zero, suc, ◌+◌, ◌≤◌, ◌<◌, ◌≡◌, refl, true, false, List, [], ◌∷◌, ◌++◌, length, take, drop,
  some, Ordering, ltb, All, All-take, take-take, length-take, Bool-cases, inl, inr, is_le, is_lt,
  IsOrder, arith,
}
use parquet_go.Rows.Merge.{within_bound}
use parquet_go.Rows.Merge.Run.{SortedRows, run_length-IsRun}
use parquet_go.Rows.Merge.Two.{run_of}

module _ {ℓ} {R : Type ℓ} (compare : R → R → Ordering) where
  -- `x` comes before none of the rows too late.
  abbrev pub IsBelow : R → List R → Type 0
  IsBelow x ys = All (λ y. is_le (compare x y) ≡ true) ys

  -- Steps that take the first row of one of two lists, where it lies above no row of the other: the two lists, the
  -- rows taken, and what is left of the lists.
  pub data Emits : List R → List R → List R → List R → List R → Type ℓ where
    done : (xs ys : List R) → Emits xs ys [] xs ys
    from_left :
        (x : R) (xs ys rows xs' ys' : List R)
        → IsBelow x ys
        → Emits xs ys rows xs' ys'
        → Emits (x ∷ xs) ys (x ∷ rows) xs' ys'
    from_right :
        (y : R) (xs ys rows xs' ys' : List R)
        → IsBelow y xs
        → Emits xs ys rows xs' ys'
        → Emits xs (y ∷ ys) (y ∷ rows) xs' ys'

  pub Emits-append :
      (xs ys a xs1 ys1 b xs2 ys2 : List R)
      → Emits xs ys a xs1 ys1
      → Emits xs1 ys1 b xs2 ys2
      → Emits xs ys (a ++ b) xs2 ys2
  Emits-append _ _ _ _ _ b xs2 ys2 (done xs ys) e = e
  Emits-append _ _ _ _ _ b xs2 ys2 (from_left x xs ys rows xs' ys' h d) e =
      from_left x xs ys (rows ++ b) xs2 ys2 h (Emits-append xs ys rows xs' ys' b xs2 ys2 d e)
  Emits-append _ _ _ _ _ b xs2 ys2 (from_right y xs ys rows xs' ys' h d) e =
      from_right y xs ys (rows ++ b) xs2 ys2 h (Emits-append xs ys rows xs' ys' b xs2 ys2 d e)

  pub Emits-left :
      (n : ℕ) (xs ys : List R)
      → All (λ x. IsBelow x ys) (take n xs)
      → Emits xs ys (take n xs) (drop n xs) ys
  Emits-left zero xs ys h = done xs ys
  Emits-left (suc n) [] ys h = done [] ys
  Emits-left (suc n) (x ∷ xs) ys (h, hs) =
      from_left x xs ys (take n xs) (drop n xs) ys h (Emits-left n xs ys hs)

  pub Emits-right :
      (n : ℕ) (xs ys : List R)
      → All (λ y. IsBelow y xs) (take n ys)
      → Emits xs ys (take n ys) xs (drop n ys)
  Emits-right zero xs ys h = done xs ys
  Emits-right (suc n) xs [] h = done xs []
  Emits-right (suc n) xs (y ∷ ys) (h, hs) =
      from_right y xs ys (take n ys) xs (drop n ys) h (Emits-right n xs ys hs)

  pub SortedRows-drop :
      (n : ℕ) (xs : List R) → SortedRows compare xs → SortedRows compare (drop n xs)
  SortedRows-drop zero xs h = h
  SortedRows-drop (suc n) [] h = tt
  SortedRows-drop (suc n) (x ∷ xs) (h, hs) = SortedRows-drop n xs hs

  pub SortedRows-take :
      (n : ℕ) (xs : List R) → SortedRows compare xs → SortedRows compare (take n xs)
  SortedRows-take zero xs h = tt
  SortedRows-take (suc n) [] h = tt
  SortedRows-take (suc n) (x ∷ xs) (h, hs) = (All-take _ n xs h, SortedRows-take n xs hs)

  pub SortedRows-front : (xs ys : List R) → SortedRows compare (xs ++ ys) → SortedRows compare xs
  SortedRows-front [] ys h = tt
  SortedRows-front (x ∷ xs) ys (h, hs) = (front _ xs h, SortedRows-front xs ys hs)
    where
      front : (P : R → Type 0) (zs : List R) → All P (zs ++ ys) → All P zs
      front P [] h = tt
      front P (z ∷ zs) (h, hs) = (h, front P zs hs)

  -- The rows that a run counts lie below the bound.
  within-All :
      (window : List R) (bound : R) (n : ℕ)
      → n ≤ length window
      → ((i : ℕ) → i < n → within_bound compare false window bound i ≡ true)
      → All (λ x. is_le (compare x bound) ≡ true) (take n window)
  within-All window bound zero l h = tt
  within-All [] bound (suc n) l h = absurd (omega arith)
  within-All (x ∷ window) bound (suc n) l h = (
    lt_le (compare x bound) (h 0 (omega arith)),
    within-All window bound n (omega arith) (λ i p. h (suc i) (omega arith)),
  )
    where
      lt_le : (k : Ordering) → is_lt k ≡ true → is_le k ≡ true
      lt_le Ordering.lt e = refl
      lt_le Ordering.eq e = refl
      lt_le Ordering.gt e = cc

  -- A number of first rows of one reader that may be emitted before the row `bound` of the other.
  pub record IsRunBefore (k n : ℕ) (rows : List R) (bound : R) : Type 0 where
    pub some_row : 0 < n
    pub room : n ≤ k
    pub there : n ≤ length rows
    pub before : All (λ x. is_le (compare x bound) ≡ true) (take n rows)

  module _ (o : IsOrder compare) where
    pub run_of-IsRunBefore :
        (k : ℕ) (x : R) (xs : List R) (bound : R)
        → is_le (compare x bound) ≡ true
        → SortedRows compare (x ∷ xs)
        → (n : ℕ) × (run_of compare (suc k) (x ∷ xs) bound ≡ some n)
          × IsRunBefore (suc k) n (x ∷ xs) bound
    unfolding run_of
    run_of-IsRunBefore k x xs bound h (s, ss) =
        let (n, result, run) =
          run_length-IsRun o false (take k xs) bound (SortedRows-take k xs ss) in
        elim (Bool-cases (ltb 1 (suc (length (take k xs))))) [
          | inl e ↦
              let fits : n ≤ k = omega (arith, run.bounded, length-take k xs) in
              (
                1 + n,
                rw (e, result) refl,
                record {
                  some_row = omega arith;
                  room = omega (arith, fits);
                  there = omega (arith, run.bounded, length-take k xs);
                  before =
                      (subst (λ m. All (λ r. is_le (compare r bound) ≡ true) (take m (x ∷ xs)))
                        (one_more n)
                        (
                          h,
                          subst (All (λ r. is_le (compare r bound) ≡ true)) (take-take n k xs fits)
                              (within-All (take k xs) bound n run.bounded run.passed),
                        ));
                },
              )
          | inr e ↦ (
            1,
            rw e refl,
            record {
              some_row = omega arith;
              room = omega arith;
              there = omega arith;
              before = (h, tt);
            },
          )
        ]
      where
        one_more : (n : ℕ) → suc n ≡ 1 + n
        one_more n = omega arith
