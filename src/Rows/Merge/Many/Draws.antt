-- ===== src/Rows/Merge/Many/Draws.antt =====
-- Steps that take rows from the fronts of many lists, each of them above no row of the other lists.
use mathlib.Core.List.{Perm, perm_middle}
use mathlib.Core.List.Perm
use mathlib.Core.Path.{subst}
use parquet_go.Prelude.{
  ℕ, zero, suc, ◌+◌, ◌<◌, ◌≡◌, ◌≢◌, refl, sym, ap₂, ◌∙◌, inl, inr, true, Bool-cases, List, [], ◌∷◌,
  ◌++◌, length, Ordering, is_le, All, length-append, ◌==◌, arith,
}
use parquet_go.Rows.Merge.Run.{SortedRows}
use parquet_go.Rows.Merge.Emits.{IsBelow}

-- The first lists, one behind the other.
abbrev pub gather {ℓ} : {R : Type ℓ} → ℕ → (ℕ → List R) → List R
gather zero lists = []
gather (suc n) lists = gather n lists ++ lists n

module _ {ℓ} {R : Type ℓ} (compare : R → R → Ordering) (size : ℕ) where
  -- The lists before the steps, the rows taken, and the lists after them.
  pub data Draws : (ℕ → List R) → List R → (ℕ → List R) → Type ℓ where
    done : (f g : ℕ → List R) → ((i : ℕ) → i < size → f i ≡ g i) → Draws f [] g
    draw :
        (f f' g : ℕ → List R) (i : ℕ) (x : R) (rows : List R)
        → i < size
        → f i ≡ x ∷ f' i
        → ((j : ℕ) → j < size → j ≢ i → f' j ≡ f j)
        → ((j : ℕ) → j < size → j ≢ i → IsBelow compare x (f j))
        → Draws f' rows g
        → Draws f (x ∷ rows) g

  pub Draws-same :
      (f f' g : ℕ → List R) (rows : List R)
      → ((i : ℕ) → i < size → f i ≡ f' i)
      → Draws f' rows g
      → Draws f rows g
  Draws-same f _ g _ s (done f' _ e) = done f g (λ i h. s i h ∙ e i h)
  Draws-same f _ g _ s (draw f' f'' _ i x rows l e o b d) =
      draw f f'' g i x rows l (s i l ∙ e) (λ j h n. o j h n ∙ sym (s j h))
        (λ j h n. subst (IsBelow compare x) (sym (s j h)) (b j h n)) d

  pub Draws-append :
      (f g h : ℕ → List R) (a b : List R) → Draws f a g → Draws g b h → Draws f (a ++ b) h
  Draws-append f g h _ b (done _ _ e) d = Draws-same f g h b e d
  Draws-append f g h _ b (draw _ f' _ i x rows l e o below d) d' =
      draw f f' h i x (rows ++ b) l e o below (Draws-append f' g h rows b d d')

  abbrev pub AllSorted : (ℕ → List R) → Type 0
  AllSorted f = (i : ℕ) → i < size → SortedRows compare (f i)

  -- One step: the row before all that is left, and the lists still sorted.
  tail_sorted :
      (f f' : ℕ → List R) (i : ℕ) (x : R)
      → i < size
      → f i ≡ x ∷ f' i
      → ((j : ℕ) → j < size → j ≢ i → f' j ≡ f j)
      → AllSorted f
      → AllSorted f'
  tail_sorted f f' i x l e o s j h = elim (Bool-cases (j == i)) [
    | inl p ↦
        let (_, rest) = subst (SortedRows compare) e (s i l) in
        subst (λ k. SortedRows compare (f' k)) (ground arith) rest
    | inr p ↦ subst (SortedRows compare) (sym (o j h (λ q. ground arith))) (s j h)
  ]

  Draws-All :
      (P : R → Type 0) (f g : ℕ → List R) (rows : List R)
      → Draws f rows g
      → ((i : ℕ) → i < size → All P (f i))
      → All P rows
  Draws-All P f g _ (done _ _ e) h = tt
  Draws-All P f g _ (draw _ f' _ i x rows l e o b d) h =
      let (p, ps) = subst (All P) e (h i l) in
      (
        p,
        Draws-All P f' g rows d (λ j k. elim (Bool-cases (j == i)) [
          | inl q ↦ subst (λ j. All P (f' j)) (ground arith) ps
          | inr q ↦ subst (All P) (sym (o j k (λ r. ground arith))) (h j k)
        ]),
      )

  pub Draws-SortedRows :
      (f g : ℕ → List R) (rows : List R)
      → Draws f rows g
      → AllSorted f
      → SortedRows compare rows × AllSorted g
  Draws-SortedRows f g _ (done _ _ e) s = (tt, λ i h. subst (SortedRows compare) (e i h) (s i h))
  Draws-SortedRows f g _ (draw _ f' _ i x rows l e o b d) s =
      let (first, _) = subst (SortedRows compare) e (s i l) in
      let (sorted, rest) = Draws-SortedRows f' g rows d (tail_sorted f f' i x l e o s) in
      (
        (
          Draws-All (λ r. is_le (compare x r) ≡ true) f' g rows d
              (λ j k. elim (Bool-cases (j == i)) [
                | inl q ↦
                    subst (λ j. All (λ r. is_le (compare x r) ≡ true) (f' j)) (ground arith) first
                | inr q ↦
                    subst (All (λ r. is_le (compare x r) ≡ true)) (sym (o j k (λ r. ground arith)))
                      (b j k (λ r. ground arith))
              ]),
          sorted,
        ),
        rest,
      )

  gather-same :
      (n : ℕ) (f f' : ℕ → List R) → ((j : ℕ) → j < n → f' j ≡ f j) → gather n f' ≡ gather n f
  gather-same zero f f' h = refl
  gather-same (suc n) f f' h =
      ap₂ (λ a b. a ++ b) (gather-same n f f' (λ j l. h j (omega arith))) (h n (omega arith))

  -- One step takes one row of all of them.
  gather-Perm :
      (n : ℕ) (f f' : ℕ → List R) (i : ℕ) (x : R)
      → i < n
      → f i ≡ x ∷ f' i
      → ((j : ℕ) → j < n → j ≢ i → f' j ≡ f j)
      → Perm (x ∷ gather n f') (gather n f)
  gather-Perm zero f f' i x h e o = absurd (omega arith)
  gather-Perm (suc n) f f' i x h e o = elim (Bool-cases (i == n)) [
    | inl p ↦
        let same : i ≡ n = ground arith in
        let others = gather-same n f f' (λ j l. o j (omega arith) (λ q. omega (arith, q, same))) in
        let last : f n ≡ x ∷ f' n = subst (λ i. f i ≡ x ∷ f' i) same e in
        rw (others, last) (Perm.symm (perm_middle (gather n f) (f' n)))
    | inr p ↦
        let last : f' n ≡ f n = o n (omega arith) (λ q. ground arith) in
        rw last (
          Perm.append_right (f n)
            (gather-Perm n f f' i x (ground arith) e (λ j l k. o j (omega arith) k)))
  ]

  pub Draws-Perm :
      (f g : ℕ → List R) (rows : List R)
      → Draws f rows g
      → Perm (rows ++ gather size g) (gather size f)
  Draws-Perm f g _ (done _ _ e) = rw (gather-same size g f e) (Perm.refl _)
  Draws-Perm f g _ (draw _ f' _ i x rows l e o b d) =
      Perm.trans (Perm.cons x (Draws-Perm f' g rows d)) (gather-Perm size f f' i x l e o)

  gather-length :
      (n : ℕ) (f f' : ℕ → List R) (i : ℕ) (x : R)
      → i < n
      → f i ≡ x ∷ f' i
      → ((j : ℕ) → j < n → j ≢ i → f' j ≡ f j)
      → length (gather n f) ≡ suc (length (gather n f'))
  gather-length zero f f' i x h e o = absurd (omega arith)
  gather-length (suc n) f f' i x h e o = elim (Bool-cases (i == n)) [
    | inl p ↦
        let same : i ≡ n = ground arith in
        let others = gather-same n f f' (λ j l. o j (omega arith) (λ q. omega (arith, q, same))) in
        let last : f n ≡ x ∷ f' n = subst (λ i. f i ≡ x ∷ f' i) same e in
        rw (others, last)
          (omega (arith, length-append (gather n f) (x ∷ f' n), length-append (gather n f) (f' n)))
    | inr p ↦
        let last : f' n ≡ f n = o n (omega arith) (λ q. ground arith) in
        rw last (
          omega (
            arith,
            length-append (gather n f) (f n),
            length-append (gather n f') (f n),
            gather-length n f f' i x (ground arith) e (λ j l k. o j (omega arith) k),
          ))
  ]

  pub Draws-length :
      (f g : ℕ → List R) (rows : List R)
      → Draws f rows g
      → length (gather size f) ≡ length rows + length (gather size g)
  Draws-length f g _ (done _ _ e) = rw (gather-same size g f e) (omega arith)
  Draws-length f g _ (draw _ f' _ i x rows l e o b d) =
      omega (arith, Draws-length f' g rows d, gather-length size f f' i x l e o)
