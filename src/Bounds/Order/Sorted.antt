-- ===== src/Bounds/Order/Sorted.antt =====
-- The three ways to find the order of the bounds agree, and an ascending boundary order is one of both
-- bounds.
use parquet_go.Prelude.{
  ◌≡◌, refl, sym, Bool, true, false, List, [], ◌∷◌, Ordering, is_le, is_eq, if◌then◌else◌, length,
  ltb, IsOrder, arith, Bool-cases, inl, inr, All, All-imp,
}
use parquet_go.Bounds.Order.{
  Direction, is_ascending, is_descending, order_of, skip_streak_loop, skip_streak, order_of_tail,
  order_of_values, BoundaryOrder, boundary_order_of,
}

module _ {ℓ} {A : Type ℓ} {cmp : A → A → Ordering} (o : IsOrder cmp) where
  -- Every value stands before all later ones.
  abbrev pub Rises : List A → Type 0
  Rises [] = Unit
  Rises (a ∷ rest) = All (λ b. is_le (cmp a b) ≡ true) rest × Rises rest

  abbrev pub Falls : List A → Type 0
  Falls [] = Unit
  Falls (a ∷ rest) = All (λ b. is_le (cmp b a) ≡ true) rest × Falls rest

  is_descending-Falls : (list : List A) → is_descending cmp list ≡ true → Falls list
  unfolding is_descending
  is_descending-Falls [] h = tt
  is_descending-Falls (a ∷ []) h = (tt, tt)
  is_descending-Falls (a ∷ (b ∷ rest)) h =
      let (later, tail) = is_descending-Falls (b ∷ rest) (ground arith) in
      let first : is_le (cmp b a) ≡ true = ground (arith, o.flip a b) in
      ((first, All-imp (λ c h. o.le_trans c b a h first) rest later), (later, tail))

  is_ascending-Rises : (list : List A) → is_ascending cmp list ≡ true → Rises list
  unfolding is_ascending
  is_ascending-Rises [] h = tt
  is_ascending-Rises (a ∷ []) h = (tt, tt)
  is_ascending-Rises (a ∷ (b ∷ rest)) h =
      let (later, tail) = is_ascending-Rises (b ∷ rest) (ground arith) in
      let first : is_le (cmp a b) ≡ true = ground arith in
      ((first, All-imp (λ c. o.le_trans a b c first) rest later), (later, tail))

  eq_le :
      (first last a : A)
      → cmp first last ≡ Ordering.eq
      → is_eq (cmp a first) ≡ true
      → cmp last a ≡ Ordering.eq
  eq_le first last a e h = ground (
    arith,
    o.flip first last,
    o.flip a first,
    o.flip last a,
    o.le_trans last first a,
    o.le_trans a first last,
  )

  -- Through a streak of equal values the list keeps its order.
  skip_streak_loop-order :
      (first last : A) (rest : List A)
      → cmp first last ≡ Ordering.eq
      → (is_ascending cmp (skip_streak_loop cmp first last rest) ≡ is_ascending cmp (last ∷ rest))
        × (is_descending cmp (skip_streak_loop cmp first last rest)
            ≡ is_descending cmp (last ∷ rest))
  unfolding skip_streak_loop is_ascending is_descending
  skip_streak_loop-order first last [] e = (refl, refl)
  skip_streak_loop-order first last (a ∷ rest) e = elim (Bool-cases (is_eq (cmp a first))) [
    | inr p ↦ rw p (refl, refl)
    | inl p ↦
        let (up, down) = skip_streak_loop-order first a rest (ground (arith, o.flip a first)) in
        rw (p, eq_le first last a e p) (up, down)
  ]

  -- What the streak leaves is one value, or begins with two values that differ.
  abbrev Broken : List A → Type 0
  Broken [] = ⊥
  Broken (a ∷ []) = Unit
  Broken (a ∷ (b ∷ rest)) = is_eq (cmp a b) ≡ false

  skip_streak_loop-Broken :
      (first last : A) (rest : List A)
      → cmp first last ≡ Ordering.eq
      → Broken (skip_streak_loop cmp first last rest)
  unfolding skip_streak_loop
  skip_streak_loop-Broken first last [] e = tt
  skip_streak_loop-Broken first last (a ∷ rest) e = elim (Bool-cases (is_eq (cmp a first))) [
    | inl p ↦ rw p (skip_streak_loop-Broken first a rest (ground (arith, o.flip a first)))
    | inr p ↦ rw p (differ first last a e p)
  ]
    where
      differ :
          (first last a : A)
          → cmp first last ≡ Ordering.eq
          → is_eq (cmp a first) ≡ false
          → is_eq (cmp last a) ≡ false
      differ first last a e h = ground (
        arith,
        o.flip first last,
        o.flip a first,
        o.flip last a,
        o.le_trans first last a,
        o.le_trans a last first,
      )

  abbrev decide : Bool → Bool → Direction
  decide asc desc = if asc then Direction.up else if desc then Direction.down else Direction.none

  order_of_tail-decide :
      (list : List A)
      → Broken list
      → order_of_tail cmp list ≡ decide (is_ascending cmp list) (is_descending cmp list)
  unfolding order_of_tail is_ascending is_descending
  order_of_tail-decide [] h = absurd h
  order_of_tail-decide (a ∷ []) h = refl
  order_of_tail-decide (a ∷ (b ∷ rest)) h = ground arith

  order_of_long :
      (a b : A) (rest : List A)
      → order_of cmp (a ∷ (b ∷ rest))
        ≡ decide (is_ascending cmp (a ∷ (b ∷ rest))) (is_descending cmp (a ∷ (b ∷ rest)))
  unfolding order_of
  order_of_long a b rest =
      let long : ltb 1 (length (a ∷ (b ∷ rest))) ≡ true = ground arith in rw (long, order_of)

  -- The search for the order of byte slices, which skips a streak first, and the plain one agree.
  pub order_of_values-eq-order_of : (list : List A) → order_of_values cmp list ≡ order_of cmp list
  unfolding order_of_values order_of skip_streak
  order_of_values-eq-order_of [] = refl
  order_of_values-eq-order_of (a ∷ []) = refl
  order_of_values-eq-order_of (a ∷ (b ∷ rest)) =
      let e : cmp a a ≡ Ordering.eq = ground (arith, o.flip a a) in
      let (up, down) = skip_streak_loop-order a a (b ∷ rest) e in
      rw (order_of_tail-decide _ (skip_streak_loop-Broken a a (b ∷ rest) e), up, down)
        (sym (order_of_long a b rest))

  -- What a boundary order says of the minima and maxima of the pages.
  abbrev pub Describes : BoundaryOrder → List A → List A → Type 0
  Describes BoundaryOrder.unordered mins maxs = Unit
  Describes BoundaryOrder.ascending mins maxs = Rises mins × Rises maxs
  Describes BoundaryOrder.descending mins maxs = Falls mins × Falls maxs

  order_of-up : (list : List A) → order_of cmp list ≡ Direction.up → Rises list
  unfolding order_of
  order_of-up list h = is_ascending-Rises list (ground arith)

  order_of-down : (list : List A) → order_of cmp list ≡ Direction.down → Falls list
  unfolding order_of
  order_of-down list h = is_descending-Falls list (ground arith)

  -- The boundary order recorded for a column chunk is one that both the minima and the maxima of its
  -- pages have, whichever of the two searches has found it.
  pub boundary_order_of-Describes :
      (mins maxs : List A)
      → Describes (boundary_order_of (order_of cmp mins) (order_of cmp maxs)) mins maxs
        × Describes
            (boundary_order_of (order_of_values cmp mins) (order_of_values cmp maxs))
            mins
            maxs
  unfolding boundary_order_of
  boundary_order_of-Describes mins maxs =
      let plain = describes (order_of cmp mins) (order_of cmp maxs) refl refl in
      (plain, rw (order_of_values-eq-order_of mins, order_of_values-eq-order_of maxs) plain)
    where
      describes :
          (d e : Direction)
          → order_of cmp mins ≡ d
          → order_of cmp maxs ≡ e
          → Describes (boundary_order_of d e) mins maxs
      describes Direction.up Direction.up p q = (order_of-up mins p, order_of-up maxs q)
      describes Direction.down Direction.down p q = (order_of-down mins p, order_of-down maxs q)
      describes _ _ p q = tt
