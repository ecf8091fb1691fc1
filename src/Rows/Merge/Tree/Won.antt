-- ===== src/Rows/Merge/Tree/Won.antt =====
-- The invariant of the tree of losers: the winner and the loser of every game.
use mathlib.Core.Path.{subst}
use parquet_go.Prelude.{
  ℕ, ◌+◌, ◌-◌, ◌*◌, ◌≤◌, ◌<◌, ◌≡◌, refl, sym, ◌∙◌, inl, inr, true, Bool-cases, Option, none, some,
  Ordering, is_le, ltb, lt→ltb, IsOrder, le_refl, arith,
}
use parquet_go.Rows.Merge.Tree.{leaf_at}
use parquet_go.Rows.Merge.Tree.Nodes.{Under, here, Under-le, Under-child, Under-children}

-- The heads of the buffers, the players at the leaves, and the losers.
pub record Games {ℓ} (R : Type ℓ) : Type ℓ where
  pub head : ℕ → R
  pub leaves : ℕ → Option ℕ
  pub losers : ℕ → Option ℕ

module _ {ℓ} {R : Type ℓ} (compare : R → R → Ordering) (size : ℕ) where
  -- A player whose head lies above that of no other; a reader at its end loses.
  abbrev pub NotAbove : (ℕ → R) → Option ℕ → Option ℕ → Type 0
  NotAbove head none none = Unit {0}
  NotAbove head none (some b) = ⊥
  NotAbove head (some a) none = Unit {0}
  NotAbove head (some a) (some b) = is_le (compare (head a) (head b)) ≡ true

  -- Each reader stands at its own leaf.
  abbrev pub IsPlayers : (ℕ → Option ℕ) → Type 0
  IsPlayers leaves = (i j : ℕ) → leaves i ≡ some j → j ≡ i

  -- The winner of the games below a position.
  pub data Won (g : Games R) : ℕ → Option ℕ → Type ℓ where
    leaf :
        (i : ℕ) (w : Option ℕ) → size ≤ i → w ≡ leaf_at compare size g.head g.leaves i → Won g i w
    from_left :
        (i : ℕ) (w : Option ℕ)
        → i < size
        → Won g (2 * i + 1) w
        → Won g (2 * i + 2) (g.losers i)
        → NotAbove g.head w (g.losers i)
        → Won g i w
    from_right :
        (i : ℕ) (w : Option ℕ)
        → i < size
        → Won g (2 * i + 2) w
        → Won g (2 * i + 1) (g.losers i)
        → NotAbove g.head w (g.losers i)
        → Won g i w

  -- The games beside the path from a position to the root.
  pub data Beside (g : Games R) : ℕ → Type ℓ where
    top : Beside g 0
    right_of :
        (n i : ℕ)
        → n ≡ 2 * i + 1
        → i < size
        → Beside g i
        → Won g (2 * i + 2) (g.losers i)
        → Beside g n
    left_of :
        (n i : ℕ)
        → n ≡ 2 * i + 2
        → i < size
        → Beside g i
        → Won g (2 * i + 1) (g.losers i)
        → Beside g n

  module _ (g : Games R) (players : IsPlayers g.leaves) where
    leaf_player :
        (i j : ℕ)
        → size ≤ i
        → some j ≡ leaf_at compare size g.head g.leaves i
        → (i ≡ size + j) × (j < size) × (g.leaves j ≡ some j)
    leaf_player i j h e = elim (Bool-cases (ltb (i - size) size)) [
      | inl p ↦
          let e' = rw p at e in
          let found : g.leaves (i - size) ≡ some j = sym e' in
          let same = players (i - size) j found in
          (
            omega (arith, same),
            ground (arith, same),
            subst (λ k. g.leaves k ≡ some j) (sym same) found,
          )
      | inr p ↦ let off = rw p at e in absurd (cc)
    ]

    -- A winner is a player below the position.
    pub Won-Under :
        (i j : ℕ) (w : Option ℕ)
        → Won g i w
        → w ≡ some j
        → Under i (size + j) × (j < size) × (g.leaves j ≡ some j)
    Won-Under i j w (leaf _ _ h e) q =
        let (place, inside, player) = leaf_player i j h (sym q ∙ e) in
        (subst (Under i) place here, inside, player)
    Won-Under i j w (from_left _ _ h d _ _) q =
        let (u, inside, player) = Won-Under (2 * i + 1) j w d q in
        (Under-child i (2 * i + 1) (size + j) (omega arith) (ground arith) u, inside, player)
    Won-Under i j w (from_right _ _ h d _ _) q =
        let (u, inside, player) = Won-Under (2 * i + 2) j w d q in
        (Under-child i (2 * i + 2) (size + j) (omega arith) (ground arith) u, inside, player)

    -- The games beside the path from the winner's leaf.
    pub Won-Beside :
        (i j : ℕ) (w : Option ℕ) → Won g i w → w ≡ some j → Beside g i → Beside g (size + j)
    Won-Beside i j w (leaf _ _ h e) q b =
        let (place, _, _) = leaf_player i j h (sym q ∙ e) in subst (Beside g) place b
    Won-Beside i j w (from_left _ _ h d l _) q b =
        Won-Beside (2 * i + 1) j w d q (right_of (2 * i + 1) i refl h b l)
    Won-Beside i j w (from_right _ _ h d l _) q b =
        Won-Beside (2 * i + 2) j w d q (left_of (2 * i + 2) i refl h b l)

    module _ (o : IsOrder compare) where
      NotAbove-trans :
          (a b : Option ℕ) (j : ℕ)
          → NotAbove g.head a b
          → NotAbove g.head b (some j)
          → NotAbove g.head a (some j)
      NotAbove-trans (some a) (some b) j p q = o.le_trans (g.head a) (g.head b) (g.head j) p q
      NotAbove-trans none (some b) j p q = absurd p
      NotAbove-trans a none j p q = absurd q

      pub at_leaf : (i q : ℕ) → size ≤ i → q < 2 * size → Under i q → i ≡ q
      at_leaf i q h l u = elim (Under-children i q u) [
        | inl e ↦ e
        | inr (inl v) ↦ omega (arith, Under-le (2 * i + 1) q v)
        | inr (inr v) ↦ omega (arith, Under-le (2 * i + 2) q v)
      ]

      -- The winner's head lies above that of no player below the position.
      pub Won-least :
          (i j : ℕ) (w : Option ℕ)
          → Won g i w
          → j < size
          → g.leaves j ≡ some j
          → Under i (size + j)
          → NotAbove g.head w (some j)
      Won-least i j w (leaf _ _ h e) l player u =
          let place : i - size ≡ j = omega (arith, at_leaf i (size + j) h (omega arith) u) in
          let found : leaf_at compare size g.head g.leaves i ≡ some j =
            rw (place, lt→ltb j size l, player) refl in
          subst (λ w. NotAbove g.head w (some j)) (sym (e ∙ found)) (le_refl o (g.head j))
      Won-least i j w (from_left _ _ h d d' n) l player u = elim (Under-children i (size + j) u) [
        | inl e ↦ absurd (omega arith)
        | inr (inl v) ↦ Won-least (2 * i + 1) j w d l player v
        | inr (inr v) ↦
            NotAbove-trans w (g.losers i) j n (Won-least (2 * i + 2) j (g.losers i) d' l player v)
      ]
      Won-least i j w (from_right _ _ h d d' n) l player u = elim (Under-children i (size + j) u) [
        | inl e ↦ absurd (omega arith)
        | inr (inr v) ↦ Won-least (2 * i + 2) j w d l player v
        | inr (inl v) ↦
            NotAbove-trans w (g.losers i) j n (Won-least (2 * i + 1) j (g.losers i) d' l player v)
      ]
