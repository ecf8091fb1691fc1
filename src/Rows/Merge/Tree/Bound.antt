-- ===== src/Rows/Merge/Tree/Bound.antt =====
-- The bound of a run lies above the head of no other reader.
use mathlib.Core.Path.{subst}
use parquet_go.Prelude.{
  ℕ, zero, suc, ◌+◌, ◌<◌, ◌≡◌, refl, sym, inl, inr, true, Bool-cases, Option, none, some, Ordering,
  is_le, is_lt, ◌==◌, IsOrder, arith,
}
use parquet_go.Rows.Merge.Tree.{parent, lower_bound, run_bound}
use parquet_go.Rows.Merge.Tree.Nodes.{Under, Under-children, Under-cases, Under-root}
use parquet_go.Rows.Merge.Tree.Won.{Games, NotAbove, IsPlayers, Beside, Won-least}
use parquet_go.Rows.Merge.Tree.Replay.{Last, Beside-Last, lt_le, le_of_not_lt}

module _ {ℓ} {R : Type ℓ} (compare : R → R → Ordering) (size : ℕ) where
  -- A bound that lies above no row like this one; the absent bound is above all rows.
  abbrev pub IsWithin : Option R → R → Type 0
  IsWithin none r = ⊥
  IsWithin (some b) r = is_le (compare b r) ≡ true

  module _ (o : IsOrder compare) (g : Games R) (players : IsPlayers compare size g.leaves) where
    lower_bound-keeps :
        (p : Option ℕ) (bound : Option R) (r : R)
        → IsWithin bound r
        → IsWithin (lower_bound compare size g.head p bound) r
    lower_bound-keeps none bound r h = h
    lower_bound-keeps (some p) none r h = absurd h
    lower_bound-keeps (some p) (some b) r h = elim (Bool-cases (is_lt (compare (g.head p) b))) [
      | inl e ↦ rw e (o.le_trans (g.head p) b r (lt_le (compare (g.head p) b) e) h)
      | inr e ↦ rw e h
    ]

    lower_bound-covers :
        (p : Option ℕ) (bound : Option R) (j : ℕ)
        → NotAbove compare size g.head p (some j)
        → IsWithin (lower_bound compare size g.head p bound) (g.head j)
    lower_bound-covers none bound j h = absurd h
    lower_bound-covers (some p) none j h = h
    lower_bound-covers (some p) (some b) j h = elim (Bool-cases (is_lt (compare (g.head p) b))) [
      | inl e ↦ rw e h
      | inr e ↦ rw e (o.le_trans b (g.head p) (g.head j) (le_of_not_lt o (g.head p) b e) h)
    ]

    -- A bound found on the way from a position to the root.
    pub record Bounded (n : ℕ) (bound : Option R) (result : Option (Option R)) : Type ℓ where
      pub found : Option R
      pub is_result : result ≡ some found
      pub keeps : (r : R) → IsWithin bound r → IsWithin found r
      pub covers :
          (j : ℕ)
          → j < size
          → g.leaves j ≡ some j
          → (Under n (size + j) → ⊥)
          → IsWithin found (g.head j)

    -- A player that is below the parent of a position but not below the position.
    bound_of_sibling :
        (n : ℕ) (last : Last compare size g n) (bound : Option R) (j : ℕ)
        → j < size
        → g.leaves j ≡ some j
        → (Under n (size + j) → ⊥)
        → Under last.i (size + j)
        → IsWithin (lower_bound compare size g.head (g.losers last.i) bound) (g.head j)
    bound_of_sibling n last bound j h player off u =
        let least : Under last.s (size + j)
            → IsWithin (lower_bound compare size g.head (g.losers last.i) bound) (g.head j) =
          λ v.
            lower_bound-covers (g.losers last.i) bound j (
              Won-least compare size g players o last.s j (g.losers last.i) last.loser h player
                v) in
        elim (Under-children last.i (size + j) u) [
          | inl e ↦ absurd (omega (arith, e, last.inside))
          | inr (inl v) ↦ elim last.pair [
            | inl (e, _) ↦ absurd (off (subst (λ c. Under c (size + j)) (sym e) v))
            | inr (_, e) ↦ least (subst (λ c. Under c (size + j)) (sym e) v)
          ]
          | inr (inr v) ↦ elim last.pair [
            | inl (_, e) ↦ least (subst (λ c. Under c (size + j)) (sym e) v)
            | inr (e, _) ↦ absurd (off (subst (λ c. Under c (size + j)) (sym e) v))
          ]
        ]

    pub run_bound-Bounded :
        (fuel n : ℕ) (bound : Option R)
        → 0 < n
        → parent n < fuel
        → Beside compare size g n
        → Bounded n bound (run_bound compare size g.head fuel (parent n) g.losers bound)
    unfolding run_bound
    run_bound-Bounded zero n bound p q b = absurd (omega arith)
    run_bound-Bounded (suc fuel) n bound p q b =
        let last = Beside-Last compare size g n p b in
        let i = last.i in
        let bound' = lower_bound compare size g.head (g.losers i) bound in
        rw last.is_parent (elim (Bool-cases (i == 0)) [
          | inl e ↦
              rw (e, run_bound)
                (record {
                  found = bound';
                  is_result = refl;
                  keeps = lower_bound-keeps (g.losers i) bound;
                  covers = λ j h player off.
                      bound_of_sibling n last bound j h player off
                        (subst (λ i. Under i (size + j)) (ground arith) (Under-root (size + j)));
                })
          | inr e ↦
              let rest =
                run_bound-Bounded fuel i bound' (ground arith) (ground (arith, last.is_parent))
                  last.above in
              rw (e, run_bound)
                (record {
                  found = rest.found;
                  is_result = rest.is_result;
                  keeps = λ r h. rest.keeps r (lower_bound-keeps (g.losers i) bound r h);
                  covers = λ j h player off. elim (Under-cases i (size + j)) [
                    | inl u ↦ rest.keeps (g.head j) (bound_of_sibling n last bound j h player off u)
                    | inr away ↦ rest.covers j h player away
                  ];
                })
        ])
