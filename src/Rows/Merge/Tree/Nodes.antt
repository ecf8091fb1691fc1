-- ===== src/Rows/Merge/Tree/Nodes.antt =====
-- The positions of a binary heap that lie below a position.
use parquet_go.Prelude.{
  ℕ, zero, suc, ◌+◌, ◌*◌, ◌≤◌, ◌<◌, ◌≡◌, ◌≢◌, refl, sym, ◌⊎◌, inl, inr, arith, ◌==◌, Bool-cases,
  ltb,
}
use mathlib.Core.Path.{subst}
use parquet_go.Rows.Merge.Tree.{parent}

-- A position is below itself and below what its parent is below.
pub data Under (top : ℕ) : ℕ → Type 0 where
  here : Under top top
  below : (q : ℕ) → top < q → Under top (parent q) → Under top q

pub Under-le : (n q : ℕ) → Under n q → n ≤ q
Under-le n _ here = omega arith
Under-le n q (below _ h u) = omega arith

-- Below a child is below its parent.
pub Under-child : (n c q : ℕ) → 0 < c → parent c ≡ n → Under c q → Under n q
Under-child n c _ h e here = below c (ground arith) (subst (Under n) (sym e) here)
Under-child n c q h e (below _ l u) = below q (ground arith) (Under-child n c (parent q) h e u)

-- Below a position and not at it is below one of its children.
pub Under-children : (n q : ℕ) → Under n q → (n ≡ q) ⊎ Under (2 * n + 1) q ⊎ Under (2 * n + 2) q
Under-children n _ here = inl refl
Under-children n q (below _ l u) = elim (Under-children n (parent q) u) [
  | inl e ↦ elim (Bool-cases (q == 2 * n + 1)) [
    | inl p ↦ inr (inl (subst (Under (2 * n + 1)) (ground arith) here))
    | inr p ↦ inr (inr (subst (Under (2 * n + 2)) (ground arith) here))
  ]
  | inr (inl v) ↦ inr (inl (below q (omega (arith, Under-le (2 * n + 1) (parent q) v)) v))
  | inr (inr v) ↦ inr (inr (below q (omega (arith, Under-le (2 * n + 2) (parent q) v)) v))
]

Under-parent : (n q : ℕ) → Under n q → (n ≡ q) ⊎ ((n < q) × Under n (parent q))
Under-parent n _ here = inl refl
Under-parent n q (below _ l u) = inr (l, u)

-- No position is below two children of a position.
siblings-apart :
    (n a b q : ℕ) → parent a ≡ n → parent b ≡ n → n < a → n < b → a ≢ b → Under a q → Under b q → ⊥
siblings-apart n a b _ ea eb la lb ne here v = elim (Under-parent b a v) [
  | inl e ↦ ne (sym e)
  | inr (l, w) ↦ omega (arith, Under-le b (parent a) w, ea)
]
siblings-apart n a b q ea eb la lb ne (below _ l u) v = elim (Under-parent b q v) [
  | inl e ↦
      let w : a ≤ parent b = subst (λ q. a ≤ parent q) (sym e) (Under-le a (parent q) u) in
      omega (arith, w, eb)
  | inr (l', w) ↦ siblings-apart n a b (parent q) ea eb la lb ne u w
]

pub Under-apart : (n q : ℕ) → Under (2 * n + 1) q → Under (2 * n + 2) q → ⊥
Under-apart n q =
    siblings-apart n (2 * n + 1) (2 * n + 2) q (ground arith) (ground arith) (omega arith)
      (omega arith) (λ e. omega (arith, e))

-- Whether a position is below another.
Under-cases_fuel : (fuel n q : ℕ) → q ≤ fuel → Under n q ⊎ (Under n q → ⊥)
Under-cases_fuel fuel n zero h = elim (Bool-cases (n == 0)) [
  | inl e ↦ inl (subst (λ n. Under n 0) (ground arith) here)
  | inr e ↦ inr (λ u. ground (arith, Under-le n 0 u))
]
Under-cases_fuel zero n (suc q) h = absurd (omega arith)
Under-cases_fuel (suc fuel) n (suc q) h = elim (Bool-cases (n == suc q)) [
  | inl e ↦ inl (subst (Under n) (ground arith) here)
  | inr e ↦ elim (Bool-cases (ltb n (suc q))) [
    | inr l ↦ inr (λ u. ground (arith, Under-le n (suc q) u))
    | inl l ↦ elim (Under-cases_fuel fuel n (parent (suc q)) (ground arith)) [
      | inl u ↦ inl (below (suc q) (ground arith) u)
      | inr off ↦
          inr (λ u. elim (Under-parent n (suc q) u) [ inl p ↦ ground arith | inr (_, w) ↦ off w ])
    ]
  ]
]

pub Under-cases : (n q : ℕ) → Under n q ⊎ (Under n q → ⊥)
Under-cases n q = Under-cases_fuel q n q (omega arith)

Under-root_fuel : (fuel q : ℕ) → q ≤ fuel → Under 0 q
Under-root_fuel fuel zero h = here
Under-root_fuel zero (suc q) h = absurd (omega arith)
Under-root_fuel (suc fuel) (suc q) h =
    below (suc q) (omega arith) (Under-root_fuel fuel (parent (suc q)) (ground arith))

pub Under-root : (q : ℕ) → Under 0 q
Under-root q = Under-root_fuel q q (omega arith)
