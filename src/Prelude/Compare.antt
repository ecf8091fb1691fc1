-- ===== src/Prelude/Compare.antt =====
-- Go comparison functions `func(a, b T) int`. The code reads such a result only through its sign,
-- so it is an `Ordering`: `lt` for a negative result, `eq` for 0 and `gt` for a positive one.
use Prim.Native.Nat.{Ordering, compare}
use mathlib.Core.Path.{◌≡◌}
use mathlib.Core.Bool.{Bool, true, false}
use native.Mathlib.Omega.{arith}

-- `c < 0`, `c > 0`, `c <= 0` and `c == 0`.
abbrev pub is_lt : Ordering → Bool
is_lt Ordering.lt = true
is_lt _ = false

abbrev pub is_gt : Ordering → Bool
is_gt Ordering.gt = true
is_gt _ = false

abbrev pub is_le : Ordering → Bool
is_le Ordering.gt = false
is_le _ = true

abbrev pub is_eq : Ordering → Bool
is_eq Ordering.eq = true
is_eq _ = false

abbrev pub opposite : Ordering → Ordering
opposite Ordering.lt = Ordering.gt
opposite Ordering.eq = Ordering.eq
opposite Ordering.gt = Ordering.lt

-- What the callers rely on: the function orders its values.
pub record IsOrder {ℓ} {A : Type ℓ} (cmp : A → A → Ordering) : Type ℓ where
  pub flip : (a b : A) → cmp b a ≡ opposite (cmp a b)
  pub le_trans :
      (a b c : A) → is_le (cmp a b) ≡ true → is_le (cmp b c) ≡ true → is_le (cmp a c) ≡ true

module _ {ℓ} {A : Type ℓ} {cmp : A → A → Ordering} (o : IsOrder cmp) where
  pub lt_of_lt_le :
      (a b c : A) → is_lt (cmp a b) ≡ true → is_le (cmp b c) ≡ true → is_lt (cmp a c) ≡ true
  lt_of_lt_le a b c p q = ground (arith, o.flip a b, o.flip a c, o.le_trans b c a)

  pub gt_of_gt_le :
      (a b c : A) → is_gt (cmp a b) ≡ true → is_le (cmp c b) ≡ true → is_gt (cmp a c) ≡ true
  gt_of_gt_le a b c p q = ground (arith, o.flip a b, o.flip a c, o.le_trans a c b)

  pub le_refl : (a : A) → is_le (cmp a a) ≡ true
  le_refl a = ground (arith, o.flip a a)

-- The order of the numbers, for concrete inputs.
pub compare-IsOrder : IsOrder compare
compare-IsOrder = record { flip = λ a b. ground arith; le_trans = λ a b c p q. ground arith }
