-- ===== src/Prelude/Bits.antt =====
-- The native operations on binary digits, as arithmetic, and powers of 2.
pub mod Xor
pub mod Digits
use Prim.Native.Nat.{
  ℕ, zero, suc, ◌+◌, ◌-◌, ◌*◌, ◌/◌, ◌%◌, ◌^◌, ◌≤◌, ◌<◌, min, max, digits, bit_and, bit_or,
  bit_and-bitwise, bit_or-bitwise,
}
use mathlib.Core.Path.{◌≡◌, refl, sym, ap, ◌∙◌}
use native.Mathlib.Omega.{arith}
use native.Mathlib.Nat.{
  add-mul-div_left, add-mul-mod_self_left, div-eq_of_lt, mod-eq_of_lt, div-add-mod, mod-lt,
  mul-le-mul_left,
}

pub two_pow_suc : (k : ℕ) → 2 ^ suc k ≡ 2 * 2 ^ k
two_pow_suc k = omega arith

pub two_pow_pos : (k : ℕ) → 0 < 2 ^ k
two_pow_pos zero = omega arith
two_pow_pos (suc k) = omega (arith, two_pow_pos k)

pub two_pow_add : (a b : ℕ) → 2 ^ (a + b) ≡ 2 ^ a * 2 ^ b
two_pow_add zero b = let e : 0 + b ≡ b = omega arith in rw e (omega arith)
two_pow_add (suc a) b =
    let e : suc a + b ≡ suc (a + b) = omega arith in
    rw e (omega (arith, two_pow_add a b, ap (λ (t : ℕ). t * 2 ^ b) (two_pow_suc a)))

pub two_pow_le : (a b : ℕ) → a ≤ b → 2 ^ a ≤ 2 ^ b
two_pow_le a b h =
    let e : a + (b - a) ≡ b = omega arith in
    omega (
      arith,
      sym (two_pow_add a (b - a)) ∙ ap (λ t. 2 ^ t) e,
      mul-le-mul_left (2 ^ a) (two_pow_pos (b - a)),
    )

module _ (z : ℕ → ℕ) (f : ℕ → ℕ → ℕ) where
  -- The count of digits to go does not matter if there is one for each digit.
  pub digits_enough : (n m a b : ℕ) → a ≤ n → a ≤ m → digits z f n a b ≡ digits z f m a b
  digits_enough zero zero a b p q = refl
  digits_enough zero (suc m) zero b p q = refl
  digits_enough zero (suc m) (suc a) b p q = absurd (omega arith)
  digits_enough (suc n) zero zero b p q = refl
  digits_enough (suc n) zero (suc a) b p q = absurd (omega arith)
  digits_enough (suc n) (suc m) zero b p q = refl
  digits_enough (suc n) (suc m) (suc a) b p q =
      ap (λ (t : ℕ). t * 2 + f (suc a % 2) (b % 2))
        (digits_enough n m (suc a / 2) (b / 2) (omega arith) (omega arith))

-- The lowest digit of the result comes from the lowest digits.
pub bit_or-halves : (a b : ℕ) → bit_or a b ≡ bit_or (a / 2) (b / 2) * 2 + max (a % 2) (b % 2)
bit_or-halves zero b = omega (arith, bit_or-bitwise 0 b, bit_or-bitwise (0 / 2) (b / 2))
bit_or-halves (suc a) b = omega (
  arith,
  bit_or-bitwise (suc a) b,
  bit_or-bitwise (suc a / 2) (b / 2),
  digits_enough (λ c. c) max a (suc a / 2) (suc a / 2) (b / 2) (omega arith) (omega arith),
)

pub bit_and-halves : (a b : ℕ) → bit_and a b ≡ bit_and (a / 2) (b / 2) * 2 + min (a % 2) (b % 2)
bit_and-halves zero b = omega (arith, bit_and-bitwise 0 b, bit_and-bitwise (0 / 2) (b / 2))
bit_and-halves (suc a) b = omega (
  arith,
  bit_and-bitwise (suc a) b,
  bit_and-bitwise (suc a / 2) (b / 2),
  digits_enough (λ c. 0) min a (suc a / 2) (suc a / 2) (b / 2) (omega arith) (omega arith),
)

twice_shifted : (k u : ℕ) → u * 2 ^ suc k ≡ 2 * (u * 2 ^ k)
twice_shifted k u = omega (arith, ap (λ (t : ℕ). u * t) (two_pow_suc k))

-- `x | u << k` of an `x` of k bits is a sum.
pub bit_or_above : (k x u : ℕ) → x < 2 ^ k → bit_or x (u * 2 ^ k) ≡ x + u * 2 ^ k
bit_or_above zero zero u h = omega (arith, bit_or-bitwise 0 (u * 2 ^ 0))
bit_or_above zero (suc x) u h = absurd (omega arith)
bit_or_above (suc k) x u h = ground (
  arith,
  bit_or-halves x (u * 2 ^ suc k),
  twice_shifted k u,
  bit_or_above k (x / 2) u (omega arith),
)

none_left : (n a : ℕ) → digits (λ c. 0) min n a 0 ≡ 0
none_left zero a = refl
none_left (suc n) zero = refl
none_left (suc n) (suc a) = omega (arith, none_left n (suc a / 2))

-- A quotient and a remainder are known from the sum that they make.
pub div_mod_of : (r m q : ℕ) → r < m → (n : ℕ) → n ≡ r + m * q → (n / m ≡ q) × (n % m ≡ r)
div_mod_of r m q h n e =
    let pos : 0 < m = omega arith in
    rw e (
      add-mul-div_left r q pos ∙ omega (arith, div-eq_of_lt h),
      add-mul-mod_self_left r m q ∙ mod-eq_of_lt h,
    )

low_step : (k x : ℕ) → x % 2 ^ suc k ≡ x / 2 % 2 ^ k * 2 + x % 2
low_step k x =
    let m = 2 ^ k in
    let half = div-add-mod (x / 2) m in
    let pos = two_pow_pos k in
    (div_mod_of (x % 2 + 2 * (x / 2 % m)) (2 ^ suc k) (x / 2 / m)
      (omega (arith, two_pow_suc k, mod-lt (x / 2) pos)) x
      (omega (arith, half, ap (λ (t : ℕ). t * (x / 2 / m)) (two_pow_suc k)))).1
    ∙ omega arith

-- `x & (1 << k - 1)` are the lowest k bits.
pub bit_and_low : (k x : ℕ) → bit_and x (2 ^ k - 1) ≡ x % 2 ^ k
bit_and_low zero x = omega (arith, bit_and-bitwise x 0, none_left x x)
bit_and_low (suc k) x = ground (
  arith,
  bit_and-halves x (2 ^ suc k - 1),
  two_pow_suc k,
  two_pow_pos k,
  low_step k x,
  bit_and_low k (x / 2),
)
