-- ===== src/Prelude/Bits/Xor.antt =====
-- The exclusive or of numbers, as arithmetic.
use Prim.Native.Nat.{ℕ, zero, suc, ◌+◌, ◌*◌, ◌/◌, ◌%◌, ◌^◌, ◌<◌, differ, bit_xor, bit_xor-bitwise}
use mathlib.Core.Path.{◌≡◌, refl, sym, ap, ◌∙◌}
use native.Mathlib.Omega.{arith}
use parquet_go.Prelude.Bits.{digits_enough, two_pow_suc}

pub bit_xor-halves : (a b : ℕ) → bit_xor a b ≡ bit_xor (a / 2) (b / 2) * 2 + differ (a % 2) (b % 2)
bit_xor-halves zero b =
    let low : differ (0 % 2) (b % 2) ≡ b % 2 = refl in
    rw low (omega (arith, bit_xor-bitwise 0 b, bit_xor-bitwise (0 / 2) (b / 2)))
bit_xor-halves (suc a) b = omega (
  arith,
  bit_xor-bitwise (suc a) b,
  bit_xor-bitwise (suc a / 2) (b / 2),
  digits_enough (λ c. c) differ a (suc a / 2) (suc a / 2) (b / 2) (omega arith) (omega arith),
)

differ_self : (a : ℕ) → differ a a ≡ 0
differ_self zero = refl
differ_self (suc a) = differ_self a

differ_equal : (a b : ℕ) → differ a b ≡ 0 → a ≡ b
differ_equal zero b h = sym h
differ_equal (suc a) zero h = absurd (omega arith)
differ_equal (suc a) (suc b) h = ap suc (differ_equal a b h)

differ_small : (a b : ℕ) → a < 2 → b < 2 → differ a b < 2
differ_small zero b h h' = h'
differ_small (suc a) zero h h' = h
differ_small (suc a) (suc b) h h' = differ_small a b (omega arith) (omega arith)

pub bit_xor_small : (k x y : ℕ) → x < 2 ^ k → y < 2 ^ k → bit_xor x y < 2 ^ k
bit_xor_small zero zero zero h h' = omega (arith, bit_xor-bitwise 0 0)
bit_xor_small zero (suc x) y h h' = absurd (omega arith)
bit_xor_small zero zero (suc y) h h' = absurd (omega arith)
bit_xor_small (suc k) x y h h' = omega (
  arith,
  two_pow_suc k,
  bit_xor-halves x y,
  bit_xor_small k (x / 2) (y / 2) (omega (arith, two_pow_suc k)) (omega (arith, two_pow_suc k)),
  differ_small (x % 2) (y % 2) (omega arith) (omega arith),
)

pub bit_xor_self : (k x : ℕ) → x < 2 ^ k → bit_xor x x ≡ 0
bit_xor_self zero zero h = bit_xor-bitwise 0 0
bit_xor_self zero (suc x) h = absurd (omega arith)
bit_xor_self (suc k) x h = omega (
  arith,
  bit_xor-halves x x,
  bit_xor_self k (x / 2) (omega (arith, two_pow_suc k)),
  differ_self (x % 2),
)

pub bit_xor_equal : (k x y : ℕ) → x < 2 ^ k → y < 2 ^ k → bit_xor x y ≡ 0 → x ≡ y
bit_xor_equal zero x y h h' e = omega arith
bit_xor_equal (suc k) x y h h' e = omega (
  arith,
  bit_xor_equal k (x / 2) (y / 2) (omega (arith, two_pow_suc k)) (omega (arith, two_pow_suc k))
      (omega (arith, bit_xor-halves x y)),
  differ_equal (x % 2) (y % 2) (omega (arith, bit_xor-halves x y)),
)

-- The lowest k digits, and the others, each go their own way.
pub bit_xor_join :
    (k x y u v : ℕ)
    → x < 2 ^ k
    → y < 2 ^ k
    → bit_xor (x + 2 ^ k * u) (y + 2 ^ k * v) ≡ bit_xor x y + 2 ^ k * bit_xor u v
bit_xor_join zero x y u v h h' =
    let none : x ≡ 0 = omega arith in
    let none' : y ≡ 0 = omega arith in
    let left : 0 + 2 ^ 0 * u ≡ u = omega arith in
    let right : 0 + 2 ^ 0 * v ≡ v = omega arith in
    rw (none, none', left, right) (omega (arith, bit_xor-bitwise 0 0))
bit_xor_join (suc k) x y u v h h' =
    let twice = two_pow_suc k in
    let a = x + 2 ^ suc k * u in
    let b = y + 2 ^ suc k * v in
    let a_high : a / 2 ≡ x / 2 + 2 ^ k * u = omega (arith, ap (λ (t : ℕ). t * u) twice) in
    let b_high : b / 2 ≡ y / 2 + 2 ^ k * v = omega (arith, ap (λ (t : ℕ). t * v) twice) in
    let a_low : a % 2 ≡ x % 2 = omega (arith, ap (λ (t : ℕ). t * u) twice) in
    let b_low : b % 2 ≡ y % 2 = omega (arith, ap (λ (t : ℕ). t * v) twice) in
    let ih = bit_xor_join k (x / 2) (y / 2) u v (omega (arith, twice)) (omega (arith, twice)) in
    bit_xor-halves a b
    ∙ rw (a_high, b_high, a_low, b_low, ih)
        (omega (arith, bit_xor-halves x y, ap (λ (t : ℕ). t * bit_xor u v) twice))
