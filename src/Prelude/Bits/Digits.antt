-- ===== src/Prelude/Bits/Digits.antt =====
-- Single binary digits of numbers.
use Prim.Native.Nat.{ℕ, zero, suc, ◌+◌, ◌*◌, ◌/◌, ◌%◌, ◌^◌, max, bit_and, bit_or, bit_and-bitwise}
use mathlib.Core.Path.{◌≡◌, refl, ap, ◌∙◌}
use mathlib.Core.Logic.{◌≢◌}
use native.Mathlib.Omega.{arith}
use native.Mathlib.Nat.{div-add-mod, mod-lt}
use parquet_go.Prelude.Bits.{
  two_pow_suc, two_pow_pos, bit_or-halves, bit_and-halves, none_left, div_mod_of,
}

-- Digit `k` of a number.
abbrev pub digit : ℕ → ℕ → ℕ
digit k x = x / 2 ^ k % 2

digit_suc : (k x : ℕ) → x / 2 ^ suc k ≡ x / 2 / 2 ^ k
digit_suc k x =
    let m = 2 ^ k in
    let half = div-add-mod (x / 2) m in
    (div_mod_of (x % 2 + 2 * (x / 2 % m)) (2 ^ suc k) (x / 2 / m)
      (omega (arith, two_pow_suc k, mod-lt (x / 2) (two_pow_pos k))) x
      (omega (arith, half, ap (λ (t : ℕ). t * (x / 2 / m)) (two_pow_suc k)))).0

pub digit-bit_or : (k a b : ℕ) → digit k (bit_or a b) ≡ max (digit k a) (digit k b)
digit-bit_or zero a b = let e : 2 ^ 0 ≡ 1 = omega arith in rw e (omega (arith, bit_or-halves a b))
digit-bit_or (suc k) a b =
    let half : bit_or a b / 2 ≡ bit_or (a / 2) (b / 2) = omega (arith, bit_or-halves a b) in
    rw (digit_suc k (bit_or a b), digit_suc k a, digit_suc k b, half)
      (digit-bit_or k (a / 2) (b / 2))

-- `a & (1 << k)` is digit `k` of `a`, in its place.
pub bit_and_power : (k a : ℕ) → bit_and a (2 ^ k) ≡ digit k a * 2 ^ k
bit_and_power zero a =
    let e : 2 ^ 0 ≡ 1 = omega arith in
    let half : 1 / 2 ≡ 0 = omega arith in
    rw e (omega (arith, bit_and-halves a 1, bit_and-bitwise (a / 2) 0, none_left (a / 2) (a / 2)))
bit_and_power (suc k) a =
    let e = two_pow_suc k in
    let half : 2 ^ suc k / 2 ≡ 2 ^ k = omega (arith, e) in
    let low : 2 ^ suc k % 2 ≡ 0 = omega (arith, e) in
    let ih = bit_and_power k (a / 2) in
    rw (digit_suc k a) (
      bit_and-halves a (2 ^ suc k)
      ∙ rw (half, low, ih) (omega (arith, ap (λ (t : ℕ). digit k (a / 2) * t) e)))

pub digit_power : (k : ℕ) → digit k (2 ^ k) ≡ 1
digit_power zero = refl
digit_power (suc k) =
    let half : 2 ^ suc k / 2 ≡ 2 ^ k = omega (arith, two_pow_suc k) in
    rw (digit_suc k (2 ^ suc k), half) (digit_power k)

digit_zero : (k : ℕ) → digit k 0 ≡ 0
digit_zero zero = refl
digit_zero (suc k) = rw (digit_suc k 0) (digit_zero k)

digit_one : (k : ℕ) → digit (suc k) 1 ≡ 0
digit_one k = rw (digit_suc k 1) (digit_zero k)

pub digit_power_other : (i k : ℕ) → i ≢ k → digit i (2 ^ k) ≡ 0
digit_power_other zero zero h = absurd (h refl)
digit_power_other zero (suc k) h =
    let e : 2 ^ 0 ≡ 1 = omega arith in
    let whole : 2 ^ suc k / 1 ≡ 2 ^ suc k = omega arith in rw e (omega (arith, two_pow_suc k))
digit_power_other (suc i) zero h = digit_one i
digit_power_other (suc i) (suc k) h =
    let half : 2 ^ suc k / 2 ≡ 2 ^ k = omega (arith, two_pow_suc k) in
    rw (digit_suc i (2 ^ suc k), half) (digit_power_other i k (λ e. h (ap suc e)))
