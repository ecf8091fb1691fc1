-- ===== src/Bloom/Reference.antt =====
-- The unrolled routines do what the loops of block_default.go do.
use Prim.Native.Nat.{bit_or, bit_or-bitwise}
use native.Mathlib.Nat.{mod-eq_of_lt}
use parquet_go.Prelude.{
  ℕ, zero, suc, ◌+◌, ◌/◌, ◌^◌, ◌≤◌, ◌<◌, ◌≡◌, ◌≢◌, refl, ap, ap₂, sym, ◌∙◌, Bool, true, false, ◌&&◌,
  not, List, [], ◌∷◌, map, if◌then◌else◌, ◌==◌, ==_iff, Bool-cases, inl, inr, two_pow_le, arith,
}
use parquet_go.Prelude.Bits.Digits.{digit, digit_power, digit_power_other}
use parquet_go.Bloom.{
  Block, salts, bit_of, insert_words, insert, check_words, check, set_bit, has, insert_bits,
  insert_masked, reference_insert, check_bits, check_masked, reference_check,
}
use parquet_go.Bloom.Words.{false_is_not_true, bit_of-lt, power_test}

-- The reference version tests digits too.
has_lem : (w i : ℕ) → has w i ≡ (digit i w == 1)
unfolding has
has_lem w i =
    let e : digit 0 (w / 2 ^ i) ≡ digit i w = omega arith in
    power_test 0 (w / 2 ^ i) ∙ ap (λ d. d == 1) e

has_power : (k : ℕ) → has (2 ^ k) k ≡ true
has_power k = has_lem (2 ^ k) k ∙ (==_iff _ 1).1 (digit_power k)

has_power_other : (k j : ℕ) → j ≢ k → has (2 ^ k) j ≡ false
has_power_other k j h = has_lem (2 ^ k) j ∙ rw (digit_power_other j k h) refl

set_bit_lem : (w k : ℕ) → k < 32 → set_bit w k ≡ bit_or w (2 ^ k)
unfolding set_bit
set_bit_lem w k h =
    let below : 2 ^ k < 2 ^ 32 = omega (arith, two_pow_le k 31 (omega arith)) in
    rw (mod-eq_of_lt below) refl

-- The only bit of a mask is looked at once.
insert_bits-past : (n j k w : ℕ) → k < j → insert_bits n j (2 ^ k) w ≡ w
unfolding insert_bits
insert_bits-past zero j k w h = refl
insert_bits-past (suc n) j k w h =
    rw (has_power_other k j (λ e. omega (arith, h, e)))
      (insert_bits-past n (j + 1) k w (omega arith))

insert_bits-at : (n j k w : ℕ) → j ≤ k → k < j + n → insert_bits n j (2 ^ k) w ≡ set_bit w k
unfolding insert_bits
insert_bits-at zero j k w l h = absurd (omega arith)
insert_bits-at (suc n) j k w l h = elim (Bool-cases (j == k)) [
  | inl e ↦
      let here = (==_iff j k).0 e in
      rw (here, has_power k) (insert_bits-past n (k + 1) k (set_bit w k) (omega arith))
  | inr e ↦
      rw (has_power_other k j (λ q. false_is_not_true (sym e ∙ (==_iff j k).1 q)))
        (insert_bits-at n (j + 1) k w (ground arith) (omega arith))
]

check_bits-past : (n j k w : ℕ) → k < j → check_bits n j (2 ^ k) w ≡ true
unfolding check_bits
check_bits-past zero j k w h = refl
check_bits-past (suc n) j k w h =
    rw (has_power_other k j (λ e. omega (arith, h, e)))
      (check_bits-past n (j + 1) k w (omega arith))

check_bits-at : (n j k w : ℕ) → j ≤ k → k < j + n → check_bits n j (2 ^ k) w ≡ has w k
unfolding check_bits
check_bits-at zero j k w l h = absurd (omega arith)
check_bits-at (suc n) j k w l h = elim (Bool-cases (j == k)) [
  | inl e ↦
      let here = (==_iff j k).0 e in
      rw (here, has_power k, check_bits-past n (k + 1) k w (omega arith)) (either (has w k))
  | inr e ↦
      rw (has_power_other k j (λ q. false_is_not_true (sym e ∙ (==_iff j k).1 q)))
        (check_bits-at n (j + 1) k w (ground arith) (omega arith))
]
  where
    either : (c : Bool) → (if not c then false else true) ≡ c
    either true = refl
    either false = refl

masked_lem : (x salt : ℕ) → set_bit 0 (bit_of x salt) ≡ 2 ^ bit_of x salt
masked_lem x salt =
    set_bit_lem 0 (bit_of x salt) (bit_of-lt x salt) ∙ bit_or-bitwise 0 (2 ^ bit_of x salt)

insert_masked-map :
    (x : ℕ) (ss : List ℕ) (b : Block)
    → insert_masked (map (λ salt. set_bit 0 (bit_of x salt)) ss) b ≡ insert_words x ss b
unfolding insert_masked insert_words
insert_masked-map x [] b = refl
insert_masked-map x (salt ∷ more) [] = refl
insert_masked-map x (salt ∷ more) (word ∷ b) =
    let k = bit_of x salt in
    let below = bit_of-lt x salt in
    let one =
      ap (λ m. insert_bits 32 0 m word) (masked_lem x salt)
      ∙ insert_bits-at 32 0 k word (omega arith) (omega arith)
      ∙ set_bit_lem word k below in
    ap₂ (λ w l. w ∷ l) one (insert_masked-map x more b)

check_masked-map :
    (x : ℕ) (ss : List ℕ) (b : Block)
    → check_masked (map (λ salt. set_bit 0 (bit_of x salt)) ss) b ≡ check_words x ss b
unfolding check_masked check_words
check_masked-map x [] b = refl
check_masked-map x (salt ∷ more) [] = refl
check_masked-map x (salt ∷ more) (word ∷ b) =
    let k = bit_of x salt in
    let below = bit_of-lt x salt in
    let one =
      ap (λ m. check_bits 32 0 m word) (masked_lem x salt)
      ∙ check_bits-at 32 0 k word (omega arith) (omega arith)
      ∙ has_lem word k
      ∙ sym (power_test k word) in
    ap₂ (λ c d. c && d) one (check_masked-map x more b)

-- The unrolled Insert and Check of blocks do what the loops of the reference version do.
pub insert-eq-reference_insert :
    (b : Block) (x : ℕ) → (reference_insert b x ≡ insert b x) × (reference_check b x ≡ check b x)
unfolding reference_insert insert reference_check check
insert-eq-reference_insert b x = (insert_masked-map x salts b, check_masked-map x salts b)
