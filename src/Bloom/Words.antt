-- ===== src/Bloom/Words.antt =====
-- The words of blocks: the bits of a value are set and stay set.
use Prim.Native.Nat.{bit_and}
use parquet_go.Prelude.{
  ℕ, zero, suc, ◌*◌, ◌^◌, ◌<◌, ◌≡◌, refl, ◌∙◌, true, false, not, List, [], ◌∷◌, ◌==◌, ==_iff,
  Bool-cases, inl, inr, two_pow_pos, arith,
}
use parquet_go.Prelude.Bits.Digits.{digit, digit-bit_or, bit_and_power, digit_power}
use parquet_go.Bloom.{Block, bit_of, insert_words, check_words}

pub false_is_not_true : false ≡ true → ⊥
false_is_not_true e = cc

pub bit_of-lt : (x salt : ℕ) → bit_of x salt < 32
bit_of-lt x salt = omega arith

-- A test for a bit reads its digit.
pub power_test : (k w : ℕ) → not (bit_and w (2 ^ k) == 0) ≡ (digit k w == 1)
power_test k w =
    let small : digit k w < 2 = omega arith in
    rw (bit_and_power k w) (digit_test (digit k w) (2 ^ k) small (two_pow_pos k))
  where
    digit_test : (d p : ℕ) → d < 2 → 0 < p → not (d * p == 0) ≡ (d == 1)
    digit_test zero p h h' = let e : 0 * p ≡ 0 = omega arith in rw e refl
    digit_test (suc zero) p h h' = let e : 1 * p ≡ p = omega arith in rw e (ground arith)
    digit_test (suc (suc d)) p h h' = absurd (omega arith)

-- All words of a block have the bits of a value.
pub HasBits : ℕ → List ℕ → Block → Type 0
HasBits x [] b = Unit
HasBits x (salt ∷ more) [] = ⊥
HasBits x (salt ∷ more) (word ∷ b) = (digit (bit_of x salt) word ≡ 1) × HasBits x more b

pub check_words-HasBits :
    (x : ℕ) (ss : List ℕ) (b : Block) → check_words x ss b ≡ true → HasBits x ss b
unfolding check_words HasBits
check_words-HasBits x [] b h = tt
check_words-HasBits x (salt ∷ more) [] h = absurd (false_is_not_true h)
check_words-HasBits x (salt ∷ more) (word ∷ b) h =
    let h' = rw (power_test (bit_of x salt) word) at h in
    elim (Bool-cases (digit (bit_of x salt) word == 1)) [
      | inl e ↦ ((==_iff _ _).0 e, check_words-HasBits x more b (rw e at h'))
      | inr e ↦ absurd (false_is_not_true (rw e at h'))
    ]

pub HasBits-check_words :
    (x : ℕ) (ss : List ℕ) (b : Block) → HasBits x ss b → check_words x ss b ≡ true
unfolding check_words HasBits
HasBits-check_words x [] b h = refl
HasBits-check_words x (salt ∷ more) [] h = absurd h
HasBits-check_words x (salt ∷ more) (word ∷ b) (e, h) =
    rw (power_test (bit_of x salt) word, (==_iff _ 1).1 e) (HasBits-check_words x more b h)

-- Bits stay set.
pub insert_words-HasBits :
    (x y : ℕ) (ss : List ℕ) (b : Block) → HasBits x ss b → HasBits x ss (insert_words y ss b)
unfolding insert_words HasBits
insert_words-HasBits x y [] b h = tt
insert_words-HasBits x y (salt ∷ more) [] h = absurd h
insert_words-HasBits x y (salt ∷ more) (word ∷ b) (e, h) = (
  digit-bit_or (bit_of x salt) word (2 ^ bit_of y salt) ∙ omega (arith, e),
  insert_words-HasBits x y more b h,
)

-- A block with as many words as there are salts.
unfoldable pub IsLong : List ℕ → Block → Type 0
IsLong [] b = Unit
IsLong (s ∷ ss) [] = ⊥
IsLong (s ∷ ss) (w ∷ b) = IsLong ss b

pub insert_words-Has :
    (x : ℕ) (ss : List ℕ) (b : Block) → IsLong ss b → HasBits x ss (insert_words x ss b)
unfolding insert_words HasBits IsLong
insert_words-Has x [] b h = tt
insert_words-Has x (salt ∷ more) [] h = absurd h
insert_words-Has x (salt ∷ more) (word ∷ b) h =
    let k = bit_of x salt in
    (digit-bit_or k word (2 ^ k) ∙ omega (arith, digit_power k), insert_words-Has x more b h)
