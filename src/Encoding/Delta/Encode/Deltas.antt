-- ===== src/Encoding/Delta/Encode/Deltas.antt =====
-- The deltas of a block: how many they are, that they are patterns of `w` bits, and what clearing leaves.
use native.Mathlib.Nat.{mod-lt}
use parquet_go.Prelude.{
  Bool, true, false, ℕ, zero, suc, ◌+◌, ◌-◌, ◌%◌, ◌^◌, ◌<◌, ◌≤◌, ◌≡◌, refl, ap, List, [], ◌∷◌, ◌++◌,
  All, arith, length, take, drop, if◌then◌else◌, two_pow_pos,
}
use parquet_go.Encoding.Result.{IsU64}
use parquet_go.Encoding.Delta.Integers.{sub, signed_lt, extend}
use parquet_go.Encoding.Delta.Encode.{block_delta, block_min, min_loop, block_sub, block_clear}
use parquet_go.Encoding.Delta.Encode.Blocks.{IsWidth, int32_width, int64_width}

pub length-block_delta :
    (w : ℕ) (block : List ℕ) (last : ℕ) → length (block_delta w block last).0 ≡ length block
unfolding block_delta
length-block_delta w [] last = refl
length-block_delta w (v ∷ vs) last = ap suc (length-block_delta w vs v)

pub length-block_sub :
    (w : ℕ) (deltas : List ℕ) (m : ℕ) → length (block_sub w deltas m) ≡ length deltas
unfolding block_sub
length-block_sub w [] m = refl
length-block_sub w (d ∷ ds) m = ap suc (length-block_sub w ds m)

pub length-block_clear : (n : ℕ) (block : List ℕ) → length (block_clear n block) ≡ length block
unfolding block_clear
length-block_clear n [] = refl
length-block_clear zero (v ∷ vs) = ap suc (length-block_clear zero vs)
length-block_clear (suc n) (v ∷ vs) = ap suc (length-block_clear n vs)

-- Every difference is a pattern of `w` bits.
pub block_delta-Small :
    (w : ℕ) (block : List ℕ) (last : ℕ) → All (λ v. v < 2 ^ w) (block_delta w block last).0
unfolding block_delta
block_delta-Small w [] last = tt
block_delta-Small w (v ∷ vs) last =
    (mod-lt (v + 2 ^ w - last) (two_pow_pos w), block_delta-Small w vs v)

pub block_sub-Small :
    (w : ℕ) (deltas : List ℕ) (m : ℕ) → All (λ v. v < 2 ^ w) (block_sub w deltas m)
unfolding block_sub
block_sub-Small w [] m = tt
block_sub-Small w (d ∷ ds) m = (mod-lt (d + 2 ^ w - m) (two_pow_pos w), block_sub-Small w ds m)

min_loop-Small :
    (w m : ℕ) (vs : List ℕ) → m < 2 ^ w → All (λ v. v < 2 ^ w) vs → min_loop w m vs < 2 ^ w
unfolding min_loop
min_loop-Small w m [] h hs = h
min_loop-Small w m (v ∷ vs) h (h', hs) =
    min_loop-Small w (if signed_lt w v m then v else m) vs (either (signed_lt w v m)) hs
  where
    either : (c : Bool) → (if c then v else m) < 2 ^ w
    either true = h'
    either false = h

pub block_min-Small : (w : ℕ) (vs : List ℕ) → All (λ v. v < 2 ^ w) vs → block_min w vs < 2 ^ w
unfolding block_min
block_min-Small w [] hs = two_pow_pos w
block_min-Small w (v ∷ vs) (h, hs) = min_loop-Small w v vs h hs

-- Clearing keeps the front of a block, and leaves 0 behind it.
pub take-block_clear : (n : ℕ) (block : List ℕ) → take n (block_clear n block) ≡ take n block
unfolding block_clear
take-block_clear zero [] = refl
take-block_clear zero (v ∷ vs) = refl
take-block_clear (suc n) [] = refl
take-block_clear (suc n) (v ∷ vs) = ap (λ l. v ∷ l) (take-block_clear n vs)

pub block_clear-all : (n : ℕ) (block : List ℕ) → length block ≤ n → block_clear n block ≡ block
unfolding block_clear
block_clear-all n [] h = refl
block_clear-all zero (v ∷ vs) h = absurd (omega arith)
block_clear-all (suc n) (v ∷ vs) h = ap (λ l. v ∷ l) (block_clear-all n vs (omega arith))

pub block_clear-Small :
    (w n : ℕ) (block : List ℕ)
    → All (λ v. v < 2 ^ w) block
    → All (λ v. v < 2 ^ w) (block_clear n block)
unfolding block_clear
block_clear-Small w n [] h = tt
block_clear-Small w zero (v ∷ vs) (h, hs) = (two_pow_pos w, block_clear-Small w zero vs hs)
block_clear-Small w (suc n) (v ∷ vs) (h, hs) = (h, block_clear-Small w n vs hs)

pub drop-block_clear : (n : ℕ) (block : List ℕ) → All (λ v. v < 1) (drop n (block_clear n block))
unfolding block_clear
drop-block_clear zero [] = tt
drop-block_clear zero (v ∷ vs) = (omega arith, drop-block_clear zero vs)
drop-block_clear (suc n) [] = tt
drop-block_clear (suc n) (v ∷ vs) = drop-block_clear n vs

-- The deltas of the front of a block are the front of its deltas.
pub block_sub-front :
    (w : ℕ) (xs zs : List ℕ) (last m : ℕ)
    → take (length xs) (block_sub w (block_delta w (xs ++ zs) last).0 m)
      ≡ block_sub w (block_delta w xs last).0 m
unfolding block_delta block_sub
block_sub-front w [] zs last m = refl
block_sub-front w (x ∷ xs) zs last m =
    ap (λ l. sub w (sub w x last) m ∷ l) (block_sub-front w xs zs x m)

-- An int32 that was made an int64 is cut back to itself.
pub extend-cut : (w v : ℕ) → IsWidth w → v < 2 ^ w → (extend w v % 2 ^ w ≡ v) × IsU64 (extend w v)
extend-cut _ v int32_width h = ground arith
extend-cut _ v int64_width h = ground arith
