-- ===== src/Encoding/Delta/Encode/Blocks.antt =====
-- The deltas of a block, less the least one, give back the values, and fit in the bit widths.
use parquet_go.Prelude.{
  two_pow_le, ℕ, ◌^◌, ◌<◌, ◌≤◌, ◌≡◌, refl, List, [], ◌∷◌, All, arith, if◌then◌else◌, ltb,
}
use parquet_go.Encoding.Delta.Integers.{add, sub, bit_length}
use parquet_go.Encoding.Delta.Integers.Zigzag.{lt-bit_length}
use parquet_go.Encoding.Delta.Encode.{block_delta, block_sub, bit_width_loop}
use parquet_go.Encoding.Delta.Decode.{decode_block}

-- The widths of the integers that are encoded.
pub data IsWidth : ℕ → Type 0 where
  int32_width : IsWidth 32
  int64_width : IsWidth 64

add-add-sub-sub :
    (w : ℕ)
    → IsWidth w
    → (v last m : ℕ) → v < 2 ^ w
    → last < 2 ^ w
    → m < 2 ^ w
    → add w (add w (sub w (sub w v last) m) m) last ≡ v
add-add-sub-sub _ int32_width v last m a b c = omega arith
add-add-sub-sub _ int64_width v last m a b c = omega arith

-- For int32 and int64, whatever number is taken off the deltas of a block, the decoder's sums give
-- back its values and the last of them, though every difference and sum wraps around.
pub decode_block-block_sub :
    (w : ℕ)
    → IsWidth w
    → (block : List ℕ) (last m : ℕ) → All (λ v. v < 2 ^ w) block
    → last < 2 ^ w
    → m < 2 ^ w
    → decode_block w (block_sub w (block_delta w block last).0 m) m last
      ≡ (block, (block_delta w block last).1)
unfolding block_delta block_sub decode_block
decode_block-block_sub w i [] last m h b c = refl
decode_block-block_sub w i (v ∷ vs) last m (a, h) b c =
    rw (add-add-sub-sub w i v last m a b c, decode_block-block_sub w i vs v m h a c)

-- The values are within a width that is at least the one the loop starts from.
bit_width_loop-Fits :
    (w width : ℕ) (values : List ℕ)
    → All (λ v. v < 2 ^ w) values
    → (width ≤ bit_width_loop w width values)
      × All (λ v. v < 2 ^ bit_width_loop w width values) values
unfolding bit_width_loop
bit_width_loop-Fits w width [] h = (omega arith, tt)
bit_width_loop-Fits w width (v ∷ vs) (a, h) =
    let n = bit_length w v in
    let next = if ltb width n then n else width in
    let (grown, fits) = bit_width_loop-Fits w next vs h in
    let below = two_pow_le n (bit_width_loop w next vs) (ground arith) in
    (ground arith, (omega (arith, lt-bit_length w v a), fits))

-- The bit width found for a mini-block of values below 2 ^ w is enough for each of them.
pub bit_width-Fits :
    (w : ℕ) (values : List ℕ)
    → All (λ v. v < 2 ^ w) values
    → All (λ v. v < 2 ^ bit_width_loop w 0 values) values
bit_width-Fits w values h = (bit_width_loop-Fits w 0 values h).1
