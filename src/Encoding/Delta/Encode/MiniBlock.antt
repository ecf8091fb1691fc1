-- ===== src/Encoding/Delta/Encode/MiniBlock.antt =====
-- The bytes of a mini-block hold its values one behind the other.
use native.Mathlib.Nat.{mod-eq_of_lt}
use parquet_go.Prelude.{
  ℕ, suc, ◌+◌, ◌*◌, ◌/◌, ◌^◌, ◌<◌, ◌≤◌, ◌≡◌, refl, ap, ap₂, sym, ◌∙◌, List, [], ◌∷◌, All, arith,
  length, set, replicate, map, flat, le_bytes, of_le_bytes, length-set, length-append, length-take,
  length-replicate, length-le_bytes,
}
use parquet_go.Encoding.Bitpack.{joined}
use parquet_go.Encoding.Bitpack.Fields.{
  joined-lt, power_of_bytes, of_le_bytes-words, words-IsByte, of_le_bytes-take, take-IsByte,
}
use parquet_go.Encoding.Delta.Encode.{mini_block, mini_block_loop}
use parquet_go.Encoding.Delta.Encode.Packing.{stream, Open, mini_block_loop-stream}
use parquet_go.Encoding.Delta.Encode.Joined.{joined-stream}
use parquet_go.Encoding.Delta.Encode.Blocks.{IsWidth, int32_width, int64_width}

length-mini_block_loop :
    (w width : ℕ) (values : List ℕ) (offset : ℕ) (words : List ℕ)
    → length (mini_block_loop w width values offset words) ≡ length words
unfolding mini_block_loop
length-mini_block_loop w width [] offset words = refl
length-mini_block_loop w width (v ∷ vs) offset words =
    length-mini_block_loop w width vs (offset + width) _
    ∙ length-set (set words (offset / w) _) (offset / w + 1) _
    ∙ length-set words (offset / w) _

length-words : (k : ℕ) (words : List ℕ) → length (flat (map (le_bytes k) words)) ≡ k * length words
length-words k [] = omega arith
length-words k (v ∷ vs) =
    length-append (le_bytes k v) _ ∙ omega (arith, length-le_bytes k v, length-words k vs)

-- What the width of an integer gives.
record WidthFacts (w width : ℕ) : Type 0 where
  word : 256 ^ (w / 8) ≡ 2 ^ w
  some_bits : 0 < w
  room : width * 32 ≤ w * (32 * width / w + 1)
  bytes : 4 * width ≤ w / 8 * (32 * width / w + 2)

width_facts : (w width : ℕ) → IsWidth w → WidthFacts w width
width_facts _ width int32_width = record {
  word = refl;
  some_bits = omega arith;
  room = omega arith;
  bytes = omega arith;
}
width_facts _ width int64_width = record {
  word = refl;
  some_bits = omega arith;
  room = omega arith;
  bytes = omega arith;
}

-- The bytes of a mini-block.
pub record Packed (width : ℕ) (values bytes : List ℕ) : Type 0 where
  pub value : of_le_bytes bytes ≡ joined width values
  pub all_bytes : All (λ c. c < 256) bytes
  pub size : length bytes ≡ 4 * width

pub mini_block-Packed :
    (w width : ℕ) (values : List ℕ)
    → IsWidth w
    → width ≤ w
    → 0 < width
    → All (λ v. v < 2 ^ width) values
    → length values ≡ 32
    → Packed width values (mini_block w values width)
unfolding mini_block
mini_block-Packed w width values i fits pos small n =
    let f = width_facts w width i in
    let m = 32 * width / w + 1 in
    let open_ : Open w width fits 0 0 m values = record {
      within = f.some_bits;
      used = omega arith;
      small = small;
      room = omega (arith, f.room, ap (λ (t : ℕ). width * t) n);
    } in
    let words = mini_block_loop w width values 0 (replicate (32 * width / w + 2) 0) in
    let zeros : 32 * width / w + 2 ≡ suc m = omega arith in
    let from : w * 0 + 0 ≡ 0 = omega arith in
    let written : words ≡ stream w width 0 0 values m =
      ap₂ (λ t r. mini_block_loop w width values t (replicate r 0)) (sym from) zeros
      ∙ mini_block_loop-stream w width fits values [] 0 0 m pos open_ in
    let (value, below) = joined-stream w width fits values 0 0 m pos open_ in
    let all = flat (map (le_bytes (w / 8)) words) in
    let size : 32 * width / 8 ≡ 4 * width = omega arith in
    let bytes = words-IsByte (w / 8) words in
    let count =
      length-mini_block_loop w width values 0 (replicate (32 * width / w + 2) 0)
      ∙ length-replicate (32 * width / w + 2) 0 in
    let long = length-words (w / 8) words ∙ ap (λ t. w / 8 * t) count in
    let number : of_le_bytes all ≡ joined width values =
      rw written (of_le_bytes-words (w / 8) w f.word (stream w width 0 0 values m) below)
      ∙ value
      ∙ omega arith in
    let bits : 8 * (4 * width) ≡ width * length values =
      omega (arith, ap (λ (t : ℕ). width * t) n) in
    let powers = power_of_bytes (4 * width) ∙ ap (λ t. 2 ^ t) bits in
    rw size record {
      value =
          of_le_bytes-take (4 * width) all bytes
          ∙ rw (number, powers) (mod-eq_of_lt (joined-lt width values small));
      all_bytes = take-IsByte (4 * width) all bytes;
      size = length-take (4 * width) all ∙ omega (arith, long, f.bytes);
    }
