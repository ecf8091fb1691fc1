-- ===== src/Encoding/Delta/Decode/MiniBlocks.antt =====
-- The mini-blocks of a block are read back.
use mathlib.Core.Path.{subst}
use native.Mathlib.Nat.{mul-le-mul_right}
use parquet_go.Prelude.{
  All-take, All-drop, take-take, take_add, ℕ, zero, suc, ◌+◌, ◌-◌, ◌*◌, ◌/◌, ◌^◌, ◌<◌, ◌≤◌, ◌≡◌,
  refl, ap, sym, ◌∙◌, List, [], ◌∷◌, ◌++◌, All, arith, length, take, drop, replicate, map, min,
  Bool-cases, inl, inr, ◌==◌, ltb, if◌then◌else◌, take-nil, drop-drop, length-zero, append_assoc,
  length-take, length-drop, take-append_length, drop-append_length,
}
use parquet_go.Encoding.Bitpack.{Bitpack, UnpacksFields, parted}
use parquet_go.Encoding.Bitpack.Fields.{parted-joined}
use parquet_go.Encoding.Delta.Integers.{bit_length}
use parquet_go.Encoding.Delta.Encode.{mini_block, mini_blocks, put_mini_blocks, bit_width_loop}
use parquet_go.Encoding.Delta.Encode.MiniBlock.{mini_block-Packed}
use parquet_go.Encoding.Delta.Encode.Blocks.{IsWidth, int32_width, int64_width, bit_width-Fits}
use parquet_go.Encoding.Delta.Decode.{mini_values, mini_rest, mini_loop, mini_block_data}

zeros_of : (n : ℕ) (vs : List ℕ) → All (λ v. v < 1) vs → n ≤ length vs → take n vs ≡ replicate n 0
zeros_of zero vs h l = refl
zeros_of (suc n) [] h l = absurd (omega arith)
zeros_of (suc n) (v ∷ vs) (h, hs) l =
    let e : v ≡ 0 = omega arith in rw (e, zeros_of n vs hs (omega arith))

bit_length-le : (n v : ℕ) → bit_length n v ≤ n
unfolding bit_length
bit_length-le zero v = omega arith
bit_length-le (suc n) v = ground (arith, bit_length-le n (v / 2))

bit_width_loop-le : (w width : ℕ) (vs : List ℕ) → width ≤ w → bit_width_loop w width vs ≤ w
unfolding bit_width_loop
bit_width_loop-le w width [] h = h
bit_width_loop-le w width (v ∷ vs) h =
    let n = bit_length w v in
    bit_width_loop-le w (if ltb width n then n else width) vs (ground (arith, bit_length-le w v))

bit_length-zero : (n : ℕ) → bit_length n 0 ≡ 0
unfolding bit_length
bit_length-zero zero = refl
bit_length-zero (suc n) = refl

bit_width_loop-zeros : (w : ℕ) (vs : List ℕ) → All (λ v. v < 1) vs → bit_width_loop w 0 vs ≡ 0
unfolding bit_width_loop
bit_width_loop-zeros w [] h = refl
bit_width_loop-zeros w (v ∷ vs) (h, hs) =
    let e : v ≡ 0 = omega arith in rw (e, bit_length-zero w) (bit_width_loop-zeros w vs hs)

-- The widths of the mini-blocks.
abbrev pub widths_of : ℕ → List (List ℕ) → List ℕ
widths_of w minis = map (bit_width_loop w 0) minis

-- Mini-blocks of nothing but 0 take no bytes.
put_mini_blocks-zeros :
    (w k : ℕ) (block : List ℕ)
    → All (λ v. v < 1) block
    → put_mini_blocks w (mini_blocks k block) (widths_of w (mini_blocks k block)) ≡ []
unfolding put_mini_blocks mini_blocks
put_mini_blocks-zeros w zero block h = refl
put_mini_blocks-zeros w (suc k) block h =
    rw (bit_width_loop-zeros w (take 32 block) (All-take _ 32 block h))
      (put_mini_blocks-zeros w k (drop 32 block) (All-drop _ 32 block h))

IsWidth-le : (w : ℕ) → IsWidth w → w ≤ 64
IsWidth-le _ int32_width = omega arith
IsWidth-le _ int64_width = omega arith

module _ (b : Bitpack) (laws : UnpacksFields b) (w : ℕ) (i : IsWidth w) where
  -- What the encoder writes of a mini-block.
  abbrev put_one : ℕ → List ℕ → List ℕ
  put_one width values = if width == 0 then [] else mini_block w values width

  mini_read :
      (width n : ℕ) (values rest : List ℕ)
      → width ≤ w
      → All (λ v. v < 2 ^ width) values
      → length values ≡ 32
      → n ≤ 32
      → (mini_values b 32 width n (put_one width values ++ rest) ≡ take n values)
        × (mini_rest 32 width (put_one width values ++ rest) ≡ rest)
  unfolding mini_values mini_block_data
  mini_read width n values rest fits small len l = elim (Bool-cases (width == 0)) [
    | inl p ↦
        let none : width ≡ 0 = ground arith in
        let zeros =
          zeros_of n values (subst (λ k. All (λ v. v < 2 ^ k) values) none small) (omega arith) in
        rw (p, put_one) (sym zeros, refl)
    | inr p ↦
        let packed = mini_block-Packed w width values i fits (ground arith) small len in
        let bytes = mini_block w values width in
        let size : 32 * width / 8 ≡ length bytes = omega (arith, packed.size) in
        let room : n * width ≤ 8 * length bytes =
          omega (arith, packed.size, mul-le-mul_right width l) in
        let read =
          laws.unpack_lem width n bytes (omega (arith, IsWidth-le w i)) packed.all_bytes room in
        let values_lem =
          ap (parted width n) packed.value ∙ parted-joined width n values small (omega arith) in
        rw (p, put_one)
          (
            rw (size, take-append_length bytes rest) (read ∙ values_lem),
            rw size (drop-append_length bytes rest),
          )
  ]

  put_mini_blocks-cons :
      (width : ℕ) (values : List ℕ) (minis : List (List ℕ)) (widths rest : List ℕ)
      → put_mini_blocks w (values ∷ minis) (width ∷ widths) ++ rest
        ≡ put_one width values ++ (put_mini_blocks w minis widths ++ rest)
  unfolding put_mini_blocks
  put_mini_blocks-cons width values minis widths rest = elim (Bool-cases (width == 0)) [
    | inl p ↦ rw (p, put_one) refl
    | inr p ↦
        rw (p, put_one)
          (append_assoc (mini_block w values width) (put_mini_blocks w minis widths) rest)
  ]

  -- A block of `k` mini-blocks, 0 from place `total` on: the decoder finds the first `total` deltas,
  -- and leaves the input behind the block.
  pub mini_loop-put_mini_blocks :
      (k : ℕ) (block : List ℕ) (total : ℕ) (rest : List ℕ)
      → length block ≡ 32 * k
      → All (λ v. v < 2 ^ w) block
      → All (λ v. v < 1) (drop total block)
      → mini_loop b 32
          (widths_of w (mini_blocks k block))
          total
          (put_mini_blocks w (mini_blocks k block) (widths_of w (mini_blocks k block)) ++ rest)
        ≡ (take total block, total - 32 * k, rest)
  unfolding mini_loop mini_blocks
  mini_loop-put_mini_blocks zero block total rest len small clear =
      let e = length-zero block (omega arith) in
      let left : total - 32 * 0 ≡ total = omega arith in
      rw (left, e, take-nil total) (unfold put_mini_blocks in refl)
  mini_loop-put_mini_blocks (suc k) block total rest len small clear =
      let values = take 32 block in
      let block' = drop 32 block in
      let width = bit_width_loop w 0 values in
      let n = min 32 total in
      let minis = mini_blocks k block' in
      let rest' = put_mini_blocks w minis (widths_of w minis) ++ rest in
      let (read, behind) =
        mini_read width n values rest' (bit_width_loop-le w 0 values (omega arith))
          (bit_width-Fits w values (All-take _ 32 block small))
          (omega (arith, length-take 32 block)) (omega arith) in
      let small' = All-drop _ 32 block small in
      let len' : length block' ≡ 32 * k = omega (arith, length-drop 32 block) in
      let found = take-take n 32 block (omega arith) in
      let ih = mini_loop-put_mini_blocks k block' (total - n) rest len' small' in
      rw (put_mini_blocks-cons width values minis (widths_of w minis) rest, behind, read, found)
        (elim (Bool-cases (total - n == 0)) [
          | inl p ↦
              let all : n ≡ total = ground arith in
              let past : total + (32 - total) ≡ 32 = ground arith in
              let none_left : total - 32 * suc k ≡ 0 = ground arith in
              let behind_all = drop-drop total (32 - total) block ∙ ap (λ t. drop t block) past in
              let zeros =
                subst (All (λ v. v < 1)) behind_all
                  (All-drop _ (32 - total) (drop total block) clear) in
              rw (p, none_left, put_mini_blocks-zeros w k block' zeros) (rw all refl)
          | inr p ↦
              let whole : n ≡ 32 = ground arith in
              let on : 32 + (total - n) ≡ total = ground arith in
              let left : total - n - 32 * k ≡ total - 32 * suc k = omega arith in
              let behind_all = drop-drop 32 (total - n) block ∙ ap (λ t. drop t block) on in
              let rec_ = ih (subst (All (λ v. v < 1)) (sym behind_all) clear) in
              let values_all : take n block ++ take (total - n) block' ≡ take total block =
                ap (λ t. take t block ++ take (total - n) block') whole
                ∙ take_add 32 (total - n) block
                ∙ ap (λ t. take t block) on in
              rw (p, rec_, left, values_all) refl
        ])
