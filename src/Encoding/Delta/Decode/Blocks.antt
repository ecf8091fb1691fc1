-- ===== src/Encoding/Delta/Decode/Blocks.antt =====
-- A block that was encoded, as the decoder takes it.
use mathlib.Core.Path.{subst}
use parquet_go.Prelude.{
  All-take, All-drop, take-long, ℕ, ◌+◌, ◌-◌, ◌*◌, ◌%◌, ◌^◌, ◌<◌, ◌≤◌, ◌≡◌, ◌⊎◌, refl, ap, ap₂, sym,
  ◌∙◌, List, [], ◌∷◌, ◌++◌, All, arith, length, take, drop, replicate, Bool-cases, inl, inr, ltb,
  append-nil, drop-drop, length-append, length-take, length-replicate, ltb→lt,
}
use parquet_go.Encoding.Result.{IsU64}
use parquet_go.Encoding.Bitpack.{Bitpack, UnpacksFields}
use parquet_go.Encoding.Delta.Integers.{extend}
use parquet_go.Encoding.Delta.Encode.{
  block_delta, block_min, block_sub, block_clear, block_bit_widths, block_header, put_mini_blocks,
  mini_blocks, encode_block, put_varint,
}
use parquet_go.Encoding.Delta.Encode.Blocks.{IsWidth, decode_block-block_sub}
use parquet_go.Encoding.Delta.Encode.Deltas.{
  length-block_delta, length-block_sub, length-block_clear, block_delta-Small, block_sub-Small,
  block_min-Small, take-block_clear, block_clear-all, block_clear-Small, drop-block_clear,
  block_sub-front, extend-cut,
}
use parquet_go.Encoding.Delta.Decode.{mini_loop, decode_block}
use parquet_go.Encoding.Delta.Decode.MiniBlocks.{mini_loop-put_mini_blocks}

-- What a block of the encoder begins with and how the decoder takes it, `total` values to come.
pub record BlockRead (b : Bitpack) (w total : ℕ) (src : List ℕ) (last : ℕ) : Type 0 where
  pub min_delta : ℕ
  pub widths : List ℕ
  pub body : List ℕ
  pub bytes : (encode_block w src last).0 ≡ block_header min_delta widths ++ body
  pub least : IsU64 min_delta
  pub four : length widths ≡ 4
  pub deltas : List ℕ
  pub found :
      (rest : List ℕ) → mini_loop b 32 widths total (body ++ rest) ≡ (deltas, total - 128, rest)
  pub values :
      decode_block w deltas (min_delta % 2 ^ w) last
      ≡ (take 128 src, (block_delta w (take 128 src) last).1)

pub length-block_header : (m : ℕ) (widths : List ℕ) → length widths ≤ length (block_header m widths)
unfolding block_header
length-block_header m widths = omega (arith, length-append (put_varint m) widths)

pub last-Small :
    (w : ℕ) (vs : List ℕ) (last : ℕ)
    → All (λ v. v < 2 ^ w) vs
    → last < 2 ^ w
    → (block_delta w vs last).1 < 2 ^ w
unfolding block_delta
last-Small w [] last h below = below
last-Small w (v ∷ vs) last (h, hs) below = last-Small w vs v hs h

-- A full block is not filled up.
pub encode_block-last :
    (w : ℕ) (src : List ℕ) (last : ℕ)
    → 128 ≤ length src
    → (encode_block w src last).1 ≡ (block_delta w (take 128 src) last).1
unfolding encode_block
encode_block-last w src last h =
    let xs = take 128 src in
    let none : 128 - length xs ≡ 0 = omega (arith, length-take 128 src) in
    ap (λ t. (block_delta w (xs ++ replicate t 0) last).1) none
    ∙ ap (λ l. (block_delta w l last).1) (append-nil xs)

-- The deltas that the decoder takes of a cleared block: of a whole one all, of the last one those of
-- its values.
front_of :
    (w : ℕ) (xs zs : List ℕ) (last m total : ℕ)
    → length (xs ++ zs) ≡ 128
    → (total ≡ length xs) ⊎ (128 ≤ total) × (length xs ≡ 128)
    → take total (block_clear (length xs) (block_sub w (block_delta w (xs ++ zs) last).0 m))
      ≡ block_sub w (block_delta w xs last).0 m
front_of w xs zs last m total len c =
    let l = block_sub w (block_delta w (xs ++ zs) last).0 m in
    let size =
      length-block_sub w (block_delta w (xs ++ zs) last).0 m
      ∙ length-block_delta w (xs ++ zs) last
      ∙ len in
    elim c [
      | inl e ↦
          ap (λ t. take t (block_clear (length xs) l)) e
          ∙ take-block_clear (length xs) l
          ∙ block_sub-front w xs zs last m
      | inr (more, full) ↦
          ap (take total) (block_clear-all (length xs) l (omega (arith, size)))
          ∙ take-long total l (omega (arith, size))
          ∙ sym (take-long (length xs) l (omega (arith, size)))
          ∙ block_sub-front w xs zs last m
    ]

front_inside : (src : List ℕ) → length (take 128 src) ≤ length src
front_inside src = omega (arith, length-take 128 src)

rest_of : (n total : ℕ) → n ≤ total → n + (total - n) ≡ total
rest_of n total h = omega arith

pub full_or_last :
    (src : List ℕ)
    → (length src ≡ length (take 128 src)) ⊎ (128 ≤ length src) × (length (take 128 src) ≡ 128)
full_or_last src = elim (Bool-cases (ltb (length src) 128)) [
  | inl p ↦ inl (omega (arith, ltb→lt (length src) 128 p, length-take 128 src))
  | inr p ↦
      let more : 128 ≤ length src = ground arith in inr (more, omega (arith, length-take 128 src))
]

module _ (b : Bitpack) (laws : UnpacksFields b) (w : ℕ) (i : IsWidth w) where
  pub block_read :
      (src : List ℕ) (last : ℕ)
      → All (λ v. v < 2 ^ w) src
      → last < 2 ^ w
      → BlockRead b w (length src) src last
  unfolding encode_block block_bit_widths
  block_read src last small below =
      let xs = take 128 src in
      let n = length xs in
      let zs = replicate (128 - n) 0 in
      let deltas = (block_delta w (xs ++ zs) last).0 in
      let m = block_min w deltas in
      let taken = block_sub w deltas m in
      let cleared = block_clear n taken in
      let total = length src in
      let least = block_min-Small w deltas (block_delta-Small w (xs ++ zs) last) in
      let cut = extend-cut w m i least in
      let len : length (xs ++ zs) ≡ 128 =
        omega
          (arith, length-append xs zs, length-replicate {A = ℕ} (128 - n) 0, length-take 128 src) in
      let len' : length cleared ≡ 32 * 4 =
        length-block_clear n taken
        ∙ length-block_sub w deltas m
        ∙ length-block_delta w (xs ++ zs) last
        ∙ len in
      let inside = front_inside src in
      let past : n + (total - n) ≡ total = rest_of n total inside in
      let behind = drop-drop n (total - n) cleared ∙ ap (λ t. drop t cleared) past in
      let clear =
        subst (All (λ v. v < 1)) behind
          (All-drop _ (total - n) (drop n cleared) (drop-block_clear n taken)) in
      record {
        min_delta = extend w m;
        widths = block_bit_widths w cleared;
        body = put_mini_blocks w (mini_blocks 4 cleared) (block_bit_widths w cleared);
        bytes = refl;
        least = cut.1;
        four = unfold mini_blocks in refl;
        deltas = take total cleared;
        found = λ rest.
            mini_loop-put_mini_blocks b laws w i 4 cleared total rest len'
              (block_clear-Small w n taken (block_sub-Small w deltas m)) clear;
        values =
            ap₂ (λ ds u. decode_block w ds u last)
              (front_of w xs zs last m total len (full_or_last src)) (cut.0)
            ∙ decode_block-block_sub w i xs last m (All-take _ 128 src small) below least;
      }
