-- ===== src/Encoding/Rle/Bits.antt =====
-- What `decodeBits` makes of the output of `encodeBits`.
use mathlib.Core.Path.{subst}
use parquet_go.Prelude.{
  ℕ, zero, suc, ◌-◌, ◌*◌, ◌/◌, ◌%◌, ◌<◌, ◌≤◌, ◌≡◌, refl, ap, ap₂, Bool, true, false, ◌&&◌, ◌||◌,
  List, [], ◌∷◌, ◌++◌, length, take, drop, replicate, if◌then◌else◌, ltb, ◌==◌, arith,
  length-append, Bool-cases, inl, inr, take-append_length, drop-append_length, take-append-drop,
  length-take, length-drop,
}
use parquet_go.Encoding.Result.{ok}
use parquet_go.Encoding.Varint.{put_uvarint, uvarint}
use parquet_go.Encoding.Bitpack.{Bitpack, IsByteCount}
use parquet_go.Encoding.Rle.{
  max_supported_value_count, all_are, leading, run_header, packed_header, run_length_bytes,
  bit_packed_bits, mixed, bits_block, bits_loop, encode_bits,
}
use parquet_go.Encoding.Rle.Decode.{read_bits, decode_bits}
use parquet_go.Encoding.Rle.Blocks.{
  Encodes, Encodes-nil, Encodes-append, block-Encodes, decode_blocks-Encodes,
}

-- The counted elements all are the element.
pub take-leading :
    (b : ℕ) (rest : List ℕ) → take (leading b rest) rest ≡ replicate (leading b rest) b
take-leading b [] = refl
take-leading b (x ∷ xs) = elim (Bool-cases (x == b)) [
  | inl p ↦ let e : x ≡ b = ground arith in rw p (ap₂ (λ y l. y ∷ l) e (take-leading b xs))
  | inr p ↦ rw p
]

pub leading-le : (b : ℕ) (rest : List ℕ) → leading b rest ≤ length rest
leading-le b [] = omega arith
leading-le b (x ∷ xs) = ground (arith, leading-le b xs)

pub all_are-replicate :
    (b : ℕ) (src : List ℕ) → all_are b src ≡ true → replicate (length src) b ≡ src
all_are-replicate b [] h = refl
all_are-replicate b (x ∷ xs) h =
    let e : b ≡ x = ground arith in ap₂ (λ y l. y ∷ l) e (all_are-replicate b xs (ground arith))

mixed-le : (prev : ℕ) (rest : List ℕ) → mixed prev rest ≤ length rest
unfolding mixed
mixed-le prev [] = omega arith
mixed-le prev (x ∷ xs) = ground (arith, mixed-le x xs)

module _ (b : Bitpack) (laws : IsByteCount b) where
  run-Encodes :
      (count value n : ℕ)
      → 0 < count
      → count ≤ max_supported_value_count
      → count ≡ 8 * n
      → Encodes (read_bits b) (run_length_bytes count value) (replicate n value)
  unfolding run_length_bytes read_bits
  run-Encodes count value n p m e =
      block-Encodes (read_bits b) (run_header count) (value ∷ []) (replicate n value) (omega arith)
        (omega arith) (omega arith)
        (λ rest.
          let odd : (run_header count % 2 == 1) ≡ false = ground arith in
          let half : run_header count / 2 ≡ count = omega arith in
          let bytes : b.byte_count count ≡ n = omega (arith, laws.byte_count_lem count) in
          rw (odd, half, bytes))

  packed-Encodes :
      (words : List ℕ)
      → 0 < length words
      → length words ≤ max_supported_value_count
      → Encodes (read_bits b) (bit_packed_bits words) words
  unfolding bit_packed_bits read_bits
  packed-Encodes words p m =
      block-Encodes (read_bits b) (packed_header (length words)) words words (omega arith)
        (omega arith) (omega arith)
        (λ rest.
          let odd : (packed_header (length words) % 2 == 1) ≡ true = ground arith in
          let half : packed_header (length words) / 2 ≡ length words = omega arith in
          let fits : ltb (length (words ++ rest)) (length words) ≡ false =
            ground (arith, length-append words rest) in
          rw (odd, half, fits, take-append_length, drop-append_length))

  packed_prefix :
      (n : ℕ) (src : List ℕ)
      → 0 < n
      → n ≤ length src
      → length src ≤ max_supported_value_count
      → Encodes (read_bits b) (bit_packed_bits (take n src)) (take n src)
  packed_prefix n src p l m =
      packed-Encodes (take n src) (omega (arith, length-take n src))
        (omega (arith, length-take n src))

  -- The bytes of a bit-packed block.
  abbrev packed_size : ℕ → List ℕ → ℕ
  packed_size x rest =
      let j = suc (mixed x rest) in if ltb 1 j && ltb j (suc (length rest)) then j - 1 else j

  packed_size_bounds :
      (x : ℕ) (rest : List ℕ) → (0 < packed_size x rest) × (packed_size x rest ≤ suc (length rest))
  packed_size_bounds x rest = ground (arith, mixed-le x rest)

  -- One round: the block stands for the bytes that it takes off.
  block_round :
      (x : ℕ) (rest : List ℕ)
      → 8 * suc (length rest) ≤ max_supported_value_count
      → Encodes (read_bits b) (bits_block x rest).0 (take (bits_block x rest).1 (x ∷ rest))
        × (0 < (bits_block x rest).1)
        × ((bits_block x rest).1 ≤ suc (length rest))
  unfolding bits_block
  block_round x rest h = elim (Bool-cases ((x == 0 || x == 0xff) && ltb 1 (suc (leading x rest)))) [
    | inl p ↦
        let e : x ∷ take (leading x rest) rest ≡ replicate (suc (leading x rest)) x =
          ap (λ l. x ∷ l) (take-leading x rest) in
        let short = leading-le x rest in
        rw (p, e)
          (
            run-Encodes (8 * suc (leading x rest)) x (suc (leading x rest)) (omega arith)
                (omega arith) refl,
            omega arith,
            omega arith,
          )
    | inr p ↦
        let (low, high) = packed_size_bounds x rest in
        rw p (packed_prefix (packed_size x rest) (x ∷ rest) low high (omega arith), low, high)
  ]

  abbrev LoopEncodes : ℕ → List ℕ → Type 0
  LoopEncodes fuel src =
      (enc : List ℕ) × (bits_loop fuel src ≡ ok enc) × Encodes (read_bits b) enc src

  round_append :
      (x : ℕ) (rest enc : List ℕ)
      → 8 * suc (length rest) ≤ max_supported_value_count
      → Encodes (read_bits b) enc (drop (bits_block x rest).1 (x ∷ rest))
      → Encodes (read_bits b) ((bits_block x rest).0 ++ enc) (x ∷ rest)
  round_append x rest enc m q =
      let n = (bits_block x rest).1 in
      subst (λ l. Encodes (read_bits b) ((bits_block x rest).0 ++ enc) l)
        (take-append-drop n (x ∷ rest))
        (Encodes-append (read_bits b) (bits_block x rest).0 enc (take n (x ∷ rest))
          (drop n (x ∷ rest)) ((block_round x rest m).0) q)

  round_shorter :
      (x : ℕ) (rest : List ℕ)
      → 8 * suc (length rest) ≤ max_supported_value_count
      → length (drop (bits_block x rest).1 (x ∷ rest)) ≤ length rest
  round_shorter x rest m =
      omega (arith, length-drop (bits_block x rest).1 (x ∷ rest), (block_round x rest m).1)

  loop_step :
      (fuel x : ℕ) (rest enc : List ℕ)
      → bits_loop fuel (drop (bits_block x rest).1 (x ∷ rest)) ≡ ok enc
      → bits_loop (suc fuel) (x ∷ rest) ≡ ok ((bits_block x rest).0 ++ enc)
  unfolding bits_loop
  loop_step fuel x rest enc e = rw (e, bits_loop)

  bits_loop-Encodes :
      (fuel : ℕ) (src : List ℕ)
      → length src ≤ fuel
      → 8 * length src ≤ max_supported_value_count
      → LoopEncodes fuel src
  bits_loop-Encodes fuel [] h m = ([], unfold bits_loop in refl, Encodes-nil (read_bits b))
  bits_loop-Encodes zero (x ∷ rest) h m = absurd (omega arith)
  bits_loop-Encodes (suc fuel) (x ∷ rest) h m =
      let short = round_shorter x rest m in
      let (enc, e, q) =
        bits_loop-Encodes fuel (drop (bits_block x rest).1 (x ∷ rest)) (omega arith)
          (omega arith) in
      ((bits_block x rest).0 ++ enc, loop_step fuel x rest enc e, round_append x rest enc m q)

  uniform-Encodes :
      (value x : ℕ) (xs : List ℕ)
      → 8 * suc (length xs) ≤ max_supported_value_count
      → all_are value (x ∷ xs) ≡ true
      → Encodes (read_bits b) (put_uvarint (run_header (8 * suc (length xs))) ++ x ∷ []) (x ∷ xs)
  unfolding run_length_bytes
  uniform-Encodes value x xs m h =
      let e : value ≡ x = ground arith in
      let all : replicate (suc (length xs)) x ≡ x ∷ xs =
        subst (λ v. replicate (suc (length xs)) v ≡ x ∷ xs) e
          (all_are-replicate value (x ∷ xs) h) in
      subst
        (λ l. Encodes (read_bits b) (put_uvarint (run_header (8 * suc (length xs))) ++ x ∷ []) l)
        all (run-Encodes (8 * suc (length xs)) x (suc (length xs)) (omega arith) m refl)

  abbrev uniform : List ℕ → Bool
  uniform src = all_are 0 src || all_are 0xff src

  encode_bits-Encodes :
      (x : ℕ) (xs : List ℕ)
      → 8 * suc (length xs) ≤ max_supported_value_count
      → (enc : List ℕ) × (encode_bits (x ∷ xs) ≡ ok enc) × Encodes (read_bits b) enc (x ∷ xs)
  unfolding encode_bits
  encode_bits-Encodes x xs m = elim (Bool-cases (uniform (x ∷ xs))) [
    | inr p ↦
        let (enc, e, q) = bits_loop-Encodes (suc (length xs)) (x ∷ xs) (omega arith) m in
        let long : (length (x ∷ xs) == 0) ≡ false = ground arith in (enc, rw (long, p, e), q)
    | inl p ↦
        let long : (length (x ∷ xs) == 0) ≡ false = ground arith in
        (
          put_uvarint (run_header (8 * suc (length xs))) ++ x ∷ [],
          rw (long, p),
          elim (Bool-cases (all_are 0 (x ∷ xs))) [
            | inl z ↦ uniform-Encodes 0 x xs m z
            | inr z ↦ uniform-Encodes 0xff x xs m (ground arith)
          ],
        )
  ]

  -- For data of less than 2 ^ 28 bytes `encodeBits` succeeds, and `decodeBits` gives the data back from
  -- its output.
  pub decode_bits-encode_bits :
      (src : List ℕ)
      → 8 * length src ≤ max_supported_value_count
      → (enc : List ℕ) × (encode_bits src ≡ ok enc) × (decode_bits b enc ≡ ok src)
  unfolding decode_bits encode_bits put_uvarint uvarint
  decode_bits-encode_bits [] m = (0 ∷ [], refl, refl)
  decode_bits-encode_bits (x ∷ xs) m =
      let (enc, e, q) = encode_bits-Encodes x xs m in
      (enc, e, decode_blocks-Encodes (read_bits b) enc (x ∷ xs) q)
