-- ===== src/Encoding/Delta/Lengths/RoundTrip.antt =====
-- Byte arrays are read back from their lengths and their bytes.
use parquet_go.Prelude.{
  ℕ, ◌+◌, ◌-◌, ◌%◌, ◌^◌, ◌≤◌, ◌<◌, ◌≡◌, refl, ap, ◌∙◌, false, List, [], ◌∷◌, ◌++◌, length, map,
  flat, All, ltb, leb, take, length-append, length-map, arith,
}
use parquet_go.Encoding.Result.{ok}
use parquet_go.Encoding.Bitpack.{Bitpack, UnpacksFields}
use parquet_go.Encoding.Plain.RoundTrip.{offsets_of}
use parquet_go.Encoding.Delta.Decode.Encoded.{int32_back}
use parquet_go.Encoding.Delta.Lengths.{
  encode_byte_array_lengths, encode_byte_array, decode_byte_array_lengths, decode_byte_array,
}

abbrev pub lengths_of : List (List ℕ) → List ℕ
lengths_of vs = map length vs

encode_lengths_lem :
    (vs : List (List ℕ)) (at : ℕ)
    → at + length (flat vs) < 2 ^ 32
    → encode_byte_array_lengths (offsets_of at vs) ≡ lengths_of vs
unfolding encode_byte_array_lengths
encode_lengths_lem [] at h = refl
encode_lengths_lem (v ∷ vs) at h =
    let total = length-append v (flat vs) in
    let here : (at + length v + 2 ^ 32 - at) % 2 ^ 32 ≡ length v = omega (arith, total) in
    rw (here, encode_lengths_lem vs (at + length v) (omega (arith, total))) refl

decode_lengths_lem :
    (vs : List (List ℕ)) (at : ℕ)
    → at + length (flat vs) < 2 ^ 31
    → decode_byte_array_lengths (lengths_of vs) at ≡ ok (offsets_of at vs, at + length (flat vs))
unfolding decode_byte_array_lengths
decode_lengths_lem [] at h = let e : at + 0 ≡ at = omega arith in rw e refl
decode_lengths_lem (v ∷ vs) at h =
    let total = length-append v (flat vs) in
    let next : (at + length v) % 2 ^ 32 ≡ at + length v = omega (arith, total) in
    let small : leb (2 ^ 31) (length v) ≡ false = ground (arith, total) in
    let end : at + length v + length (flat vs) ≡ at + length (v ++ flat vs) =
      omega (arith, total) in
    rw (small, next, decode_lengths_lem vs (at + length v) (omega (arith, total)), end) refl

pub lengths-Small :
    (vs : List (List ℕ)) → length (flat vs) < 2 ^ 31 → All (λ n. n < 2 ^ 32) (lengths_of vs)
lengths-Small [] h = tt
lengths-Small (v ∷ vs) h =
    let total = length-append v (flat vs) in
    (omega (arith, total), lengths-Small vs (omega (arith, total)))

take_all : (xs : List ℕ) → take (length xs) xs ≡ xs
take_all [] = refl
take_all (x ∷ xs) = ap (λ l. x ∷ l) (take_all xs)

module _ (b : Bitpack) (laws : UnpacksFields b) where
  decode_byte_array-behind :
      (front : List ℕ) (vs : List (List ℕ))
      → length front + length (flat vs) < 2 ^ 31
      → length vs ≤ 2 ^ 31 - 1
      → decode_byte_array b (encode_byte_array (front ++ flat vs) (offsets_of (length front) vs))
        ≡ ok (take (length (flat vs)) (front ++ flat vs), offsets_of 0 vs)
  unfolding decode_byte_array encode_byte_array
  decode_byte_array-behind front vs h len =
      let src = front ++ flat vs in
      let total = length-append front (flat vs) in
      let read =
        int32_back b laws (lengths_of vs) src (lengths-Small vs (omega arith))
          (omega (arith, length-map vs length)) in
      let fits : ltb (length src) (0 + length (flat vs)) ≡ false = ground (arith, total) in
      let none : 0 + length (flat vs) ≡ length (flat vs) = omega arith in
      rw
        (
          encode_lengths_lem vs (length front) (omega arith),
          read,
          decode_lengths_lem vs 0 (omega arith),
          fits,
          none,
        )
        refl

  -- If the bit-packing module unpacks the fields that its input holds, fewer than 2 ^ 31 byte arrays, laid out one
  -- behind the other from offset 0 on and encoded as DELTA_LENGTH_BYTE_ARRAY, are decoded to their bytes and
  -- offsets. Where they lie behind some bytes `front`, the offsets are decoded as those from 0 on, and the bytes as
  -- the first ones of `front` and the values, as many as the values have. All bytes are fewer than 2 ^ 31.
  pub decode_byte_array-encode_byte_array_lengths :
      (front : List ℕ) (vs : List (List ℕ))
      → length front + length (flat vs) < 2 ^ 31
      → length vs ≤ 2 ^ 31 - 1
      → (decode_byte_array b (encode_byte_array (flat vs) (offsets_of 0 vs))
          ≡ ok (flat vs, offsets_of 0 vs))
        × (decode_byte_array b (encode_byte_array (front ++ flat vs) (offsets_of (length front) vs))
            ≡ ok (take (length (flat vs)) (front ++ flat vs), offsets_of 0 vs))
  decode_byte_array-encode_byte_array_lengths front vs h len = (
    decode_byte_array-behind [] vs (omega arith) len
        ∙ ap (λ l. ok (l, offsets_of 0 vs)) (take_all (flat vs)),
    decode_byte_array-behind front vs h len,
  )
