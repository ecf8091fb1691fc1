-- ===== src/Encoding/Delta/Arrays/RoundTrip.antt =====
-- Byte arrays are read back from the prefixes that they share and what is left of them.
use parquet_go.Prelude.{
  ℕ, ◌+◌, ◌-◌, ◌%◌, ◌^◌, ◌≤◌, ◌<◌, ◌≡◌, refl, true, false, List, [], ◌∷◌, ◌++◌, length, flat, All,
  ltb, leb, ◌==◌, ==_iff, drop, replicate, length-drop, length-append, take-append_length,
  drop-append_length, take-append-drop, arith,
}
use parquet_go.Encoding.Result.{ok, ◌>>=◌}
use parquet_go.Encoding.Bitpack.{Bitpack, UnpacksFields}
use parquet_go.Encoding.Plain.RoundTrip.{offsets_of}
use parquet_go.Encoding.Delta.Encode.{encode_int32}
use parquet_go.Encoding.Delta.Decode.{decode_int32}
use parquet_go.Encoding.Delta.Decode.Encoded.{int32_back}
use parquet_go.Encoding.Delta.Arrays.{
  word_search_prefix_length, encode_byte_array, next_value, decode_loop, decode_fixed_loop,
  decode_byte_array,
}
use parquet_go.Encoding.Delta.Arrays.Prefix.{Shared, word_search-Shared}
use parquet_go.Encoding.Delta.Arrays.Stored.{
  IsArray, prefixes, rests, suffixes, lengths_agree, length-prefixes, stored-Small,
  prefix_loop-flat, suffix_loop-flat,
}

next_value-Shared :
    (last v more : List ℕ) (p : ℕ)
    → Shared p last v
    → length v < 2 ^ 31
    → next_value (drop p v ++ more) last p (length v - p) ≡ ok v
unfolding next_value
next_value-Shared last v more p s short =
    let size : length v - p ≡ length (drop p v) = omega (arith, length-drop p v) in
    let total = length-append (drop p v) more in
    let int : leb (2 ^ 31) (length (drop p v)) ≡ false = ground (arith, length-drop p v) in
    let inside : ltb (length (drop p v ++ more)) (length (drop p v)) ≡ false =
      ground (arith, total) in
    let int' : leb (2 ^ 31) p ≡ false = ground (arith, s.within_value) in
    let shared : ltb (length last) p ≡ false = ground (arith, s.within_base) in
    rw
      (
        size,
        int,
        inside,
        int',
        shared,
        take-append_length (drop p v) more,
        s.shared,
        take-append-drop p v,
      )
      refl

rest_behind : (v more : List ℕ) (p : ℕ) → drop (length v - p) (drop p v ++ more) ≡ more
rest_behind v more p =
    let size : length v - p ≡ length (drop p v) = omega (arith, length-drop p v) in
    rw size (drop-append_length (drop p v) more)

decode_loop-flat :
    (vs : List (List ℕ)) (last : List ℕ) (at : ℕ)
    → at + length (flat vs) < 2 ^ 32
    → All (λ c. c < 256) last
    → All IsArray vs
    → decode_loop (suffixes last vs) (prefixes last vs) (rests last vs) last at
      ≡ ok (flat vs, offsets_of at vs)
unfolding decode_loop prefixes rests suffixes
decode_loop-flat [] last at l h hs = let e : at % 2 ^ 32 ≡ at = omega arith in rw e refl
decode_loop-flat (v ∷ vs) last at l h ((short, bytes), hs) =
    let part = length-append v (flat vs) in
    let p = word_search_prefix_length last v in
    let s = word_search-Shared last v h bytes in
    let here : at % 2 ^ 32 ≡ at = omega arith in
    rw
      (
        next_value-Shared last v (suffixes v vs) p s short,
        rest_behind v (suffixes v vs) p,
        decode_loop-flat vs v (at + length v) (omega (arith, part)) bytes hs,
        here,
      )
      refl

pub decode_fixed_loop-flat :
    (vs : List (List ℕ)) (last : List ℕ)
    → All (λ c. c < 256) last
    → All IsArray vs
    → decode_fixed_loop (suffixes last vs) (prefixes last vs) (rests last vs) last ≡ ok (flat vs)
unfolding decode_fixed_loop prefixes rests suffixes
decode_fixed_loop-flat [] last h hs = refl
decode_fixed_loop-flat (v ∷ vs) last h ((short, bytes), hs) =
    let p = word_search_prefix_length last v in
    let s = word_search-Shared last v h bytes in
    rw
      (
        next_value-Shared last v (suffixes v vs) p s short,
        rest_behind v (suffixes v vs) p,
        decode_fixed_loop-flat vs v bytes hs,
      )
      refl

module _ (b : Bitpack) (laws : UnpacksFields b) where
  pub read_lengths :
      (vs : List (List ℕ)) (rest : List ℕ)
      → length vs ≤ 2 ^ 31 - 1
      → All IsArray vs
      → (decode_int32 b (encode_int32 (prefixes [] vs) ++ rest) ≡ ok (prefixes [] vs, rest))
        × (decode_int32 b (encode_int32 (rests [] vs) ++ rest) ≡ ok (rests [] vs, rest))
  read_lengths vs rest len hs =
      let (small, small') = stored-Small [] vs tt hs in
      (
        int32_back b laws (prefixes [] vs) rest small (omega (arith, length-prefixes [] vs)),
        int32_back b laws (rests [] vs) rest small'
            (omega (arith, length-prefixes [] vs, lengths_agree [] vs)),
      )

  pub agree : (vs : List (List ℕ)) → (length (prefixes [] vs) == length (rests [] vs)) ≡ true
  agree vs = (==_iff _ _).1 (lengths_agree [] vs)

  -- If the bit-packing module unpacks the fields that its input holds, fewer than 2 ^ 31 byte arrays of fewer than
  -- 2 ^ 31 bytes each, that lie one behind the other behind some bytes `front`, with fewer than 2 ^ 32 bytes in
  -- all, are encoded as DELTA_BYTE_ARRAY without an error, and decoding gives back the bytes of the values and
  -- their offsets from 0 on.
  pub decode_byte_array-encode_byte_array_prefixes :
      (front : List ℕ) (vs : List (List ℕ))
      → length front + length (flat vs) < 2 ^ 32
      → length vs ≤ 2 ^ 31 - 1
      → All IsArray vs
      → (encode_byte_array (front ++ flat vs) (offsets_of (length front) vs)
          >>= decode_byte_array b)
        ≡ ok (flat vs, offsets_of 0 vs)
  unfolding encode_byte_array decode_byte_array
  decode_byte_array-encode_byte_array_prefixes front vs l len hs =
      let suffix = suffixes [] vs in
      let more = encode_int32 (rests [] vs) ++ suffix in
      rw
        (
          prefix_loop-flat vs front [] l tt hs,
          suffix_loop-flat vs front [] tt hs,
          take-append_length suffix (replicate (length suffix) 0),
          (read_lengths vs more len hs).0,
          (read_lengths vs suffix len hs).1,
          agree vs,
        )
        (decode_loop-flat vs [] 0 (omega arith) tt hs)
