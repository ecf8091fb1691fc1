-- ===== src/Encoding/Delta/Arrays/Fixed.antt =====
-- Values of a fixed size are read back.
use parquet_go.Prelude.{
  drop-append_short, ℕ, ◌-◌, ◌*◌, ◌^◌, ◌≤◌, ◌<◌, ◌≡◌, refl, ap, ap₂, sym, ◌∙◌, false, List, [], ◌∷◌,
  ◌++◌, length, flat, map, All, All-imp, ltb, ◌==◌, take, drop, length-drop, length-append,
  take-append_length, drop-append_length, div_mod_of, arith,
}
use parquet_go.Encoding.Result.{ok, ◌>>=◌}
use parquet_go.Encoding.Bitpack.{Bitpack, UnpacksFields}
use parquet_go.Encoding.Delta.Encode.{encode_int32}
use parquet_go.Encoding.Delta.Arrays.{
  word_search_prefix_length, fixed_prefix_loop, fixed_suffix_loop, encode_fixed_len_byte_array,
  decode_fixed_len_byte_array,
}
use parquet_go.Encoding.Delta.Arrays.Prefix.{word_search-Shared}
use parquet_go.Encoding.Delta.Arrays.Stored.{IsArray, prefixes, rests, suffixes}
use parquet_go.Encoding.Delta.Arrays.RoundTrip.{decode_fixed_loop-flat, read_lengths, agree}

-- A byte array of the size.
abbrev pub IsSized : ℕ → List ℕ → Type 0
IsSized size v = (length v ≡ size) × All (λ c. c < 256) v

length-sized :
    (size : ℕ) (vs : List (List ℕ)) → All (IsSized size) vs → length (flat vs) ≡ size * length vs
length-sized size [] h = omega arith
length-sized size (v ∷ vs) ((e, bytes), h) =
    omega (arith, length-append v (flat vs), length-sized size vs h)

take_sized :
    (size : ℕ) (v more : List ℕ)
    → length v ≡ size
    → (take size (v ++ more) ≡ v) × (drop size (v ++ more) ≡ more)
take_sized size v more e = (
  ap (λ n. take n (v ++ more)) (sym e) ∙ take-append_length v more,
  ap (λ n. drop n (v ++ more)) (sym e) ∙ drop-append_length v more,
)

fixed_prefix_loop-flat :
    (size : ℕ) (last : List ℕ) (vs : List (List ℕ))
    → All (IsSized size) vs
    → fixed_prefix_loop (length vs) size last (flat vs) ≡ prefixes last vs
unfolding fixed_prefix_loop prefixes
fixed_prefix_loop-flat size last [] h = refl
fixed_prefix_loop-flat size last (v ∷ vs) ((e, bytes), h) =
    let (front, behind) = take_sized size v (flat vs) e in
    rw (front, behind, fixed_prefix_loop-flat size v vs h) refl

map-prefixes :
    (size : ℕ) (last : List ℕ) (vs : List (List ℕ))
    → All (IsSized size) vs
    → map (λ p. size - p) (prefixes last vs) ≡ rests last vs
unfolding prefixes rests
map-prefixes size last [] h = refl
map-prefixes size last (v ∷ vs) ((e, bytes), h) =
    ap₂ (λ n l. (n - word_search_prefix_length last v) ∷ l) (sym e) (map-prefixes size v vs h)

fixed_suffix_loop-flat :
    (size : ℕ) (last : List ℕ) (vs : List (List ℕ))
    → All (λ c. c < 256) last
    → All (IsSized size) vs
    → fixed_suffix_loop size (flat vs) (prefixes last vs) ≡ suffixes last vs
unfolding fixed_suffix_loop prefixes suffixes
fixed_suffix_loop-flat size last [] h hs = refl
fixed_suffix_loop-flat size last (v ∷ vs) h ((e, bytes), hs) =
    let p = word_search_prefix_length last v in
    let s = word_search-Shared last v h bytes in
    let left : size - p ≡ length (drop p v) = omega (arith, length-drop p v) in
    let behind = (take_sized size v (flat vs) e).1 in
    rw
      (
        drop-append_short p v (flat vs) s.within_value,
        left,
        take-append_length (drop p v) (flat vs),
        behind,
        fixed_suffix_loop-flat size v vs bytes hs,
      )
      refl

module _ (b : Bitpack) (laws : UnpacksFields b) where
  -- If the bit-packing module unpacks the fields that its input holds, fewer than 2 ^ 31 values of a size from 1
  -- to MaxFixedLenByteArraySize, one behind the other, are encoded as DELTA_BYTE_ARRAY without an error, and
  -- decoding gives them back.
  pub decode_fixed_len_byte_array-encode_fixed_len_byte_array :
      (size : ℕ) (vs : List (List ℕ))
      → 0 < size
      → size ≤ 32767
      → length vs ≤ 2 ^ 31 - 1
      → All (IsSized size) vs
      → (encode_fixed_len_byte_array (flat vs) size >>= λ bytes.
          decode_fixed_len_byte_array b bytes size)
        ≡ ok (flat vs)
  unfolding encode_fixed_len_byte_array decode_fixed_len_byte_array
  decode_fixed_len_byte_array-encode_fixed_len_byte_array size vs pos small len hs =
      let (count, even) =
        div_mod_of 0 size (length vs) pos (length (flat vs))
          (omega (arith, length-sized size vs hs)) in
      let suffix = suffixes [] vs in
      let more = encode_int32 (rests [] vs) ++ suffix in
      let arrays : All IsArray vs = All-imp (λ v (e, bytes). (omega arith, bytes)) vs hs in
      let fits : ltb 32767 size ≡ false = ground arith in
      let some : (size == 0) ≡ false = ground arith in
      rw
        (
          count,
          even,
          fits,
          some,
          fixed_prefix_loop-flat size [] vs hs,
          map-prefixes size [] vs hs,
          fixed_suffix_loop-flat size [] vs tt hs,
          (read_lengths b laws vs more len arrays).0,
          (read_lengths b laws vs suffix len arrays).1,
          agree b laws vs,
        )
        (decode_fixed_loop-flat vs [] tt arrays)
