-- ===== src/Encoding/Plain/RoundTrip.antt =====
-- Byte arrays are read back.
use parquet_go.Prelude.{
  ℕ, zero, suc, ◌+◌, ◌-◌, ◌%◌, ◌^◌, ◌≤◌, ◌<◌, ◌≡◌, refl, ap, ◌∙◌, if◌then◌else◌, take, false, List,
  [], ◌∷◌, ◌++◌, length, map, flat, All, ltb, le_bytes, of_le_bytes, of_le_bytes-le_bytes,
  take-append_length, drop-append_length, length-append, append_assoc, append-nil, Bool-cases, inl,
  inr, drop, drop-nil, take-append_long, arith,
}
use parquet_go.Encoding.Result.{ok, err, panic, unexpected_eof, ◌>>=◌}
use parquet_go.Encoding.Plain.{
  byte_array, encode_loop, encode_byte_array, decode_loop, decode_byte_array, next_byte_array,
  range_loop, range_byte_array, max_byte_array_length,
}

-- The ends of values laid out one behind the other from `at` on, and the offsets of these values.
abbrev pub ends : ℕ → List (List ℕ) → List ℕ
ends at [] = []
ends at (v ∷ vs) = (at + length v) ∷ ends (at + length v) vs

abbrev pub offsets_of : ℕ → List (List ℕ) → List ℕ
offsets_of at vs = at ∷ ends at vs

abbrev pub encoded : List (List ℕ) → List ℕ
encoded vs = flat (map byte_array vs)

size_lem :
    (v : List ℕ) → length v < 2 ^ 32 → of_le_bytes (le_bytes 4 (length v % 2 ^ 32)) ≡ length v
size_lem v h = of_le_bytes-le_bytes 4 (length v % 2 ^ 32) (omega arith) ∙ omega arith

-- A round of the loop over a value that is there.
decode_loop-value :
    (v more spare : List ℕ) (total fuel at : ℕ)
    → length v < 2 ^ 32
    → length v + 4 ≤ total
    → decode_loop total spare (suc fuel) (byte_array v ++ more) at ≡ (
        decode_loop total spare fuel more (at + length v) >>= λ (bytes, offsets).
        ok (v ++ bytes, at % 2 ^ 32 ∷ offsets))
unfolding byte_array decode_loop
decode_loop-value v more spare total fuel at a b =
    let size = size_lem v a in
    let fits : ltb (total - 4) (length v) ≡ false = ground (arith, b) in
    let inside : ltb (length (v ++ more) + length spare) (length v) ≡ false =
      ground (arith, length-append v more) in
    let value : take (length v) ((v ++ more) ++ spare) ≡ v =
      ap (take (length v)) (append_assoc v more spare) ∙ take-append_length v (more ++ spare) in
    rw (size, value, drop-append_length v more, fits, inside) (ground arith)

decode_loop-encoded :
    (vs : List (List ℕ)) (spare : List ℕ) (total fuel at : ℕ)
    → length (encoded vs) ≤ total
    → length (encoded vs) ≤ fuel
    → at + length (flat vs) < 2 ^ 32
    → decode_loop total spare fuel (encoded vs) at ≡ ok (flat vs, offsets_of at vs)
unfolding byte_array decode_loop
decode_loop-encoded [] spare total fuel at a b c = let e : at % 2 ^ 32 ≡ at = omega arith in rw e
decode_loop-encoded (v ∷ vs) spare total zero at a b c = absurd (omega arith)
decode_loop-encoded (v ∷ vs) spare total (suc fuel) at a b c =
    let more = encoded vs in
    let whole = length-append v more in
    let values = length-append v (flat vs) in
    let here : at % 2 ^ 32 ≡ at = omega arith in
    let ih =
      decode_loop-encoded vs spare total fuel (at + length v) (omega (arith, whole, a))
        (omega (arith, whole, b)) (omega (arith, values, c)) in
    decode_loop-value v more spare total fuel at (omega (arith, values, c))
      (omega (arith, whole, a))
    ∙ rw (ih, here) refl

encode_loop-flat :
    (vs : List (List ℕ)) (front : List ℕ)
    → encode_loop (front ++ flat vs) (length front) (ends (length front) vs) ≡ ok (encoded vs)
unfolding encode_loop
encode_loop-flat [] front = refl
encode_loop-flat (v ∷ vs) front =
    let further = encode_loop-flat vs (front ++ v) in
    let ih = rw (append_assoc, length-append front v) at further in
    let src = front ++ (v ++ flat vs) in
    let total = length-append front (v ++ flat vs) in
    let part = length-append v (flat vs) in
    let rising : ltb (length front + length v) (length front) ≡ false = ground arith in
    let inside : ltb (length src) (length front + length v) ≡ false = ground (arith, total, part) in
    let size : length front + length v - length front ≡ length v = omega arith in
    rw (
      rising,
      inside,
      size,
      drop-append_length front (v ++ flat vs),
      take-append_length v (flat vs),
      ih,
    )

-- Byte arrays of less than 2 ^ 32 bytes in total, laid out one behind the other with their offsets, are
-- encoded without an error, and decoding gives back their bytes and offsets, whatever bytes lie behind the input
-- in its array.
pub decode_byte_array-encode_byte_array :
    (vs : List (List ℕ)) (spare : List ℕ)
    → length (flat vs) < 2 ^ 32
    → (enc : List ℕ) × (encode_byte_array (flat vs) (offsets_of 0 vs) ≡ ok enc)
      × (decode_byte_array spare enc ≡ ok (flat vs, offsets_of 0 vs))
unfolding encode_byte_array decode_byte_array
decode_byte_array-encode_byte_array vs spare h = (
  encoded vs,
  encode_loop-flat vs [],
  decode_loop-encoded vs spare (length (encoded vs)) (length (encoded vs)) 0 (omega arith)
      (omega arith) (omega arith),
)

next_byte_array-byte_array :
    (v rest : List ℕ)
    → length v ≤ max_byte_array_length
    → next_byte_array (byte_array v ++ rest) ≡ ok (v, rest)
unfolding byte_array next_byte_array
next_byte_array-byte_array v rest h =
    let size = size_lem v (omega (arith, h)) in
    let whole = length-append v rest in
    rw (size, take-append_length v rest, drop-append_length v rest) (ground (arith, whole, h))

range_loop-encoded :
    (vs : List (List ℕ)) (fuel : ℕ)
    → All (λ v. length v ≤ max_byte_array_length) vs
    → length (encoded vs) ≤ fuel
    → range_loop fuel (encoded vs) ≡ ok vs
unfolding range_loop byte_array
range_loop-encoded [] fuel h b = refl
range_loop-encoded (v ∷ vs) zero h b = absurd (omega arith)
range_loop-encoded (v ∷ vs) (suc fuel) (h, hs) b =
    let ih = range_loop-encoded vs fuel hs (omega (arith, length-append v (encoded vs), b)) in
    rw (next_byte_array-byte_array v (encoded vs) h, ih)

-- `RangeByteArray` goes through byte arrays of no more than MaxByteArrayLength bytes each, encoded one
-- behind the other, in their order and ends without an error.
pub range_byte_array-encoded :
    (vs : List (List ℕ))
    → All (λ v. length v ≤ max_byte_array_length) vs
    → range_byte_array (encoded vs) ≡ ok vs
unfolding range_byte_array
range_byte_array-encoded vs h = range_loop-encoded vs (length (encoded vs)) h (omega arith)

drop-long : (n : ℕ) (xs : List ℕ) → length xs ≤ n → drop n xs ≡ []
drop-long n [] h = drop-nil n
drop-long zero (x ∷ xs) h = absurd (omega arith)
drop-long (suc n) (x ∷ xs) h = drop-long n xs (omega arith)

-- A round of the loop over a value that ends behind the input.
decode_loop-past_end :
    (rest spare : List ℕ) (n total fuel at : ℕ)
    → n < 2 ^ 32
    → length rest < n
    → n + 4 ≤ total
    → decode_loop total spare (suc fuel) (le_bytes 4 n ++ rest) at ≡ (
        if ltb (length rest + length spare) n
        then panic
        else ok (rest ++ take (n - length rest) spare, at % 2 ^ 32 ∷ (at + n) % 2 ^ 32 ∷ []))
unfolding decode_loop
decode_loop-past_end rest spare n total fuel at a b c =
    let size = of_le_bytes-le_bytes 4 n (omega arith) in
    let fits : ltb (total - 4) n ≡ false = ground (arith, c) in
    let gone = drop-long n rest (omega arith) in
    let value = take-append_long n rest spare (omega arith) in
    let end = append-nil (rest ++ take (n - length rest) spare) in
    rw (size, fits, gone, value, end) (ground arith)

two_rounds :
    (v rest spare : List ℕ) (n total fuel : ℕ)
    → length v < 2 ^ 32
    → n < 2 ^ 32
    → length rest < n
    → length v + 4 ≤ total
    → n + 4 ≤ total
    → decode_loop total spare (suc (suc fuel)) (byte_array v ++ (le_bytes 4 n ++ rest)) 0 ≡ (
        if ltb (length rest + length spare) n
        then panic
        else ok (
          v ++ (rest ++ take (n - length rest) spare),
          0 ∷ length v ∷ (length v + n) % 2 ^ 32 ∷ [],
        ))
two_rounds v rest spare n total fuel a b c d e =
    let here : (0 + length v) % 2 ^ 32 ≡ length v = omega arith in
    let next : (0 + length v + n) % 2 ^ 32 ≡ (length v + n) % 2 ^ 32 = omega arith in
    let first : 0 % 2 ^ 32 ≡ 0 = omega arith in
    decode_loop-value v (le_bytes 4 n ++ rest) spare total (suc fuel) 0 a d
    ∙ rw (decode_loop-past_end rest spare n total fuel (0 + length v) b c e, here, next)
        (elim (Bool-cases (ltb (length rest + length spare) n)) [
          | inl q ↦ rw q refl
          | inr q ↦ rw q refl
        ])

-- A value `v` and, behind it, the length `n` of a value of which only `rest` is there: `DecodeByteArray` accepts
-- the length if it is no more than that of all bytes but four. It panics if the input's array ends before that
-- value does, and else answers, without an error, a value that goes on with the bytes behind the input.
-- `NextByteArray` answers an error for what follows `v`.
pub decode_byte_array_overrun :
    (v rest spare : List ℕ) (n : ℕ)
    → length v < 2 ^ 32
    → n < 2 ^ 32
    → length rest < n
    → n ≤ length v + 4 + length rest
    → (decode_byte_array spare (byte_array v ++ (le_bytes 4 n ++ rest)) ≡ (
        if ltb (length rest + length spare) n
        then panic
        else ok (
          v ++ (rest ++ take (n - length rest) spare),
          0 ∷ length v ∷ (length v + n) % 2 ^ 32 ∷ [],
        )))
      × (next_byte_array (le_bytes 4 n ++ rest) ≡ err unexpected_eof)
unfolding byte_array decode_byte_array next_byte_array
decode_byte_array_overrun v rest spare n a b c d =
    let src = byte_array v ++ (le_bytes 4 n ++ rest) in
    let whole = length-append v (le_bytes 4 n ++ rest) in
    let fuel = length (v ++ (le_bytes 4 n ++ rest)) + 2 in
    let rounds : length src ≡ suc (suc fuel) = omega arith in
    (
      ap (λ f. decode_loop (length src) spare f src 0) rounds
          ∙ two_rounds v rest spare n (length src) fuel a b c (omega (arith, whole))
              (omega (arith, whole, d)),
      rw (of_le_bytes-le_bytes 4 n (omega arith)) (ground (arith, c)),
    )
