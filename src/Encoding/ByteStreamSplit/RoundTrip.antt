-- ===== src/Encoding/ByteStreamSplit/RoundTrip.antt =====
-- Values are read back from their streams.
use native.Mathlib.Nat.{div-add-mod, mod-lt, mul-le-mul_right, mul-le-mul_left}
use parquet_go.Prelude.{
  ℕ, zero, suc, ◌+◌, ◌*◌, ◌/◌, ◌%◌, ◌^◌, ◌≤◌, ◌<◌, ◌≡◌, refl, ap, ap₂, sym, ◌∙◌, false, List, [],
  ◌∷◌, ◌++◌, map, flat, get_or, length, length-map, take, drop, drop-drop, All, ltb, ◌==◌, take_add,
  take-long, length-drop, le_bytes, of_le_bytes, of_le_bytes-le_bytes, two_pow_pos, two_pow_add,
  div_mod_of, bit_or_above, arith,
}
use parquet_go.Encoding.Bitpack.Fields.{le_bytes-IsByte}
use parquet_go.Encoding.Result.{ok, ◌>>=◌}
use parquet_go.Encoding.ByteStreamSplit.{
  tabulate, encode_words, stream, or_bytes, decode_words, encode_float, encode_double, decode_float,
  decode_double, encode_fixed, decode_fixed, encode_fixed_len_byte_array,
  decode_fixed_len_byte_array,
}
use parquet_go.Encoding.ByteStreamSplit.Streams.{
  tabulate_equal, length-tabulate, tabulate-get_or, get_or-drop, get_or-map, get_or-tabulate,
  stream-flat, length-flat-tabulate,
}

-- The bytes that are shifted out are those of the value.
shifted_out : (s v : ℕ) → v / 2 ^ (8 * (s + 1)) ≡ v / 2 ^ (8 * s) / 256
shifted_out s v =
    let p = 2 ^ (8 * s) in
    let u = v / p in
    let bits : 8 * (s + 1) ≡ 8 + 8 * s = omega arith in
    let power = ap (λ t. 2 ^ t) bits ∙ two_pow_add 8 (8 * s) in
    let pos = two_pow_pos (8 * s) in
    let rest = mod-lt v pos in
    let low : v % p + p * (u % 256) < 256 * p =
      omega (arith, rest, mul-le-mul_left p (below_byte u)) in
    rw power (
      (div_mod_of (v % p + p * (u % 256)) (256 * p) (u / 256) low v
        (omega (arith, div-add-mod v p, ap (λ (t : ℕ). p * t) (sym (div-add-mod u 256))))).0)
  where
    below_byte : (u : ℕ) → u % 256 + 1 ≤ 256
    below_byte u = omega arith

bytes_tabulated :
    (k s v : ℕ) → tabulate k s (λ j. v / 2 ^ (8 * j) % 256) ≡ le_bytes k (v / 2 ^ (8 * s))
unfolding tabulate
bytes_tabulated zero s v = refl
bytes_tabulated (suc k) s v =
    ap (λ l. (v / 2 ^ (8 * s) % 256) ∷ l)
      (bytes_tabulated k (s + 1) v ∙ ap (le_bytes k) (shifted_out s v))

or_bytes-sum :
    (bs : List ℕ) (acc s : ℕ)
    → acc < 2 ^ (8 * s)
    → All (λ c. c < 256) bs
    → or_bytes acc s bs ≡ acc + 2 ^ (8 * s) * of_le_bytes bs
unfolding or_bytes
or_bytes-sum [] acc s h hs = omega arith
or_bytes-sum (b ∷ bs) acc s h (small, hs) =
    let p = 2 ^ (8 * s) in
    let bits : 8 * (s + 1) ≡ 8 + 8 * s = omega arith in
    let power = ap (λ t. 2 ^ t) bits ∙ two_pow_add 8 (8 * s) in
    let joined = bit_or_above (8 * s) acc b h in
    let below : acc + b * p < 2 ^ (8 * (s + 1)) =
      omega (arith, power, mul-le-mul_right p (next_le small)) in
    rw joined (
      or_bytes-sum bs (acc + b * p) (s + 1) below hs
      ∙ omega (arith, ap (λ (t : ℕ). t * of_le_bytes bs) power))
  where
    next_le : {c : ℕ} → c < 256 → c + 1 ≤ 256
    next_le h = omega arith

get_or-All : (P : ℕ → Type 0) (xs : List ℕ) (i : ℕ) → All P xs → i < length xs → P (get_or xs i 0)
get_or-All P [] i h l = absurd (omega arith)
get_or-All P (x ∷ xs) zero (h, hs) l = h
get_or-All P (x ∷ xs) (suc i) (h, hs) l = get_or-All P xs i hs (omega arith)

value_back : (k v : ℕ) → v < 256 ^ k → or_bytes 0 0 (tabulate k 0 (λ s. v / 2 ^ (8 * s) % 256)) ≡ v
value_back k v h =
    let whole : v / 2 ^ (8 * 0) ≡ v = omega arith in
    ap (or_bytes 0 0) (bytes_tabulated k 0 v ∙ ap (le_bytes k) whole)
    ∙ or_bytes-sum (le_bytes k v) 0 0 (omega arith) (le_bytes-IsByte k v)
    ∙ omega (arith, of_le_bytes-le_bytes k v h)

none_before : (s : ℕ) → 0 + s ≡ s
none_before s = omega arith

none_times : (s : ℕ) → 0 * s ≡ 0
none_times s = omega arith

within : {i n : ℕ} → i < 0 + n → i < n
within h = omega arith

words_back :
    (k : ℕ) (src : List ℕ)
    → 0 < k
    → All (λ v. v < 256 ^ k) src
    → (decode_words k (encode_words k src) ≡ src) × (length (encode_words k src) % k ≡ 0)
unfolding decode_words encode_words
words_back k src pos h =
    let n = length src in
    let g = λ (s : ℕ). map (λ v. v / 2 ^ (8 * s) % 256) src in
    let enc = flat (tabulate k 0 g) in
    let size = length-flat-tabulate k 0 n g (λ j. length-map src (λ v. v / 2 ^ (8 * j) % 256)) in
    let (count, even) = div_mod_of 0 k n pos (length enc) (omega (arith, size)) in
    let byte = λ (i s : ℕ) (l : i < n) (m : s < k).
      ap (λ t. get_or t i 0)
        (stream-flat k 0 n g s (λ j. length-map src (λ v. v / 2 ^ (8 * j) % 256)) m
          ∙ ap g (none_before s))
      ∙ get_or-map (λ v. v / 2 ^ (8 * s) % 256) src i l in
    let value = λ (i : ℕ) (l : i < n).
      ap (or_bytes 0 0) (
        tabulate_equal k 0 (λ s. get_or (stream enc n s) i 0)
          (λ s. get_or src i 0 / 2 ^ (8 * s) % 256) (λ s p q. byte i s l (within q)))
      ∙ value_back k (get_or src i 0) (get_or-All (λ v. v < 256 ^ k) src i h l) in
    (
      rw count (
          tabulate_equal n 0 (λ i. or_bytes 0 0 (tabulate k 0 (λ s. get_or (stream enc n s) i 0)))
            (λ i. get_or src i 0) (λ i p q. value i (within q))
          ∙ tabulate-get_or n [] src (omega arith)
          ∙ take-long n src (omega arith)),
      even,
    )

flat_chunks :
    (size : ℕ) (src : List ℕ) (n lo : ℕ)
    → flat (tabulate n lo (λ i. take size (drop (i * size) src)))
      ≡ take (n * size) (drop (lo * size) src)
unfolding tabulate
flat_chunks size src zero lo = let e : 0 * size ≡ 0 = omega arith in rw e refl
flat_chunks size src (suc n) lo =
    let next : (lo + 1) * size ≡ lo * size + size = omega arith in
    let whole : suc n * size ≡ size + n * size = omega arith in
    let rest = drop (lo * size) src in
    ap (λ l. take size rest ++ l)
      (flat_chunks size src n (lo + 1)
        ∙ ap (λ t. take (n * size) (drop t src)) next
        ∙ ap (take (n * size)) (sym (drop-drop (lo * size) size src)))
    ∙ take_add size (n * size) rest
    ∙ ap (λ t. take t rest) (sym whole)

chunk_back :
    (size n i : ℕ) (src : List ℕ)
    → length src ≡ size * n
    → i < n
    → tabulate size 0 (λ s. get_or src (i * size + s) 0) ≡ take size (drop (i * size) src)
chunk_back size n i src e l =
    let room = mul-le-mul_right size l in
    tabulate_equal size 0 (λ s. get_or src (i * size + s) 0) (λ s. get_or (drop (i * size) src) s 0)
      (λ s p q. get_or-drop (i * size) s src)
    ∙ tabulate-get_or size [] (drop (i * size) src)
        (omega (arith, room, length-drop (i * size) src))

fixed_back :
    (size n : ℕ) (src : List ℕ)
    → 0 < size
    → length src ≡ size * n
    → (decode_fixed (encode_fixed src size) size ≡ src)
      × (length (encode_fixed src size) ≡ size * n)
unfolding decode_fixed encode_fixed
fixed_back size n src pos e =
    let count = (div_mod_of 0 size n pos (length src) (omega (arith, e))).0 in
    let g = λ (s : ℕ). tabulate n 0 (λ i. get_or src (i * size + s) 0) in
    let enc = flat (tabulate size 0 g) in
    let width = λ (s : ℕ). length-tabulate n 0 (λ i. get_or src (i * size + s) 0) in
    let long = length-flat-tabulate size 0 n g width in
    let count' = (div_mod_of 0 size n pos (length enc) (omega (arith, long))).0 in
    let byte = λ (i s : ℕ) (l : i < n) (m : s < size).
      ap (λ t. get_or t i 0) (stream-flat size 0 n g s width m)
      ∙ get_or-tabulate n 0 (λ j. get_or src (j * size + (0 + s)) 0) i l
      ∙ ap₂ (λ j t. get_or src (j * size + t) 0) (none_before i) (none_before s) in
    let value = λ (i : ℕ) (l : i < n).
      tabulate_equal size 0 (λ s. get_or (stream enc n s) i 0) (λ s. get_or src (i * size + s) 0)
        (λ s p q. byte i s l (within q))
      ∙ chunk_back size n i src e l in
    (
      rw count (
          rw count' (
            ap flat (
              tabulate_equal n 0 (λ i. tabulate size 0 (λ s. get_or (stream enc n s) i 0))
                (λ i. take size (drop (i * size) src)) (λ i p q. value i (within q)))
            ∙ flat_chunks size src n 0
            ∙ ap (λ t. take (n * size) (drop t src)) (none_times size)
            ∙ take-long (n * size) src (omega (arith, e)))),
      rw count long,
    )

-- BYTE_STREAM_SPLIT gives back what it was given: DecodeFloat and DecodeInt32 read the streams that EncodeFloat
-- and EncodeInt32 write of 32-bit values, DecodeDouble and DecodeInt64 those of 64-bit values, and
-- DecodeFixedLenByteArray those of whole values of a size from 1 to MaxFixedLenByteArraySize.
pub decode_float-encode_float_streams :
    (src wide bytes : List ℕ) (size n : ℕ)
    → All (λ v. v < 2 ^ 32) src
    → All (λ v. v < 2 ^ 64) wide
    → 0 < size
    → size ≤ 32767
    → length bytes ≡ size * n
    → (decode_float (encode_float src) ≡ ok src)
      × (decode_double (encode_double wide) ≡ ok wide)
      × ((encode_fixed_len_byte_array bytes size >>= λ streams.
            decode_fixed_len_byte_array streams size)
          ≡ ok bytes)
unfolding decode_float encode_float decode_double encode_double encode_fixed_len_byte_array
    decode_fixed_len_byte_array
decode_float-encode_float_streams src wide bytes size n h h' pos small e =
    let (back, even) = words_back 4 src (omega arith) h in
    let (back', even') = words_back 8 wide (omega arith) h' in
    let (fixed, long) = fixed_back size n bytes pos e in
    let some : (size == 0) ≡ false = ground arith in
    let fits : ltb 32767 size ≡ false = ground arith in
    let whole = (div_mod_of 0 size n pos (length bytes) (omega (arith, e))).1 in
    let whole' =
      (div_mod_of 0 size n pos (length (encode_fixed bytes size)) (omega (arith, long))).1 in
    (rw (even, back) refl, rw (even', back') refl, rw (some, fits, whole, whole', fixed) refl)
