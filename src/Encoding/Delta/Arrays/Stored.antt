-- ===== src/Encoding/Delta/Arrays/Stored.antt =====
-- What the loops of the encoder store of byte arrays.
use parquet_go.Prelude.{
  ℕ, suc, ◌+◌, ◌-◌, ◌%◌, ◌^◌, ◌≤◌, ◌<◌, ◌≡◌, refl, ap, ap₂, sym, ◌∙◌, true, false, List, [], ◌∷◌,
  ◌++◌, length, flat, All, ltb, take, drop, length-drop, length-append, append_assoc,
  take-append_length, drop-append_length, drop-drop, drop-append_short, arith,
}
use parquet_go.Encoding.Result.{ok}
use parquet_go.Encoding.Plain.RoundTrip.{ends}
use parquet_go.Encoding.Delta.Arrays.{word_search_prefix_length, prefix_loop, moved, suffix_loop}
use parquet_go.Encoding.Delta.Arrays.Prefix.{word_search-Shared}

-- A byte array whose length is an int32.
abbrev pub IsArray : List ℕ → Type 0
IsArray v = (length v < 2 ^ 31) × All (λ c. c < 256) v

-- What is stored of values behind the value `last`: the lengths of the shared prefixes, the lengths of what is
-- left, and what is left.
unfoldable pub prefixes : List ℕ → List (List ℕ) → List ℕ
prefixes last [] = []
prefixes last (v ∷ vs) = word_search_prefix_length last v ∷ prefixes v vs

unfoldable pub rests : List ℕ → List (List ℕ) → List ℕ
rests last [] = []
rests last (v ∷ vs) = (length v - word_search_prefix_length last v) ∷ rests v vs

unfoldable pub suffixes : List ℕ → List (List ℕ) → List ℕ
suffixes last [] = []
suffixes last (v ∷ vs) = drop (word_search_prefix_length last v) v ++ suffixes v vs

pub lengths_agree :
    (last : List ℕ) (vs : List (List ℕ)) → length (prefixes last vs) ≡ length (rests last vs)
unfolding prefixes rests
lengths_agree last [] = refl
lengths_agree last (v ∷ vs) = ap suc (lengths_agree v vs)

pub length-prefixes : (last : List ℕ) (vs : List (List ℕ)) → length (prefixes last vs) ≡ length vs
unfolding prefixes
length-prefixes last [] = refl
length-prefixes last (v ∷ vs) = ap suc (length-prefixes v vs)

pub stored-Small :
    (last : List ℕ) (vs : List (List ℕ))
    → All (λ c. c < 256) last
    → All IsArray vs
    → All (λ p. p < 2 ^ 32) (prefixes last vs) × All (λ n. n < 2 ^ 32) (rests last vs)
unfolding prefixes rests
stored-Small last [] h hs = (tt, tt)
stored-Small last (v ∷ vs) h ((short, bytes), hs) =
    let (more, more') = stored-Small v vs bytes hs in
    let s = word_search-Shared last v h bytes in
    ((omega (arith, s.within_value), more), (omega arith, more'))

-- The value at the place that `front` ends at.
value_at :
    (front v more : List ℕ) (p : ℕ)
    → p ≤ length v
    → take
        (length front + length v - (length front + p))
        (drop (length front + p) (front ++ (v ++ more)))
      ≡ drop p v
value_at front v more p l =
    let past =
      sym (drop-drop (length front) p (front ++ (v ++ more)))
      ∙ ap (drop p) (drop-append_length front (v ++ more))
      ∙ drop-append_short p v more l in
    let size : length front + length v - (length front + p) ≡ length (drop p v) =
      omega (arith, length-drop p v) in
    ap₂ take size past ∙ take-append_length (drop p v) more

pub prefix_loop-flat :
    (vs : List (List ℕ)) (front last : List ℕ)
    → length front + length (flat vs) < 2 ^ 32
    → All (λ c. c < 256) last
    → All IsArray vs
    → prefix_loop (front ++ flat vs) last (length front) (ends (length front) vs)
      ≡ ok (prefixes last vs, rests last vs, length (suffixes last vs))
unfolding prefix_loop prefixes rests suffixes
prefix_loop-flat [] front last l h hs = refl
prefix_loop-flat (v ∷ vs) front last l h ((short, bytes), hs) =
    let further = prefix_loop-flat vs (front ++ v) v in
    let ih = rw (append_assoc, length-append front v) at further in
    let src = front ++ (v ++ flat vs) in
    let total = length-append front (v ++ flat vs) in
    let part = length-append v (flat vs) in
    let p = word_search_prefix_length last v in
    let s = word_search-Shared last v h bytes in
    let rising : ltb (length front + length v) (length front) ≡ false = ground arith in
    let inside : ltb (length src) (length front + length v) ≡ false = ground (arith, total, part) in
    let size : length front + length v - length front ≡ length v = omega arith in
    let size' : (length front + length v + 2 ^ 32 - length front) % 2 ^ 32 ≡ length v =
      omega (arith, part) in
    let small : p % 2 ^ 32 ≡ p = omega (arith, s.within_value) in
    let small' : (length v - p) % 2 ^ 32 ≡ length v - p = omega arith in
    let sum : length v - p + length (suffixes v vs) ≡ length (drop p v ++ suffixes v vs) =
      omega (arith, length-append (drop p v) (suffixes v vs), length-drop p v) in
    rw
      (
        rising,
        inside,
        size,
        size',
        drop-append_length front (v ++ flat vs),
        take-append_length v (flat vs),
        ih (omega (arith, part)) bytes hs,
        small,
        small',
        sum,
      )
      refl

pub suffix_loop-flat :
    (vs : List (List ℕ)) (front last : List ℕ)
    → All (λ c. c < 256) last
    → All IsArray vs
    → suffix_loop (front ++ flat vs) (length front) (prefixes last vs) (rests last vs)
      ≡ ok (suffixes last vs)
unfolding suffix_loop moved prefixes rests suffixes
suffix_loop-flat [] front last h hs = refl
suffix_loop-flat (v ∷ vs) front last h ((short, bytes), hs) =
    let further = suffix_loop-flat vs (front ++ v) v in
    let ih = rw (append_assoc, length-append front v) at further in
    let src = front ++ (v ++ flat vs) in
    let total = length-append front (v ++ flat vs) in
    let part = length-append v (flat vs) in
    let p = word_search_prefix_length last v in
    let s = word_search-Shared last v h bytes in
    let whole : (p + (length v - p)) % 2 ^ 32 ≡ length v = omega (arith, s.within_value) in
    let small : ltb p (2 ^ 31) ≡ true = ground (arith, s.within_value) in
    let small' : ltb (length v) (2 ^ 31) ≡ true = ground arith in
    let rising : ltb (length front + length v) (length front + p) ≡ false =
      ground (arith, s.within_value) in
    let inside : ltb (length src) (length front + length v) ≡ false = ground (arith, total, part) in
    rw
      (
        whole,
        small,
        small',
        rising,
        inside,
        value_at front v (flat vs) p s.within_value,
        ih bytes hs,
      )
      refl
