-- ===== src/Encoding/Delta/Arrays/Prefix.antt =====
-- The search by words finds the length of the shared prefix.
use Prim.Native.Nat.{bit_xor}
use parquet_go.Prelude.{
  All-take, All-drop, ℕ, zero, suc, ◌+◌, ◌*◌, ◌/◌, ◌%◌, ◌^◌, ◌≤◌, ◌<◌, ◌≡◌, refl, ap, ap₂, sym, ◌∙◌,
  true, false, List, [], ◌∷◌, length, All, get_or, ◌==◌, ==_iff, take, drop, min, of_le_bytes,
  length-take, length-drop, Bool-cases, inl, inr, two_pow_suc, arith,
}
use parquet_go.Prelude.Bits.Xor.{bit_xor_small, bit_xor_self, bit_xor_equal, bit_xor_join}
use parquet_go.Encoding.Delta.Arrays.{
  linear_search_prefix_length, trailing_zeros, byte_loop, word_loop, word_search_prefix_length,
}

byte_loop-linear :
    (i : ℕ) (base value : List ℕ)
    → byte_loop i base value ≡ i + linear_search_prefix_length base value
unfolding byte_loop linear_search_prefix_length
byte_loop-linear i [] value = omega arith
byte_loop-linear i (b ∷ base) [] = omega arith
byte_loop-linear i (b ∷ base) (d ∷ value) = ground (arith, byte_loop-linear (i + 1) base value)

-- The zeros below the lowest digit that is not 0.
trailing_zeros_low :
    (k n y u : ℕ) → k ≤ n → 0 < y → y < 2 ^ k → trailing_zeros n (y + 2 ^ k * u) < k
unfolding trailing_zeros
trailing_zeros_low zero n y u h p l = absurd (omega arith)
trailing_zeros_low (suc k) zero y u h p l = absurd (omega arith)
trailing_zeros_low (suc k) (suc n) y u h p l =
    let whole = ap (λ (t : ℕ). t * u) (two_pow_suc k) in
    let half : (y + 2 ^ suc k * u) / 2 ≡ y / 2 + 2 ^ k * u = omega (arith, whole) in
    let low : (y + 2 ^ suc k * u) % 2 ≡ y % 2 = omega (arith, whole) in
    elim (Bool-cases (y % 2 == 1)) [
      | inl e ↦ rw (low, e) (omega arith)
      | inr e ↦
          let some : 0 < y / 2 = ground arith in
          let ih =
            trailing_zeros_low k n (y / 2) u (omega arith) some (omega (arith, two_pow_suc k)) in
          rw (low, e, half) (omega (arith, ih))
    ]

trailing_zeros_shift : (k n u : ℕ) → trailing_zeros (k + n) (2 ^ k * u) ≡ k + trailing_zeros n u
unfolding trailing_zeros
trailing_zeros_shift zero n u =
    let e : 0 + n ≡ n = omega arith in
    let e' : 2 ^ 0 * u ≡ u = omega arith in rw (e, e') (omega arith)
trailing_zeros_shift (suc k) n u =
    let whole = ap (λ (t : ℕ). t * u) (two_pow_suc k) in
    let half : 2 ^ suc k * u / 2 ≡ 2 ^ k * u = omega (arith, whole) in
    let low : (2 ^ suc k * u % 2 == 1) ≡ false = ground (arith, whole) in
    let more : suc k + n ≡ suc (k + n) = omega arith in
    rw (more, low, half) (omega (arith, trailing_zeros_shift k n u))

-- Of two words of `k` bytes, the lowest digit that differs is in the first byte that differs.
record Found (k : ℕ) (us vs : List ℕ) (x : ℕ) : Type 0 where
  same : x ≡ 0 → us ≡ vs
  first : 0 < x → trailing_zeros (8 * k) x / 8 ≡ linear_search_prefix_length us vs
  inside : 0 < x → linear_search_prefix_length us vs < k

bit_xor-Found :
    (k : ℕ) (us vs : List ℕ)
    → length us ≡ k
    → length vs ≡ k
    → All (λ c. c < 256) us
    → All (λ c. c < 256) vs
    → Found k us vs (bit_xor (of_le_bytes us) (of_le_bytes vs))
unfolding linear_search_prefix_length
bit_xor-Found k [] [] e e' h h' = record {
  same = λ z. refl;
  first = λ some. absurd (omega (arith, bit_xor_self 0 0 (omega arith)));
  inside = λ some. absurd (omega (arith, bit_xor_self 0 0 (omega arith)));
}
bit_xor-Found k [] (v ∷ vs) e e' h h' = absurd (omega arith)
bit_xor-Found k (u ∷ us) [] e e' h h' = absurd (omega arith)
bit_xor-Found zero (u ∷ us) (v ∷ vs) e e' h h' = absurd (omega arith)
bit_xor-Found (suc k) (u ∷ us) (v ∷ vs) e e' (h, hs) (h', hs') =
    let x = bit_xor (of_le_bytes us) (of_le_bytes vs) in
    let y = bit_xor u v in
    let r = bit_xor-Found k us vs (omega arith) (omega arith) hs hs' in
    let joined = bit_xor_join 8 u v (of_le_bytes us) (of_le_bytes vs) h h' in
    let bits : 8 * suc k ≡ 8 + 8 * k = omega arith in
    elim (Bool-cases (u == v)) [
      | inl e ↦
          let equal = (==_iff u v).0 e in
          let none : y ≡ 0 = ap (bit_xor u) (sym equal) ∙ bit_xor_self 8 u h in
          let above : y + 2 ^ 8 * x ≡ 2 ^ 8 * x = omega arith in
          let some : 0 < 2 ^ 8 * x → 0 < x = λ p. omega arith in
          rw (joined, above)
            record {
              same = λ z. ap₂ (λ c l. c ∷ l) equal (r.same (omega arith));
              first = λ p.
                  let found = r.first (some p) in
                  rw (bits, trailing_zeros_shift 8 (8 * k) x, e) (omega (arith, found));
              inside = λ p. rw e (omega (arith, r.inside (some p)));
            }
      | inr e ↦
          let below : y < 2 ^ 8 = bit_xor_small 8 u v h h' in
          let differ : 0 < y = elim (Bool-cases (y == 0)) [
            | inl z ↦ absurd (ground (arith, bit_xor_equal 8 u v h h' ((==_iff y 0).0 z)))
            | inr z ↦ ground arith
          ] in
          let low = trailing_zeros_low 8 (8 + 8 * k) y x (omega arith) differ below in
          rw joined record {
            same = λ z. absurd (omega arith);
            first = λ p. rw (bits, e) (omega (arith, low));
            inside = λ p. rw e (omega arith);
          }
    ]

-- Past equal fronts the search goes on; where it ends within the fronts, it has ended.
linear_search-past :
    (k : ℕ) (base value : List ℕ)
    → k ≤ length base
    → take k base ≡ take k value
    → linear_search_prefix_length base value
      ≡ k + linear_search_prefix_length (drop k base) (drop k value)
unfolding linear_search_prefix_length
linear_search-past zero base value l e = omega arith
linear_search-past (suc k) [] value l e = absurd (omega arith)
linear_search-past (suc k) (b ∷ base) [] l e = absurd (cons_nil e)
  where
    cons_nil : {c : ℕ} {cs : List ℕ} → (c ∷ cs) ≡ [] → ⊥
    cons_nil e = cc
linear_search-past (suc k) (b ∷ base) (v ∷ value) l e =
    let equal = ap (λ l. get_or l 0 b) e in
    let same : (b == v) ≡ true = (==_iff b v).1 equal in
    rw same (omega (arith, linear_search-past k base value (omega arith) (ap (drop 1) e)))

linear_search-within :
    (k : ℕ) (base value : List ℕ)
    → linear_search_prefix_length (take k base) (take k value) < k
    → linear_search_prefix_length base value
      ≡ linear_search_prefix_length (take k base) (take k value)
unfolding linear_search_prefix_length
linear_search-within zero base value l = absurd (omega arith)
linear_search-within (suc k) [] value l = refl
linear_search-within (suc k) (b ∷ base) [] l = refl
linear_search-within (suc k) (b ∷ base) (v ∷ value) l = elim (Bool-cases (b == v)) [
  | inl e ↦
      let inside = rw e at l in
      rw e (ap suc (linear_search-within k base value (omega (arith, inside))))
  | inr e ↦ rw e refl
]

word_loop-linear :
    (nw i : ℕ) (base value : List ℕ)
    → nw * 8 ≤ length base
    → nw * 8 ≤ length value
    → All (λ c. c < 256) base
    → All (λ c. c < 256) value
    → word_loop nw i base value ≡ i * 8 + linear_search_prefix_length base value
unfolding word_loop
word_loop-linear zero i base value l l' h h' = byte_loop-linear (i * 8) base value
word_loop-linear (suc nw) i base value l l' h h' =
    let us = take 8 base in
    let vs = take 8 value in
    let r =
      bit_xor-Found 8 us vs (omega (arith, length-take 8 base)) (omega (arith, length-take 8 value))
        (All-take _ 8 base h) (All-take _ 8 value h') in
    elim (Bool-cases (bit_xor (of_le_bytes us) (of_le_bytes vs) == 0)) [
      | inl e ↦
          let ih =
            word_loop-linear nw (i + 1) (drop 8 base) (drop 8 value)
              (omega (arith, length-drop 8 base)) (omega (arith, length-drop 8 value))
              (All-drop _ 8 base h) (All-drop _ 8 value h') in
          let past = linear_search-past 8 base value (omega arith) (r.same ((==_iff _ _).0 e)) in
          rw e (omega (arith, ih, past))
      | inr e ↦
          let some : 0 < bit_xor (of_le_bytes us) (of_le_bytes vs) = ground arith in
          let within = linear_search-within 8 base value (r.inside some) in
          rw e (omega (arith, within, r.first some))
    ]

-- For bytes, the search that compares 8 of them at a time answers what the search that compares one after the
-- other answers.
pub word_search_prefix_length-eq-linear_search_prefix_length :
    (base value : List ℕ)
    → All (λ c. c < 256) base
    → All (λ c. c < 256) value
    → word_search_prefix_length base value ≡ linear_search_prefix_length base value
unfolding word_search_prefix_length
word_search_prefix_length-eq-linear_search_prefix_length base value h h' =
    word_loop-linear (min (length base) (length value) / 8) 0 base value (omega arith) (omega arith)
      h h'
    ∙ omega arith

-- What the search finds is shared, and is within both.
pub record Shared (p : ℕ) (base value : List ℕ) : Type 0 where
  pub within_base : p ≤ length base
  pub within_value : p ≤ length value
  pub shared : take p base ≡ take p value

linear_search-Shared :
    (base value : List ℕ) → Shared (linear_search_prefix_length base value) base value
unfolding linear_search_prefix_length
linear_search-Shared [] value = record {
  within_base = omega arith;
  within_value = omega arith;
  shared = refl;
}
linear_search-Shared (b ∷ base) [] = record {
  within_base = omega arith;
  within_value = omega arith;
  shared = refl;
}
linear_search-Shared (b ∷ base) (v ∷ value) =
    let r = linear_search-Shared base value in
    elim (Bool-cases (b == v)) [
      | inl e ↦ rw e record {
        within_base = omega (arith, r.within_base);
        within_value = omega (arith, r.within_value);
        shared = ap₂ (λ c l. c ∷ l) ((==_iff b v).0 e) r.shared;
      }
      | inr e ↦ rw e record { within_base = omega arith; within_value = omega arith; shared = refl }
    ]

pub word_search-Shared :
    (base value : List ℕ)
    → All (λ c. c < 256) base
    → All (λ c. c < 256) value
    → Shared (word_search_prefix_length base value) base value
word_search-Shared base value h h' =
    rw (word_search_prefix_length-eq-linear_search_prefix_length base value h h')
      (linear_search-Shared base value)
