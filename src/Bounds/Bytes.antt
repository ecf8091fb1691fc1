-- ===== src/Bounds/Bytes.antt =====
-- Byte slices and the order of `bytes.Compare`. A byte is a number below 256.
use parquet_go.Prelude.{
  ℕ, ◌<◌, ◌≡◌, refl, List, [], ◌∷◌, Ordering, compare, arith, is_le, opposite, IsOrder, true,
}

abbrev pub IsByte : ℕ → Type 0
IsByte b = b < 256

abbrev pub then_by : Ordering → Ordering → Ordering
then_by Ordering.eq rest = rest
then_by Ordering.lt rest = Ordering.lt
then_by Ordering.gt rest = Ordering.gt

-- The lexicographic order, a proper prefix first.
unfoldable pub compare_bytes : List ℕ → List ℕ → Ordering
compare_bytes [] [] = Ordering.eq
compare_bytes [] (b ∷ ys) = Ordering.lt
compare_bytes (a ∷ xs) [] = Ordering.gt
compare_bytes (a ∷ xs) (b ∷ ys) = then_by (compare a b) (compare_bytes xs ys)

compare_bytes-flip : (a b : List ℕ) → compare_bytes b a ≡ opposite (compare_bytes a b)
unfolding compare_bytes
compare_bytes-flip [] [] = refl
compare_bytes-flip [] (b ∷ ys) = refl
compare_bytes-flip (a ∷ xs) [] = refl
compare_bytes-flip (a ∷ xs) (b ∷ ys) = ground (arith, compare_bytes-flip xs ys)

compare_bytes_trans :
    (a b c : List ℕ)
    → is_le (compare_bytes a b) ≡ true
    → is_le (compare_bytes b c) ≡ true
    → is_le (compare_bytes a c) ≡ true
unfolding compare_bytes
compare_bytes_trans [] b [] p q = refl
compare_bytes_trans [] b (c ∷ cs) p q = refl
compare_bytes_trans (a ∷ xs) [] c p q = cc
compare_bytes_trans (a ∷ xs) (b ∷ ys) [] p q = cc
compare_bytes_trans (a ∷ xs) (b ∷ ys) (c ∷ cs) p q = ground (arith, compare_bytes_trans xs ys cs)

pub compare_bytes-IsOrder : IsOrder compare_bytes
compare_bytes-IsOrder = record { flip = compare_bytes-flip; le_trans = compare_bytes_trans }
