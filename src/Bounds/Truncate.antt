-- ===== src/Bounds/Truncate.antt =====
-- column_index.go: bounds cut to `sizeLimit` bytes stay bounds.
use parquet_go.Prelude.{
  ℕ, zero, suc, ◌+◌, ◌%◌, ◌<◌, ◌≤◌, ◌≡◌, refl, ◌⊎◌, inl, inr, Bool, true, false, List, [], ◌∷◌, map,
  Ordering, arith, is_le, is_lt, take, length, ltb, ◌==◌, if◌then◌else◌, All, Bool-cases, lt→ltb,
  ◌∙◌, ◌&&◌, length-take,
}
use parquet_go.Bounds.Bytes.{IsByte, compare_bytes}

-- `value[:sizeLimit]` where the value is longer.
pub truncate_min : List ℕ → ℕ → List ℕ
truncate_min value limit = if ltb limit (length value) then take limit value else value

-- The loop of `incrementByteArrayInplace` comes to a byte after all bytes behind it have turned to 0:
-- the result, and whether the byte in front has to be incremented too.
pub increment_loop : List ℕ → List ℕ × Bool
increment_loop [] = ([], true)
increment_loop (b ∷ bs) =
    let (bs', carry) = increment_loop bs in
    if carry then ((b + 1) % 256 ∷ bs', (b + 1) % 256 == 0) else (b ∷ bs', false)

-- `value[i] = 0xFF` for all i.
abbrev pub ones : List ℕ → List ℕ
ones bs = map (λ _. 0xff) bs

pub increment : List ℕ → List ℕ
unfolding increment_loop
increment value =
    let (value', overflow) = increment_loop value in if overflow then ones value' else value'

pub truncate_max : List ℕ → ℕ → List ℕ
unfolding increment
truncate_max value limit = if ltb limit (length value) then increment (take limit value) else value

compare_self : (a : List ℕ) → compare_bytes a a ≡ Ordering.eq
unfolding compare_bytes
compare_self [] = refl
compare_self (a ∷ xs) = ground (arith, compare_self xs)

prefix-le : (n : ℕ) (a : List ℕ) → is_le (compare_bytes (take n a) a) ≡ true
unfolding compare_bytes
prefix-le zero [] = refl
prefix-le zero (a ∷ xs) = refl
prefix-le (suc n) [] = refl
prefix-le (suc n) (a ∷ xs) = ground (arith, prefix-le n xs)

-- A lower bound cut to the limit is at most the limit long, and still a lower bound of the value.
pub truncate_min-le :
    (value : List ℕ) (limit : ℕ)
    → (is_le (compare_bytes (truncate_min value limit) value) ≡ true)
      × (length (truncate_min value limit) ≤ limit ⊎ (truncate_min value limit ≡ value))
unfolding truncate_min
truncate_min-le value limit = elim (Bool-cases (ltb limit (length value))) [
  | inl p ↦ rw p (prefix-le limit value, inl (omega (arith, length-take limit value)))
  | inr p ↦ rw (p, compare_self value) (refl, inr refl)
]

-- All bytes are 0xff.
abbrev pub all_ones : List ℕ → Bool
all_ones [] = true
all_ones (b ∷ bs) = b == 0xff && all_ones bs

-- The increment carries out of the front exactly where all bytes are 0xff.
increment_loop-carry :
    (value : List ℕ) → All IsByte value → (increment_loop value).1 ≡ all_ones value
unfolding increment_loop
increment_loop-carry [] h = refl
increment_loop-carry (b ∷ bs) (h, hs) = ground (arith, increment_loop-carry bs hs)

-- Without a carry the result lies above all that begins with the bytes incremented.
increment_loop-lt :
    (n : ℕ) (value : List ℕ)
    → All IsByte value
    → n < length value
    → (increment_loop (take n value)).1 ≡ false
    → is_lt (compare_bytes value (increment_loop (take n value)).0) ≡ true
unfolding increment_loop compare_bytes
increment_loop-lt zero value h l e = cc
increment_loop-lt (suc n) [] h l e = absurd (omega arith)
increment_loop-lt (suc n) (b ∷ bs) (h, hs) l e = ground (arith, increment_loop-lt n bs hs)

take-IsByte : (n : ℕ) (value : List ℕ) → All IsByte value → All IsByte (take n value)
take-IsByte zero value h = tt
take-IsByte (suc n) [] h = tt
take-IsByte (suc n) (b ∷ bs) (h, hs) = (h, take-IsByte n bs hs)

-- An upper bound cut to the limit is still an upper bound of the value, if the value is short or has
-- a byte other than 0xff within the limit.
pub truncate_max-ge :
    (value : List ℕ) (limit : ℕ)
    → All IsByte value
    → (length value ≤ limit) ⊎ (all_ones (take limit value) ≡ false)
    → is_le (compare_bytes value (truncate_max value limit)) ≡ true
unfolding truncate_max increment
truncate_max-ge value limit h c = elim (Bool-cases (ltb limit (length value))) [
  | inr p ↦ rw (p, compare_self value)
  | inl p ↦
      let carry = increment_loop-carry (take limit value) (take-IsByte limit value h) in
      ground (arith, carry, increment_loop-lt limit value h)
]

all_ones_map : (a : List ℕ) → all_ones a ≡ true → ones a ≡ a
all_ones_map [] h = refl
all_ones_map (b ∷ bs) h = ground (arith, all_ones_map bs)

map-increment : (a : List ℕ) → ones (increment_loop a).0 ≡ ones a
unfolding increment_loop
map-increment [] = refl
map-increment (b ∷ bs) = ground (arith, map-increment bs)

prefix-lt : (n : ℕ) (a : List ℕ) → n < length a → is_lt (compare_bytes (take n a) a) ≡ true
unfolding compare_bytes
prefix-lt zero [] h = absurd (omega arith)
prefix-lt zero (a ∷ xs) h = refl
prefix-lt (suc n) [] h = absurd (omega arith)
prefix-lt (suc n) (a ∷ xs) h = ground (arith, prefix-lt n xs)

-- A longer value whose first `limit` bytes are all 0xff is cut to those bytes, which are no upper
-- bound: the result lies strictly below the value.
pub truncate_max_ones :
    (value : List ℕ) (limit : ℕ)
    → All IsByte value
    → limit < length value
    → all_ones (take limit value) ≡ true
    → (truncate_max value limit ≡ take limit value)
      × (is_lt (compare_bytes (truncate_max value limit) value) ≡ true)
unfolding truncate_max increment
truncate_max_ones value limit h l e =
    let carry = increment_loop-carry (take limit value) (take-IsByte limit value h) ∙ e in
    let cut : ones (increment_loop (take limit value)).0 ≡ take limit value =
      map-increment (take limit value) ∙ all_ones_map (take limit value) e in
    rw (lt→ltb limit (length value) l, carry, cut) (refl, prefix-lt limit value l)
