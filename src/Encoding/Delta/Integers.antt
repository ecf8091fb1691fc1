-- ===== src/Encoding/Delta/Integers.antt =====
-- The integers of binary_packed.go. An int32 or int64 is its bit pattern, a number below 2 ^ w for the
-- width w = 32 or 64, so that Go's wrapping operations are those modulo 2 ^ w.
pub mod Zigzag
use parquet_go.Prelude.{
  ℕ, zero, suc, ◌+◌, ◌-◌, ◌*◌, ◌/◌, ◌%◌, ◌^◌, Bool, List, [], ◌∷◌, if◌then◌else◌, ltb, ◌==◌,
}

abbrev pub add : ℕ → ℕ → ℕ → ℕ
add w a b = (a + b) % 2 ^ w

abbrev pub sub : ℕ → ℕ → ℕ → ℕ
sub w a b = (a + 2 ^ w - b) % 2 ^ w

-- `a < b` between signed integers: their patterns in order once the top bit is turned.
abbrev pub signed_lt : ℕ → ℕ → ℕ → Bool
signed_lt w a b = ltb (add w a (2 ^ (w - 1))) (add w b (2 ^ (w - 1)))

-- `int64(v)` of an int32.
abbrev pub extend : ℕ → ℕ → ℕ
extend w v = if ltb v (2 ^ (w - 1)) then v else v + 2 ^ 64 - 2 ^ w

-- The zigzag step of Go's `PutVarint` and `Varint`.
unfoldable pub zigzag : ℕ → ℕ
zigzag x = if ltb x (2 ^ 63) then 2 * x else 2 ^ 64 - 1 - (2 * x - 2 ^ 64)

unfoldable pub unzigzag : ℕ → ℕ
unzigzag u = if u % 2 == 1 then 2 ^ 64 - 1 - u / 2 else u / 2

-- `bits.Len32` and `bits.Len64`, for numbers below 2 ^ n.
unfoldable pub bit_length : ℕ → ℕ → ℕ
bit_length zero v = 0
bit_length (suc n) v = if v == 0 then 0 else suc (bit_length n (v / 2))
