-- ===== src/Encoding/Delta/Integers/Zigzag.antt =====
-- Laws of the integers.
use parquet_go.Prelude.{ℕ, zero, suc, ◌/◌, ◌^◌, ◌<◌, ◌≡◌, ◌==◌, arith, Bool-cases, inl, inr}
use parquet_go.Encoding.Result.{IsU64}
use parquet_go.Encoding.Delta.Integers.{zigzag, unzigzag, bit_length}

pub unzigzag-zigzag : (x : ℕ) → IsU64 x → (unzigzag (zigzag x) ≡ x) × IsU64 (zigzag x)
unfolding zigzag unzigzag
unzigzag-zigzag x h = ground arith

twice_below : (k v : ℕ) → v / 2 < 2 ^ k → v < 2 ^ suc k
twice_below k v h = omega arith

-- A number takes no more bits than its length.
pub lt-bit_length : (n v : ℕ) → v < 2 ^ n → v < 2 ^ bit_length n v
unfolding bit_length
lt-bit_length zero v h = omega arith
lt-bit_length (suc n) v h = elim (Bool-cases (v == 0)) [
  | inl p ↦ rw p (ground arith)
  | inr p ↦ rw p (twice_below (bit_length n (v / 2)) v (lt-bit_length n (v / 2) (omega arith)))
]
