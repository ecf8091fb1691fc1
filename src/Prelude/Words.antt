-- ===== src/Prelude/Words.antt =====
-- Numbers as the bytes that `binary.LittleEndian` reads and writes.
use Prim.Native.Nat.{ℕ, zero, suc, ◌+◌, ◌*◌, ◌/◌, ◌%◌, ◌^◌, ◌<◌}
use mathlib.Core.Path.{◌≡◌, refl, ap}
use mathlib.Core.List.{List, [], ◌∷◌}
use native.Mathlib.Omega.{arith}
use parquet_go.Prelude.Lists.{length, All}

-- The `n` lowest bytes of a number, the lowest first.
abbrev pub le_bytes : ℕ → ℕ → List ℕ
le_bytes zero u = []
le_bytes (suc n) u = (u % 256) ∷ le_bytes n (u / 256)

abbrev pub of_le_bytes : List ℕ → ℕ
of_le_bytes [] = 0
of_le_bytes (b ∷ bs) = b + 256 * of_le_bytes bs

pub length-le_bytes : (n u : ℕ) → length (le_bytes n u) ≡ n
length-le_bytes zero u = refl
length-le_bytes (suc n) u = ap suc (length-le_bytes n (u / 256))

pub of_le_bytes-le_bytes : (n u : ℕ) → u < 256 ^ n → of_le_bytes (le_bytes n u) ≡ u
of_le_bytes-le_bytes zero u h = omega arith
of_le_bytes-le_bytes (suc n) u h = omega (arith, of_le_bytes-le_bytes n (u / 256) (omega arith))

pub le_bytes-of_le_bytes :
    (bs : List ℕ) → All (λ b. b < 256) bs → le_bytes (length bs) (of_le_bytes bs) ≡ bs
le_bytes-of_le_bytes [] h = refl
le_bytes-of_le_bytes (b ∷ bs) (h, hs) =
    let low : (b + 256 * of_le_bytes bs) % 256 ≡ b = omega arith in
    let high : (b + 256 * of_le_bytes bs) / 256 ≡ of_le_bytes bs = omega arith in
    rw (low, high, le_bytes-of_le_bytes bs hs)
