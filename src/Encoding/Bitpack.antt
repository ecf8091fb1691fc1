-- ===== src/Encoding/Bitpack.antt =====
-- The module github.com/parquet-go/bitpack, which the encodings call and which is not part of this
-- repository: its operations are parameters, with the behaviour that it documents.
pub mod Fields
pub mod Sample
use parquet_go.Prelude.{
  ℕ, zero, suc, ◌+◌, ◌*◌, ◌/◌, ◌%◌, ◌^◌, ◌≤◌, ◌<◌, ◌≡◌, List, [], ◌∷◌, length, All, of_le_bytes,
}

-- `ByteCount`, `Pack` and `Unpack`; the first number given to the last two is the bit width, and to
-- `unpack` the second one is the length of `dst`.
pub record Bitpack : Type 0 where
  pub byte_count : ℕ → ℕ
  pub pack : ℕ → List ℕ → List ℕ
  pub unpack : ℕ → ℕ → List ℕ → List ℕ

-- `ByteCount` is the least number of bytes that hold the bits.
pub record IsByteCount (b : Bitpack) : Type 0 where
  pub byte_count_lem : (bits : ℕ) → b.byte_count bits ≡ (bits + 7) / 8

-- `Unpack` fills `dst`.
pub record IsUnpack (b : Bitpack) : Type 0 where
  pub length-unpack : (w n : ℕ) (src : List ℕ) → length (b.unpack w n src) ≡ n

-- Numbers of `w` bits one behind the other, the first one lowest, as one number; and `n` numbers of `w`
-- bits from the low end of a number.
abbrev pub joined : ℕ → List ℕ → ℕ
joined w [] = 0
joined w (v ∷ vs) = v + 2 ^ w * joined w vs

abbrev pub parted : ℕ → ℕ → ℕ → List ℕ
parted w zero x = []
parted w (suc n) x = (x % 2 ^ w) ∷ parted w n (x / 2 ^ w)

-- `Unpack` reads the numbers of `w` bits that `src` holds from its low end, if it holds as many.
pub record UnpacksFields (b : Bitpack) : Type 0 where
  pub unpack_lem :
      (w n : ℕ) (src : List ℕ)
      → w ≤ 64
      → All (λ c. c < 256) src
      → n * w ≤ 8 * length src
      → b.unpack w n src ≡ parted w n (of_le_bytes src)
