-- ===== src/Encoding/Result.antt =====
-- What the encoders and decoders return.
use parquet_go.Prelude.{ℕ, ◌^◌, ◌<◌}

-- The errors, by what their messages say.
pub data Error : Type 0 where
  unexpected_eof overflow too_many invalid_bit_width invalid_argument invalid_length : Error

-- A value, an error, or the panic of a slice expression that is out of range. `stuck` is no outcome
-- of the code: a loop of the model has run out of fuel.
pub data Result {ℓ} (A : Type ℓ) : Type ℓ where
  ok : A → Result A
  err : Error → Result A
  panic : Result A
  stuck : Result A

infixl 5 ◌>>=◌
abbrev pub ◌>>=◌ {ℓ κ} : {A : Type ℓ} {B : Type κ} → Result A → (A → Result B) → Result B
ok a >>= f = f a
err e >>= f = err e
panic >>= f = panic
stuck >>= f = stuck

abbrev pub IsByte : ℕ → Type 0
IsByte b = b < 256

abbrev pub IsU64 : ℕ → Type 0
IsU64 u = u < 2 ^ 64
