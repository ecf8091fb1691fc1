-- ===== src/Encoding/Bitpack/Fields.antt =====
-- Numbers that are joined are parted again, and the bytes of a number are those of its words.
use native.Mathlib.Nat.{mul-le-mul_left, mod-lt, div-add-mod, mod-eq_of_lt}
use parquet_go.Prelude.{
  ℕ, zero, suc, ◌+◌, ◌*◌, ◌/◌, ◌%◌, ◌^◌, ◌≤◌, ◌<◌, ◌≡◌, refl, ap, sym, ◌∙◌, List, [], ◌∷◌, ◌++◌,
  length, take, map, flat, All, All-append, le_bytes, of_le_bytes, arith, two_pow_add, div_mod_of,
}
use parquet_go.Encoding.Bitpack.{joined, parted}

pub parted-joined :
    (w n : ℕ) (vs : List ℕ)
    → All (λ v. v < 2 ^ w) vs
    → n ≤ length vs
    → parted w n (joined w vs) ≡ take n vs
parted-joined w zero vs h l = refl
parted-joined w (suc n) [] h l = absurd (omega arith)
parted-joined w (suc n) (v ∷ vs) (h, hs) l =
    let (quotient, remainder) = div_mod_of v (2 ^ w) (joined w vs) h (joined w (v ∷ vs)) refl in
    rw (quotient, remainder, parted-joined w n vs hs (omega arith))

pub joined-lt : (w : ℕ) (vs : List ℕ) → All (λ v. v < 2 ^ w) vs → joined w vs < 2 ^ (w * length vs)
joined-lt w [] h = let e : w * 0 ≡ 0 = omega arith in rw e (omega arith)
joined-lt w (v ∷ vs) (h, hs) =
    let n = length vs in
    let e : w * suc n ≡ w + w * n = omega arith in
    let below : joined w vs + 1 ≤ 2 ^ (w * n) = omega (arith, joined-lt w vs hs) in
    rw e (omega (arith, two_pow_add w (w * n), mul-le-mul_left (2 ^ w) below))

byte_power_suc : (k : ℕ) → 256 ^ suc k ≡ 256 * 256 ^ k
byte_power_suc k = omega arith

byte_power_pos : (k : ℕ) → 0 < 256 ^ k
byte_power_pos zero = omega arith
byte_power_pos (suc k) = omega (arith, byte_power_suc k, byte_power_pos k)

pub power_of_bytes : (k : ℕ) → 256 ^ k ≡ 2 ^ (8 * k)
power_of_bytes zero = refl
power_of_bytes (suc k) =
    let e : 8 * suc k ≡ 8 + 8 * k = omega arith in
    rw e (omega (arith, byte_power_suc k, power_of_bytes k, two_pow_add 8 (8 * k)))

pub le_bytes-IsByte : (k u : ℕ) → All (λ c. c < 256) (le_bytes k u)
le_bytes-IsByte zero u = tt
le_bytes-IsByte (suc k) u = (omega arith, le_bytes-IsByte k (u / 256))

of_le_bytes-append :
    (k u : ℕ) (rest : List ℕ)
    → u < 256 ^ k
    → of_le_bytes (le_bytes k u ++ rest) ≡ u + 256 ^ k * of_le_bytes rest
of_le_bytes-append zero u rest h = omega arith
of_le_bytes-append (suc k) u rest h =
    let rest' = of_le_bytes rest in
    omega (
      arith,
      of_le_bytes-append k (u / 256) rest (omega (arith, byte_power_suc k)),
      ap (λ (t : ℕ). t * rest') (byte_power_suc k),
    )

-- The bytes of words are those of the number that the words make.
pub of_le_bytes-words :
    (k w : ℕ)
    → 256 ^ k ≡ 2 ^ w
    → (words : List ℕ) → All (λ v. v < 2 ^ w) words
    → of_le_bytes (flat (map (le_bytes k) words)) ≡ joined w words
of_le_bytes-words k w e [] h = refl
of_le_bytes-words k w e (v ∷ vs) (h, hs) =
    of_le_bytes-append k v (flat (map (le_bytes k) vs)) (omega (arith, e))
    ∙ omega (
      arith,
      e,
      of_le_bytes-words k w e vs hs,
      ap (λ (t : ℕ). t * joined w vs) e,
      ap (λ (t : ℕ). 256 ^ k * t) (of_le_bytes-words k w e vs hs),
    )

pub words-IsByte : (k : ℕ) (words : List ℕ) → All (λ c. c < 256) (flat (map (le_bytes k) words))
words-IsByte k [] = tt
words-IsByte k (v ∷ vs) = All-append _ (le_bytes k v) _ (le_bytes-IsByte k v) (words-IsByte k vs)

-- Bytes cut off the top leave the remainder.
pub of_le_bytes-take :
    (k : ℕ) (bs : List ℕ)
    → All (λ c. c < 256) bs
    → of_le_bytes (take k bs) ≡ of_le_bytes bs % 256 ^ k
of_le_bytes-take zero bs h = omega arith
of_le_bytes-take (suc k) [] h = sym (mod-eq_of_lt (byte_power_pos (suc k)))
of_le_bytes-take (suc k) (b ∷ bs) (h, hs) =
    let x = of_le_bytes bs in
    let p = 256 ^ k in
    let parts = div-add-mod x p in
    let (quotient, remainder) =
      div_mod_of (b + 256 * (x % p)) (256 ^ suc k) (x / p)
        (omega (arith, byte_power_suc k, mod-lt x (byte_power_pos k))) (b + 256 * x)
        (omega (arith, parts, ap (λ (t : ℕ). t * (x / p)) (byte_power_suc k))) in
    omega (arith, remainder, of_le_bytes-take k bs hs)

pub take-IsByte : (k : ℕ) (bs : List ℕ) → All (λ c. c < 256) bs → All (λ c. c < 256) (take k bs)
take-IsByte zero bs h = tt
take-IsByte (suc k) [] h = tt
take-IsByte (suc k) (b ∷ bs) (h, hs) = (h, take-IsByte k bs hs)
