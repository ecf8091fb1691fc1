-- ===== src/Encoding/Varint/Laws.antt =====
-- `uvarint` reads what `put_uvarint` wrote.
use parquet_go.Prelude.{
  ℕ, zero, suc, ◌+◌, ◌*◌, ◌/◌, ◌%◌, ◌^◌, ◌<◌, ◌≡◌, refl, ap, ◌∙◌, List, [], ◌∷◌, ◌++◌, length,
  arith, ltb, inl, inr, Bool-cases,
}
use native.Mathlib.Numerals.{towards_suc}
use parquet_go.Encoding.Result.{IsU64}
use parquet_go.Encoding.Varint.{put_groups, put_uvarint, number, get_groups, uvarint}

next_power : (s : ℕ) → 2 ^ (s + 7) ≡ 128 * 2 ^ s
next_power s = simp towards_suc (omega arith)

-- The value of a number's first group and of the others, from bit `s` on.
groups : (u s x : ℕ) → x + u % 128 * 2 ^ s + u / 128 * 2 ^ (s + 7) ≡ x + u * 2 ^ s
groups u s x =
    let whole : u % 128 + 128 * (u / 128) ≡ u = omega arith in
    rw next_power (omega (arith, ap (λ (t : ℕ). t * 2 ^ s) whole))

get-put_groups :
    (k i u x s : ℕ) (rest : List ℕ)
    → i + k ≡ 9
    → u < 2 * 128 ^ k
    → get_groups (put_groups k u ++ rest) i x s ≡ number (x + u * 2 ^ s) rest
unfolding put_groups get_groups
get-put_groups zero i u x s rest e h = ground arith
get-put_groups (suc k) i u x s rest e h = elim (Bool-cases (ltb u 128)) [
  | inl p ↦ rw p (ground arith)
  | inr p ↦
      let small : u / 128 < 2 * 128 ^ k = omega arith in
      rw p (
        ground (
          arith,
          groups u s x,
          get-put_groups k (i + 1) (u / 128) (x + u % 128 * 2 ^ s) (s + 7) rest (omega arith) small,
        ))
]

-- Every uint64 is read back, and what follows it is left.
pub uvarint-put_uvarint :
    (u : ℕ) (rest : List ℕ) → IsU64 u → uvarint (put_uvarint u ++ rest) ≡ number u rest
unfolding uvarint put_uvarint
uvarint-put_uvarint u rest h =
    get-put_groups 9 0 u 0 0 rest refl (omega arith) ∙ ap (λ n. number n rest) (omega arith)

put_groups-pos : (k u : ℕ) → 0 < length (put_groups k u)
unfolding put_groups
put_groups-pos zero u = omega arith
put_groups-pos (suc k) u = ground arith

pub put_uvarint-pos : (u : ℕ) → 0 < length (put_uvarint u)
unfolding put_uvarint
put_uvarint-pos u = put_groups-pos 9 u

get_groups-shorter :
    (src : List ℕ) (i x s u : ℕ) (rest : List ℕ)
    → get_groups src i x s ≡ number u rest
    → length rest < length src
unfolding get_groups
get_groups-shorter [] i x s u rest e = cc
get_groups-shorter (b ∷ bs) i x s u rest e =
    ground (arith, get_groups-shorter bs (i + 1) (x + b % 128 * 2 ^ s) (s + 7) u rest)

-- A number read takes a byte at least.
pub uvarint-shorter :
    (src : List ℕ) (u : ℕ) (rest : List ℕ) → uvarint src ≡ number u rest → length rest < length src
unfolding uvarint
uvarint-shorter src u rest e = get_groups-shorter src 0 0 0 u rest e
