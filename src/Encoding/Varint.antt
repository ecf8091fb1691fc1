-- ===== src/Encoding/Varint.antt =====
-- `PutUvarint` and `Uvarint` of Go's encoding/binary, which the encodings use: groups of seven bits,
-- the lowest first, and the top bit set on each byte but the last.
pub mod Laws
use parquet_go.Prelude.{
  ℕ, zero, suc, ◌+◌, ◌-◌, ◌*◌, ◌/◌, ◌%◌, ◌^◌, Bool, List, [], ◌∷◌, if◌then◌else◌, ltb, ◌==◌, ◌&&◌,
}

-- A uint64 takes ten bytes at most: `k` is the number of bytes that may follow.
put_groups : ℕ → ℕ → List ℕ
put_groups zero u = u ∷ []
put_groups (suc k) u =
    let rest = put_groups k (u / 128) in if ltb u 128 then u ∷ [] else (u % 128 + 128) ∷ rest

unfoldable pub put_uvarint : ℕ → List ℕ
unfolding put_groups
put_uvarint u = put_groups 9 u

-- The result of `Uvarint`: the number with what follows it, or a count of bytes that is 0 (the input
-- ends within the number) or negative (the number does not fit).
pub data Decoded : Type 0 where
  number : ℕ → List ℕ → Decoded
  short : Decoded
  too_big : Decoded

-- The loop is at byte `i` with the bits `x` found so far; `s` is 7 * i.
get_groups : List ℕ → ℕ → ℕ → ℕ → Decoded
get_groups [] i x s = short
get_groups (b ∷ rest) i x s =
    let more = get_groups rest (i + 1) (x + b % 128 * 2 ^ s) (s + 7) in
    if i == 10
    then too_big
    else if ltb b 128
    then (if i == 9 && ltb 1 b then too_big else number (x + b * 2 ^ s) rest)
    else more

unfoldable pub uvarint : List ℕ → Decoded
unfolding get_groups
uvarint src = get_groups src 0 0 0
