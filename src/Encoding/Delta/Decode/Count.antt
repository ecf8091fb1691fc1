-- ===== src/Encoding/Delta/Decode/Count.antt =====
-- A decoder that succeeds has found as many values as its header announces.
use parquet_go.Prelude.{
  ℕ, zero, suc, ◌+◌, ◌-◌, ◌*◌, ◌/◌, ◌%◌, ◌^◌, ◌<◌, ◌≤◌, ◌≡◌, refl, ap, List, [], ◌∷◌, ◌++◌, length,
  arith, ◌==◌, length-append, length-replicate, length-drop, min, Bool-cases, inl, inr,
}
use mathlib.Core.Path.{subst}
use parquet_go.Encoding.Result.{Result, Error, ok, err, panic, stuck, ◌>>=◌}
use parquet_go.Encoding.Bitpack.{Bitpack, IsUnpack}
use parquet_go.Encoding.Varint.{uvarint, Decoded, number, short, too_big}
use parquet_go.Encoding.Varint.Laws.{uvarint-shorter}
use parquet_go.Encoding.Delta.Integers.{extend}
use parquet_go.Encoding.Delta.Decode.{
  mini_values, mini_rest, decode_uvarint, decode_varint, Header, decode_header, decode_block_header,
  decode_block, mini_loop, block_loop, decode_values, decode_int32, decode_int64,
}

-- What a decoder returns, if it succeeds, has the length.
abbrev pub Holds : ℕ → Result (List ℕ × List ℕ) → Type 0
Holds n (ok (values, rest)) = length values ≡ n
Holds n (err e) = Unit
Holds n panic = Unit
Holds n stuck = ⊥

length-decode_block :
    (w : ℕ) (deltas : List ℕ) (m last : ℕ) → length (decode_block w deltas m last).0 ≡ length deltas
unfolding decode_block
length-decode_block w [] m last = refl
length-decode_block w (d ∷ ds) m last = ap suc (length-decode_block w ds m _)

length-mini_rest :
    (minis width : ℕ) (src : List ℕ) → length (mini_rest minis width src) ≤ length src
length-mini_rest minis width src = ground (arith, length-drop (minis * width / 8) src)

-- The header of a block is read, and the input behind it is shorter, or there is an error.
data HeaderRead (n : ℕ) : Result (ℕ × List ℕ × List ℕ) → Type 0 where
  read : (m : ℕ) (widths rest : List ℕ) → length rest < n → HeaderRead n (ok (m, widths, rest))
  refused : (e : Error) → HeaderRead n (err e)

header_read : (src : List ℕ) (minis : ℕ) → HeaderRead (length src) (decode_block_header src minis)
unfolding decode_block_header decode_varint decode_uvarint
header_read src minis = go (uvarint src) refl
  where
    go : (d : Decoded) → uvarint src ≡ d → HeaderRead (length src) (decode_block_header src minis)
    go (number u more) p =
        rw (p, decode_uvarint)
          (read _ _ _ (omega (arith, uvarint-shorter src u more p, length-drop minis more)))
    go short p = rw (p, decode_uvarint) (refused _)
    go too_big p = rw (p, decode_uvarint) (refused _)

module _ (b : Bitpack) (laws : IsUnpack b) where
  length-mini_values :
      (minis width n : ℕ) (src : List ℕ) → length (mini_values b minis width n src) ≡ n
  unfolding mini_values
  length-mini_values minis width n src = elim (Bool-cases (width == 0)) [
    | inl p ↦ rw p (length-replicate n 0)
    | inr p ↦ rw p (laws.length-unpack width n _)
  ]

  -- The deltas found and the values missing make up what was missing before, and the input does
  -- not grow.
  mini_loop-count :
      (minis : ℕ) (widths : List ℕ) (total : ℕ) (src : List ℕ)
      → (length (mini_loop b minis widths total src).0 + (mini_loop b minis widths total src).1
          ≡ total)
        × (length (mini_loop b minis widths total src).2 ≤ length src)
  unfolding mini_loop
  mini_loop-count minis [] total src = (omega arith, omega arith)
  mini_loop-count minis (width ∷ widths) total src =
      let n = min minis total in
      let src' = mini_rest minis width src in
      let values = mini_values b minis width n src in
      let (count, shrink) = mini_loop-count minis widths (total - n) src' in
      let more = (mini_loop b minis widths (total - n) src').0 in
      elim (Bool-cases (total - n == 0)) [
        | inl p ↦
            let z : total - n ≡ 0 = ground arith in
            rw (p, mini_loop)
              (
                omega (arith, length-mini_values minis width n src, z),
                length-mini_rest minis width src,
              )
        | inr p ↦
            rw (p, mini_loop)
              (
                omega
                    (arith, length-append values more, length-mini_values minis width n src, count),
                omega (arith, shrink, length-mini_rest minis width src),
              )
      ]

  Counted : ℕ → List ℕ → Result (List ℕ × List ℕ) → Type 0
  Counted n values r = Holds (length values + n) (r >>= λ (more, end). ok (values ++ more, end))

  Holds-append :
      (n : ℕ) (values : List ℕ) (r : Result (List ℕ × List ℕ)) → Holds n r → Counted n values r
  unfolding Counted
  Holds-append n values (ok (more, end)) h = omega (arith, length-append values more, h)
  Holds-append n values (err e) h = tt
  Holds-append n values panic h = tt
  Holds-append n values stuck h = absurd h

  block_loop-Holds :
      (w minis per fuel total : ℕ) (src : List ℕ) (last : ℕ)
      → length src ≤ fuel
      → Holds total (block_loop b w minis per fuel total src last)
  unfolding block_loop Counted
  block_loop-Holds w minis per fuel zero src last h = refl
  block_loop-Holds w minis per fuel (suc total) [] last h = tt
  block_loop-Holds w minis per zero (suc total) (c ∷ src) last h = absurd (omega arith)
  block_loop-Holds w minis per (suc fuel) (suc total) (c ∷ src) last h =
      elim (header_read (c ∷ src) minis) as (λ r _. Holds (suc total) (r >>= round)) [
        | read m widths next p ↦
            let (count, shrink) = mini_loop-count per widths (suc total) next in
            let deltas = (mini_loop b per widths (suc total) next).0 in
            let missing = (mini_loop b per widths (suc total) next).1 in
            let rest = (mini_loop b per widths (suc total) next).2 in
            let values = (decode_block w deltas (m % 2 ^ w) last).0 in
            let last' = (decode_block w deltas (m % 2 ^ w) last).1 in
            let ih =
              block_loop-Holds w minis per fuel missing rest last' (omega (arith, shrink, p)) in
            subst (λ n. Holds n (round (m, widths, next)))
              (omega (arith, count, length-decode_block w deltas (m % 2 ^ w) last))
              (Holds-append missing values (block_loop b w minis per fuel missing rest last') ih)
        | refused e ↦ tt
      ]
    where
      round : ℕ × List ℕ × List ℕ → Result (List ℕ × List ℕ)
      round (m, widths, next) =
          let (deltas, total', rest) = mini_loop b per widths (suc total) next in
          let (values, last') = decode_block w deltas (m % 2 ^ w) last in
          block_loop b w minis per fuel total' rest last' >>= λ (more, end).
          ok (values ++ more, end)

  decode_values-Holds :
      (w : ℕ) (h : Header) (src : List ℕ) → Holds h.total_values (decode_values b w h src)
  unfolding decode_values Counted
  decode_values-Holds w h src = elim (Bool-cases (h.total_values == 0)) [
    | inl p ↦ rw p (ground arith)
    | inr p ↦
        let first = h.first_value % 2 ^ w in
        let per = h.block_size / h.num_mini_blocks in
        let n = h.total_values - 1 in
        let body = block_loop b w h.num_mini_blocks per (length src) n src first in
        let held =
          block_loop-Holds w h.num_mini_blocks per (length src) n src first (omega arith) in
        rw p (
          subst (λ k. Holds k (body >>= λ (values, rest). ok (first ∷ values, rest))) (ground arith)
            (Holds-append n (first ∷ []) body held))
  ]

  -- With an `Unpack` that fills `dst`, and a header that is read, each decoder returns as many values
  -- as the header announces, or an error or a panic: its loops never run out of fuel.
  pub decode-Counts :
      (src : List ℕ) (h : Header) (rest : List ℕ)
      → decode_header src ≡ ok (h, rest)
      → Holds h.total_values (decode_int32 b src) × Holds h.total_values (decode_int64 b src)
  unfolding decode_int32 decode_int64
  decode-Counts src h rest e = (
    rw e (elim (Bool-cases (h.total_values == 0)) [
      | inl p ↦ rw p (ground arith)
      | inr p ↦ rw p (elim (Bool-cases (extend 32 (h.first_value % 2 ^ 32) == h.first_value)) [
        | inl q ↦ let held = decode_values-Holds 32 h rest in rw q (rw (p, decode_values) at held)
        | inr q ↦ rw q tt
      ])
    ]),
    rw e (decode_values-Holds 64 h rest),
  )
