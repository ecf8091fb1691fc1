-- ===== src/Encoding/Delta/Decode/BlockLoop.antt =====
-- The decoder's loop reads what the encoder's wrote.
use mathlib.Core.Path.{subst}
use parquet_go.Prelude.{
  All-take, All-drop, ℕ, zero, suc, ◌-◌, ◌%◌, ◌^◌, ◌<◌, ◌≤◌, ◌≡◌, refl, ap, sym, ◌∙◌, List, [], ◌∷◌,
  ◌++◌, All, arith, length, take, drop, inl, inr, append_assoc, length-append, length-take,
  length-drop, length-zero, take-append-drop,
}
use parquet_go.Encoding.Result.{ok, ◌>>=◌}
use parquet_go.Encoding.Bitpack.{Bitpack, UnpacksFields}
use parquet_go.Encoding.Delta.Encode.{
  block_delta, block_min, block_sub, block_clear, block_bit_widths, block_header, put_mini_blocks,
  mini_blocks, encode_block, put_varint,
}
use parquet_go.Encoding.Delta.Encode as Encode
use parquet_go.Encoding.Delta.Encode.Blocks.{IsWidth}
use parquet_go.Encoding.Delta.Decode.{decode_block_header, mini_loop, decode_block, block_loop}
use parquet_go.Encoding.Delta.Decode.RoundTrip.{decode_block_header-block_header}
use parquet_go.Encoding.Delta.Decode.Blocks.{
  length-block_header, last-Small, encode_block-last, full_or_last, block_read,
}

module _ (b : Bitpack) (laws : UnpacksFields b) (w : ℕ) (i : IsWidth w) where
  -- One round of the decoder's loop.
  block_step :
      (fuel total : ℕ) (src : List ℕ) (last : ℕ)
      → 0 < length src
      → block_loop b w 4 32 (suc fuel) (suc total) src last ≡ (
          decode_block_header src 4 >>= λ (min_delta, widths, next).
          let (deltas, total', rest) = mini_loop b 32 widths (suc total) next in
          let (values, last') = decode_block w deltas (min_delta % 2 ^ w) last in
          block_loop b w 4 32 fuel total' rest last' >>= λ (more, end). ok (values ++ more, end))
  unfolding block_loop
  block_step fuel total [] last h = absurd (omega arith)
  block_step fuel total (c ∷ src) last h = refl

  -- A block that was encoded is read by a round, and the loop goes on behind it.
  block_read-step :
      (fuel : ℕ) (v : ℕ) (vs rest : List ℕ) (last : ℕ)
      → All (λ u. u < 2 ^ w) (v ∷ vs)
      → last < 2 ^ w
      → block_loop b w 4 32
          (suc fuel)
          (length (v ∷ vs))
          ((encode_block w (v ∷ vs) last).0 ++ rest)
          last
        ≡ (block_loop b w 4 32 fuel
              (length (v ∷ vs) - 128)
              rest
              (block_delta w (take 128 (v ∷ vs)) last).1
            >>= λ (more, end). ok (take 128 (v ∷ vs) ++ more, end))
  block_read-step fuel v vs rest last small below =
      let r = block_read b laws w i (v ∷ vs) last small below in
      let bytes =
        ap (λ l. l ++ rest) r.bytes
        ∙ append_assoc (block_header r.min_delta r.widths) r.body rest in
      let some : 0 < length (block_header r.min_delta r.widths ++ (r.body ++ rest)) = omega (
        arith,
        length-append (block_header r.min_delta r.widths) (r.body ++ rest),
        length-block_header r.min_delta r.widths,
        r.four,
      ) in
      let read = decode_block_header-block_header r.min_delta r.widths (r.body ++ rest) r.least in
      let read' =
        subst
          (λ k.
            decode_block_header (block_header r.min_delta r.widths ++ (r.body ++ rest)) k
            ≡ ok (r.min_delta, r.widths, r.body ++ rest))
          r.four read in
      ap (λ l. block_loop b w 4 32 (suc fuel) (length (v ∷ vs)) l last) bytes
      ∙ block_step fuel (length vs) (block_header r.min_delta r.widths ++ (r.body ++ rest)) last
          some
      ∙ rw (read', r.found rest, r.values)

  encode_loop_cons :
      (fuel v : ℕ) (vs : List ℕ) (last : ℕ)
      → Encode.block_loop w (suc fuel) (v ∷ vs) last
        ≡ (encode_block w (v ∷ vs) last).0
          ++ Encode.block_loop w fuel (drop 128 (v ∷ vs)) (encode_block w (v ∷ vs) last).1
  unfolding Encode.block_loop
  encode_loop_cons fuel v vs last = refl

  encode_loop_nil : (fuel last : ℕ) → Encode.block_loop w fuel [] last ≡ []
  unfolding Encode.block_loop
  encode_loop_nil fuel last = refl

  -- The last value of the decoder serves the encoder's next block.
  next_block :
      (fuel : ℕ) (src : List ℕ) (last : ℕ)
      → Encode.block_loop w fuel (drop 128 src) (encode_block w src last).1
        ≡ Encode.block_loop w fuel (drop 128 src) (block_delta w (take 128 src) last).1
  next_block fuel src last = elim (full_or_last src) [
    | inl e ↦
        let none =
          length-zero (drop 128 src) (omega (arith, e, length-drop 128 src, length-take 128 src)) in
        rw none (encode_loop_nil fuel _ ∙ sym (encode_loop_nil fuel _))
    | inr (h, full) ↦ ap (Encode.block_loop w fuel (drop 128 src)) (encode_block-last w src last h)
  ]

  length-encode_block :
      (src : List ℕ) (last : ℕ)
      → All (λ u. u < 2 ^ w) src
      → last < 2 ^ w
      → 0 < length (encode_block w src last).0
  length-encode_block src last small below =
      let r = block_read b laws w i src last small below in
      rw r.bytes (
        omega (
          arith,
          length-append (block_header r.min_delta r.widths) r.body,
          length-block_header r.min_delta r.widths,
          r.four,
        ))

  -- The decoder's loop reads the blocks that the encoder's wrote, given a round for every byte.
  pub block_loop-block_loop :
      (fuel fuel' : ℕ) (src rest : List ℕ) (last : ℕ)
      → length src ≤ fuel
      → length (Encode.block_loop w fuel src last) ≤ fuel'
      → All (λ v. v < 2 ^ w) src
      → last < 2 ^ w
      → block_loop b w 4 32 fuel' (length src) (Encode.block_loop w fuel src last ++ rest) last
        ≡ ok (src, rest)
  block_loop-block_loop fuel fuel' [] rest last h h' small below =
      rw (encode_loop_nil fuel last) (unfold block_loop in refl)
  block_loop-block_loop zero fuel' (v ∷ vs) rest last h h' small below = absurd (omega arith)
  block_loop-block_loop (suc fuel) zero (v ∷ vs) rest last h h' small below =
      let bytes = (encode_block w (v ∷ vs) last).0 in
      let more = Encode.block_loop w fuel (drop 128 (v ∷ vs)) (encode_block w (v ∷ vs) last).1 in
      absurd (
        omega (
          arith,
          ap length (encode_loop_cons fuel v vs last),
          length-append bytes more,
          length-encode_block (v ∷ vs) last small below,
        ))
  block_loop-block_loop (suc fuel) (suc fuel') (v ∷ vs) rest last h h' small below =
      let src = v ∷ vs in
      let bytes = (encode_block w src last).0 in
      let last' = (block_delta w (take 128 src) last).1 in
      let more = Encode.block_loop w fuel (drop 128 src) last' in
      let whole =
        encode_loop_cons fuel v vs last ∙ ap (λ l. bytes ++ l) (next_block fuel src last) in
      let shorter : length more ≤ fuel' = omega (
        arith,
        ap length whole,
        length-append bytes more,
        length-encode_block src last small below,
      ) in
      let ih =
        block_loop-block_loop fuel fuel' (drop 128 src) rest last'
          (omega (arith, length-drop 128 src)) shorter (All-drop _ 128 src small)
          (last-Small w (take 128 src) last (All-take _ 128 src small) below) in
      ap (λ l. block_loop b w 4 32 (suc fuel') (length src) (l ++ rest) last) whole
      ∙ ap (λ l. block_loop b w 4 32 (suc fuel') (length src) l last) (append_assoc bytes more rest)
      ∙ block_read-step fuel' v vs (more ++ rest) last small below
      ∙ ap
          (λ n. block_loop b w 4 32 fuel' n (more ++ rest) last' >>= λ (l, end).
            ok (take 128 src ++ l, end))
          (sym (length-drop 128 src))
      ∙ ap (λ r. r >>= λ (l, end). ok (take 128 src ++ l, end)) ih
      ∙ ap (λ l. ok (l, rest)) (take-append-drop 128 src)
