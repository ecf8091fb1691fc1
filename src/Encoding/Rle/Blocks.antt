-- ===== src/Encoding/Rle/Blocks.antt =====
-- Encodings that a decoder reads block by block.
use parquet_go.Prelude.{
  ℕ, zero, suc, ◌/◌, ◌%◌, ◌<◌, ◌≤◌, ◌≡◌, refl, ap, ◌∙◌, false, List, [], ◌∷◌, ◌++◌, length, ltb,
  ◌==◌, arith, append-nil, append_assoc, length-append,
}
use parquet_go.Encoding.Result.{Result, ok, IsU64}
use parquet_go.Encoding.Varint.{put_uvarint, uvarint, number}
use parquet_go.Encoding.Varint.Laws.{uvarint-put_uvarint, put_uvarint-pos}
use parquet_go.Encoding.Rle.{max_supported_value_count}
use parquet_go.Encoding.Rle.Decode.{Reader, decode_loop, decode_blocks}

module _ (read : Reader) where
  -- The decoder goes through the bytes `enc` with fuel for the rest, and has appended the values.
  abbrev pub Encodes : List ℕ → List ℕ → Type 0
  Encodes enc values =
      (rest dst : List ℕ) (result : Result (List ℕ))
      → ((fuel : ℕ) → length rest ≤ fuel → decode_loop read fuel rest (dst ++ values) ≡ result)
      → (fuel : ℕ) → length (enc ++ rest) ≤ fuel
      → decode_loop read fuel (enc ++ rest) dst ≡ result

  pub Encodes-nil : Encodes [] []
  Encodes-nil rest dst result h fuel k = rw (← append-nil dst) (h fuel k)

  pub Encodes-append :
      (enc more values others : List ℕ)
      → Encodes enc values
      → Encodes more others
      → Encodes (enc ++ more) (values ++ others)
  Encodes-append enc more values others p q rest dst result h fuel k =
      rw (append_assoc enc more rest) (
        p (more ++ rest) dst result
          (λ f l.
            q rest (dst ++ values) result (λ g m. rw (append_assoc dst values others) (h g m)) f l)
          fuel (rw (append_assoc enc more rest) at k))

  loop_step :
      (fuel : ℕ) (src dst : List ℕ) (u : ℕ) (body values rest : List ℕ)
      → 0 < length src
      → uvarint src ≡ number u body
      → 0 < u / 2
      → u / 2 ≤ max_supported_value_count
      → read (u % 2 == 1) (u / 2) body ≡ ok (values, rest)
      → decode_loop read (suc fuel) src dst ≡ decode_loop read fuel rest (dst ++ values)
  unfolding decode_loop
  loop_step fuel [] dst u body values rest l e p m r = absurd (omega arith)
  loop_step fuel (b ∷ bs) dst u body values rest l e p m r =
      let nonzero : (u / 2 == 0) ≡ false = ground arith in
      let fits : ltb max_supported_value_count (u / 2) ≡ false = ground arith in
      rw (e, decode_loop) (rw (nonzero, fits, r) refl)

  -- A header with a count that the decoder accepts, and a body that is read whatever follows it.
  pub block-Encodes :
      (u : ℕ) (body values : List ℕ)
      → IsU64 u
      → 0 < u / 2
      → u / 2 ≤ max_supported_value_count
      → ((rest : List ℕ) → read (u % 2 == 1) (u / 2) (body ++ rest) ≡ ok (values, rest))
      → Encodes (put_uvarint u ++ body) values
  block-Encodes u body values hu p m r rest dst result h zero k = absurd (
      omega (
        arith,
        put_uvarint-pos u,
        length-append (put_uvarint u ++ body) rest,
        length-append (put_uvarint u) body,
      ))
  block-Encodes u body values hu p m r rest dst result h (suc fuel) k =
      let long : 0 < length ((put_uvarint u ++ body) ++ rest) = omega (
        arith,
        put_uvarint-pos u,
        length-append (put_uvarint u ++ body) rest,
        length-append (put_uvarint u) body,
      ) in
      let e : uvarint ((put_uvarint u ++ body) ++ rest) ≡ number u (body ++ rest) =
        ap uvarint (append_assoc (put_uvarint u) body rest)
        ∙ uvarint-put_uvarint u (body ++ rest) hu in
      loop_step fuel _ dst u (body ++ rest) values rest long e p m (r rest)
      ∙ h fuel (
          omega (
            arith,
            put_uvarint-pos u,
            length-append (put_uvarint u ++ body) rest,
            length-append (put_uvarint u) body,
          ))

  -- What is encoded as a whole decodes to the values, and the decoder's fuel is enough.
  pub decode_blocks-Encodes :
      (enc values : List ℕ) → Encodes enc values → decode_blocks read enc ≡ ok values
  unfolding decode_blocks decode_loop
  decode_blocks-Encodes enc values p =
      rw (append-nil enc) at
        (p [] [] (ok values) (λ f k. refl) (length enc) (rw append-nil (omega arith)))
