-- ===== src/Encoding/Delta/Encode/Joined.antt =====
-- The words that the loop writes make the number of the values.
use native.Mathlib.Nat.{mod-lt, div-add-mod}
use parquet_go.Prelude.{
  ltb→lt, two_pow_le, ℕ, zero, suc, ◌+◌, ◌-◌, ◌*◌, ◌/◌, ◌%◌, ◌^◌, ◌≤◌, ◌<◌, ◌≡◌, refl, ap, sym, ◌∙◌,
  List, [], ◌∷◌, replicate, All, arith, ltb, Bool-cases, inl, inr, two_pow_pos, two_pow_add,
}
use parquet_go.Encoding.Bitpack.{joined}
use parquet_go.Encoding.Delta.Encode.Packing.{stream, Open, Open-same, Open-next, Open-some}

joined-zeros : (w m : ℕ) → (joined w (replicate m 0) ≡ 0) × All (λ u. u < 2 ^ w) (replicate m 0)
joined-zeros w zero = (refl, tt)
joined-zeros w (suc m) =
    let (none, zeros) = joined-zeros w m in
    (omega (arith, ap (λ (t : ℕ). 2 ^ w * t) none), (two_pow_pos w, zeros))

module _ (w width : ℕ) (fits : width ≤ w) where
  -- The words that are written make the number of the values.
  pub joined-stream :
      (vs : List ℕ) (j x m : ℕ)
      → 0 < width
      → Open w width fits j x m vs
      → (joined w (stream w width j x vs m) ≡ x + 2 ^ j * joined width vs)
        × All (λ u. u < 2 ^ w) (stream w width j x vs m)
  unfolding stream
  joined-stream [] j x m pos o =
      let below = two_pow_le j w (omega (arith, o.within)) in
      let (none, zeros) = joined-zeros w m in
      (omega (arith, ap (λ (t : ℕ). 2 ^ w * t) none), (omega (arith, below, o.used), zeros))
  joined-stream (v ∷ vs) j x zero pos o = absurd (Open-some w width fits j x v vs pos o)
  joined-stream (v ∷ vs) j x (suc m) pos o =
      let y = x + v * 2 ^ j in
      let more = joined width vs in
      elim (Bool-cases (ltb (j + width) w)) [
        | inl e ↦
            let next = Open-same w width fits j x (suc m) v vs o (ltb→lt (j + width) w e) in
            let (value, words) = joined-stream vs (j + width) y (suc m) pos next in
            rw (e, stream)
              (value ∙ omega (arith, ap (λ (t : ℕ). t * more) (two_pow_add j width)), words)
        | inr e ↦
            let over : w ≤ j + width = ground arith in
            let next = Open-next w width fits j x m v vs o over in
            let (value, words) = joined-stream vs (j + width - w) (y / 2 ^ w) m pos next in
            let c = j + width - w in
            let sum : w + c ≡ j + width = omega arith in
            let powers = sym (two_pow_add w c) ∙ ap (λ t. 2 ^ t) sum ∙ two_pow_add j width in
            let whole : y % 2 ^ w + 2 ^ w * joined w (stream w width c (y / 2 ^ w) vs m)
                ≡ x + 2 ^ j * (v + 2 ^ width * more) =
              omega (
                arith,
                ap (λ (t : ℕ). 2 ^ w * t) value,
                div-add-mod y (2 ^ w),
                ap (λ (t : ℕ). t * more) powers,
              ) in
            rw (e, stream) (whole, (mod-lt y (two_pow_pos w), words))
      ]
