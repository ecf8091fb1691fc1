-- ===== src/Encoding/Delta/Encode/Packing.antt =====
-- The loop of `encodeMiniBlockInt32` and `encodeMiniBlockInt64` writes the values one behind the other.
use Prim.Native.Nat.{bit_or, bit_or-bitwise}
use mathlib.Core.Path.{subst}
use native.Mathlib.Nat.{
  mul-le-mul_right, mod-lt, div-add-mod, mod-eq_of_lt, div-eq_of_lt, div-lt_iff_lt-mul,
}
use parquet_go.Prelude.{
  ltb→lt, two_pow_le, ℕ, zero, suc, ◌+◌, ◌-◌, ◌*◌, ◌/◌, ◌%◌, ◌^◌, ◌≤◌, ◌<◌, ◌≡◌, refl, ap, sym, ◌∙◌,
  List, [], ◌∷◌, ◌++◌, length, replicate, get_or, set, All, arith, if◌then◌else◌, ltb, Bool-cases,
  inl, inr, append_assoc, length-append, two_pow_pos, two_pow_add, div_mod_of, bit_or_above,
  bit_and_low,
}
use parquet_go.Encoding.Delta.Encode.{mini_block_loop}

-- A value `v` shifted by `j` bits onto an `x` of `j` bits, cut at `j + k` bits.
cut_at :
    (j k x v : ℕ)
    → x < 2 ^ j
    → ((x + v * 2 ^ j) / 2 ^ (j + k) ≡ v / 2 ^ k)
      × ((x + v * 2 ^ j) % 2 ^ (j + k) ≡ x + v % 2 ^ k * 2 ^ j)
cut_at j k x v h =
    let p = 2 ^ j in
    let m = 2 ^ k in
    let u = v % m in
    let q = v / m in
    let parts = ap (λ (t : ℕ). t * p) (div-add-mod v m) in
    let whole = two_pow_add j k in
    let below : u + 1 ≤ m = omega (arith, mod-lt v (two_pow_pos k)) in
    div_mod_of (x + u * p) (2 ^ (j + k)) q (omega (arith, whole, mul-le-mul_right p below))
      (x + v * p) (omega (arith, parts, ap (λ (t : ℕ). t * q) whole))

-- What the two words of a round become, of `w` bits each.
record Shifted (j k x v w : ℕ) : Type 0 where
  low : bit_or x (v * 2 ^ j % 2 ^ w) ≡ (x + v * 2 ^ j) % 2 ^ w
  high : v / 2 ^ k ≡ (x + v * 2 ^ j) / 2 ^ w

shifted : (j k x v : ℕ) → x < 2 ^ j → Shifted j k x v (j + k)
shifted j k x v h =
    let (quotient, remainder) = cut_at j k x v h in
    let bare = (cut_at j k 0 v (two_pow_pos j)).1 in
    let cut : v * 2 ^ j % 2 ^ (j + k) ≡ v % 2 ^ k * 2 ^ j =
      ap (λ t. t % 2 ^ (j + k)) (let z : v * 2 ^ j ≡ 0 + v * 2 ^ j = omega arith in z)
      ∙ bare
      ∙ omega arith in
    record { low = rw cut (bit_or_above j x (v % 2 ^ k) h ∙ sym remainder); high = sym quotient }

-- The words that are written from a word `x` of which `j` bits are used, with `m` words behind it.
unfoldable pub stream : ℕ → ℕ → ℕ → ℕ → List ℕ → ℕ → List ℕ
stream w width j x [] m = x ∷ replicate m 0
stream w width j x (v ∷ vs) zero = []
stream w width j x (v ∷ vs) (suc m) =
    let y = x + v * 2 ^ j in
    if ltb (j + width) w
    then stream w width (j + width) y vs (suc m)
    else (y % 2 ^ w) ∷ stream w width (j + width - w) (y / 2 ^ w) vs m

get_or-at :
    (front : List ℕ) (a : ℕ) (rest : List ℕ) → get_or (front ++ a ∷ rest) (length front) 0 ≡ a
get_or-at [] a rest = refl
get_or-at (f ∷ front) a rest = get_or-at front a rest

get_or-next :
    (front : List ℕ) (a b : ℕ) (rest : List ℕ)
    → get_or (front ++ a ∷ b ∷ rest) (length front + 1) 0 ≡ b
get_or-next [] a b rest = refl
get_or-next (f ∷ front) a b rest =
    let e : suc (length front) + 1 ≡ suc (length front + 1) = omega arith in
    rw e (get_or-next front a b rest)

set-at :
    (front : List ℕ) (a : ℕ) (rest : List ℕ) (c : ℕ)
    → set (front ++ a ∷ rest) (length front) c ≡ front ++ c ∷ rest
set-at [] a rest c = refl
set-at (f ∷ front) a rest c = ap (λ l. f ∷ l) (set-at front a rest c)

set-next :
    (front : List ℕ) (a b : ℕ) (rest : List ℕ) (c : ℕ)
    → set (front ++ a ∷ b ∷ rest) (length front + 1) c ≡ front ++ a ∷ c ∷ rest
set-next [] a b rest c = refl
set-next (f ∷ front) a b rest c =
    let e : suc (length front) + 1 ≡ suc (length front + 1) = omega arith in
    rw e (ap (λ l. f ∷ l) (set-next front a b rest c))

module _ (w width : ℕ) (fits : width ≤ w) where
  -- One round of the loop, at bit `j` of the word behind `front`.
  round :
      (front : List ℕ) (j x v : ℕ) (vs zs : List ℕ)
      → j < w
      → x < 2 ^ j
      → v < 2 ^ width
      → mini_block_loop w width (v ∷ vs) (w * length front + j) (front ++ x ∷ 0 ∷ zs)
        ≡ mini_block_loop w width vs
            (w * length front + j + width)
            (front ++ ((x + v * 2 ^ j) % 2 ^ w) ∷ ((x + v * 2 ^ j) / 2 ^ w) ∷ zs)
  unfolding mini_block_loop
  round front j x v vs zs h below small =
      let i = length front in
      let k = w - j in
      let width_is : j + k ≡ w = omega arith in
      let (at, bit) = div_mod_of j w i h (w * i + j) (omega arith) in
      let s = subst (Shifted j k x v) width_is (shifted j k x v below) in
      let kept = bit_and_low width v ∙ mod-eq_of_lt small in
      let free : bit_or 0 (v / 2 ^ k) ≡ v / 2 ^ k = bit_or-bitwise 0 (v / 2 ^ k) in
      let y = x + v * 2 ^ j in
      let first = set-at front x (0 ∷ zs) (y % 2 ^ w) in
      let second = set-next front (y % 2 ^ w) 0 zs (y / 2 ^ w) in
      rw (
        at,
        bit,
        get_or-at front x (0 ∷ zs),
        get_or-next front x 0 zs,
        kept,
        s.low,
        free,
        s.high,
        first,
        second,
      )

  filled : (j x v : ℕ) → x < 2 ^ j → v < 2 ^ width → x + v * 2 ^ j < 2 ^ (j + width)
  filled j x v h small =
      let below : v + 1 ≤ 2 ^ width = omega arith in
      omega (arith, two_pow_add j width, mul-le-mul_right (2 ^ j) below)

  small_of : (k y : ℕ) → y < 2 ^ k → k ≤ w → (y % 2 ^ w ≡ y) × (y / 2 ^ w ≡ 0)
  small_of k y h l =
      let below : y < 2 ^ w = omega (arith, two_pow_le k w l) in
      (mod-eq_of_lt below, div-eq_of_lt below)

  -- What passes the end of a word fits in the bits that it takes of the next one.
  carried : (j y : ℕ) → w ≤ j + width → y < 2 ^ (j + width) → y / 2 ^ w < 2 ^ (j + width - w)
  carried j y h below =
      let e : j + width - w + w ≡ j + width = omega arith in
      let parts = sym (two_pow_add (j + width - w) w) ∙ ap (λ t. 2 ^ t) e in
      (div-lt_iff_lt-mul (two_pow_pos w)).1 (omega (arith, parts))

  -- The loop is at a word of which it has used `j` bits, with enough words behind it.
  pub record Open (j x m : ℕ) (vs : List ℕ) : Type 0 where
    pub within : j < w
    pub used : x < 2 ^ j
    pub small : All (λ v. v < 2 ^ width) vs
    pub room : j + width * length vs ≤ w * m

  -- One value more in the same word, and into the next one.
  pub Open-same :
      (j x m v : ℕ) (vs : List ℕ)
      → Open j x m (v ∷ vs)
      → j + width < w
      → Open (j + width) (x + v * 2 ^ j) m vs
  Open-same j x m v vs o h = record {
    within = h;
    used = filled j x v o.used (o.small.0);
    small = o.small.1;
    room = omega (arith, o.room);
  }

  pub Open-next :
      (j x m v : ℕ) (vs : List ℕ)
      → Open j x (suc m) (v ∷ vs)
      → w ≤ j + width
      → Open (j + width - w) ((x + v * 2 ^ j) / 2 ^ w) m vs
  Open-next j x m v vs o h = record {
    within = omega (arith, o.within);
    used = carried j (x + v * 2 ^ j) h (filled j x v o.used (o.small.0));
    small = o.small.1;
    room = omega (arith, o.room);
  }

  pub Open-some : (j x v : ℕ) (vs : List ℕ) → 0 < width → Open j x zero (v ∷ vs) → ⊥
  Open-some j x v vs pos o = omega (arith, o.room)

  pub mini_block_loop-stream :
      (vs front : List ℕ) (j x m : ℕ)
      → 0 < width
      → Open j x m vs
      → mini_block_loop w width vs (w * length front + j) (front ++ x ∷ replicate m 0)
        ≡ front ++ stream w width j x vs m
  unfolding stream
  mini_block_loop-stream [] front j x m pos o = unfold mini_block_loop in refl
  mini_block_loop-stream (v ∷ vs) front j x zero pos o = absurd (Open-some j x v vs pos o)
  mini_block_loop-stream (v ∷ vs) front j x (suc m) pos o =
      let y = x + v * 2 ^ j in
      let step = round front j x v vs (replicate m 0) o.within o.used (o.small.0) in
      elim (Bool-cases (ltb (j + width) w)) [
        | inl e ↦
            let next = Open-same j x (suc m) v vs o (ltb→lt (j + width) w e) in
            let small = filled j x v o.used (o.small.0) in
            let whole = small_of (j + width) y small (omega (arith, ltb→lt (j + width) w e)) in
            let at : w * length front + j + width ≡ w * length front + (j + width) = omega arith in
            step
            ∙ rw (e, whole.0, whole.1, at)
                (mini_block_loop-stream vs front (j + width) y (suc m) pos next)
        | inr e ↦
            let over : w ≤ j + width = ground arith in
            let next = Open-next j x m v vs o over in
            let ih =
              mini_block_loop-stream vs (front ++ (y % 2 ^ w) ∷ []) (j + width - w) (y / 2 ^ w) m
                pos next in
            let longer = length-append front ((y % 2 ^ w) ∷ []) in
            let at : w * length front + j + width
                ≡ w * length (front ++ (y % 2 ^ w) ∷ []) + (j + width - w) =
              omega (arith, over, ap (λ (t : ℕ). w * t) longer) in
            let word = (y % 2 ^ w) ∷ [] in
            let rest = stream w width (j + width - w) (y / 2 ^ w) vs m in
            let left = append_assoc front word ((y / 2 ^ w) ∷ replicate m 0) in
            let right = append_assoc front word rest in step ∙ rw (e, at) (rw (left, right) at ih)
      ]
