-- ===== src/Rows/Merge/Run.antt =====
-- `runLength` finds the rows of a sorted window that come before the bound.
use mathlib.Core.Path.{subst}
use parquet_go.Prelude.{
  ℕ, zero, suc, ◌+◌, ◌-◌, ◌*◌, ◌/◌, ◌≤◌, ◌<◌, ◌≡◌, refl, ap, inl, inr, Bool, true, false, List, [],
  ◌∷◌, length, get_elem?, some, Ordering, arith, Bool-cases, is_le, IsOrder, le_refl, All, ltb,
  ◌==◌, min, ◌∙◌,
}
use parquet_go.Rows.Merge.{
  at_most, gallop, refine, refine_gallop, run_length_of, within_bound, run_length,
}

-- The rows in front of the result pass the test, and the others fail it.
pub record IsRun (within : ℕ → Bool) (len n : ℕ) : Type 0 where
  pub bounded : n ≤ len
  pub passed : (i : ℕ) → i < n → within i ≡ true
  pub failed : (i : ℕ) → n ≤ i → i < len → within i ≡ false

module _ (within : ℕ → Bool) (len : ℕ)
    (falling : (i j : ℕ) → i ≤ j → j < len → within j ≡ true → within i ≡ true) where
  bracket-IsRun :
      (lo hi : ℕ)
      → hi ≡ lo + 1
      → hi ≤ len
      → within lo ≡ true
      → (hi < len → within hi ≡ false)
      → IsRun within len hi
  bracket-IsRun lo hi s l p q = record {
    bounded = l;
    passed = λ i h. falling i lo (omega arith) (omega arith) p;
    failed = λ i h k. elim (Bool-cases (within i)) [
      | inl e ↦ cc (falling hi i h k e, q (omega arith))
      | inr e ↦ e
    ];
  }

  refine-IsRun :
      (fuel lo hi : ℕ)
      → hi ≤ lo + fuel
      → lo < hi
      → hi ≤ len
      → within lo ≡ true
      → (hi < len → within hi ≡ false)
      → (n : ℕ) × (refine within len fuel lo hi ≡ some n) × IsRun within len n
  unfolding refine
  refine-IsRun zero lo hi a b c p q = absurd (omega arith)
  refine-IsRun (suc fuel) lo hi a b c p q =
      let mid = (lo + hi) / 2 in
      elim (Bool-cases (ltb (lo + 1) hi)) [
        | inr e ↦
            let same : hi ≡ lo + 1 = ground arith in (hi, rw e refl, bracket-IsRun lo hi same c p q)
        | inl e ↦ elim (Bool-cases (within mid)) [
          | inl m ↦
              rw (e, refine)
                (rw (m, refine) (refine-IsRun fuel mid hi (ground arith) (ground arith) c m q))
          | inr m ↦
              rw (e, refine)
                (rw (m, refine)
                  (refine-IsRun fuel lo mid (ground arith) (ground arith) (ground arith) p
                    (λ _. m)))
        ]
      ]

  -- Where the galloping loop stops, the row at `lo` passes, and the one at `hi` fails if there is one.
  record Bracket (lo hi : ℕ) : Type 0 where
    apart : lo < hi
    inside : lo < len
    below : within lo ≡ true
    above : hi < len → within hi ≡ false

  gallop-Bracket :
      (fuel lo hi : ℕ)
      → len < hi + fuel
      → 0 < fuel
      → lo < hi
      → lo < len
      → within lo ≡ true
      → (lo' : ℕ) × (hi' : ℕ) × (gallop within len fuel lo hi ≡ some (lo', hi')) × Bracket lo' hi'
  unfolding gallop
  gallop-Bracket zero lo hi a z b c p = absurd (omega arith)
  gallop-Bracket (suc fuel) lo hi a z b c p = elim (Bool-cases (ltb hi len)) [
    | inr e ↦ (
      lo,
      hi,
      rw e refl,
      record { apart = b; inside = c; below = p; above = λ h. absurd (ground arith) },
    )
    | inl e ↦ elim (Bool-cases (within hi)) [
      | inl m ↦
          rw (e, gallop)
            (rw (m, gallop)
              (gallop-Bracket fuel hi (hi * 2) (omega arith) (ground arith) (omega arith)
                (ground arith) m))
      | inr m ↦
          (lo, hi, rw e (rw m refl), record { apart = b; inside = c; below = p; above = λ _. m })
    ]
  ]

  refine_gallop-IsRun :
      0 < len
      → within 0 ≡ true
      → (n : ℕ) × (refine_gallop within len (gallop within len (len + 1) 0 1) ≡ some n)
        × IsRun within len n
  refine_gallop-IsRun l m =
      let (lo, hi, found, bracket) =
        gallop-Bracket (len + 1) 0 1 (omega arith) (omega arith) (omega arith) l m in
      let top = min hi len in
      let above : top < len → within top ≡ false =
        λ h. let same : top ≡ hi = omega arith in ap within same ∙ bracket.above (omega arith) in
      let (n, result, run) =
        refine-IsRun (len + 1) lo top (omega arith) (omega (arith, bracket.apart, bracket.inside))
          (omega arith) bracket.below above in
      (n, rw found result, run)

  none_pass : within 0 ≡ false → (i : ℕ) → 0 ≤ i → i < len → within i ≡ false
  none_pass m i h k = elim (Bool-cases (within i)) [ inl q ↦ cc (falling 0 i h k q, m) | inr q ↦ q ]

  run_length_of-IsRun : (n : ℕ) × (run_length_of within len ≡ some n) × IsRun within len n
  unfolding run_length_of
  run_length_of-IsRun = elim (Bool-cases (len == 0)) [
    | inl e ↦ (
      0,
      rw e refl,
      record {
        bounded = omega arith;
        passed = λ i h. absurd (omega arith);
        failed = λ i h k. absurd (ground arith);
      },
    )
    | inr e ↦ elim (Bool-cases (within 0)) [
      | inr m ↦ (
        0,
        rw e (rw m refl),
        record {
          bounded = omega arith;
          passed = λ i h. absurd (omega arith);
          failed = none_pass m;
        },
      )
      | inl m ↦ elim (Bool-cases (within (len - 1))) [
        | inl q ↦ (
          len,
          rw e (rw m (rw q refl)),
          record {
            bounded = omega arith;
            passed = λ i h. falling i (len - 1) (omega arith) (ground arith) q;
            failed = λ i h k. absurd (omega arith);
          },
        )
        | inr q ↦
            let (n, result, run) = refine_gallop-IsRun (ground arith) m in
            (n, rw e (rw m (rw q result)), run)
      ]
    ]
  ]

-- No row of the window lies above a later one.
abbrev pub SortedRows {ℓ} : {R : Type ℓ} → (R → R → Ordering) → List R → Type 0
SortedRows compare [] = Unit {0}
SortedRows compare (r ∷ rs) = All (λ q. is_le (compare r q) ≡ true) rs × SortedRows compare rs

All-at {ℓ} :
    {R : Type ℓ} (P : R → Type 0) (rs : List R) (i : ℕ) (a : R)
    → All P rs
    → get_elem? rs i ≡ some a
    → P a
All-at P [] i a h e = cc
All-at P (r ∷ rs) zero a (h, hs) e = subst P (cc) h
All-at P (r ∷ rs) (suc i) a (h, hs) e = All-at P rs i a hs e

SortedRows-le {ℓ} :
    {R : Type ℓ} {compare : R → R → Ordering} (o : IsOrder compare) (window : List R)
    → SortedRows compare window
    → (i j : ℕ) (a b : R) → i ≤ j
    → get_elem? window i ≡ some a
    → get_elem? window j ≡ some b
    → is_le (compare a b) ≡ true
SortedRows-le o [] s i j a b h p q = cc
SortedRows-le {compare} o (r ∷ rs) (s, ss) zero zero a b h p q =
    subst (λ c. is_le (compare a c) ≡ true) (cc) (le_refl o a)
SortedRows-le {compare} o (r ∷ rs) (s, ss) zero (suc j) a b h p q =
    subst (λ c. is_le (compare c b) ≡ true) (cc) (All-at _ rs j b s q)
SortedRows-le o (r ∷ rs) (s, ss) (suc i) zero a b h p q = absurd (omega arith)
SortedRows-le o (r ∷ rs) (s, ss) (suc i) (suc j) a b h p q =
    SortedRows-le o rs ss i j a b (omega arith) p q

at_most-falling {ℓ} :
    {R : Type ℓ} {compare : R → R → Ordering} (o : IsOrder compare) (ties : Bool) (a b bound : R)
    → is_le (compare a b) ≡ true
    → at_most ties (compare b bound) ≡ true
    → at_most ties (compare a bound) ≡ true
at_most-falling o true a b bound p q = o.le_trans a b bound p q
at_most-falling o false a b bound p q =
    ground (arith, o.flip a bound, o.flip b bound, o.le_trans bound a b)

in_window {ℓ} :
    {R : Type ℓ} (window : List R) (i : ℕ)
    → i < length window
    → (a : R) × (get_elem? window i ≡ some a)
in_window [] i h = absurd (omega arith)
in_window (r ∷ rs) zero h = (r, refl)
in_window (r ∷ rs) (suc i) h = in_window rs i (omega arith)

within_bound-falling {ℓ} :
    {R : Type ℓ} {compare : R → R → Ordering} (o : IsOrder compare) (ties : Bool) (window : List R)
    (bound : R)
    → SortedRows compare window
    → (i j : ℕ) → i ≤ j
    → j < length window
    → within_bound compare ties window bound j ≡ true
    → within_bound compare ties window bound i ≡ true
within_bound-falling {compare} o ties window bound sorted i j h k q =
    let (a, ea) = in_window window i (omega arith) in
    let (b, eb) = in_window window j k in
    let last = rw (eb, within_bound) at q in
    rw (ea, within_bound)
      (at_most-falling o ties a b bound (SortedRows-le o window sorted i j a b h ea eb) last)

-- For an order and a window sorted by it, `runLength` ends, and answers the number of leading rows that
-- come before the bound, ties with it included or not: it counts those in front of its answer and none
-- behind, as a scan of the whole window would.
pub run_length-IsRun {ℓ} :
    {R : Type ℓ} {compare : R → R → Ordering} (o : IsOrder compare) (ties : Bool) (window : List R)
    (bound : R)
    → SortedRows compare window
    → (n : ℕ) × (run_length compare ties window bound ≡ some n)
      × IsRun (within_bound compare ties window bound) (length window) n
unfolding run_length
run_length-IsRun {compare} o ties window bound sorted =
    run_length_of-IsRun (within_bound compare ties window bound) (length window)
      (within_bound-falling o ties window bound sorted)
