-- ===== src/Search/Binary.antt =====
-- `binarySearch` finds the page that `linearSearch` finds, on ascending pages without nulls.
use native.Mathlib.Decide.{dec_lt}
use mathlib.Core.Path.{subst}
use parquet_go.Prelude.{
  ℕ, zero, suc, ◌+◌, ◌-◌, ◌/◌, ◌≤◌, ◌<◌, ◌≡◌, ap, inl, inr, Bool, true, false, Ordering, arith,
  Bool-cases, is_lt, is_gt, is_le, IsOrder, lt_of_lt_le, gt_of_gt_le, some, ◌∙◌, ltb, ltb→lt, ◌||◌,
}
use parquet_go.Search.{ColumnIndex, contains, binary_loop, verify_page, binary_search}
use parquet_go.Search.{linear_search, find}
use parquet_go.Search.Linear.{IsFirst, IsFirst-unique, linear_search-IsFirst}

-- The bounds of the pages do not fall from one page to the next.
pub record IsAscending {ℓ} {V : Type ℓ} (cmp : V → V → Ordering) (index : ColumnIndex V)
    : Type 0 where
  pub mins :
      (i j : ℕ)
      → i ≤ j
      → j < index.num_pages
      → is_le (cmp (index.min_value i) (index.min_value j)) ≡ true
  pub maxs :
      (i j : ℕ)
      → i ≤ j
      → j < index.num_pages
      → is_le (cmp (index.max_value i) (index.max_value j)) ≡ true

module _ {ℓ} {V : Type ℓ} {cmp : V → V → Ordering} (o : IsOrder cmp) (index : ColumnIndex V)
    (asc : IsAscending cmp index) (value : V) where
  -- Every page before `current` ends below the value; `top` is the end of the chunk, or a page that
  -- holds the value or starts above it.
  record Inv (current top : ℕ) : Type 0 where
    in_order : current ≤ top
    bounded : top ≤ index.num_pages
    left : (i : ℕ) → i < current → is_gt (cmp value (index.max_value i)) ≡ true
    right :
        top < index.num_pages
        → is_gt (cmp value (index.max_value top)) ≡ true
        → is_lt (cmp value (index.min_value top)) ≡ true

  not_above :
      (i : ℕ) → is_gt (cmp value (index.max_value i)) ≡ true → contains cmp index value i ≡ false
  not_above i h = ground arith

  not_below :
      (i : ℕ) → is_lt (cmp value (index.min_value i)) ≡ true → contains cmp index value i ≡ false
  not_below i h = ground (arith, o.flip value (index.min_value i))

  -- A page that starts above the value keeps it out of all later pages.
  none_after :
      (i j : ℕ)
      → is_lt (cmp value (index.min_value i)) ≡ true
      → i ≤ j
      → j < index.num_pages
      → contains cmp index value j ≡ false
  none_after i j h p q =
      not_below j (lt_of_lt_le o value (index.min_value i) (index.min_value j) h (asc.mins i j p q))

  -- A page that ends below the value keeps it out of all earlier pages.
  all_before :
      (i j : ℕ)
      → is_gt (cmp value (index.max_value i)) ≡ true
      → j < i + 1
      → i < index.num_pages
      → is_gt (cmp value (index.max_value j)) ≡ true
  all_before i j h p q =
      gt_of_gt_le o value (index.max_value i) (index.max_value j) h (asc.maxs j i (omega arith) q)

  holds :
      (i : ℕ)
      → is_lt (cmp value (index.min_value i)) ≡ false
      → is_gt (cmp value (index.max_value i)) ≡ false
      → contains cmp index value i ≡ true
  holds i p q = ground (arith, o.flip value (index.min_value i))

  abbrev misses : ℕ → Bool
  misses i = is_lt (cmp value (index.min_value i)) || is_gt (cmp value (index.max_value i))

  none_at_all :
      (current : ℕ)
      → Inv current current
      → current < index.num_pages
      → misses current ≡ true
      → (k : ℕ) → k < index.num_pages
      → contains cmp index value k ≡ false
  none_at_all current v h m k q = elim (dec_lt k current) [
    | yes p ↦ not_above k (v.left k p)
    | no p ↦ none_after current k low (omega arith) q
  ]
    where
      low : is_lt (cmp value (index.min_value current)) ≡ true
      low = ground (arith, v.right h)

  -- Where the loop stops, `verify_page` answers the first page.
  verify_page-IsFirst :
      (current : ℕ)
      → Inv current current
      → IsFirst cmp index value (verify_page cmp index value current)
  unfolding verify_page
  verify_page-IsFirst current v = elim (Bool-cases (ltb current index.num_pages)) [
    | inl p ↦ elim (Bool-cases (misses current)) [
      | inl m ↦
          rw (p, m)
            (record {
              bounded = omega arith;
              before = none_at_all current v (ltb→lt _ _ p) m;
              here = λ q. absurd (omega arith);
            })
      | inr m ↦
          rw (p, m)
            (record {
              bounded = v.bounded;
              before = λ k q. not_above k (v.left k q);
              here = λ _. holds current (ground arith) (ground arith);
            })
    ]
    | inr p ↦ rw p (record {
      bounded = v.bounded;
      before = λ k q. not_above k (v.left k q);
      here = λ q. absurd (ground arith);
    })
  ]

  abbrev Stops : ℕ → ℕ → ℕ → Type 0
  Stops fuel current top =
      (r : ℕ) × (binary_loop cmp index value fuel current top ≡ some r) × Inv r r

  binary_loop-Inv :
      (fuel current top : ℕ) → top < current + fuel → Inv current top → Stops fuel current top
  unfolding binary_loop
  binary_loop-Inv zero current top h v = absurd (omega (arith, v.in_order))
  binary_loop-Inv (suc fuel) current top h v = elim (Bool-cases (ltb current top)) [
    | inr p ↦
        let e : top ≡ current = ground (arith, v.in_order) in
        (current, rw p, subst (λ t. Inv current t) e v)
    | inl p ↦ elim (Bool-cases (is_lt (cmp value (index.min_value next)))) [
      | inl a ↦ rw (p, a) (binary_loop-Inv fuel current next (bound p) (go_left p (λ _ _. a)))
      | inr a ↦ elim (Bool-cases (is_gt (cmp value (index.max_value next)))) [
        | inl b ↦
            rw (p, a, b)
              (binary_loop-Inv fuel (next + 1) top (omega arith) (record {
                in_order = below p;
                bounded = v.bounded;
                left = λ i q. all_before next i b q (omega (arith, below p, v.bounded));
                right = v.right;
              }))
        | inr b ↦ rw (p, a, b) (binary_loop-Inv fuel current next (bound p) (go_left p (λ _ c. cc)))
      ]
    ]
  ]
    where
      next : ℕ
      next = (top - current) / 2 + current

      below : ltb current top ≡ true → next + 1 ≤ top
      below p = let q : current < top = ltb→lt _ _ p in omega arith

      bound : ltb current top ≡ true → next < current + fuel
      bound p = omega (arith, below p)

      go_left :
          ltb current top ≡ true
          → (next < index.num_pages
              → is_gt (cmp value (index.max_value next)) ≡ true
              → is_lt (cmp value (index.min_value next)) ≡ true)
          → Inv current next
      go_left p r = record {
        in_order = omega arith;
        bounded = omega (arith, below p, v.bounded);
        left = v.left;
        right = r;
      }

  binary_search-IsFirst :
      (r : ℕ) × (binary_search cmp index value ≡ some r) × IsFirst cmp index value r
  unfolding binary_search
  binary_search-IsFirst =
      let (r, e, v) = binary_loop-Inv (index.num_pages + 1) 0 index.num_pages (omega arith) start in
      (verify_page cmp index value r, rw (e, binary_search), verify_page-IsFirst r v)
    where
      start : Inv 0 index.num_pages
      start = record {
        in_order = omega arith;
        bounded = omega arith;
        left = λ i p. absurd (omega arith);
        right = λ p. absurd (omega arith);
      }

  binary_search-eq-linear_search :
      binary_search cmp index value ≡ some (linear_search cmp index value)
  binary_search-eq-linear_search =
      let (r, e, f) = binary_search-IsFirst in
      let first = linear_search-IsFirst cmp index value in
      e ∙ ap some (IsFirst-unique cmp index value r (linear_search cmp index value) f first)

-- For an order, and where the index says that it ascends only if its bounds do, `Find` ends and
-- answers the page that `linearSearch` answers: binary search never skips an earlier page.
pub find-eq-linear_search {ℓ} :
    {V : Type ℓ} {cmp : V → V → Ordering} (o : IsOrder cmp) (index : ColumnIndex V)
    → (index.is_ascending ≡ true → IsAscending cmp index)
    → (value : V) → find cmp index value ≡ some (linear_search cmp index value)
unfolding find
find-eq-linear_search {cmp} o index asc value = elim (Bool-cases index.is_ascending) [
  | inl p ↦ rw p (binary_search-eq-linear_search o index (asc p) value)
  | inr p ↦ rw p
]

-- A null page has the null value for both bounds, and `CompareNullsLast` puts that value last.
-- On two pages of which the first is null, `binarySearch` answers `NumPages`, though
-- the second page encloses the value and `linearSearch` answers it.
pub binary_search_null_page {ℓ} :
    {V : Type ℓ} {cmp : V → V → Ordering} (o : IsOrder cmp) (index : ColumnIndex V) (value : V)
    → index.num_pages ≡ 2
    → is_lt (cmp value (index.min_value 0)) ≡ true
    → contains cmp index value 1 ≡ true
    → (binary_search cmp index value ≡ some 2) × (linear_search cmp index value ≡ 1)
unfolding binary_search linear_search
binary_search_null_page o index value n h c = (
  rw n (ground (arith, o.flip value (index.min_value 1))),
  rw n (ground (arith, o.flip value (index.min_value 0))),
)
