-- ===== src/Bounds/Indexer/Pages.antt =====
-- What is read back of the pages that were indexed.
use parquet_go.Prelude.{
  ℕ, suc, ◌+◌, ◌<◌, ◌≤◌, ◌≡◌, refl, ap, ◌∙◌, sym, Bool, true, false, List, [], ◌∷◌, ◌++◌, map,
  length, get_elem?, Option, none, some, ◌==◌, if◌then◌else◌, arith, append-nil, append_assoc,
  length-map, length-append, get_elem?-map, get_elem?-none, get_elem?-append_at,
}
use parquet_go.Bounds.Order.{Direction}
use parquet_go.Bounds.Indexer.{
  PageBounds, Indexer, reset, value_or, index_page, append_non_null, index_page_be128, column_index,
  num_pages, found, panic, null_page, unless_null, min_value, max_value,
}

module _ {ℓ} {V : Type ℓ} where
  -- The calls of `IndexPage` for the pages of a column chunk.
  pub index_pages :
      (Indexer V → PageBounds V → Indexer V) → Indexer V → List (PageBounds V) → Indexer V
  index_pages step i [] = i
  index_pages step i (p ∷ ps) = index_pages step (step i p) ps

  abbrev empty : Indexer V
  empty = record { null_pages = []; null_counts = []; min_values = []; max_values = [] }

  abbrev pub is_null : PageBounds V → Bool
  is_null p = p.num_values == p.num_nulls

  module _ (zero_value : V) where
    index_pages-fields :
        (i : Indexer V) (ps : List (PageBounds V))
        → ((index_pages (index_page zero_value) i ps).null_pages ≡ i.null_pages ++ map is_null ps)
          × ((index_pages (index_page zero_value) i ps).min_values
              ≡ i.min_values ++ map (λ p. value_or zero_value p.min) ps)
          × ((index_pages (index_page zero_value) i ps).max_values
              ≡ i.max_values ++ map (λ p. value_or zero_value p.max) ps)
    unfolding index_pages index_page
    index_pages-fields i [] = (
      sym (append-nil i.null_pages),
      sym (append-nil i.min_values),
      sym (append-nil i.max_values),
    )
    index_pages-fields i (p ∷ ps) =
        let (a, b, c) = index_pages-fields (index_page zero_value i p) ps in
        (
          a ∙ append_assoc i.null_pages (is_null p ∷ []) (map is_null ps),
          b ∙ append_assoc i.min_values _ _,
          c ∙ append_assoc i.max_values _ _,
        )

read_back :
    (nulls : List Bool) (values : List (List ℕ)) (j : ℕ) (b : Bool) (v : List ℕ)
    → get_elem? nulls j ≡ some b
    → get_elem? values j ≡ some v
    → unless_null (null_page nulls j) (get_elem? values j) ≡ found (if b then none else some v)
unfolding null_page
read_back [] values j b v p q = cc
read_back (n ∷ ns) values j true v p q = rw p
read_back (n ∷ ns) values j false v p q = rw (p, q)

unread :
    (nulls : List Bool) (values : List (List ℕ)) (j : ℕ)
    → get_elem? nulls j ≡ some false
    → get_elem? values j ≡ none
    → unless_null (null_page nulls j) (get_elem? values j) ≡ panic
unfolding null_page
unread [] values j p q = cc
unread (n ∷ ns) values j p q = rw (p, q)

module _ {ℓ} {V : Type ℓ} (bytes : V → List ℕ) (order : List V → Direction) where
  -- Of the pages indexed since a reset, `FileColumnIndex` answers for each one null if it holds nulls
  -- only, and otherwise the bytes of its bounds: of a column whose indexer keeps a value for
  -- every page.
  pub index_page-read :
      (zero_value : V) (i : Indexer V) (ps : List (PageBounds V)) (j : ℕ) (p : PageBounds V)
      → get_elem? ps j ≡ some p
      → let f = column_index bytes order (index_pages (index_page zero_value) (reset i) ps) in
        (num_pages f ≡ length ps)
        × (min_value f j
            ≡ found (if is_null p then none else some (bytes (value_or zero_value p.min))))
        × (max_value f j
            ≡ found (if is_null p then none else some (bytes (value_or zero_value p.max))))
  unfolding column_index min_value max_value num_pages reset
  index_page-read zero_value i ps j p h =
      let (a, b, c) = index_pages-fields zero_value empty ps in
      let nulls = get_elem?-map is_null ps j h in
      let mins =
        λ (get : PageBounds V → V). get_elem?-map bytes (map get ps) j (get_elem?-map get ps j h) in
      rw (a, b, c)
        (
          length-map ps is_null,
          read_back (map is_null ps) _ j (is_null p) _ nulls
              (mins (λ p. value_or zero_value p.min)),
          read_back (map is_null ps) _ j (is_null p) _ nulls
              (mins (λ p. value_or zero_value p.max)),
        )

  -- The pages whose least value is no null.
  abbrev pub kept : List (PageBounds V) → ℕ
  kept [] = 0
  kept (p ∷ ps) = elim p.min [ none ↦ kept ps | some v ↦ suc (kept ps) ]

  kept-append : (ps : List (PageBounds V)) (p : PageBounds V) → kept (ps ++ p ∷ []) ≤ kept ps + 1
  kept-append [] p = ground arith
  kept-append (q ∷ ps) p = ground (arith, kept-append ps p)

  be128-fields :
      (i : Indexer V) (ps : List (PageBounds V))
      → ((index_pages index_page_be128 i ps).null_pages ≡ i.null_pages ++ map is_null ps)
        × (length ((index_pages index_page_be128 i ps).min_values) ≡ length i.min_values + kept ps)
  unfolding index_pages index_page_be128
  be128-fields i [] = (sym (append-nil i.null_pages), omega arith)
  be128-fields i (p ∷ ps) =
      let (a, b) = be128-fields (index_page_be128 i p) ps in
      (a ∙ append_assoc i.null_pages (is_null p ∷ []) (map is_null ps), b ∙ longer p.min)
    where
      longer :
          (m : Option V)
          → length (append_non_null i.min_values m) + kept ps
            ≡ length i.min_values + elim m [ none ↦ kept ps | some v ↦ suc (kept ps) ]
      longer none = refl
      longer (some v) = omega (arith, length-append i.min_values (v ∷ []))

  -- The indexer of 16-byte values keeps no value for a page of nulls. Behind such a page the values
  -- are out of step with the pages, and the bound of the last page, if that one is not null, is read
  -- out of range.
  pub index_page_be128-panics :
      (i : Indexer V) (ps : List (PageBounds V)) (p : PageBounds V)
      → kept ps < length ps
      → is_null p ≡ false
      → let f = column_index bytes order (index_pages index_page_be128 (reset i) (ps ++ p ∷ [])) in
        (num_pages f ≡ length ps + 1) × (min_value f (length ps) ≡ panic)
  unfolding column_index min_value num_pages reset
  index_page_be128-panics i ps p h n =
      let all = ps ++ p ∷ [] in
      let (a, b) = be128-fields empty all in
      let last : get_elem? (map is_null all) (length ps) ≡ some false =
        get_elem?-map is_null all (length ps) (get_elem?-append_at ps p []) ∙ ap some n in
      let short : length (map bytes ((index_pages index_page_be128 empty all).min_values))
          ≤ length ps =
        omega (
          arith,
          length-map ((index_pages index_page_be128 empty all).min_values) bytes,
          b,
          kept-append ps p,
          h,
        ) in
      rw a (
        length-map all is_null ∙ length-append ps (p ∷ []),
        unread (map is_null all) _ (length ps) last (get_elem?-none _ (length ps) short),
      )
