-- ===== src/Rows/Sorting/Prefix.antt =====
-- `MergeSortingColumns` finds the longest common prefix.
use mathlib.Core.Path.{subst}
use parquet_go.Prelude.{
  ◌≡◌, refl, ◌∙◌, sym, Bool, true, false, List, [], ◌∷◌, All, Bool-cases, inl, inr, arith,
}
use parquet_go.Rows.Sorting.{
  SortingColumn, same_bool, same_path, equal_sorting_column, common_sorting_prefix,
  merge_sorting_columns,
}

-- What the equality of names decides.
pub record DecidesNames {ℓ} {N : Type ℓ} (same_name : N → N → Bool) : Type ℓ where
  pub sound : (a b : N) → same_name a b ≡ true → a ≡ b
  pub complete : (a : N) → same_name a a ≡ true

-- The columns `p` are in front of `c`.
abbrev pub Prefix {ℓ} : {A : Type ℓ} → List A → List A → Type ℓ
Prefix [] c = Unit {ℓ}
Prefix (a ∷ p) [] = Unit {ℓ} × ⊥
Prefix (a ∷ p) (b ∷ c) = (a ≡ b) × Prefix p c

Prefix_refl {ℓ} : {A : Type ℓ} (p : List A) → Prefix p p
Prefix_refl [] = tt
Prefix_refl (a ∷ p) = (refl, Prefix_refl p)

Prefix_trans {ℓ} : {A : Type ℓ} (p q r : List A) → Prefix p q → Prefix q r → Prefix p r
Prefix_trans [] q r h k = tt
Prefix_trans (a ∷ p) [] r h k = absurd h.1
Prefix_trans (a ∷ p) (b ∷ q) [] h k = absurd k.1
Prefix_trans (a ∷ p) (b ∷ q) (c ∷ r) (h, hs) (k, ks) = (h ∙ k, Prefix_trans p q r hs ks)

module _ {ℓ} {N : Type ℓ} (same_name : N → N → Bool) (names : DecidesNames same_name) where
  same_path_sound : (a b : List N) → same_path same_name a b ≡ true → a ≡ b
  same_path_sound [] [] h = refl
  same_path_sound [] (b ∷ bs) h = cc
  same_path_sound (a ∷ xs) [] h = cc
  same_path_sound (a ∷ xs) (b ∷ bs) h = ground (arith, names.sound a b, same_path_sound xs bs)

  same_path_complete : (a : List N) → same_path same_name a a ≡ true
  same_path_complete [] = refl
  same_path_complete (a ∷ xs) = ground (arith, names.complete a, same_path_complete xs)

  same_bool_sound : (a b : Bool) → same_bool a b ≡ true → a ≡ b
  same_bool_sound true b h = sym h
  same_bool_sound false true h = cc
  same_bool_sound false false h = refl

  equal_sound : (a b : SortingColumn N) → equal_sorting_column same_name a b ≡ true → a ≡ b
  unfolding equal_sorting_column
  equal_sound a b h =
      let p : a.path ≡ b.path = ground (arith, same_path_sound a.path b.path) in
      let d : a.descending ≡ b.descending =
        ground (arith, same_bool_sound a.descending b.descending) in
      let n : a.nulls_first ≡ b.nulls_first =
        ground (arith, same_bool_sound a.nulls_first b.nulls_first) in
      λ i. record { path = p i; descending = d i; nulls_first = n i }

  equal_complete : (a : SortingColumn N) → equal_sorting_column same_name a a ≡ true
  unfolding equal_sorting_column
  equal_complete a = ground (arith, same_path_complete a.path)

  common-Prefix_left :
      (a b : List (SortingColumn N)) → Prefix (common_sorting_prefix same_name a b) a
  unfolding common_sorting_prefix
  common-Prefix_left [] b = tt
  common-Prefix_left (a ∷ xs) [] = tt
  common-Prefix_left (a ∷ xs) (b ∷ bs) = elim (Bool-cases (equal_sorting_column same_name a b)) [
    | inl e ↦ rw (e, common_sorting_prefix) (refl, common-Prefix_left xs bs)
    | inr e ↦ rw (e, common_sorting_prefix) tt
  ]

  common-Prefix_right :
      (a b : List (SortingColumn N)) → Prefix (common_sorting_prefix same_name a b) b
  unfolding common_sorting_prefix
  common-Prefix_right [] b = tt
  common-Prefix_right (a ∷ xs) [] = tt
  common-Prefix_right (a ∷ xs) (b ∷ bs) = elim (Bool-cases (equal_sorting_column same_name a b)) [
    | inl e ↦ rw (e, common_sorting_prefix) (equal_sound a b e, common-Prefix_right xs bs)
    | inr e ↦ rw (e, common_sorting_prefix) tt
  ]

  common-greatest :
      (p a b : List (SortingColumn N))
      → Prefix p a
      → Prefix p b
      → Prefix p (common_sorting_prefix same_name a b)
  unfolding common_sorting_prefix
  common-greatest [] a b h k = tt
  common-greatest (c ∷ p) [] b h k = absurd h.1
  common-greatest (c ∷ p) (a ∷ xs) [] h k = absurd k.1
  common-greatest (c ∷ p) (a ∷ xs) (b ∷ bs) (h, hs) (k, ks) =
      let equal : equal_sorting_column same_name a b ≡ true =
        subst (λ d. equal_sorting_column same_name a d ≡ true) (sym h ∙ k) (equal_complete a) in
      rw (equal, common_sorting_prefix) (h, common-greatest p xs bs hs ks)

  -- The columns are in front of every list, and so is no longer one.
  pub record IsLongest (first : List (SortingColumn N)) (more : List (List (SortingColumn N)))
      (r : List (SortingColumn N)) : Type ℓ where
    pub of_first : Prefix r first
    pub of_more : All (Prefix r) more
    pub longest : (p : List (SortingColumn N)) → Prefix p first → All (Prefix p) more → Prefix p r

  -- `MergeSortingColumns` returns the longest list of sorting columns that is in front of each of those
  -- given, if the equality of names is right.
  pub merge_sorting_columns-IsLongest :
      (first : List (SortingColumn N)) (more : List (List (SortingColumn N)))
      → IsLongest first more (merge_sorting_columns same_name (first ∷ more))
  unfolding merge_sorting_columns
  merge_sorting_columns-IsLongest first [] = record {
    of_first = Prefix_refl first;
    of_more = tt;
    longest = λ p h k. h;
  }
  merge_sorting_columns-IsLongest first (columns ∷ more) =
      let both = common_sorting_prefix same_name first columns in
      let ih = merge_sorting_columns-IsLongest both more in
      let r = merge_sorting_columns same_name (both ∷ more) in
      record {
        of_first = Prefix_trans r both first ih.of_first (common-Prefix_left first columns);
        of_more = (
          Prefix_trans r both columns ih.of_first (common-Prefix_right first columns),
          ih.of_more,
        );
        longest = λ p h (k, ks). ih.longest p (common-greatest p first columns h k) ks;
      }
