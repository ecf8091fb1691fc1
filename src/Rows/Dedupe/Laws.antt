-- ===== src/Rows/Dedupe/Laws.antt =====
-- What `deduplicate` keeps.
use mathlib.Core.List.{Perm, perm_middle}
use mathlib.Core.List.Perm
use parquet_go.Prelude.{
  ◌≡◌, refl, ap, ◌∙◌, sym, true, List, [], ◌∷◌, ◌++◌, take, inl, inr, Ordering, is_lt, is_le, arith,
  Bool-cases, append-nil, append_assoc, if◌then◌else◌, IsOrder, All, All-imp, lt_of_lt_le,
  take-append_length,
}
use parquet_go.Rows.Dedupe.{Dedupe, Split, repeats, split_loop, deduplicate, non_empty}

module _ {ℓ} {V : Type ℓ} (compare : List V → List V → Ordering) where
  -- The rows that differ from the row kept before them.
  abbrev pub distinct : List V → List (List V) → List (List V)
  distinct last [] = []
  distinct last (row ∷ rows) =
      if repeats compare last row then distinct last rows else row ∷ distinct row rows

  -- The last row kept.
  abbrev pub last_of : List V → List (List V) → List V
  last_of last [] = last
  last_of last (row ∷ rows) = last_of (if repeats compare last row then last else row) rows

  split_loop-distinct :
      (s : Split V) (rows : List (List V))
      → ((split_loop compare s rows).uniq ≡ s.uniq ++ distinct s.last rows)
        × ((split_loop compare s rows).last ≡ last_of s.last rows)
  unfolding split_loop
  split_loop-distinct s [] = (sym (append-nil s.uniq), refl)
  split_loop-distinct s (row ∷ rows) = elim (Bool-cases (repeats compare s.last row)) [
    | inl p ↦ rw (p, split_loop) (split_loop-distinct (record s { dupe = s.dupe ++ row ∷ [] }) rows)
    | inr p ↦
        let (u, l) =
          split_loop-distinct (record s { last = row; uniq = s.uniq ++ row ∷ [] }) rows in
        rw (p, split_loop) (u ∙ append_assoc s.uniq (row ∷ []) (distinct row rows), l)
  ]

  -- The rows counted by the result are the distinct ones, and the state is the last of them.
  pub deduplicate-distinct :
      (d : Dedupe V) (rows : List (List V))
      → (take (deduplicate compare d rows).count (deduplicate compare d rows).rows
          ≡ distinct d.last_row rows)
        × ((deduplicate compare d rows).state.last_row ≡ last_of d.last_row rows)
  unfolding deduplicate
  deduplicate-distinct d rows =
      let s : Split V = record { last = d.last_row; uniq = []; dupe = [] } in
      let t = split_loop compare s rows in
      let (u, l) = split_loop-distinct s rows in (take-append_length t.uniq t.dupe ∙ u, l)

  moved_dupe :
      (s : Split V) (row : List V) (rows : List (List V))
      → (s.uniq ++ (s.dupe ++ row ∷ [])) ++ rows ≡ (s.uniq ++ s.dupe) ++ row ∷ rows
  moved_dupe s row rows = simp append_assoc

  moved_uniq :
      (s : Split V) (row : List V) (rows : List (List V))
      → Perm (((s.uniq ++ row ∷ []) ++ s.dupe) ++ rows) ((s.uniq ++ s.dupe) ++ row ∷ rows)
  moved_uniq s row rows =
      simp append_assoc (Perm.append (Perm.refl s.uniq) (Perm.symm (perm_middle s.dupe rows)))

  split_loop-perm :
      (s : Split V) (rows : List (List V))
      → Perm
          ((split_loop compare s rows).uniq ++ (split_loop compare s rows).dupe)
          ((s.uniq ++ s.dupe) ++ rows)
  unfolding split_loop
  split_loop-perm s [] = rw append-nil (Perm.refl _)
  split_loop-perm s (row ∷ rows) = elim (Bool-cases (repeats compare s.last row)) [
    | inl p ↦
        rw (p, split_loop)
          (rw (← moved_dupe s row rows)
            (split_loop-perm (record s { dupe = s.dupe ++ row ∷ [] }) rows))
    | inr p ↦
        rw (p, split_loop)
          (Perm.trans (split_loop-perm (record s { last = row; uniq = s.uniq ++ row ∷ [] }) rows)
            (moved_uniq s row rows))
  ]

  -- `deduplicate` moves rows and loses none.
  pub deduplicate-perm :
      (d : Dedupe V) (rows : List (List V)) → Perm (deduplicate compare d rows).rows rows
  unfolding deduplicate
  deduplicate-perm d rows =
      split_loop-perm (record { last = d.last_row; uniq = []; dupe = [] }) rows

  -- Of two batches in turn the distinct rows are those of both as one.
  pub distinct-append :
      (last : List V) (xs ys : List (List V))
      → distinct last (xs ++ ys) ≡ distinct last xs ++ distinct (last_of last xs) ys
  distinct-append last [] ys = refl
  distinct-append last (x ∷ xs) ys = elim (Bool-cases (repeats compare last x)) [
    | inl p ↦ rw p (distinct-append last xs ys)
    | inr p ↦ rw p (ap (λ l. x ∷ l) (distinct-append x xs ys))
  ]

  pub last_of-append :
      (last : List V) (xs ys : List (List V))
      → last_of last (xs ++ ys) ≡ last_of (last_of last xs) ys
  last_of-append last [] ys = refl
  last_of-append last (x ∷ xs) ys =
      last_of-append (if repeats compare last x then last else x) xs ys

  -- Each row stands before (strictly before) all later ones.
  abbrev pub Sorted : List (List V) → Type 0
  Sorted [] = Unit
  Sorted (r ∷ rs) = All (λ q. is_le (compare r q) ≡ true) rs × Sorted rs

  abbrev pub Strict : List (List V) → Type 0
  Strict [] = Unit
  Strict (r ∷ rs) = All (λ q. is_lt (compare r q) ≡ true) rs × Strict rs

  module _ (o : IsOrder compare) where
    le_of_lt : (a b : List V) → is_lt (compare a b) ≡ true → is_le (compare a b) ≡ true
    le_of_lt a b h = ground arith

    distinct-Strict_from :
        (last : List V) (rows : List (List V))
        → non_empty last ≡ true
        → All (λ q. is_le (compare last q) ≡ true) rows
        → All (λ q. non_empty q ≡ true) rows
        → Sorted rows
        → All (λ q. is_lt (compare last q) ≡ true) (distinct last rows)
          × Strict (distinct last rows)
    distinct-Strict_from last [] e h n s = (tt, tt)
    distinct-Strict_from last (r ∷ rs) e (h, hs) (n, ns) (s, ss) =
        elim (Bool-cases (repeats compare last r)) [
          | inl p ↦ rw p (distinct-Strict_from last rs e hs ns ss)
          | inr p ↦
              let (later, strict) = distinct-Strict_from r rs n s ns ss in
              let less : is_lt (compare last r) ≡ true = ground (arith, o.flip last r) in
              let step = λ (q : List V) (x : is_lt (compare r q) ≡ true).
                lt_of_lt_le o last r q less (le_of_lt r q x) in
              rw p ((less, All-imp step (distinct r rs) later), (later, strict))
        ]

    -- Of sorted rows, none of them empty, `deduplicate` on a fresh state keeps rows that rise
    -- strictly, so that no two of them are equal.
    pub deduplicate-Strict :
        (rows : List (List V))
        → Sorted rows
        → All (λ q. non_empty q ≡ true) rows
        → Strict (
            take
              (deduplicate compare (record { last_row = [] }) rows).count
              (deduplicate compare (record { last_row = [] }) rows).rows)
    deduplicate-Strict [] s n = rw ((deduplicate-distinct (record { last_row = [] }) []).0) tt
    deduplicate-Strict (r ∷ rs) (s, ss) (n, ns) =
        rw ((deduplicate-distinct (record { last_row = [] }) (r ∷ rs)).0)
          (distinct-Strict_from r rs n s ns ss)
