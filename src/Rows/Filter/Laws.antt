-- ===== src/Rows/Filter/Laws.antt =====
-- The filtering reader and writer against the list of rows that satisfy the predicate.
use parquet_go.Prelude.{
  ℕ, zero, suc, ◌+◌, ◌<◌, ◌≤◌, ◌≡◌, refl, ap, ◌∙◌, sym, Bool, false, List, [], ◌∷◌, ◌++◌, length,
  take, drop, inl, inr, arith, Bool-cases, Option, none, some, ltb, append-nil, append_assoc, min,
  take-append-drop, length-drop, length-zero,
}
use parquet_go.Rows.Stream.{Error, Read, delivered}
use parquet_go.Rows.Filter.{keep, read_loop, read_rows, Written, write_loop, write_rows}

module _ {ℓ} {R : Type ℓ} (predicate : R → Bool) where
  pub keep-append :
      (xs ys : List R) → keep predicate (xs ++ ys) ≡ keep predicate xs ++ keep predicate ys
  keep-append [] ys = refl
  keep-append (x ∷ xs) ys = elim (Bool-cases (predicate x)) [
    | inl p ↦ rw p (ap (λ l. x ∷ l) (keep-append xs ys))
    | inr p ↦ rw p (keep-append xs ys)
  ]

  -- `total` is made of the rows that a call returned and those that the calls left over deliver.
  abbrev pub Accounts : List R → Option (Read R × List (Read R)) → Type ℓ
  Accounts total none = Unit
  Accounts total (some (result, rest)) =
      total
      ≡ result.rows ++ elim result.error [ none ↦ keep predicate (delivered rest) | some e ↦ [] ]

  read_loop-step :
      (cap : ℕ) (out rows : List R) (error : Option Error) (rs : List (Read R))
      → ((out' : List R)
          → Accounts (out' ++ keep predicate (delivered rs)) (read_loop predicate cap out' rs))
      → Accounts
          (out ++ keep predicate (delivered (record { rows = rows; error = error } ∷ rs)))
          (read_loop predicate cap out (record { rows = rows; error = error } ∷ rs))
  unfolding read_loop
  read_loop-step cap out rows (some e) rs ih = elim (Bool-cases (ltb (length out) cap)) [
    | inl p ↦ rw (p, read_loop) (simp append-nil)
    | inr p ↦ rw (p, read_loop) refl
  ]
  read_loop-step cap out rows none rs ih = elim (Bool-cases (ltb (length out) cap)) [
    | inl p ↦ rw (p, read_loop, keep-append, ← append_assoc) (ih (out ++ keep predicate rows))
    | inr p ↦ rw (p, read_loop) refl
  ]

  read_loop-Accounts :
      (cap : ℕ) (out : List R) (calls : List (Read R))
      → Accounts (out ++ keep predicate (delivered calls)) (read_loop predicate cap out calls)
  unfolding read_loop
  read_loop-Accounts cap out [] = elim (Bool-cases (ltb (length out) cap)) [
    | inl p ↦ rw (p, read_loop) tt
    | inr p ↦ rw (p, read_loop) refl
  ]
  read_loop-Accounts cap out (r ∷ rs) =
      read_loop-step cap out r.rows r.error rs (λ out'. read_loop-Accounts cap out' rs)

  -- The rows that a call of the filtering reader returns, with those that it left to later calls,
  -- are the rows of its source, up to the first error, that satisfy the predicate.
  pub read_rows-Accounts :
      (cap : ℕ) (calls : List (Read R))
      → Accounts (keep predicate (delivered calls)) (read_rows predicate cap calls)
  unfolding read_rows
  read_rows-Accounts cap calls = read_loop-Accounts cap [] calls

  module _ (size : ℕ) (positive : 0 < size) where
    keep_batch :
        (j : ℕ) (rows : List R)
        → keep predicate (take j rows) ++ keep predicate (drop j rows) ≡ keep predicate rows
    keep_batch j rows =
        sym (keep-append (take j rows) (drop j rows))
        ∙ ap (keep predicate) (take-append-drop j rows)

    no_batch :
        (j : ℕ) (rows : List R)
        → ltb 0 (length (keep predicate (take j rows))) ≡ false
        → keep predicate (drop j rows) ≡ keep predicate rows
    no_batch j rows h =
        let e : keep predicate (take j rows) ≡ [] = length-zero _ (ground arith) in
        rw e at (keep_batch j rows)

    shrinks :
        (r : R) (rs : List R) → length (drop (min (suc (length rs)) size) (r ∷ rs)) ≤ length rs
    shrinks r rs = omega (arith, length-drop (min (suc (length rs)) size) (r ∷ rs))

    regained :
        (r : R) (rs : List R) (n : ℕ)
        → n + min (suc (length rs)) size + length (drop (min (suc (length rs)) size) (r ∷ rs))
          ≡ n + suc (length rs)
    regained r rs n = omega (arith, length-drop (min (suc (length rs)) size) (r ∷ rs))

    abbrev wrote : List R → ℕ → Option (Written R)
    wrote sink n = some (record { sink = sink; count = n; error = none })

    wrote-eq : {s t : List R} {n m : ℕ} → s ≡ t → n ≡ m → wrote s n ≡ wrote t m
    wrote-eq p q = λ i. wrote (p i) (q i)

    write_loop-keep :
        (write : List R → List R → Option Error)
        → ((sink batch : List R) → write sink batch ≡ none)
        → (fuel : ℕ) (sink rows : List R) (n : ℕ) → length rows < fuel
        → write_loop predicate size write fuel sink rows n
          ≡ wrote (sink ++ keep predicate rows) (n + length rows)
    unfolding write_loop
    write_loop-keep write ok zero sink rows n h = absurd (omega arith)
    write_loop-keep write ok (suc fuel) sink [] n h = wrote-eq (sym (append-nil sink)) (omega arith)
    write_loop-keep write ok (suc fuel) sink (r ∷ rs) n h =
        let j = min (suc (length rs)) size in
        let batch = keep predicate (take j (r ∷ rs)) in
        let rest = drop j (r ∷ rs) in
        let ih = λ (s : List R).
          write_loop-keep write ok fuel s rest (n + j) (omega (arith, shrinks r rs)) in
        elim (Bool-cases (ltb 0 (length batch))) [
          | inl p ↦
              rw (p, ok sink batch)
                (ih (sink ++ batch)
                  ∙ wrote-eq
                      (append_assoc sink batch (keep predicate rest)
                        ∙ ap (λ l. sink ++ l) (keep_batch j (r ∷ rs)))
                      (regained r rs n))
          | inr p ↦
              rw p
                (ih sink ∙ wrote-eq (ap (λ l. sink ++ l) (no_batch j (r ∷ rs) p)) (regained r rs n))
        ]

    -- With a writer that takes every batch, `WriteRows` ends, hands on the rows that satisfy the
    -- predicate in their order, and answers the count of all rows.
    pub write_rows-keep :
        (write : List R → List R → Option Error)
        → ((sink batch : List R) → write sink batch ≡ none)
        → (rows : List R)
        → write_rows predicate size write rows
          ≡ some (record { sink = keep predicate rows; count = length rows; error = none })
    unfolding write_rows
    write_rows-keep write ok rows =
        write_loop-keep write ok (length rows + 1) [] rows 0 (omega arith)
        ∙ wrote-eq refl (omega arith)

    -- What a run with a failing writer leaves: nothing handed on, and a nil error with it.
    abbrev pub Swallows : List R → ℕ → List R → Option (Written R) → Type ℓ
    Swallows sink n rows o =
        (w : Written R) × (o ≡ some w)
        × (w.sink ≡ sink)
        × (w.error ≡ none)
        × (0 < length (keep predicate rows) → w.count < n + length rows)

    write_loop-Swallows :
        (write : List R → List R → Option Error) (e : Error)
        → ((sink batch : List R) → write sink batch ≡ some e)
        → (fuel : ℕ) (sink rows : List R) (n : ℕ) → length rows < fuel
        → Swallows sink n rows (write_loop predicate size write fuel sink rows n)
    unfolding write_loop
    write_loop-Swallows write e bad zero sink rows n h = absurd (omega arith)
    write_loop-Swallows write e bad (suc fuel) sink [] n h = (
      record { sink = sink; count = n; error = none },
      refl,
      refl,
      refl,
      λ k. absurd (omega arith),
    )
    write_loop-Swallows write e bad (suc fuel) sink (r ∷ rs) n h =
        let j = min (suc (length rs)) size in
        let batch = keep predicate (take j (r ∷ rs)) in
        let rest = drop j (r ∷ rs) in
        let ih =
          write_loop-Swallows write e bad fuel sink rest (n + j) (omega (arith, shrinks r rs)) in
        elim (Bool-cases (ltb 0 (length batch))) [
          | inl p ↦
              rw (p, bad sink batch)
                (
                  record { sink = sink; count = n; error = none },
                  refl,
                  refl,
                  refl,
                  λ _. omega arith,
                )
          | inr p ↦
              let less = λ (k : 0 < length (keep predicate (r ∷ rs))).
                let k' : 0 < length (keep predicate rest) = rw (no_batch j (r ∷ rs) p) k in
                let less : (ih.0).count < n + suc (length rs) =
                  omega (arith, ih.4 k', regained r rs n) in
                less in
              rw p (ih.0, ih.1, ih.2, ih.3, less)
        ]

    -- With a writer that refuses every batch, `WriteRows` returns a nil error all the same: nothing is
    -- handed on, and where a row satisfies the predicate the count falls short of the rows given.
    pub write_rows-Swallows :
        (write : List R → List R → Option Error) (e : Error)
        → ((sink batch : List R) → write sink batch ≡ some e)
        → (rows : List R) → Swallows [] 0 rows (write_rows predicate size write rows)
    unfolding write_rows
    write_rows-Swallows write e bad rows =
        write_loop-Swallows write e bad (length rows + 1) [] rows 0 (omega arith)
