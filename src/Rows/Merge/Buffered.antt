-- ===== src/Rows/Merge/Buffered.antt =====
-- merge.go: the readers with buffered rows that the merging readers consume. How many rows a call asks for,
-- which the size of the buffer decides, is left open: a call's result holds any number of rows.
use parquet_go.Prelude.{
  Bool, true, false, ◌≡◌, refl, List, [], ◌∷◌, ◌++◌, Option, none, some, length, ◌<◌, arith,
}
use parquet_go.Rows.Stream.{Error, Read}

-- The rows of `window`, and the calls of the reader that are still to come.
pub record Buffered {ℓ} (R : Type ℓ) : Type ℓ where
  pub window : List R
  pub source : List (Read R)

-- What `read` leads to: the reader has no such call, it fails, or the reader is alive or at its end.
pub data Outcome {ℓ} (R : Type ℓ) : Type ℓ where
  stuck : Outcome R
  failing : Buffered R → Outcome R
  ready : Bool → Buffered R → Outcome R

-- What is claimed of a reader that is alive.
abbrev pub Holds : Bool → Type 0 → Type 0
Holds false P = Unit {0}
Holds true P = P

module _ {ℓ} {R : Type ℓ} where
  -- `if err != nil && n == 0 { return err }`: an error that comes with rows is dropped.
  abbrev pub read_error : List R → Option Error → Option Error
  read_error [] e = e
  read_error (x ∷ xs) e = none

  abbrev pub outcome : Option Error → Buffered R → Outcome R
  outcome none b = ready true b
  outcome (some Error.eof) b = ready false b
  outcome (some Error.failed) b = failing b

  -- `read`
  abbrev pub read : Buffered R → Outcome R
  read b = elim b.source [
    | [] ↦ stuck
    | r ∷ rs ↦
        outcome (read_error r.rows r.error) (record { window = b.window ++ r.rows; source = rs })
  ]

  -- `if r != nil && r.empty() { r.read() … }`
  abbrev pub refill : Bool → Buffered R → Outcome R
  refill false b = ready false b
  refill true b = elim b.window [ [] ↦ read b | x ∷ xs ↦ ready true b ]

  -- The rows that the calls deliver to their first error that comes without rows.
  abbrev pub more_rows : List R → Option Error → List R → List R
  more_rows [] none later = later
  more_rows [] (some e) later = []
  more_rows (x ∷ xs) e later = (x ∷ xs) ++ later

  abbrev pub to_come : List (Read R) → List R
  to_come [] = []
  to_come (r ∷ rs) = more_rows r.rows r.error (to_come rs)

  -- The contract of a reader that does not fail: each call brings rows or the end, and the end comes.
  abbrev pub EndsAfter : List R → Option Error → Type 0 → Type 0
  EndsAfter [] none Rest = ⊥
  EndsAfter [] (some Error.eof) Rest = Unit {0}
  EndsAfter [] (some Error.failed) Rest = ⊥
  EndsAfter (x ∷ xs) e Rest = Rest

  abbrev pub Ends : List (Read R) → Type 0
  Ends [] = ⊥
  Ends (r ∷ rs) = EndsAfter r.rows r.error (Ends rs)

  -- The rows that a reader still contributes.
  abbrev pub rest : Bool → Buffered R → List R
  rest false b = []
  rest true b = b.window ++ to_come b.source

  -- An outcome that leaves the rows to come as they are, with rows buffered unless the reader is at its end.
  pub record Filled (rows : List R) (result : Outcome R) : Type ℓ where
    pub live : Bool
    pub after : Buffered R
    pub is_result : result ≡ ready live after
    pub ends : Holds live (Ends after.source)
    pub filled : Holds live (0 < length after.window)
    pub same : rest live after ≡ rows

  outcome-Filled :
      (rows : List R) (e : Option Error) (rs : List (Read R))
      → EndsAfter rows e (Ends rs)
      → Filled
          (more_rows rows e (to_come rs))
          (outcome (read_error rows e) (record { window = rows; source = rs }))
  outcome-Filled [] none rs h = absurd h
  outcome-Filled [] (some Error.eof) rs h = record {
    live = false;
    after = record { window = []; source = rs };
    is_result = refl;
    ends = tt;
    filled = tt;
    same = refl;
  }
  outcome-Filled [] (some Error.failed) rs h = absurd h
  outcome-Filled (x ∷ xs) e rs h = record {
    live = true;
    after = record { window = x ∷ xs; source = rs };
    is_result = refl;
    ends = h;
    filled = omega arith;
    same = refl;
  }

  pub read-Filled :
      (source : List (Read R))
      → Ends source
      → Filled (to_come source) (read (record { window = []; source = source }))
  read-Filled [] h = absurd h
  read-Filled (r ∷ rs) h = outcome-Filled r.rows r.error rs h

  pub refill-Filled :
      (live : Bool) (window : List R) (source : List (Read R))
      → Holds live (Ends source)
      → Filled
          (rest live (record { window = window; source = source }))
          (refill live (record { window = window; source = source }))
  refill-Filled false w source h = record {
    live = false;
    after = record { window = w; source = source };
    is_result = refl;
    ends = tt;
    filled = tt;
    same = refl;
  }
  refill-Filled true [] source h = read-Filled source h
  refill-Filled true (x ∷ xs) source h = record {
    live = true;
    after = record { window = x ∷ xs; source = source };
    is_result = refl;
    ends = h;
    filled = omega arith;
    same = refl;
  }
