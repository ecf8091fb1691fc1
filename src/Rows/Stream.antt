-- ===== src/Rows/Stream.antt =====
-- A `RowReader` as its consumer sees it: the results of its `ReadRows` calls, in their order.
use parquet_go.Prelude.{List, [], ◌∷◌, ◌++◌, Option, none, some}

-- `io.EOF` and every other error.
pub data Error : Type 0 where
  eof : Error
  failed : Error

-- One result of `ReadRows`: the rows that the call put into the buffer, and its error.
pub record Read {ℓ} (R : Type ℓ) : Type ℓ where
  pub rows : List R
  pub error : Option Error

-- The rows that a sequence of calls delivers, up to the first error and with the rows that come
-- with it.
abbrev pub delivered {ℓ} : {R : Type ℓ} → List (Read R) → List R
delivered [] = []
delivered (r ∷ rs) = r.rows ++ elim r.error [ none ↦ delivered rs | some e ↦ [] ]
