-- ===== src/Rows/Group/Laws.antt =====
-- What a call of ReadRows of a merged row group does after a seek.
use parquet_go.Prelude.{
  ℕ, zero, suc, ◌+◌, ◌-◌, ◌≤◌, ◌<◌, ◌≡◌, refl, sym, ap, ◌∙◌, inl, inr, List, [], ◌++◌, length,
  length-append, append_assoc, Option, none, some, ltb, lt→ltb, min, Bool-cases, arith,
}
use parquet_go.Prelude.Int.{pos}
use parquet_go.Rows.Stream.{Error}
use parquet_go.Rows.Seek.{RowSource, IsSource}
use parquet_go.Rows.Group.{Filled, seek_to_row, fill, skip_rows, read_rows}

module _ {ℓ} {R : Type ℓ} {S : Type 0} (src : RowSource R S) where
  -- A reader that tells an error only when no rows are left.
  abbrev pub IsSteady : Type 0
  IsSteady =
      (n : ℕ) (s : S) → 0 < length (src.pending (src.read n s).1) → (src.read n s).0.error ≡ none

  -- The rows that a call has written: those that were to be skipped, and those that were asked for.
  pub record Skipped (skip target : ℕ) (written : List R) (s : S) (result : Option (Filled R S))
      : Type ℓ where
    pub skipped : List R
    pub asked : List R
    pub error : Option Error
    pub rest : S
    pub is_result :
        result
        ≡ some (record {
          written = written ++ (skipped ++ asked);
          count = length asked;
          error = error;
          state = record {
            reader = rest;
            row_index = pos (target + length asked);
            seek_to = target;
          };
        })
    pub skips : length skipped ≡ skip
    pub order : src.pending s ≡ skipped ++ (asked ++ src.pending rest)

  module _ (laws : IsSource src) (steady : IsSteady) where
    -- The rows that are left behind a call.
    call-length :
        (n : ℕ) (s : S)
        → length (src.pending s)
          ≡ length (src.read n s).0.rows + length (src.pending (src.read n s).1)
    call-length n s =
        ap length (laws.next n s)
        ∙ length-append (src.read n s).0.rows (src.pending (src.read n s).1)

    skip_rows-none :
        (fuel room index target : ℕ) (written : List R) (s : S)
        → index + room < target
        → room < length (src.pending s)
        → skip_rows src fuel room index target written s ≡ none
    unfolding skip_rows
    skip_rows-none zero room index target written s h l = refl
    skip_rows-none (suc fuel) room index target written s h l =
        let n = min (target - index) room in
        let k = length (src.read n s).0.rows in
        let few = laws.within n s in
        let left = call-length n s in
        rw (lt→ltb index target (omega arith), steady n s (omega (arith, few, left)), skip_rows)
          (skip_rows-none fuel (room - k) (index + k) target (written ++ (src.read n s).0.rows)
            (src.read n s).1 (omega (arith, few)) (omega (arith, few, left)))

    -- A round skips the rows that it reads.
    call-Skipped :
        (n skip later target : ℕ) (written : List R) (s : S) (result : Option (Filled R S))
        → length (src.read n s).0.rows + later ≡ skip
        → Skipped later target (written ++ (src.read n s).0.rows) (src.read n s).1 result
        → Skipped skip target written s result
    call-Skipped n skip later target written s result e more =
        let rows = (src.read n s).0.rows in
        let moved =
          append_assoc written rows (more.skipped ++ more.asked)
          ∙ ap (λ xs. written ++ xs) (sym (append_assoc rows more.skipped more.asked)) in
        record {
          skipped = rows ++ more.skipped;
          asked = more.asked;
          error = more.error;
          rest = more.rest;
          is_result =
              more.is_result
              ∙ ap
                  (λ xs. some (record {
                    written = xs;
                    count = length more.asked;
                    error = more.error;
                    state = record {
                      reader = more.rest;
                      row_index = pos (target + length more.asked);
                      seek_to = target;
                    };
                  }))
                  moved;
          skips = omega (arith, e, length-append rows more.skipped, more.skips);
          order =
              laws.next n s
              ∙ ap (λ xs. rows ++ xs) more.order
              ∙ sym (append_assoc rows more.skipped (more.asked ++ src.pending more.rest));
        }

    -- A call in the loop reads a row at least and does not fail.
    call-steady :
        (n : ℕ) (s : S)
        → 0 < n
        → n < length (src.pending s)
        → ((src.read n s).0.error ≡ none)
          × (0 < length (src.read n s).0.rows)
          × (length (src.read n s).0.rows ≤ n)
          × (length (src.pending s)
              ≡ length (src.read n s).0.rows + length (src.pending (src.read n s).1))
    call-steady n s h l =
        let few = laws.within n s in
        let left = call-length n s in
        let fine = steady n s (omega (arith, few, left)) in
        (fine, laws.progress n s h fine, few, left)

    skip_rows-Skipped :
        (fuel room index target : ℕ) (written : List R) (s : S)
        → index ≤ target
        → target ≤ index + room
        → target - index < fuel
        → target - index < length (src.pending s)
        → Skipped (target - index) target written s (skip_rows src fuel room index target written s)
    unfolding skip_rows
    skip_rows-Skipped zero room index target written s h l f p = absurd (omega arith)
    skip_rows-Skipped (suc fuel) room index target written s h l f p =
        elim (Bool-cases (ltb index target)) [
          | inr e ↦
              let here : index ≡ target = ground arith in
              rw (e, skip_rows)
                (record {
                  skipped = [];
                  asked = (src.read room s).0.rows;
                  error = (src.read room s).0.error;
                  rest = (src.read room s).1;
                  is_result = ap (λ i. some (fill src i target written (src.read room s))) here;
                  skips = omega (arith, here);
                  order = laws.next room s;
                })
          | inl e ↦
              let n = min (target - index) room in
              let call = src.read n s in
              let k = length call.0.rows in
              let (fine, some_row, few, left) = call-steady n s (ground arith) (omega arith) in
              let more =
                skip_rows-Skipped fuel (room - k) (index + k) target (written ++ call.0.rows) call.1
                  (omega (arith, few)) (omega (arith, few)) (omega (arith, few, some_row))
                  (omega (arith, few, left)) in
              rw (e, fine, skip_rows)
                (call-Skipped n (target - index) (target - (index + k)) target written s
                  (skip_rows src fuel (room - k) (index + k) target (written ++ call.0.rows) call.1)
                  (omega (arith, few)) more)
        ]

    -- Over a reader that keeps the contract of RowReader and fails only when no rows are left: after a seek forward to
    -- a row that lies further ahead than the buffer is long, ReadRows does not return, if more rows are pending than
    -- the buffer holds, however many rounds its loop makes.
    pub read_rows-none :
        (rounds room index target sought : ℕ) (s : S)
        → index + room < target
        → room < length (src.pending s)
        → read_rows src rounds room
            (seek_to_row
              (pos target)
              (record { reader = s; row_index = pos index; seek_to = sought })).1
          ≡ none
    unfolding read_rows
    read_rows-none rounds room index target sought s h l = elim (Bool-cases (ltb target index)) [
      | inl e ↦ absurd (ground arith)
      | inr e ↦ rw e (skip_rows-none rounds room index target [] s h l)
    ]

    -- Over such a reader: after a seek forward to a row that is pending and no further ahead than the buffer is
    -- long, ReadRows returns. It has written the rows that it skips to the front of the buffer and those that are
    -- asked for behind them, and answers the number of the latter only.
    pub read_rows-Skipped :
        (room index target sought : ℕ) (s : S)
        → index ≤ target
        → target ≤ index + room
        → target - index < length (src.pending s)
        → Skipped (target - index) target [] s (
            read_rows src
              (target - index + 1)
              room
              (seek_to_row
                (pos target)
                (record { reader = s; row_index = pos index; seek_to = sought })).1)
    unfolding read_rows
    read_rows-Skipped room index target sought s h l p = elim (Bool-cases (ltb target index)) [
      | inl e ↦ absurd (ground arith)
      | inr e ↦
          rw e (skip_rows-Skipped (target - index + 1) room index target [] s h l (omega arith) p)
    ]
