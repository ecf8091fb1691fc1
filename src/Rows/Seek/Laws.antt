-- ===== src/Rows/Seek/Laws.antt =====
-- A seek forward skips the rows in between and no other.
use parquet_go.Prelude.{
  ℕ, zero, suc, ◌+◌, ◌-◌, ◌≤◌, ◌<◌, ◌≡◌, refl, ap, ◌∙◌, sym, length, drop, Option, none, some, ltb,
  ◌⊎◌, min, Bool-cases, Option-cases, inl, inr, arith, ltb→lt, drop-drop, drop-append_length,
}
use parquet_go.Prelude.Int.{pos}
use parquet_go.Rows.Stream.{Error, failed}
use parquet_go.Rows.Seek.{RowSource, IsSource, Wrapper, after, discard, seek_to_row}

module _ {ℓ} {R : Type ℓ} {S : Type 0} (src : RowSource R S) where
  -- Calls of the reader without an error, from the one wrapper to the other.
  pub data Reads (w : Wrapper S) : Wrapper S → Type 0 where
    here : Reads w w
    read_on :
        (n : ℕ) (t : Wrapper S)
        → (src.read n t.reader).0.error ≡ none
        → Reads w t
        → Reads w (after src t (src.read n t.reader))

  -- The last call, made before the target is reached, has returned the error.
  pub record ReaderFailed (target : ℕ) (w : Wrapper S) (e : Error) (v : Wrapper S) : Type 0 where
    pub n : ℕ
    pub before : Wrapper S
    pub reads : Reads w before
    pub short : before.row_index < target
    pub returned : (src.read n before.reader).0.error ≡ some e
    pub is_after : v ≡ after src before (src.read n before.reader)

  -- From `w` a seek to `target` has come to `v`: its count tells how many of the pending rows it has
  -- skipped, it has not gone too far, and without an error it is at the target. An error of a seek forward is one
  -- that a call of the reader has returned before the target was reached.
  pub record Sought (target : ℕ) (w : Wrapper S) (error : Option Error) (v : Wrapper S)
      : Type ℓ where
    pub forward : w.row_index ≤ v.row_index
    pub rest : src.pending v.reader ≡ drop (v.row_index - w.row_index) (src.pending w.reader)
    pub within : w.row_index ≤ target → v.row_index ≤ target
    pub reached : error ≡ none → v.row_index ≡ target
    pub failed_by :
        (e : Error) → error ≡ some e → (target < w.row_index) ⊎ ReaderFailed target w e v

  module _ (laws : IsSource src) where
    -- A call of the reader takes its rows off the front of those pending.
    called-rest :
        (n : ℕ) (w : Wrapper S)
        → src.pending (src.read n w.reader).1
          ≡ drop (length (src.read n w.reader).0.rows) (src.pending w.reader)
    called-rest n w = rw (laws.next n w.reader) (
        sym (drop-append_length (src.read n w.reader).0.rows (src.pending (src.read n w.reader).1)))

    stay :
        (target : ℕ) (w : Wrapper S) (error : Option Error)
        → (error ≡ none → w.row_index ≡ target)
        → ((e : Error) → error ≡ some e → target < w.row_index)
        → Sought target w error w
    stay target w error reached back =
        let same : 0 ≡ w.row_index - w.row_index = omega arith in
        record {
          forward = omega arith;
          rest = ap (λ k. drop k (src.pending w.reader)) same;
          within = λ l. l;
          reached = reached;
          failed_by = λ e q. inl (back e q);
        }

    -- The error of a call.
    call-Sought :
        (n target : ℕ) (w : Wrapper S) (e : Error)
        → w.row_index < target
        → w.row_index + length (src.read n w.reader).0.rows ≤ target
        → (src.read n w.reader).0.error ≡ some e
        → Sought target w (some e) (after src w (src.read n w.reader))
    call-Sought n target w e h l q =
        let k = length (src.read n w.reader).0.rows in
        let skipped : k ≡ w.row_index + k - w.row_index = omega arith in
        record {
          forward = omega arith;
          rest = called-rest n w ∙ ap (λ i. drop i (src.pending w.reader)) skipped;
          within = λ _. l;
          reached = λ r. cc;
          failed_by = λ e' r. inr (record {
            n = n;
            before = w;
            reads = here;
            short = h;
            returned = q ∙ r;
            is_after = refl;
          });
        }

    -- Calls behind a call without an error.
    Reads-first :
        (n : ℕ) (w t : Wrapper S)
        → (src.read n w.reader).0.error ≡ none
        → Reads (after src w (src.read n w.reader)) t
        → Reads w t
    Reads-first n w _ e here = read_on n w e here
    Reads-first n w _ e (read_on m t f r) = read_on m t f (Reads-first n w t e r)

    -- What a seek reaches from the wrapper behind a call, it reaches from the one before it.
    after-Sought :
        (n target : ℕ) (w : Wrapper S) (error : Option Error) (v : Wrapper S)
        → Sought target (after src w (src.read n w.reader)) error v
        → w.row_index + length (src.read n w.reader).0.rows ≤ target
        → (src.read n w.reader).0.error ≡ none
        → Sought target w error v
    after-Sought n target w error v s h q =
        let k = length (src.read n w.reader).0.rows in
        let j = v.row_index - (w.row_index + k) in
        let sum : k + j ≡ v.row_index - w.row_index = omega (arith, s.forward) in
        record {
          forward = omega (arith, s.forward);
          rest =
              s.rest
              ∙ ap (drop j) (called-rest n w)
              ∙ drop-drop k j (src.pending w.reader)
              ∙ ap (λ i. drop i (src.pending w.reader)) sum;
          within = λ l. s.within h;
          reached = s.reached;
          failed_by = λ e r. elim (s.failed_by e r) [
            | inl back ↦ absurd (omega arith)
            | inr f ↦ inr (record {
              n = f.n;
              before = f.before;
              reads = Reads-first n w f.before q f.reads;
              short = f.short;
              returned = f.returned;
              is_after = f.is_after;
            })
          ];
        }

    discard-Sought :
        (fuel target : ℕ) (w : Wrapper S)
        → w.row_index ≤ target
        → target < w.row_index + fuel
        → (error : Option Error) × (v : Wrapper S) × (discard src fuel target w ≡ some (error, v))
          × Sought target w error v
    unfolding discard
    discard-Sought zero target w l h = absurd (omega arith)
    discard-Sought (suc fuel) target w l h =
        let n = min (target - w.row_index) 64 in
        let next = after src w (src.read n w.reader) in
        let some_left : w.row_index < target → 0 < n = λ k. omega arith in
        let few = laws.within n w.reader in
        elim (Bool-cases (ltb w.row_index target)) [
          | inr e ↦ (none, w, rw e refl, stay target w none (λ _. ground arith) (λ e' q. cc))
          | inl e ↦ elim (Option-cases (src.read n w.reader).0.error) [
            | inl q ↦
                let (error, v, result, sought) =
                  discard-Sought fuel target next (omega (arith, few)) (
                    omega (
                      arith,
                      laws.progress n w.reader (some_left (ltb→lt w.row_index target e)) q,
                      h,
                    )) in
                (
                  error,
                  v,
                  rw (e, discard) (rw (q, discard) result),
                  after-Sought n target w error v sought (omega (arith, few)) q,
                )
            | inr (err, q) ↦ (
              some err,
              next,
              rw (e, discard) (rw (q, discard) refl),
              call-Sought n target w err (ltb→lt w.row_index target e) (omega (arith, few)) q,
            )
          ]
        ]

    -- With a reader that keeps the contract of RowReader, a seek to a row at or behind the current one ends,
    -- and is at the row, or tells the error that a call of the reader has returned before the row was reached; the
    -- rows that it has skipped are those that it has counted, and all others are still to come. A seek backward
    -- fails and changes nothing.
    pub seek_to_row-Sought :
        (target : ℕ) (w : Wrapper S)
        → (error : Option Error) × (v : Wrapper S) × (seek_to_row src (pos target) w
            ≡ some (error, v))
          × Sought target w error v
          × (target < w.row_index → (error ≡ some failed) × (v ≡ w))
    unfolding seek_to_row
    seek_to_row-Sought target w = elim (Bool-cases (ltb target w.row_index)) [
      | inl e ↦ (
        some failed,
        w,
        rw e refl,
        stay target w (some failed) (λ k. cc) (λ e' q. ltb→lt target w.row_index e),
        λ _. (refl, refl),
      )
      | inr e ↦
          let (error, v, result, sought) =
            discard-Sought (target - w.row_index + 1) target w (ground arith) (omega arith) in
          (error, v, rw (e, seek_to_row) result, sought, λ k. absurd (ground arith))
    ]
