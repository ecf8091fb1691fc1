-- ===== src/Rows/Range/Laws.antt =====
-- Reading a range view to its end gives the rows of the range.
use parquet_go.Prelude.{
  ℕ, zero, suc, ◌+◌, ◌-◌, ◌<◌, ◌≤◌, ◌≡◌, refl, ap, ◌∙◌, sym, false, List, [], ◌++◌, length, take,
  drop, inl, inr, arith, Bool-cases, Option, none, some, leb, ltb, ◌==◌, take-nil, append-nil,
  take-append_long, take-append_short, drop-take, drop-drop,
}
use parquet_go.Prelude.Int.{pos}
use parquet_go.Rows.Stream.{Error, eof, failed}
use parquet_go.Rows.Range.{PageResult, page, stop, PageSource, IsPages, RangePages}
use parquet_go.Rows.Range.{read_sized, read_page, seek_base, seek_to_row, pages}

-- The rows of a page and of those behind it.
absorb {ℓ} : {R : Type ℓ} → PageResult R → Option (List R) → Option (List R)
absorb (stop eof) rest = some []
absorb (stop failed) rest = none
absorb (page rows) none = none
absorb (page rows) (some more) = some (rows ++ more)

module _ {ℓ} {R : Type ℓ} {S : Type 0} (src : PageSource R S) where
  -- A consumer that reads pages until the end of file; `none` is an error, or that the fuel ran out.
  unfoldable pub collect : ℕ → RangePages S → Option (List R)
  unfolding absorb
  collect zero p = none
  collect (suc fuel) p =
      let (r, p') = read_page src p in let rest = collect fuel p' in absorb r rest

  module _ {all : List R} (laws : IsPages src all) where
    collect_sized :
        (fuel : ℕ) (p : RangePages S) (r : PageResult R) (s : S) (pend : List R)
        → ((rows : List R)
            → r ≡ page rows
            → (pend ≡ rows ++ src.pending s) × (src.measure s < fuel))
        → ((e : Error) → r ≡ stop e → (e ≡ eof) × (pend ≡ []))
        → ((q : RangePages S)
            → src.measure q.base < fuel
            → collect fuel q ≡ some (take q.remaining (src.pending q.base)))
        → absorb (read_sized src p (r, s)).0 (collect fuel (read_sized src p (r, s)).1)
          ≡ some (take p.remaining pend)
    unfolding read_sized absorb
    collect_sized fuel p (stop eof) s pend hp hs ih =
        rw ((hs eof refl).1) (ap some (sym (take-nil p.remaining)))
    collect_sized fuel p (stop failed) s pend hp hs ih = cc ((hs failed refl).0)
    collect_sized fuel p (page rows) s pend hp hs ih =
        elim (Bool-cases (leb (length rows) p.remaining)) [
          | inl a ↦
              let (e, m) = hp rows refl in
              rw (a, e, ih (record p { base = s; remaining = p.remaining - length rows }) m)
                (ap some (sym (take-append_long p.remaining rows (src.pending s) (ground arith))))
          | inr a ↦
              let (e, m) = hp rows refl in
              rw (a, e, ih (record p { base = s; remaining = 0 }) m, append-nil)
                (ap some (sym (take-append_short p.remaining rows (src.pending s) (ground arith))))
        ]

    -- From any position the pages of the view hold its remaining rows.
    collect-take :
        (fuel : ℕ) (p : RangePages S)
        → src.measure p.base < fuel
        → collect fuel p ≡ some (take p.remaining (src.pending p.base))
    unfolding collect read_page
    collect-take zero p h = absurd (omega arith)
    collect-take (suc fuel) p h = elim (Bool-cases (p.remaining == 0)) [
      | inl a ↦
          let e : p.remaining ≡ 0 = ground arith in
          rw (a, absorb) (ap (λ n. some (take n (src.pending p.base))) (sym e))
      | inr a ↦ rw a (
          collect_sized fuel p ((src.read_page p.base).0) ((src.read_page p.base).1)
            (src.pending p.base)
            (λ rows e. let (q, m) = laws.read_some p.base rows e in (q, omega arith))
            (laws.read_end p.base) (λ q m. collect-take fuel q m))
    ]

    -- The view of the rows [off, off + len) of a chunk that has them opens, and reading it to the end of file, with fuel for
    -- the pages that its base has left, gives those rows of the base chunk.
    pub pages-collect :
        (s : S) (off len : ℕ)
        → off + len ≤ length all
        → (p : RangePages S) × (pages src s off len ≡ some p)
          × ((fuel : ℕ)
              → src.measure p.base < fuel
              → collect fuel p ≡ some (take len (drop off all)))
    unfolding pages
    pages-collect s off len h =
        let (t, e, q) = laws.seek s off (omega arith) in
        let p : RangePages S = record { base = t; off = off; length = len; remaining = len } in
        (p, rw (e, pages), λ fuel m. collect-take fuel p m ∙ rw q)

    -- A seek to row i of a view that lies within the chunk, up to its length, finds row i of the range: reading on gives the
    -- rows of the range from there.
    pub seek_to_row-collect :
        (p : RangePages S) (i : ℕ)
        → i ≤ p.length
        → p.off + p.length ≤ length all
        → (q : RangePages S) × (seek_to_row src p (pos i) ≡ some q)
          × ((fuel : ℕ)
              → src.measure q.base < fuel
              → collect fuel q ≡ some (drop i (take p.length (drop p.off all))))
    unfolding seek_to_row seek_base
    seek_to_row-collect p i h k =
        let (t, e, r) = laws.seek p.base (p.off + i) (omega arith) in
        let q : RangePages S = record p { base = t; remaining = p.length - i } in
        (
          q,
          rw (within p i h, e),
          λ fuel m. collect-take fuel q m ∙ rw r (ap some (tail_rows p.off p.length i)),
        )
      where
        within : (p : RangePages S) (i : ℕ) → i ≤ p.length → ltb p.length i ≡ false
        within p i h = ground arith

        tail_rows :
            (off len i : ℕ) → take (len - i) (drop (off + i) all) ≡ drop i (take len (drop off all))
        tail_rows off len i = rw (drop-take, drop-drop)
