-- ===== src/Rows/Merge/Many/Refill.antt =====
-- The buffer of the winner is read when it is empty.
use mathlib.Core.Path.{subst}
use parquet_go.Prelude.{
  ℕ, zero, suc, ◌+◌, ◌-◌, ◌<◌, ◌≡◌, ◌≢◌, refl, sym, ap, ◌∙◌, inl, inr, Bool, true, false,
  Bool-cases, List, [], Option, none, some, Ordering, length, ◌==◌, IsOrder, arith,
}
use parquet_go.Rows.Merge.Buffered.{Buffered, ready, Ends, Holds, rest, to_come, read, read-Filled}
use parquet_go.Rows.Merge.Tree.{update}
use parquet_go.Rows.Merge.Tree.Won.{IsPlayers}
use parquet_go.Rows.Merge.Tree.Replay.{update_ne, update_self}
use parquet_go.Rows.Merge.Many.{Many, Call, leaf_of, set_buffer}
use parquet_go.Rows.Merge.Many.Reading.{refill_winner, reset_streak}
use parquet_go.Rows.Merge.Many.Draws.{Draws-same}
use parquet_go.Rows.Merge.Many.State.{
  is_player, count_players, rests, Settled, Open, set_buffer-Beside, set_buffer-all,
}
use parquet_go.Rows.Merge.Many.Steps.{Called, Open-set, Open-Settled, replay-Settled}

count_same :
    (n : ℕ) (leaves leaves' : ℕ → Option ℕ)
    → ((j : ℕ) → j < n → leaves' j ≡ leaves j)
    → count_players n leaves' ≡ count_players n leaves
count_same zero leaves leaves' h = refl
count_same (suc n) leaves leaves' h =
    rw (h n (omega arith)) (omega (arith, count_same n leaves leaves' (λ j l. h j (omega arith))))

-- One player less.
pub count_players-update :
    (n w : ℕ) (leaves : ℕ → Option ℕ)
    → w < n
    → leaves w ≡ some w
    → count_players n leaves ≡ count_players n (update leaves w none) + 1
count_players-update zero w leaves h e = absurd (omega arith)
count_players-update (suc n) w leaves h e = elim (Bool-cases (n == w)) [
  | inl p ↦
      let same : w ≡ n = ground arith in
      let last : leaves n ≡ some w = subst (λ k. leaves k ≡ some w) same e in
      let others =
        count_same n leaves (update leaves w none)
          (λ j l. update_ne leaves w none j (λ q. omega (arith, q, same))) in
      rw (p, last) (omega (arith, others))
  | inr p ↦ rw p (omega (arith, count_players-update n w leaves (ground arith) e))
]

pub without-IsPlayers {ℓ} :
    {R : Type ℓ} (compare : R → R → Ordering) (size : ℕ) (leaves : ℕ → Option ℕ) (w : ℕ)
    → IsPlayers compare size leaves
    → IsPlayers compare size (update leaves w none)
without-IsPlayers compare size leaves w p i j e = elim (Bool-cases (i == w)) [
  | inl q ↦ let e' = rw q at e in absurd (cc)
  | inr q ↦ let e' = rw q at e in p i j e'
]

module _ {ℓ} {R : Type ℓ} (compare : R → R → Ordering) (stale : ℕ → R) where
  pub Called-same :
      (size room : ℕ) (f f' : ℕ → List R) (result : Option (Call R))
      → ((i : ℕ) → i < size → f i ≡ f' i)
      → Called compare stale size room f' result
      → Called compare stale size room f result
  Called-same size room f f' result h c = record {
    call = c.call;
    is_result = c.is_result;
    leaves = c.leaves;
    same_size = c.same_size;
    after = c.after;
    within = c.within;
    answer = c.answer;
    draws =
        Draws-same compare size f f' (rests compare stale c.call.reader c.leaves) c.call.rows h
          c.draws;
  }

  -- The reader `w` reads what it still contributes.
  rests-same :
      (m : Many R) (leaves leaves' : ℕ → Option ℕ) (w : ℕ) (live : Bool) (after : Buffered R)
      → ((j : ℕ) → j ≢ w → leaves' j ≡ leaves j)
      → is_player (leaves' w) ≡ live
      → rest live after ≡ rests compare stale m leaves w
      → (i : ℕ) → i < m.size
      → rests compare stale m leaves i ≡ rests compare stale (set_buffer w after m) leaves' i
  rests-same m leaves leaves' w live after others e same i l = elim (Bool-cases (i == w)) [
    | inl p ↦
        let at_w : rests compare stale m leaves w
            ≡ rests compare stale (set_buffer w after m) leaves' w =
          sym same
          ∙ ap (λ b. rest b after) (sym e)
          ∙ ap (rest (is_player (leaves' w))) (sym (update_self m.buffers w after)) in
        let here : w ≡ i = ground arith in
        subst
          (λ i.
            rests compare stale m leaves i ≡ rests compare stale (set_buffer w after m) leaves' i)
          here at_w
    | inr p ↦
        let apart : i ≢ w = λ q. ground arith in
        ap (λ p. rest (is_player p) (m.buffers i)) (sym (others i apart))
        ∙ ap (rest (is_player (leaves' i))) (sym (update_ne m.buffers w after i apart))
  ]

  -- The rounds after the buffer has been read.
  abbrev pub GoesAfter : Many R → (ℕ → Option ℕ) → ℕ → (Many R → Option (Call R)) → Type ℓ
  GoesAfter m f_leaves room next =
      (m' : Many R) (leaves : ℕ → Option ℕ)
      → m'.size ≡ m.size
      → Settled compare stale m' leaves
      → ((i : ℕ) → i < m.size → rests compare stale m f_leaves i ≡ rests compare stale m' leaves i)
      → Called compare stale m.size room (rests compare stale m' leaves) (next m')

  refill-Called :
      (o : IsOrder compare) (m : Many R) (leaves : ℕ → Option ℕ) (w room : ℕ) (live : Bool)
      (after : Buffered R) (next : Many R → Option (Call R))
      → Open compare stale m leaves w
      → Holds live (Ends after.source)
      → Holds live (0 < length after.window)
      → rest live after ≡ rests compare stale m leaves w
      → GoesAfter m leaves room next
      → Called compare stale m.size room
          (rests compare stale m leaves)
          (refill_winner compare stale w (ready live after) m next)
  refill-Called o m leaves w room true after next h ends filled same goes =
      let m1 = set_buffer w after m in
      let rows =
        rests-same m leaves leaves w true after (λ _ _. refl) (ap is_player h.player) same in
      Called-same m.size room (rests compare stale m leaves) (rests compare stale m1 leaves)
        (refill_winner compare stale w (ready true after) m next) rows
        (Open-Settled compare stale o m1 leaves w (Open-set compare stale m leaves w after h ends)
          (subst (λ b. 0 < length b.window) (sym (update_self m.buffers w after)) filled)
          (λ result. Called compare stale m.size room (rests compare stale m1 leaves) result)
          (λ m. (reset_streak compare stale (some w) m).streak) next
          (λ winner losers streak settled.
            goes
              (record m1 {
                winner = winner;
                losers = losers;
                winner_leaf = leaf_of m.size winner;
                streak = streak;
              })
              leaves refl settled rows))
  refill-Called o m leaves w room false after next h ends filled same goes =
      let leaves' = update leaves w none in
      let gone : leaves' w ≡ none = update_self leaves w none in
      let others : (j : ℕ) → j ≢ w → leaves' j ≡ leaves j = update_ne leaves w none in
      let m1 = set_buffer w after m in
      let m2 : Many R = record m1 { winner = none; count = m.count - 1 } in
      let rows = rests-same m leaves leaves' w false after others (ap is_player gone) same in
      Called-same m.size room (rests compare stale m leaves) (rests compare stale m2 leaves')
        (refill_winner compare stale w (ready false after) m next) rows
        (replay-Settled compare stale o m2 leaves' w
          (record {
            players = without-IsPlayers compare m.size leaves w h.core.players;
            ends = each (λ b. Ends b.source) h.core.ends;
            counted =
                omega
                  (arith, h.core.counted, count_players-update m.size w leaves h.inside h.player);
            started = h.core.started;
          })
          h.inside (sym gone) h.place
          (set_buffer-Beside compare stale m leaves leaves' w after h.core.players others h.beside)
          (each_but (λ b. 0 < length b.window) h.filled)
          (λ result. Called compare stale m.size room (rests compare stale m2 leaves') result)
          (λ m. (reset_streak compare stale none m).streak) next
          (λ winner losers streak settled.
            goes
              (record m2 {
                winner = winner;
                losers = losers;
                winner_leaf = leaf_of m.size winner;
                streak = streak;
              })
              leaves' refl settled rows))
    where
      each_but :
          (P : Buffered R → Type 0)
          → ((i : ℕ) → i < m.size → i ≢ w → Holds (is_player (leaves i)) (P (m.buffers i)))
          → (i : ℕ) → i < m.size
          → Holds (is_player (update leaves w none i)) (P ((set_buffer w after m).buffers i))
      each_but P all =
          set_buffer-all compare stale m (λ i b. Holds (is_player (update leaves w none i)) (P b)) w
            after
            (λ i l n.
              subst (λ p. Holds (is_player p) (P (m.buffers i))) (sym (update_ne leaves w none i n))
                (all i l n))
            (subst (λ p. Holds (is_player p) (P after)) (sym (update_self leaves w none)) tt)

      each :
          (P : Buffered R → Type 0)
          → ((i : ℕ) → i < m.size → Holds (is_player (leaves i)) (P (m.buffers i)))
          → (i : ℕ) → i < m.size
          → Holds (is_player (update leaves w none i)) (P ((set_buffer w after m).buffers i))
      each P all = each_but P (λ i l _. all i l)

  pub refill_winner-Called :
      (o : IsOrder compare) (m : Many R) (leaves : ℕ → Option ℕ) (w room : ℕ)
      (next : Many R → Option (Call R))
      → Open compare stale m leaves w
      → (m.buffers w).window ≡ []
      → GoesAfter m leaves room next
      → Called compare stale m.size room
          (rests compare stale m leaves)
          (refill_winner compare stale w (read (m.buffers w)) m next)
  refill_winner-Called o m leaves w room next h e goes =
      let source = (m.buffers w).source in
      let b : Buffered R = record { window = []; source = source } in
      let same : b ≡ m.buffers w = ap (λ x. record { window = x; source = source }) (sym e) in
      let ends = subst (λ l. Holds (is_player l) (Ends source)) h.player (h.core.ends w h.inside) in
      let f = read-Filled source ends in
      let rows : to_come source ≡ rests compare stale m leaves w =
        ap (rest true) same ∙ ap (λ p. rest (is_player p) (m.buffers w)) (sym h.player) in
      subst
        (λ result.
          Called compare stale m.size room (rests compare stale m leaves)
            (refill_winner compare stale w result m next))
        (sym f.is_result ∙ ap read same)
        (refill-Called o m leaves w room f.live f.after next h f.ends f.filled (f.same ∙ rows) goes)
