-- ===== src/Rows/Merge/Many/Start.antt =====
-- The first call reads all readers and plays the initial games.
use mathlib.Core.Path.{subst}
use parquet_go.Prelude.{
  ℕ, zero, suc, ◌+◌, ◌-◌, ◌≤◌, ◌<◌, ◌≡◌, ◌≢◌, refl, sym, ap, ◌∙◌, ◌⊎◌, inl, inr, Bool, true, false,
  Bool-cases, List, [], Option, none, some, Option-cases, Ordering, length, ◌==◌, IsOrder, arith,
}
use parquet_go.Rows.Stream.{Error, Read}
use parquet_go.Rows.Merge.Buffered.{Buffered, ready, Ends, Holds, rest, to_come, read, read-Filled}
use parquet_go.Rows.Merge.Tree.{update}
use parquet_go.Rows.Merge.Tree.Won.{IsPlayers}
use parquet_go.Rows.Merge.Tree.Replay.{update_ne, update_self}
use parquet_go.Rows.Merge.Tree.Play.{play_games-Played}
use parquet_go.Rows.Merge.Many.{
  Many, leaf_of, set_buffer, heads, new_reader, read_buffer, read_buffers, play_all, initialize,
}
use parquet_go.Rows.Merge.Many.State.{is_player, count_players, rests, Settled, Over}
use parquet_go.Rows.Merge.Many.Refill.{count_players-update, without-IsPlayers}

module _ {ℓ} {R : Type ℓ} (compare : R → R → Ordering) (stale : ℕ → R) (size : ℕ)
    (sources : ℕ → List (Read R)) where
  -- A reader that has been read, or is at its end.
  record IsRead (p : Option ℕ) (b : Buffered R) (rows : List R) : Type ℓ where
    ends : Holds (is_player p) (Ends b.source)
    filled : Holds (is_player p) (0 < length b.window)
    same : rest (is_player p) b ≡ rows

  abbrev unread : ℕ → Buffered R
  unread j = record { window = []; source = sources j }

  -- The readers before `i` have been read, and the others have not.
  record Reading (i : ℕ) (leaves : ℕ → Option ℕ) (m : Many R) : Type ℓ where
    same_size : m.size ≡ size
    started : m.initialized ≡ true
    players : IsPlayers compare size leaves
    counted : m.count ≡ count_players size leaves
    behind : (j : ℕ) → j < i → IsRead (leaves j) (m.buffers j) (to_come (sources j))
    ahead : (j : ℕ) → i ≤ j → (leaves j ≡ some j) × (m.buffers j ≡ unread j)

  -- One more reader has been read.
  next-Reading :
      (i : ℕ) (leaves leaves' : ℕ → Option ℕ) (m : Many R) (b : Buffered R) (count : ℕ)
      → Reading i leaves m
      → ((j : ℕ) → j ≢ i → leaves' j ≡ leaves j)
      → IsPlayers compare size leaves'
      → count ≡ count_players size leaves'
      → IsRead (leaves' i) b (to_come (sources i))
      → Reading (suc i) leaves' (record (set_buffer i b m) { count = count })
  next-Reading i leaves leaves' m b count r others players counted own = record {
    same_size = r.same_size;
    started = r.started;
    players = players;
    counted = counted;
    behind = λ j l. elim (Bool-cases (j == i)) [
      | inl e ↦
          let here : i ≡ j = ground arith in
          subst (λ j. IsRead (leaves' j) (update m.buffers i b j) (to_come (sources j))) here
            (subst (λ b. IsRead (leaves' i) b (to_come (sources i)))
              (sym (update_self m.buffers i b)) own)
      | inr e ↦
          let apart : j ≢ i = λ q. ground arith in
          let before : j < i = ground arith in
          subst (λ p. IsRead p (update m.buffers i b j) (to_come (sources j)))
            (sym (others j apart))
            (subst (λ b. IsRead (leaves j) b (to_come (sources j)))
              (sym (update_ne m.buffers i b j apart)) (r.behind j before))
    ];
    ahead = λ j l.
        let apart : j ≢ i = λ q. omega (arith, q) in
        let (player, buffer) = r.ahead j (omega arith) in
        (others j apart ∙ player, update_ne m.buffers i b j apart ∙ buffer);
  }

  record AllRead (result : Option (Option Error × (ℕ → Option ℕ) × Many R)) : Type ℓ where
    leaves : ℕ → Option ℕ
    reader : Many R
    is_result : result ≡ some (none, leaves, reader)
    reading : Reading size leaves reader

  -- The reader `i` is read, and then the others.
  read_buffer-AllRead :
      (i : ℕ) (leaves : ℕ → Option ℕ) (m : Many R) (live : Bool) (b : Buffered R)
      (next : (ℕ → Option ℕ) → Many R → Option (Option Error × (ℕ → Option ℕ) × Many R))
      → i < size
      → Reading i leaves m
      → Holds live (Ends b.source)
      → Holds live (0 < length b.window)
      → rest live b ≡ to_come (sources i)
      → ((leaves' : ℕ → Option ℕ) (m' : Many R)
          → Reading (suc i) leaves' m'
          → AllRead (next leaves' m'))
      → AllRead (read_buffer (ready live b) i leaves m next)
  read_buffer-AllRead i leaves m true b next h r e f same goes =
      let (player, _) = r.ahead i (omega arith) in
      goes leaves (set_buffer i b m) (
        next-Reading i leaves leaves m b m.count r (λ _ _. refl) r.players r.counted
          (subst (λ p. IsRead p b (to_come (sources i))) (sym player)
            (record { ends = e; filled = f; same = same })))
  read_buffer-AllRead i leaves m false b next h r e f same goes =
      let (player, _) = r.ahead i (omega arith) in
      goes (update leaves i none) (record (set_buffer i b m) { count = m.count - 1 })
        (next-Reading i leaves (update leaves i none) m b (m.count - 1) r (update_ne leaves i none)
          (without-IsPlayers compare size leaves i r.players)
          (omega (arith, r.counted, count_players-update size i leaves h player))
          (subst (λ p. IsRead p b (to_come (sources i))) (sym (update_self leaves i none))
            (record { ends = e; filled = f; same = same })))

  read_buffers-AllRead :
      (n i : ℕ) (leaves : ℕ → Option ℕ) (m : Many R)
      → i + n ≡ size
      → ((j : ℕ) → j < size → Ends (sources j))
      → Reading i leaves m
      → AllRead (read_buffers n i leaves m)
  read_buffers-AllRead zero i leaves m h ends r = record {
    leaves = leaves;
    reader = m;
    is_result = refl;
    reading = subst (λ i. Reading i leaves m) (omega arith) r;
  }
  read_buffers-AllRead (suc n) i leaves m h ends r =
      let (_, buffer) = r.ahead i (omega arith) in
      let f = read-Filled (sources i) (ends i (omega arith)) in
      let next : (ℕ → Option ℕ) → Many R → Option (Option Error × (ℕ → Option ℕ) × Many R) =
        λ leaves m. read_buffers n (suc i) leaves m in
      subst (λ result. AllRead (read_buffer result i leaves m next))
        (sym f.is_result ∙ ap read (sym buffer))
        (read_buffer-AllRead i leaves m f.live f.after next (omega arith) r f.ends f.filled f.same
          (λ leaves' m' r'. read_buffers-AllRead n (suc i) leaves' m' (omega arith) ends r'))

  all_players : (n : ℕ) → count_players n (λ i. some i) ≡ n
  all_players zero = refl
  all_players (suc n) = omega (arith, all_players n)

  no_players :
      (n : ℕ) (leaves : ℕ → Option ℕ)
      → count_players n leaves ≡ 0
      → (i : ℕ) → i < n
      → leaves i ≡ none
  no_players zero leaves h i l = absurd (omega arith)
  no_players (suc n) leaves h i l = elim (Option-cases (leaves n)) [
    | inr (w, e) ↦ let h' = rw e at h in absurd (omega arith)
    | inl e ↦ elim (Bool-cases (i == n)) [
      | inl p ↦ let same : n ≡ i = ground arith in subst (λ i. leaves i ≡ none) same e
      | inr p ↦ no_players n leaves (omega arith) i (ground arith)
    ]
  ]

  -- The readers after the initial games.
  pub record Started (result : Option (Option Error × Many R)) : Type ℓ where
    pub leaves : ℕ → Option ℕ
    pub reader : Many R
    pub is_result : result ≡ some (none, reader)
    pub same_size : reader.size ≡ size
    pub state : Settled compare stale reader leaves ⊎ Over compare stale reader leaves
    pub rows : (i : ℕ) → i < size → rests compare stale reader leaves i ≡ to_come (sources i)

  -- The initial games after all readers have been read.
  play_all-Started :
      (o : IsOrder compare) (leaves : ℕ → Option ℕ) (m : Many R)
      → Reading size leaves m
      → Started (play_all compare stale (some (none, leaves, m)))
  play_all-Started o leaves m r = elim (Bool-cases (m.count == 0)) [
    | inl e ↦
        let counted : m.count ≡ 0 = ground arith in
        rw (e, play_all)
          (record {
            leaves = leaves;
            reader = m;
            is_result = refl;
            same_size = r.same_size;
            state = inr (record {
              ended = λ i l.
                  no_players size leaves (sym r.counted ∙ counted) i (omega (arith, r.same_size));
              counted = counted;
              started = r.started;
            });
            rows = λ i l. (r.behind i l).same;
          })
    | inr e ↦
        let played =
          play_games-Played compare m.size (heads compare stale m) leaves
            (subst (λ n. IsPlayers compare n leaves) (sym r.same_size) r.players) o m.size 0
            m.losers (omega arith) in
        rw (e, play_all, played.is_result)
          (record {
            leaves = leaves;
            reader = record m {
              winner = played.winner;
              losers = played.after;
              winner_leaf = leaf_of m.size played.winner;
            };
            is_result = refl;
            same_size = r.same_size;
            state = inl (record {
              core = record {
                players = r.players;
                ends = λ i l. (r.behind i (omega (arith, r.same_size))).ends;
                counted = subst (λ n. m.count ≡ count_players n leaves) (sym r.same_size) r.counted;
                started = r.started;
              };
              filled = λ i l. (r.behind i (omega (arith, r.same_size))).filled;
              won = played.won;
              place = refl;
            });
            rows = λ i l. (r.behind i l).same;
          })
  ]

  pub initialize-Started :
      (o : IsOrder compare)
      → ((j : ℕ) → j < size → Ends (sources j))
      → Started (initialize compare stale (record (new_reader size sources) { initialized = true }))
  initialize-Started o ends =
      let all =
        read_buffers-AllRead size 0 (λ i. some i)
          (record (new_reader size sources) {
            initialized = true;
            losers = λ i. some 0;
            count = size;
          })
          (omega arith) ends
          (record {
            same_size = refl;
            started = refl;
            players = λ i j e. cc;
            counted = sym (all_players size);
            behind = λ j l. absurd (omega arith);
            ahead = λ j l. (refl, refl);
          }) in
      rw (all.is_result, initialize) (play_all-Started o all.leaves all.reader all.reading)
