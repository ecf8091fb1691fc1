-- ===== src/Rows/Merge/Tree/Replay.antt =====
-- The replayed games restore the tree when the head of its winner has changed.
use mathlib.Core.Path.{subst}
use parquet_go.Prelude.{
  ℕ, zero, suc, ◌+◌, ◌*◌, ◌<◌, ◌≡◌, ◌≢◌, refl, sym, ◌⊎◌, inl, inr, true, false, Bool-cases, Option,
  none, some, Ordering, is_le, is_lt, opposite, ◌==◌, IsOrder, arith,
}
use parquet_go.Rows.Merge.Tree.{update, parent, is_before, replay_game, replay_games}
use parquet_go.Rows.Merge.Tree.Nodes.{Under, here, Under-le}
use parquet_go.Rows.Merge.Tree.Won.{
  Games, NotAbove, IsPlayers, Won, from_left, from_right, Beside, top, right_of, left_of,
}
use parquet_go.Rows.Merge.Tree.Frame.{Same, Won-Same, Beside-Same}

-- The two positions below a position.
abbrev pub IsPair : ℕ → ℕ → ℕ → Type 0
IsPair i c s = ((c ≡ 2 * i + 1) × (s ≡ 2 * i + 2)) ⊎ ((c ≡ 2 * i + 2) × (s ≡ 2 * i + 1))

pub update_ne {ℓ} : {A : Type ℓ} (f : ℕ → A) (i : ℕ) (v : A) (j : ℕ) → j ≢ i → update f i v j ≡ f j
update_ne f i v j n = elim (Bool-cases (j == i)) [
  | inl e ↦ absurd (n (ground arith))
  | inr e ↦ rw e refl
]

pub update_self {ℓ} : {A : Type ℓ} (f : ℕ → A) (i : ℕ) (v : A) → update f i v i ≡ v
update_self f i v = elim (Bool-cases (i == i)) [ inl e ↦ rw e refl | inr e ↦ absurd (ground arith) ]

pub lt_le : (k : Ordering) → is_lt k ≡ true → is_le k ≡ true
lt_le Ordering.lt e = refl
lt_le Ordering.eq e = refl
lt_le Ordering.gt e = cc

opposite_le : (k : Ordering) → is_lt k ≡ false → is_le (opposite k) ≡ true
opposite_le Ordering.lt e = cc
opposite_le Ordering.eq e = refl
opposite_le Ordering.gt e = refl

pub le_of_not_lt {ℓ} :
    {R : Type ℓ} {compare : R → R → Ordering} (o : IsOrder compare) (a b : R)
    → is_lt (compare a b) ≡ false
    → is_le (compare b a) ≡ true
le_of_not_lt {compare} o a b h = rw (o.flip a b) (opposite_le (compare a b) h)

module _ {ℓ} {R : Type ℓ} (compare : R → R → Ordering) (size : ℕ) where
  pub Won-pair :
      (g : Games R) (i c s : ℕ) (w : Option ℕ)
      → IsPair i c s
      → i < size
      → Won compare size g c w
      → Won compare size g s (g.losers i)
      → NotAbove compare size g.head w (g.losers i)
      → Won compare size g i w
  Won-pair g i c s w (inl (e, f)) h d l n =
      from_left i w h (subst (λ c. Won compare size g c w) e d)
        (subst (λ s. Won compare size g s (g.losers i)) f l) n
  Won-pair g i c s w (inr (e, f)) h d l n =
      from_right i w h (subst (λ c. Won compare size g c w) e d)
        (subst (λ s. Won compare size g s (g.losers i)) f l) n

  -- The last game beside the path, and those above it.
  pub record Last (g : Games R) (n : ℕ) : Type ℓ where
    pub i : ℕ
    pub s : ℕ
    pub is_parent : parent n ≡ i
    pub pair : IsPair i n s
    pub inside : i < size
    pub above : Beside compare size g i
    pub loser : Won compare size g s (g.losers i)

  pub Beside-Last : (g : Games R) (n : ℕ) → 0 < n → Beside compare size g n → Last g n
  Beside-Last g _ p top = absurd (omega arith)
  Beside-Last g n p (right_of _ i e h b l) = record {
    i = i;
    s = 2 * i + 2;
    is_parent = ground (arith, e);
    pair = inl (e, refl);
    inside = h;
    above = b;
    loser = l;
  }
  Beside-Last g n p (left_of _ i e h b l) = record {
    i = i;
    s = 2 * i + 1;
    is_parent = ground (arith, e);
    pair = inr (e, refl);
    inside = h;
    above = b;
    loser = l;
  }

  module _ (g : Games R) (i : ℕ) (v : Option ℕ) where
    abbrev with_loser_at : Games R
    with_loser_at = record g { losers = update g.losers i v }

    update-Same : (P : ℕ → Type 0) → ((q : ℕ) → P q → q ≢ i) → Same compare size P g with_loser_at
    update-Same P f = record {
      losers = λ q p _. update_ne g.losers i v q (f q p);
      heads = λ _ _. refl;
      leaves = λ _ _. refl;
    }

  -- The winner of the game at a position, and the games above it, as they were.
  abbrev Replayed : Games R → ℕ → Option ℕ × (ℕ → Option ℕ) → Type ℓ
  Replayed g i (w, losers) =
      Won compare size (record g { losers = losers }) i w
      × Beside compare size (record g { losers = losers }) i

  module _ (g : Games R) (players : IsPlayers compare size g.leaves) (i n s : ℕ)
      (pair : IsPair i n s) (inside : i < size) (above : Beside compare size g i) where
    exchange-Replayed :
        (w : Option ℕ) (p : Option ℕ)
        → Won compare size g n w
        → Won compare size g s p
        → NotAbove compare size g.head p w
        → Replayed g i (p, update g.losers i w)
    exchange-Replayed w p d l h =
        let g' = with_loser_at g i w in
        let e : g'.losers i ≡ w = update_self g.losers i w in
        (
          Won-pair g' i s n p (swap pair) inside
              (Won-Same compare size g g' players s p l
                (update-Same g i w (Under s) (below s (inr refl))))
              (subst (Won compare size g' n) (sym e) (
                Won-Same compare size g g' players n w d
                  (update-Same g i w (Under n) (below n (inl refl)))))
              (subst (NotAbove compare size g.head p) (sym e) h),
          Beside-Same compare size g g' players i above
              (update-Same g i w (λ q. Under i q → ⊥) (λ q f e. f (subst (Under i) (sym e) here))),
        )
      where
        swap : IsPair i n s → IsPair i s n
        swap (inl (e, f)) = inr (f, e)
        swap (inr (e, f)) = inl (f, e)

        below : (c : ℕ) → (c ≡ n) ⊎ (c ≡ s) → (q : ℕ) → Under c q → q ≢ i
        below c k q u e = ground (arith, Under-le c q u, pair)

    replay_game-Replayed :
        (o : IsOrder compare) (w p : Option ℕ)
        → g.losers i ≡ p
        → Won compare size g n w
        → Won compare size g s p
        → Replayed g i (replay_game compare size g.head i w p g.losers)
    replay_game-Replayed o w none e d l =
        (Won-pair g i n s w pair inside d (rw e l) (rw e (none_last w)), above)
      where
        none_last : (w : Option ℕ) → NotAbove compare size g.head w none
        none_last none = tt
        none_last (some a) = tt
    replay_game-Replayed o none (some p) e d l = exchange-Replayed none (some p) d l tt
    replay_game-Replayed o (some w) (some p) e d l =
        elim (Bool-cases (is_before compare size g.head p w)) [
          | inl h ↦
              rw h
                (exchange-Replayed (some w) (some p) d l (lt_le (compare (g.head p) (g.head w)) h))
          | inr h ↦ rw h (
            Won-pair g i n s (some w) pair inside d (rw e l)
                (rw e (le_of_not_lt o (g.head p) (g.head w) h)),
            above,
          )
        ]

  -- Games replayed from a position to the root.
  pub record Restored (g : Games R) (result : Option (Option ℕ × (ℕ → Option ℕ))) : Type ℓ where
    pub winner : Option ℕ
    pub losers : ℕ → Option ℕ
    pub is_result : result ≡ some (winner, losers)
    pub won : Won compare size (record g { losers = losers }) 0 winner

  -- The games beside the path from a position, and the winner below it, give the winner of all games.
  pub replay_games-Restored :
      (o : IsOrder compare) (fuel n : ℕ) (g : Games R) (w : Option ℕ)
      → IsPlayers compare size g.leaves
      → 0 < n
      → parent n < fuel
      → Beside compare size g n
      → Won compare size g n w
      → Restored g (replay_games compare size g.head fuel (parent n) w g.losers)
  unfolding replay_games
  replay_games-Restored o zero n g w players p q b d = absurd (omega arith)
  replay_games-Restored o (suc fuel) n g w players p q b d =
      let last = Beside-Last g n p b in
      let i = last.i in
      let (won, above) =
        replay_game-Replayed g players i n last.s last.pair last.inside last.above o w (g.losers i)
          refl d last.loser in
      let r = replay_game compare size g.head i w (g.losers i) g.losers in
      let g' : Games R = record g { losers = r.1 } in
      rw last.is_parent (elim (Bool-cases (i == 0)) [
        | inl e ↦
            rw (e, replay_games)
              (record {
                winner = r.0;
                losers = r.1;
                is_result = refl;
                won = subst (λ i. Won compare size g' i r.0) (ground arith) won;
              })
        | inr e ↦
            let rest =
              replay_games-Restored o fuel i g' r.0 players (ground arith)
                (ground (arith, last.is_parent)) above won in
            rw (e, replay_games)
              (record {
                winner = rest.winner;
                losers = rest.losers;
                is_result = rest.is_result;
                won = rest.won;
              })
      ])
