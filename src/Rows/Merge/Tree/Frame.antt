-- ===== src/Rows/Merge/Tree/Frame.antt =====
-- Games elsewhere in the tree do not change the winner of the games below a position.
use mathlib.Core.Path.{subst}
use parquet_go.Prelude.{
  ℕ, ◌+◌, ◌-◌, ◌*◌, ◌<◌, ◌≡◌, refl, sym, ◌∙◌, Option, none, some, Ordering, arith,
}
use parquet_go.Rows.Merge.Tree.{leaf_at}
use parquet_go.Rows.Merge.Tree.Nodes.{Under, here, Under-le, Under-child, Under-apart}
use parquet_go.Rows.Merge.Tree.Won.{
  Games, NotAbove, IsPlayers, Won, leaf, from_left, from_right, Beside, top, right_of, left_of,
  Won-Under,
}

module _ {ℓ} {R : Type ℓ} (compare : R → R → Ordering) (size : ℕ) where
  -- Trees that agree at the positions of which `P` holds.
  pub record Same (P : ℕ → Type 0) (g g' : Games R) : Type ℓ where
    pub losers : (q : ℕ) → P q → q < size → g'.losers q ≡ g.losers q
    pub heads : (j : ℕ) → P (size + j) → g'.head j ≡ g.head j
    pub leaves : (j : ℕ) → P (size + j) → g'.leaves j ≡ g.leaves j

  pub Same-imp :
      {P Q : ℕ → Type 0} {g g' : Games R} → ((q : ℕ) → Q q → P q) → Same P g g' → Same Q g g'
  Same-imp f s = record {
    losers = λ q p h. s.losers q (f q p) h;
    heads = λ j p. s.heads j (f (size + j) p);
    leaves = λ j p. s.leaves j (f (size + j) p);
  }

  leaf_at-same :
      (head head' : ℕ → R) (leaves leaves' : ℕ → Option ℕ) (i : ℕ)
      → leaves' (i - size) ≡ leaves (i - size)
      → leaf_at compare size head leaves i ≡ leaf_at compare size head' leaves' i
  leaf_at-same head head' leaves leaves' i e = rw e refl

  NotAbove-same :
      (head head' : ℕ → R) (a b : Option ℕ)
      → ((j : ℕ) → a ≡ some j → head' j ≡ head j)
      → ((j : ℕ) → b ≡ some j → head' j ≡ head j)
      → NotAbove compare size head a b
      → NotAbove compare size head' a b
  NotAbove-same head head' none none p q n = n
  NotAbove-same head head' none (some b) p q n = n
  NotAbove-same head head' (some a) none p q n = n
  NotAbove-same head head' (some a) (some b) p q n = rw (p a refl, q b refl) n

  module _ (g g' : Games R) (players : IsPlayers compare size g.leaves) where
    left_below : (i q : ℕ) → Under (2 * i + 1) q → Under i q
    left_below i q u = Under-child i (2 * i + 1) q (omega arith) (ground arith) u

    right_below : (i q : ℕ) → Under (2 * i + 2) q → Under i q
    right_below i q u = Under-child i (2 * i + 2) q (omega arith) (ground arith) u

    heads_of_players :
        (i c : ℕ) (w : Option ℕ)
        → ((q : ℕ) → Under c q → Under i q)
        → Won compare size g c w
        → Same (Under i) g g'
        → (j : ℕ) → w ≡ some j
        → g'.head j ≡ g.head j
    heads_of_players i c w f d s j e =
        let (u, _, _) = Won-Under compare size g players c j w d e in s.heads j (f (size + j) u)

    pub Won-Same :
        (i : ℕ) (w : Option ℕ)
        → Won compare size g i w
        → Same (Under i) g g'
        → Won compare size g' i w
    Won-Same i w (leaf _ _ h e) s = leaf i w h (
        e
        ∙ leaf_at-same g.head g'.head g.leaves g'.leaves i
            (s.leaves (i - size) (subst (Under i) (omega arith) here)))
    Won-Same i w (from_left _ _ h d l n) s =
        let e = sym (s.losers i here h) in
        from_left i w h (Won-Same (2 * i + 1) w d (Same-imp (left_below i) s))
          (subst (Won compare size g' (2 * i + 2)) e
            (Won-Same (2 * i + 2) (g.losers i) l (Same-imp (right_below i) s)))
          (subst (NotAbove compare size g'.head w) e (
            NotAbove-same g.head g'.head w (g.losers i)
              (heads_of_players i (2 * i + 1) w (left_below i) d s)
              (heads_of_players i (2 * i + 2) (g.losers i) (right_below i) l s) n))
    Won-Same i w (from_right _ _ h d l n) s =
        let e = sym (s.losers i here h) in
        from_right i w h (Won-Same (2 * i + 2) w d (Same-imp (right_below i) s))
          (subst (Won compare size g' (2 * i + 1)) e
            (Won-Same (2 * i + 1) (g.losers i) l (Same-imp (left_below i) s)))
          (subst (NotAbove compare size g'.head w) e (
            NotAbove-same g.head g'.head w (g.losers i)
              (heads_of_players i (2 * i + 2) w (right_below i) d s)
              (heads_of_players i (2 * i + 1) (g.losers i) (left_below i) l s) n))

    -- Nothing beside the path changes when nothing changes but below its end.
    pub Beside-Same :
        (n : ℕ)
        → Beside compare size g n
        → Same (λ q. Under n q → ⊥) g g'
        → Beside compare size g' n
    Beside-Same _ top s = top
    Beside-Same n (right_of _ i e h b l) s =
        let up : (q : ℕ) → Under n q → Under i q =
          λ q u. left_below i q (subst (λ c. Under c q) e u) in
        right_of n i e h (Beside-Same i b (Same-imp (λ q f u. f (up q u)) s)) (
          subst (Won compare size g' (2 * i + 2))
            (sym (s.losers i (λ u. omega (arith, Under-le n i u)) h))
            (Won-Same (2 * i + 2) (g.losers i) l
              (Same-imp (λ q u v. Under-apart i q (subst (λ c. Under c q) e v) u) s)))
    Beside-Same n (left_of _ i e h b l) s =
        let up : (q : ℕ) → Under n q → Under i q =
          λ q u. right_below i q (subst (λ c. Under c q) e u) in
        left_of n i e h (Beside-Same i b (Same-imp (λ q f u. f (up q u)) s)) (
          subst (Won compare size g' (2 * i + 1))
            (sym (s.losers i (λ u. omega (arith, Under-le n i u)) h))
            (Won-Same (2 * i + 1) (g.losers i) l
              (Same-imp (λ q u v. Under-apart i q u (subst (λ c. Under c q) e v)) s)))
