-- ===== src/Encoding/ByteStreamSplit/Streams.antt =====
-- Lists that loops fill, and the streams among them.
use parquet_go.Prelude.{
  ℕ, zero, suc, ◌+◌, ◌*◌, ◌≤◌, ◌<◌, ◌≡◌, refl, ap, ap₂, sym, ◌∙◌, List, [], ◌∷◌, ◌++◌, map, flat,
  get_or, length, take, drop, drop-drop, length-append, take-append_length, drop-append_length,
  append_assoc, arith,
}
use parquet_go.Encoding.ByteStreamSplit.{tabulate, stream}

pub tabulate_equal {ℓ} :
    {A : Type ℓ} (n lo : ℕ) (f g : ℕ → A)
    → ((i : ℕ) → lo ≤ i → i < lo + n → f i ≡ g i)
    → tabulate n lo f ≡ tabulate n lo g
unfolding tabulate
tabulate_equal zero lo f g h = refl
tabulate_equal (suc n) lo f g h =
    ap₂ (λ a l. a ∷ l) (h lo (omega arith) (omega arith))
      (tabulate_equal n (lo + 1) f g (λ i p q. h i (omega arith) (omega arith)))

pub length-tabulate {ℓ} : {A : Type ℓ} (n lo : ℕ) (f : ℕ → A) → length (tabulate n lo f) ≡ n
unfolding tabulate
length-tabulate zero lo f = refl
length-tabulate (suc n) lo f = ap suc (length-tabulate n (lo + 1) f)

-- The elements of a list, one after the other.
pub tabulate-get_or :
    (n : ℕ) (ys xs : List ℕ)
    → n ≤ length xs
    → tabulate n (length ys) (λ i. get_or (ys ++ xs) i 0) ≡ take n xs
unfolding tabulate
tabulate-get_or zero ys xs h = refl
tabulate-get_or (suc n) ys [] h = absurd (omega arith)
tabulate-get_or (suc n) ys (x ∷ xs) h =
    let next = length-append ys (x ∷ []) in
    let whole = append_assoc ys (x ∷ []) xs in
    let ih = rw (whole, next) at (tabulate-get_or n (ys ++ x ∷ []) xs (omega arith)) in
    ap₂ (λ a l. a ∷ l) (get_or-at ys x xs) ih
  where
    get_or-at :
        (front : List ℕ) (a : ℕ) (rest : List ℕ) → get_or (front ++ a ∷ rest) (length front) 0 ≡ a
    get_or-at [] a rest = refl
    get_or-at (f ∷ front) a rest = get_or-at front a rest

pub get_or-drop : (a s : ℕ) (xs : List ℕ) → get_or xs (a + s) 0 ≡ get_or (drop a xs) s 0
get_or-drop zero s xs = let e : 0 + s ≡ s = omega arith in rw e refl
get_or-drop (suc a) s [] = refl
get_or-drop (suc a) s (x ∷ xs) =
    let e : suc a + s ≡ suc (a + s) = omega arith in rw e (get_or-drop a s xs)

pub get_or-map :
    (f : ℕ → ℕ) (xs : List ℕ) (i : ℕ) → i < length xs → get_or (map f xs) i 0 ≡ f (get_or xs i 0)
get_or-map f [] i h = absurd (omega arith)
get_or-map f (x ∷ xs) zero h = refl
get_or-map f (x ∷ xs) (suc i) h = get_or-map f xs i (omega arith)

pub get_or-tabulate :
    (n lo : ℕ) (f : ℕ → ℕ) (i : ℕ) → i < n → get_or (tabulate n lo f) i 0 ≡ f (lo + i)
unfolding tabulate
get_or-tabulate zero lo f i h = absurd (omega arith)
get_or-tabulate (suc n) lo f zero h = ap f (omega arith)
get_or-tabulate (suc n) lo f (suc i) h =
    get_or-tabulate n (lo + 1) f i (omega arith) ∙ ap f (omega arith)

-- A stream is found at its place.
pub stream-flat :
    (k lo n : ℕ) (g : ℕ → List ℕ) (s : ℕ)
    → ((j : ℕ) → length (g j) ≡ n)
    → s < k
    → stream (flat (tabulate k lo g)) n s ≡ g (lo + s)
unfolding tabulate
stream-flat zero lo n g s e h = absurd (omega arith)
stream-flat (suc k) lo n g zero e h =
    let none : 0 * n ≡ 0 = omega arith in
    let here : lo + 0 ≡ lo = omega arith in
    let rest = flat (tabulate k (lo + 1) g) in
    rw (none, here) (ap (λ t. take t (g lo ++ rest)) (sym (e lo)) ∙ take-append_length (g lo) rest)
stream-flat (suc k) lo n g (suc s) e h =
    let rest = flat (tabulate k (lo + 1) g) in
    let past : suc s * n ≡ length (g lo) + s * n = omega (arith, e lo) in
    ap (λ t. take n (drop t (g lo ++ rest))) past
    ∙ ap (take n) (
        sym (drop-drop (length (g lo)) (s * n) (g lo ++ rest))
        ∙ ap (drop (s * n)) (drop-append_length (g lo) rest))
    ∙ stream-flat k (lo + 1) n g s e (omega arith)
    ∙ ap g (omega arith)

pub length-flat-tabulate :
    (k lo n : ℕ) (g : ℕ → List ℕ)
    → ((j : ℕ) → length (g j) ≡ n)
    → length (flat (tabulate k lo g)) ≡ k * n
unfolding tabulate
length-flat-tabulate zero lo n g e = omega arith
length-flat-tabulate (suc k) lo n g e =
    length-append (g lo) (flat (tabulate k (lo + 1) g))
    ∙ omega (arith, e lo, length-flat-tabulate k (lo + 1) n g e)
