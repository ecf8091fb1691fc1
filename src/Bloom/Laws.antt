-- ===== src/Bloom/Laws.antt =====
-- A filter answers true for every value that was inserted.
use mathlib.Core.Path.{subst}
use native.Mathlib.Nat.{mul-le-mul_right}
use parquet_go.Prelude.{
  ℕ, zero, suc, ◌-◌, ◌/◌, ◌%◌, ◌^◌, ◌≤◌, ◌<◌, ◌≡◌, ◌≢◌, refl, ap, sym, ◌∙◌, Bool, true, List, [],
  ◌∷◌, ◌++◌, Option, some, none, Bool-cases, inl, inr, ==_iff, ◌==◌, length, get_elem?, set,
  length-set, get_elem?-set_self, get_elem?-set_ne, All, arith,
}
use parquet_go.Encoding.Delta.Integers.{extend}
use parquet_go.Bloom.{
  Block, SplitBlockFilter, salts, insert, insert_words, check, fasthash1x64, block_index,
  filter_insert, filter_insert_bulk, filter_check,
}
use parquet_go.Bloom.Words.{
  HasBits, HasBits-check_words, insert_words-HasBits, insert_words-Has, IsLong, false_is_not_true,
}

-- A filter with a number of blocks that is an int32, and eight words in each block.
pub record IsFilter (f : SplitBlockFilter) : Type 0 where
  pub some_blocks : 0 < length f
  pub int32_blocks : length f < 2 ^ 31
  pub long_blocks : All (IsLong salts) f

-- The index of a 64-bit value is within the filter.
pub block_index-lt :
    (f : SplitBlockFilter) (x : ℕ)
    → x < 2 ^ 64
    → 0 < length f
    → length f < 2 ^ 31
    → block_index f x < length f
unfolding block_index fasthash1x64
block_index-lt f x h has int =
    let n = length f in
    let cut : n % 2 ^ 32 ≡ n = omega arith in
    let exact : extend 32 n ≡ n = ground arith in
    let high : x / 2 ^ 32 ≤ 2 ^ 32 - 1 = omega arith in
    let below = mul-le-mul_right n high in rw (cut, exact) (omega (arith, below))

block_index-length :
    (f g : SplitBlockFilter) (x : ℕ) → length g ≡ length f → block_index g x ≡ block_index f x
unfolding block_index
block_index-length f g x e = ap (λ n. fasthash1x64 x (n % 2 ^ 32)) e

pub get_elem?-some {ℓ} :
    {A : Type ℓ} (xs : List A) (i : ℕ) → i < length xs → (a : A) × (get_elem? xs i ≡ some a)
get_elem?-some [] i h = absurd (omega arith)
get_elem?-some (x ∷ xs) zero h = (x, refl)
get_elem?-some (x ∷ xs) (suc i) h = get_elem?-some xs i (omega arith)

pub get_elem?-All :
    (P : Block → Type 0) (f : SplitBlockFilter) (i : ℕ) (b : Block)
    → All P f
    → get_elem? f i ≡ some b
    → P b
get_elem?-All P [] i b h e = absurd (none_some e)
  where
    none_some : none ≡ some b → ⊥
    none_some e = cc
get_elem?-All P (a ∷ f) zero b (h, hs) e = let same : a ≡ b = cc in subst P same h
get_elem?-All P (a ∷ f) (suc i) b (h, hs) e = get_elem?-All P f i b hs e

set-All :
    (P : Block → Type 0) (f : SplitBlockFilter) (i : ℕ) (b : Block)
    → All P f
    → P b
    → All P (set f i b)
set-All P [] i b h p = tt
set-All P (a ∷ f) zero b (h, hs) p = (p, hs)
set-All P (a ∷ f) (suc i) b (h, hs) p = (h, set-All P f i b hs p)

insert_words-IsLong :
    (x : ℕ) (ss : List ℕ) (b : Block) → IsLong ss b → IsLong ss (insert_words x ss b)
unfolding insert_words IsLong
insert_words-IsLong x [] b h = tt
insert_words-IsLong x (s ∷ ss) [] h = absurd h
insert_words-IsLong x (s ∷ ss) (w ∷ b) h = insert_words-IsLong x ss b h

-- The filter answers true for a value.
record Holds (f : SplitBlockFilter) (x : ℕ) : Type 0 where
  block : Block
  found : get_elem? f (block_index f x) ≡ some block
  bits : HasBits (x % 2 ^ 32) salts block

Holds-filter_check : (f : SplitBlockFilter) (x : ℕ) → Holds f x → filter_check f x ≡ some true
unfolding filter_check check
Holds-filter_check f x v =
    rw (v.found, filter_check) (ap some (HasBits-check_words (x % 2 ^ 32) salts v.block v.bits))

-- What an insertion leads to.
record Inserted (f : SplitBlockFilter) (y : ℕ) : Type 0 where
  filter : SplitBlockFilter
  result : filter_insert f y ≡ some filter
  is_filter : IsFilter filter
  keeps : (x : ℕ) → Holds f x → Holds filter x
  holds : Holds filter y

inserted : (f : SplitBlockFilter) (y : ℕ) → IsFilter f → y < 2 ^ 64 → Inserted f y
unfolding insert
inserted f y v h =
    let i = block_index f y in
    let within = block_index-lt f y h v.some_blocks v.int32_blocks in
    let (b, found) = get_elem?-some f i within in
    let b' = insert_words (y % 2 ^ 32) salts b in
    let g = set f i b' in
    let long = get_elem?-All (IsLong salts) f i b v.long_blocks found in
    let size = length-set f i b' in
    let self = get_elem?-set_self f i b' within in
    let index = λ (x : ℕ). block_index-length f g x size in
    record {
      filter = g;
      result = unfold filter_insert in rw (found, filter_insert) refl;
      is_filter = record {
        some_blocks = omega (arith, size, v.some_blocks);
        int32_blocks = omega (arith, size, v.int32_blocks);
        long_blocks =
            set-All (IsLong salts) f i b' v.long_blocks
              (insert_words-IsLong (y % 2 ^ 32) salts b long);
      };
      keeps = λ x held. elim (Bool-cases (i == block_index f x)) [
        | inl e ↦
            let same = (==_iff i (block_index f x)).0 e in
            let block_same : held.block ≡ b =
              some_equal (sym held.found ∙ ap (get_elem? f) (sym same) ∙ found) in
            record {
              block = b';
              found = ap (get_elem? g) (index x ∙ sym same) ∙ self;
              bits =
                  insert_words-HasBits (x % 2 ^ 32) (y % 2 ^ 32) salts b
                    (subst (HasBits (x % 2 ^ 32) salts) block_same held.bits);
            }
        | inr e ↦
            let other : i ≢ block_index f x =
              λ q. false_is_not_true (sym e ∙ (==_iff i (block_index f x)).1 q) in
            record {
              block = held.block;
              found = ap (get_elem? g) (index x) ∙ get_elem?-set_ne f b' other ∙ held.found;
              bits = held.bits;
            }
      ];
      holds = record {
        block = b';
        found = ap (get_elem? g) (index y) ∙ self;
        bits = insert_words-Has (y % 2 ^ 32) salts b long;
      };
    }
  where
    some_equal : {a b : Block} → some a ≡ some b → a ≡ b
    some_equal e = cc

-- `Check` of the filter that an insertion has led to.
abbrev pub check_of : Option SplitBlockFilter → ℕ → Option Bool
check_of none x = none
check_of (some f) x = filter_check f x

bulk-Holds :
    (xs : List ℕ) (f : SplitBlockFilter) (x : ℕ)
    → IsFilter f
    → All (λ y. y < 2 ^ 64) xs
    → Holds f x
    → check_of (filter_insert_bulk f xs) x ≡ some true
unfolding filter_insert_bulk
bulk-Holds [] f x v h held = Holds-filter_check f x held
bulk-Holds (y ∷ xs) f x v (h, hs) held =
    let r = inserted f y v h in
    rw (r.result, filter_insert_bulk) (bulk-Holds xs r.filter x r.is_filter hs (r.keeps x held))

-- A filter of blocks of eight words, fewer than 2 ^ 31 of them and not none, has no false negatives: after
-- the insertion of any 64-bit values, which does not panic, Check answers true for each of them.
pub filter_insert_bulk-filter_check :
    (f : SplitBlockFilter) (xs : List ℕ) (x : ℕ) (ys : List ℕ)
    → IsFilter f
    → All (λ y. y < 2 ^ 64) (xs ++ x ∷ ys)
    → check_of (filter_insert_bulk f (xs ++ x ∷ ys)) x ≡ some true
unfolding filter_insert_bulk
filter_insert_bulk-filter_check f [] x ys v (h, hs) =
    let r = inserted f x v h in
    rw (r.result, filter_insert_bulk) (bulk-Holds ys r.filter x r.is_filter hs r.holds)
filter_insert_bulk-filter_check f (y ∷ xs) x ys v (h, hs) =
    let r = inserted f y v h in
    rw (r.result, filter_insert_bulk)
      (filter_insert_bulk-filter_check r.filter xs x ys r.is_filter hs)
