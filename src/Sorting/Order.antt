-- ===== src/Sorting/Order.antt =====
-- What the sort needs of the order and of the tests of the two inner loops, which each instance proves of its own.
use pageserv.Base.{ℕ, suc, ◌<◌, ◌≤◌, ◌≡◌, Bool, true, false, some, List, get_elem?}

module _ {A : Type 0} (le : A → A → Type 0) where
  -- the elements of [lo, hi) are at or below v
  unfoldable pub Below : ℕ → ℕ → List A → A → Type 0
  Below lo hi q v = (k : ℕ) (x : A) → lo ≤ k → k < hi → get_elem? q k ≡ some x → le x v

  -- the elements of [lo, hi) are at or above v
  unfoldable pub Above : ℕ → ℕ → List A → A → Type 0
  Above lo hi q v = (k : ℕ) (x : A) → lo ≤ k → k < hi → get_elem? q k ≡ some x → le v x

  -- every two elements of [l, hi) are in order
  unfoldable pub SortedRange : ℕ → ℕ → List A → Type 0
  SortedRange l hi q =
      (a b : ℕ) (x y : A)
      → l ≤ a
      → a < b
      → b < hi
      → get_elem? q a ≡ some x
      → get_elem? q b ≡ some y
      → le x y

  -- where the scan up may stop that starts at i0
  pub record UpStop (q : List A) (i0 : ℕ) (v : A) (r : ℕ) (i : ℕ) : Type 0 where
    pub start : i0 ≤ i
    pub bound : i ≤ r
    pub passed : Below i0 i q v
    pub stop : (x : A) → get_elem? q i ≡ some x → le v x

  -- where the scan down may stop that starts below j0
  pub record DownStop (q : List A) (v : A) (j0 : ℕ) (j : ℕ) : Type 0 where
    pub bound : j < j0
    pub passed : Above (suc j) j0 q v
    pub stop : 0 < j → (x : A) → get_elem? q j ≡ some x → le x v

  -- The laws of the two tests. Fault says whether the scan down may leave the array.
  pub record Tests (up : A → A → ℕ → ℕ → Bool) (down : A → A → ℕ → Bool) (Fault : Type 0)
      : Type 0 where
    pub le_refl : (x : A) → le x x
    pub le_trans : (x y z : A) → le x y → le y z → le x z
    pub up_on : (x v : A) (i r : ℕ) → up x v i r ≡ true → le x v
    pub up_off : (x v : A) (i r : ℕ) → up x v i r ≡ false → i < r → le v x
    pub up_self : (v : A) (r : ℕ) → up v v r r ≡ false
    pub down_on : (x v : A) (j : ℕ) → down x v j ≡ true → le v x
    pub down_off : (x v : A) (j : ℕ) → down x v j ≡ false → 0 < j → le x v
    pub down_end : (x v : A) → down x v 0 ≡ true → Fault
