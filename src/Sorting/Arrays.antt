-- ===== src/Sorting/Arrays.antt =====
-- Lists as arrays: a write seen by a later read, and two arrays that agree everywhere.
use pageserv.Base.{
  ℕ, zero, suc, ◌<◌, ◌≡◌, refl, ap, some, List, [], ◌∷◌, arith, ◌==◌, if◌then◌else◌, length,
  get_elem?,
}
use pageserv.Sorting.{write}

module _ {A : Type 0} where
  unfoldable pub set : List A → ℕ → A → List A
  set [] i x = []
  set (y ∷ q) zero x = x ∷ q
  set (y ∷ q) (suc i) x = y ∷ set q i x

  pub write-set : (q : List A) (i : ℕ) (x : A) → i < length q → write q i x ≡ some (set q i x)
  unfolding write set
  write-set [] i x h = absurd (omega arith)
  write-set (y ∷ q) zero x h = refl
  write-set (y ∷ q) (suc i) x h = rw (write-set q i x (omega arith)) refl

  pub length-set : (q : List A) (i : ℕ) (x : A) → length (set q i x) ≡ length q
  unfolding set
  length-set [] i x = refl
  length-set (y ∷ q) zero x = refl
  length-set (y ∷ q) (suc i) x = ap suc (length-set q i x)

  pub get_elem?-set :
      (q : List A) (i k : ℕ) (x : A)
      → i < length q
      → get_elem? (set q i x) k ≡ (if i == k then some x else get_elem? q k)
  unfolding set
  get_elem?-set [] i k x h = absurd (omega arith)
  get_elem?-set (y ∷ q) zero zero x h = ground arith
  get_elem?-set (y ∷ q) zero (suc k) x h = ground arith
  get_elem?-set (y ∷ q) (suc i) zero x h = ground arith
  get_elem?-set (y ∷ q) (suc i) (suc k) x h = ground (arith, get_elem?-set q i k x)

  pub get_elem?-some : (q : List A) (i : ℕ) → i < length q → (x : A) × (get_elem? q i ≡ some x)
  get_elem?-some [] i h = absurd (omega arith)
  get_elem?-some (x ∷ q) zero h = (x, refl)
  get_elem?-some (x ∷ q) (suc i) h = get_elem?-some q i (omega arith)

  pub get_elem?-lt : (q : List A) (i : ℕ) (x : A) → get_elem? q i ≡ some x → i < length q
  get_elem?-lt [] i x e = absurd (ground arith)
  get_elem?-lt (y ∷ q) zero x e = omega arith
  get_elem?-lt (y ∷ q) (suc i) x e = omega (arith, get_elem?-lt q i x e)

  pub array_ext : (p q : List A) → ((k : ℕ) → get_elem? p k ≡ get_elem? q k) → p ≡ q
  array_ext [] [] h = refl
  array_ext [] (y ∷ q) h = absurd (let e = h 0 in ground arith)
  array_ext (x ∷ p) [] h = absurd (let e = h 0 in ground arith)
  array_ext (x ∷ p) (y ∷ q) h =
      let e = h 0 in
      let head : x ≡ y = ground arith in rw (head, array_ext p q (λ k. h (suc k))) refl
