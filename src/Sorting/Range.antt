-- ===== src/Sorting/Range.antt =====
-- The sort of a range: the two sides of the pivot, each sorted, make a sorted range.
use mathlib.Core.List.{Perm}
use pageserv.Base.{
  ℕ, zero, suc, ◌+◌, ◌-◌, ◌<◌, ◌≤◌, ◌≡◌, refl, ap, sym, ◌∙◌, inl, inr, Bool, some, List, [], ◌∷◌,
  arith, ◌==◌, false, length, get_elem?, Bool-cases, ltb, All,
}
use mathlib.Core.Path.{subst}
use pageserv.Sorting.{place_pivot, sort_range}
use pageserv.Sorting.Ensures.{Ensures, bind-Ensures, Ensures-mono}
use pageserv.Sorting.Arrays.{get_elem?-some, get_elem?-lt}
use pageserv.Sorting.Reorder.{Reordered, Reordered-refl, Reordered-trans, Reordered-widen}
use pageserv.Sorting.Order.{Below, Above, Tests, SortedRange}
use pageserv.Sorting.Pivot.{Placed, IsPlaced, place_pivot-Placed}

module _ {A : Type 0} (le : A → A → Type 0) where
  -- every element is at or below all that follow it
  abbrev pub Sorted : List A → Type 0
  Sorted [] = Unit
  Sorted (x ∷ q) = All (le x) q × Sorted q

  All-get :
      (P : A → Type 0) (q : List A) → ((k : ℕ) (x : A) → get_elem? q k ≡ some x → P x) → All P q
  All-get P [] h = tt
  All-get P (x ∷ q) h = (h 0 x refl, All-get P q (λ k. h (suc k)))

  range-Sorted : (q : List A) → SortedRange le 0 (length q) q → Sorted q
  unfolding SortedRange
  range-Sorted [] h = tt
  range-Sorted (x ∷ q) h = (
    All-get (le x) q (λ k y e.
        h 0 (suc k) x y (omega arith) (omega arith) (omega (arith, get_elem?-lt q k y e)) refl e),
    range-Sorted q
        (λ a b y z lo more hi. h (suc a) (suc b) y z (omega arith) (omega arith) (omega arith)),
  )

module _ {A : Type 0} (le : A → A → Type 0) (up : A → A → ℕ → ℕ → Bool) (down : A → A → ℕ → Bool)
    (Fault : Type 0) (tests : Tests le up down Fault) where
  record SortedTo (l hi : ℕ) (q p : List A) : Type 0 where
    moved : Reordered l hi q p
    sorted : SortedRange le l hi p

  joined-sorted :
      {l r : ℕ} {q p1 p2 p3 : List A} {v : A} {i : ℕ}
      → Placed le up down Fault tests l r q v p1 i
      → SortedTo l i p1 p2
      → SortedTo (i + 1) (suc r) p2 p3
      → SortedRange le l (suc r) p3
  unfolding SortedRange Below Above
  joined-sorted {l} {r} {q} {p1} {p2} {p3} {v} {i} c s1 s2 a b x y lo more hi at_a at_b =
      let same = λ (k : ℕ) (h : k < i + 1). s2.moved.outside k (inl h) in
      let pivot : get_elem? p3 i ≡ some v =
        same i (omega arith) ∙ s1.moved.outside i (inr (omega arith)) ∙ c.pivot in
      let middle = λ (k : ℕ) (z : A) (h : i ≡ k) (f : get_elem? p3 k ≡ some z).
        let at = ap (get_elem? p3) h in let same_element : v ≡ z = ground arith in same_element in
      let small = λ (k : ℕ) (z : A) (kl : l ≤ k) (ki : k < i) (f : get_elem? p3 k ≡ some z).
        let (m, ml, mi, g) = s1.moved.from k z kl ki (sym (same k (omega arith)) ∙ f) in
        c.small m z ml mi g in
      let large = λ (k : ℕ) (z : A) (ik : i < k) (kr : k < suc r) (f : get_elem? p3 k ≡ some z).
        let (m, mi, mr, g) = s2.moved.from k z (omega arith) kr f in
        c.large m z (omega arith) mr (sym (s1.moved.outside m (inr (omega arith))) ∙ g) in
      elim (Bool-cases (ltb b i)) [
        | inl left ↦
            s1.sorted a b x y lo more (ground arith) (sym (same a (ground arith)) ∙ at_a)
              (sym (same b (ground arith)) ∙ at_b)
        | inr reach ↦ elim (Bool-cases (ltb i a)) [
          | inl right ↦ s2.sorted a b x y (ground arith) more hi at_a at_b
          | inr around ↦
              tests.le_trans x v y
                (elim (Bool-cases (i == a)) [
                  | inl hit ↦ subst (le x) (sym (middle a x (ground arith) at_a)) (tests.le_refl x)
                  | inr before ↦ small a x lo (ground arith) at_a
                ])
                (elim (Bool-cases (i == b)) [
                  | inl hit ↦ subst (le v) (middle b y (ground arith) at_b) (tests.le_refl v)
                  | inr after ↦ large b y (ground arith) hi at_b
                ])
        ]
      ]

  joined :
      {l r : ℕ} {q p1 p2 p3 : List A} {v : A} {i : ℕ}
      → Placed le up down Fault tests l r q v p1 i
      → SortedTo l i p1 p2
      → SortedTo (i + 1) (suc r) p2 p3
      → SortedTo l (suc r) q p3
  joined {l} {r} {q} {p1} {p2} {p3} {i} c s1 s2 = record {
    moved = Reordered-trans l (suc r) q p1 p3 c.moved (
        Reordered-trans l (suc r) p1 p2 p3
          (Reordered-widen l i p1 p2 l (suc r) s1.moved (omega arith) (omega (arith, c.upper)))
          (Reordered-widen (i + 1) (suc r) p2 p3 l (suc r) s2.moved (omega (arith, c.lower))
            (omega arith)));
    sorted = joined-sorted c s1 s2;
  }

  few_SortedTo : (l hi : ℕ) (q : List A) → hi ≤ l + 1 → SortedTo l hi q q
  unfolding SortedRange
  few_SortedTo l hi q few = record {
    moved = Reordered-refl l hi q;
    sorted = λ a b x y lo more below e f. absurd (omega arith);
  }

  sort_range-SortedTo :
      (fuel : ℕ) (q : List A) (l hi : ℕ)
      → hi - l < fuel
      → hi ≤ length q
      → Ensures Fault (SortedTo l hi q) (sort_range up down fuel q l hi)
  unfolding sort_range SortedRange
  sort_range-SortedTo zero q l hi enough inside = absurd (omega arith)
  sort_range-SortedTo (suc fuel) q l zero enough inside =
      let nothing : ltb (l + 1) 0 ≡ false = ground arith in
      rw nothing (few_SortedTo l 0 q (omega arith))
  sort_range-SortedTo (suc fuel) q l (suc r) enough inside =
      elim (Bool-cases (ltb (l + 1) (suc r))) [
        | inl two ↦
            let (v, pivot) = get_elem?-some q r (omega arith) in
            let last : suc r - 1 ≡ r = omega arith in
            rw (two, last, pivot)
              (bind-Ensures Fault (IsPlaced le up down Fault tests l r q v) (SortedTo l (suc r) q)
                (place_pivot up down q l v r) _
                (place_pivot-Placed le up down Fault tests q l r v (ground arith) (omega arith)
                  pivot)
                (λ out c.
                  bind-Ensures Fault (SortedTo l out.1 out.0) (SortedTo l (suc r) q)
                    (sort_range up down fuel out.0 l out.1) _
                    (sort_range-SortedTo fuel out.0 l out.1 (omega (arith, c.upper))
                      (rw c.moved.same_length (omega (arith, c.upper))))
                    (λ p2 s1.
                      Ensures-mono Fault (SortedTo (out.1 + 1) (suc r) p2) (SortedTo l (suc r) q)
                        (sort_range up down fuel p2 (out.1 + 1) (suc r))
                        (sort_range-SortedTo fuel p2 (out.1 + 1) (suc r) (omega (arith, c.lower))
                          (omega (arith, s1.moved.same_length, c.moved.same_length)))
                        (λ p3 s2. joined c s1 s2))))
        | inr few ↦ rw few (few_SortedTo l (suc r) q (ground arith))
      ]

  pub sort_range-Sorted :
      (q : List A)
      → Ensures Fault
          (λ p. Perm q p × Sorted le p)
          (sort_range up down (suc (length q)) q 0 (length q))
  sort_range-Sorted q =
      Ensures-mono Fault (SortedTo 0 (length q) q) (λ p. Perm q p × Sorted le p)
        (sort_range up down (suc (length q)) q 0 (length q))
        (sort_range-SortedTo (suc (length q)) q 0 (length q) (omega arith) (omega arith))
        (λ p s. (
          s.moved.perm,
          range-Sorted le p (subst (λ n. SortedRange le 0 n p) (sym s.moved.same_length) s.sorted),
        ))
