-- ===== src/Sorting/Pivot.antt =====
-- The pivot's place: the writes after the outer loop undo its last swap and put the pivot at i.
use pageserv.Base.{
  ◌>>=◌, ℕ, suc, ◌<◌, ◌≤◌, ◌≡◌, ap, ◌∙◌, inl, inr, Bool, some, List, arith, ◌==◌, length, get_elem?,
  Bool-cases, ==_iff,
}
use mathlib.Core.Path.{subst}
use pageserv.Sorting.{partition, place_pivot, write}
use pageserv.Sorting.Arrays.{
  set, write-set, length-set, get_elem?-set, get_elem?-some, get_elem?-lt, array_ext,
}
use pageserv.Sorting.Ensures.{Ensures, bind-Ensures}
use pageserv.Sorting.Reorder.{
  Reordered, Reordered-trans, Reordered-swap, Reordered-widen, get_elem?-swap,
}
use pageserv.Sorting.Order.{Below, Above, Tests}
use pageserv.Sorting.Partition.{Split, IsSplit, Invariant, partition-Split}

module _ {A : Type 0} where
  undone :
      (b : List A) (i j r : ℕ) (t x v y z : A)
      → get_elem? b i ≡ some t
      → get_elem? b j ≡ some x
      → get_elem? b r ≡ some v
      → j < r
      → get_elem? (set (set b i x) j t) i ≡ some y
      → get_elem? (set (set (set b i x) j t) j y) r ≡ some z
      → set (set (set (set (set b i x) j t) j y) i z) r t ≡ set (set b i v) r t
  undone b i j r t x v y z e f g apart at_i at_r =
      let h = get_elem?-lt b i t e in
      let m = get_elem?-lt b j x f in
      let n = get_elem?-lt b r v g in
      let s1 = set (set b i x) j t in
      let l1 : length s1 ≡ length b = length-set (set b i x) j t ∙ length-set b i x in
      let s2 = set s1 j y in
      let l2 : length s2 ≡ length b = length-set s1 j y ∙ l1 in
      let l3 : length (set s2 i z) ≡ length b = length-set s2 i z ∙ l2 in
      let two = λ (k : ℕ). get_elem?-set s1 j k y (omega arith) in
      let one = λ (k : ℕ). get_elem?-swap b i j k t x h m in
      let late = λ (k : ℕ). get_elem?-set (set s2 i z) r k t (omega arith) in
      let three = λ (k : ℕ). get_elem?-set s2 i k z (omega arith) in
      let goal = λ (k : ℕ). get_elem?-swap b i r k t v h n in
      array_ext (set (set s2 i z) r t) (set (set b i v) r t) (λ k. elim (Bool-cases (j == k)) [
        | inl hit ↦
            let here = ap (get_elem? b) ((==_iff j k).0 hit) in
            ground (arith, late k, three k, two k, goal k, one i, two r, one r)
        | inr miss ↦ ground (arith, late k, three k, two k, one k, goal k, two r, one r)
      ])

module _ {A : Type 0} (le : A → A → Type 0) (up : A → A → ℕ → ℕ → Bool) (down : A → A → ℕ → Bool)
    (Fault : Type 0) (tests : Tests le up down Fault) where
  -- the pivot v in its place i, smaller elements before it and greater ones after it
  pub record Placed (l r : ℕ) (q : List A) (v : A) (p : List A) (i : ℕ) : Type 0 where
    pub moved : Reordered l (suc r) q p
    pub lower : l ≤ i
    pub upper : i ≤ r
    pub pivot : get_elem? p i ≡ some v
    pub small : Below le l i p v
    pub large : Above le i (suc r) p v

  abbrev pub IsPlaced : ℕ → ℕ → List A → A → List A × ℕ → Type 0
  IsPlaced l r q v (p, i) = Placed l r q v p i

  swap-Placed :
      (l r : ℕ) (q : List A) (v : A) (p : List A) (i j : ℕ) (t : A)
      → r < length q
      → get_elem? q r ≡ some v
      → (s : Split le up down Fault tests l r q v p i j t)
      → Placed l r q v (set (set s.before i v) r t) i
  unfolding Below Above
  swap-Placed l r q v p i j t inside pivot s =
      let b = s.before in
      let at_r : get_elem? b r ≡ some v = s.moved.outside r (inr (omega arith)) ∙ pivot in
      let at = λ (k : ℕ).
        get_elem?-swap b i r k t v (get_elem?-lt b i t s.at_i) (get_elem?-lt b r v at_r) in
      record {
        moved =
            Reordered-trans l (suc r) q b (set (set b i v) r t)
              (Reordered-widen l r q b l (suc r) s.moved (omega arith) (omega arith))
              (Reordered-swap l (suc r) b i r t v s.lower (omega (arith, s.upper))
                (omega (arith, s.lower, s.upper)) (omega arith) s.at_i at_r);
        lower = s.lower;
        upper = s.upper;
        pivot = ground (arith, at i, s.at_i, at_r);
        small = λ k x lo hi found. s.small k x lo hi (ground (arith, at k, s.upper));
        large = λ k x lo hi found. elim (Bool-cases (r == k)) [
          | inl last ↦
              s.large i x (omega arith) (omega (arith, s.upper)) (ground (arith, at k, s.at_i))
          | inr other ↦ elim (Bool-cases (i == k)) [
            | inl hit ↦ s.large r x s.upper (omega arith) (ground (arith, at k, at_r))
            | inr miss ↦ s.large k x lo hi (ground (arith, at k))
          ]
        ];
      }

  settled :
      (l r : ℕ) (q : List A) (v : A) (p : List A) (i j : ℕ) (t : A)
      → r < length q
      → get_elem? q r ≡ some v
      → (s : Split le up down Fault tests l r q v p i j t)
      → Ensures Fault (IsPlaced l r q v) (do
        x ← get_elem? p i
        q2 ← write p j x
        y ← get_elem? q2 r
        q3 ← write q2 i y
        q4 ← write q3 r t
        some (q4, i))
  settled l r q v p i j t inside pivot s =
      let b = s.before in
      let s1 = set (set b i s.other) j t in
      let at_r : get_elem? b r ≡ some v = s.moved.outside r (inr (omega arith)) ∙ pivot in
      let h = get_elem?-lt b i t s.at_i in
      let m = get_elem?-lt b j s.other s.at_j in
      let n = get_elem?-lt b r v at_r in
      let l1 : length s1 ≡ length b = length-set (set b i s.other) j t ∙ length-set b i s.other in
      let (x, e) = get_elem?-some s1 i (omega arith) in
      let l2 : length (set s1 j x) ≡ length b = length-set s1 j x ∙ l1 in
      let (y, f) = get_elem?-some (set s1 j x) r (omega arith) in
      let l3 : length (set (set s1 j x) i y) ≡ length b = length-set (set s1 j x) i y ∙ l2 in
      let same = undone b i j r t s.other v x y s.at_i s.at_j at_r s.left e f in
      rw
        (
          s.swapped,
          e,
          write-set s1 j x (omega arith),
          f,
          write-set (set s1 j x) i y (omega arith),
          write-set (set (set s1 j x) i y) r t (omega arith),
          same,
        )
        (swap-Placed l r q v p i j t inside pivot s)

  pub place_pivot-Placed :
      (q : List A) (l r : ℕ) (v : A)
      → l < r
      → r < length q
      → get_elem? q r ≡ some v
      → Ensures Fault (IsPlaced l r q v) (place_pivot up down q l v r)
  unfolding place_pivot Below Above
  place_pivot-Placed q l r v two inside pivot =
      let inv : Invariant le up down Fault tests l r q v l r = record {
        start = omega arith;
        order = omega arith;
        end = omega arith;
        room = omega arith;
        inside = inside;
        pivot = pivot;
        small = λ k x lo hi found. absurd (omega arith);
        large = λ k x lo hi found.
            let last = ap (get_elem? q) {x = k} {y = r} (omega arith) in
            let same : v ≡ x = ground arith in subst (le v) same (tests.le_refl v);
      } in
      bind-Ensures Fault (IsSplit le up down Fault tests l r q v) (IsPlaced l r q v)
        (partition up down (suc (length q)) q v r l r) _
        (partition-Split le up down Fault tests (suc (length q)) l r q v l r (omega arith) inv)
        (λ out s. settled l r q v out.0 out.1 out.2 out.3 inside pivot s)
