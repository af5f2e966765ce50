-- ===== src/Sorting/Partition.antt =====
-- The outer loop of the sort: what it leaves before its last swap, which `place_pivot` undoes.
use pageserv.Base.{
  ℕ, zero, suc, ◌+◌, ◌-◌, ◌<◌, ◌≤◌, ◌≡◌, refl, ap, ==_iff, ◌∙◌, inl, inr, Bool, some, List, arith,
  ltb, length, get_elem?, Bool-cases, ◌==◌,
}
use pageserv.Sorting.{partition, scan_down}
use pageserv.Sorting.Arrays.{set, write-set, length-set, get_elem?-some, get_elem?-lt}
use pageserv.Sorting.Ensures.{Ensures, bind-Ensures, Ensures-mono}
use pageserv.Sorting.Reorder.{
  Reordered, Reordered-refl, Reordered-trans, Reordered-swap, get_elem?-swap,
}
use pageserv.Sorting.Scan.{scan_up-UpStop, scan_down-Ensures}
use pageserv.Sorting.Order.{Below, Above, UpStop, DownStop, Tests}

module _ {A : Type 0} (le : A → A → Type 0) (up : A → A → ℕ → ℕ → Bool) (down : A → A → ℕ → Bool)
    (Fault : Type 0) (tests : Tests le up down Fault) where
  -- The end of the loop on the range from l to r: `before` is the array before the last swap.
  pub record Split (l r : ℕ) (q : List A) (v : A) (p : List A) (i j : ℕ) (t : A) : Type 0 where
    pub before : List A
    pub other : A
    pub moved : Reordered l r q before
    pub at_i : get_elem? before i ≡ some t
    pub at_j : get_elem? before j ≡ some other
    pub swapped : p ≡ set (set before i other) j t
    pub lower : l ≤ i
    pub upper : i ≤ r
    pub left : j < r
    pub small : Below le l i before v
    pub large : Above le i (suc r) before v

  abbrev pub IsSplit : ℕ → ℕ → List A → A → List A × ℕ × ℕ × A → Type 0
  IsSplit l r q v (p, i, j, t) = Split l r q v p i j t

  -- The state of the loop when i is i0 - 1 and j is j0.
  pub record Invariant (l r : ℕ) (q : List A) (v : A) (i0 j0 : ℕ) : Type 0 where
    pub start : l ≤ i0
    pub order : i0 ≤ j0
    pub end : j0 ≤ r
    pub room : 0 < j0
    pub inside : r < length q
    pub pivot : get_elem? q r ≡ some v
    pub small : Below le l i0 q v
    pub large : Above le j0 (suc r) q v

  small_to :
      {l r : ℕ} {q : List A} {v : A} {i0 j0 i : ℕ}
      → Invariant l r q v i0 j0
      → UpStop le q i0 v r i
      → Below le l i q v
  unfolding Below
  small_to {i0} inv u k x lo hi found = elim (Bool-cases (ltb k i0)) [
    | inl old ↦ inv.small k x lo (ground arith) found
    | inr new ↦ u.passed k x (ground arith) hi found
  ]

  large_from :
      {l r : ℕ} {q : List A} {v : A} {i0 j0 j : ℕ}
      → Invariant l r q v i0 j0
      → DownStop le q v j0 j
      → Above le (suc j) (suc r) q v
  unfolding Above
  large_from {j0} inv d k x lo hi found = elim (Bool-cases (ltb k j0)) [
    | inl new ↦ d.passed k x lo (ground arith) found
    | inr old ↦ inv.large k x (ground arith) hi found
  ]

  swapped_next :
      {l r : ℕ} (q : List A) {v : A} {i0 j0 : ℕ} (i j : ℕ) (t x : A)
      → Invariant l r q v i0 j0
      → UpStop le q i0 v r i
      → DownStop le q v j0 j
      → i < j
      → get_elem? q i ≡ some t
      → get_elem? q j ≡ some x
      → Invariant l r (set (set q i x) j t) v (i + 1) j
  unfolding Below Above
  swapped_next {l} {r} q i j t x inv u d more e f =
      let at =
        λ (k : ℕ). get_elem?-swap q i j k t x (get_elem?-lt q i t e) (get_elem?-lt q j x f) in
      let same = length-set (set q i x) j t ∙ length-set q i x in
      record {
        start = omega (arith, inv.start, u.start);
        order = omega arith;
        end = omega (arith, inv.end, d.bound);
        room = omega arith;
        inside = rw same inv.inside;
        pivot = ground (arith, at r, inv.pivot, inv.end, d.bound);
        small = λ k z lo hi found. elim (Bool-cases (i == k)) [
          | inl hit ↦ d.stop (omega arith) z (ground (arith, at k, f))
          | inr miss ↦ small_to inv u k z lo (ground arith) (ground (arith, at k))
        ];
        large = λ k z lo hi found. elim (Bool-cases (j == k)) [
          | inl hit ↦ u.stop z (ground (arith, at k, e))
          | inr miss ↦ large_from inv d k z (ground arith) hi (ground (arith, at k))
        ];
      }

  stopped :
      {l r : ℕ} {q : List A} {v : A} {i0 j0 i j : ℕ} {t x : A}
      → Invariant l r q v i0 j0
      → UpStop le q i0 v r i
      → DownStop le q v j0 j
      → j ≤ i
      → get_elem? q i ≡ some t
      → get_elem? q j ≡ some x
      → Split l r q v (set (set q i x) j t) i j t
  unfolding Below Above
  stopped {l} {r} {q} {i} {x} inv u d done e f = record {
    before = q;
    other = x;
    moved = Reordered-refl l r q;
    at_i = e;
    at_j = f;
    swapped = refl;
    lower = omega (arith, inv.start, u.start);
    upper = u.bound;
    left = omega (arith, inv.end, d.bound);
    small = small_to inv u;
    large = λ k z lo hi found. elim (Bool-cases (i == k)) [
      | inl hit ↦ u.stop z (ap (get_elem? q) ((==_iff i k).0 hit) ∙ found)
      | inr miss ↦ large_from inv d k z (ground arith) hi found
    ];
  }

  -- what holds at the end for the array after a swap holds for the one before it
  Split-swapped :
      {l r : ℕ} (q p : List A) {v : A}
      → Reordered l r q p
      → (out : List A × ℕ × ℕ × A) → IsSplit l r p v out
      → IsSplit l r q v out
  Split-swapped {l} {r} q p swap out s = record {
    before = s.before;
    other = s.other;
    moved = Reordered-trans l r q p s.before swap s.moved;
    at_i = s.at_i;
    at_j = s.at_j;
    swapped = s.swapped;
    lower = s.lower;
    upper = s.upper;
    left = s.left;
    small = s.small;
    large = s.large;
  }

  pub partition-Split :
      (fuel : ℕ) (l r : ℕ) (q : List A) (v : A) (i0 j0 : ℕ)
      → j0 - i0 < fuel
      → Invariant l r q v i0 j0
      → Ensures Fault (IsSplit l r q v) (partition up down fuel q v r i0 j0)
  unfolding partition
  partition-Split zero l r q v i0 j0 enough inv = absurd (omega arith)
  partition-Split (suc fuel) l r q v i0 j0 enough inv =
      let (i, stops, u) =
        scan_up-UpStop le up down Fault tests q i0 v r (omega (arith, inv.order, inv.end))
          inv.pivot in
      let (t, e) = get_elem?-some q i (omega (arith, u.bound, inv.inside)) in
      let h = get_elem?-lt q i t e in
      rw stops (
        bind-Ensures Fault (DownStop le q v j0) (IsSplit l r q v) (scan_down up down q v j0) _
          (scan_down-Ensures le up down Fault tests q v j0 inv.room
            (omega (arith, inv.end, inv.inside)))
          (λ j d.
            let (x, f) = get_elem?-some q j (omega (arith, d.bound, inv.end, inv.inside)) in
            let g : j < length (set q i x) = rw (length-set q i x) (get_elem?-lt q j x f) in
            rw (e, f, write-set q i x h, write-set (set q i x) j t g)
              (elim (Bool-cases (ltb i j)) [
                | inl more ↦
                    let lt : i < j = ground arith in
                    let p = set (set q i x) j t in
                    rw more (
                      Ensures-mono Fault (IsSplit l r p v) (IsSplit l r q v)
                        (partition up down fuel p v r (i + 1) j)
                        (partition-Split fuel l r p v (i + 1) j (omega (arith, u.start, d.bound))
                          (swapped_next q i j t x inv u d lt e f))
                        (Split-swapped q p (
                          Reordered-swap l r q i j t x (omega (arith, inv.start, u.start))
                            (omega (arith, d.bound, inv.end)) (omega (arith, inv.start, u.start))
                            (omega (arith, d.bound, inv.end)) e f)))
                | inr done ↦ rw done (stopped inv u d (ground arith) e f)
              ])))
