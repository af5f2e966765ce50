-- ===== src/Sorting/Scan.antt =====
-- The two inner loops of the sort: where they stop.
use pageserv.Base.{
  ℕ, zero, suc, ◌+◌, ◌<◌, ◌≤◌, ◌≡◌, refl, inl, inr, Bool, false, some, List, [], ◌∷◌, arith, length,
  get_elem?, drop, ◌-◌, ◌==◌, ==_iff, Bool-cases, ap, ◌∙◌,
}
use mathlib.Core.Path.{subst}
use pageserv.Sorting.{scan_up, scan_down}
use pageserv.Sorting.Arrays.{get_elem?-some}
use pageserv.Sorting.Ensures.{Ensures, Ensures-mono}
use pageserv.Sorting.Order.{Below, Above, UpStop, DownStop, Tests}

get_elem?-drop :
    {A : Type 0} (q : List A) (n m : ℕ) → n ≤ m → get_elem? (drop n q) (m - n) ≡ get_elem? q m
get_elem?-drop q zero m h = ap (get_elem? q) (omega arith)
get_elem?-drop q (suc n) zero h = absurd (omega arith)
get_elem?-drop [] (suc n) (suc m) h = refl
get_elem?-drop (x ∷ q) (suc n) (suc m) h =
    ap (get_elem? (drop n q)) (omega arith) ∙ get_elem?-drop q n m (omega arith)

module _ {A : Type 0} (le : A → A → Type 0) (up : A → A → ℕ → ℕ → Bool) (down : A → A → ℕ → Bool)
    (Fault : Type 0) (tests : Tests le up down Fault) where
  -- a stop k places into what is left of the array
  record Run (q : List A) (v : A) (d k : ℕ) : Type 0 where
    bound : k ≤ d
    passed : (m : ℕ) (x : A) → m < k → get_elem? q m ≡ some x → le x v
    stop : (x : A) → get_elem? q k ≡ some x → le v x

  extended_passed :
      (q : List A) (v x : A) (d k : ℕ)
      → le x v
      → Run q v d k
      → (m : ℕ) (y : A) → m < suc k
      → get_elem? (x ∷ q) m ≡ some y
      → le y v
  extended_passed q v x d k small run zero y h e =
      let same : x ≡ y = ground arith in subst (λ z. le z v) same small
  extended_passed q v x d k small run (suc m) y h e = run.passed m y (omega arith) e

  extended : (q : List A) (v x : A) (d k : ℕ) → le x v → Run q v d k → Run (x ∷ q) v (suc d) (suc k)
  extended q v x d k small run = record {
    bound = omega (arith, run.bound);
    passed = extended_passed q v x d k small run;
    stop = run.stop;
  }

  scan_up-Run :
      (q : List A) (v : A) (r base d : ℕ)
      → r ≡ base + d
      → get_elem? q d ≡ some v
      → (k : ℕ) × (scan_up up down q 0 v r base ≡ some (base + k)) × Run q v d k
  unfolding scan_up
  scan_up-Run [] v r base d at e = absurd (ground arith)
  scan_up-Run (x ∷ q) v r base zero at e =
      let here : r ≡ base = omega arith in
      let same : x ≡ v = ground arith in
      let off : up x v base r ≡ false = rw (same, here) (tests.up_self v base) in
      (
        0,
        rw off (ap some (omega arith)),
        record {
          bound = omega arith;
          passed = λ m y h f. absurd (omega arith);
          stop = λ y f. let known : v ≡ y = ground arith in subst (le v) known (tests.le_refl v);
        },
      )
  scan_up-Run (x ∷ q) v r base (suc d) at e = elim (Bool-cases (up x v base r)) [
    | inl on ↦
        let (k, f, run) = scan_up-Run q v r (base + 1) d (omega arith) e in
        (
          suc k,
          rw (on, f) (ap some (omega arith)),
          extended q v x d k (tests.up_on x v base r on) run,
        )
    | inr off ↦ (
      0,
      rw off (ap some (omega arith)),
      record {
        bound = omega arith;
        passed = λ m y h f. absurd (omega arith);
        stop = λ y f.
            let known : x ≡ y = ground arith in
            subst (le v) known (tests.up_off x v base r off (omega arith));
      },
    )
  ]

  scan_up-drop :
      (q : List A) (skip : ℕ) (v : A) (r base : ℕ)
      → scan_up up down q skip v r base ≡ scan_up up down (drop skip q) 0 v r (base + skip)
  unfolding scan_up
  scan_up-drop q zero v r base = ap (scan_up up down q 0 v r) (omega arith)
  scan_up-drop [] (suc skip) v r base = refl
  scan_up-drop (x ∷ q) (suc skip) v r base =
      scan_up-drop q skip v r (base + 1) ∙ ap (scan_up up down (drop skip q) 0 v r) (omega arith)

  pub scan_up-UpStop :
      (q : List A) (i0 : ℕ) (v : A) (r : ℕ)
      → i0 ≤ r
      → get_elem? q r ≡ some v
      → (i : ℕ) × (scan_up up down q i0 v r 0 ≡ some i) × UpStop le q i0 v r i
  unfolding Below
  scan_up-UpStop q i0 v r order pivot =
      let shift = λ (m : ℕ) (h : i0 ≤ m). get_elem?-drop q i0 m h in
      let (k, e, run) =
        scan_up-Run (drop i0 q) v r i0 (r - i0) (omega arith) (shift r order ∙ pivot) in
      let start : 0 + i0 ≡ i0 = omega arith in
      (
        i0 + k,
        scan_up-drop q i0 v r 0 ∙ ap (scan_up up down (drop i0 q) 0 v r) start ∙ e,
        record {
          start = omega arith;
          bound = omega (arith, run.bound);
          passed = λ m x lo hi found. run.passed (m - i0) x (omega arith) (shift m lo ∙ found);
          stop = λ x found. run.stop x (
              let back : i0 + k - i0 ≡ k = omega arith in
              rw (← back) (shift (i0 + k) (omega arith) ∙ found));
        },
      )

  down_further :
      (q : List A) (v : A) (j : ℕ) (x : A)
      → get_elem? q j ≡ some x
      → le v x
      → Ensures Fault (DownStop le q v j) (scan_down up down q v j)
      → Ensures Fault (DownStop le q v (suc j)) (scan_down up down q v j)
  unfolding Above
  down_further q v j x e large found =
      Ensures-mono Fault (DownStop le q v j) (DownStop le q v (suc j)) (scan_down up down q v j)
        found
        (λ k s. record {
          bound = omega (arith, s.bound);
          passed = λ m y lo hi f. elim (Bool-cases (m == j)) [
            | inl hit ↦
                let here = ap (get_elem? q) ((==_iff m j).0 hit) in
                let same : x ≡ y = ground arith in subst (le v) same large
            | inr miss ↦ s.passed m y lo (ground arith) f
          ];
          stop = s.stop;
        })

  pub scan_down-Ensures :
      (q : List A) (v : A) (j0 : ℕ)
      → 0 < j0
      → j0 ≤ length q
      → Ensures Fault (DownStop le q v j0) (scan_down up down q v j0)
  unfolding scan_down Above
  scan_down-Ensures q v zero room inside = absurd (omega arith)
  scan_down-Ensures q v (suc zero) room inside =
      let (x, e) = get_elem?-some q 0 (omega arith) in
      rw e (elim (Bool-cases (down x v 0)) [
        | inl on ↦ rw on (tests.down_end x v on)
        | inr off ↦ rw off record {
          bound = omega arith;
          passed = λ k y lo hi found. absurd (omega arith);
          stop = λ more y found. absurd (omega arith);
        }
      ])
  scan_down-Ensures q v (suc (suc j)) room inside =
      let (x, e) = get_elem?-some q (suc j) (omega arith) in
      rw e (elim (Bool-cases (down x v (suc j))) [
        | inl on ↦ rw on (
            down_further q v (suc j) x e (tests.down_on x v (suc j) on)
              (scan_down-Ensures q v (suc j) (omega arith) (omega arith)))
        | inr off ↦ rw off record {
          bound = omega arith;
          passed = λ k y lo hi found. absurd (omega arith);
          stop = λ more y found.
              let same : x ≡ y = ground arith in
              subst (λ z. le z v) same (tests.down_off x v (suc j) off more);
        }
      ])
