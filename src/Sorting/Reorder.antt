-- ===== src/Sorting/Reorder.antt =====
-- What the sort may do to an array: move the elements of one range among themselves.
use mathlib.Core.List.{Perm}
use mathlib.Core.List.Perm
use mathlib.Core.Path.{subst}
use pageserv.Base.{
  ℕ, zero, suc, ◌<◌, ◌≤◌, ◌≡◌, refl, ap, sym, ◌∙◌, ◌⊎◌, inl, inr, some, List, [], ◌∷◌, arith, ◌==◌,
  if◌then◌else◌, length, get_elem?, ltb, Bool-cases,
}
use pageserv.Sorting.Arrays.{set, length-set, get_elem?-set, get_elem?-lt, array_ext}

module _ {A : Type 0} where
  set-head-perm :
      (q : List A) (j : ℕ) (x y : A) → get_elem? q j ≡ some y → Perm (x ∷ q) (y ∷ set q j x)
  unfolding set
  set-head-perm [] j x y e = absurd (ground arith)
  set-head-perm (z ∷ q) zero x y e =
      let same : z ≡ y = ground arith in
      subst (λ w. Perm (x ∷ z ∷ q) (w ∷ x ∷ q)) same (Perm.swap z x q)
  set-head-perm (z ∷ q) (suc j) x y e =
      Perm.trans (Perm.swap z x q)
        (Perm.trans (Perm.cons z (set-head-perm q j x y e)) (Perm.swap y z (set q j x)))

  swap-perm-lt :
      (q : List A) (i j : ℕ) (x y : A)
      → i < j
      → get_elem? q i ≡ some x
      → get_elem? q j ≡ some y
      → Perm q (set (set q i y) j x)
  unfolding set
  swap-perm-lt [] i j x y h e f = absurd (ground arith)
  swap-perm-lt (z ∷ q) i zero x y h e f = absurd (omega arith)
  swap-perm-lt (z ∷ q) zero (suc j) x y h e f =
      let same : x ≡ z = ground arith in
      subst (λ w. Perm (z ∷ q) (y ∷ set q j w)) (sym same) (set-head-perm q j z y f)
  swap-perm-lt (z ∷ q) (suc i) (suc j) x y h e f =
      Perm.cons z (swap-perm-lt q i j x y (omega arith) e f)

  pub get_elem?-swap :
      (q : List A) (i j k : ℕ) (x y : A)
      → i < length q
      → j < length q
      → get_elem? (set (set q i y) j x) k
        ≡ (if j == k then some x else if i == k then some y else get_elem? q k)
  get_elem?-swap q i j k x y h g =
      let m : j < length (set q i y) = rw (length-set q i y) g in
      ground (arith, get_elem?-set (set q i y) j k x m, get_elem?-set q i k y h)

  swap-perm :
      (q : List A) (i j : ℕ) (x y : A)
      → get_elem? q i ≡ some x
      → get_elem? q j ≡ some y
      → Perm q (set (set q i y) j x)
  swap-perm q i j x y e f =
      let h = get_elem?-lt q i x e in
      let g = get_elem?-lt q j y f in
      elim (Bool-cases (ltb i j)) [
        | inl before ↦ swap-perm-lt q i j x y (ground arith) e f
        | inr after ↦ elim (Bool-cases (ltb j i)) [
          | inl below ↦
              let same = array_ext (set (set q j x) i y) (set (set q i y) j x) (λ k.
                ground (arith, get_elem?-swap q i j k x y h g, get_elem?-swap q j i k y x g h)) in
              subst (Perm q) same (swap-perm-lt q j i y x (ground arith) f e)
          | inr equal ↦
              let at : i ≡ j = ground arith in
              let same = array_ext q (set (set q i y) j x) (λ k. elim (Bool-cases (j == k)) [
                | inl hit ↦
                    let here : j ≡ k = ground arith in
                    ground (arith, get_elem?-swap q i j k x y h g, ap (get_elem? q) (at ∙ here))
                | inr miss ↦ ground (arith, get_elem?-swap q i j k x y h g)
              ]) in
              subst (Perm q) same (Perm.refl q)
        ]
      ]

  pub record Reordered (l hi : ℕ) (q p : List A) : Type 0 where
    pub same_length : length p ≡ length q
    pub outside : (k : ℕ) → (k < l) ⊎ (hi ≤ k) → get_elem? p k ≡ get_elem? q k
    pub from :
        (k : ℕ) (x : A)
        → l ≤ k
        → k < hi
        → get_elem? p k ≡ some x
        → (m : ℕ) × (l ≤ m) × (m < hi) × (get_elem? q m ≡ some x)
    pub perm : Perm q p

  pub Reordered-refl : (l hi : ℕ) (q : List A) → Reordered l hi q q
  Reordered-refl l hi q = record {
    same_length = refl;
    outside = λ k h. refl;
    from = λ k x h g e. (k, h, g, e);
    perm = Perm.refl q;
  }

  pub Reordered-trans :
      (l hi : ℕ) (q p r : List A) → Reordered l hi q p → Reordered l hi p r → Reordered l hi q r
  Reordered-trans l hi q p r a b = record {
    same_length = b.same_length ∙ a.same_length;
    outside = λ k h. b.outside k h ∙ a.outside k h;
    from = λ k x h g e. let (m, lo, up, f) = b.from k x h g e in a.from m x lo up f;
    perm = Perm.trans a.perm b.perm;
  }

  swap-from :
      {l hi : ℕ} (q : List A) (i j k : ℕ) (x y z : A)
      → get_elem? q i ≡ some x
      → get_elem? q j ≡ some y
      → l ≤ k
      → k < hi
      → l ≤ i
      → i < hi
      → l ≤ j
      → j < hi
      → get_elem? (set (set q i y) j x) k ≡ some z
      → (m : ℕ) × (l ≤ m) × (m < hi) × (get_elem? q m ≡ some z)
  swap-from q i j k x y z e f lo up il ih jl jh found =
      let at = get_elem?-swap q i j k x y (get_elem?-lt q i x e) (get_elem?-lt q j y f) in
      elim (Bool-cases (j == k)) [
        | inl hit ↦ (i, il, ih, ground (arith, at))
        | inr miss ↦ elim (Bool-cases (i == k)) [
          | inl hit ↦ (j, jl, jh, ground (arith, at))
          | inr other ↦ (k, lo, up, ground (arith, at))
        ]
      ]

  pub Reordered-swap :
      (l hi : ℕ) (q : List A) (i j : ℕ) (x y : A)
      → l ≤ i
      → i < hi
      → l ≤ j
      → j < hi
      → get_elem? q i ≡ some x
      → get_elem? q j ≡ some y
      → Reordered l hi q (set (set q i y) j x)
  Reordered-swap l hi q i j x y il ih jl jh e f =
      let h = get_elem?-lt q i x e in
      let g = get_elem?-lt q j y f in
      record {
        same_length = length-set (set q i y) j x ∙ length-set q i y;
        outside = λ k out. ground (arith, get_elem?-swap q i j k x y h g);
        from = λ k z lo up found. swap-from q i j k x y z e f lo up il ih jl jh found;
        perm = swap-perm q i j x y e f;
      }

  widen-from :
      (l hi : ℕ) (q p : List A) (lo up k : ℕ) (x : A)
      → Reordered l hi q p
      → lo ≤ l
      → hi ≤ up
      → lo ≤ k
      → k < up
      → get_elem? p k ≡ some x
      → (m : ℕ) × (lo ≤ m) × (m < up) × (get_elem? q m ≡ some x)
  widen-from l hi q p lo up k x r a b h g e = elim (Bool-cases (ltb k l)) [
    | inl below ↦ (k, h, g, sym (r.outside k (inl (ground arith))) ∙ e)
    | inr past ↦ elim (Bool-cases (ltb k hi)) [
      | inl inside ↦
          let (m, lower, upper, f) = r.from k x (ground arith) (ground arith) e in
          (m, omega arith, omega arith, f)
      | inr above ↦ (k, h, g, sym (r.outside k (inr (ground arith))) ∙ e)
    ]
  ]

  pub Reordered-widen :
      (l hi : ℕ) (q p : List A) (lo up : ℕ)
      → Reordered l hi q p
      → lo ≤ l
      → hi ≤ up
      → Reordered lo up q p
  Reordered-widen l hi q p lo up r a b = record {
    same_length = r.same_length;
    outside = λ k out.
        r.outside k (elim out [ inl below ↦ inl (omega arith) | inr above ↦ inr (omega arith) ]);
    from = λ k x h g e. widen-from l hi q p lo up k x r a b h g e;
    perm = r.perm;
  }
