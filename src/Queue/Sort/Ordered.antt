-- ===== src/Queue/Sort/Ordered.antt =====
-- What `queuesort` of pageserv/queue.c gives when it stays inside its array.
use mathlib.Core.List.{Perm}
use mathlib.Core.Path.{subst}
use pageserv.Base.{
  ◌≡◌, ◌⊎◌, ◌↔◌, inl, inr, sym, ◌∙◌, true, false, some, List, arith, ℤ, pos, negsuc, eq_ℤ, ltb_ℤ,
  Bool-cases,
}
use pageserv.Queue.Types.{Queuent}
use pageserv.Sorting.Ensures.{Ensures}
use pageserv.Sorting.Order.{Tests}
use pageserv.Sorting.Range.{Sorted, sort_range-Sorted}
use pageserv.Queue.Sort.{queuecompare, queue_up, queue_down, queuesort}

-- x may stand before y: its priority is the smaller number, or the same, and it was submitted no later
abbrev pub InOrder : Queuent → Queuent → Type 0
InOrder x y =
    (ltb_ℤ x.priority y.priority ≡ true)
    ⊎ ((x.priority ≡ y.priority) × (ltb_ℤ y.submitted x.submitted ≡ false))

eq_ℤ_iff : (a b : ℤ) → (eq_ℤ a b ≡ true) ↔ (a ≡ b)
eq_ℤ_iff (pos m) (pos n) = ground arith
eq_ℤ_iff (pos m) (negsuc n) = ground arith
eq_ℤ_iff (negsuc m) (pos n) = ground arith
eq_ℤ_iff (negsuc m) (negsuc n) = ground arith

ltb_ℤ_total : (a b : ℤ) → eq_ℤ b a ≡ false → ltb_ℤ b a ≡ false → ltb_ℤ a b ≡ true
ltb_ℤ_total a b h k = ground arith

ltb_ℤ_asym : (a b : ℤ) → ltb_ℤ a b ≡ true → (eq_ℤ b a ≡ false) × (ltb_ℤ b a ≡ false)
ltb_ℤ_asym a b h = ground arith

-- queuecompare says that y comes before x exactly where the two are not in this order
queuecompare-InOrder : (x y : Queuent) → (queuecompare y x ≡ false) ↔ InOrder x y
unfolding queuecompare
queuecompare-InOrder x y = elim (Bool-cases (eq_ℤ y.priority x.priority)) [
  | inl same ↦
      let e = sym ((eq_ℤ_iff y.priority x.priority).0 same) in
      rw same (
        (λ late. inr (e, late)),
        (λ p. elim p [
          | inl less ↦
              let apart = (ltb_ℤ_asym x.priority y.priority less).0 in
              ground (arith, sym same ∙ apart)
          | inr both ↦ both.1
        ]),
      )
  | inr apart ↦ rw apart (
    (λ h. inl (ltb_ℤ_total x.priority y.priority apart h)),
    (λ p. elim p [
      | inl less ↦ (ltb_ℤ_asym x.priority y.priority less).1
      | inr both ↦
          let same = (eq_ℤ_iff y.priority x.priority).1 (sym both.0) in
          ground (arith, sym same ∙ apart)
    ]),
  )
]

not_less : (x y : Queuent) → queuecompare y x ≡ false → InOrder x y
not_less x y h = (queuecompare-InOrder x y).0 h

less : (x y : Queuent) → queuecompare x y ≡ true → InOrder x y
unfolding queuecompare
less x y h = not_less x y (ground arith)

queuecompare_trans :
    (x y z : Queuent)
    → queuecompare y x ≡ false
    → queuecompare z y ≡ false
    → queuecompare z x ≡ false
unfolding queuecompare
queuecompare_trans x y z h k = ground arith

InOrder-refl : (x : Queuent) → InOrder x x
unfolding queuecompare
InOrder-refl x = not_less x x (ground arith)

InOrder-trans : (x y z : Queuent) → InOrder x y → InOrder y z → InOrder x z
InOrder-trans x y z h k =
    not_less x z
      (queuecompare_trans x y z ((queuecompare-InOrder x y).1 h) ((queuecompare-InOrder y z).1 k))

queue_tests : Tests InOrder queue_up queue_down Unit
unfolding queue_up queue_down
queue_tests = record {
  le_refl = InOrder-refl;
  le_trans = InOrder-trans;
  up_on = λ x v i r on. less x v on;
  up_off = λ x v i r off more. not_less v x off;
  up_self = λ v r. (queuecompare-InOrder v v).1 (InOrder-refl v);
  down_on = λ x v j on. not_less v x (ground arith);
  down_off = λ x v j off more. less x v (ground arith);
  down_end = λ x v on. tt;
}

-- `queuesort` comes to its end, or reads or writes outside its array, which is `none`. Where it does not,
-- its result has the entries that it was given, and they are in order: the smaller priority number comes
-- first, and of the same number the one that was submitted first. Running out of fuel would be an
-- unsorted result, so that the fuel is shown to be enough.
pub queuesort-Sorted : (q r : List Queuent) → queuesort q ≡ some r → Perm q r × Sorted InOrder r
unfolding queuesort
queuesort-Sorted q r e =
    subst (Ensures Unit (λ p. Perm q p × Sorted InOrder p)) e
      (sort_range-Sorted InOrder queue_up queue_down Unit queue_tests q)
