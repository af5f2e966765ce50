-- ===== src/Memory/Buckets.antt =====
-- The blocks of a bucket that are at an address.
use mathlib.Core.Path.{subst}
use pageserv.Base.{
  drop, ℕ, ◌%◌, ◌<◌, ◌≡◌, refl, ap, ◌∙◌, inl, inr, true, false, none, some, List, [], ◌∷◌, ◌++◌,
  ◌==◌, if◌then◌else◌, length, Bool-cases, arith,
}
use pageserv.Memory.{Block, find_block, unlink_block}
use pageserv.Memory.Heap.{at_address}

at_address-append :
    (p : ℕ) (m : Block) (blocks : List Block)
    → at_address p (blocks ++ m ∷ [])
      ≡ (if m.p == p then at_address p blocks ++ m ∷ [] else at_address p blocks)
at_address-append p m [] = refl
at_address-append p m (b ∷ blocks) =
    rw (at_address-append p m blocks) (elim (Bool-cases (b.p == p)) [
      | inl here ↦
          rw here
            (elim (Bool-cases (m.p == p)) [ inl same ↦ rw same refl | inr other ↦ rw other refl ])
      | inr there ↦
          rw there
            (elim (Bool-cases (m.p == p)) [ inl same ↦ rw same refl | inr other ↦ rw other refl ])
    ])

-- equal numbers and others
module _ (p q : ℕ) where
  pub same_if : (p == q) ≡ true → p ≡ q
  same_if h = ground (arith, h)

  swapped : (p == q) ≡ (q == p)
  swapped = elim (Bool-cases (p == q)) [
    | inl same ↦ rw same (ground (arith, same))
    | inr other ↦ rw other (ground (arith, other))
  ]

pub insert_at :
    (q : ℕ) (m : Block) (blocks old : List Block)
    → at_address q blocks ≡ old
    → at_address q (blocks ++ m ∷ []) ≡ (if q == m.p then old ++ m ∷ [] else old)
insert_at q m blocks old e =
    at_address-append q m blocks
    ∙ ap (λ b. if b then at_address q blocks ++ m ∷ [] else at_address q blocks) (swapped m.p q)
    ∙ ap (λ l. if q == m.p then l ++ m ∷ [] else l) e

-- addresses in different buckets are different
pub apart : (p q n : ℕ) → (q % n == p % n) ≡ false → (q == p) ≡ false
apart p q n h = elim (Bool-cases (q == p)) [
  | inl same ↦ absurd (ground (arith, h, ap (λ a. a % n) (same_if q p same)))
  | inr other ↦ other
]

pub find_block-at :
    (p : ℕ) (blocks : List Block)
    → find_block p blocks ≡ (elim (at_address p blocks) [ [] ↦ none | m ∷ rest ↦ some m ])
unfolding find_block
find_block-at p [] = refl
find_block-at p (m ∷ blocks) = elim (Bool-cases (m.p == p)) [
  | inl here ↦ rw here refl
  | inr there ↦ rw there (find_block-at p blocks)
]

-- a test on one of two equal numbers is that on the other
test_same : (a b c : ℕ) → (a == b) ≡ true → (c == a) ≡ (c == b)
test_same a b c h = ap (λ n. c == n) (same_if a b h)

-- the block that is unlinked is the oldest at its address, and no other goes
pub unlink_block-at :
    (p : ℕ) (blocks : List Block)
    → 0 < length (at_address p blocks)
    → (left : List Block) × (unlink_block p blocks ≡ some left)
      × ((q : ℕ)
          → at_address q left
            ≡ (if q == p then drop 1 (at_address p blocks) else at_address q blocks))
unfolding unlink_block
unlink_block-at p [] h = absurd (omega (arith, h))
unlink_block-at p (b ∷ blocks) h = elim (Bool-cases (b.p == p)) [
  | inl here ↦ rw here (
    blocks,
    refl,
    λ q. elim (Bool-cases (q == p)) [
      | inl same ↦ rw same (ap (λ a. at_address a blocks) (same_if q p same))
      | inr other ↦
          let missed : (b.p == q) ≡ false = ground (arith, here, other) in rw (other, missed) refl
    ],
  )
  | inr there ↦
      let nonempty : 0 < length (at_address p blocks) =
        subst (λ c. 0 < length (if c then b ∷ at_address p blocks else at_address p blocks)) there
          h in
      let (left, e, same_at) = unlink_block-at p blocks nonempty in
      rw (there, e)
        (
          b ∷ left,
          refl,
          λ q. elim (Bool-cases (q == p)) [
            | inl same ↦
                let missed : (b.p == q) ≡ false = ground (arith, there, same) in
                rw (same, missed)
                  (same_at q
                    ∙ ap (λ c. if c then drop 1 (at_address p blocks) else at_address q blocks)
                        same)
            | inr other ↦ rw other (
                ap (λ l. if b.p == q then b ∷ l else l)
                  (same_at q
                    ∙ ap (λ c. if c then drop 1 (at_address p blocks) else at_address q blocks)
                        other))
          ],
        )
]
