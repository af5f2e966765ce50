-- ===== src/Queue/Sort/Fault.antt =====
-- When `queuesort` of pageserv/queue.c reads outside its array.
use pageserv.Base.{
  ℕ, zero, suc, ◌-◌, ◌<◌, ◌≡◌, refl, false, none, some, List, [], ◌∷◌, length, get_elem?, All,
  arith, Option-cases, inl, inr, lt→ltb,
}
use pageserv.Queue.Types.{Queuent}
use pageserv.Queue.Sort.{queuecompare, queue_up, queue_down, queuesort}
use pageserv.Sorting.{scan_up, scan_down, partition, place_pivot, sort_range}

get_elem?-All :
    (P : Queuent → Type 0) (q : List Queuent) (j : ℕ) (x : Queuent)
    → All P q
    → get_elem? q j ≡ some x
    → P x
get_elem?-All P [] j x h e = absurd (ground arith)
get_elem?-All P (y ∷ q) zero x h e = let same : y ≡ x = ground arith in rw (← same) h.0
get_elem?-All P (y ∷ q) (suc j) x h e = get_elem?-All P q j x h.1 e

-- with no entry below the pivot the scan down goes past the first
scan_down-none :
    (q : List Queuent) (v : Queuent) (j : ℕ)
    → All (λ x. queuecompare x v ≡ false) q
    → scan_down queue_up queue_down q v j ≡ none
unfolding scan_down queue_down
scan_down-none q v zero h = refl
scan_down-none q v (suc j) h = elim (Option-cases (get_elem? q j)) [
  | inl outside ↦ rw outside refl
  | inr (x, found) ↦
      rw (found, get_elem?-All (λ y. queuecompare y v ≡ false) q j x h found)
        (scan_down-none q v j h)
]

partition-none :
    (fuel : ℕ) (q : List Queuent) (v : Queuent) (r i j : ℕ)
    → All (λ x. queuecompare x v ≡ false) q
    → partition queue_up queue_down (suc fuel) q v r i j ≡ none
unfolding partition
partition-none fuel q v r i j h = elim (Option-cases (scan_up queue_up queue_down q i v r 0)) [
  | inl outside ↦ rw outside refl
  | inr (k, stopped) ↦ rw (stopped, scan_down-none q v j h) refl
]

place_pivot-none :
    (q : List Queuent) (l : ℕ) (v : Queuent) (r : ℕ)
    → All (λ x. queuecompare x v ≡ false) q
    → place_pivot queue_up queue_down q l v r ≡ none
unfolding place_pivot
place_pivot-none q l v r h = rw (partition-none (length q) q v r l r h) refl

sort_range-none :
    (fuel : ℕ) (q : List Queuent) (v : Queuent)
    → 1 < length q
    → get_elem? q (length q - 1) ≡ some v
    → All (λ x. queuecompare x v ≡ false) q
    → sort_range queue_up queue_down (suc fuel) q 0 (length q) ≡ none
unfolding sort_range
sort_range-none fuel q v two last h =
    rw (lt→ltb 1 (length q) two, last, place_pivot-none q 0 v (length q - 1) h) refl

-- On two entries or more, the last of which is below or equal to each of them, `queuesort` reads outside
-- its array.
pub queuesort-none :
    (q : List Queuent) (v : Queuent)
    → 1 < length q
    → get_elem? q (length q - 1) ≡ some v
    → All (λ x. queuecompare x v ≡ false) q
    → queuesort q ≡ none
unfolding queuesort
queuesort-none q v two last h = sort_range-none (length q) q v two last h
