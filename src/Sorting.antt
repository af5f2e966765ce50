-- ===== src/Sorting.antt =====
-- The quicksort that pageserv/utility.c has for texts and pageserv/queue.c for queue entries, on the
-- array as a list. The two are the same but for the tests of their inner loops, which are parameters
-- here: `up x v i r` and `down x v j` say whether a scan that has read x at i or j goes on. Since i may
-- be -1, the scan up is given the first index that it reads, and the range ends before `hi`, which is
-- r + 1. A read or write outside the array is `none`; in C it has no defined behaviour.
pub mod Arrays
pub mod Ensures
pub mod Reorder
pub mod Order
pub mod Scan
pub mod Partition
pub mod Pivot
pub mod Range
use pageserv.Base.{
  ℕ, zero, suc, ◌+◌, ◌-◌, ◌>>=◌, Bool, Option, none, some, List, [], ◌∷◌, ltb, if◌then◌else◌,
  length, get_elem?,
}

-- q[i] = x
unfoldable pub write : {A : Type 0} → List A → ℕ → A → Option (List A)
write [] i x = none
write (y ∷ q) zero x = some (x ∷ q)
write (y ∷ q) (suc i) x = do rest ← write q i x; some (y ∷ rest)

module _ {A : Type 0} (up : A → A → ℕ → ℕ → Bool) (down : A → A → ℕ → Bool) where
  -- do { i++; } while (up(q[i], v, i, r)); over what is left of the array from index i on
  unfoldable pub scan_up : List A → ℕ → A → ℕ → ℕ → Option ℕ
  scan_up [] skip v r i = none
  scan_up (x ∷ q) (suc skip) v r i = scan_up q skip v r (i + 1)
  scan_up (x ∷ q) zero v r i =
      let next = scan_up q zero v r (i + 1) in if up x v i r then next else some i

  -- do { j--; } while (down(q[j], v, j));
  unfoldable pub scan_down : List A → A → ℕ → Option ℕ
  scan_down q v zero = none
  scan_down q v (suc j) =
      let next = scan_down q v j in do x ← get_elem? q j; if down x v j then next else some j

  -- The outer loop: the array, i, j and t at its end. Without fuel it stops with the array as it stands,
  -- which is no result of the loop, and no fault.
  unfoldable pub partition : ℕ → List A → A → ℕ → ℕ → ℕ → Option (List A × ℕ × ℕ × A)
  unfolding write scan_up scan_down
  partition zero q v r i0 j0 = some (q, i0, j0, v)
  partition (suc fuel) q v r i0 j0 = do
    i ← scan_up q i0 v r 0
    j ← scan_down q v j0
    t ← get_elem? q i
    x ← get_elem? q j
    q1 ← write q i x
    q2 ← write q1 j t
    let next = partition fuel q2 v r (i + 1) j
    if ltb i j then next else some (q2, i, j, t)

  -- the array after the pivot took its place, and that place
  unfoldable pub place_pivot : List A → ℕ → A → ℕ → Option (List A × ℕ)
  unfolding partition
  place_pivot q l v r = do
    (q1, i, j, t) ← partition (suc (length q)) q v r l r
    x ← get_elem? q1 i
    q2 ← write q1 j x
    y ← get_elem? q2 r
    q3 ← write q2 i y
    q4 ← write q3 r t
    some (q4, i)

  -- The fuel bounds the depth of the calls. Without it the array stays unsorted, which is no fault.
  unfoldable pub sort_range : ℕ → List A → ℕ → ℕ → Option (List A)
  unfolding place_pivot
  sort_range zero q l hi = some q
  sort_range (suc fuel) q l hi =
      let sorted = (do
        v ← get_elem? q (hi - 1)
        (q1, i) ← place_pivot q l v (hi - 1)
        q2 ← sort_range fuel q1 l i
        sort_range fuel q2 (i + 1) hi) in
      if ltb (l + 1) hi then sorted else some q
