-- ===== src/Queue/Sort.antt =====
-- `queuecompare` and `queuesort` of pageserv/queue.c, on the array as a list.
pub mod Fault
pub mod Ordered
use pageserv.Base.{ℕ, suc, Bool, not, Option, List, length, ltb_ℤ, eq_ℤ, if◌then◌else◌}
use pageserv.Queue.Types.{Queuent}
use pageserv.Sorting.{sort_range}

unfoldable pub queuecompare : Queuent → Queuent → Bool
queuecompare q1 q2 =
    if eq_ℤ q1.priority q2.priority
    then ltb_ℤ q1.submitted q2.submitted
    else ltb_ℤ q1.priority q2.priority

-- do { i++; } while (queuecompare(q[i], v));
unfoldable pub queue_up : Queuent → Queuent → ℕ → ℕ → Bool
unfolding queuecompare
queue_up x v i r = queuecompare x v

-- do { j--; } while (!queuecompare(q[j], v));
unfoldable pub queue_down : Queuent → Queuent → ℕ → Bool
unfolding queuecompare
queue_down x v j = not (queuecompare x v)

-- queuesort(list, 0, index - 1), which listqueue calls if the list has an element
unfoldable pub queuesort : List Queuent → Option (List Queuent)
unfolding sort_range queue_up queue_down
queuesort q = sort_range queue_up queue_down (suc (length q)) q 0 (length q)
