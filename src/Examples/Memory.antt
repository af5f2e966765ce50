-- ===== src/Examples/Memory.antt =====
-- The theorem on the debugging allocator at a concrete input.
use pageserv.Base.{◌≡◌, refl, List, [], ◌∷◌, arith, codes, false}
use pageserv.Memory.{no_memories, aborted, Call, my_malloc, my_realloc, my_free, calls_in_turn}
use pageserv.Memory.Heap.{Heap, Holds, Agree, meanings}
use pageserv.Memory.Live.{calls_in_turn-Holds}

-- two blocks in one bucket, of which the first moves; then a block that is not there is freed
abbrev moves : List Call
moves =
    my_malloc 8 100 (codes "a.c") 1
    ∷ my_malloc 12297 5 (codes "a.c") 2
    ∷ my_realloc 8 16 200 (codes "a.c") 3
    ∷ my_free 12297
    ∷ my_free 8
    ∷ []

abbrev nothing : Heap
nothing = record { ready = false; at = λ p. [] }

Holds-nothing : Holds no_memories nothing
Holds-nothing = record { ready = refl; at = λ p below. refl }

calls_in_turn-Holds_example : Agree (calls_in_turn moves no_memories) (meanings moves nothing)
calls_in_turn-Holds_example =
    calls_in_turn-Holds moves no_memories nothing
      (omega arith, (omega arith, ((omega arith, omega arith), (omega arith, (omega arith, tt)))))
      Holds-nothing

aborts_at_last : calls_in_turn moves no_memories ≡ aborted
unfolding calls_in_turn
aborts_at_last = refl
