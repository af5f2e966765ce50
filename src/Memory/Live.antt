-- ===== src/Memory/Live.antt =====
-- The table of the blocks implements the lists of the blocks that live at each address.
use mathlib.Core.Path.{subst}
use pageserv.Base.{
  drop, ℕ, ◌+◌, ◌*◌, ◌%◌, ◌^◌, ◌<◌, ◌≡◌, refl, ap, sym, ◌∙◌, inl, inr, Bool, true, false, Option,
  none, some, List, [], ◌∷◌, ◌++◌, ◌==◌, ltb, if◌then◌else◌, length, ◌>>=◌, All, Bool-cases,
  List-cases, arith,
}
use pageserv.Memory.{
  num_membuckets, Block, Table, getmemindex, Effect, kept, aborted, strayed, set_bucket,
  register_at, register_mem, find_block, lookup_mem, unlink_block, unregister_mem, released, Call,
  my_malloc, my_calloc, my_strdup, my_realloc, my_free, call, calls_in_turn,
}
use pageserv.Memory.Heap.{
  Heap, Result, live, aborts, strays, add_block, release_from, release, meaning, meanings,
  at_address, IsLow, Holds, Agree,
}
use pageserv.Memory.Buckets.{insert_at, apart, same_if, find_block-at, unlink_block-at}

getmemindex-low : (p : ℕ) → p < 2 ^ 31 → getmemindex p ≡ some (p % num_membuckets)
unfolding getmemindex
getmemindex-low p h =
    let small : p % 2 ^ 32 ≡ p = omega (arith, h) in
    let positive : ltb p (2 ^ 31) ≡ true = ground (arith, h) in rw (small, positive) refl

-- the table behind _register_mem
abbrev registered : Block → Table → ℕ → Table
registered m t i = record {
  ready = true;
  buckets = λ j. if j == i then t.buckets i ++ m ∷ [] else t.buckets j;
  stats = λ j. if j == i then t.stats j + 1 else t.stats j;
}

register_mem-low :
    (m : Block) (t : Table)
    → m.p < 2 ^ 31
    → register_mem m t ≡ kept (registered m t (m.p % num_membuckets))
unfolding register_mem register_at set_bucket
register_mem-low m t low = ap (register_at m t) (getmemindex-low m.p low)

registered-Holds :
    (m : Block) (t : Table) (h : Heap)
    → Holds t h
    → m.p < 2 ^ 31
    → Holds (registered m t (m.p % num_membuckets)) (add_block m h)
registered-Holds m t h holds low = record {
  ready = refl;
  at = λ q below. elim (Bool-cases (q % num_membuckets == m.p % num_membuckets)) [
    | inl same ↦
        let e = same_if (q % num_membuckets) (m.p % num_membuckets) same in
        rw same (
          insert_at q m (t.buckets (m.p % num_membuckets)) (h.at q)
            (ap (λ i. at_address q (t.buckets i)) (sym e) ∙ holds.at q below))
    | inr other ↦ rw (other, apart m.p q num_membuckets other) (holds.at q below)
  ];
}

register_mem-Holds :
    (m : Block) (t : Table) (h : Heap)
    → m.p < 2 ^ 31
    → Holds t h
    → Agree (register_mem m t) (live (add_block m h))
register_mem-Holds m t h low holds =
    subst (λ o. Agree o (live (add_block m h))) (sym (register_mem-low m t low))
      (registered-Holds m t h holds low)

lookup_mem-low :
    (p : ℕ) (t : Table) (ready : Bool)
    → p < 2 ^ 31
    → t.ready ≡ ready
    → lookup_mem p t
      ≡ (if ready then some (find_block p (t.buckets (p % num_membuckets))) else none)
unfolding lookup_mem
lookup_mem-low p t ready low e =
    ap (λ o. if t.ready then (o >>= λ i. some (find_block p (t.buckets i))) else none)
      (getmemindex-low p low)
    ∙ ap (λ b. if b then some (find_block p (t.buckets (p % num_membuckets))) else none) e

-- the table behind _unregister_mem
abbrev unregistered : ℕ → Table → List Block → Table
unregistered i t left = record t { buckets = λ j. if j == i then left else t.buckets j }

unregister_mem-low :
    (p : ℕ) (t : Table) (left : List Block)
    → p < 2 ^ 31
    → unlink_block p (t.buckets (p % num_membuckets)) ≡ some left
    → unregister_mem p t ≡ some (unregistered (p % num_membuckets) t left)
unfolding unregister_mem set_bucket
unregister_mem-low p t left low e =
    ap (λ o. o >>= λ i. unlink_block p (t.buckets i) >>= λ blocks. some (unregistered i t blocks))
      (getmemindex-low p low)
    ∙ ap (λ o. o >>= λ blocks. some (unregistered (p % num_membuckets) t blocks)) e

unregistered-Holds :
    (p : ℕ) (t : Table) (h : Heap) (left rest : List Block)
    → Holds t h
    → ((q : ℕ)
        → at_address q left
          ≡ (if q == p then rest else at_address q (t.buckets (p % num_membuckets))))
    → Holds
        (unregistered (p % num_membuckets) t left)
        (record h { at = λ q. if q == p then rest else h.at q })
unregistered-Holds p t h left rest holds same_at = record {
  ready = holds.ready;
  at = λ q below. elim (Bool-cases (q % num_membuckets == p % num_membuckets)) [
    | inl same ↦
        let e = same_if (q % num_membuckets) (p % num_membuckets) same in
        rw same (
          same_at q
          ∙ ap (λ l. if q == p then rest else l)
              (ap (λ i. at_address q (t.buckets i)) (sym e) ∙ holds.at q below))
    | inr other ↦ rw (other, apart p q num_membuckets other) (holds.at q below)
  ];
}

Agree-at : (o o1 : Effect) (r r1 : Result) → o ≡ o1 → r ≡ r1 → Agree o1 r1 → Agree o r
Agree-at o o1 r r1 e f x = subst (λ z. Agree z r) (sym e) (subst (Agree o1) (sym f) x)

abbrev first_block : List Block → Option Block
first_block [] = none
first_block (m ∷ blocks) = some m

-- a release: what the table does where a block lives at the address, and where none does
released-Holds :
    (p : ℕ) (t : Table) (h : Heap) (next : Table → Effect) (after : Heap → Result)
    → p < 2 ^ 31
    → Holds t h
    → ((t1 : Table) (h1 : Heap) → Holds t1 h1 → Agree (next t1) (after h1))
    → Agree (released (lookup_mem p t) p t next) (release p h after)
unfolding released
released-Holds p t h next after low holds k = elim (Bool-cases h.ready) [
  | inr empty ↦
      Agree-at _ strayed _ strays
        (ap (λ o. released o p t next) (lookup_mem-low p t false low (holds.ready ∙ empty)))
        (ap (λ b. if b then release_from (h.at p) p h after else strays) empty) tt
  | inl ready ↦
      let bucket = t.buckets (p % num_membuckets) in
      let found : (blocks : List Block)
          → h.at p ≡ blocks
          → lookup_mem p t ≡ some (first_block blocks) =
        λ blocks e.
          lookup_mem-low p t true low (holds.ready ∙ ready)
          ∙ ap some (find_block-at p bucket ∙ ap first_block (holds.at p low ∙ e)) in
      let released_from : release p h after ≡ release_from (h.at p) p h after =
        ap (λ b. if b then release_from (h.at p) p h after else strays) ready in
      elim (List-cases (h.at p)) [
        | inl nobody ↦
            Agree-at _ aborted _ aborts (ap (λ o. released o p t next) (found [] nobody))
              (released_from ∙ ap (λ l. release_from l p h after) nobody) tt
        | inr (m, rest, some_block) ↦
            let there : at_address p bucket ≡ m ∷ rest = holds.at p low ∙ some_block in
            let nonempty : 0 < length (at_address p bucket) = rw there (omega arith) in
            let (left, e, same_at) = unlink_block-at p bucket nonempty in
            Agree-at _ (next (unregistered (p % num_membuckets) t left)) _
              (after (record h { at = λ q. if q == p then rest else h.at q }))
              (ap (λ o. released o p t next) (found (m ∷ rest) some_block)
                ∙ ap (λ o. elim o as (λ x. Effect) [ none ↦ strayed | some t1 ↦ next t1 ])
                    (unregister_mem-low p t left low e))
              (released_from ∙ ap (λ l. release_from l p h after) some_block)
              (k _ _ (
                unregistered-Holds p t h left rest holds (λ q.
                  same_at q ∙ ap (λ l. if q == p then drop 1 l else at_address q bucket) there)))
      ]
]

-- A call that Holds before it does what it means, and Holds behind it.
call-Holds :
    (c : Call) (t : Table) (h : Heap) → IsLow c → Holds t h → Agree (call c t) (meaning c h)
unfolding call
call-Holds (my_malloc p size file line) t h low holds =
    register_mem-Holds (record { p = p; size = size; file = file; line = line }) t h low holds
call-Holds (my_calloc p n size file line) t h low holds =
    register_mem-Holds (record { p = p; size = size * n % 2 ^ 32; file = file; line = line }) t h
      low holds
call-Holds (my_strdup p str file line) t h low holds =
    register_mem-Holds (record { p = p; size = length str; file = file; line = line }) t h low holds
call-Holds (my_realloc p ret size file line) t h low holds =
    let m : Block = record { p = ret; size = size; file = file; line = line } in
    released-Holds p t h (register_mem m) (λ h1. live (add_block m h1)) low.0 holds
      (λ t1 h1 holds1. register_mem-Holds m t1 h1 low.1 holds1)
call-Holds (my_free p) t h low holds =
    released-Holds p t h kept live low holds (λ t1 h1 holds1. holds1)

module _ (calls : List Call) where
  behind :
      (o : Effect) (r : Result)
      → Agree o r
      → ((t : Table) (h : Heap) → Holds t h → Agree (calls_in_turn calls t) (meanings calls h))
      → Agree
          (elim o as (λ x. Effect) [
            | kept t1 ↦ calls_in_turn calls t1
            | aborted ↦ aborted
            | strayed ↦ strayed
          ])
          (elim r as (λ x. Result) [
            | live h1 ↦ meanings calls h1
            | aborts ↦ aborts
            | strays ↦ strays
          ])
  behind (kept t) (live h) a k = k t h a
  behind (kept t) aborts a k = elim a [ ]
  behind (kept t) strays a k = elim a [ ]
  behind aborted (live h) a k = elim a [ ]
  behind aborted aborts a k = tt
  behind aborted strays a k = elim a [ ]
  behind strayed (live h) a k = elim a [ ]
  behind strayed aborts a k = elim a [ ]
  behind strayed strays a k = tt

-- On addresses below 2 ^ 31 the debugging allocator keeps, for each address, the list of the blocks that
-- were allocated and not yet freed there, the oldest first: malloc, calloc, strdup and realloc add a
-- block at the end, free and realloc take the oldest away. The program is aborted exactly where nothing
-- lives at the address that is freed, and leaves the array exactly where nothing was allocated before.
pub calls_in_turn-Holds :
    (calls : List Call) (t : Table) (h : Heap)
    → All IsLow calls
    → Holds t h
    → Agree (calls_in_turn calls t) (meanings calls h)
unfolding calls_in_turn
calls_in_turn-Holds [] t h low holds = holds
calls_in_turn-Holds (c ∷ calls) t h low holds =
    behind calls (call c t) (meaning c h) (call-Holds c t h low.0 holds)
      (λ t1 h1 holds1. calls_in_turn-Holds calls t1 h1 low.1 holds1)
