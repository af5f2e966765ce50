-- ===== src/Memory/Heap.antt =====
-- What the debugging allocator promises: for each address, the list of the blocks that live there.
use pageserv.Base.{
  ℕ, ◌*◌, ◌%◌, ◌^◌, ◌<◌, ◌≡◌, Bool, true, List, [], ◌∷◌, ◌++◌, ◌==◌, if◌then◌else◌, length,
}
use pageserv.Memory.{
  num_membuckets, Block, Table, Effect, kept, aborted, strayed, Call, my_malloc, my_calloc,
  my_strdup, my_realloc, my_free,
}

-- what the program may rely on: whether a block was allocated yet, and the blocks at each address, the
-- oldest first
pub record Heap : Type 0 where
  pub ready : Bool
  pub at : ℕ → List Block

pub data Result : Type 0 where
  live : Heap → Result
  aborts strays : Result

abbrev pub add_block : Block → Heap → Heap
add_block m h = record { ready = true; at = λ q. if q == m.p then h.at q ++ m ∷ [] else h.at q }

-- the oldest block at the address is released, and without one the program is aborted
abbrev pub release_from : List Block → ℕ → Heap → (Heap → Result) → Result
release_from [] p h next = aborts
release_from (m ∷ blocks) p h next = next (record h { at = λ q. if q == p then blocks else h.at q })

abbrev pub release : ℕ → Heap → (Heap → Result) → Result
release p h next = if h.ready then release_from (h.at p) p h next else strays

abbrev pub meaning : Call → Heap → Result
meaning (my_malloc p size file line) h =
    live (add_block (record { p = p; size = size; file = file; line = line }) h)
meaning (my_calloc p n size file line) h =
    live (add_block (record { p = p; size = size * n % 2 ^ 32; file = file; line = line }) h)
meaning (my_strdup p str file line) h =
    live (add_block (record { p = p; size = length str; file = file; line = line }) h)
meaning (my_realloc p ret size file line) h =
    release p h
      (λ h1. live (add_block (record { p = ret; size = size; file = file; line = line }) h1))
meaning (my_free p) h = release p h live

abbrev pub meanings : List Call → Heap → Result
meanings [] h = live h
meanings (c ∷ calls) h = elim (meaning c h) [
  | live h1 ↦ meanings calls h1
  | aborts ↦ aborts
  | strays ↦ strays
]

-- the blocks of a bucket at an address
abbrev pub at_address : ℕ → List Block → List Block
at_address p [] = []
at_address p (m ∷ blocks) = let rest = at_address p blocks in if m.p == p then m ∷ rest else rest

-- the addresses of the call are below 2 ^ 31
abbrev pub IsLow : Call → Type 0
IsLow (my_malloc p size file line) = p < 2 ^ 31
IsLow (my_calloc p n size file line) = p < 2 ^ 31
IsLow (my_strdup p str file line) = p < 2 ^ 31
IsLow (my_realloc p ret size file line) = (p < 2 ^ 31) × (ret < 2 ^ 31)
IsLow (my_free p) = p < 2 ^ 31

pub record Holds (t : Table) (h : Heap) : Type 0 where
  pub ready : t.ready ≡ h.ready
  pub at : (p : ℕ) → p < 2 ^ 31 → at_address p (t.buckets (p % num_membuckets)) ≡ h.at p

abbrev pub Agree : Effect → Result → Type 0
Agree (kept t) (live h) = Holds t h
Agree (kept t) aborts = ⊥
Agree (kept t) strays = ⊥
Agree aborted (live h) = ⊥
Agree aborted aborts = Unit
Agree aborted strays = ⊥
Agree strayed (live h) = ⊥
Agree strayed aborts = ⊥
Agree strayed strays = Unit
