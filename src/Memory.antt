-- ===== src/Memory.antt =====
-- pageserv/mymalloc.c: the table of the allocated blocks, for debugging.
pub mod Heap
pub mod Buckets
pub mod Live
use pageserv.Base.{
  ℕ, zero, suc, ◌+◌, ◌-◌, ◌*◌, ◌/◌, ◌%◌, ◌^◌, Bool, true, false, Option, none, some, List, [], ◌∷◌,
  ◌++◌, ◌==◌, ltb, if◌then◌else◌, length, Bytes, ◌>>=◌,
}

abbrev pub num_membuckets : ℕ
num_membuckets = 12289

-- struct memories
pub record Block : Type 0 where
  pub p : ℕ
  pub size : ℕ
  pub file : Bytes
  pub line : ℕ

-- `memories`, which is NULL until it is ready, and `_mem_stats`
pub record Table : Type 0 where
  pub ready : Bool
  pub buckets : ℕ → List Block
  pub stats : ℕ → ℕ

abbrev pub no_memories : Table
no_memories = record { ready = false; buckets = λ i. []; stats = λ i. 0 }

-- (int)p % NUM_MEMBUCKETS, where an address from 2 ^ 31 on is a negative number: an index below 0, which
-- is `none`, but for a multiple
unfoldable pub getmemindex : ℕ → Option ℕ
getmemindex p =
    let address = p % 2 ^ 32 in
    let negative = (2 ^ 32 - address) % num_membuckets in
    if ltb address (2 ^ 31)
    then some (address % num_membuckets)
    else if negative == 0
    then some 0
    else none

-- what a call makes of the table: it may also abort, or read outside the array
pub data Effect : Type 0 where
  kept : Table → Effect
  aborted : Effect
  strayed : Effect

unfoldable pub set_bucket : Table → ℕ → List Block → Table
set_bucket t i blocks = record t { buckets = λ j. if j == i then blocks else t.buckets j }

unfoldable pub register_at : Block → Table → Option ℕ → Effect
unfolding set_bucket
register_at m t none = strayed
register_at m t (some i) =
    let counted = record t {
      ready = true;
      stats = λ j. if j == i then t.stats j + 1 else t.stats j;
    } in
    kept (set_bucket counted i (t.buckets i ++ m ∷ []))

unfoldable pub register_mem : Block → Table → Effect
unfolding getmemindex register_at
register_mem m t = register_at m t (getmemindex m.p)

-- the first block of the bucket at the address
unfoldable pub find_block : ℕ → List Block → Option Block
find_block p [] = none
find_block p (m ∷ blocks) = let rest = find_block p blocks in if m.p == p then some m else rest

-- `none` is a read of memories[index] where there is none
unfoldable pub lookup_mem : ℕ → Table → Option (Option Block)
unfolding getmemindex find_block
lookup_mem p t =
    let found = (do i ← getmemindex p; some (find_block p (t.buckets i))) in
    if t.ready then found else none

-- the bucket without its first block at the address; the loop reads behind a bucket that has none
unfoldable pub unlink_block : ℕ → List Block → Option (List Block)
unlink_block p [] = none
unlink_block p (m ∷ blocks) =
    let rest = (do kept_blocks ← unlink_block p blocks; some (m ∷ kept_blocks)) in
    if m.p == p then some blocks else rest

unfoldable pub unregister_mem : ℕ → Table → Option Table
unfolding getmemindex unlink_block set_bucket
unregister_mem p t = do
  i ← getmemindex p
  blocks ← unlink_block p (t.buckets i)
  some (set_bucket t i blocks)

-- assert(_lookup_mem(p)), or the test of _my_free, and _unregister_mem(p); then what follows
unfoldable pub released : Option (Option Block) → ℕ → Table → (Table → Effect) → Effect
unfolding unregister_mem
released none p t next = strayed
released (some none) p t next = aborted
released (some (some m)) p t next = elim (unregister_mem p t) [ none ↦ strayed | some t1 ↦ next t1 ]

-- The calls, with the address that malloc, calloc, strdup or realloc gives, which is not NULL. A size_t
-- has 32 bits.
pub data Call : Type 0 where
  my_malloc : ℕ → ℕ → Bytes → ℕ → Call
  my_calloc : ℕ → ℕ → ℕ → Bytes → ℕ → Call
  my_strdup : ℕ → Bytes → Bytes → ℕ → Call
  my_realloc : ℕ → ℕ → ℕ → Bytes → ℕ → Call
  my_free : ℕ → Call

unfoldable pub call : Call → Table → Effect
unfolding register_mem lookup_mem released
call (my_malloc p size file line) t =
    register_mem (record { p = p; size = size; file = file; line = line }) t
call (my_calloc p n size file line) t =
    register_mem (record { p = p; size = size * n % 2 ^ 32; file = file; line = line }) t
call (my_strdup p str file line) t =
    register_mem (record { p = p; size = length str; file = file; line = line }) t
call (my_realloc p ret size file line) t =
    released (lookup_mem p t) p t
      (register_mem (record { p = ret; size = size; file = file; line = line }))
call (my_free p) t = released (lookup_mem p t) p t kept

unfoldable pub calls_in_turn : List Call → Table → Effect
unfolding call
calls_in_turn [] t = kept t
calls_in_turn (c ∷ calls) t = elim (call c t) [
  | kept t1 ↦ calls_in_turn calls t1
  | aborted ↦ aborted
  | strayed ↦ strayed
]
