-- ===== src/Queue/Listing.antt =====
-- The directory of the queue: `listqueue`, `queuedepth`, `readyqueue` and `dofarkle` of
-- pageserv/queue.c. A directory is read as it is when it is opened, in the order of the files; what
-- the functions remove meanwhile is then found missing when it is read.
pub mod Once
pub mod Names
use pageserv.Base.{
  ◌>>=◌, ℕ, ◌+◌, not, Option, none, some, List, [], ◌∷◌, ◌++◌, ◌&&◌, ◌||◌, if◌then◌else◌, Bytes,
  length, ◌==◌,
}
use pageserv.Clib.{equal, contains, starts_with}
use pageserv.Fs.{Files}
use pageserv.Queue.Types.{Queuent, Env, World}
use pageserv.Queue.Format.{readqueuefile}
use pageserv.Queue.Locks.{q_lock, dequeue, readytodeliver, getqueueinfo, gq_checkit, splat}
use pageserv.Queue.Sort.{queuesort}

-- the name of a path in a directory
strip : Bytes → Bytes → Option Bytes
strip [] path = some path
strip (c ∷ d) [] = none
strip (c ∷ d) (x ∷ path) = if c == x then strip d path else none

-- readdir, of the names that begin with a letter
name_with : ℕ → Option Bytes → List Bytes → List Bytes
name_with letter none names = names
name_with letter (some name) names =
    if starts_with name (letter ∷ []) && not (contains name b'/') then name ∷ names else names

unfoldable pub names_with : ℕ → Bytes → Files → List Bytes
unfolding strip name_with
names_with letter dir [] = []
names_with letter dir ((p, c) ∷ fs) = name_with letter (strip dir p) (names_with letter dir fs)

pub queue_names : Bytes → Files → List Bytes
unfolding names_with
queue_names dir fs = names_with b'q' dir fs

unfoldable pub queuedepth : Env → World → ℕ
unfolding queue_names
queuedepth env w = length (queue_names (env.qdir ++ b'/' ∷ []) w.files)

-- what becomes of one name: the entry, if it is taken into the list, and the new state
unfoldable pub list_one : Env → Bytes → Bytes → World → Option Queuent × World
list_one env number name w =
    let (q, w1) = readqueuefile env name w in
    let q' = getqueueinfo env q in
    let (wanted, w2) = gq_checkit env q' number w1 in
    if wanted then (some q', if equal number splat then w2 else q_lock env q' w2) else (none, w2)

-- while((d = readdir(dir)) != NULL), in order
pub list_loop : Env → Bytes → List Bytes → World → List Queuent × World
list_loop env number [] w = ([], w)
list_loop env number (name ∷ names) w =
    let (found, w1) = list_one env number name w in
    let (rest, w2) = list_loop env number names w1 in
    (elim found [ none ↦ rest | some q ↦ q ∷ rest ], w2)

-- The list is sorted where it is not empty. `none` is a read outside the list while sorting.
unfoldable pub listqueue : Env → Bytes → World → Option (List Queuent × World)
unfolding queue_names
listqueue env number w =
    let (list, w') = list_loop env number (queue_names (env.qdir ++ b'/' ∷ []) w.files) w in
    do sorted ← queuesort list; some (sorted, w')

ready_count : Env → List Queuent → World → ℕ × World
ready_count env [] w = (0, w)
ready_count env (q ∷ qs) w =
    let (ready, w1) = readytodeliver env q w in
    let (n, w2) = ready_count env qs w1 in (if ready then n + 1 else n, w2)

unfoldable pub readyqueue : Env → World → Option (ℕ × World)
unfolding ready_count
readyqueue env w = do (qs, w1) ← listqueue env splat w; some (ready_count env qs w1)

-- the first of the list; behind the last entry stands one with no recipient
head_or_end : Env → List Queuent → Queuent
head_or_end env [] = record env.junk { to = [] }
head_or_end env (q ∷ qs) = q

-- dequeue empties a qid that it refuses
kept_qid : Bytes → Bytes
kept_qid [] = []
kept_qid (c ∷ s) = if c == b'q' || c == b'/' then c ∷ s else []

unfoldable pub dofarkle : Env → World → Option (Queuent × World)
unfolding head_or_end kept_qid
dofarkle env w = do
  (qs, w1) ← listqueue env splat w
  let q = head_or_end env qs
  some (record q { qid = kept_qid q.qid }, dequeue env q.qid w1)
