-- ===== src/Queue/Store.antt =====
-- Storing a page: `storequeue`, `_splitsq` and `get_maxlen` of pageserv/queue.c, `check_time` of
-- pageserv/userdb.c, and `logqueue` with the log types of include/pageserv.h.
pub mod Wrap
pub mod Entry
pub mod Levels
pub mod Accepts
use Prim.Native.Nat.{bit_and}
use pageserv.Base.{
  ℕ, zero, suc, ◌+◌, ◌-◌, ◌≡◌, refl, Bool, true, false, not, Option, none, some, List, [], ◌∷◌,
  ◌++◌, ltb, leb, ◌==◌, ◌&&◌, ◌||◌, if◌then◌else◌, Bytes, ℤ, pos, negsuc, ltb_ℤ, eq_ℤ, length,
  get_or, take, drop, codes,
}
use pageserv.Clib.{is_space}
use pageserv.Hours.{bit_set}
use pageserv.Fs
use pageserv.Queue.Types.{User, Queuent, Terminal, Env, World, LogKind, LogEntry, que_log}
use pageserv.Queue.Format.{buflen, write_entry, fntoqid}
use pageserv.Queue.Names.{newqfile}

abbrev pub pr_high : ℤ
pr_high = pos 5

abbrev pub pr_normal : ℤ
pr_normal = pos 10

-- puttext(s, txt)
unfoldable pub puttext : Bytes → World → World
puttext txt w = record w { sent = w.sent ++ txt }

-- what page_log is told; the sizes and texts of the log lines are not kept
unfoldable pub logqueue : Queuent → LogKind → Bytes → World → World
logqueue q kind reason w = record w {
  log = w.log ++ (record { kind = kind; qid = q.qid; to = q.to; reason = reason } ∷ []);
}

-- high priority pages go at any time, others at the hours that the user takes them
unfoldable pub check_time : Env → Queuent → Bool
check_time env q =
    if eq_ℤ q.priority pr_high
    then true
    else (let clock = if ltb_ℤ q.soonest env.now then env.now else q.soonest in
        let user = env.getuser q.to in bit_set user.times (env.hour_of clock))

unfoldable pub get_maxlen : Env → Queuent → ℤ
get_maxlen env q =
    let configured = env.lookup_int (codes "tuning.maxMessageLength") in
    let default_maxlen = if eq_ℤ configured (pos 0) then pos 250 else configured in
    let term = env.getterm q.u.statid in
    let maxlen = if env.t_exists q.u.statid then term.max_msg_len else pos 0 in
    if eq_ℤ maxlen (pos 0) then default_maxlen else maxlen

-- strlen(message) > maxlen: the comparison is unsigned, so no length is above a negative `maxlen`
unfoldable pub too_long : ℤ → Bytes → Bool
too_long (pos m) message = ltb m (length message)
too_long (negsuc m) message = false

-- the file of an entry that may be queued
store_file : Env → Queuent → Bool → World → Option (Bytes × Bytes) → Option (ℕ × World)
unfolding puttext logqueue
store_file env q quiet w none = none
store_file env q quiet w (some (fn, tmp)) =
    let q1 = record q { submitted = env.now } in
    let w1 = record w { files = Fs.put w.files fn (write_entry q1); tmp = tmp } in
    let q2 = record q1 { qid = fntoqid fn } in
    let w2 = logqueue q2 que_log [] w1 in
    let reply = codes "Queued to " ++ (q2.qid ++ codes ", thank you\n") in
    some (0, if quiet then w2 else puttext reply w2)

-- the second part of `storequeue`: the result is 0, or 1 at a bad time
pub store_now : Env → Queuent → Bool → World → Option (ℕ × World)
unfolding store_file
store_now env q quiet w =
    if check_time env q
    then store_file env q quiet w (newqfile env.qdir env.pid w.files w.tmp)
    else some (
      1,
      if quiet
          then w
          else puttext (codes "User is not accepting normal priority pages now\n\n\n") w,
    )

-- p = maxlen; while(--p > 0 && !isspace(buf[p]));
pub find_break : ℕ → Bytes → ℕ
find_break zero buf = 0
find_break (suc p) buf =
    let before = find_break p buf in
    if p == 0 then 0 else if is_space (get_or buf p 0) then p else before

-- one piece of the text, and what is left of it; the space at which it was cut is left out
pub next_piece : ℕ → Bytes → Bytes × Bytes
unfolding find_break
next_piece maxlen buf =
    let p = find_break maxlen buf in
    if ltb maxlen (length buf)
    then (if p == 0 then (take maxlen buf, drop maxlen buf) else (take p buf, drop (suc p) buf))
    else (buf, [])

-- the rest of the loop of `_splitsq` after one piece was stored
after_piece : Bytes → (Bytes → World → Option (ℕ × World)) → Option (ℕ × World) → Option (ℕ × World)
after_piece rest loop none = none
after_piece rest loop (some (suc e, w)) = some (suc e, w)
after_piece [] loop (some (zero, w)) = some (0, w)
after_piece (c ∷ s) loop (some (zero, w)) = loop (c ∷ s) w

-- do { .. } while(!done), over what is left of the message; a round for each byte is enough
pub split_loop : ℕ → ℕ → (Bytes → World → Option (ℕ × World)) → Bytes → World → Option (ℕ × World)
unfolding after_piece next_piece
split_loop zero maxlen store rest w = none
split_loop (suc fuel) maxlen store rest w =
    let (piece, left) = next_piece maxlen rest in
    after_piece left (split_loop fuel maxlen store) (store piece w)

-- the two assertions; a failing one ends the program, here `none`
pub splitsq : Env → Queuent → ℤ → (Bytes → World → Option (ℕ × World)) → World → Option (ℕ × World)
unfolding split_loop
splitsq env q (negsuc m) store w = none
splitsq env q (pos m) store w =
    if ltb m (buflen - 1) && ltb (length q.message) buflen
    then split_loop (suc (length q.message)) m store q.message w
    else none

-- q.message[maxlen - 1] = 0x00
unfoldable pub truncate : ℤ → Queuent → Queuent
truncate (pos m) q = record q { message = take (m - 1) q.message }
truncate (negsuc m) q = q

-- `storequeue` calls itself on the pieces of a message that it wraps; the first argument bounds how
-- deep.
pub storequeue_at : ℕ → Env → Queuent → Bool → World → Option (ℕ × World)
unfolding store_now splitsq truncate too_long
storequeue_at zero env q quiet w = none
storequeue_at (suc depth) env q quiet w =
    let maxlen = get_maxlen env q in
    let wrapped =
      splitsq env q maxlen (λ piece. storequeue_at depth env (record q { message = piece }) quiet)
        w in
    if too_long maxlen q.message
    then (if eq_ℤ (env.lookup_int (codes "tuning.wrapMessages")) (pos 1)
        then wrapped
        else store_now env (truncate maxlen q) quiet w)
    else store_now env q quiet w

-- The pieces are no longer than the limit, so that two levels are enough.
unfoldable pub storequeue : Env → Queuent → Bool → World → Option (ℕ × World)
unfolding storequeue_at
storequeue env q quiet w = storequeue_at 2 env q quiet w
