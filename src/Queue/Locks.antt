-- ===== src/Queue/Locks.antt =====
-- Lock files and the removal of entries: `q_lock`, `q_unlock`, `q_islocked`, `dequeue`, `sendmail`,
-- `dq_notify`, `readytodeliver`, `getqueueinfo` and `gq_checkit` of pageserv/queue.c.
pub mod Laws
pub mod Locked
pub mod Taken
use Prim.Native.Nat.{bit_and}
use pageserv.Base.{
  ℕ, zero, suc, ◌+◌, ◌-◌, ◌/◌, ◌≡◌, refl, Bool, true, false, not, Option, none, some, List, [], ◌∷◌,
  ◌++◌, ltb, ◌==◌, ◌&&◌, ◌||◌, if◌then◌else◌, Bytes, ℤ, pos, negsuc, ltb_ℤ, neg_ℕ, ◌-ℤ◌, codes,
}
use mathlib.Core.List.{reverse}
use pageserv.Clib.{equal}
use pageserv.Clib.Decimal.{print_nat}
use pageserv.Fs
use pageserv.Fs.{f_exists}
use pageserv.Queue.Types.{Queuent, Env, World, Mail, exp_log}
use pageserv.Queue.Store.{logqueue}

-- strcpy(tmp, qid); tmp[0] = 'l'; an empty qid becomes a text of one letter
unfoldable pub lock_name : Bytes → Bytes
lock_name [] = b'l' ∷ []
lock_name (c ∷ s) = b'l' ∷ s

unfoldable pub in_qdir : Env → Bytes → Bytes
in_qdir env name = env.qdir ++ b'/' ∷ name

unfoldable pub lock_path : Env → Bytes → Bytes
unfolding in_qdir lock_name
lock_path env qid = in_qdir env (lock_name qid)

unfoldable pub q_lock : Env → Queuent → World → World
unfolding lock_path
q_lock env q w = record w {
  files = Fs.put w.files (lock_path env q.qid) (print_nat env.pid ++ b'\n' ∷ []);
}

unfoldable pub q_unlock : Env → Queuent → World → World
unfolding lock_path
q_unlock env q w = record w { files = Fs.unlink w.files (lock_path env q.qid) }

unfoldable pub q_islocked : Env → Queuent → World → Bool
unfolding lock_path
q_islocked env q w = f_exists w.files (lock_path env q.qid)

consed : ℕ → Option Bytes → Option Bytes
consed c none = none
consed c (some t) = some (c ∷ t)

-- From the end of the path back to a 'q' or a '/', over the reversed path; a 'q' becomes an 'l'. The
-- path that dequeue builds always has one of the two.
lock_from_end : Bytes → Option Bytes
unfolding consed
lock_from_end [] = none
lock_from_end (c ∷ s) =
    let more = lock_from_end s in
    if c == b'q' then some (b'l' ∷ s) else if c == b'/' then none else consed c more

unlink_lock : World → Option Bytes → World
unlink_lock w none = w
unlink_lock w (some r) = record w { files = Fs.unlink w.files (reverse r) }

unlink_entry : Bytes → World → World
unfolding lock_from_end unlink_lock
unlink_entry path w =
    unlink_lock (record w { files = Fs.unlink w.files path }) (lock_from_end (reverse path))

-- The file of an entry and its lock go. A qid that begins with neither 'q' nor '/' is refused.
unfoldable pub dequeue : Env → Bytes → World → World
unfolding unlink_entry in_qdir
dequeue env [] w = w
dequeue env (c ∷ s) w =
    if c == b'q'
    then unlink_entry (in_qdir env (c ∷ s)) w
    else if c == b'/'
    then unlink_entry (c ∷ s) w
    else w

-- sendmail: without its two settings it does nothing
send_from : Bytes → Bytes → World → Option Bytes → Option Bytes → World
send_from to format w (some sm) (some from) = record w {
  mail = w.mail ++ (record { from = from; to = to; format = format } ∷ []);
}
send_from to format w _ _ = w

unfoldable pub sendmail : Env → Bytes → Bytes → World → World
unfolding send_from
sendmail env to message w =
    send_from to message w (env.lookup (codes "etc.sendmail")) (env.lookup (codes "etc.mailfrom"))

abbrev pub notify_succ : ℕ
notify_succ = 1

abbrev pub notify_fail : ℕ
notify_fail = 2

unfoldable pub dq_notify : Env → Queuent → Bytes → ℕ → World → World
unfolding sendmail
dq_notify env q message flags w =
    let user = env.getuser q.to in
    let buf =
      codes "Message from pageserv:\n\n\t"
      ++ (message ++ (codes ":\n\nMessage:\n\n\t" ++ q.message)) in
    if bit_and user.flags flags == 0 then w else sendmail env user.notify buf w

-- C's division of a time by 60, towards zero
unfoldable pub minutes : ℤ → ℤ
minutes (pos n) = pos (n / 60)
minutes (negsuc n) = neg_ℕ (suc n / 60)

unfoldable pub fuz : Env → Queuent → ℤ
unfolding minutes
fuz env q =
    let lt = if ltb_ℤ q.soonest q.submitted then q.submitted else q.soonest in
    minutes (env.now -ℤ lt)

-- what is done with an entry that is too old
expire : Env → Queuent → World → World
unfolding logqueue dq_notify dequeue
expire env q w =
    dequeue env q.qid (dq_notify env q (codes "Too old") notify_fail (logqueue q exp_log [] w))

unfoldable pub readytodeliver : Env → Queuent → World → Bool × World
unfolding fuz expire
readytodeliver env q w =
    let f = fuz env q in
    let old = ltb_ℤ env.maxqueuetime f in
    (not old && not (ltb_ℤ f (pos 0)), if old then expire env q w else w)

-- getqueueinfo: nothing is done for an invalid entry
unfoldable pub getqueueinfo : Env → Queuent → Queuent
getqueueinfo env q = elim q.to [ [] ↦ q | c ∷ s ↦ record q { u = env.getuser (c ∷ s) } ]

abbrev pub splat : Bytes
splat = b'*' ∷ []

checked : Env → Queuent → Bytes → World → Bool × World
unfolding readytodeliver q_islocked
checked env q number w =
    let (ready, w') = readytodeliver env q w in
    if equal q.u.statid number
    then (if ready then (not (q_islocked env q w'), w') else (false, w'))
    else (equal number splat, w)

-- gq_checkit: a valid entry for this terminal that is ready and not locked, or any valid entry
unfoldable pub gq_checkit : Env → Queuent → Bytes → World → Bool × World
unfolding checked
gq_checkit env q number w = elim q.to [ [] ↦ (false, w) | c ∷ s ↦ checked env q number w ]
