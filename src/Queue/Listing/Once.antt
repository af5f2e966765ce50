-- ===== src/Queue/Listing/Once.antt =====
-- An entry that `listqueue` of pageserv/queue.c takes for a terminal is locked for the next one.
use pageserv.Base.{
  ◌≡◌, ◌≢◌, refl, sym, ◌∙◌, Bool, true, false, Option, none, some, [], if◌then◌else◌, Bytes, arith,
}
use pageserv.Clib.{equal}
use pageserv.Queue.Types.{Queuent, Env, World}
use pageserv.Queue.Format.{readqueuefile}
use pageserv.Queue.Locks.{q_lock, q_islocked, getqueueinfo, gq_checkit, splat}
use pageserv.Queue.Locks.Locked.{q_lock_file}
use pageserv.Queue.Locks.Taken.{gq_checkit-Taken}
use pageserv.Queue.Listing.{list_one}

-- the two ways of list_one
pick_one : Bool → Bool → Queuent → (World → World) → World → Option Queuent × World
pick_one wanted all q lock w = if wanted then (some q, if all then w else lock w) else (none, w)

list_one-pick_one :
    (env : Env) (number name : Bytes) (w : World)
    → list_one env number name w
      ≡ pick_one
          (gq_checkit env
            (getqueueinfo env (readqueuefile env name w).0)
            number
            (readqueuefile env name w).1).0
          (equal number splat)
          (getqueueinfo env (readqueuefile env name w).0)
          (q_lock env (getqueueinfo env (readqueuefile env name w).0))
          (gq_checkit env
            (getqueueinfo env (readqueuefile env name w).0)
            number
            (readqueuefile env name w).1).1
unfolding list_one pick_one
list_one-pick_one env number name w = refl

pick_one-some :
    (wanted : Bool) (q r : Queuent) (lock : World → World) (w v : World)
    → pick_one wanted false q lock w ≡ (some r, v)
    → (wanted ≡ true) × (r ≡ q) × (v ≡ lock w)
unfolding pick_one
pick_one-some true q r lock w v e = (refl, ground arith, ground arith)
pick_one-some false q r lock w v e = absurd (ground arith)

-- An entry that is taken for one terminal is valid and of this terminal, was not locked when it was read,
-- and is locked afterwards.
pub list_one-locked :
    (env : Env) (number name : Bytes) (w : World) (q : Queuent) (v : World)
    → equal number splat ≡ false
    → list_one env number name w ≡ (some q, v)
    → (q.to ≢ [])
      × (equal q.u.statid number ≡ true)
      × (q_islocked env q (readqueuefile env name w).1 ≡ false)
      × (q_islocked env q v ≡ true)
list_one-locked env number name w q v one e =
    let (r, w1) = readqueuefile env name w in
    let q' = getqueueinfo env r in
    let (wanted, is, locked) =
      pick_one-some (gq_checkit env q' number w1).0 q' q (q_lock env q')
        (gq_checkit env q' number w1).1 v
        (rw one at (sym (list_one-pick_one env number name w) ∙ e)) in
    let taken = gq_checkit-Taken env q' number w1 one wanted in
    rw (is, locked)
      (
        taken.valid,
        taken.terminal,
        taken.unlocked,
        (q_lock_file env q' q' (gq_checkit env q' number w1).1 []).0,
      )
