-- ===== src/Delivery/Pass/Entry.antt =====
-- What becomes of one entry of the queue after an answer: delivery/misc.c.
use mathlib.Core.Path.{subst}
use pageserv.Base.{
  ◌≡◌, ap, sym, ◌∙◌, Bool, true, false, none, [], ◌∷◌, ◌++◌, ◌&&◌, ◌||◌, if◌then◌else◌, Bytes, ℤ,
  pos, eq_ℤ, codes, All, arith,
}
use pageserv.Clib.{equal, equal_refl}
use pageserv.Fs
use pageserv.Fs.{get-unlink}
use pageserv.Queue.Types.{Queuent, Env, World}
use pageserv.Queue.Locks.{in_qdir, lock_path, lock_name, dequeue, dq_notify, notify_fail, q_unlock}
use pageserv.Queue.Locks.Laws.{Plain, dequeue_lem}
use pageserv.Delivery.Tap.{c_rs}
use pageserv.Delivery.Pass.{
  Pass, note, settle_entry, delivered, probably_delivered, failed, deferred,
}

-- an answer that takes the entry out of the queue
abbrev pub ends_entry : Bool → ℤ → Bool
ends_entry first r = eq_ℤ r (pos 0) || ((eq_ℤ r (pos b'X') && first) || eq_ℤ r (pos c_rs))

-- the file of the entry and its lock
record Left (env : Env) (qid : Bytes) (gone : Bool) (w v : World) : Type 0 where
  entry :
      Fs.get v.files (in_qdir env qid) ≡ (if gone then none else Fs.get w.files (in_qdir env qid))
  lock : Fs.get v.files (lock_path env qid) ≡ none

names_differ : (dir s : Bytes) → equal (dir ++ b'/' ∷ b'l' ∷ s) (dir ++ b'/' ∷ b'q' ∷ s) ≡ false
unfolding equal
names_differ [] s = ground arith
names_differ (c ∷ dir) s = ground (arith, names_differ dir s)

lock-entry :
    (env : Env) (s : Bytes) → equal (lock_path env (b'q' ∷ s)) (in_qdir env (b'q' ∷ s)) ≡ false
unfolding lock_path in_qdir lock_name
lock-entry env s = names_differ env.qdir s

dequeue-Left :
    (env : Env) (s : Bytes) (w v : World)
    → All Plain s
    → Left env (b'q' ∷ s) true w (dequeue env (b'q' ∷ s) v)
dequeue-Left env s w v plain =
    let gone = (dequeue_lem env s v plain).0 in
    record {
      entry = gone (in_qdir env (b'q' ∷ s)) ∙ simp equal_refl (ground arith);
      lock = gone (lock_path env (b'q' ∷ s)) ∙ simp equal_refl (ground arith);
    }

q_unlock-Left :
    (env : Env) (q : Queuent) (s : Bytes) (w : World)
    → q.qid ≡ b'q' ∷ s
    → Left env q.qid false w (q_unlock env q w)
unfolding q_unlock
q_unlock-Left env q s w e = record {
  entry =
      get-unlink w.files (lock_path env q.qid) (in_qdir env q.qid)
      ∙ ap (λ (b : Bool). if b then none else Fs.get w.files (in_qdir env q.qid))
          (ap (λ (i : Bytes). equal (lock_path env i) (in_qdir env i)) e ∙ lock-entry env s);
  lock =
      get-unlink w.files (lock_path env q.qid) (lock_path env q.qid)
      ∙ simp equal_refl (ground arith);
}

if-Left :
    (b c : Bool) (env : Env) (qid : Bytes) (w : World) (x y : Pass)
    → Left env qid true w x.world
    → Left env qid c w y.world
    → Left env qid (b || c) w (if b then x else y).world
if-Left true c env qid w x y hx hy = hx
if-Left false c env qid w x y hx hy = hy

if-last :
    (b : Bool) (env : Env) (qid : Bytes) (w : World) (x y : Pass)
    → Left env qid true w x.world
    → Left env qid false w y.world
    → Left env qid b w (if b then x else y).world
if-last true env qid w x y hx hy = hx
if-last false env qid w x y hx hy = hy

settled :
    (env : Env) (first : Bool) (q : Queuent) (s : Bytes) (r : ℤ) (d : Pass)
    → q.qid ≡ b'q' ∷ s
    → All Plain s
    → Left env q.qid (ends_entry first r) d.world (settle_entry env first q r d).world
unfolding settle_entry note
settled env first q s r d e plain =
    let gone = λ (v : World).
      subst (λ i. Left env i true d.world (dequeue env i v)) (sym e)
        (dequeue-Left env s d.world v plain) in
    let told = dq_notify env q (codes "Unsuccessful") notify_fail d.world in
    let removed = record d { world = dequeue env q.qid d.world } in
    let ok = note delivered q removed in
    let maybe = note probably_delivered q removed in
    let bad = note failed q (record d { world = dequeue env q.qid told }) in
    let later = note deferred q (record d { world = q_unlock env q d.world }) in
    let fatal = eq_ℤ r (pos c_rs) in
    let ended = eq_ℤ r (pos b'X') && first in
    if-Left (eq_ℤ r (pos 0)) (ended || fatal) env q.qid d.world ok
      (if ended then maybe else if fatal then bad else later) (gone d.world)
      (if-Left ended fatal env q.qid d.world maybe (if fatal then bad else later) (gone d.world)
        (if-last fatal env q.qid d.world bad later (gone told) (q_unlock-Left env q s d.world e)))

-- Of an entry whose qid is 'q' and a text without 'q' and '/', the lock is gone behind every answer; its
-- file is gone exactly behind ACK, RS, and an end of the line at the first entry of a list, and stays
-- as it was otherwise.
pub settle_entry-Left :
    (env : Env) (first : Bool) (q : Queuent) (s : Bytes) (r : ℤ) (d : Pass)
    → q.qid ≡ b'q' ∷ s
    → All Plain s
    → (Fs.get (settle_entry env first q r d).world.files (in_qdir env q.qid)
        ≡ (if ends_entry first r then none else Fs.get d.world.files (in_qdir env q.qid)))
      × (Fs.get (settle_entry env first q r d).world.files (lock_path env q.qid) ≡ none)
settle_entry-Left env first q s r d e plain =
    let h = settled env first q s r d e plain in (h.entry, h.lock)
