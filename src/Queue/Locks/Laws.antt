-- ===== src/Queue/Locks/Laws.antt =====
-- What removing entries changes, and when they are ready.
use Prim.Native.Nat.{bit_and}
use mathlib.Core.List.{reverse, reverse-append, reverse-reverse}
use pageserv.Base.{
  ℕ, zero, suc, ◌+◌, ◌*◌, ◌/◌, ◌≡◌, refl, sym, Bool, false, not, Option, none, some, [], ◌∷◌, ◌++◌,
  ltb, ◌==◌, ◌&&◌, ◌||◌, if◌then◌else◌, Bytes, ℤ, pos, negsuc, arith, All, All-append, Bool-cases,
  inl, inr, ltb_ℤ, neg_ℕ, codes, append_assoc, ◌-ℤ◌,
}
use pageserv.Clib.{equal}
use pageserv.Fs
use pageserv.Fs.{f_exists, f_exists-put, f_exists-unlink, get-put, get-unlink}
use pageserv.Queue.Types.{Queuent, Env, World, exp_log}
use pageserv.Queue.Store.{logqueue}
use pageserv.Queue.Locks.{
  lock_name, in_qdir, lock_path, lock_from_end, unlink_lock, unlink_entry, dequeue, send_from,
  sendmail, dq_notify, notify_fail, minutes, fuz, expire, readytodeliver,
}

-- no 'q' and no '/' in a text
abbrev pub Plain : ℕ → Type 0
Plain c = ((c == b'q') ≡ false) × ((c == b'/') ≡ false)

lock_from_end-q :
    (s front : Bytes) → All Plain s → lock_from_end (s ++ b'q' ∷ front) ≡ some (s ++ b'l' ∷ front)
unfolding lock_from_end
lock_from_end-q [] front h = refl
lock_from_end-q (c ∷ s) front h = rw (h.0.0, h.0.1, lock_from_end-q s front h.1) refl

All-reverse : (s : Bytes) → All Plain s → All Plain (reverse s)
All-reverse [] h = tt
All-reverse (c ∷ s) h =
    rw (reverse-append (c ∷ []) s)
      (All-append Plain (reverse s) (c ∷ []) (All-reverse s h.1) (h.0, tt))

in_qdir_split :
    (env : Env) (c : ℕ) (s : Bytes) → in_qdir env (c ∷ s) ≡ ((env.qdir ++ b'/' ∷ []) ++ c ∷ []) ++ s
unfolding in_qdir
in_qdir_split env c s = simp append_assoc

reverse-in_qdir :
    (env : Env) (c : ℕ) (s : Bytes)
    → reverse (in_qdir env (c ∷ s)) ≡ reverse s ++ c ∷ reverse (env.qdir ++ b'/' ∷ [])
reverse-in_qdir env c s =
    rw
      (
        in_qdir_split env c s,
        reverse-append ((env.qdir ++ b'/' ∷ []) ++ c ∷ []) s,
        reverse-append (env.qdir ++ b'/' ∷ []) (c ∷ []),
      )
      refl

unlink_entry-q :
    (env : Env) (s : Bytes) (w : World)
    → All Plain s
    → unlink_entry (in_qdir env (b'q' ∷ s)) w ≡ record w {
      files = Fs.unlink (Fs.unlink w.files (in_qdir env (b'q' ∷ s))) (in_qdir env (b'l' ∷ s));
    }
unfolding unlink_entry unlink_lock
unlink_entry-q env s w h =
    rw
      (
        reverse-in_qdir env b'q' s,
        lock_from_end-q (reverse s) (reverse (env.qdir ++ b'/' ∷ [])) (All-reverse s h),
        sym (reverse-in_qdir env b'l' s),
        reverse-reverse (in_qdir env (b'l' ∷ s)),
      )
      refl

dequeue-q :
    (env : Env) (s : Bytes) (w : World)
    → dequeue env (b'q' ∷ s) w ≡ unlink_entry (in_qdir env (b'q' ∷ s)) w
unfolding dequeue
dequeue-q env s w = refl

-- Removing an entry by a qid, 'q' and a text without 'q' and '/', takes away its file in the queue
-- directory and its lock file, and nothing else of the state changes.
pub dequeue_lem :
    (env : Env) (s : Bytes) (w : World)
    → All Plain s
    → ((path : Bytes)
        → Fs.get (dequeue env (b'q' ∷ s) w).files path ≡ (
            if equal (lock_path env (b'q' ∷ s)) path || equal (in_qdir env (b'q' ∷ s)) path
            then none
            else Fs.get w.files path))
      × ((dequeue env (b'q' ∷ s) w).log ≡ w.log)
      × ((dequeue env (b'q' ∷ s) w).mail ≡ w.mail)
      × ((dequeue env (b'q' ∷ s) w).sent ≡ w.sent)
      × ((dequeue env (b'q' ∷ s) w).tmp ≡ w.tmp)
dequeue_lem env s w h =
    rw (dequeue-q env s w, unlink_entry-q env s w h)
      (
        (λ path. unfold lock_path lock_name in simp get-unlink (ground arith)),
        refl,
        refl,
        refl,
        refl,
      )

-- how late an entry is
abbrev pub lateness : Env → Queuent → ℤ
lateness env q = env.now -ℤ (if ltb_ℤ q.soonest q.submitted then q.submitted else q.soonest)

neg_ℕ_bounds : (k m : ℕ) → (ltb_ℤ (pos m) (neg_ℕ k) ≡ false) × (ltb_ℤ (neg_ℕ k) (pos 0) ≡ ltb 0 k)
neg_ℕ_bounds zero m = ground arith
neg_ℕ_bounds (suc k) m = ground arith

minutes_bounds :
    (d : ℤ) (m : ℕ)
    → (ltb_ℤ (pos m) (minutes d) ≡ not (ltb_ℤ d (pos (60 * (m + 1)))))
      × (ltb_ℤ (minutes d) (pos 0) ≡ not (ltb_ℤ (negsuc 59) d))
unfolding minutes
minutes_bounds (pos n) m = ground arith
minutes_bounds (negsuc n) m = ground (arith, neg_ℕ_bounds (suc n / 60) m)

late_or_not :
    (early late : Bool) (w v : World)
    → ((not (not late) && not (not early)) ≡ (early && late))
      × ((if not late then v else w) ≡ (if late then w else v))
late_or_not early late w v = ground arith

-- Where the longest queue time is m minutes, an entry is ready exactly when it is less than one minute
-- early, and less than m + 1 minutes late; one that is later is logged as expired, its user is told if
-- the flag NOTIFY_FAIL is set, and it is removed; and otherwise the state stays as it is. The sample
-- configuration calls the longest queue time a number of seconds; the code divides by 60 and compares.
pub readytodeliver_lem :
    (env : Env) (q : Queuent) (w : World) (m : ℕ)
    → env.maxqueuetime ≡ pos m
    → ((readytodeliver env q w).0
        ≡ (ltb_ℤ (negsuc 59) (lateness env q) && ltb_ℤ (lateness env q) (pos (60 * (m + 1)))))
      × ((readytodeliver env q w).1 ≡ (
          if ltb_ℤ (lateness env q) (pos (60 * (m + 1)))
          then w
          else dequeue env q.qid
              (dq_notify env q (codes "Too old") notify_fail (logqueue q exp_log [] w))))
unfolding readytodeliver fuz expire
readytodeliver_lem env q w m e =
    let b = minutes_bounds (lateness env q) m in
    rw (e, b.0, b.1)
      (late_or_not (ltb_ℤ (negsuc 59) (lateness env q))
        (ltb_ℤ (lateness env q) (pos (60 * (m + 1)))) w _)

send_from_keeps :
    (to format : Bytes) (w : World) (sm from : Option Bytes)
    → ((send_from to format w sm from).files ≡ w.files)
      × ((send_from to format w sm from).log ≡ w.log)
unfolding send_from
send_from_keeps to format w (some sm) (some from) = (refl, refl)
send_from_keeps to format w _ _ = (refl, refl)

-- A notice changes no file and logs nothing.
pub dq_notify_keeps :
    (env : Env) (q : Queuent) (message : Bytes) (flags : ℕ) (w : World)
    → ((dq_notify env q message flags w).files ≡ w.files)
      × ((dq_notify env q message flags w).log ≡ w.log)
unfolding dq_notify sendmail
dq_notify_keeps env q message flags w =
    elim (Bool-cases (bit_and (env.getuser q.to).flags flags == 0)) [
      | inl unwanted ↦ rw unwanted (refl, refl)
      | inr wanted ↦ rw wanted (send_from_keeps (env.getuser q.to).notify _ w _ _)
    ]
