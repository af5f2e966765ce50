-- ===== src/Queue/Locks/Locked.antt =====
-- `q_lock`, `q_unlock` and `q_islocked` of pageserv/queue.c: which entry is locked, and which file that is.
use pageserv.Base.{
  ◌≡◌, refl, ap, ◌∙◌, true, false, not, none, some, [], ◌∷◌, ◌++◌, ◌&&◌, ◌||◌, if◌then◌else◌, Bytes,
  arith,
}
use pageserv.Clib.{equal, equal_refl}
use pageserv.Clib.Decimal.{print_nat}
use pageserv.Fs
use pageserv.Fs.{f_exists, f_exists-put, f_exists-unlink, get-put, get-unlink}
use pageserv.Queue.Types.{Queuent, Env, World}
use pageserv.Queue.Locks.{lock_name, in_qdir, lock_path, q_lock, q_unlock, q_islocked}

-- what locking changes, for any entry, in terms of its lock file
pub q_lock_file :
    (env : Env) (q r : Queuent) (w : World) (path : Bytes)
    → (q_islocked env q (q_lock env q w) ≡ true)
      × (q_islocked env q (q_unlock env q w) ≡ false)
      × (q_islocked env r (q_lock env q w)
          ≡ (equal (lock_path env q.qid) (lock_path env r.qid) || q_islocked env r w))
      × (q_islocked env r (q_unlock env q w)
          ≡ (not (equal (lock_path env q.qid) (lock_path env r.qid)) && q_islocked env r w))
      × (Fs.get (q_lock env q w).files path ≡ (
          if equal (lock_path env q.qid) path
          then some (print_nat env.pid ++ b'\n' ∷ [])
          else Fs.get w.files path))
      × (Fs.get (q_unlock env q w).files path
          ≡ (if equal (lock_path env q.qid) path then none else Fs.get w.files path))
unfolding q_lock q_unlock q_islocked
q_lock_file env q r w path = (
  simp (f_exists-put, equal_refl),
  simp (f_exists-unlink, equal_refl),
  simp f_exists-put (ground arith),
  simp f_exists-unlink (ground arith),
  simp get-put,
  simp get-unlink,
)

equal-append : (p s t : Bytes) → equal (p ++ s) (p ++ t) ≡ equal s t
unfolding equal
equal-append [] s t = refl
equal-append (c ∷ p) s t = rw (equal-append p s t) (ground arith)

lock_path-q :
    (env : Env) (q : Queuent) (s : Bytes)
    → q.qid ≡ b'q' ∷ s
    → lock_path env q.qid ≡ env.qdir ++ (b'/' ∷ b'l' ∷ s)
unfolding lock_path lock_name in_qdir
lock_path-q env q s e = rw e refl

equal_locks :
    (dir s s2 : Bytes) → equal (dir ++ (b'/' ∷ b'l' ∷ s)) (dir ++ (b'/' ∷ b'l' ∷ s2)) ≡ equal s s2
unfolding equal
equal_locks dir s s2 = equal-append dir (b'/' ∷ b'l' ∷ s) (b'/' ∷ b'l' ∷ s2) ∙ refl

lock_is_no_page :
    (dir s s2 : Bytes) → equal (dir ++ (b'/' ∷ b'l' ∷ s)) (dir ++ (b'/' ∷ b'q' ∷ s2)) ≡ false
unfolding equal
lock_is_no_page dir s s2 = equal-append dir (b'/' ∷ b'l' ∷ s) (b'/' ∷ b'q' ∷ s2) ∙ refl

-- For an entry with the qid 'q' and s: after q_lock it is locked and after q_unlock it is not; another
-- entry of the queue is locked or not as it was; no file changes but the one named 'l' and s in the queue
-- directory, which holds the process id, or is gone; and no page's file changes, its own included.
pub q_lock_lem :
    (env : Env) (q r : Queuent) (s s2 : Bytes) (w : World) (path : Bytes)
    → q.qid ≡ b'q' ∷ s
    → r.qid ≡ b'q' ∷ s2
    → (q_islocked env q (q_lock env q w) ≡ true)
      × (q_islocked env q (q_unlock env q w) ≡ false)
      × (q_islocked env r (q_lock env q w) ≡ (equal s s2 || q_islocked env r w))
      × (q_islocked env r (q_unlock env q w) ≡ (not (equal s s2) && q_islocked env r w))
      × (Fs.get (q_lock env q w).files path ≡ (
          if equal (env.qdir ++ (b'/' ∷ b'l' ∷ s)) path
          then some (print_nat env.pid ++ b'\n' ∷ [])
          else Fs.get w.files path))
      × (Fs.get (q_unlock env q w).files path
          ≡ (if equal (env.qdir ++ (b'/' ∷ b'l' ∷ s)) path then none else Fs.get w.files path))
      × (Fs.get (q_lock env q w).files (env.qdir ++ (b'/' ∷ b'q' ∷ s2))
          ≡ Fs.get w.files (env.qdir ++ (b'/' ∷ b'q' ∷ s2)))
      × (Fs.get (q_unlock env q w).files (env.qdir ++ (b'/' ∷ b'q' ∷ s2))
          ≡ Fs.get w.files (env.qdir ++ (b'/' ∷ b'q' ∷ s2)))
q_lock_lem env q r s s2 w path e e2 =
    let here = lock_path-q env q s e in
    let there = lock_path-q env r s2 e2 in
    let other =
      ap (λ (p : Bytes). equal p (lock_path env r.qid)) here
      ∙ ap (equal (env.qdir ++ (b'/' ∷ b'l' ∷ s))) there
      ∙ equal_locks env.qdir s s2 in
    let at = q_lock_file env q r w path in
    let page = q_lock_file env q r w (env.qdir ++ (b'/' ∷ b'q' ∷ s2)) in
    let apart =
      ap (λ (p : Bytes). equal p (env.qdir ++ (b'/' ∷ b'q' ∷ s2))) here
      ∙ lock_is_no_page env.qdir s s2 in
    (
      at.0,
      at.1,
      at.2 ∙ rw other refl,
      at.3 ∙ rw other refl,
      at.4 ∙ rw here refl,
      at.5 ∙ rw here refl,
      page.4 ∙ rw apart refl,
      page.5 ∙ rw apart refl,
    )
