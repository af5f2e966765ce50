-- ===== src/Snpp/Login/Owner.antt =====
-- Only the owner of an entry gets at it, and only a user who gave the password becomes one.
use pageserv.Base.{
  ◌||◌, ◌≤◌, ◌≡◌, ◌≢◌, ◌↔◌, ◌⊎◌, refl, ap, ◌∙◌, Bool, true, false, Option, none, some, [], ◌∷◌,
  ◌++◌, if◌then◌else◌, Bytes, arith, length, inl, inr, codes, ℤ, pos, eq_ℤ, negsuc, All,
}
use pageserv.Clib.{equal, equal_iff}
use pageserv.Fs
use pageserv.Queue.Types.{Queuent, Env, World, deque_log}
use pageserv.Queue.Format.{write_entry, last_q, fntoqid, queue_path, readqueuefile}
use pageserv.Queue.Format.RoundTrip.{Storable}
use pageserv.Queue.Format.Keeps.{readqueuefile_keeps}
use pageserv.Queue.Format.Spoilt.{SpoiltGone, readqueuefile-SpoiltGone, readqueuefile-write_entry}
use pageserv.Queue.Store.{puttext, logqueue}
use pageserv.Queue.Locks.{in_qdir, lock_path, dequeue, dq_notify, notify_fail}
use pageserv.Queue.Locks.Laws.{Plain, dequeue_lem, dq_notify_keeps}
use pageserv.Snpp.Login.{
  System, split_login, snpp_login, remove_entry, delete_entry, delete_for, snpp_del_user_q,
}

-- LOGIn gives a name exactly when the user of that name exists, has a password of at least 13 bytes,
-- and the password behind the name encrypts to it; the name given is the one before the first space.
pub snpp_login_iff :
    (sys : System) (env : Env) (what : Bytes) (w : World) (name : Bytes)
    → ((snpp_login sys env what w).0 ≡ some name) ↔ (
        ((split_login what).0 ≡ name)
        × (env.u_exists name ≡ true)
        × (13 ≤ length (env.getuser name).passwd)
        × ((env.getuser name).passwd ≡ sys.crypt (split_login what).1 (env.getuser name).passwd))
unfolding snpp_login
snpp_login_iff sys env what w name = (
  (λ e.
      let u = (split_login what).0 in
      ground (
        arith,
        equal_iff (env.getuser u).passwd (sys.crypt (split_login what).1 (env.getuser u).passwd),
      )),
  λ (here, known, long, right). ground (
    arith,
    equal_iff (env.getuser name).passwd (sys.crypt (split_login what).1 (env.getuser name).passwd),
  ),
)

-- Nothing is logged or mailed, and no file changes but the named one, which is removed if it holds no
-- page that storequeue may have written.
pub record Untouched (env : Env) (arg : Bytes) (w v : World) : Type 0 where
  pub log : v.log ≡ w.log
  pub mail : v.mail ≡ w.mail
  pub tmp : v.tmp ≡ w.tmp
  pub files : SpoiltGone env arg w v

told : (env : Env) (arg txt : Bytes) (w : World) → Untouched env arg w (puttext txt w)
unfolding puttext
told env arg txt w = record { log = refl; mail = refl; tmp = refl; files = inl refl }

told_after :
    (env : Env) (arg txt : Bytes) (w : World)
    → Untouched env arg w (puttext txt (readqueuefile env arg w).1)
unfolding puttext
told_after env arg txt w =
    let k = readqueuefile_keeps env arg w in
    record { log = k.log; mail = k.mail; tmp = k.tmp; files = readqueuefile-SpoiltGone env arg w }

if-Untouched :
    (b : Bool) (env : Env) (arg : Bytes) (w x y : World)
    → Untouched env arg w x
    → Untouched env arg w y
    → Untouched env arg w (if b then x else y)
if-Untouched true env arg w x y hx hy = hx
if-Untouched false env arg w x y hx hy = hy

eq_ℤ_ne : (z : ℤ) → z ≢ pos 0 → eq_ℤ z (pos 0) ≡ false
eq_ℤ_ne (pos n) h = ground arith
eq_ℤ_ne (negsuc n) h = ground arith

equal_ne : (a b : Bytes) → a ≢ b → equal a b ≡ false
equal_ne a b ne = ground (arith, equal_iff a b)

-- Without the setting, without a login, or on an entry of another recipient, DEQUEue logs and mails
-- nothing, and no file changes but the one that it was to read, and this only if its text is not that
-- of a page: one that storequeue writes for an entry which can be read back stays in the queue.
pub snpp_del_user_q_refused :
    (env : Env) (user : Option Bytes) (arg : Bytes) (w : World)
    → (env.lookup_int (codes "modules.snpp.dequeue") ≡ pos 0)
      ⊎ (user ≡ none)
      ⊎ ((name : Bytes) × (user ≡ some name) × ((readqueuefile env arg w).0.to ≢ name))
    → Untouched env arg w (snpp_del_user_q env user arg w)
unfolding snpp_del_user_q delete_for delete_entry
snpp_del_user_q_refused env user arg w (inl off) = rw off (told env arg _ w)
snpp_del_user_q_refused env user arg w (inr (inl e)) =
    rw e (if-Untouched _ env arg w _ _ (told env arg _ w) (told env arg _ w))
snpp_del_user_q_refused env user arg w (inr (inr (name, e, ne))) =
    rw (e, equal_ne (readqueuefile env arg w).0.to name ne)
      (if-Untouched _ env arg w _ _ (told env arg _ w) (told_after env arg _ w))

delete_entry-own :
    (env : Env) (name arg : Bytes) (w : World)
    → (readqueuefile env arg w).0.to ≡ name
    → delete_entry env name arg w
      ≡ remove_entry env (readqueuefile env arg w).0 (readqueuefile env arg w).1
unfolding delete_entry
delete_entry-own env name arg w own =
    rw ((equal_iff (readqueuefile env arg w).0.to name).1 own) refl

snpp_del_user_q-delete_entry :
    (env : Env) (name arg : Bytes) (w : World)
    → env.lookup_int (codes "modules.snpp.dequeue") ≢ pos 0
    → snpp_del_user_q env (some name) arg w ≡ delete_entry env name arg w
unfolding snpp_del_user_q delete_for
snpp_del_user_q-delete_entry env name arg w on =
    rw (eq_ℤ_ne (env.lookup_int (codes "modules.snpp.dequeue")) on) refl

-- what a removal leaves behind
remove_entry_lem :
    (env : Env) (q : Queuent) (s : Bytes) (w : World)
    → q.qid ≡ b'q' ∷ s
    → All Plain s
    → ((path : Bytes)
        → Fs.get (remove_entry env q w).files path ≡ (
            if equal (lock_path env (b'q' ∷ s)) path || equal (in_qdir env (b'q' ∷ s)) path
            then none
            else Fs.get w.files path))
      × ((remove_entry env q w).log
          ≡ w.log
            ++ (record { kind = deque_log; qid = q.qid; to = q.to; reason = codes "user request" }
                ∷ []))
unfolding remove_entry puttext
remove_entry_lem env q s w e plain =
    let logged = logqueue q deque_log (codes "user request") w in
    let told =
      dq_notify env q (codes "User requested dequeue (page not sent)") notify_fail logged in
    let gone = dequeue_lem env s told plain in
    let same =
      dq_notify_keeps env q (codes "User requested dequeue (page not sent)") notify_fail logged in
    let files : told.files ≡ w.files = same.0 ∙ (unfold logqueue in refl) in
    (
      (λ path.
          ap (λ (i : Bytes). Fs.get (dequeue env i told).files path) e
          ∙ gone.0 path
          ∙ ap
              (λ (fs : Fs.Files).
                if equal (lock_path env (b'q' ∷ s)) path || equal (in_qdir env (b'q' ∷ s)) path
                then none
                else Fs.get fs path)
              files),
      ap (λ (i : Bytes). (dequeue env i told).log) e ∙ gone.1 ∙ same.1 ∙ (unfold logqueue in refl),
    )

last_q-Plain : (s best : Bytes) → All Plain s → last_q s best ≡ best
unfolding last_q
last_q-Plain [] best h = refl
last_q-Plain (c ∷ s) best h = rw h.0.0 (last_q-Plain s best h.1)

fntoqid-Plain : (s : Bytes) → All Plain s → fntoqid (b'q' ∷ s) ≡ b'q' ∷ s
unfolding fntoqid
fntoqid-Plain s h = last_q-Plain s (b'q' ∷ s) h

-- A page in the queue for the user who has logged in, named by its qid, 'q' and a text without 'q' and
-- '/': where the setting is on, DEQUEue removes its file and its lock file, changes no other file, and
-- logs that the user asked for it.
pub snpp_del_user_q_own :
    (env : Env) (q : Queuent) (s : Bytes) (w : World)
    → env.lookup_int (codes "modules.snpp.dequeue") ≢ pos 0
    → queue_path env.qdir (b'q' ∷ s) ≡ some (in_qdir env (b'q' ∷ s))
    → Fs.get w.files (in_qdir env (b'q' ∷ s)) ≡ some (write_entry q)
    → Storable q
    → All Plain s
    → ((path : Bytes)
        → Fs.get (snpp_del_user_q env (some q.to) (b'q' ∷ s) w).files path ≡ (
            if equal (lock_path env (b'q' ∷ s)) path || equal (in_qdir env (b'q' ∷ s)) path
            then none
            else Fs.get w.files path))
      × ((snpp_del_user_q env (some q.to) (b'q' ∷ s) w).log
          ≡ w.log
            ++ (record {
              kind = deque_log;
              qid = b'q' ∷ s;
              to = q.to;
              reason = codes "user request";
            }
                ∷ []))
snpp_del_user_q_own env q s w on here held h plain =
    let read = readqueuefile-write_entry env (b'q' ∷ s) (in_qdir env (b'q' ∷ s)) q w here held h in
    let named = fntoqid-Plain s plain in
    let stored : Queuent = record q { qid = fntoqid (b'q' ∷ s); u = env.junk.u } in
    let gone = remove_entry_lem env stored s w named plain in
    let own : (readqueuefile env (b'q' ∷ s) w).0.to ≡ q.to =
      ap (λ (p : Queuent × World). p.0.to) read in
    rw
      (
        snpp_del_user_q-delete_entry env q.to (b'q' ∷ s) w on,
        delete_entry-own env q.to (b'q' ∷ s) w own,
        read,
      )
      (gone.0, gone.1 ∙ rw named refl)
