-- ===== src/Queue/Format/Keeps.antt =====
-- Reading a queue file changes at most that file.
use pageserv.Base.{◌≡◌, ◌⊎◌, inl, inr, refl, Bool, true, false, Option, none, some, Bytes, []}
use pageserv.Fs
use pageserv.Queue.Types.{Queuent, Env, World}
use pageserv.Queue.Format.{
  read_entry, keep_or_remove, read_file, read_path, queue_path, readqueuefile,
}

-- the state behind a read: all as it was, or without the file of that path
pub record Kept (env : Env) (fn : Bytes) (w w' : World) : Type 0 where
  pub log : w'.log ≡ w.log
  pub mail : w'.mail ≡ w.mail
  pub sent : w'.sent ≡ w.sent
  pub tmp : w'.tmp ≡ w.tmp
  pub files :
      (w'.files ≡ w.files)
      ⊎ ((path : Bytes) × (queue_path env.qdir fn ≡ some path)
          × (w'.files ≡ Fs.unlink w.files path))

same_world : (env : Env) (fn : Bytes) (w : World) → Kept env fn w w
same_world env fn w = record { log = refl; mail = refl; sent = refl; tmp = refl; files = inl refl }

read_file-Kept :
    (env : Env) (fn : Bytes) (q0 : Queuent) (w : World) (path : Bytes) (o : Option Bytes)
    → queue_path env.qdir fn ≡ some path
    → Kept env fn w (read_file env fn q0 w path o).1
unfolding read_file
read_file-Kept env fn q0 w path none e = same_world env fn w
read_file-Kept env fn q0 w path (some content) e =
    kept (read_entry q0 env.junk_line fn content).0 (read_entry q0 env.junk_line fn content).1
  where
    kept : (q : Queuent) (b : Bool) → Kept env fn w (keep_or_remove w path (q, b)).1
    kept q true = same_world env fn w
    kept q false = record {
      log = refl;
      mail = refl;
      sent = refl;
      tmp = refl;
      files = inr (path, e, refl);
    }

-- `readqueuefile` leaves log, mail, client and name counter alone, and of the files removes at most
-- the one that it was to read.
pub readqueuefile_keeps :
    (env : Env) (fn : Bytes) (w : World) → Kept env fn w (readqueuefile env fn w).1
unfolding readqueuefile
readqueuefile_keeps env fn w = at_path (queue_path env.qdir fn) refl
  where
    at_path :
        (o : Option Bytes)
        → queue_path env.qdir fn ≡ o
        → Kept env fn w (read_path env fn (record env.junk { to = [] }) w o).1
    at_path none e = same_world env fn w
    at_path (some path) e = read_file-Kept env fn _ w path (Fs.get w.files path) e
