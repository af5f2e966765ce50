-- ===== src/Queue/Format/Spoilt.antt =====
-- What reading a queue file does to it: a page as `storequeue` writes it is read and kept, and only
-- another text is removed.
use pageserv.Base.{
  ◌≡◌, ◌≢◌, ◌⊎◌, inl, inr, refl, sym, ap, ◌∙◌, Bool, true, false, Option, none, some, Bytes, [],
  arith,
}
use pageserv.Fs
use pageserv.Queue.Types.{Queuent, Env, World}
use pageserv.Queue.Format.{
  write_entry, fntoqid, read_entry, keep_or_remove, read_file, read_path, queue_path, readqueuefile,
}
use pageserv.Queue.Format.RoundTrip.{Storable, read_entry-write_entry}

-- the text is not that of a page in the queue
abbrev pub IsSpoilt : Bytes → Type 0
IsSpoilt content = (q : Queuent) → Storable q → content ≢ write_entry q

-- no file changes, or the one of that name is removed, which held no page
abbrev pub SpoiltGone : Env → Bytes → World → World → Type 0
SpoiltGone env fn w v =
    (v.files ≡ w.files)
    ⊎ ((path : Bytes) × (content : Bytes) × (queue_path env.qdir fn ≡ some path)
        × (Fs.get w.files path ≡ some content)
        × IsSpoilt content
        × (v.files ≡ Fs.unlink w.files path))

invalid-IsSpoilt :
    (q0 : Queuent) (buf0 fn content : Bytes)
    → (read_entry q0 buf0 fn content).1 ≡ false
    → IsSpoilt content
invalid-IsSpoilt q0 buf0 fn content invalid q h same =
    let valid : (read_entry q0 buf0 fn content).1 ≡ true =
      ap (λ (s : Bytes). (read_entry q0 buf0 fn s).1) same
      ∙ ap (λ (p : Queuent × Bool). p.1) (read_entry-write_entry q q0 buf0 fn h) in
    ground (arith, sym invalid ∙ valid)

read_file-SpoiltGone :
    (env : Env) (fn : Bytes) (q0 : Queuent) (w : World) (path : Bytes) (o : Option Bytes)
    → queue_path env.qdir fn ≡ some path
    → Fs.get w.files path ≡ o
    → SpoiltGone env fn w (read_file env fn q0 w path o).1
unfolding read_file
read_file-SpoiltGone env fn q0 w path none e f = inl refl
read_file-SpoiltGone env fn q0 w path (some content) e f =
    kept (read_entry q0 env.junk_line fn content).0 (read_entry q0 env.junk_line fn content).1 refl
  where
    kept :
        (q : Queuent) (b : Bool)
        → (read_entry q0 env.junk_line fn content).1 ≡ b
        → SpoiltGone env fn w (keep_or_remove w path (q, b)).1
    kept q true valid = inl refl
    kept q false invalid =
        inr (path, content, e, f, invalid-IsSpoilt q0 env.junk_line fn content invalid, refl)

pub readqueuefile-SpoiltGone :
    (env : Env) (fn : Bytes) (w : World) → SpoiltGone env fn w (readqueuefile env fn w).1
unfolding readqueuefile
readqueuefile-SpoiltGone env fn w = at_path (queue_path env.qdir fn) refl
  where
    at_path :
        (o : Option Bytes)
        → queue_path env.qdir fn ≡ o
        → SpoiltGone env fn w (read_path env fn (record env.junk { to = [] }) w o).1
    at_path none e = inl refl
    at_path (some path) e = read_file-SpoiltGone env fn _ w path (Fs.get w.files path) e refl

-- a page in the queue is read, and the state stays
pub readqueuefile-write_entry :
    (env : Env) (fn path : Bytes) (q : Queuent) (w : World)
    → queue_path env.qdir fn ≡ some path
    → Fs.get w.files path ≡ some (write_entry q)
    → Storable q
    → readqueuefile env fn w ≡ (record q { qid = fntoqid fn; u = env.junk.u }, w)
unfolding readqueuefile read_path read_file keep_or_remove
readqueuefile-write_entry env fn path q w e f h =
    rw (e, f, read_entry-write_entry q (record env.junk { to = [] }) env.junk_line fn h) refl
