-- ===== src/Queue/Store/Entry.antt =====
-- What `storequeue` does to the files and to the log.
use pageserv.Base.{
  ◌<◌, ◌≡◌, refl, Bool, true, false, some, [], ◌∷◌, ◌++◌, if◌then◌else◌, Bytes, All, codes,
}
use pageserv.Clib.{equal}
use pageserv.Fs
use pageserv.Fs.{f_exists, get-put}
use pageserv.Queue.Types.{Queuent, Env, World, que_log}
use pageserv.Queue.Format.{write_entry, fntoqid}
use pageserv.Queue.Names.{name_prefix}
use pageserv.Queue.Names.Counter.{IsLetter, value}
use pageserv.Queue.Names.Fresh.{newqfile_total}
use pageserv.Queue.Store.{check_time, puttext, logqueue, store_file, store_now}

-- the entry as it is written: with the time of the call
abbrev pub stamped : Env → Queuent → Queuent
stamped env q = record q { submitted = env.now }

-- the state behind an entry that was stored in the file `path`
pub record Stored (env : Env) (q : Queuent) (w w' : World) (path : Bytes) : Type 0 where
  pub was_free : f_exists w.files path ≡ false
  pub files :
      (p : Bytes)
      → Fs.get w'.files p
        ≡ (if equal path p then some (write_entry (stamped env q)) else Fs.get w.files p)
  pub letters : All IsLetter w'.tmp
  pub later : value w.tmp < value w'.tmp
  pub mail : w'.mail ≡ w.mail
  pub log :
      w'.log ≡ w.log ++ (record { kind = que_log; qid = fntoqid path; to = q.to; reason = [] } ∷ [])

store_file-Stored :
    (env : Env) (q : Queuent) (quiet : Bool) (w : World) (path tmp : Bytes)
    → f_exists w.files path ≡ false
    → All IsLetter tmp
    → value w.tmp < value tmp
    → (w' : World) × (store_file env q quiet w (some (path, tmp)) ≡ some (0, w'))
      × Stored env q w w' path
unfolding store_file puttext logqueue
store_file-Stored env q true w path tmp free letters up = (
  _,
  refl,
  record {
    was_free = free;
    files = λ p. get-put w.files path p (write_entry (stamped env q));
    letters = letters;
    later = up;
    mail = refl;
    log = refl;
  },
)
store_file-Stored env q false w path tmp free letters up = (
  _,
  refl,
  record {
    was_free = free;
    files = λ p. get-put w.files path p (write_entry (stamped env q));
    letters = letters;
    later = up;
    mail = refl;
    log = refl;
  },
)

pub store_now-Stored :
    (env : Env) (q : Queuent) (quiet : Bool) (w : World)
    → All IsLetter w.tmp
    → check_time env q ≡ true
    → (path : Bytes) × (w' : World) × (store_now env q quiet w ≡ some (0, w'))
      × Stored env q w w' path
unfolding store_now
store_now-Stored env q quiet w h on =
    let (t, named, free, letters, up) = newqfile_total env.qdir env.pid w.files w.tmp h in
    let (w', stored, good) =
      store_file-Stored env q quiet w (name_prefix env.qdir env.pid ++ t) t free letters up in
    (name_prefix env.qdir env.pid ++ t, w', rw (on, named) stored, good)

pub store_now-refused :
    (env : Env) (q : Queuent) (quiet : Bool) (w : World)
    → check_time env q ≡ false
    → (w' : World) × (store_now env q quiet w ≡ some (1, w'))
      × (w'.files ≡ w.files)
      × (w'.log ≡ w.log)
      × (w'.mail ≡ w.mail)
      × (w'.tmp ≡ w.tmp)
unfolding store_now puttext
store_now-refused env q true w off = (w, rw off refl, refl, refl, refl, refl)
store_now-refused env q false w off = (
  puttext (codes "User is not accepting normal priority pages now\n\n\n") w,
  rw off refl,
  refl,
  refl,
  refl,
  refl,
)
