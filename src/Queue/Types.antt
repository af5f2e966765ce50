-- ===== src/Queue/Types.antt =====
-- The structures of include/pageserv.h. `World` is what the functions of the queue change; `Env` is
-- what they read: the configuration, the clock, and the databases, which stand behind function
-- pointers in the program. The clock stands still during one call.
use pageserv.Base.{ℕ, Bytes, ℤ, Option, Bool, List, []}
use pageserv.Fs.{Files}

-- struct user
pub record User : Type 0 where
  pub name : Bytes
  pub passwd : Bytes
  pub pageid : Bytes
  pub statid : Bytes
  pub notify : Bytes
  pub flags : ℕ
  pub times : ℕ

-- memset(&u, 0x00, sizeof(struct user))
abbrev pub no_user : User
no_user = record {
  name = [];
  passwd = [];
  pageid = [];
  statid = [];
  notify = [];
  flags = 0;
  times = 0;
}

-- struct queuent
pub record Queuent : Type 0 where
  pub priority : ℤ
  pub to : Bytes
  pub message : Bytes
  pub qid : Bytes
  pub submitted : ℤ
  pub soonest : ℤ
  pub latest : ℤ
  pub rem_addr : ℕ
  pub u : User

-- struct terminal
pub record Terminal : Type 0 where
  pub number : Bytes
  pub ts : Bytes
  pub predial : Bytes
  pub init : Bytes
  pub flags : ℕ
  pub port : ℤ
  pub max_msg_len : ℤ

pub record Env : Type 0 where
  -- conf.qdir, conf.maxqueuetime, getpid()
  pub qdir : Bytes
  pub maxqueuetime : ℤ
  pub pid : ℕ
  -- time(), and localtime(t)->tm_hour
  pub now : ℤ
  pub hour_of : ℤ → ℕ
  -- rcfg_lookup and rcfg_lookupInt on conf.cf
  pub lookup : Bytes → Option Bytes
  pub lookup_int : Bytes → ℤ
  -- conf.udb.getuser, conf.udb.u_exists, conf.tdb.get, conf.tdb.exists
  pub getuser : Bytes → User
  pub u_exists : Bytes → Bool
  pub getterm : Bytes → Terminal
  pub t_exists : Bytes → Bool
  -- what the memory of a `struct queuent` and of a line buffer holds before it is written
  pub junk : Queuent
  pub junk_line : Bytes

-- the log types of logqueue
pub data LogKind : Type 0 where
  que_log suc_log fail_log exp_log deque_log : LogKind

pub record LogEntry : Type 0 where
  pub kind : LogKind
  pub qid : Bytes
  pub to : Bytes
  pub reason : Bytes

-- what sendmail hands over: the headers, and the text that it passes to fprintf as a format
pub record Mail : Type 0 where
  pub from : Bytes
  pub to : Bytes
  pub format : Bytes

pub record World : Type 0 where
  pub files : Files
  -- the letters of newtmp; empty before its first call
  pub tmp : Bytes
  pub log : List LogEntry
  pub mail : List Mail
  -- what was written to the client
  pub sent : Bytes
