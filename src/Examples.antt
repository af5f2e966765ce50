-- ===== src/Examples.antt =====
-- A small configuration, on which the theorems are tried out: two users, no terminal, one open queue.
pub mod Queue
pub mod Snpp
pub mod Tables
pub mod Mash
pub mod Http
pub mod Memory
pub mod Numbers
pub mod Delivery
pub mod Listing
use pageserv.Base.{
  ℕ, ◌≡◌, refl, Bool, true, false, Option, none, some, List, [], ◌∷◌, ◌||◌, if◌then◌else◌, Bytes, ℤ,
  pos, codes,
}
use pageserv.Clib.{equal}
use pageserv.Queue.Types.{no_user, User, Queuent, Terminal, Env, World}

-- takes pages at the hours 9 to 16, and wants to hear of failures
abbrev pub dustin : User
dustin = record {
  name = codes "dustin";
  passwd = codes "ab1234567890x";
  pageid = codes "5551234";
  statid = codes "900";
  notify = codes "dustin@spy.net";
  flags = 2;
  times = 0x1fe00;
}

abbrev pub entry : Queuent
entry = record {
  priority = pos 10;
  to = codes "dustin";
  message = codes "call me";
  qid = codes "q7A";
  submitted = pos 1000;
  soonest = pos 0;
  latest = pos 0;
  rem_addr = 0x0a000001;
  u = no_user;
}

abbrev pub terminal : Terminal
terminal = record {
  number = codes "900";
  ts = [];
  predial = [];
  init = [];
  flags = 0;
  port = pos 0;
  max_msg_len = pos 0;
}

abbrev setting : Bytes → ℤ
setting key =
    if equal key (codes "tuning.maxMessageLength")
    then pos 12
    else if equal key (codes "modules.snpp.maxtries")
    then pos 2
    else if equal key (codes "tuning.wrapMessages") || equal key (codes "modules.snpp.dequeue")
    then pos 1
    else pos 0

-- at 10 o'clock
abbrev pub office : Env
office = record {
  qdir = codes "/q";
  maxqueuetime = pos 180;
  pid = 7;
  now = pos 36000;
  hour_of = λ t. 10;
  lookup = λ key. none;
  lookup_int = setting;
  getuser = λ name. if equal name (codes "dustin") then dustin else no_user;
  u_exists = λ name. equal name (codes "dustin");
  getterm = λ number. terminal;
  t_exists = λ number. false;
  junk = entry;
  junk_line = [];
}

-- the same at night
abbrev pub night : Env
night = record office { hour_of = λ t. 3 }

-- with one entry in the queue
abbrev pub start : World
start = record {
  files = (codes "/q/q7A", codes "10\ndustin\n1000\n0\n0\n167772161\ncall me\n") ∷ [];
  tmp = [];
  log = [];
  mail = [];
  sent = [];
}
