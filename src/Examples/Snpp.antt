-- ===== src/Examples/Snpp.antt =====
-- The server's theorems at concrete inputs.
use pageserv.Base.{
  ◌||◌, sym, ◌∙◌, ◌≤◌, ◌≡◌, ◌≢◌, ◌↔◌, refl, true, false, none, some, List, [], ◌∷◌, ◌++◌,
  if◌then◌else◌, Bytes, pos, arith, codes, length, inr,
}
use pageserv.Clib.{equal, equal_iff, starts_with}
use pageserv.Clib.Decimal.{print_int, print_nat, atoi}
use pageserv.Fs
use pageserv.Fs.{f_exists}
use pageserv.Hours.{bit_set}
use pageserv.Net.{to_u32}
use pageserv.Text.{kw, as_int}
use pageserv.Queue.Names.{newqfile, find_free, newtmp, name_prefix}
use pageserv.Queue.Types.{World, que_log, deque_log}
use pageserv.Queue.Format.{readqueuefile, queue_path, write_entry, fntoqid}
use pageserv.Queue.Store.{puttext, storequeue, get_maxlen, check_time, logqueue}
use pageserv.Queue.Locks.{in_qdir, lock_path}
use pageserv.Snpp.Session.{
  Session, initial, ids_of, page_for, send_all, snpp_send, snpp_setpageid, snpp_setmess,
  snpp_setpriority, snpp_cleanstuff,
}
use pageserv.Snpp.Session.Invariant.{IsValid, Session-IsValid}
use pageserv.Snpp.Session.Send.{Queued, snpp_send_lem}
use pageserv.Snpp.Hold.{Calendar}
use pageserv.Snpp.Login.{System, split_login, snpp_login, snpp_del_user_q}
use pageserv.Snpp.Login.Owner.{
  Untouched, snpp_login_iff, snpp_del_user_q_refused, snpp_del_user_q_own,
}
use pageserv.Snpp.Main.{Conn, Setup}
use pageserv.Examples.{office, start, entry}
use pageserv.Examples.Queue.{entry-Storable}

-- a cipher that knows one password
abbrev sys : System
sys = record {
  crypt = λ password salt. if equal password (codes "secret") then codes "ab1234567890x" else [];
  ctime = λ t. codes "Thu Jan  1 00:00:00 1970\n";
}

abbrev cal : Calendar
cal = record {
  mktime = λ year month day hour minute second. pos 900000;
  gmt_offset = pos 0;
  asctime = λ t. codes "Sun Jan 11 10:00:00 1970\n";
  year_tail = [];
}

abbrev setup : Setup
setup = record { sys = sys; cal = cal; env = office; addr = 1 }

snpp_login_iff_example :
    ((snpp_login sys office (codes "dustin secret") start).0 ≡ some (codes "dustin")) ↔ (
      ((split_login (codes "dustin secret")).0 ≡ codes "dustin")
      × (office.u_exists (codes "dustin") ≡ true)
      × (13 ≤ length (office.getuser (codes "dustin")).passwd)
      × ((office.getuser (codes "dustin")).passwd
          ≡ sys.crypt
              (split_login (codes "dustin secret")).1
              (office.getuser (codes "dustin")).passwd))
snpp_login_iff_example = snpp_login_iff sys office (codes "dustin secret") start (codes "dustin")

may_dequeue : office.lookup_int (codes "modules.snpp.dequeue") ≡ pos 1
unfolding equal
may_dequeue = refl

on : office.lookup_int (codes "modules.snpp.dequeue") ≢ pos 0
on e = absurd (ground (arith, may_dequeue))

own : (readqueuefile office (codes "q7A") start).0.to ≡ codes "dustin"
unfolding readqueuefile starts_with Fs.get equal print_int kw atoi fntoqid to_u32 queue_path
own = refl

stranger : (readqueuefile office (codes "q7A") start).0.to ≢ codes "bob"
unfolding equal
stranger e = ground (arith, (equal_iff (codes "dustin") (codes "bob")).1 (sym own ∙ e))

snpp_del_user_q_refused_example :
    Untouched office
      (codes "q7A")
      start
      (snpp_del_user_q office (some (codes "bob")) (codes "q7A") start)
snpp_del_user_q_refused_example =
    snpp_del_user_q_refused office (some (codes "bob")) (codes "q7A") start
      (inr (inr (codes "bob", refl, stranger)))

in_queue : queue_path office.qdir (codes "q7A") ≡ some (in_qdir office (codes "q7A"))
unfolding queue_path starts_with in_qdir
in_queue = refl

page : Fs.get start.files (in_qdir office (codes "q7A")) ≡ some (write_entry entry)
unfolding Fs.get equal in_qdir write_entry print_int print_nat
page = refl

snpp_del_user_q_own_example :
    ((path : Bytes)
      → Fs.get (snpp_del_user_q office (some (codes "dustin")) (codes "q7A") start).files path ≡ (
          if equal (lock_path office (codes "q7A")) path
            || equal (in_qdir office (codes "q7A")) path
          then none
          else Fs.get start.files path))
    × ((snpp_del_user_q office (some (codes "dustin")) (codes "q7A") start).log
        ≡ start.log
          ++ (record {
            kind = deque_log;
            qid = codes "q7A";
            to = codes "dustin";
            reason = codes "user request";
          }
              ∷ []))
snpp_del_user_q_own_example =
    snpp_del_user_q_own office entry (codes "7A") start on in_queue page entry-Storable
      ((refl, refl), ((refl, refl), tt))

-- a session with one pager id and a message
abbrev paging : Session
paging = record initial {
  pageid = some (codes "dustin" ∷ []);
  size = 4;
  nid = 1;
  message = some (codes "call me");
}

paging-IsValid : IsValid paging
paging-IsValid = record { ids = (refl, omega arith, refl); priority = inr refl }

-- the queue behind its page
abbrev paged : World
paged = record {
  files =
      (codes "/q/q7B", codes "10\ndustin\n36000\n0\n0\n1\ncall me\n")
      ∷ (codes "/q/q7A", codes "10\ndustin\n1000\n0\n0\n167772161\ncall me\n")
      ∷ [];
  tmp = codes "B";
  log = record { kind = que_log; qid = codes "q7B"; to = codes "dustin"; reason = [] } ∷ [];
  mail = [];
  sent = [];
}

sends :
    send_all office (page_for paging 1 (codes "call me")) (ids_of paging.pageid) start
    ≡ some (1, paged)
unfolding send_all page_for storequeue get_maxlen check_time bit_set newqfile find_free newtmp
    name_prefix f_exists Fs.get Fs.put Fs.unlink equal write_entry print_int print_nat as_int
    fntoqid logqueue
sends = refl

snpp_send_lem_example :
    (s' : Session) × (reply : Bytes) × (snpp_send office 1 paging start
      ≡ some (s', puttext reply paged))
    × (s' ≡ record paging { lastsend = s'.lastsend })
    × ((s'.lastsend ≡ true)
        ↔ Queued office (page_for paging 1 (codes "call me")) (ids_of paging.pageid) start paged)
snpp_send_lem_example =
    snpp_send_lem office 1 paging start (codes "call me") 1 paged paging-IsValid refl (omega arith)
      refl sends

Session-IsValid_example :
    IsValid (snpp_setpageid office (codes "dustin") paging start).0
    × IsValid (snpp_setmess (codes "dustin") paging start).0
    × IsValid (snpp_setpriority (codes "dustin") paging start).0
    × IsValid (snpp_cleanstuff paging)
Session-IsValid_example = Session-IsValid office (codes "dustin") paging start paging-IsValid

-- a client that logs in and leaves
abbrev lines : List Bytes
lines = codes "LOGI dustin secret" ∷ codes "QUIT" ∷ []

abbrev left : Conn
left = record {
  session = record initial { logname = some (codes "dustin") };
  world = record start {
    sent =
        codes
          "220 Dustin's SNPP gateway version 1 ready\n250 Login Accepted\n221 Alrighty, then, goodbye\n";
  };
  tries = 0;
  going = false;
}
