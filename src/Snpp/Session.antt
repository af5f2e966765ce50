-- ===== src/Snpp/Session.antt =====
-- The session's variables and the commands that set them, and `snpp_send`: snpp/snppmain.c.
pub mod Invariant
pub mod Send
pub mod Keeps
use pageserv.Base.{
  ◌>>=◌, ℕ, zero, suc, ◌+◌, ◌-◌, ◌*◌, ◌≡◌, refl, Bool, true, false, not, Option, none, some, List,
  [], ◌∷◌, ◌++◌, ◌&&◌, ◌||◌, if◌then◌else◌, Bytes, ℤ, pos, ltb_ℤ, eq_ℤ, length, leb, ◌==◌, codes,
}
use pageserv.Clib.{to_lower}
use pageserv.Queue.Types.{no_user, User, Queuent, Env, World}
use pageserv.Queue.Format.{buflen}
use pageserv.Queue.Store.{puttext, storequeue, pr_high, pr_normal}

pub record Session : Type 0 where
  -- snpp_pageid: NULL, or the entries written to the array, with `size`, the room that it has
  pub pageid : Option (List Bytes)
  pub size : ℕ
  pub max : ℤ
  pub nid : ℕ
  pub message : Option Bytes
  pub logname : Option Bytes
  pub priority : ℤ
  pub holdtime : ℤ
  pub lastsend : Bool

abbrev pub initial : Session
initial = record {
  pageid = none;
  size = 0;
  max = pos 0;
  nid = 0;
  message = none;
  logname = none;
  priority = pr_normal;
  holdtime = pos 0;
  lastsend = false;
}

-- the array is allocated on its first use
pub allocate : Env → Session → Option (List Bytes) → Session
allocate env s none = record s {
  pageid = some [];
  size = 4;
  max = env.lookup_int (codes "modules.snpp.maxbroadcast");
}
allocate env s (some ids) = s

-- snpp_pageid[snpp_nid++] = strdup(id), behind the growth of the array
pub append_id : Session → Bytes → Session
append_id s id = record s {
  size = if (s.nid + 1) == s.size then s.size * 2 else s.size;
  pageid = elim s.pageid [ none ↦ none | some ids ↦ some (ids ++ id ∷ []) ];
  nid = s.nid + 1;
}

accept_id : Env → Bytes → Session → World → Session × World
unfolding append_id puttext
accept_id env id s w =
    if env.u_exists id
    then (if ltb_ℤ (pos 0) s.max && not (ltb_ℤ (pos s.nid) s.max)
        then (s, puttext (codes "552 Maximum Entries exceeded.\n") w)
        else (append_id s id, puttext (codes "250 Pager ID Accepted\n") w))
    else (s, puttext (codes "550 No such user\n") w)

unfoldable pub snpp_setpageid : Env → Bytes → Session → World → Session × World
unfolding allocate accept_id
snpp_setpageid env id s w = accept_id env id (allocate env s s.pageid) w

set_message : Bytes → Session → World → Option Bytes → Session × World
unfolding puttext
set_message mess s w (some old) = (s, puttext (codes "503 Error, message already entered\n") w)
set_message mess s w none =
    if length mess == 0
    then (s, puttext (codes "550 Error, invalid message\n") w)
    else if leb buflen (length mess)
    then (s, puttext (codes "550 Error:  Message too long\n") w)
    else (record s { message = some mess }, puttext (codes "250 Message OK\n") w)

unfoldable pub snpp_setmess : Bytes → Session → World → Session × World
unfolding set_message
snpp_setmess mess s w = set_message mess s w s.message

unfoldable pub snpp_setpriority : Bytes → Session → World → Session × World
unfolding puttext
snpp_setpriority [] s w = (s, puttext (codes "500 You forgot your argument.\n") w)
snpp_setpriority (c ∷ pri) s w = (
  if to_lower c == b'h' then record s { priority = pr_high } else s,
  puttext (codes "250 Priority OK\n") w,
)

-- snpp_cleanstuff; `size` and `max` are static and stay
unfoldable pub snpp_cleanstuff : Session → Session
snpp_cleanstuff s = record s {
  pageid = none;
  nid = 0;
  holdtime = pos 0;
  lastsend = false;
  priority = pr_normal;
  message = none;
  logname = none;
}

-- the entry that is sent to one pager
unfoldable pub page_for : Session → ℕ → Bytes → Bytes → Queuent
page_for s rem_addr message id = record {
  priority = s.priority;
  to = id;
  message = message;
  qid = [];
  submitted = pos 0;
  soonest = s.holdtime;
  latest = pos 0;
  rem_addr = rem_addr;
  u = no_user;
}

-- the loop: how many were queued
unfoldable pub send_all : Env → (Bytes → Queuent) → List Bytes → World → Option (ℕ × World)
send_all env page [] w = some (0, w)
send_all env page (id ∷ ids) w = do
  (ret, w1) ← storequeue env (page id) true w
  (j, w2) ← send_all env page ids w1
  some (if ret == 0 then j + 1 else j, w2)

abbrev pub ids_of : Option (List Bytes) → List Bytes
ids_of none = []
ids_of (some ids) = ids

send_message : Env → ℕ → Session → World → Option Bytes → Option (Session × World)
unfolding puttext send_all page_for
send_message env addr s w none =
    some (s, puttext (codes "503 Error, pager ID or message incomplete\n") w)
send_message env addr s w (some message) =
    if s.nid == 0
    then some (s, puttext (codes "503 Error, pager ID or message incomplete\n") w)
    else if s.lastsend
    then some (s, puttext (codes "554 Message already sent\n") w)
    else do
      (j, w1) ← send_all env (page_for s addr message) (ids_of s.pageid) w
      some (
          if j == s.nid
          then (
            record s { lastsend = true },
            puttext (codes "250 Message queued successfully\n") w1,
          )
          else (record s { lastsend = false }, puttext (codes "554 Message failed\n") w1))

-- `none` where storequeue ends the program
unfoldable pub snpp_send : Env → ℕ → Session → World → Option (Session × World)
unfolding send_message
snpp_send env addr s w = send_message env addr s w s.message
