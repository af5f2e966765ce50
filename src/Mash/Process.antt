-- ===== src/Mash/Process.antt =====
-- pageserv/protocol.c: the commands of the line protocol.
pub mod Pages
use pageserv.Base.{
  ℕ, zero, suc, ◌+◌, ◌-◌, Bool, true, false, not, Option, none, some, List, [], ◌∷◌, ◌++◌,
  if◌then◌else◌, Bytes, codes, length, ltb, leb, ◌==◌, ℤ, pos, eq_ℤ,
}
use pageserv.Clib.{equal, to_lower}
use pageserv.Clib.Decimal.{print_nat}
use pageserv.Queue.Format.{buflen, tolen}
use pageserv.Queue.Types.{User, no_user, Queuent, Env, World}
use pageserv.Queue.Store.{storequeue, pr_high, pr_normal}
use pageserv.Queue.Listing.{queuedepth, dofarkle}
use pageserv.Mash.Talk.{Talk, Step, going, ◌>>=◌, ◌>>◌, return, stop, fault, say, hear, calls}
use pageserv.Mash.Login.{System, p_login, first_of}

-- memset(&q, 0x00, sizeof(q))
abbrev pub no_entry : Queuent
no_entry = record {
  priority = pos 0;
  to = [];
  message = [];
  qid = [];
  submitted = pos 0;
  soonest = pos 0;
  latest = pos 0;
  rem_addr = 0;
  u = no_user;
}

-- strcpy(q.to, id) and what follows it: `to` has TOLEN bytes. storequeue(s, q, STORE_NORMAL) is called
-- for a user that exists.
unfoldable pub store_for : Env → Bytes → Queuent → Talk → Step (Unit {0})
unfolding storequeue calls
store_for env id q =
    let entry = record q { to = id } in
    let queued : Talk → Step (Unit {0}) = (do
      ret ← calls (storequeue env entry false)
      return tt) in
    if ltb (length id) tolen
    then (if env.u_exists id then queued else say (codes "No such user\n\n\n"))
    else fault

-- `addr` is ntohl(p.fsin.sin_addr.s_addr)
unfoldable pub p_epage : Env → ℕ → Talk → Step (Unit {0})
unfolding store_for hear
p_epage env addr = do
  say (codes "ID: ")
  id ← hear env.junk_line
  say (codes "Priority: ")
  pri ← hear env.junk_line
  say (codes "Message: ")
  message ← hear env.junk_line
  let priority = if to_lower (first_of pri) == b'h' then pr_high else pr_normal
  store_for env id (record no_entry { priority = priority; message = message; rem_addr = addr })

-- the entry is not zeroed: its other fields are what the memory held
unfoldable pub p_mash : Env → Talk → Step (Unit {0})
unfolding store_for hear
p_mash env = do
  say (codes "ID: ")
  id ← hear env.junk_line
  say (codes "Message: ")
  message ← hear env.junk_line
  store_for env id (record env.junk { priority = pr_normal; message = message })

unfoldable pub p_depth : Env → Talk → Step (Unit {0})
unfolding queuedepth
p_depth env t = say (print_nat (queuedepth env t.world) ++ codes " items in the queue\n") t

abbrev farkled : Env → Queuent → Talk → Step (Unit {0})
farkled env q =
    let u = env.getuser q.to in
    if equal u.name []
    then return tt
    else say (u.pageid ++ (b'\n' ∷ (u.statid ++ (b'\n' ∷ (q.message ++ b'\n' ∷ [])))))

-- conf.farkle is `farkle`
unfoldable pub p_farkle : Env → ℤ → Talk → Step (Unit {0})
unfolding queuedepth dofarkle calls
p_farkle env farkle t =
    let taken : Talk → Step (Unit {0}) = (do q ← calls (dofarkle env); farkled env q) in
    if eq_ℤ farkle (pos 0)
    then say (codes "Sorry, but farkle is not supported.\n\n\n") t
    else if ltb 0 (queuedepth env t.world)
    then taken t
    else say (codes "No pages\n\n\n") t

unfoldable pub p_quit : Talk → Step (Unit {0})
p_quit = do say (codes "Good bye, thanks for shopping\n"); stop

-- P_MASH to P_LOGIN, and P_UNKNOWN
pub data Command : Type 0 where
  mash farkle depth quit epage login unknown : Command

unfoldable pub find_command : Bytes → Command
unfolding equal
find_command cmd =
    if equal cmd (codes "mash")
    then mash
    else if equal cmd (codes "farkle")
    then farkle
    else if equal cmd (codes "depth")
    then depth
    else if equal cmd (codes "quit")
    then quit
    else if equal cmd (codes "epage")
    then epage
    else if equal cmd (codes "login")
    then login
    else unknown

-- sprintf(buf, "Unknown command: %s\n", cmd) into BUFLEN bytes
unfoldable pub unknown_command : Bytes → Talk → Step (Unit {0})
unknown_command cmd =
    let text = codes "Unknown command: " ++ (cmd ++ b'\n' ∷ []) in
    let answered : Talk → Step (Unit {0}) = (do say text; stop) in
    if ltb (length text) buflen then answered else fault

unfoldable pub perform : System → Env → ℤ → ℕ → Bytes → Command → Talk → Step (Unit {0})
unfolding p_mash p_farkle p_depth p_quit p_epage p_login unknown_command
perform sys env may_farkle addr cmd mash = p_mash env
perform sys env may_farkle addr cmd farkle = p_farkle env may_farkle
perform sys env may_farkle addr cmd depth = p_depth env
perform sys env may_farkle addr cmd quit = p_quit
perform sys env may_farkle addr cmd epage = p_epage env addr
perform sys env may_farkle addr cmd login = p_login sys env
perform sys env may_farkle addr cmd unknown = unknown_command cmd

unfoldable pub process : System → Env → ℤ → ℕ → Bytes → Talk → Step (Unit {0})
unfolding find_command perform
process sys env may_farkle addr cmd = perform sys env may_farkle addr cmd (find_command cmd)
