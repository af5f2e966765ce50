-- ===== src/Delivery/Pass.antt =====
-- One pass over the queue: `runqueue` and `cleanmylocks` of delivery/misc.c, `any_closeterm` of
-- delivery/modem.c. The open terminal is a `Line`; opening and closing the port, the locks of serial
-- lines, the traps and the sleeps are left out. The alarm ends the program after
-- two minutes; here it comes after a number of rounds over the queue.
pub mod Entry
pub mod Clean
use pageserv.Base.{
  ◌>>=◌, ℕ, zero, suc, ◌+◌, ◌≡◌, refl, Bool, true, false, not, Option, none, some, List, [], ◌∷◌,
  ◌++◌, ◌==◌, ◌&&◌, if◌then◌else◌, Bytes, ℤ, pos, eq_ℤ, codes,
}
use pageserv.Queue.Types.{Queuent, Env, World}
use pageserv.Queue.Locks.{in_qdir, dequeue, dq_notify, notify_fail, q_unlock, getqueueinfo}
use pageserv.Queue.Listing.{listqueue, names_with}
use pageserv.Fs
use pageserv.Queue.Format.{sscanf_int}
use pageserv.Delivery.{Line, put_line}
use pageserv.Delivery.Tap.{c_rs, s_tap_init, s_tap_send, s_tap_end}

-- what del_log is told of an entry
pub data Outcome : Type 0 where
  delivered probably_delivered failed deferred : Outcome

pub record Note : Type 0 where
  pub outcome : Outcome
  pub qid : Bytes
  pub to : Bytes

pub record Pass : Type 0 where
  pub world : World
  pub line : Line
  pub notes : List Note

pub note : Outcome → Queuent → Pass → Pass
note outcome q d = record d {
  notes = d.notes ++ record { outcome = outcome; qid = q.qid; to = q.to } ∷ [];
}

-- what is done with an entry on the result `r`, the first of its list or a later one
unfoldable pub settle_entry : Env → Bool → Queuent → ℤ → Pass → Pass
unfolding note dequeue dq_notify q_unlock
settle_entry env first q r d =
    let gone = record d { world = dequeue env q.qid d.world } in
    if eq_ℤ r (pos 0)
    then note delivered q gone
    else if eq_ℤ r (pos b'X') && first
    then note probably_delivered q gone
    else if eq_ℤ r (pos c_rs)
    then note failed q (record d {
      world = dequeue env q.qid (dq_notify env q (codes "Unsuccessful") notify_fail d.world);
    })
    else note deferred q (record d { world = q_unlock env q d.world })

-- for(i = 0; q[i].to[0] != NULL; i++): listqueue lists no entry without a recipient. The loop ends at an
-- answer 'X'. The result is the last `r`.
pub deliver_all : Env → Bool → List Queuent → ℤ → Pass → ℤ × Pass
unfolding settle_entry
deliver_all env first [] r d = (r, d)
deliver_all env first (q0 ∷ qs) r d =
    let q = getqueueinfo env q0 in
    let (r', line) = s_tap_send q.u.pageid q.message d.line in
    let d' = settle_entry env first q r' (record d { line = line }) in
    let more = deliver_all env false qs r' d' in if eq_ℤ r' (pos b'X') then (r', d') else more

-- while(q[0].to[0] != NULL): `none` is the alarm, or a read outside the list in listqueue
pub deliver_rounds : ℕ → Env → Bytes → List Queuent → Pass → Option Pass
unfolding deliver_all
deliver_rounds rounds env number [] d = some d
deliver_rounds zero env number (q ∷ qs) d = none
deliver_rounds (suc rounds) env number (q ∷ qs) d =
    let (r, d1) = deliver_all env true (q ∷ qs) (pos 0) d in
    let again = (do
      (list, w) ← listqueue env number d1.world
      deliver_rounds rounds env number list (record d1 { world = w })) in
    if eq_ℤ r (pos b'X') then some d1 else again

-- puttext(s, "+++atz\n"), before the port is closed
any_closeterm : Line → Line
unfolding put_line
any_closeterm p = put_line (codes "+++atz\n") p

-- behind s_tap_init; the flag says whether the loop over the terminals goes on
deliver_open : ℕ → Env → Bytes → List Queuent → Pass → Bool × Line → Option (Bool × Pass)
unfolding deliver_rounds s_tap_end any_closeterm
deliver_open rounds env number list d (false, line) =
    some (false, record d { line = any_closeterm line })
deliver_open rounds env number list d (true, line) = do
  d1 ← deliver_rounds rounds env number list (record d { line = line })
  some (true, record d1 { line = any_closeterm (s_tap_end d1.line) })

-- a terminal with entries, whose port gave a line or was not opened
deliver_list : ℕ → Env → Bytes → Option Line → List Queuent → Pass → Option (Bool × Pass)
unfolding deliver_open s_tap_init
deliver_list rounds env number port [] d = some (true, d)
deliver_list rounds env number none (q ∷ qs) d = some (true, d)
deliver_list rounds env number (some line) (q ∷ qs) d =
    deliver_open rounds env number (q ∷ qs) d (s_tap_init (env.getterm number).flags line)

-- for(t = 0; termlist[t] != NULL; t++), each terminal with what any_openterm gives
unfoldable pub deliver_terminals : ℕ → Env → List (Bytes × Option Line) → Pass → Option Pass
unfolding deliver_list
deliver_terminals rounds env [] d = some d
deliver_terminals rounds env ((number, port) ∷ terms) d = do
  (list, w) ← listqueue env number d.world
  (goes_on, d1) ← deliver_list rounds env number port list (record d { world = w })
  let rest = deliver_terminals rounds env terms d1
  if goes_on then rest else some d1

-- one file of cleanmylocks, with the number that was read last: a text without one leaves it
clean_one : Env → Bytes → ℤ → World → Option Bytes → ℤ × World
clean_one env path i w none = (i, w)
clean_one env path i w (some text) =
    let j = sscanf_int text i in
    (j, if eq_ℤ j (pos env.pid) then record w { files = Fs.unlink w.files path } else w)

clean_loop : Env → List Bytes → ℤ → World → World
unfolding clean_one
clean_loop env [] i w = w
clean_loop env (name ∷ names) i w =
    let (j, w1) = clean_one env (in_qdir env name) i w (Fs.get w.files (in_qdir env name)) in
    clean_loop env names j w1

unfoldable pub cleanmylocks : Env → World → World
unfolding clean_loop
cleanmylocks env w = clean_loop env (names_with b'l' (env.qdir ++ b'/' ∷ []) w.files) (pos 0) w

-- the whole of runqueue
unfoldable pub runqueue : ℕ → Env → List (Bytes × Option Line) → Pass → Option Pass
unfolding deliver_terminals cleanmylocks
runqueue rounds env terms d = do
  d1 ← deliver_terminals rounds env terms d
  some (record d1 { world = cleanmylocks env d1.world })
