-- ===== src/Examples/Queue.antt =====
-- The queue's theorems at concrete inputs.
use pageserv.Base.{
  ◌⊎◌, ◌+◌, ◌*◌, ◌<◌, ◌≡◌, refl, true, false, not, none, some, List, [], ◌∷◌, ◌++◌, ◌&&◌, ◌||◌,
  if◌then◌else◌, Bytes, pos, negsuc, ltb_ℤ, All, arith, codes,
}
use pageserv.Clib.{equal}
use pageserv.Clib.Decimal.{print_nat}
use pageserv.Fs
use pageserv.Fs.{f_exists}
use pageserv.Text.{kw}
use pageserv.Hours.{bit_set, pack_timebits}
use pageserv.Queue.Types.{Queuent, World, exp_log}
use pageserv.Queue.Format.{write_entry, read_entry, fntoqid, readqueuefile}
use pageserv.Queue.Format.RoundTrip.{Storable, read_entry-write_entry}
use pageserv.Queue.Format.Keeps.{Kept, readqueuefile_keeps}
use pageserv.Queue.Names.{name_prefix, newqfile}
use pageserv.Queue.Names.Counter.{IsLetter, value}
use pageserv.Queue.Names.Fresh.{newqfile_total}
use pageserv.Queue.Store.{check_time, get_maxlen, too_long, store_now, storequeue, logqueue}
use pageserv.Queue.Store.Entry.{Stored}
use pageserv.Queue.Store.Wrap.{Wraps, store_all}
use pageserv.Queue.Store.Levels.{storequeue-Stored, storequeue-Wraps}
use pageserv.Queue.Store.Accepts.{taken_at, Unchanged, storequeue-taken_at}
use pageserv.Queue.Locks.{
  in_qdir, lock_path, q_lock, q_unlock, q_islocked, dequeue, dq_notify, notify_fail, readytodeliver,
}
use pageserv.Queue.Locks.Locked.{q_lock_lem}
use pageserv.Queue.Locks.Laws.{dequeue_lem, readytodeliver_lem, lateness}
use pageserv.Examples.{entry, office, night, start}

pub entry-Storable : Storable entry
unfolding kw
entry-Storable = record {
  priority = omega arith;
  to_one_line = (refl, (refl, (refl, (refl, (refl, (refl, tt))))));
  to_trimmed = refl;
  to_fits = omega arith;
  submitted = omega arith;
  soonest = omega arith;
  latest = omega arith;
  rem_addr = omega arith;
  message_one_line = (refl, (refl, (refl, (refl, (refl, (refl, (refl, tt)))))));
  message_trimmed = refl;
  message_fits = omega arith;
}

read_entry-write_entry_example :
    read_entry entry [] (codes "/q/q7B") (write_entry entry)
    ≡ (record entry { qid = fntoqid (codes "/q/q7B"); u = entry.u }, true)
read_entry-write_entry_example =
    read_entry-write_entry entry entry [] (codes "/q/q7B") entry-Storable

fits : too_long (get_maxlen office entry) entry.message ≡ false
unfolding too_long get_maxlen equal
fits = refl

fits_at_night : too_long (get_maxlen night entry) entry.message ≡ false
unfolding too_long get_maxlen equal
fits_at_night = refl

takes : check_time office entry ≡ true
unfolding check_time equal bit_set
takes = refl

storequeue-Stored_example :
    (path : Bytes) × (w' : World) × (storequeue office entry true start ≡ some (0, w'))
    × Stored office entry start w' path
storequeue-Stored_example = storequeue-Stored office entry true start tt fits takes

hours_of_dustin : (night.getuser entry.to).times ≡ pack_timebits (pos 9) (pos 17)
unfolding equal pack_timebits
hours_of_dustin = refl

storequeue-taken_at_example :
    ((taken_at night entry 9 17 ≡ true)
      × ((path : Bytes) × (v : World) × (storequeue night entry true start ≡ some (0, v))
          × Stored night entry start v path))
    ⊎ ((taken_at night entry 9 17 ≡ false)
        × ((v : World) × (storequeue night entry true start ≡ some (1, v)) × Unchanged start v))
storequeue-taken_at_example =
    storequeue-taken_at night entry true start 9 17 tt fits_at_night hours_of_dustin (omega arith)
      (omega arith) (omega arith) (omega arith)

-- at three o'clock
not_taken : taken_at night entry 9 17 ≡ false
not_taken = refl

abbrev long_entry : Queuent
long_entry = record entry { message = codes "please call me back today" }

twelve : get_maxlen office long_entry ≡ pos 12
unfolding get_maxlen equal
twelve = refl

wraps : office.lookup_int (codes "tuning.wrapMessages") ≡ pos 1
unfolding equal
wraps = refl

storequeue-Wraps_example :
    (ps : List Bytes) × Wraps 12 long_entry.message ps
    × ((w : World)
        → storequeue office long_entry true w
          ≡ store_all (λ p. store_now office (record long_entry { message = p }) true) ps w)
storequeue-Wraps_example =
    storequeue-Wraps 12 office long_entry true twelve (omega arith) (omega arith) (omega arith)
      (omega arith) wraps

newqfile_total_example :
    (t : Bytes) × (newqfile (codes "/q") 7 start.files []
      ≡ some (name_prefix (codes "/q") 7 ++ t, t))
    × (f_exists start.files (name_prefix (codes "/q") 7 ++ t) ≡ false)
    × All IsLetter t
    × (value [] < value t)
newqfile_total_example = newqfile_total (codes "/q") 7 start.files [] tt

readqueuefile_keeps_example :
    Kept office (codes "q7A") start (readqueuefile office (codes "q7A") start).1
readqueuefile_keeps_example = readqueuefile_keeps office (codes "q7A") start

abbrev other : Queuent
other = record entry { qid = codes "q7B" }

q_lock_lem_example :
    (q_islocked office entry (q_lock office entry start) ≡ true)
    × (q_islocked office entry (q_unlock office entry start) ≡ false)
    × (q_islocked office other (q_lock office entry start)
        ≡ (equal (codes "7A") (codes "7B") || q_islocked office other start))
    × (q_islocked office other (q_unlock office entry start)
        ≡ (not (equal (codes "7A") (codes "7B")) && q_islocked office other start))
    × (Fs.get (q_lock office entry start).files (codes "/q/q7A") ≡ (
        if equal (office.qdir ++ (b'/' ∷ b'l' ∷ codes "7A")) (codes "/q/q7A")
        then some (print_nat office.pid ++ b'\n' ∷ [])
        else Fs.get start.files (codes "/q/q7A")))
    × (Fs.get (q_unlock office entry start).files (codes "/q/q7A") ≡ (
        if equal (office.qdir ++ (b'/' ∷ b'l' ∷ codes "7A")) (codes "/q/q7A")
        then none
        else Fs.get start.files (codes "/q/q7A")))
    × (Fs.get (q_lock office entry start).files (office.qdir ++ (b'/' ∷ b'q' ∷ codes "7B"))
        ≡ Fs.get start.files (office.qdir ++ (b'/' ∷ b'q' ∷ codes "7B")))
    × (Fs.get (q_unlock office entry start).files (office.qdir ++ (b'/' ∷ b'q' ∷ codes "7B"))
        ≡ Fs.get start.files (office.qdir ++ (b'/' ∷ b'q' ∷ codes "7B")))
q_lock_lem_example =
    q_lock_lem office entry other (codes "7A") (codes "7B") start (codes "/q/q7A") refl refl

dequeue_lem_example :
    ((path : Bytes)
      → Fs.get (dequeue office (codes "q7A") start).files path ≡ (
          if equal (lock_path office (codes "q7A")) path
            || equal (in_qdir office (codes "q7A")) path
          then none
          else Fs.get start.files path))
    × ((dequeue office (codes "q7A") start).log ≡ start.log)
    × ((dequeue office (codes "q7A") start).mail ≡ start.mail)
    × ((dequeue office (codes "q7A") start).sent ≡ start.sent)
    × ((dequeue office (codes "q7A") start).tmp ≡ start.tmp)
dequeue_lem_example = dequeue_lem office (codes "7A") start ((refl, refl), ((refl, refl), tt))

readytodeliver_lem_example :
    ((readytodeliver office entry start).0 ≡ (
      ltb_ℤ (negsuc 59) (lateness office entry)
      && ltb_ℤ (lateness office entry) (pos (60 * (180 + 1)))))
    × ((readytodeliver office entry start).1 ≡ (
        if ltb_ℤ (lateness office entry) (pos (60 * (180 + 1)))
        then start
        else dequeue office entry.qid (
            dq_notify office entry
              (codes "Too old")
              notify_fail
              (logqueue entry exp_log [] start))))
readytodeliver_lem_example = readytodeliver_lem office entry start 180 refl
