-- ===== src/Examples/Listing.antt =====
-- The theorems on the list of the queue at concrete inputs.
use pageserv.Base.{◌≡◌, ◌≢◌, refl, true, false, none, some, [], ◌∷◌, pos, All, arith, codes}
use pageserv.Clib.{equal, starts_with}
use pageserv.Clib.Decimal.{print_int, print_nat, atoi}
use pageserv.Fs
use pageserv.Fs.{f_exists}
use pageserv.Net.{to_u32}
use pageserv.Text.{kw}
use pageserv.Queue.Types.{Queuent, Env, World}
use pageserv.Queue.Format.{readqueuefile, queue_path, fntoqid}
use pageserv.Queue.Locks.{
  q_islocked, q_lock, lock_path, lock_name, in_qdir, getqueueinfo, gq_checkit, readytodeliver, fuz,
  splat,
}
use pageserv.Queue.Sort.{queuecompare, queuesort}
use pageserv.Queue.Sort.Fault.{queuesort-none}
use pageserv.Queue.Listing.{list_one}
use pageserv.Queue.Listing.Once.{list_one-locked}
use pageserv.Examples.{dustin, entry, office, start}

-- an hour after the entry was submitted
abbrev morning : Env
morning = record office { now = pos 4600 }

abbrev listed : Queuent
listed = record entry { u = dustin }

abbrev locked : World
locked = record start { files = (codes "/q/l7A", codes "7\n") ∷ start.files }

one_terminal : equal (codes "900") splat ≡ false
unfolding equal
one_terminal = refl

lists : list_one morning (codes "900") (codes "q7A") start ≡ (some listed, locked)
unfolding list_one readqueuefile starts_with Fs.get Fs.put Fs.unlink f_exists equal print_int
    print_nat kw atoi fntoqid to_u32 queue_path getqueueinfo gq_checkit readytodeliver fuz
    q_islocked q_lock lock_path lock_name in_qdir
lists = refl

list_one-locked_example :
    (listed.to ≢ [])
    × (equal listed.u.statid (codes "900") ≡ true)
    × (q_islocked morning listed (readqueuefile morning (codes "q7A") start).1 ≡ false)
    × (q_islocked morning listed locked ≡ true)
list_one-locked_example =
    list_one-locked morning (codes "900") (codes "q7A") start listed locked one_terminal lists

-- an urgent page behind a normal one
abbrev urgent : Queuent
urgent = record entry { priority = pos 5 }

none_below : All (λ x. queuecompare x urgent ≡ false) (entry ∷ urgent ∷ [])
unfolding queuecompare
none_below = (refl, (refl, tt))

queuesort-none_example : queuesort (entry ∷ urgent ∷ []) ≡ none
queuesort-none_example = queuesort-none (entry ∷ urgent ∷ []) urgent (omega arith) refl none_below
