-- ===== src/Snpp/Login.antt =====
-- What a user may do behind LOGIn: snpp/snpplogin.c.
pub mod Owner
use pageserv.Base.{
  ◌>>=◌, ℕ, zero, suc, ◌+◌, ◌≡◌, refl, Bool, true, false, not, Option, none, some, List, [], ◌∷◌,
  ◌++◌, ◌&&◌, ◌||◌, if◌then◌else◌, Bytes, ℤ, pos, ltb_ℤ, eq_ℤ, length, ltb, leb, ◌==◌, codes,
}
use pageserv.Clib.{equal}
use pageserv.Clib.Decimal.{print_nat, print_int}
use pageserv.Net.{nmc_int_to_dq}
use pageserv.Queue.Types.{Queuent, Env, World, deque_log}
use pageserv.Queue.Format.{readqueuefile}
use pageserv.Queue.Store.{puttext, logqueue}
use pageserv.Queue.Locks.{dequeue, dq_notify, notify_fail, splat}
use pageserv.Queue.Listing.{listqueue}

-- What stands outside src/: crypt(password, salt), and the text of `ctime`.
pub record System : Type 0 where
  pub crypt : Bytes → Bytes → Bytes
  pub ctime : ℤ → Bytes

-- the name before the first space, and the password behind it
pub split_login : Bytes → Bytes × Bytes
split_login [] = ([], [])
split_login (c ∷ s) = let (u, p) = split_login s in if c == b' ' then ([], s) else (c ∷ u, p)

invalid_login : World → Option Bytes × World
unfolding puttext
invalid_login w = (none, puttext (codes "550 Error, Invalid LoginID or Password\n") w)

-- the result is the name, or none where the login is refused
unfoldable pub snpp_login : System → Env → Bytes → World → Option Bytes × World
unfolding split_login invalid_login puttext
snpp_login sys env what w =
    let (u, p) = split_login what in
    let usr = env.getuser u in
    if not (env.u_exists u)
    then invalid_login w
    else if ltb (length usr.passwd) 13
    then invalid_login w
    else if equal usr.passwd (sys.crypt p usr.passwd)
    then (some u, puttext (codes "250 Login Accepted\n") w)
    else invalid_login w

-- the removal, behind all the tests
remove_entry : Env → Queuent → World → World
remove_entry env q w = puttext (codes "250 Message dequeued.\n") (
    dequeue env q.qid (
      dq_notify env q (codes "User requested dequeue (page not sent)") notify_fail
        (logqueue q deque_log (codes "user request") w)))

delete_entry : Env → Bytes → Bytes → World → World
unfolding remove_entry readqueuefile
delete_entry env user arg w =
    let (q, w1) = readqueuefile env arg w in
    if equal q.to user
    then remove_entry env q w1
    else puttext (codes "550 Invalid queue file.\n") w1

delete_for : Env → Bytes → World → Option Bytes → World
unfolding delete_entry
delete_for env arg w none = puttext (codes "550 Must LOGIn first\n") w
delete_for env arg w (some name) = delete_entry env name arg w

-- the argument is never NULL here: `snpp_arg` gives a text
unfoldable pub snpp_del_user_q : Env → Option Bytes → Bytes → World → World
unfolding delete_for puttext
snpp_del_user_q env user arg w =
    if eq_ℤ (env.lookup_int (codes "modules.snpp.dequeue")) (pos 0)
    then puttext (codes "500 Sorry, can't do that (see administrator)\n") w
    else delete_for env arg w user

-- snpp_displayqlong: one entry in full
size_of : Queuent → Bytes
size_of q = print_nat (length q.message)

scheduled : System → Queuent → Bytes
scheduled sys q =
    if ltb_ℤ q.submitted q.soonest
    then codes "214     To be delivered no sooner than " ++ sys.ctime q.soonest
    else []

pub snpp_displayqlong : System → Env → Bytes → Bytes → World → World
unfolding size_of scheduled readqueuefile puttext
snpp_displayqlong sys env quename username w =
    let (q, w1) = readqueuefile env quename w in
    if equal q.to []
    then puttext (codes "550 No such queue entry\n") w1
    else if not (equal q.to username)
    then puttext (codes "550 That's not yours.\n") w1
    else puttext
        (codes "214 Pri: "
          ++ (print_int q.priority
              ++ (codes ", size: "
                  ++ (size_of q
                      ++ (codes ", from: "
                          ++ (nmc_int_to_dq q.rem_addr
                              ++ (codes ", sent: "
                                  ++ (sys.ctime q.submitted
                                      ++ (codes "214 "
                                          ++ (q.message
                                              ++ (codes "\n"
                                                  ++ (scheduled sys q
                                                      ++ codes
                                                          "250 End of queue entry\n"))))))))))))
        w1

snpp_displayq : System → Queuent → Bytes
unfolding size_of
snpp_displayq sys q =
    codes "214 "
    ++ (q.qid
        ++ (codes ": Pri: "
            ++ (print_int q.priority
                ++ (codes ", size: "
                    ++ (size_of q
                        ++ (codes ", sent: "
                            ++ ((if ltb_ℤ q.submitted q.soonest then b'*' ∷ [] else [])
                                ++ sys.ctime q.submitted)))))))

-- the loop over the list
pub show_own : System → Bytes → List Queuent → Bytes
unfolding snpp_displayq
show_own sys user [] = []
show_own sys user (q ∷ qs) =
    let rest = show_own sys user qs in if equal q.to user then snpp_displayq sys q ++ rest else rest

show_list : System → Env → Bytes → World → Option World
unfolding show_own puttext
show_list sys env user w = do
  (qs, w1) ← listqueue env splat w
  some (puttext (show_own sys user qs ++ codes "250 End of queue\n") w1)

show_for : System → Env → Bytes → World → Option Bytes → Option World
unfolding show_list snpp_displayqlong puttext
show_for sys env arg w none = some (puttext (codes "550 Must LOGIn first\n") w)
show_for sys env arg w (some name) =
    if ltb 0 (length arg)
    then some (snpp_displayqlong sys env arg name w)
    else show_list sys env name w

-- `none` where sorting the list reads outside it
unfoldable pub snpp_show_user_q : System → Env → Option Bytes → Bytes → World → Option World
unfolding show_for puttext
snpp_show_user_q sys env user arg w =
    if eq_ℤ (env.lookup_int (codes "modules.snpp.showq")) (pos 0)
    then some (puttext (codes "500 Sorry, can't do that (see administrator)\n") w)
    else show_for sys env arg w user
