-- ===== src/Mash/Login.antt =====
-- pageserv/login.c: a user logs in, and changes his hours and his password.
pub mod Own
use Prim.Native.Nat.{bit_and}
use pageserv.Base.{
  ℕ, zero, suc, ◌+◌, ◌-◌, ◌/◌, ◌%◌, ◌^◌, Bool, true, false, not, ◌&&◌, Option, none, some, List, [],
  ◌∷◌, ◌++◌, if◌then◌else◌, Bytes, codes, length, ltb, ◌==◌, ℤ, pos, get_or,
}
use pageserv.Clib.{equal, to_lower}
use pageserv.Clib.Decimal.{print_nat}
use pageserv.Hours.{pack_timebits, getnormtimes}
use pageserv.Queue.Format.{sscanf_int}
use pageserv.Queue.Types.{User, Env}
use pageserv.Mash.Talk.{Talk, Step, ◌>>=◌, ◌>>◌, return, stop, fault, say, hear, held, keep_user}

-- crypt(key, salt), and rand() after srand(time())
pub record System : Type 0 where
  pub crypt : Bytes → Bytes → Bytes
  pub rand : ℕ

abbrev salt_chars : Bytes
salt_chars = codes "./0123456789ABCDEFGHIJKLMNOPQRSTUVWXYZabcdefghijklmnopqrstuvwxyz"

-- n characters for the number v, six bits each
unfoldable pub makesalt : ℕ → ℕ → Bytes
makesalt zero v = []
makesalt (suc n) v = get_or salt_chars (v % 64) 0 ∷ makesalt n (v / 64)

unfoldable pub setpasswd : System → User → Bytes → User
unfolding makesalt
setpasswd sys u passwd = record u { passwd = sys.crypt passwd (makesalt 2 sys.rand) }

-- the first byte of an answer, 0 where it is empty
abbrev pub first_of : Bytes → ℕ
first_of [] = 0
first_of (c ∷ s) = c

-- %c of the byte 0 ends the text
abbrev said : ℕ → Bytes
said c = if c == 0 then [] else c ∷ codes ".  Please hang up and try again\n"

-- 1 for yes and 2 for no; another answer ends the process
unfoldable pub getynresult : Bytes → Talk → Step ℕ
getynresult str =
    let c = first_of str in
    if to_lower c == b'y'
    then return 1
    else if to_lower c == b'n'
    then return 2
    else (do say (codes "Um, I said y or n, you said " ++ said c); stop)

abbrev pub hours_line : ℕ × ℕ → Bytes
hours_line (soonest, latest) =
    codes "Your normal times are from "
    ++ (print_nat soonest ++ (codes " to " ++ (print_nat latest ++ codes ".\n")))

-- the two questions for the hours, where the user said yes; with what `buf` holds behind them
unfoldable pub ask_times : Env → Bytes → User → ℕ → Talk → Step (User × ℕ × Bytes)
unfolding hear getnormtimes pack_timebits sscanf_int
ask_times env buf u flag =
    let (soonest, latest) = getnormtimes u.times in
    let asked : Talk → Step (User × ℕ × Bytes) = (do
      say (codes "Earliest time to receive normal pages [0-23] (24 hour):  ")
      b1 ← hear (held env buf)
      say (codes "Latest time to receive normal pages [0-23] (24 hour):  ")
      b2 ← hear (held env b1)
      return (
        record u {
          times = pack_timebits (sscanf_int b1 (pos soonest)) (sscanf_int b2 (pos latest));
        },
        1,
        b2,
      )) in
    if flag == 1 then asked else return (u, 0, buf)

-- the question for the password, where the user said yes
unfoldable pub ask_passwd : System → Env → Bytes → User → ℕ → ℕ → Talk → Step (User × ℕ)
unfolding hear setpasswd
ask_passwd sys env buf u changes flag =
    let asked : Talk → Step (User × ℕ) = (do
      say (codes "Enter new password here:  ")
      b ← hear (held env buf)
      return (setpasswd sys u b, changes + 1)) in
    if flag == 1 then asked else return (u, changes)

unfoldable pub store_changes : User → ℕ → Talk → Step (Unit {0})
store_changes u changes =
    let stored : Talk → Step (Unit {0}) = (do
      say (codes "There were " ++ (print_nat changes ++ codes " changes, storing data.\n"))
      keep_user u) in
    if ltb 0 changes then stored else say (codes "No changes made.\n")

unfoldable pub login_usermain : System → Env → User → Talk → Step (Unit {0})
unfolding ask_times ask_passwd getynresult store_changes hear
login_usermain sys env u = do
  let times = hours_line (getnormtimes u.times)
  say times
  say (codes "Would you like to change this?  [yn]:  ")
  b1 ← hear (held env times)
  flag1 ← getynresult b1
  (u1, changes1, buf) ← ask_times env b1 u flag1
  say (codes "Would you like to change your password?  [yn]:  ")
  b2 ← hear (held env buf)
  flag2 ← getynresult b2
  (u2, changes2) ← ask_passwd sys env b2 u1 changes1 flag2
  store_changes u2 changes2
  say (codes "Thank you for shopping\n")

-- behind the password: the administrator has no commands yet
unfoldable pub login_main : System → Env → User → Talk → Step (Unit {0})
unfolding login_usermain equal
login_main sys env u =
    if equal u.name (codes "admin")
    then say (codes "Admin stuff not supported yet.\n")
    else login_usermain sys env u

-- p_getpasswd, which turns the echo of a terminal off while it reads, is `hear`, into the buffer that
-- holds the name
unfoldable pub check_login : System → Env → Bytes → User → Talk → Step (Unit {0})
unfolding login_main hear equal
check_login sys env name u =
    if ltb (length u.passwd) 13
    then (do say (codes "Password has not been setup for this account.\n"); stop)
    else (do
      say (codes "Password: ")
      b ← hear (held env name)
      let refused : Talk → Step (Unit {0}) = (do say (codes "Password incorrect\n"); stop)
      if equal u.passwd (sys.crypt b u.passwd) then login_main sys env u else refused)

unfoldable pub p_login : System → Env → Talk → Step (Unit {0})
unfolding check_login hear
p_login sys env = do
  say (codes "Username: ")
  name ← hear env.junk_line
  let refused : Talk → Step (Unit {0}) = (do say (codes "No such user\n\n\n"); stop)
  if env.u_exists name then check_login sys env name (env.getuser name) else refused
