-- ===== src/Tables/Users.antt =====
-- The lines of the user table: `parseuser` of pageserv/parseusers.c reads one, `dumpuser` of
-- pageserv/userdb.c writes one.
pub mod RoundTrip
use pageserv.Base.{
  ℕ, ◌+◌, ◌-◌, Bool, not, Option, none, some, List, [], ◌∷◌, ◌++◌, if◌then◌else◌, Bytes, length,
  ltb, codes,
}
use pageserv.Clib.{equal}
use pageserv.Clib.Decimal.{atoi, print_nat}
use pageserv.Hours.{pack_timebits, getnormtimes}
use pageserv.Net.{to_u32}
use pageserv.Queue.Format.{line}
use pageserv.Queue.Types.{User, no_user}
use pageserv.Text.{kw}
use pageserv.Tables.{Parse, early, overflow, going, ◌>>=◌, finish, next_token, copy_field}

abbrev pub namelen : ℕ
namelen = 15

abbrev pub pwlen : ℕ
pwlen = 14

abbrev pub idlen : ℕ
idlen = 15

abbrev pub statlen : ℕ
statlen = 20

abbrev pub emaillen : ℕ
emaillen = 80

-- the password, if the caller asks for it
unfoldable pub parse_passwd : Bool → Bytes → User → Bytes → Parse User (User × Bytes)
unfolding next_token copy_field kw
parse_passwd wanted delim u rest =
    let asked = (do
      (tmp, r) ← next_token u delim rest
      passwd ← copy_field u pwlen tmp (kw tmp)
      going (record u { passwd = passwd }, r)) in
    if wanted then asked else going (u, rest)

-- the fields after the hours
unfoldable pub parse_notify : Bytes → User → Bytes → Parse User User
unfolding next_token copy_field kw to_u32
parse_notify delim u rest = do
  (t1, r1) ← next_token u delim rest
  notify ← copy_field u emaillen t1 (kw t1)
  let u1 = record u { notify = notify }
  (t2, r2) ← next_token u1 delim r1
  going (record u1 { flags = to_u32 (atoi t2) })

unfoldable pub parse_user_fields : Bytes → Bytes → Bool → Parse User User
unfolding parse_passwd parse_notify pack_timebits
parse_user_fields line delim wanted = do
  (t1, r1) ← next_token no_user delim line
  name ← copy_field no_user namelen t1 (kw t1)
  (u1, r2) ← parse_passwd wanted delim (record no_user { name = name }) r1
  (t3, r3) ← next_token u1 delim r2
  pageid ← copy_field u1 idlen t3 (kw t3)
  let u2 = record u1 { pageid = pageid }
  (t4, r4) ← next_token u2 delim r3
  statid ← copy_field u2 statlen t4 (kw t4)
  let u3 = record u2 { statid = statid }
  (t5, r5) ← next_token u3 delim r4
  (t6, r6) ← next_token u3 delim r5
  parse_notify delim (record u3 { times = pack_timebits (atoi t5) (atoi t6) }) r6

-- `none` where a field is written past its end
unfoldable pub parse_user : Bytes → Bytes → Bool → Option User
unfolding parse_user_fields
parse_user line delim wanted = finish (parse_user_fields line delim wanted)

abbrev pub column : Bytes → Bytes → Bytes → Bytes
column s delim rest = s ++ (delim ++ rest)

-- printf("%s%s%s%s%s%s%d%s%d\n", ..), which leaves out the entry under the pager id
unfoldable pub dump_user : User → Bytes → Bytes
unfolding equal getnormtimes print_nat
dump_user u delim =
    let (soonest, latest) = getnormtimes u.times in
    if not (equal u.name u.pageid)
    then (column u.name delim (
        column u.pageid delim
          (column u.statid delim (column (print_nat soonest) delim (line (print_nat latest) [])))))
    else []
