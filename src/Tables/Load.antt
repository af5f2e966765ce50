-- ===== src/Tables/Load.antt =====
-- Whole tables: `parseusers` of pageserv/parseusers.c and `parseterms` of pageserv/parseterms.c read a
-- text file into a database, `dumpuserdb` of pageserv/userdb.c writes one. exit(1), the use of a NULL
-- and a write past an array are `none`.
pub mod Again
pub mod Whole
use pageserv.Base.{
  ◌>>=◌, ℕ, zero, suc, ◌+◌, ◌-◌, Bool, true, false, Option, none, some, List, [], ◌∷◌, ◌++◌,
  if◌then◌else◌, length, Bytes, ℤ, ltb, codes,
}
use pageserv.Queue.Format.{fgets_take, buflen, line}
use pageserv.Queue.Types.{User, Terminal}
use pageserv.Tables.{or_default, has_entry}
use pageserv.Tables.Dbm.{Dbm}
use pageserv.Tables.Users.{parse_user, dump_user}
use pageserv.Tables.Terms.{parse_term}
use pageserv.Tables.Userdb.{dbm_storeuser, dbm_listusers, dbm_getuser}
use pageserv.Tables.Termdb.{dbm_storeterm}

-- what a line of the table adds to the database and to the count
unfoldable pub load_user :
    {D : Type 0} → Dbm D User → ℤ → Bool → Bytes → Bytes → Option D × ℕ → Option (Option D × ℕ)
unfolding parse_user dbm_storeuser
load_user m rhash create delim buf (db, i) =
    let stored = (do
      u ← parse_user buf delim false
      let more = (do d ← dbm_storeuser m rhash create db u; some (some d, i + 1))
      if ltb 0 (length u.statid) then more else some (db, i)) in
    if has_entry buf then stored else some (db, i)

-- while(fgets(buf, BUFLEN, f)); the fuel is more than the bytes of the file
unfoldable pub load_users :
    {D : Type 0} → Dbm D User → ℤ → Bool → Bytes → ℕ → Bytes → Option D × ℕ → Option (Option D × ℕ)
unfolding load_user fgets_take
load_users m rhash create delim zero content s = none
load_users m rhash create delim (suc fuel) [] s = some s
load_users m rhash create delim (suc fuel) (c ∷ content) s = do
  let (buf, rest) = fgets_take (buflen - 1) (c ∷ content)
  s1 ← load_user m rhash create delim buf s
  load_users m rhash create delim fuel rest s1

-- the table's text, where it can be opened; the setting databases.textdelim
unfoldable pub parseusers :
    {D : Type 0}
    → Dbm D User
    → ℤ
    → Bool
    → Option Bytes
    → Option Bytes
    → Option D
    → Option (Option D × ℕ)
unfolding load_users
parseusers m rhash create textdelim none db = none
parseusers m rhash create textdelim (some content) db =
    load_users m rhash create (or_default textdelim (codes " \t")) (suc (length content)) content
      (db, 0)

unfoldable pub load_term :
    {D : Type 0} → Dbm D Terminal → Bool → Bytes → Bytes → Option D × ℕ → Option (Option D × ℕ)
unfolding parse_term dbm_storeterm
load_term m create delim buf (db, i) =
    let stored = (do
      t ← parse_term buf delim
      let more = some (dbm_storeterm m create db t, i + 1)
      if ltb 0 (length t.predial) then more else some (db, i)) in
    if has_entry buf then stored else some (db, i)

unfoldable pub load_terms :
    {D : Type 0} → Dbm D Terminal → Bool → Bytes → ℕ → Bytes → Option D × ℕ → Option (Option D × ℕ)
unfolding load_term fgets_take
load_terms m create delim zero content s = none
load_terms m create delim (suc fuel) [] s = some s
load_terms m create delim (suc fuel) (c ∷ content) s = do
  let (buf, rest) = fgets_take (buflen - 1) (c ∷ content)
  s1 ← load_term m create delim buf s
  load_terms m create delim fuel rest s1

unfoldable pub parseterms :
    {D : Type 0}
    → Dbm D Terminal
    → Bool
    → Option Bytes
    → Option Bytes
    → Option D
    → Option (Option D × ℕ)
unfolding load_terms
parseterms m create textdelim none db = none
parseterms m create textdelim (some content) db =
    load_terms m create (or_default textdelim (codes " \t")) (suc (length content)) content (db, 0)

-- for(i = 0; users[i]; i++) dumpuser(getuser(users[i]), delim);
unfoldable pub dump_users : {D : Type 0} → Dbm D User → D → Bytes → List Bytes → Option Bytes
unfolding dbm_getuser dump_user
dump_users m d delim [] = some []
dump_users m d delim (name ∷ names) = do
  u ← dbm_getuser m (some d) name
  rest ← dump_users m d delim names
  some (dump_user u delim ++ rest)

-- the two comments and the empty line at the top of a dump; `made` is what ctime gives
unfoldable pub dump_header : Bytes → Bytes → Bytes
dump_header made delim =
    codes "# Database dump created on "
    ++ (made ++ (line (codes "# Using text delimiter ``" ++ (delim ++ codes "''")) (line [] [])))

unfoldable pub dump_listed :
    {D : Type 0} → Dbm D User → D → Bytes → Option (List Bytes) → Option Bytes
unfolding dump_users
dump_listed m d delim none = none
dump_listed m d delim (some names) = dump_users m d delim names

unfoldable pub dumpuserdb :
    {D : Type 0} → Dbm D User → ℤ → Option Bytes → Bytes → Option D → Option Bytes
unfolding dump_listed dump_header dbm_listusers
dumpuserdb m guess textdelim made none = none
dumpuserdb m guess textdelim made (some d) = do
  let delim = or_default textdelim (codes "\t")
  users ← dbm_listusers m guess (some d) (b'*' ∷ [])
  body ← dump_listed m d delim users
  some (dump_header made delim ++ body)
