-- ===== src/Tables/Load/Whole.antt =====
-- A whole dump: the comments at its top and the users of a database.
use pageserv.Base.{
  ℕ, suc, ◌-◌, ◌<◌, ◌≡◌, refl, ap, sym, ◌∙◌, Bool, true, false, Option, some, List, [], ◌∷◌, ◌++◌,
  append_assoc, length-append, length, Bytes, ℤ, codes, arith, map, All, ◌||◌,
}
use pageserv.Clib.{equal, equal_refl}
use pageserv.Queue.Format.{line}
use pageserv.Queue.Format.RoundTrip.{OneLine, OneLine-append}
use pageserv.Queue.Types.{User}
use pageserv.Tables.{has_entry}
use pageserv.Tables.Dbm.{Dbm, DbmLaws, AllFetched}
use pageserv.Tables.Users.RoundTrip.{IsSeparator}
use pageserv.Tables.Userdb.{dbm_open_getuser}
use pageserv.Tables.Userdb.Listed.{at_station, names_at, pick, dbm_listusers-names_at}
use pageserv.Tables.Load.{
  load_user, load_users, parseusers, dump_users, dump_header, dump_listed, dumpuserdb,
}
use pageserv.Tables.Load.Again.{Known, dump_all, store_all, load_users-line, load_users-dump_all}

-- a line that is a comment, or empty, is passed over
load_users-comment :
    {D : Type 0} (m : Dbm D User) (rhash : ℤ) (create : Bool) (delim : Bytes) (fuel : ℕ)
    (s rest : Bytes) (db : Option D) (i : ℕ)
    → length s < 1023
    → OneLine s
    → has_entry (s ++ b'\n' ∷ []) ≡ false
    → load_users m rhash create delim (suc fuel) (line s rest) (db, i)
      ≡ load_users m rhash create delim fuel rest (db, i)
unfolding load_user
load_users-comment m rhash create delim fuel s rest db i h o comment =
    load_users-line m rhash create delim fuel s rest (db, i) h o ∙ rw comment refl

either_true : (b : Bool) → (b || true) ≡ true
either_true b = ground arith

starred : (u : User) → at_station (b'*' ∷ []) u ≡ true
starred u = rw (equal_refl (b'*' ∷ [])) (either_true (equal u.statid (b'*' ∷ [])))

names_at-all :
    (fetch : Bytes → Option User) (ks : List Bytes)
    → AllFetched fetch ks
    → names_at fetch (b'*' ∷ []) ks ≡ ks
unfolding names_at pick
names_at-all fetch [] h = refl
names_at-all fetch (k ∷ ks) h =
    let star : at_station (b'*' ∷ []) h.0.0 ≡ true = starred h.0.0 in
    rw (h.0.1, star) (ap (λ t. k ∷ t) (names_at-all fetch ks h.1))

dump_users-dump_all :
    {D : Type 0} (m : Dbm D User) (d : D) (delim : Bytes) (ks : List Bytes)
    → dump_users m d delim ks ≡ some (dump_all delim (map (dbm_open_getuser m d) ks))
unfolding dump_users dump_all
dump_users-dump_all m d delim [] = refl
dump_users-dump_all m d delim (k ∷ ks) = rw (dump_users-dump_all m d delim ks) refl

created : Bytes
created = codes "# Database dump created on "

delimited : Bytes → Bytes
delimited delim = codes "# Using text delimiter ``" ++ (delim ++ codes "''")

line-append : (s r t : Bytes) → line s r ++ t ≡ line s (r ++ t)
line-append s r t = append_assoc s (b'\n' ∷ r) t

line-prefix : (a s r : Bytes) → a ++ line s r ≡ line (a ++ s) r
line-prefix a s r = sym (append_assoc a s (b'\n' ∷ r))

dump_header-lines :
    (stamp delim body : Bytes)
    → dump_header (line stamp []) delim ++ body
      ≡ line (created ++ stamp) (line (delimited delim) (line [] body))
unfolding dump_header created delimited
dump_header-lines stamp delim body =
    let rest = line (delimited delim) (line [] []) in
    ap (λ t. (created ++ t) ++ body) (line-append stamp [] rest)
    ∙ ap (λ t. t ++ body) (line-prefix created stamp rest)
    ∙ line-append (created ++ stamp) rest body
    ∙ ap (line (created ++ stamp)) (line-append (delimited delim) (line [] []) body)

created-OneLine : OneLine created
unfolding created
created-OneLine = ground arith

delimited-OneLine : (delim : Bytes) → OneLine delim → OneLine (delimited delim)
unfolding delimited
delimited-OneLine delim h =
    OneLine-append (codes "# Using text delimiter ``") (delim ++ codes "''") (ground arith)
      (OneLine-append delim (codes "''") h (ground arith))

created_short : (stamp : Bytes) → length stamp < 900 → length (created ++ stamp) < 1023
unfolding created
created_short stamp h = omega arith

delimited_short : (delim : Bytes) → length delim < 900 → length (delimited delim) < 1023
unfolding delimited
delimited_short delim h = omega (arith, length-append delim (codes "''"))

created_comment : (stamp : Bytes) → has_entry (created ++ stamp ++ b'\n' ∷ []) ≡ false
unfolding created
created_comment stamp = refl

delimited_comment : (delim : Bytes) → has_entry (delimited delim ++ b'\n' ∷ []) ≡ false
unfolding delimited
delimited_comment delim = refl

-- the comments that a dump starts with are passed over
load_users-header :
    {D : Type 0} (m : Dbm D User) (rhash : ℤ) (create : Bool) (stamp delim body : Bytes) (fuel : ℕ)
    (db : Option D) (i : ℕ)
    → OneLine stamp
    → length stamp < 900
    → OneLine delim
    → length delim < 900
    → load_users m rhash create delim
        (suc (suc (suc fuel)))
        (dump_header (line stamp []) delim ++ body)
        (db, i)
      ≡ load_users m rhash create delim fuel body (db, i)
load_users-header m rhash create stamp delim body fuel db i hs ls hd ld =
    let l1 : length (created ++ stamp) < 1023 = created_short stamp ls in
    let l2 : length (delimited delim) < 1023 = delimited_short delim ld in
    rw (dump_header-lines stamp delim body) (
      load_users-comment m rhash create delim (suc (suc fuel)) (created ++ stamp)
        (line (delimited delim) (line [] body)) db i l1
        (OneLine-append created stamp created-OneLine hs) (created_comment stamp)
      ∙ load_users-comment m rhash create delim (suc fuel) (delimited delim) (line [] body) db i l2
          (delimited-OneLine delim hd) (delimited_comment delim)
      ∙ load_users-comment m rhash create delim fuel [] body db i (omega arith) tt refl)

-- the users of a database, in the order of its keys
abbrev pub users_of : {D : Type 0} → Dbm D User → D → List User
users_of m d = map (dbm_open_getuser m d) (m.keys d)

dumpuserdb-text :
    {D : Type 0} (m : Dbm D User) (laws : DbmLaws m) (guess : ℤ) (made delim : Bytes) (d : D)
    → dumpuserdb m guess (some delim) made (some d)
      ≡ some (dump_header made delim ++ dump_all delim (users_of m d))
unfolding dumpuserdb dump_listed
dumpuserdb-text m laws guess made delim d =
    rw
      (
        dbm_listusers-names_at m laws guess d (b'*' ∷ []),
        names_at-all (m.fetch d) (m.keys d) (laws.fetch_key d),
        dump_users-dump_all m d delim (m.keys d),
      )
      refl

length-header : (stamp delim : Bytes) → 3 < length (dump_header (line stamp []) delim)
unfolding dump_header
length-header stamp delim = omega arith

-- parseusers on what dumpuserdb writes, with the same text delimiter, stores the dumped users one after
-- another into the database that it is given, and returns how many they are. A user whose name is the
-- pager id is left out of the dump; for every other, its line has to be read whole (it fits the buffer,
-- is one line and no comment) and its texts and hours to be such as a line keeps (IsSeparator, Reloads).
pub parseusers-dumpuserdb :
    {D : Type 0} (m : Dbm D User) (laws : DbmLaws m) (guess rhash : ℤ) (create : Bool)
    (stamp delim : Bytes) (d : D) (db : Option D)
    → OneLine stamp
    → length stamp < 900
    → OneLine delim
    → length delim < 900
    → IsSeparator delim
    → All (Known delim) (users_of m d)
    → (text : Bytes) × (dumpuserdb m guess (some delim) (line stamp []) (some d) ≡ some text)
      × (parseusers m rhash create (some delim) (some text) db
          ≡ store_all m rhash create delim (users_of m d) db 0)
unfolding parseusers
parseusers-dumpuserdb m laws guess rhash create stamp delim d db hs ls hd ld sep known =
    let us = users_of m d in
    let header = dump_header (line stamp []) delim in
    let text = header ++ dump_all delim us in
    let size : suc (length text) ≡ suc (suc (suc (length text - 2))) =
      omega (arith, length-append header (dump_all delim us), length-header stamp delim) in
    (
      text,
      dumpuserdb-text m laws guess (line stamp []) delim d,
      ap (λ n. load_users m rhash create delim n text (db, 0)) size
          ∙ load_users-header m rhash create stamp delim (dump_all delim us) (length text - 2) db 0
              hs ls hd ld
          ∙ load_users-dump_all m rhash create delim us (length text - 2) db 0 sep known
              (omega (arith, length-append header (dump_all delim us), length-header stamp delim)),
    )
