-- ===== src/Tables/Userdb/Refines.antt =====
-- The user database against an abstract view of it: a map from names to users.
use pageserv.Base.{
  ◌>>=◌, suc, ◌≡◌, refl, Bool, not, ◌&&◌, Option, none, some, List, [], ◌∷◌, if◌then◌else◌, length,
  Bytes, ℤ, pos, eq_ℤ, ltb, arith, Bool-cases, inl, inr,
}
use pageserv.Clib.{equal}
use pageserv.Queue.Types.{User}
use pageserv.Tables.Dbm.{Dbm, DbmLaws, dbm_open}
use pageserv.Tables.Dbm.Erase.{erase_keys_total}
use pageserv.Tables.Users.{namelen}
use pageserv.Tables.Userdb.{
  dbm_storeuser, dbm_deleteuser, dbm_eraseuserdb, dbm_getuser, dbm_u_exists, dbm_open_storeuser,
  dbm_open_getuser, store_reverse, user_or_none, is_some,
}

-- what changes the database: conf.udb.storeuser, .deleteuser and .eraseuserdb
pub data Command : Type 0 where
  store_user : User → Command
  delete_user : Bytes → Command
  erase_users : Command

abbrev pub UserMap : Type 0
UserMap = Bytes → Option User

unfoldable pub put_user : UserMap → Bytes → User → UserMap
put_user f k u i = if equal k i then some u else f i

-- the entry under the pager id, where there is one
unfoldable pub put_reverse : ℤ → UserMap → User → UserMap
unfolding put_user
put_reverse rhash f u =
    if not (eq_ℤ rhash (pos 0)) && ltb (length u.pageid) namelen
    then put_user f u.pageid (record u { name = u.pageid })
    else f

unfoldable pub meaning : ℤ → UserMap → Command → UserMap
unfolding put_user put_reverse
meaning rhash f (store_user u) = put_reverse rhash (put_user f u.name u) u
meaning rhash f (delete_user name) = λ i. if equal name i then none else f i
meaning rhash f erase_users = λ i. none

unfoldable pub meanings : ℤ → UserMap → List Command → UserMap
unfolding meaning
meanings rhash f [] = f
meanings rhash f (c ∷ cs) = meanings rhash (meaning rhash f c) cs

module _ {D : Type 0} (m : Dbm D User) where
  unfoldable pub run_command : ℤ → Bool → Option D → Command → Option (Option D)
  unfolding dbm_storeuser dbm_deleteuser dbm_eraseuserdb
  run_command rhash create db (store_user u) = do
    d ← dbm_storeuser m rhash create db u
    some (some d)
  run_command rhash create db (delete_user name) =
      let (ret, db') = dbm_deleteuser m db name in some db'
  run_command rhash create db erase_users = dbm_eraseuserdb m create db

  unfoldable pub run_all : ℤ → Bool → Option D → List Command → Option (Option D)
  unfolding run_command
  run_all rhash create db [] = some db
  run_all rhash create db (c ∷ cs) = do
    db' ← run_command rhash create db c
    run_all rhash create db' cs

module _ {D : Type 0} (m : Dbm D User) (laws : DbmLaws m) where
  -- the database holds what the map does
  abbrev Holds : D → UserMap → Type 0
  Holds d f = (k : Bytes) → m.fetch d k ≡ f k

  store-Holds :
      (d : D) (f : UserMap) (k : Bytes) (u : User)
      → Holds d f
      → Holds (m.store d k u) (put_user f k u)
  unfolding put_user
  store-Holds d f k u h i = rw (laws.fetch-store d k i u, h i) refl

  store_reverse-Holds :
      (rhash : ℤ) (d : D) (f : UserMap) (u : User)
      → Holds d f
      → Holds (store_reverse m rhash d u) (put_reverse rhash f u)
  unfolding store_reverse put_reverse dbm_open_storeuser
  store_reverse-Holds rhash d f u h =
      elim (Bool-cases (not (eq_ℤ rhash (pos 0)) && ltb (length u.pageid) namelen)) [
        | inl reverse ↦ rw reverse (store-Holds d f u.pageid (record u { name = u.pageid }) h)
        | inr plain ↦ rw plain h
      ]

  run_command-Holds :
      (rhash : ℤ) (create : Bool) (c : Command) (d : D) (f : UserMap)
      → Holds d f
      → (e : D) × (run_command m rhash create (some d) c ≡ some (some e))
        × Holds e (meaning rhash f c)
  unfolding run_command dbm_storeuser dbm_deleteuser dbm_eraseuserdb dbm_open meaning
      dbm_open_storeuser
  run_command-Holds rhash create (store_user u) d f h =
      let first = store-Holds d f u.name u h in
      (
        store_reverse m rhash (m.store d u.name u) u,
        refl,
        store_reverse-Holds rhash (m.store d u.name u) (put_user f u.name u) u first,
      )
  run_command-Holds rhash create (delete_user name) d f h =
      (m.delete d name, refl, λ i. rw (laws.fetch-delete d name i, h i) refl)
  run_command-Holds rhash create erase_users d f h =
      let (e, erased, gone) = erase_keys_total m laws (suc (length (m.keys d))) d (omega arith) in
      (e, rw erased refl, gone)

  run_all-Holds :
      (rhash : ℤ) (create : Bool) (cs : List Command) (d : D) (f : UserMap)
      → Holds d f
      → (e : D) × (run_all m rhash create (some d) cs ≡ some (some e))
        × Holds e (meanings rhash f cs)
  unfolding run_all meanings
  run_all-Holds rhash create [] d f h = (d, refl, h)
  run_all-Holds rhash create (c ∷ cs) d f h =
      let (e, ran, holds) = run_command-Holds rhash create c d f h in
      rw ran (run_all-Holds rhash create cs e (meaning rhash f c) holds)

  -- Whatever stores, deletions and erasures are made on an open database, none of them fails or goes on
  -- forever, and then getuser and u_exists answer as the map does that has been changed in the same way:
  -- a store sets the user under the name, and where databases.userdbrhash is set and the pager id is
  -- short enough also under the pager id; a deletion takes out the name and nothing else; an erasure
  -- takes out all.
  pub run_all-refines :
      (rhash : ℤ) (create : Bool) (cs : List Command) (d : D)
      → (e : D) × (run_all m rhash create (some d) cs ≡ some (some e))
        × ((name : Bytes)
            → (dbm_getuser m (some e) name
                ≡ some (user_or_none (meanings rhash (m.fetch d) cs name)))
              × (dbm_u_exists m (some e) name ≡ is_some (meanings rhash (m.fetch d) cs name)))
  unfolding dbm_getuser dbm_u_exists dbm_open_getuser
  run_all-refines rhash create cs d =
      let (e, ran, holds) = run_all-Holds rhash create cs d (m.fetch d) (λ k. refl) in
      (e, ran, λ name. rw (holds name) (refl, refl))
