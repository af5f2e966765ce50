-- ===== src/Tables/Userdb.antt =====
-- The dbm part of pageserv/userdb.c. The database is `none` where it cannot be opened for reading;
-- `create` says whether dbm_open with O_CREAT would make it. exit(1) is `none`.
pub mod Refines
pub mod Listed
use pageserv.Base.{
  ◌>>=◌, ℕ, zero, suc, ◌+◌, ◌-◌, ◌*◌, Bool, true, false, not, ◌&&◌, ◌||◌, Option, none, some, List,
  [], ◌∷◌, ◌++◌, if◌then◌else◌, length, Bytes, ℤ, pos, negsuc, eq_ℤ, ltb_ℤ, ltb, ◌==◌, pos_part,
}
use pageserv.Clib.{equal}
use pageserv.Queue.Types.{no_user, User}
use pageserv.Tables.Dbm.{Dbm, dbm_open, erase_keys}
use pageserv.Tables.Users.{namelen}

abbrev pub is_some : {A : Type 0} → Option A → Bool
is_some none = false
is_some (some a) = true

abbrev pub user_or_none : Option User → User
user_or_none none = no_user
user_or_none (some u) = u

-- ret[index++] = key, in an array of `size` texts, and the doubling of the array behind it
unfoldable pub add_key : Bytes → List Bytes × ℕ → Option (List Bytes × ℕ)
add_key k (ret, size) =
    let next = ret ++ k ∷ [] in if ltb (length ret) size then some (next, size) else none

unfoldable pub grow : List Bytes × ℕ → List Bytes × ℕ
grow (ret, size) = if length ret == size - 1 then (ret, size * 2) else (ret, size)

-- the loop over the keys; `none` where a NULL is read or the array is left
unfoldable pub list_keys :
    (Bytes → Option User) → Bytes → List Bytes → List Bytes × ℕ → Option (List Bytes × ℕ)
unfolding equal add_key grow
list_keys fetch term [] s = some s
list_keys fetch term (k ∷ ks) s = do
  u ← fetch k
  s1 ← (if equal u.statid term || equal term (b'*' ∷ []) then add_key k s else some s)
  list_keys fetch term ks (grow s1)

-- ret[index] = NULL
unfoldable pub end_list : List Bytes × ℕ → Option (List Bytes)
end_list (ret, size) = if ltb (length ret) size then some ret else none

module _ {D : Type 0} (m : Dbm D User) where
  unfoldable pub dbm_u_exists : Option D → Bytes → Bool
  dbm_u_exists none name = false
  dbm_u_exists (some d) name = is_some (m.fetch d name)

  unfoldable pub dbm_deleteuser : Option D → Bytes → ℤ × Option D
  unfolding dbm_u_exists
  dbm_deleteuser none name = (negsuc 0, none)
  dbm_deleteuser (some d) name =
      let db = some (m.delete d name) in (if not (dbm_u_exists db name) then pos 1 else pos 0, db)

  unfoldable pub dbm_open_getuser : D → Bytes → User
  dbm_open_getuser d name = user_or_none (m.fetch d name)

  unfoldable pub dbm_getuser : Option D → Bytes → Option User
  unfolding dbm_open_getuser
  dbm_getuser none name = none
  dbm_getuser (some d) name = some (dbm_open_getuser d name)

  unfoldable pub dbm_open_storeuser : D → User → D
  dbm_open_storeuser d u = m.store d u.name u

  -- the entry under the pager id; `rhash` is the setting databases.userdbrhash
  unfoldable pub store_reverse : ℤ → D → User → D
  unfolding dbm_open_storeuser
  store_reverse rhash d u =
      if not (eq_ℤ rhash (pos 0)) && ltb (length u.pageid) namelen
      then dbm_open_storeuser d (record u { name = u.pageid })
      else d

  unfoldable pub dbm_storeuser : ℤ → Bool → Option D → User → Option D
  unfolding dbm_open store_reverse
  dbm_storeuser rhash create db u = do
    d ← dbm_open m create db
    some (store_reverse rhash (dbm_open_storeuser d u) u)

  unfoldable pub dbm_eraseuserdb : Bool → Option D → Option (Option D)
  unfolding dbm_open erase_keys
  dbm_eraseuserdb create db = elim (dbm_open m create db) [
    | none ↦ some none
    | some d ↦ do e ← erase_keys m (suc (length (m.keys d))) d; some (some e)
  ]

  -- NULL is `none`; `guess` is the setting tuning.utableguess
  unfoldable pub dbm_listusers : ℤ → Option D → Bytes → Option (Option (List Bytes))
  unfolding list_keys end_list
  dbm_listusers guess none term = some none
  dbm_listusers guess (some d) term = do
    let size = if ltb_ℤ guess (pos 2) then 4 else pos_part guess
    s ← list_keys (m.fetch d) term (m.keys d) ([], size)
    ret ← end_list s
    some (some ret)
