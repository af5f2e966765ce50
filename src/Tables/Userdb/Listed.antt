-- ===== src/Tables/Userdb/Listed.antt =====
-- `dbm_listusers` of pageserv/userdb.c: its array is never left, whatever size it starts with.
use pageserv.Base.{
  ℕ, ◌+◌, ◌-◌, ◌*◌, ◌<◌, ◌≡◌, refl, Bool, true, false, ◌||◌, Option, none, some, List, [], ◌∷◌,
  ◌++◌, if◌then◌else◌, length, length-append, append-nil, append_assoc, Bytes, ℤ, pos, negsuc,
  pos_part, ltb_ℤ, ltb, ◌==◌, arith, Bool-cases, inl, inr,
}
use pageserv.Clib.{equal}
use pageserv.Queue.Types.{User}
use pageserv.Tables.Dbm.{Dbm, DbmLaws, AllFetched}
use pageserv.Tables.Userdb.{dbm_listusers, list_keys, add_key, grow, end_list}

-- the user is at the station, or all are asked for
abbrev pub at_station : Bytes → User → Bool
at_station term u = equal u.statid term || equal term (b'*' ∷ [])

unfoldable pub pick : Option User → Bytes → Bytes → List Bytes → List Bytes
pick none term k rest = rest
pick (some u) term k rest = if at_station term u then k ∷ rest else rest

-- the names, in the order of the keys, of the users at a station
unfoldable pub names_at : (Bytes → Option User) → Bytes → List Bytes → List Bytes
unfolding pick
names_at fetch term [] = []
names_at fetch term (k ∷ ks) = pick (fetch k) term k (names_at fetch term ks)

add_key-grow :
    (k : Bytes) (ret : List Bytes) (size : ℕ)
    → length ret + 1 < size
    → (larger : ℕ) × (add_key k (ret, size) ≡ some (ret ++ k ∷ [], size))
      × (grow (ret ++ k ∷ [], size) ≡ (ret ++ k ∷ [], larger))
      × (length (ret ++ k ∷ []) + 1 < larger)
unfolding add_key grow
add_key-grow k ret size room =
    let longer : length (ret ++ k ∷ []) ≡ length ret + 1 = length-append ret (k ∷ []) in
    let fits : ltb (length ret) size ≡ true = ground arith in
    elim (Bool-cases (length (ret ++ k ∷ []) == size - 1)) [
      | inl full ↦ (size * 2, rw fits refl, rw full refl, ground arith)
      | inr more ↦ (size, rw fits refl, rw more refl, ground arith)
    ]

grow-room : (ret : List Bytes) (size : ℕ) → length ret + 1 < size → grow (ret, size) ≡ (ret, size)
unfolding grow
grow-room ret size room = let more : (length ret == size - 1) ≡ false = ground arith in rw more refl

list_keys-names_at :
    (fetch : Bytes → Option User) (term : Bytes) (ks ret : List Bytes) (size : ℕ)
    → AllFetched fetch ks
    → length ret + 1 < size
    → (larger : ℕ) × (list_keys fetch term ks (ret, size)
        ≡ some (ret ++ names_at fetch term ks, larger))
      × (length (ret ++ names_at fetch term ks) + 1 < larger)
unfolding list_keys names_at pick
list_keys-names_at fetch term [] ret size h room =
    (size, rw (append-nil ret) refl, rw (append-nil ret) room)
list_keys-names_at fetch term (k ∷ ks) ret size h room =
    let ((u, e), hs) = h in
    elim (Bool-cases (at_station term u)) [
      | inl here ↦
          let (larger, added, grown, more) = add_key-grow k ret size room in
          rw (e, here, added, grown, ← append_assoc ret (k ∷ []) (names_at fetch term ks))
            (list_keys-names_at fetch term ks (ret ++ k ∷ []) larger hs more)
      | inr elsewhere ↦
          rw (e, elsewhere, grow-room ret size room)
            (list_keys-names_at fetch term ks ret size hs room)
    ]

first_size : (guess : ℤ) → 1 < (if ltb_ℤ guess (pos 2) then 4 else pos_part guess)
first_size (pos n) = ground arith
first_size (negsuc n) = ground arith

module _ {D : Type 0} (m : Dbm D User) (laws : DbmLaws m) where
  -- On a database that can be read, dbm_listusers never reads or writes outside the array that it
  -- makes, whatever size tuning.utableguess has it start with, and gives the names, in the order of the
  -- keys, of exactly the users at the station asked for, or of all for *.
  pub dbm_listusers-names_at :
      (guess : ℤ) (d : D) (term : Bytes)
      → dbm_listusers m guess (some d) term ≡ some (some (names_at (m.fetch d) term (m.keys d)))
  unfolding dbm_listusers end_list
  dbm_listusers-names_at guess d term =
      let size = if ltb_ℤ guess (pos 2) then 4 else pos_part guess in
      let enough : 1 < size = first_size guess in
      let (larger, e, room) =
        list_keys-names_at (m.fetch d) term (m.keys d) [] size (laws.fetch_key d) enough in
      let fits : ltb (length (names_at (m.fetch d) term (m.keys d))) larger ≡ true = ground arith in
      rw (e, fits) refl
