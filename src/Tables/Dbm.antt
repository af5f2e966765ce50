-- ===== src/Tables/Dbm.antt =====
-- The dbm library, which pageserv/userdb.c and pageserv/termdb.c keep their tables in, as an interface:
-- its calls on an open database, and what its manual says of them. A value is the bytes of a struct.
pub mod Assoc
pub mod Erase
use pageserv.Base.{
  ℕ, zero, suc, ◌<◌, ◌≡◌, refl, Bool, true, false, not, ◌&&◌, Option, none, some, List, [], ◌∷◌,
  if◌then◌else◌, length, Bytes, arith, ◌==◌,
}
use pageserv.Clib.{equal}

pub record Dbm (D V : Type 0) : Type 0 where
  -- what dbm_open with O_CREAT makes where there is no file
  pub empty : D
  pub fetch : D → Bytes → Option V
  pub store : D → Bytes → V → D
  pub delete : D → Bytes → D
  -- the keys that dbm_firstkey and dbm_nextkey go through
  pub keys : D → List Bytes

-- every key that is gone through has a value
abbrev pub AllFetched : {V : Type 0} → (Bytes → Option V) → List Bytes → Type 0
AllFetched {V} fetch [] = Unit
AllFetched {V} fetch (k ∷ ks) = ((v : V) × (fetch k ≡ some v)) × AllFetched fetch ks

pub record DbmLaws {D V : Type 0} (m : Dbm D V) : Type 0 where
  pub fetch-empty : (k : Bytes) → m.fetch m.empty k ≡ none
  pub fetch-store :
      (d : D) (k i : Bytes) (v : V)
      → m.fetch (m.store d k v) i ≡ (if equal k i then some v else m.fetch d i)
  pub fetch-delete :
      (d : D) (k i : Bytes) → m.fetch (m.delete d k) i ≡ (if equal k i then none else m.fetch d i)
  pub no_keys : (d : D) (k : Bytes) → m.keys d ≡ [] → m.fetch d k ≡ none
  pub delete_first :
      (d : D) (k : Bytes) (ks : List Bytes)
      → m.keys d ≡ k ∷ ks
      → length (m.keys (m.delete d k)) < length (m.keys d)
  pub fetch_key : (d : D) → AllFetched (m.fetch d) (m.keys d)

module _ {D V : Type 0} (m : Dbm D V) where
  -- for(d = dbm_firstkey(db); d.dptr != NULL; d = dbm_firstkey(db)) dbm_delete(db, d);
  unfoldable pub erase_keys : ℕ → D → Option D
  erase_keys zero d = none
  erase_keys (suc fuel) d = elim (m.keys d) [
    | [] ↦ some d
    | k ∷ ks ↦ erase_keys fuel (m.delete d k)
  ]

  -- dbm_open; `create` says whether O_CREAT is given, and the file can be made
  unfoldable pub dbm_open : Bool → Option D → Option D
  dbm_open create none = if create then some m.empty else none
  dbm_open create (some d) = some d
