-- ===== src/Tables/Load/Again.antt =====
-- A dump of the user database, read back by `parseusers`.
use pageserv.Base.{
  ◌>>=◌, ℕ, zero, suc, ◌+◌, ◌<◌, ◌≡◌, refl, ap, sym, ◌∙◌, ◌⊎◌, inl, inr, Bool, true, false, Option,
  none, some, List, [], ◌∷◌, ◌++◌, append_assoc, length-append, if◌then◌else◌, length, Bytes, ℤ,
  ltb, arith, All, Option-cases,
}
use pageserv.Clib.{equal}
use pageserv.Clib.Tokens.{IsField}
use pageserv.Clib.Decimal.{print_nat}
use pageserv.Hours.{getnormtimes}
use pageserv.Queue.Format.{line}
use pageserv.Queue.Format.RoundTrip.{OneLine, fgets_take-line}
use pageserv.Queue.Types.{User}
use pageserv.Tables.{has_entry}
use pageserv.Tables.Dbm.{Dbm}
use pageserv.Tables.Users.{parse_user, dump_user, column}
use pageserv.Tables.Users.RoundTrip.{IsSeparator, Dumpable, listed, parse_user-dump_user}
use pageserv.Tables.Userdb.{dbm_storeuser}
use pageserv.Tables.Userdb.Refines.{Command, store_user, run_command, run_all}
use pageserv.Tables.Load.{load_user, load_users}

-- a dumped line without its newline
abbrev pub dumped : Bytes → User → Bytes
dumped delim u = column u.name delim (
    column u.pageid delim (
      column u.statid delim
        (column (print_nat (getnormtimes u.times).0) delim (print_nat (getnormtimes u.times).1))))

-- A user whose line is read whole and not as a comment.
pub record Reloads (delim : Bytes) (u : User) : Type 0 where
  pub dumpable : Dumpable delim u
  pub one_line : OneLine (dumped delim u)
  pub short : length (dumped delim u) < 1023
  pub entry : has_entry u.name ≡ true

column-append : (s delim x y : Bytes) → column s delim (x ++ y) ≡ column s delim x ++ y
column-append s delim x y =
    ap (λ t. s ++ t) (sym (append_assoc delim x y)) ∙ sym (append_assoc s (delim ++ x) y)

dump_user-line :
    (delim : Bytes) (u : User)
    → equal u.name u.pageid ≡ false
    → dump_user u delim ≡ line (dumped delim u) []
unfolding dump_user
dump_user-line delim u differs =
    let a = print_nat (getnormtimes u.times).0 in
    let b = print_nat (getnormtimes u.times).1 in
    let end = b'\n' ∷ [] in
    let c1 = column a delim b in
    let c2 = column u.statid delim c1 in
    let c3 = column u.pageid delim c2 in
    rw differs (
      ap (λ t. column u.name delim (column u.pageid delim (column u.statid delim t)))
        (column-append a delim b end)
      ∙ ap (λ t. column u.name delim (column u.pageid delim t))
          (column-append u.statid delim c1 end)
      ∙ ap (λ t. column u.name delim t) (column-append u.pageid delim c2 end)
      ∙ column-append u.name delim c3 end)

-- the entry under a pager id, which a dump leaves out
abbrev pub is_alias : User → Bool
is_alias u = equal u.name u.pageid

-- the users that a dump tells of, each as the store that its line leads to
unfoldable pub stores : List User → List Command
stores [] = []
stores (u ∷ us) = let rest = stores us in if is_alias u then rest else store_user (listed u) ∷ rest

unfoldable pub dump_all : Bytes → List User → Bytes
unfolding dump_user
dump_all delim [] = []
dump_all delim (u ∷ us) = dump_user u delim ++ dump_all delim us

has_entry-append : (s t : Bytes) → 0 < length s → has_entry (s ++ t) ≡ has_entry s
has_entry-append [] t h = absurd (omega arith)
has_entry-append (c ∷ s) t h = refl

field_length : (delim s : Bytes) → IsField delim s → 0 < length s
field_length delim [] h = elim h [ ]
field_length delim (c ∷ s) h = omega arith

stored_bind :
    {D : Type 0} (o : Option D) (i : ℕ)
    → ◌>>=◌ {B = Option D × ℕ} o (λ d. some (some d, i + 1))
      ≡ ◌>>=◌ {B = Option D × ℕ} (do d ← o; some (some d)) (λ e. some (e, i + 1))
stored_bind none i = refl
stored_bind (some d) i = refl

-- left out of the dump, or read back
abbrev pub Known : Bytes → User → Type 0
Known delim u = (is_alias u ≡ true) ⊎ Reloads delim u

dump_all-alias :
    (delim : Bytes) (u : User) (us : List User)
    → is_alias u ≡ true
    → dump_all delim (u ∷ us) ≡ dump_all delim us
unfolding dump_all
dump_all-alias delim u us h = rw h refl

dump_all-line :
    (delim : Bytes) (u : User) (us : List User)
    → Reloads delim u
    → dump_all delim (u ∷ us) ≡ line (dumped delim u) (dump_all delim us)
unfolding dump_all
dump_all-line delim u us r =
    rw (dump_user-line delim u r.dumpable.differs)
      (append_assoc (dumped delim u) (b'\n' ∷ []) (dump_all delim us))

module _ {D : Type 0} (m : Dbm D User) (rhash : ℤ) (create : Bool) (delim : Bytes) where
  pub load_users-line :
      (fuel : ℕ) (s rest : Bytes) (st : Option D × ℕ)
      → length s < 1023
      → OneLine s
      → load_users m rhash create delim (suc fuel) (line s rest) st ≡ (do
        st1 ← load_user m rhash create delim (s ++ b'\n' ∷ []) st
        load_users m rhash create delim fuel rest st1)
  unfolding load_users
  load_users-line fuel [] rest st h o = refl
  load_users-line fuel (c ∷ s) rest st h o = rw (fgets_take-line 1023 (c ∷ s) rest h o) refl

  load_user-listed :
      (u : User) (db : Option D) (i : ℕ)
      → IsSeparator delim
      → Reloads delim u
      → load_user m rhash create delim (dumped delim u ++ b'\n' ∷ []) (db, i)
        ≡ (do e ← run_command m rhash create db (store_user (listed u)); some (e, i + 1))
  unfolding load_user run_command
  load_user-listed u db i sep r =
      let name_length = field_length delim u.name r.dumpable.name.0 in
      let rest =
        delim
        ++ column u.pageid delim (
            column u.statid delim (
              column (print_nat (getnormtimes u.times).0) delim
                (print_nat (getnormtimes u.times).1))) in
      let body : 0 < length (dumped delim u) = rw (length-append u.name rest) (omega arith) in
      let starts : has_entry (dumped delim u ++ b'\n' ∷ []) ≡ true =
        has_entry-append (dumped delim u) (b'\n' ∷ []) body
        ∙ has_entry-append u.name rest name_length
        ∙ r.entry in
      let parsed : parse_user (dumped delim u ++ b'\n' ∷ []) delim false ≡ some (listed u) =
        ap (λ t. parse_user t delim false) (sym (dump_user-line delim u r.dumpable.differs))
        ∙ parse_user-dump_user delim u sep r.dumpable in
      let counted : ltb 0 (length u.statid) ≡ true =
        let station = field_length delim u.statid r.dumpable.statid.0 in ground arith in
      rw (starts, parsed, counted) (stored_bind (dbm_storeuser m rhash create db (listed u)) i)

  -- what the file still to be read does to the database and to the count
  abbrev pub store_all : List User → Option D → ℕ → Option (Option D × ℕ)
  store_all us db i = do e ← run_all m rhash create db (stores us); some (e, i + length (stores us))

  load_users-end :
      (fuel : ℕ) (db : Option D) (i : ℕ)
      → load_users m rhash create delim (suc fuel) (dump_all delim []) (db, i) ≡ store_all [] db i
  unfolding load_users dump_all run_all stores
  load_users-end fuel db i = ap (λ n. some (db, n)) (omega arith)

  pub load_users-dump_all :
      (us : List User) (fuel : ℕ) (db : Option D) (i : ℕ)
      → IsSeparator delim
      → All (Known delim) us
      → length (dump_all delim us) < fuel
      → load_users m rhash create delim fuel (dump_all delim us) (db, i) ≡ store_all us db i
  unfolding run_all stores
  load_users-dump_all us zero db i sep h enough = absurd (omega arith)
  load_users-dump_all [] (suc fuel) db i sep h enough = load_users-end fuel db i
  load_users-dump_all (u ∷ us) (suc fuel) db i sep (inl alias, h) enough =
      let shorter : length (dump_all delim us) < suc fuel =
        rw (dump_all-alias delim u us alias) at enough in
      rw (alias, dump_all-alias delim u us alias)
        (load_users-dump_all us (suc fuel) db i sep h shorter)
  load_users-dump_all (u ∷ us) (suc fuel) db i sep (inr r, h) enough =
      let at = dump_all-line delim u us r in
      let room = rw at at enough in
      let longer : length (dump_all delim us) < fuel =
        omega (arith, room, length-append (dumped delim u) (b'\n' ∷ dump_all delim us)) in
      rw
        (
          at,
          load_users-line fuel (dumped delim u) (dump_all delim us) (db, i) r.short r.one_line,
          load_user-listed u db i sep r,
          r.dumpable.differs,
        )
        (elim (Option-cases (dbm_storeuser m rhash create db (listed u))) [
          | inl exits ↦ rw exits refl
          | inr (d, stored) ↦ rw stored (
              load_users-dump_all us fuel (some d) (i + 1) sep h longer
              ∙ ap
                  (λ n.
                    ◌>>=◌ {B = Option D × ℕ} (run_all m rhash create (some d) (stores us))
                      (λ e. some (e, n)))
                  (omega arith))
        ])
