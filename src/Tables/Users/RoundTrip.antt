-- ===== src/Tables/Users/RoundTrip.antt =====
-- A line of the user table as `dumpuser` writes it, read back by `parseuser`.
use pageserv.Base.{
  ℕ, ◌<◌, ◌≡◌, ◌≢◌, refl, ◌⊎◌, inl, inr, true, false, some, [], ◌∷◌, ◌++◌, append-nil, Bytes, arith,
  All, All-append, length, pos,
}
use pageserv.Clib.{equal, contains, is_digit}
use pageserv.Clib.Tokens.{IsField, AllDelim, AllDelim-self, strtok-field, strtok-last}
use pageserv.Clib.Decimal.{atoi, print_nat}
use pageserv.Clib.Decimal.Digits.{print_nat-digits}
use pageserv.Clib.Decimal.RoundTrip.{atoi-print_nat, print_nat_head}
use pageserv.Hours.{all_hours, pack_timebits, getnormtimes}
use pageserv.Hours.Window.{getnormtimes-pack_timebits, pack_timebits-all_hours}
use pageserv.Queue.Types.{no_user, User}
use pageserv.Text.{kw, Trimmed}
use pageserv.Tables.{early, going, ◌>>=◌, next_token, copy_field}
use pageserv.Tables.Users.{
  namelen, idlen, statlen, column, parse_user, parse_notify, parse_passwd, dump_user,
}

-- all hours, or those between two different hours from 1 to 23
abbrev pub NormalHours : ℕ → Type 0
NormalHours times =
    (times ≡ all_hours)
    ⊎ ((e : ℕ) × (l : ℕ) × (0 < e)
        × (e < 24)
        × (0 < l)
        × (l < 24)
        × (e ≢ l)
        × (times ≡ pack_timebits (pos e) (pos l)))

-- The delimiter is not empty and has no digit and no newline.
pub record IsSeparator (delim : Bytes) : Type 0 where
  pub some_byte : 0 < length delim
  pub newline : contains delim b'\n' ≡ false
  pub digits : (c : ℕ) → is_digit c ≡ true → contains delim c ≡ false

-- A user whose texts stand in the table as they are.
pub record Dumpable (delim : Bytes) (u : User) : Type 0 where
  pub name : IsField delim u.name × Trimmed u.name × (length u.name < namelen)
  pub pageid : IsField delim u.pageid × Trimmed u.pageid × (length u.pageid < idlen)
  pub statid : IsField delim u.statid × Trimmed u.statid × (length u.statid < statlen)
  pub differs : equal u.name u.pageid ≡ false
  pub normal : NormalHours u.times

token_column :
    {R : Type 0} (r : R) (d : ℕ) (ds pre s rest : Bytes)
    → AllDelim (d ∷ ds) pre
    → IsField (d ∷ ds) s
    → next_token r (d ∷ ds) (pre ++ column s (d ∷ ds) rest) ≡ going (s, ds ++ rest)
unfolding next_token
token_column r d ds pre s rest h f =
    let self : contains (d ∷ ds) d ≡ true = (AllDelim-self (d ∷ ds)).0 in
    rw (strtok-field (d ∷ ds) pre s (ds ++ rest) d h f self) refl

token_last :
    {R : Type 0} (r : R) (delim pre s : Bytes)
    → AllDelim delim pre
    → IsField delim s
    → next_token r delim (pre ++ s) ≡ going (s, [])
unfolding next_token
token_last r delim pre s h f = rw (strtok-last delim pre s h f) refl

copy_field-going :
    {R : Type 0} (r : R) (size : ℕ) (s : Bytes)
    → Trimmed s
    → length s < size
    → copy_field r size s (kw s) ≡ going s
unfolding copy_field
copy_field-going r size s trimmed fits = rw trimmed (ground arith)

repack :
    (times : ℕ)
    → NormalHours times
    → pack_timebits (pos (getnormtimes times).0) (pos (getnormtimes times).1) ≡ times
repack times (inl all) =
    let a = pack_timebits-all_hours (pos 0) (pos 0) 0 (omega arith) (inl refl) in
    let g : getnormtimes all_hours ≡ (0, 0) = rw a.0 at a.1 in rw (all, g) a.0
repack times (inr (e, l, he, he', hl, hl', ne, packed)) =
    rw (packed, getnormtimes-pack_timebits e l he he' hl hl' ne) refl

-- the text has no delimiter
abbrev NoDelim : Bytes → Bytes → Type 0
NoDelim delim s = All (λ c. contains delim c ≡ false) s

nonempty-IsField : (delim s : Bytes) → 0 < length s → NoDelim delim s → IsField delim s
nonempty-IsField delim [] h k = absurd (omega arith)
nonempty-IsField delim (c ∷ s) h k = k

digits-NoDelim :
    (delim s : Bytes) → IsSeparator delim → All (λ c. is_digit c ≡ true) s → NoDelim delim s
digits-NoDelim delim [] sep h = tt
digits-NoDelim delim (c ∷ s) sep h = (sep.digits c h.0, digits-NoDelim delim s sep h.1)

number-IsField :
    (delim t : Bytes) (n : ℕ)
    → IsSeparator delim
    → NoDelim delim t
    → IsField delim (print_nat n ++ t)
number-IsField delim t n sep h =
    let (d, s, e, lt) = print_nat_head n in
    let some_byte : 0 < length (print_nat n ++ t) = rw e (omega arith) in
    nonempty-IsField delim (print_nat n ++ t) some_byte (
      All-append (λ c. contains delim c ≡ false) (print_nat n) t
        (digits-NoDelim delim (print_nat n) sep (print_nat-digits n)) h)

-- the two numbers at the end of the line, and the end of the reading
hours_read :
    (d : ℕ) (ds pre : Bytes) (u : User) (times : ℕ)
    → IsSeparator (d ∷ ds)
    → AllDelim (d ∷ ds) pre
    → NormalHours times
    → (do
      (t5, r5) ← next_token u (d ∷ ds) (
          pre
          ++ column
              (print_nat (getnormtimes times).0)
              (d ∷ ds)
              (print_nat (getnormtimes times).1 ++ b'\n' ∷ []))
      (t6, r6) ← next_token u (d ∷ ds) r5
      parse_notify (d ∷ ds) (record u { times = pack_timebits (atoi t5) (atoi t6) }) r6)
      ≡ early (record u { times = times })
unfolding parse_notify
hours_read d ds pre u times sep h normal =
    let (a, b) = getnormtimes times in
    let self = AllDelim-self (d ∷ ds) in
    let first_field : IsField (d ∷ ds) (print_nat a) =
      rw append-nil at (number-IsField (d ∷ ds) [] a sep tt) in
    let last_field = number-IsField (d ∷ ds) (b'\n' ∷ []) b sep (sep.newline, tt) in
    let read_a : atoi (print_nat a) ≡ pos a = rw append-nil at (atoi-print_nat a [] tt) in
    let read_b = atoi-print_nat b (b'\n' ∷ []) refl in
    rw
      (
        token_column u d ds pre (print_nat a) (print_nat b ++ b'\n' ∷ []) h first_field,
        token_last u (d ∷ ds) ds (print_nat b ++ b'\n' ∷ []) self.1 last_field,
        read_a,
        read_b,
        repack times normal,
      )
      refl

-- what a line of the dump tells of a user
abbrev pub listed : User → User
listed u = record no_user { name = u.name; pageid = u.pageid; statid = u.statid; times = u.times }

-- The line that `dumpuser` writes for a user, with a delimiter that has no digit and no newline, is read
-- by `parseuser` as that user without password, mail address and flags: where name, pager id and
-- station are fields of the table, trimmed and shorter than their arrays, the name is not the pager id,
-- and the hours are all or those between two different hours from 1 to 23.
pub parse_user-dump_user :
    (delim : Bytes) (u : User)
    → IsSeparator delim
    → Dumpable delim u
    → parse_user (dump_user u delim) delim false ≡ some (listed u)
unfolding parse_user parse_passwd dump_user
parse_user-dump_user [] u sep h = absurd (omega (arith, sep.some_byte))
parse_user-dump_user (d ∷ ds) u sep h =
    let self = AllDelim-self (d ∷ ds) in
    let u1 : User = record no_user { name = u.name } in
    let u2 : User = record u1 { pageid = u.pageid } in
    let u3 : User = record u2 { statid = u.statid } in
    let (a, b) = getnormtimes u.times in
    let end = column (print_nat a) (d ∷ ds) (print_nat b ++ b'\n' ∷ []) in
    let r3 = column u.statid (d ∷ ds) end in
    let r2 = column u.pageid (d ∷ ds) r3 in
    rw
      (
        h.differs,
        token_column no_user d ds [] u.name r2 tt h.name.0,
        copy_field-going no_user namelen u.name h.name.1 h.name.2,
        token_column u1 d ds ds u.pageid r3 self.1 h.pageid.0,
        copy_field-going u1 idlen u.pageid h.pageid.1 h.pageid.2,
        token_column u2 d ds ds u.statid end self.1 h.statid.0,
        copy_field-going u2 statlen u.statid h.statid.1 h.statid.2,
        hours_read d ds ds u3 u.times sep self.1 h.normal,
      )
      refl
