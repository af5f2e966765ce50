-- ===== src/Tables.antt =====
-- The tables of users and terminals: how pageserv/parseusers.c and pageserv/parseterms.c take a line
-- apart. A reader returns what it has read so far where a field is missing or too long. A text that
-- does not fit the array which it is copied to is `overflow`: in C, strcpy then writes past the array.
pub mod Users
pub mod Terms
pub mod Dbm
pub mod Userdb
pub mod Load
pub mod Termdb
use pageserv.Base.{
  ℕ, ◌+◌, Option, none, some, ltb, if◌then◌else◌, length, Bytes, List, [], ◌∷◌, ◌++◌, Bool, not,
  ◌==◌, ◌&&◌,
}
use pageserv.Clib.{strtok, is_space}

pub data Parse (R A : Type 0) : Type 0 where
  early : R → Parse R A
  overflow : Parse R A
  going : A → Parse R A

infixl 5 ◌>>=◌
abbrev pub ◌>>=◌ : {R A B : Type 0} → Parse R A → (A → Parse R B) → Parse R B
early r >>= f = early r
overflow >>= f = overflow
going a >>= f = f a

abbrev pub finish : {R : Type 0} → Parse R R → Option R
finish (early r) = some r
finish overflow = none
finish (going r) = some r

abbrev found : {R : Type 0} → R → Option (Bytes × Bytes) → Parse R (Bytes × Bytes)
found r none = early r
found r (some p) = going p

-- tmp = strtok(.., delim); if(tmp == NULL) return(r);
unfoldable pub next_token : {R : Type 0} → R → Bytes → Bytes → Parse R (Bytes × Bytes)
unfolding strtok
next_token r delim s = found r (strtok delim s)

-- if(strlen(tmp) > size) return(r); strcpy(field, text); where `text` is `tmp` or `tmp` after kw, and
-- the field has `size` bytes
unfoldable pub copy_field : {R : Type 0} → R → ℕ → Bytes → Bytes → Parse R Bytes
copy_field r size tmp text =
    if ltb size (length tmp)
    then early r
    else if ltb (length text) size
    then going text
    else overflow

-- rcfg_lookup(conf.cf, "databases.textdelim"), or else `default`
abbrev pub or_default : Option Bytes → Bytes → Bytes
or_default none default = default
or_default (some s) default = s

-- (buf[0] != '#') && (!isspace(buf[0])), where fgets has read at least one byte
abbrev pub has_entry : Bytes → Bool
has_entry [] = Bool.true
has_entry (c ∷ s) = not (c == b'#') && not (is_space c)
