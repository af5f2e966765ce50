-- ===== src/Queue/Names.antt =====
-- Names of new queue files: `newtmp` and `newqfile` of pageserv/queue.c.
pub mod Counter
pub mod Fresh
use pageserv.Base.{
  ℕ, zero, suc, ◌+◌, ◌≡◌, refl, Bool, true, false, Option, none, some, List, [], ◌∷◌, ◌++◌, ltb,
  if◌then◌else◌, Bytes, length, codes,
}
use pageserv.Clib.Decimal.{print_nat}
use pageserv.Fs.{Files, f_exists}

-- The loop over the letters; the flag says that this position was counted up, or that a new letter
-- is due where the text ends.
pub settle : Bool → Bytes → Bytes
settle false [] = []
settle true [] = b'A' ∷ []
settle up (c ∷ s) =
    let c' = if up then c + 1 else c in
    let over = ltb b'Z' c' in (if over then b'A' else c') ∷ settle over s

-- the next text of letters; the state is the last one, and empty before the first call
unfoldable pub newtmp : Bytes → Bytes
unfolding settle
newtmp [] = b'A' ∷ []
newtmp (c ∷ s) = settle true (c ∷ s)

-- sprintf(fn, "%s/q%d%s", conf.qdir, pid, newtmp())
unfoldable pub name_prefix : Bytes → ℕ → Bytes
name_prefix qdir pid = qdir ++ (b'/' ∷ b'q' ∷ print_nat pid)

-- The loop goes on while the file is there. `none` means that the fuel ran out.
unfoldable pub find_free : ℕ → Files → Bytes → Bytes → Option (Bytes × Bytes)
find_free zero fs prefix tmp = none
find_free (suc fuel) fs prefix tmp =
    let t = newtmp tmp in
    let more = find_free fuel fs prefix t in
    if f_exists fs (prefix ++ t) then more else some (prefix ++ t, t)

-- The result is the path and the new state of newtmp. One more round than there are files is enough.
unfoldable pub newqfile : Bytes → ℕ → Files → Bytes → Option (Bytes × Bytes)
unfolding find_free name_prefix
newqfile qdir pid fs tmp = find_free (suc (length fs)) fs (name_prefix qdir pid) tmp

counts : newtmp (newtmp (codes "YZ")) ≡ codes "AAA"
unfolding newtmp
counts = refl
