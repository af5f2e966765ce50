-- ===== src/Queue/Names/Fresh.antt =====
-- `newqfile` ends, with a name that no file has.
use pageserv.Base.{
  ℕ, zero, suc, ◌≤◌, ◌<◌, ◌≡◌, refl, ap, ◌∙◌, sym, false, some, [], ◌∷◌, ◌++◌, Bytes, All, arith,
  Bool-cases, inl, inr, length,
}
use pageserv.Clib.{equal, equal_iff}
use pageserv.Fs.{Files, f_exists, unlink, f_exists-unlink, length-unlink}
use pageserv.Queue.Names.{newtmp, name_prefix, find_free, newqfile}
use pageserv.Queue.Names.Counter.{IsLetter, value, value-newtmp}

append_cancel : (p a b : Bytes) → p ++ a ≡ p ++ b → a ≡ b
append_cancel [] a b e = e
append_cancel (c ∷ p) a b e = append_cancel p a b (cc)

differ : (p a b : Bytes) → value a < value b → equal (p ++ a) (p ++ b) ≡ false
differ p a b lt = elim (Bool-cases (equal (p ++ a) (p ++ b))) [
  | inl same ↦
      absurd
        (omega (arith, ap (λ (s : Bytes). value s) (append_cancel p a b ((equal_iff _ _).0 same))))
  | inr other ↦ other
]

-- A file whose name was given out earlier makes no difference to the search.
find_free-unlink :
    (fuel : ℕ) (fs : Files) (prefix tmp old : Bytes)
    → All IsLetter tmp
    → value old ≤ value tmp
    → find_free fuel (unlink fs (prefix ++ old)) prefix tmp ≡ find_free fuel fs prefix tmp
unfolding find_free
find_free-unlink zero fs prefix tmp old h le = refl
find_free-unlink (suc fuel) fs prefix tmp old h le =
    let (letters, next) = value-newtmp tmp h in
    let other = differ prefix old (newtmp tmp) (omega arith) in
    rw (
      f_exists-unlink fs (prefix ++ old) (prefix ++ newtmp tmp),
      other,
      find_free-unlink fuel fs prefix (newtmp tmp) old letters (omega arith),
    )

-- More rounds than there are files find a name that no file has, and the letters behind it are
-- higher than those before.
find_free_total :
    (fuel : ℕ) (fs : Files) (prefix tmp : Bytes)
    → All IsLetter tmp
    → length fs < fuel
    → (t : Bytes) × (find_free fuel fs prefix tmp ≡ some (prefix ++ t, t))
      × (f_exists fs (prefix ++ t) ≡ false)
      × All IsLetter t
      × (value tmp < value t)
unfolding find_free
find_free_total zero fs prefix tmp h lt = absurd (omega arith)
find_free_total (suc fuel) fs prefix tmp h lt =
    elim (Bool-cases (f_exists fs (prefix ++ newtmp tmp))) [
      | inr free ↦
          let (letters, next) = value-newtmp tmp h in
          (newtmp tmp, rw free refl, free, letters, omega arith)
      | inl taken ↦
          let (letters, next) = value-newtmp tmp h in
          let (t, found, free, good, up) =
            find_free_total fuel (unlink fs (prefix ++ newtmp tmp)) prefix (newtmp tmp) letters
              (omega (arith, length-unlink fs (prefix ++ newtmp tmp) taken)) in
          (
            t,
            rw taken (
                sym
                  (find_free-unlink fuel fs prefix (newtmp tmp) (newtmp tmp) letters (omega arith))
                ∙ found),
            rw
                (
                  f_exists-unlink fs (prefix ++ newtmp tmp) (prefix ++ t),
                  differ prefix (newtmp tmp) t up,
                )
                at free,
            good,
            omega arith,
          )
    ]

-- From letters, or from none before the first call, `newqfile` ends, and gives the path of no file;
-- its letters stand for a higher number than those before, so no name is given out twice.
pub newqfile_total :
    (qdir : Bytes) (pid : ℕ) (fs : Files) (tmp : Bytes)
    → All IsLetter tmp
    → (t : Bytes) × (newqfile qdir pid fs tmp ≡ some (name_prefix qdir pid ++ t, t))
      × (f_exists fs (name_prefix qdir pid ++ t) ≡ false)
      × All IsLetter t
      × (value tmp < value t)
unfolding newqfile
newqfile_total qdir pid fs tmp h =
    find_free_total (suc (length fs)) fs (name_prefix qdir pid) tmp h (omega arith)
