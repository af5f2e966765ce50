-- ===== src/Queue/Listing/Names.antt =====
-- Reading a directory finds every file of it: the loops over readdir in pageserv/queue.c.
use pageserv.Base.{
  ℕ, ◌≡◌, refl, true, false, not, Option, none, some, List, [], ◌∷◌, ◌++◌, ◌==◌, ◌&&◌, Bytes, arith,
  Bool-cases, inl, inr,
}
use pageserv.Clib.{equal, equal_iff, contains, starts_with}
use pageserv.Fs
use pageserv.Fs.{Files}
use pageserv.Queue.Listing.{strip, name_with, names_with}

-- the name stands in the list
pub data Listed (name : Bytes) : List Bytes → Type 0 where
  first : {names : List Bytes} (other : Bytes) → other ≡ name → Listed name (other ∷ names)
  later : {names : List Bytes} (other : Bytes) → Listed name names → Listed name (other ∷ names)

strip-append : (dir name : Bytes) → strip dir (dir ++ name) ≡ some name
unfolding strip
strip-append [] name = refl
strip-append (c ∷ dir) name = ground (arith, strip-append dir name)

name_with-Listed :
    (letter : ℕ) (s : Bytes) (names : List Bytes)
    → contains (letter ∷ s) b'/' ≡ false
    → Listed (letter ∷ s) (name_with letter (some (letter ∷ s)) names)
unfolding name_with starts_with
name_with-Listed letter s names h =
    let test : (letter == letter && true) ≡ true = ground arith in
    rw (h, test) (first (letter ∷ s) refl)

name_with-later :
    (letter : ℕ) (name : Bytes) (o : Option Bytes) (names : List Bytes)
    → Listed name names
    → Listed name (name_with letter o names)
unfolding name_with
name_with-later letter name none names h = h
name_with-later letter name (some other) names h =
    elim (Bool-cases (starts_with other (letter ∷ []) && not (contains other b'/'))) [
      | inl kept ↦ rw kept (later other h)
      | inr dropped ↦ rw dropped h
    ]

pub names_with-Listed :
    (letter : ℕ) (dir s c : Bytes) (fs : Files)
    → contains (letter ∷ s) b'/' ≡ false
    → Fs.get fs (dir ++ letter ∷ s) ≡ some c
    → Listed (letter ∷ s) (names_with letter dir fs)
unfolding names_with Fs.get
names_with-Listed letter dir s c [] h e = absurd (ground arith)
names_with-Listed letter dir s c ((p, d) ∷ fs) h e =
    elim (Bool-cases (equal p (dir ++ letter ∷ s))) [
      | inl here ↦
          let same = (equal_iff p (dir ++ letter ∷ s)).0 here in
          rw (same, strip-append dir (letter ∷ s))
            (name_with-Listed letter s (names_with letter dir fs) h)
      | inr other ↦
          name_with-later letter (letter ∷ s) (strip dir p) (names_with letter dir fs)
            (names_with-Listed letter dir s c fs h (rw other at e))
    ]
