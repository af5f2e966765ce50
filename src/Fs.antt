-- ===== src/Fs.antt =====
-- The file system that the program works on: an association list from paths to contents. `fopen`
-- with "w", `unlink`, `access` and reading a whole file are its operations; permissions and full
-- disks are not modelled, so a file can be opened for writing at every path.
use pageserv.Base.{
  ◌≤◌, ◌<◌, ◌≡◌, Bool, true, false, Option, none, some, List, [], ◌∷◌, arith, if◌then◌else◌, Bytes,
  length, Bool-cases, inl, inr,
}
use pageserv.Clib.{equal, equal_iff, equal_refl}

abbrev pub Files : Type 0
Files = List (Bytes × Bytes)

unfoldable pub get : Files → Bytes → Option Bytes
get [] p = none
get ((q, c) ∷ fs) p = if equal q p then some c else get fs p

unfoldable pub unlink : Files → Bytes → Files
unlink [] p = []
unlink ((q, c) ∷ fs) p = let rest = unlink fs p in if equal q p then rest else (q, c) ∷ rest

unfoldable pub put : Files → Bytes → Bytes → Files
put fs p c = (p, c) ∷ unlink fs p

-- access(p, F_OK) == 0
abbrev is_some {ℓ} : {A : Type ℓ} → Option A → Bool
is_some none = false
is_some (some a) = true

unfoldable pub f_exists : Files → Bytes → Bool
f_exists fs p = is_some (get fs p)

pub get-unlink :
    (fs : Files) (p q : Bytes) → get (unlink fs p) q ≡ (if equal p q then none else get fs q)
unfolding get unlink
get-unlink [] p q = ground arith
get-unlink ((r, c) ∷ fs) p q =
    ground (arith, get-unlink fs p q, equal_iff r p, equal_iff r q, equal_iff p q)

pub get-put :
    (fs : Files) (p q c : Bytes) → get (put fs p c) q ≡ (if equal p q then some c else get fs q)
unfolding get put
get-put fs p q c = ground (arith, get-unlink fs p q)

pub ruleset fs_laws = (get-unlink, get-put)

pub get-put_self : (fs : Files) (p c : Bytes) → get (put fs p c) p ≡ some c
get-put_self fs p c = simp (get-put, equal_refl)

pub f_exists-unlink :
    (fs : Files) (p q : Bytes)
    → f_exists (unlink fs p) q ≡ (if equal p q then false else f_exists fs q)
unfolding f_exists
f_exists-unlink fs p q = ground (arith, get-unlink fs p q)

pub f_exists-put :
    (fs : Files) (p q c : Bytes)
    → f_exists (put fs p c) q ≡ (if equal p q then true else f_exists fs q)
unfolding f_exists
f_exists-put fs p q c = ground (arith, get-put fs p q c)

length-unlink_le : (fs : Files) (p : Bytes) → length (unlink fs p) ≤ length fs
unfolding unlink
length-unlink_le [] p = omega arith
length-unlink_le ((q, c) ∷ fs) p = ground (arith, length-unlink_le fs p)

-- Taking a file that is there away leaves fewer files.
pub length-unlink :
    (fs : Files) (p : Bytes) → f_exists fs p ≡ true → length (unlink fs p) < length fs
unfolding f_exists get unlink
length-unlink [] p h = cc
length-unlink ((q, c) ∷ fs) p h = elim (Bool-cases (equal q p)) [
  | inl same ↦ rw same (omega (arith, length-unlink_le fs p))
  | inr other ↦ rw other (ground (arith, length-unlink fs p))
]
