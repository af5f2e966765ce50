-- ===== src/Delivery/Pass/Clean.antt =====
-- At its end a pass leaves no lock of its own: `cleanmylocks` of delivery/misc.c.
use pageserv.Base.{
  ℕ, ◌≡◌, ◌⊎◌, refl, ap, ◌∙◌, true, false, Option, none, some, List, [], ◌∷◌, ◌++◌, Bytes, ℤ, pos,
  eq_ℤ, arith, Bool-cases, inl, inr, append_assoc,
}
use pageserv.Clib.{equal, equal_refl, contains}
use pageserv.Clib.Decimal.{print_nat, print_int}
use pageserv.Fs
use pageserv.Fs.{get-unlink}
use pageserv.Queue.Types.{Env, World}
use pageserv.Queue.Format.{sscanf_int}
use pageserv.Queue.Format.RoundTrip.{sscanf-print}
use pageserv.Queue.Locks.{in_qdir}
use pageserv.Queue.Listing.{names_with}
use pageserv.Queue.Listing.Names.{Listed, first, later, names_with-Listed}
use pageserv.Delivery.Pass.{clean_one, clean_loop, cleanmylocks}

-- what q_lock of this process writes
abbrev pub my_lock : Env → Bytes
my_lock env = print_nat env.pid ++ b'\n' ∷ []

clean_one-keeps :
    (env : Env) (path p : Bytes) (i : ℤ) (w : World) (o : Option Bytes)
    → (Fs.get (clean_one env path i w o).1.files p ≡ none)
      ⊎ (Fs.get (clean_one env path i w o).1.files p ≡ Fs.get w.files p)
unfolding clean_one
clean_one-keeps env path p i w none = inr refl
clean_one-keeps env path p i w (some text) =
    elim (Bool-cases (eq_ℤ (sscanf_int text i) (pos env.pid))) [
      | inr other ↦ rw other (inr refl)
      | inl mine ↦ elim (Bool-cases (equal path p)) [
        | inl same ↦ inl (rw mine (get-unlink w.files path p ∙ rw same refl))
        | inr differ ↦ inr (rw mine (get-unlink w.files path p ∙ rw differ refl))
      ]
    ]

my_lock-print_int : (env : Env) → my_lock env ≡ print_int (pos env.pid) ++ b'\n' ∷ []
unfolding print_int
my_lock-print_int env = refl

in_qdir-append : (env : Env) (name : Bytes) → (env.qdir ++ b'/' ∷ []) ++ name ≡ in_qdir env name
unfolding in_qdir
in_qdir-append env name = append_assoc env.qdir (b'/' ∷ []) name

sscanf-my_lock : (env : Env) (i : ℤ) → sscanf_int (my_lock env) i ≡ pos env.pid
sscanf-my_lock env i =
    ap (λ s. sscanf_int s i) (my_lock-print_int env) ∙ sscanf-print (pos env.pid) i

eq_ℤ_refl : (n : ℕ) → eq_ℤ (pos n) (pos n) ≡ true
eq_ℤ_refl n = ground arith

clean_one-mine :
    (env : Env) (path : Bytes) (i : ℤ) (w : World)
    → Fs.get (clean_one env path i w (some (my_lock env))).1.files path ≡ none
unfolding clean_one
clean_one-mine env path i w =
    rw (sscanf-my_lock env i, eq_ℤ_refl env.pid) (get-unlink w.files path path ∙ simp equal_refl)

clean_loop-none :
    (env : Env) (names : List Bytes) (p : Bytes) (i : ℤ) (w : World)
    → Fs.get w.files p ≡ none
    → Fs.get (clean_loop env names i w).files p ≡ none
unfolding clean_loop
clean_loop-none env [] p i w h = h
clean_loop-none env (name ∷ names) p i w h =
    let (j, w1) = clean_one env (in_qdir env name) i w (Fs.get w.files (in_qdir env name)) in
    clean_loop-none env names p j w1
      (elim (clean_one-keeps env (in_qdir env name) p i w (Fs.get w.files (in_qdir env name))) [
        | inl gone ↦ gone
        | inr same ↦ same ∙ h
      ])

clean_loop-mine :
    (env : Env) (name : Bytes) (names : List Bytes) (i : ℤ) (w : World)
    → Listed name names
    → Fs.get w.files (in_qdir env name) ≡ some (my_lock env)
    → Fs.get (clean_loop env names i w).files (in_qdir env name) ≡ none
unfolding clean_loop
clean_loop-mine env name [] i w l h = elim l [ ]
clean_loop-mine env name (_ ∷ names) i w (first other e) h =
    clean_loop-none env names (in_qdir env name) _ _
      (rw (e, h) (clean_one-mine env (in_qdir env name) i w))
clean_loop-mine env name (_ ∷ names) i w (later other l) h =
    let (j, w1) = clean_one env (in_qdir env other) i w (Fs.get w.files (in_qdir env other)) in
    elim (clean_one-keeps env (in_qdir env other) (in_qdir env name) i w
      (Fs.get w.files (in_qdir env other))) [
        | inl gone ↦ clean_loop-none env names (in_qdir env name) j w1 gone
        | inr same ↦ clean_loop-mine env name names j w1 l (same ∙ h)
      ]

-- Every lock file of the queue directory that holds just the process id, as q_lock writes it, is gone
-- behind `cleanmylocks`.
pub cleanmylocks-mine :
    (env : Env) (s : Bytes) (w : World)
    → contains (b'l' ∷ s) b'/' ≡ false
    → Fs.get w.files (in_qdir env (b'l' ∷ s)) ≡ some (my_lock env)
    → Fs.get (cleanmylocks env w).files (in_qdir env (b'l' ∷ s)) ≡ none
unfolding cleanmylocks
cleanmylocks-mine env s w plain h =
    clean_loop-mine env (b'l' ∷ s) (names_with b'l' (env.qdir ++ b'/' ∷ []) w.files) (pos 0) w
      (names_with-Listed b'l' (env.qdir ++ b'/' ∷ []) s (my_lock env) w.files plain
        (ap (Fs.get w.files) (in_qdir-append env (b'l' ∷ s)) ∙ h))
      h
