-- ===== src/Mash/Process/Pages.antt =====
-- What the commands of the line protocol may store.
use pageserv.Base.{
  ℕ, refl, inl, inr, false, [], ◌∷◌, ◌++◌, if◌then◌else◌, Bytes, codes, length, ltb, ◌==◌, ℤ, pos,
  eq_ℤ, Bool-cases,
}
use pageserv.Clib.{equal, to_lower}
use pageserv.Queue.Format.{buflen, tolen}
use pageserv.Queue.Types.{Queuent, Env}
use pageserv.Queue.Store.{storequeue, pr_high, pr_normal}
use pageserv.Queue.Listing.{queuedepth, dofarkle}
use pageserv.Mash.Talk.{Talk, calls}
use pageserv.Mash.Talk.Quiet.{
  After, Quiet, StoredOne, Anything, Quiet-Stores, Quiet-bind, Quiet-calls, after_say, after_hear,
}
use pageserv.Mash.Login.{System, first_of}
use pageserv.Mash.Login.Own.{Changed, p_login-Changed}
use pageserv.Mash.Process.{
  no_entry, store_for, p_epage, p_mash, p_depth, farkled, p_farkle, p_quit, Command, mash, farkle,
  depth, quit, epage, login, unknown, find_command, unknown_command, perform, process,
}

Quiet-store_for : (env : Env) (id : Bytes) (q : Queuent) → Quiet Anything (store_for env id q)
unfolding store_for
Quiet-store_for env id q = elim (Bool-cases (ltb (length id) tolen)) [
  | inl fits ↦ elim (Bool-cases (env.u_exists id)) [
    | inl known ↦
        rw (fits, known)
          (Quiet-bind Anything Anything (calls (storequeue env (record q { to = id }) false)) _
            (Quiet-calls (storequeue env (record q { to = id }) false)) (λ ret x t. (tt, refl)))
    | inr stranger ↦ rw (fits, stranger) (λ t. (tt, refl))
  ]
  | inr long ↦ rw long (λ t. tt)
]

Quiet-p_epage : (env : Env) (addr : ℕ) → Quiet Anything (p_epage env addr)
unfolding p_epage
Quiet-p_epage env addr = after_say _ _ _ (
    after_hear _ env.junk_line _ (λ id. after_say _ _ _ (
      after_hear _ env.junk_line _ (λ pri. after_say _ _ _ (
        after_hear _ env.junk_line _ (λ message.
          let priority = if to_lower (first_of pri) == b'h' then pr_high else pr_normal in
          Quiet-store_for env id
            (record no_entry { priority = priority; message = message; rem_addr = addr })))))))

Quiet-p_mash : (env : Env) → Quiet Anything (p_mash env)
unfolding p_mash
Quiet-p_mash env = after_say _ _ _ (
    after_hear _ env.junk_line _ (λ id. after_say _ _ _ (
      after_hear _ env.junk_line _ (λ message.
        Quiet-store_for env id (record env.junk { priority = pr_normal; message = message })))))

Quiet-farkled : (env : Env) (q : Queuent) → Quiet Anything (farkled env q)
Quiet-farkled env q = elim (Bool-cases (equal (env.getuser q.to).name [])) [
  | inl nobody ↦ rw nobody (λ t. (tt, refl))
  | inr somebody ↦ rw somebody (λ t. (tt, refl))
]

Quiet-p_farkle : (env : Env) (may_farkle : ℤ) → Quiet Anything (p_farkle env may_farkle)
unfolding p_farkle
Quiet-p_farkle env may_farkle t = elim (Bool-cases (eq_ℤ may_farkle (pos 0))) [
  | inl off ↦ rw off (tt, refl)
  | inr on ↦ elim (Bool-cases (ltb 0 (queuedepth env t.world))) [
    | inl waiting ↦
        rw (on, waiting)
          (Quiet-bind Anything Anything (calls (dofarkle env)) _ (Quiet-calls (dofarkle env))
            (λ q x. Quiet-farkled env q) t)
    | inr empty ↦ rw (on, empty) (tt, refl)
  ]
]

Quiet-unknown_command : (cmd : Bytes) → Quiet Anything (unknown_command cmd)
unfolding unknown_command
Quiet-unknown_command cmd =
    elim (Bool-cases (ltb (length (codes "Unknown command: " ++ (cmd ++ b'\n' ∷ []))) buflen)) [
      | inl fits ↦ rw fits (λ t. refl)
      | inr long ↦ rw long (λ t. tt)
    ]

perform-Changed :
    (sys : System) (env : Env) (may_farkle : ℤ) (addr : ℕ) (cmd : Bytes) (c : Command) (t : Talk)
    → After
        (λ a t1. StoredOne (Changed sys env t.input) t t1)
        (StoredOne (Changed sys env t.input) t)
        (perform sys env may_farkle addr cmd c t)
unfolding perform p_depth p_quit
perform-Changed sys env may_farkle addr cmd mash t =
    Quiet-Stores Anything (Changed sys env t.input) (p_mash env) (Quiet-p_mash env) t
perform-Changed sys env may_farkle addr cmd farkle t =
    Quiet-Stores Anything (Changed sys env t.input) (p_farkle env may_farkle)
      (Quiet-p_farkle env may_farkle) t
perform-Changed sys env may_farkle addr cmd depth t = inl refl
perform-Changed sys env may_farkle addr cmd quit t = inl refl
perform-Changed sys env may_farkle addr cmd epage t =
    Quiet-Stores Anything (Changed sys env t.input) (p_epage env addr) (Quiet-p_epage env addr) t
perform-Changed sys env may_farkle addr cmd login t = p_login-Changed sys env t
perform-Changed sys env may_farkle addr cmd unknown t =
    Quiet-Stores Anything (Changed sys env t.input) (unknown_command cmd)
      (Quiet-unknown_command cmd) t

-- Whatever the command and whatever the client then sends, `process` stores at most one user, and only
-- one that has logged in: the first line that gettextcr reads from the input is the name of an account
-- that exists and has a stored password of at least 13 bytes, and the second line is a word that crypt
-- turns into that password. The user is stored with the name, the pager id, the station, the mail address
-- and the flags of this account; only hours and password may differ.
pub process-Changed :
    (sys : System) (env : Env) (may_farkle : ℤ) (addr : ℕ) (cmd : Bytes) (t : Talk)
    → After
        (λ a t1. StoredOne (Changed sys env t.input) t t1)
        (StoredOne (Changed sys env t.input) t)
        (process sys env may_farkle addr cmd t)
unfolding process
process-Changed sys env may_farkle addr cmd t =
    perform-Changed sys env may_farkle addr cmd (find_command cmd) t
