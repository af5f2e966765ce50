-- ===== src/Mash/Login/Own.antt =====
-- Whom a login may change.
use pageserv.Base.{
  ℕ, ◌+◌, pos, ◌≡◌, refl, sym, ap, ◌∙◌, some, inl, inr, true, false, Bytes, codes, length, ltb,
  ◌==◌, Bool-cases,
}
use pageserv.Clib.{equal, to_lower}
use pageserv.Queue.Types.{User, Env}
use pageserv.Hours.{getnormtimes, pack_timebits}
use pageserv.Queue.Format.{sscanf_int}
use pageserv.Mash.Talk.{Change, stores, deletes, Talk, return, held}
use pageserv.Mash.Input.{Got, gettextcr}
use pageserv.Queue.Store.{puttext}
use pageserv.Mash.Talk.Quiet.{
  After, StoredOne, hear_at, Quiet-say, after_say, after_hear, Stores-say, Stores-hear, Stores-mono,
  Quiet, Stores, Anything, Stores-after, Stores-before,
}
use pageserv.Mash.Login.{
  System, hours_line, first_of, getynresult, ask_times, ask_passwd, store_changes, setpasswd,
  login_usermain, login_main, check_login, p_login,
}

-- the same user but for the hours and the password
abbrev pub Own : User → User → Type 0
Own u v =
    (v.name ≡ u.name)
    × (v.pageid ≡ u.pageid)
    × (v.statid ≡ u.statid)
    × (v.notify ≡ u.notify)
    × (v.flags ≡ u.flags)

Quiet-getynresult : (str : Bytes) → Quiet Anything (getynresult str)
unfolding getynresult
Quiet-getynresult str = elim (Bool-cases (to_lower (first_of str) == b'y')) [
  | inl is_yes ↦ rw is_yes (λ t. (tt, refl))
  | inr not_yes ↦ elim (Bool-cases (to_lower (first_of str) == b'n')) [
    | inl is_no ↦ rw (not_yes, is_no) (λ t. (tt, refl))
    | inr neither ↦ rw (not_yes, neither) (λ t. refl)
  ]
]

Quiet-return : {A : Type 0} (R : A → Type 0) (a : A) → R a → Quiet R (return a)
Quiet-return R a h t = (h, refl)

Quiet-ask_times :
    (env : Env) (buf : Bytes) (u : User) (flag : ℕ)
    → Quiet (λ p. Own u p.0) (ask_times env buf u flag)
unfolding ask_times
Quiet-ask_times env buf u flag = elim (Bool-cases (flag == 1)) [
  | inl asked ↦
      let own : User × ℕ × Bytes → Type 0 = λ p. Own u p.0 in
      let same : Own u u = (refl, refl, refl, refl, refl) in
      let hours = getnormtimes u.times in
      rw asked (
        after_say own (codes "Earliest time to receive normal pages [0-23] (24 hour):  ") _ (
          after_hear own (held env buf) _ (λ b1.
            after_say own (codes "Latest time to receive normal pages [0-23] (24 hour):  ") _ (
              after_hear own (held env b1) _ (λ b2.
                Quiet-return own
                  (
                    record u {
                      times =
                          pack_timebits (sscanf_int b1 (pos hours.0)) (sscanf_int b2 (pos hours.1));
                    },
                    1,
                    b2,
                  )
                  same)))))
  | inr kept ↦ rw kept (λ t. ((refl, refl, refl, refl, refl), refl))
]

Quiet-ask_passwd :
    (sys : System) (env : Env) (buf : Bytes) (u u1 : User) (changes flag : ℕ)
    → Own u u1
    → Quiet (λ p. Own u p.0) (ask_passwd sys env buf u1 changes flag)
unfolding ask_passwd setpasswd
Quiet-ask_passwd sys env buf u u1 changes flag own = elim (Bool-cases (flag == 1)) [
  | inl asked ↦ rw asked (
      after_say (λ (p : User × ℕ). Own u p.0) (codes "Enter new password here:  ") _
        (after_hear (λ (p : User × ℕ). Own u p.0) (held env buf) _
          (λ b. Quiet-return (λ (p : User × ℕ). Own u p.0) (setpasswd sys u1 b, changes + 1) own)))
  | inr kept ↦ rw kept (λ t. (own, refl))
]

Stores-store_changes :
    (S : Change → Type 0) (u : User) (changes : ℕ)
    → S (stores u)
    → Stores S (store_changes u changes)
unfolding store_changes
Stores-store_changes S u changes h = elim (Bool-cases (ltb 0 changes)) [
  | inl more ↦ rw more (λ t. inr (stores u, h, refl))
  | inr none ↦ rw none (λ t. inl refl)
]

-- the stored user is this one, but for the hours and the password
abbrev pub Kept : User → Change → Type 0
Kept u (stores v) = Own u v
Kept u (deletes name) = ⊥

Stores-login_usermain :
    (sys : System) (env : Env) (u : User) → Stores (Kept u) (login_usermain sys env u)
unfolding login_usermain
Stores-login_usermain sys env u = Stores-say (Kept u) _ _ (
    Stores-say (Kept u) _ _ (
      Stores-hear (Kept u) (held env (hours_line (getnormtimes u.times))) _ (λ b1.
        Stores-after Anything (Kept u) (getynresult b1) _ (Quiet-getynresult b1) (λ flag1 x.
          Stores-after (λ p. Own u p.0) (Kept u) (ask_times env b1 u flag1) _
            (Quiet-ask_times env b1 u flag1)
            (λ p1 own1. Stores-say (Kept u) _ _ (
              Stores-hear (Kept u) (held env p1.2) _ (λ b2.
                Stores-after Anything (Kept u) (getynresult b2) _ (Quiet-getynresult b2) (λ flag2 y.
                  Stores-after (λ p. Own u p.0) (Kept u) (ask_passwd sys env b2 p1.0 p1.1 flag2) _
                    (Quiet-ask_passwd sys env b2 u p1.0 p1.1 flag2 own1)
                    (λ p2 own2.
                      Stores-before Anything (Kept u) (store_changes p2.0 p2.1) _
                        (Stores-store_changes (Kept u) p2.0 p2.1 own2)
                        (λ a. Quiet-say (codes "Thank you for shopping\n")))))))))))

-- a user who logs in with the password `word`
abbrev pub Known : System → Env → Bytes → Bytes → Type 0
Known sys env name word =
    let u = env.getuser name in
    (env.u_exists name ≡ true)
    × (ltb (length u.passwd) 13 ≡ false)
    × (equal u.passwd (sys.crypt word u.passwd) ≡ true)

-- The one change that is allowed: the first line of the input names a user, the second, which is read
-- into the same buffer, is the password, and this user is stored with his own name and address.
abbrev pub Changed : System → Env → Bytes → Change → Type 0
Changed sys env input (deletes name) = ⊥
Changed sys env input (stores v) =
    (name : Got) × (word : Got) × (gettextcr env.junk_line input ≡ some name)
    × (gettextcr (held env name.text) name.rest ≡ some word)
    × Known sys env name.text word.text
    × Own (env.getuser name.text) v

Stores-login_main : (sys : System) (env : Env) (u : User) → Stores (Kept u) (login_main sys env u)
unfolding login_main
Stores-login_main sys env u = elim (Bool-cases (equal u.name (codes "admin"))) [
  | inl admin ↦ rw admin (λ t. inl refl)
  | inr plain ↦ rw plain (Stores-login_usermain sys env u)
]

module _ (sys : System) (env : Env) (input : Bytes) (name : Got)
    (named : gettextcr env.junk_line input ≡ some name) where
  Kept-Changed :
      (word : Got) (c : Change)
      → gettextcr (held env name.text) name.rest ≡ some word
      → Known sys env name.text word.text
      → Kept (env.getuser name.text) c
      → Changed sys env input c
  Kept-Changed word (stores v) given known own = (name, word, named, given, known, own)
  Kept-Changed word (deletes n) given known own = elim own [ ]

  check_login-Changed :
      (t : Talk)
      → t.input ≡ name.rest
      → env.u_exists name.text ≡ true
      → After
          (λ a t1. StoredOne (Changed sys env input) t t1)
          (StoredOne (Changed sys env input) t)
          (check_login sys env name.text (env.getuser name.text) t)
  unfolding check_login
  check_login-Changed t here known =
      let u = env.getuser name.text in
      elim (Bool-cases (ltb (length u.passwd) 13)) [
        | inl short ↦ rw short (inl refl)
        | inr long ↦ rw long (
            hear_at (Changed sys env input) _
              (record t { world = puttext (codes "Password: ") t.world }) (held env name.text)
              (λ word given.
                let given1 = ap (gettextcr (held env name.text)) (sym here) ∙ given in
                elim (Bool-cases (equal u.passwd (sys.crypt word.text u.passwd))) [
                  | inl right ↦ rw right (
                      Stores-mono (Kept u) (Changed sys env input) (login_main sys env u)
                        (Stores-login_main sys env u)
                        (λ c own. Kept-Changed word c given1 (known, long, right) own) _)
                  | inr wrong ↦ rw wrong (inl refl)
                ]))
      ]

pub p_login-Changed :
    (sys : System) (env : Env) (t : Talk)
    → After
        (λ a t1. StoredOne (Changed sys env t.input) t t1)
        (StoredOne (Changed sys env t.input) t)
        (p_login sys env t)
unfolding p_login
p_login-Changed sys env t =
    hear_at (Changed sys env t.input) _ (record t { world = puttext (codes "Username: ") t.world })
      env.junk_line
      (λ name named. elim (Bool-cases (env.u_exists name.text)) [
        | inl known ↦ rw known (check_login-Changed sys env t.input name named _ refl known)
        | inr unknown ↦ rw unknown (inl refl)
      ])
