-- ===== src/Http/Process/Users.antt =====
-- The users that the forms of the web server store and delete.
use pageserv.Base.{
  ℕ, ◌≡◌, refl, inl, inr, true, false, Option, none, some, Bytes, codes, length, ltb, Bool-cases,
  arith,
}
use pageserv.Clib.{equal}
use pageserv.Queue.Types.{User, Env}
use pageserv.Mash.Talk.{Change, stores, deletes, Talk, Step, ◌>>◌}
use pageserv.Mash.Login.{System, setpasswd}
use pageserv.Mash.Login.Own.{Own}
use pageserv.Http.Args.{http_getcgiinfo}
use pageserv.Http.Reply.{Site, http_header_needauth, error_page}
use pageserv.Http.Request.{Request}
use pageserv.Http.Access.{may_pass, http_auth_require}
use pageserv.Http.Forms.{
  new_passwd, store_hours, moduser_process, new_user, add_user, checked_user, http_doadduser,
  delete_user_named, http_dodeluser, http_admin_process,
}
use pageserv.Http.Process.Changes.{
  Passed, WebChange, Limited, Limited-if, Limited-given, Limited-after, Limited-stop, Limited-say,
  Limited-fault, Limited-text, Limited-keep_user, Quiet-error_page, Quiet-needauth,
  Limited-error_page,
}

-- the tests of _http_auth_require, one by one
may_pass-Passed :
    (sys : System) (env : Env) (r : Request) (realm : Bytes) (name pass : Option Bytes)
    → r.name ≡ name
    → r.pass ≡ pass
    → may_pass sys env realm name pass ≡ true
    → (who : Bytes) × Passed sys env r realm who
unfolding may_pass
may_pass-Passed sys env r realm none pass e1 e2 h = ground (arith, h)
may_pass-Passed sys env r realm (some name) none e1 e2 h = ground (arith, h)
may_pass-Passed sys env r realm (some name) (some pass) e1 e2 h = (
  name,
  (pass, e1, e2, ground (arith, h), ground (arith, h), ground (arith, h), ground (arith, h)),
)

-- behind _http_auth_require the client is known
pub Limited-auth :
    (S : Change → Type 0) (sys : System) (env : Env) (r : Request) (realm : Bytes)
    (m : Talk → Step (Unit {0}))
    → ((name : Bytes) → Passed sys env r realm name → Limited S m)
    → Limited S (http_auth_require sys env r realm >> m)
unfolding http_auth_require
Limited-auth S sys env r realm m k = elim (Bool-cases (may_pass sys env realm r.name r.pass)) [
  | inl passes ↦
      let known = may_pass-Passed sys env r realm r.name r.pass refl refl passes in
      rw passes (k known.0 known.1)
  | inr refused ↦
      rw refused
        (Limited-stop S (http_header_needauth realm r.request) m (Quiet-needauth realm r.request))
]

module _ (sys : System) (env : Env) (r : Request) where
  Limited-store_hours :
      (S : Change → Type 0) (u : User)
      → ((times : ℕ) → S (stores (record u { times = times })))
      → Limited S (store_hours r u)
  unfolding store_hours
  Limited-store_hours S u k = Limited-given S _ _ _ (Limited-fault S) (λ early e1.
      Limited-given S _ _ _ (Limited-fault S)
        (λ late e2. Limited-say S _ _ (Limited-keep_user S _ (k _))))

  new_passwd-Own :
      (u : User) (passwd : Bytes) (times : ℕ)
      → Own u (record (new_passwd sys u passwd) { times = times })
  unfolding new_passwd setpasswd
  new_passwd-Own u passwd times = elim (Bool-cases (ltb (length passwd) 5)) [
    | inl short ↦ rw short (refl, refl, refl, refl, refl)
    | inr long ↦ rw long (refl, refl, refl, refl, refl)
  ]

  -- moduser.c stores only who asked
  pub Limited-moduser_process :
      (site : Site) (name : Bytes)
      → Passed sys env r (codes "user") name
      → Limited (WebChange sys env r) (moduser_process site sys env r name)
  unfolding moduser_process
  Limited-moduser_process site name known =
      let S = WebChange sys env r in
      Limited-if S (env.u_exists name) _ _
        (λ e. Limited-say S _ _ (
          Limited-say S _ _ (
            Limited-given S _ _ _ (Limited-fault S) (λ passwd1 e1.
              Limited-given S _ _ _ (Limited-fault S) (λ passwd2 e2.
                Limited-if S (equal passwd1 passwd2) _ _
                  (λ same. Limited-say S _ _ (
                    Limited-store_hours S (new_passwd sys (env.getuser name) passwd1) (λ times.
                      inl (name, known, new_passwd-Own (env.getuser name) passwd1 times))))
                  (λ differ. Limited-text S _))))))
        (λ e. Limited-error_page S site _)

  Limited-add_user :
      (S : Change → Type 0) (site : Site) (u : User)
      → S (stores u)
      → Limited S (add_user site env u)
  unfolding add_user Limited error_page
  Limited-add_user S site u h = elim (Bool-cases (site.u_exists_after u u.name)) [
    | inl there ↦ rw there (λ t. inr (stores u, h, refl))
    | inr missing ↦ rw missing (λ t. inr (stores u, h, refl))
  ]

  Limited-checked_user :
      (S : Change → Type 0) (site : Site) (u : User) (pass1 : Bytes) (pass2 : Option Bytes)
      → (env.u_exists u.name ≡ false → S (stores u))
      → Limited S (checked_user site env u pass1 pass2)
  unfolding checked_user
  Limited-checked_user S site u pass1 none h =
      Limited-after S (error_page site (codes "Invalid form")) _
        (Quiet-error_page site (codes "Invalid form"))
        (λ a.
          Limited-if S (env.u_exists u.name) _ _ (λ e. Limited-error_page S site _)
            (λ e. Limited-fault S))
  Limited-checked_user S site u pass1 (some pass2) h =
      Limited-if S (env.u_exists u.name) _ _ (λ e. Limited-error_page S site _)
        (λ fresh.
          Limited-if S (equal pass1 pass2) _ _ (λ same. Limited-add_user S site u (h fresh))
            (λ differ. Limited-error_page S site _))

  Limited-http_doadduser :
      (site : Site)
      → Passed sys env r (codes "admin") (codes "admin")
      → Limited (WebChange sys env r) (http_doadduser site sys env r)
  unfolding http_doadduser new_user setpasswd
  Limited-http_doadduser site known =
      let S = WebChange sys env r in
      Limited-given S _ _ _ (Limited-fault S) (λ name e1.
        Limited-given S _ _ _ (Limited-fault S) (λ terminal e2.
          Limited-given S _ _ _ (Limited-fault S) (λ pageid e3.
            Limited-given S _ _ _ (Limited-fault S) (λ pass1 e4.
              Limited-if S _ _ _
                (λ fits.
                  Limited-checked_user S site (new_user sys env r name terminal pageid pass1) pass1
                    (http_getcgiinfo r.largs (codes "passwd2")) (λ fresh. inr (known, fresh, e1)))
                (λ long. Limited-fault S)))))

  Limited-delete_user_named :
      (S : Change → Type 0) (site : Site) (user : Bytes)
      → S (deletes user)
      → Limited S (delete_user_named site user)
  unfolding delete_user_named Limited
  Limited-delete_user_named S site user h t = inr (deletes user, h, refl)

  Limited-http_dodeluser :
      (site : Site)
      → Passed sys env r (codes "admin") (codes "admin")
      → Limited (WebChange sys env r) (http_dodeluser site env r)
  unfolding http_dodeluser
  Limited-http_dodeluser site known =
      let S = WebChange sys env r in
      Limited-given S _ _ _ (Limited-error_page S site _) (λ user e1.
        Limited-if S (env.u_exists user) _ _
          (λ there. Limited-delete_user_named S site user (known, there, e1))
          (λ missing. Limited-error_page S site _))

  pub Limited-http_admin_process :
      (site : Site)
      → Passed sys env r (codes "admin") (codes "admin")
      → Limited (WebChange sys env r) (http_admin_process site sys env r)
  unfolding http_admin_process
  Limited-http_admin_process site known =
      let S = WebChange sys env r in
      Limited-given S _ _ _ (Limited-error_page S site _) (λ form e1.
        Limited-if S (equal form (codes "adduser")) _ _ (λ add. Limited-http_doadduser site known)
          (λ other.
            Limited-if S (equal form (codes "deluser")) _ _
              (λ del. Limited-http_dodeluser site known) (λ none. Limited-error_page S site _)))
