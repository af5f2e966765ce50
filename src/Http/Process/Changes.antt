-- ===== src/Http/Process/Changes.antt =====
-- What a request to the web server may change in the user database.
use pageserv.Base.{
  ℕ, ◌≡◌, refl, ◌⊎◌, inr, Bool, true, false, Option, none, some, if◌then◌else◌, Bytes, codes,
  length, ltb,
}
use pageserv.Clib.{equal}
use pageserv.Queue.Types.{User, Queuent, Env}
use pageserv.Queue.Store.{storequeue}
use pageserv.Queue.Format.{buflen, tolen}
use pageserv.Mash.Talk.{
  Change, stores, deletes, Talk, Step, ◌>>=◌, ◌>>◌, fault, say, calls, keep_user, drop_user,
}
use pageserv.Mash.Talk.Quiet.{
  Quiet, Stores, Anything, Quiet-Stores, Quiet-say, Quiet-calls, Stores-after, Stores-before,
}
use pageserv.Mash.Login.{System}
use pageserv.Mash.Login.Own.{Own}
use pageserv.Http.Args.{http_getcgiinfo}
use pageserv.Http.Reply.{Site, http_error, http_header_needauth, http_header_notfound, error_page}
use pageserv.Http.Request.{Request}
use pageserv.Http.Forms.{given, sendpage_success, queue_page, http_sendpage}

-- The request's name and password are those of an account: for the realm `admin` of the administrator,
-- and for another realm of somebody else.
abbrev pub Passed : System → Env → Request → Bytes → Bytes → Type 0
Passed sys env r realm name =
    (pass : Bytes) × (r.name ≡ some name)
    × (r.pass ≡ some pass)
    × (env.u_exists name ≡ true)
    × (equal name (codes "admin") ≡ equal realm (codes "admin"))
    × (ltb 0 (length (env.getuser name).passwd) ≡ true)
    × (equal (env.getuser name).passwd (sys.crypt pass (env.getuser name).passwd) ≡ true)

-- A user is stored by himself, with only hours and password changed, or is a new one of the
-- administrator's form; one is deleted by the administrator, who named him in the form.
abbrev pub WebChange : System → Env → Request → Change → Type 0
WebChange sys env r (stores v) =
    ((name : Bytes) × Passed sys env r (codes "user") name × Own (env.getuser name) v)
    ⊎ (Passed sys env r (codes "admin") (codes "admin")
        × (env.u_exists v.name ≡ false)
        × (http_getcgiinfo r.largs (codes "username") ≡ some v.name))
WebChange sys env r (deletes name) =
    Passed sys env r (codes "admin") (codes "admin")
    × (env.u_exists name ≡ true)
    × (http_getcgiinfo r.largs (codes "username") ≡ some name)

-- no value is returned
abbrev pub Nothing : Unit {0} → Type 0
Nothing a = ⊥

-- the changes of a page are as S says, and at most one
unfoldable pub Limited : (Change → Type 0) → (Talk → Step (Unit {0})) → Type 0
Limited S m = Stores S m

module _ (S : Change → Type 0) where
  pub Limited-Stores : (m : Talk → Step (Unit {0})) → Stores S m → Limited S m
  unfolding Limited
  Limited-Stores m h = h

  pub Limited-if :
      (b : Bool) (m n : Talk → Step (Unit {0}))
      → (b ≡ true → Limited S m)
      → (b ≡ false → Limited S n)
      → Limited S (if b then m else n)
  Limited-if true m n h k = h refl
  Limited-if false m n h k = k refl

  pub Limited-given :
      (o : Option Bytes) (m : Talk → Step (Unit {0})) (f : Bytes → Talk → Step (Unit {0}))
      → Limited S m
      → ((text : Bytes) → o ≡ some text → Limited S (f text))
      → Limited S (given o m f)
  unfolding given
  Limited-given none m f h k = h
  Limited-given (some text) m f h k = k text refl

  -- behind what changes nothing, and before it
  pub Limited-after :
      {A : Type 0} (m : Talk → Step A) (f : A → Talk → Step (Unit {0}))
      → Quiet Anything m
      → ((a : A) → Limited S (f a))
      → Limited S (m >>= f)
  unfolding Limited
  Limited-after m f h k = Stores-after Anything S m f h (λ a x. k a)

  pub Limited-before :
      (m n : Talk → Step (Unit {0})) → Limited S m → Quiet Anything n → Limited S (m >> n)
  unfolding Limited
  Limited-before m n h k = Stores-before Anything S m (λ a. n) h (λ a. k)

  -- behind the end of the process nothing is done
  pub Limited-stop : (m n : Talk → Step (Unit {0})) → Quiet Nothing m → Limited S (m >> n)
  unfolding Limited
  Limited-stop m n h = Stores-after Nothing S m (λ a. n) h (λ a x. elim x [ ])

  pub Limited-say :
      (txt : Bytes) (m : Talk → Step (Unit {0})) → Limited S m → Limited S (say txt >> m)
  Limited-say txt m h = Limited-after (say txt) (λ a. m) (Quiet-say txt) (λ a. h)

  pub Limited-Quiet : (m : Talk → Step (Unit {0})) → Quiet Anything m → Limited S m
  unfolding Limited
  Limited-Quiet m h = Quiet-Stores Anything S m h

  pub Limited-fault : Limited S fault
  unfolding Limited
  Limited-fault t = tt

  pub Limited-text : (txt : Bytes) → Limited S (say txt)
  Limited-text txt = Limited-Quiet (say txt) (Quiet-say txt)

  pub Limited-keep_user : (u : User) → S (stores u) → Limited S (keep_user u)
  unfolding Limited
  Limited-keep_user u h t = inr (stores u, h, refl)

  pub Limited-drop_user : (name : Bytes) → S (deletes name) → Limited S (drop_user name)
  unfolding Limited
  Limited-drop_user name h t = inr (deletes name, h, refl)

pub Quiet-error_page : (site : Site) (message : Bytes) → Quiet Anything (error_page site message)
unfolding error_page
Quiet-error_page site message t = (tt, refl)

Quiet-sendpage_success : (site : Site) → Quiet Anything (sendpage_success site)
unfolding sendpage_success
Quiet-sendpage_success site t = (tt, refl)

pub Quiet-needauth :
    (authname request : Bytes) → Quiet Nothing (http_header_needauth authname request)
unfolding http_header_needauth
Quiet-needauth authname request t = refl

pub Quiet-notfound : (request : Bytes) → Quiet Anything (http_header_notfound request)
unfolding http_header_notfound
Quiet-notfound request t = refl

pub Quiet-error : Quiet Anything http_error
unfolding http_error
Quiet-error t = refl

module _ (S : Change → Type 0) (site : Site) where
  pub Limited-error_page : (message : Bytes) → Limited S (error_page site message)
  Limited-error_page message =
      Limited-Quiet S (error_page site message) (Quiet-error_page site message)

  Limited-queue_page : (env : Env) (q : Queuent) → Limited S (queue_page site env q)
  unfolding queue_page
  Limited-queue_page env q =
      Limited-if S (env.u_exists q.to) _ _
        (λ known.
          Limited-after S (calls (storequeue env q true)) _ (Quiet-calls (storequeue env q true))
            (λ ret.
              Limited-if S (ltb 0 ret) _ _ (λ e. Limited-error_page _)
                (λ e. Limited-Quiet S _ (Quiet-sendpage_success site))))
        (λ stranger. Limited-error_page _)

  pub Limited-http_sendpage :
      (env : Env) (r : Request) (addr : ℕ) → Limited S (http_sendpage site env r addr)
  unfolding http_sendpage
  Limited-http_sendpage env r addr = Limited-given S _ _ _ (Limited-error_page _) (λ pri e1.
      Limited-given S _ _ _ (Limited-error_page _) (λ id e2.
        Limited-if S (ltb (length id) tolen) _ _
          (λ fits. Limited-given S _ _ _ (Limited-error_page _) (λ message e3.
            Limited-if S (ltb (length message) buflen) _ _ (λ short. Limited-queue_page env _)
              (λ long. Limited-fault S)))
          (λ long. Limited-fault S)))
