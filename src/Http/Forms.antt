-- ===== src/Http/Forms.antt =====
-- The pages of the web server that take a form: http/sendpage.c, http/moduser.c and http/admin.c.
use pageserv.Base.{
  ℕ, true, false, Option, none, some, [], ◌++◌, if◌then◌else◌, Bytes, codes, length, ltb, ◌==◌, ℤ,
  pos,
}
use pageserv.Clib.{equal, to_lower, c_string}
use pageserv.Clib.Decimal.{atoi, print_int, print_hex}
use pageserv.Hours.{pack_timebits}
use pageserv.Queue.Format.{buflen, tolen}
use pageserv.Queue.Types.{User, Queuent, Env}
use pageserv.Queue.Store.{storequeue, pr_high, pr_normal}
use pageserv.Tables.Users.{namelen, idlen, statlen}
use pageserv.Mash.Talk.{Talk, Step, ◌>>=◌, ◌>>◌, fault, say, calls, keep_user, drop_user}
use pageserv.Mash.Login.{System, setpasswd, first_of}
use pageserv.Mash.Process.{no_entry}
use pageserv.Http.Args.{http_getcgiinfo}
use pageserv.Http.Reply.{Site, http_header_ok, error_page}
use pageserv.Http.Request.{Request}
use pageserv.Http.Access.{http_auth_require}

-- an argument that may be NULL, and what follows where it is
unfoldable pub given :
    Option Bytes
    → (Talk → Step (Unit {0}))
    → (Bytes → Talk → Step (Unit {0}))
    → Talk
    → Step (Unit {0})
given none otherwise f = otherwise
given (some text) otherwise f = f text

unfoldable pub sendpage_success : Site → Talk → Step (Unit {0})
sendpage_success site = do
  http_header_ok site 0
  say (
      codes
        "<html><head><title>Page accepted</title></head><body bgcolor=\"fFfFfF\"><h2>Success!</h2>Page accepted and queued.")

-- storequeue(s, q, STORE_QUIET) for a user that exists
unfoldable pub queue_page : Site → Env → Queuent → Talk → Step (Unit {0})
queue_page site env q =
    let queued : Talk → Step (Unit {0}) = (do
      ret ← calls (storequeue env q true)
      if ltb 0 ret
          then error_page site (codes "User is not accepting normal priority pages now\n\n\n")
          else sendpage_success site) in
    if env.u_exists q.to then queued else error_page site (codes "no such user")

-- q.to has TOLEN bytes and q.message BUFLEN; `addr` is ntohl(p.fsin.sin_addr.s_addr)
unfoldable pub http_sendpage : Site → Env → Request → ℕ → Talk → Step (Unit {0})
http_sendpage site env r addr =
    let wrong = error_page site (codes "somebody screwed up") in
    given (http_getcgiinfo r.largs (codes "priority")) wrong (λ pri.
      given (http_getcgiinfo r.largs (codes "id")) wrong (λ id.
        if ltb (length id) tolen
        then given (http_getcgiinfo r.largs (codes "message")) wrong (λ message.
          if ltb (length message) buflen
          then queue_page site env (record no_entry {
            priority = if to_lower (first_of pri) == b'h' then pr_high else pr_normal;
            to = id;
            message = message;
            rem_addr = addr;
          })
          else fault)
        else fault))

-- a new password of at least 5 bytes is set
unfoldable pub new_passwd : System → User → Bytes → User
new_passwd sys u passwd = if ltb (length passwd) 5 then u else setpasswd sys u passwd

abbrev passwd_note : Bytes → Bytes
passwd_note passwd =
    if length passwd == 0
    then []
    else if ltb (length passwd) 5
    then codes "Password must be at least 5 chars, not set.<br>\n"
    else codes "Password set.<br>\n"

-- the hours, where a missing argument is a NULL that atoi reads, and the store
unfoldable pub store_hours : Request → User → Talk → Step (Unit {0})
store_hours r u = given (http_getcgiinfo r.largs (codes "early")) fault (λ early.
    given (http_getcgiinfo r.largs (codes "late")) fault (λ late. do
      let times = pack_timebits (atoi early) (atoi late)
      say (
          codes "Early:  "
          ++ (print_int (atoi early)
              ++ (codes "<br>\nLate:  "
                  ++ (print_int (atoi late)
                      ++ (codes "<br>\nMask:  "
                          ++ (print_hex 8 times ++ codes "<br>\nStoring changes<br>\n"))))))
      keep_user (record u { times = times })))

-- strcmp on a missing password reads a NULL
unfoldable pub moduser_process : Site → System → Env → Request → Bytes → Talk → Step (Unit {0})
moduser_process site sys env r name =
    let changed : Talk → Step (Unit {0}) = (do
      http_header_ok site 0
      say (
          codes
            "<html><head><title>Modify user</title></head>\n<body bgcolor=\"fFfFfF\">\n<h2>Modified user "
          ++ (name ++ codes "</h2>"))
      given (http_getcgiinfo r.largs (codes "passwd1")) fault (λ passwd1.
          given (http_getcgiinfo r.largs (codes "passwd2")) fault (λ passwd2.
            let set : Talk → Step (Unit {0}) = (do
              say (passwd_note passwd1)
              store_hours r (new_passwd sys (env.getuser name) passwd1)) in
            if equal passwd1 passwd2 then set else say (codes "Passwords don't match.<br>\n")))) in
    if env.u_exists name then changed else error_page site (codes "Weird, must've raced.  Go home.")

-- `buf`, which nothing is written to, is sent at the end
unfoldable pub http_moduser : Site → System → Env → Request → Talk → Step (Unit {0})
http_moduser site sys env r = do
  http_auth_require sys env r (codes "user")
  (if length r.largs == 0
      then error_page site (codes "No data given.")
      else given r.name fault (moduser_process site sys env r))
  say (c_string env.junk_line)

abbrev hour_or_zero : Option Bytes → ℤ
hour_or_zero none = pos 0
hour_or_zero (some text) = atoi text

-- A new user: the fields that no argument gives are what the memory held. After a missing argument the
-- error is sent, and a NULL is copied.
unfoldable pub new_user : System → Env → Request → Bytes → Bytes → Bytes → Bytes → User
new_user sys env r name terminal pageid pass1 =
    setpasswd sys
      (record env.junk.u {
        name = name;
        pageid = pageid;
        statid = terminal;
        times =
            pack_timebits (hour_or_zero (http_getcgiinfo r.largs (codes "early")))
              (hour_or_zero (http_getcgiinfo r.largs (codes "late")));
      })
      pass1

unfoldable pub add_user : Site → Env → User → Talk → Step (Unit {0})
add_user site env u = do
  keep_user u
  (if site.u_exists_after u u.name
      then http_header_ok site 0
        >> say (
            codes
              "<html><head><title>Pageserv Admin</title></head>\n<body bgcolor=\"fFfFfF\">\n<h2>User successfully added</h2>")
      else error_page site (codes "Error adding user"))

-- behind the copies: without a second password the error is sent first, and then strcmp reads a NULL
unfoldable pub checked_user : Site → Env → User → Bytes → Option Bytes → Talk → Step (Unit {0})
checked_user site env u pass1 none = do
  error_page site (codes "Invalid form")
  if env.u_exists u.name then error_page site (codes "User already exists") else fault
checked_user site env u pass1 (some pass2) =
    let differ = error_page site (codes "Passwords differ.") in
    let asked = if equal pass1 pass2 then add_user site env u else differ in
    if env.u_exists u.name then error_page site (codes "User already exists") else asked

unfoldable pub http_doadduser : Site → System → Env → Request → Talk → Step (Unit {0})
http_doadduser site sys env r = given (http_getcgiinfo r.largs (codes "username")) fault (λ name.
    given (http_getcgiinfo r.largs (codes "terminal")) fault (λ terminal.
      given (http_getcgiinfo r.largs (codes "pageid")) fault (λ pageid.
        given (http_getcgiinfo r.largs (codes "passwd1")) fault (λ pass1.
          let fits =
            if ltb (length name) namelen
            then (if ltb (length pageid) idlen then ltb (length terminal) statlen else false)
            else false in
          let pass2 = http_getcgiinfo r.largs (codes "passwd2") in
          let u = new_user sys env r name terminal pageid pass1 in
          if fits then checked_user site env u pass1 pass2 else fault))))

unfoldable pub delete_user_named : Site → Bytes → Talk → Step (Unit {0})
delete_user_named site user = do
  http_header_ok site 0
  say (
      codes
        "<html><head><title>Pageserv Admin</title></head>\n<body bgcolor=\"fFfFfF\">\n<h2>Deleting a user</h2>")
  drop_user user
  say (if site.deleted user then codes "Successful" else codes "ERROR!  User not deleted.")

unfoldable pub http_dodeluser : Site → Env → Request → Talk → Step (Unit {0})
http_dodeluser site env r =
    given (http_getcgiinfo r.largs (codes "username")) (error_page site (codes "Invalid form"))
      (λ user.
        if env.u_exists user
        then delete_user_named site user
        else error_page site (codes "Can't delete a nonexistant user."))

unfoldable pub http_admin_process : Site → System → Env → Request → Talk → Step (Unit {0})
http_admin_process site sys env r =
    let invalid = error_page site (codes "Invalid form") in
    given (http_getcgiinfo r.largs (codes "formname")) invalid (λ form.
      if equal form (codes "adduser")
      then http_doadduser site sys env r
      else if equal form (codes "deluser")
      then http_dodeluser site env r
      else invalid)

unfoldable pub http_admin : Site → System → Env → Request → Talk → Step (Unit {0})
http_admin site sys env r = do
  http_auth_require sys env r (codes "admin")
  (if length r.largs == 0
      then error_page site (codes "No data sent.")
      else http_admin_process site sys env r)
  say (c_string env.junk_line)
