-- ===== src/Http/Process/Allowed.antt =====
-- Whatever is requested, the web server changes the user database only as it may.
use mathlib.Core.Path.{subst}
use pageserv.Tables.{or_default}
use pageserv.Base.{
  suc, sym, ap, ℕ, ◌≡◌, refl, ◌∙◌, inl, inr, Bool, true, false, Option, none, some, [],
  if◌then◌else◌, Bytes, codes, length, ltb, ◌==◌, Bool-cases,
}
use pageserv.Clib.{equal, equal_iff, equal_refl, c_string}
use pageserv.Queue.Types.{Env}
use pageserv.Mash.Talk.{Talk, Step, return, stop}
use pageserv.Mash.Talk.Quiet.{After, Quiet, StoredOne, Anything, Quiet-say}
use pageserv.Mash.Login.{System}
use pageserv.Http.Reply.{
  Site, footer_text, http_footer, http_error, http_header_needauth, http_header_notfound,
}
use pageserv.Http.Request.{Request}
use pageserv.Http.Access.{may_pass, http_auth_require, http_checkauth, find_realm}
use pageserv.Http.Forms.{http_sendpage, http_moduser, http_admin}
use pageserv.Http.Process.{
  Document, moduser, sendpage, admin, plain, http_parse, http_process_get, process_document,
  http_process, is_get_or_post, http_verifydoc, page_path,
}
use pageserv.Http.Process.Changes.{
  Passed, WebChange, Limited, Limited-if, Limited-given, Limited-after, Limited-before, Limited-say,
  Limited-Quiet, Limited-fault, Limited-http_sendpage, Quiet-notfound, Quiet-error, Limited-text,
  Limited-error_page,
}
use pageserv.Http.Process.Users.{Limited-auth, Limited-http_admin_process, Limited-moduser_process}

-- the administrator is asked for by name
admin_named :
    (name : Bytes)
    → equal name (codes "admin") ≡ equal (codes "admin") (codes "admin")
    → name ≡ codes "admin"
admin_named name e = (equal_iff name (codes "admin")).0 (e ∙ equal_refl (codes "admin"))

Quiet-http_auth_require :
    (sys : System) (env : Env) (r : Request) (realm : Bytes)
    → Quiet Anything (http_auth_require sys env r realm)
unfolding http_auth_require http_header_needauth
Quiet-http_auth_require sys env r realm = elim (Bool-cases (may_pass sys env realm r.name r.pass)) [
  | inl passes ↦ rw passes (λ t. (tt, refl))
  | inr refused ↦ rw refused (λ t. refl)
]

Quiet-http_checkauth :
    (site : Site) (sys : System) (env : Env) (r : Request) (path : Bytes)
    → Quiet Anything (http_checkauth site sys env r path)
unfolding http_checkauth
Quiet-http_checkauth site sys env r path = found (find_realm (suc (length path)) site path [] false)
  where
    found :
        (o : Option (Bytes × Bool))
        → Quiet Anything (elim o as (λ x. Talk → Step (Unit {0})) [
          | none ↦ stop
          | some found ↦ if found.1 then http_auth_require sys env r found.0 else return tt
        ])
    found none t = refl
    found (some (realm, true)) t = Quiet-http_auth_require sys env r realm t
    found (some (realm, false)) t = (tt, refl)

module _ (site : Site) (sys : System) (env : Env) (r : Request) where
  Limited-http_moduser : Limited (WebChange sys env r) (http_moduser site sys env r)
  unfolding http_moduser
  Limited-http_moduser =
      let S = WebChange sys env r in
      Limited-auth S sys env r (codes "user") _ (λ name known.
        Limited-before S _ _
          (Limited-if S (length r.largs == 0) _ _
            (λ empty. Limited-error_page S site (codes "No data given."))
            (λ given. Limited-given S _ _ _ (Limited-fault S) (λ name1 e.
              Limited-moduser_process sys env r site name1 (
                subst (Passed sys env r (codes "user"))
                  (ap (λ o. or_default o []) (sym known.1 ∙ e)) known))))
          (Quiet-say (c_string env.junk_line)))

  Limited-http_admin : Limited (WebChange sys env r) (http_admin site sys env r)
  unfolding http_admin
  Limited-http_admin =
      let S = WebChange sys env r in
      Limited-auth S sys env r (codes "admin") _ (λ name known.
        Limited-before S _ _
          (Limited-if S (length r.largs == 0) _ _
            (λ empty. Limited-error_page S site (codes "No data sent."))
            (λ given.
              Limited-http_admin_process sys env r site
                (subst (Passed sys env r (codes "admin")) (admin_named name known.4) known)))
          (Quiet-say (c_string env.junk_line)))

  Limited-http_parse : Limited (WebChange sys env r) (http_parse site sys env r)
  unfolding http_parse
  Limited-http_parse =
      let S = WebChange sys env r in
      Limited-after S (http_checkauth site sys env r (page_path site r)) _
        (Quiet-http_checkauth site sys env r (page_path site r))
        (λ a.
          Limited-if S (ltb 0 r.version) _ _ (λ new. Limited-say S _ _ (Limited-text S _))
            (λ old. Limited-text S _))

  Limited-http_process_get :
      (addr : ℕ) (doc : Document)
      → Limited (WebChange sys env r) (http_process_get site sys env r addr doc)
  unfolding http_process_get
  Limited-http_process_get addr moduser =
      Limited-before (WebChange sys env r) (http_moduser site sys env r) http_footer
        Limited-http_moduser (Quiet-say footer_text)
  Limited-http_process_get addr sendpage =
      Limited-before (WebChange sys env r) (http_sendpage site env r addr) http_footer
        (Limited-http_sendpage (WebChange sys env r) site env r addr) (Quiet-say footer_text)
  Limited-http_process_get addr admin =
      Limited-before (WebChange sys env r) (http_admin site sys env r) http_footer
        Limited-http_admin (Quiet-say footer_text)
  Limited-http_process_get addr plain = Limited-http_parse

  Limited-process_document :
      (addr : ℕ) (o : Option Document)
      → Limited (WebChange sys env r) (process_document site sys env r addr o)
  unfolding process_document
  Limited-process_document addr none =
      Limited-Quiet (WebChange sys env r) (http_header_notfound r.request)
        (Quiet-notfound r.request)
  Limited-process_document addr (some doc) =
      Limited-if (WebChange sys env r) (is_get_or_post r.method) _ _
        (λ known. Limited-http_process_get addr doc)
        (λ other. Limited-Quiet (WebChange sys env r) http_error Quiet-error)

-- A request to the web server makes at most one change of the user database. It stores a user who gave
-- his own name and password, is not the administrator, and changes nothing but hours and password; or,
-- where the administrator gave his name and password, it stores or deletes the user that the form names, who is new or there.
pub http_process-WebChange :
    (site : Site) (sys : System) (env : Env) (addr : ℕ) (r : Request) (t : Talk)
    → After
        (λ a t1. StoredOne (WebChange sys env r) t t1)
        (StoredOne (WebChange sys env r) t)
        (http_process site sys env addr r t)
unfolding http_process Limited
http_process-WebChange site sys env addr r t =
    Limited-process_document site sys env r addr (http_verifydoc site r) t
