-- ===== src/Http/Process.antt =====
-- http/httpprocess.c, the page that http/lexer.l sends for a file, and the web server's child of
-- http/httpmain.c.
pub mod Changes
pub mod Users
pub mod Allowed
use pageserv.Base.{
  ℕ, suc, ◌-◌, Bool, true, false, ◌||◌, Option, none, some, List, [], ◌∷◌, ◌++◌, if◌then◌else◌,
  Bytes, codes, length, ltb, ◌==◌, get_or,
}
use pageserv.Clib.{equal}
use pageserv.Queue.Types.{Env}
use pageserv.Mash.Talk.{Talk, Step, ◌>>=◌, ◌>>◌, return, stop, say}
use pageserv.Mash.Login.{System}
use pageserv.Http.Reply.{
  Site, footer_text, http_footer, http_header_ok, http_error, http_header_notfound,
}
use pageserv.Http.Request.{Request, http_parserequest}
use pageserv.Http.Access.{http_checkauth}
use pageserv.Http.Forms.{http_sendpage, http_moduser, http_admin}

-- conf.webroot and the request, with index.html behind a slash at the end
unfoldable pub page_path : Site → Request → Bytes
page_path site r =
    let path = site.webroot ++ r.request in
    if get_or path (length path - 1) 0 == b'/' then path ++ codes "index.html" else path

-- the text that the lexer collects, and the footer
unfoldable pub http_parse : Site → System → Env → Request → Talk → Step (Unit {0})
http_parse site sys env r =
    let path = page_path site r in
    let text = site.lexed (site.file path) ++ footer_text in
    let headed : Talk → Step (Unit {0}) = (do http_header_ok site (length text); say text) in
    http_checkauth site sys env r path >> (if ltb 0 r.version then headed else say text)

-- DOC_MODUSER, DOC_SENDPAGE and DOC_ADMIN, and a file of the document root
pub data Document : Type 0 where
  moduser sendpage admin plain : Document

-- `none` is the result 1: there is no such document
unfoldable pub http_verifydoc : Site → Request → Option Document
http_verifydoc site r =
    if equal r.request (codes "/moduser")
    then some moduser
    else if equal r.request (codes "/sendpage")
    then some sendpage
    else if equal r.request (codes "/admin")
    then some admin
    else if site.readable (page_path site r)
    then some plain
    else none

unfoldable pub http_process_get :
    Site → System → Env → Request → ℕ → Document → Talk → Step (Unit {0})
http_process_get site sys env r addr moduser = http_moduser site sys env r >> http_footer
http_process_get site sys env r addr sendpage = http_sendpage site env r addr >> http_footer
http_process_get site sys env r addr admin = http_admin site sys env r >> http_footer
http_process_get site sys env r addr plain = http_parse site sys env r

-- HTTP_GET and HTTP_POST, of `request_methods`
abbrev pub is_get_or_post : Option ℕ → Bool
is_get_or_post none = false
is_get_or_post (some i) = i == 0 || i == 2

unfoldable pub process_document :
    Site → System → Env → Request → ℕ → Option Document → Talk → Step (Unit {0})
process_document site sys env r addr none = http_header_notfound r.request
process_document site sys env r addr (some doc) =
    if is_get_or_post r.method then http_process_get site sys env r addr doc else http_error

unfoldable pub http_process : Site → System → Env → ℕ → Request → Talk → Step (Unit {0})
http_process site sys env addr r = process_document site sys env r addr (http_verifydoc site r)

unfoldable pub http_main : Site → System → Env → ℕ → Talk → Step (Unit {0})
http_main site sys env addr = do r ← http_parserequest env; http_process site sys env addr r; stop
