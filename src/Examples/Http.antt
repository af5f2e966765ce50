-- ===== src/Examples/Http.antt =====
-- The theorems on the web server at concrete inputs.
use pageserv.Base.{
  ◌≡◌, suc, refl, Bool, true, false, some, none, [], ◌∷◌, ◌++◌, Bytes, arith, codes, length, pos,
}
use pageserv.Clib.Decimal.{atoi}
use pageserv.Hours.{pack_timebits}
use pageserv.Mash.Talk.{Talk, stores}
use pageserv.Mash.Talk.Quiet.{After, StoredOne}
use pageserv.Http.Args.{http_getcgiinfo}
use pageserv.Http.Reply.{Site}
use pageserv.Http.Request.{Request, Reading, empty_request, read_lines}
use pageserv.Http.Request.Rounds.{Ends, read_lines-Ends}
use pageserv.Http.Access.{http_auth_require, may_pass, find_realm}
use pageserv.Http.Access.Root.{find_realm-ends}
use pageserv.Http.Forms.{given, new_passwd, store_hours, moduser_process, http_moduser}
use pageserv.Http.Process.{http_verifydoc, process_document, http_process_get, http_process}
use pageserv.Http.Process.Changes.{WebChange}
use pageserv.Http.Process.Allowed.{http_process-WebChange}
use pageserv.Examples.{office, start, dustin}
use pageserv.Examples.Mash.{open_system, changes_behind}

abbrev web : Site
web = record {
  version = codes "1.0";
  webroot = codes "/www";
  readable = λ path. false;
  file = λ path. none;
  lexed = λ text. [];
  u_exists_after = λ u name. true;
  deleted = λ name. true;
}

-- dustin asks for the hours 8 to 17, and for no new password
abbrev asked : Request
asked = record {
  request = codes "/moduser";
  name = some (codes "dustin");
  pass = some (codes "secret");
  args = none;
  largs =
      (codes "passwd1", [])
      ∷ (codes "passwd2", [])
      ∷ (codes "early", codes "8")
      ∷ (codes "late", codes "17")
      ∷ [];
  content = pos 0;
  version = 1;
  method = some 0;
}

abbrev browser : Talk
browser = record { world = start; input = []; changes = [] }

http_process-WebChange_example :
    After
      (λ a t1. StoredOne (WebChange open_system office asked) browser t1)
      (StoredOne (WebChange open_system office asked) browser)
      (http_process web open_system office 0 asked browser)
http_process-WebChange_example = http_process-WebChange web open_system office 0 asked browser

hours_stored :
    changes_behind (http_process web open_system office 0 asked browser)
    ≡ stores (record dustin { times = pack_timebits (pos 8) (pos 17) }) ∷ []
unfolding http_process http_verifydoc process_document http_process_get http_moduser
    http_auth_require may_pass moduser_process given http_getcgiinfo store_hours new_passwd atoi
hours_stored = refl

abbrev lines : Bytes
lines = codes "GET /sendpage?id=a HTTP/1.0\n\n\n"

abbrev first : Reading
first = record { r = empty_request; buf2 = none; finished = false }

read_lines-Ends_example :
    Ends office first
      (codes "GET / HTTP/1.0")
      (record browser { input = lines })
      (read_lines 40 office first (codes "GET / HTTP/1.0") (record browser { input = lines }))
read_lines-Ends_example =
    read_lines-Ends 40 office first (codes "GET / HTTP/1.0") (record browser { input = lines })
      (omega arith)

find_realm-ends_example :
    (found : Bytes × Bool) × (find_realm
        (suc (length (codes "/www" ++ b'/' ∷ codes "a/b.html")))
        web
        (codes "/www" ++ b'/' ∷ codes "a/b.html")
        []
        false
      ≡ some found)
find_realm-ends_example = find_realm-ends web (codes "a/b.html") (omega arith)
