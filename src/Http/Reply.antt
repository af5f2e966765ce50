-- ===== src/Http/Reply.antt =====
-- http/httpmisc.c: what the web server answers. puttext calls that follow each other are one `say` here.
use pageserv.Base.{[], ℕ, ◌++◌, if◌then◌else◌, Bytes, codes, ltb, Bool, Option}
use pageserv.Clib.Decimal.{print_nat}
use pageserv.Queue.Types.{User}
use pageserv.Mash.Talk.{Talk, Step, ◌>>◌, stop, say}

-- What the web server reads: VERSION, conf.webroot, access(path, R_OK) == 0, the text of a file, what the
-- lexer makes of the text of a page, and what u_exists says behind a storeuser and deleteuser returns.
pub record Site : Type 0 where
  pub version : Bytes
  pub webroot : Bytes
  pub readable : Bytes → Bool
  pub file : Bytes → Option Bytes
  pub lexed : Option Bytes → Bytes
  pub u_exists_after : User → Bytes → Bool
  pub deleted : Bytes → Bool

abbrev pub footer_text : Bytes
footer_text =
    codes
      "<p><hr width=\"50%\" align=\"left\">\n<font size=\"-2\">Copyright &copy;  1997  Dustin Sallings</font>\n</body></html>\n"

abbrev pub http_footer : Talk → Step (Unit {0})
http_footer = say footer_text

abbrev pub http_header_ok : Site → ℕ → Talk → Step (Unit {0})
http_header_ok site size =
    let content =
      if ltb 0 size then codes "Content-Length: " ++ (print_nat size ++ codes "\n") else [] in
    say (
      codes "HTTP/1.1 200 OK\nContent-type: text/html\nServer: Dustin's Pager Server "
      ++ (site.version ++ (codes "\n" ++ (content ++ codes "\n"))))

unfoldable pub http_error : Talk → Step (Unit {0})
http_error = do
  say (
      codes
        "HTTP/1.1 501 Unimplemented\n\n<h1>501 Not Implemented</h1>Sorry, but that's not here yet.\n")
  stop

-- r.request is `request`
unfoldable pub http_header_needauth : Bytes → Bytes → Talk → Step (Unit {0})
http_header_needauth authname request = do
  say (
      codes "HTTP/1.0 401 Auth required\nWWW-Authenticate: Basic realm=\""
      ++ (authname
          ++ (codes
                "\"\nContent-type: text/html\n\n<html><head><title>401 Auth Required</title><body \nbgcolor=\"#fFfFfF\"><h2>401 Auth Required</h2>I'm sorry,but you do not have the proper authentication to get to "
              ++ (request ++ codes ".  Now please go away.\n"))))
  http_footer
  stop

unfoldable pub http_header_notfound : Bytes → Talk → Step (Unit {0})
http_header_notfound request = do
  say (
      codes
        "HTTP/1.0 404 Not Found\nContent-type: text/html\n\n<html><head><title>404 Not Found</title><body \nbgcolor=\"#fFfFff\"><h2>404 Not Found</h2>I'm sorry,but the document you requested:  "
      ++ (request ++ codes " Doesn't exist.  Thank you, now go away\n"))
  http_footer
  stop

-- the error page that sendpage.c, moduser.c and admin.c each have
unfoldable pub error_page : Site → Bytes → Talk → Step (Unit {0})
error_page site message = do
  http_header_ok site 0
  say (
      codes "<html><head><title>Error:  "
      ++ (message ++ (codes "</title></head><body bgcolor=\"fFfFfF\"><h2>Error:</h2>" ++ message)))
