-- ===== src/Http/Access.antt =====
-- http/httpauth.c: who may see a page.
pub mod Root
use pageserv.Base.{
  ℕ, zero, suc, ◌-◌, Bool, true, false, ◌&&◌, ◌||◌, not, Option, none, some, List, [], ◌∷◌, ◌++◌,
  take, if◌then◌else◌, Bytes, codes, length, ltb, ◌==◌, get_or,
}
use pageserv.Clib.{equal, c_string}
use pageserv.Queue.Types.{User, Env}
use pageserv.Mash.Talk.{Talk, Step, ◌>>=◌, ◌>>◌, return, stop}
use pageserv.Mash.Login.{System}
use pageserv.Http.Reply.{Site, http_header_needauth}
use pageserv.Http.Request.{Request}

-- the tests of _http_auth_require: each that fails asks for a password and ends the process
unfoldable pub may_pass : System → Env → Bytes → Option Bytes → Option Bytes → Bool
unfolding equal
may_pass sys env authname none pass = false
may_pass sys env authname (some name) none = false
may_pass sys env authname (some name) (some pass) =
    let admin = codes "admin" in
    let u = env.getuser name in
    let allowed = if equal authname admin then equal name admin else not (equal name admin) in
    let right = equal u.passwd (sys.crypt pass u.passwd) in
    env.u_exists name && (allowed && (ltb 0 (length u.passwd) && right))

unfoldable pub http_auth_require : System → Env → Request → Bytes → Talk → Step (Unit {0})
http_auth_require sys env r authname =
    if may_pass sys env authname r.name r.pass
    then return tt
    else http_header_needauth authname r.request

-- the last slash up to position i, 0 where there is none but the first byte
unfoldable pub slash_from : ℕ → Bytes → ℕ
slash_from zero s = 0
slash_from (suc i) s =
    let before = slash_from i s in if get_or s (suc i) 0 == b'/' then suc i else before

unfoldable pub striptopath : Bytes → Bytes
unfolding slash_from
striptopath pathname =
    let i = slash_from (length pathname - 1) pathname in
    if ltb 0 i then take i pathname else pathname

-- fgets(authname, 180, f)
unfoldable pub first_line : ℕ → Bytes → Bytes
first_line zero s = []
first_line (suc n) [] = []
first_line (suc n) (c ∷ s) = let rest = first_line n s in if c == b'\n' then c ∷ [] else c ∷ rest

unfoldable pub up_to_space : Bytes → Bytes
up_to_space [] = []
up_to_space (c ∷ s) =
    let rest = up_to_space s in
    if c == b'\n' || (c == b'\r' || (c == b' ' || c == 0)) then [] else c ∷ rest

-- the realm of an .htaccess file: its first line up to white space, unless it begins with that
unfoldable pub realm_of : Bytes → Bytes
unfolding first_line up_to_space c_string
realm_of text =
    let authname = first_line 179 text in
    let realm = up_to_space authname in if ltb 0 (length realm) then realm else c_string authname

-- What the loop over the directories finds: `none` where it goes on until the alarm, else the realm and
-- whether there was a file. Fuel for more than the bytes of the path lets it come to its root.
unfoldable pub find_realm : ℕ → Site → Bytes → Bytes → Bool → Option (Bytes × Bool)
unfolding striptopath realm_of equal
find_realm zero site pathname authname needauth = none
find_realm (suc fuel) site pathname authname needauth =
    let up = striptopath pathname in
    let file = site.file (up ++ codes "/.htaccess") in
    let next : Option (Bytes × Bool) = elim file [
      | none ↦ find_realm fuel site up authname needauth
      | some text ↦ find_realm fuel site up (realm_of text) true
    ] in
    if equal authname [] && not (equal pathname site.webroot)
    then next
    else some (authname, needauth)

unfoldable pub http_checkauth : Site → System → Env → Request → Bytes → Talk → Step (Unit {0})
http_checkauth site sys env r path = elim (find_realm (suc (length path)) site path [] false) [
  | none ↦ stop
  | some found ↦ if found.1 then http_auth_require sys env r found.0 else return tt
]
