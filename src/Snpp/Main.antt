-- ===== src/Snpp/Main.antt =====
-- The server's loop: `_snpp_main` of snpp/snppmain.c, `snpp_parse` of snpp/snppparse.c, and `snpp_help`
-- of snpp/snppmisc.c. What gettextcr reads from the socket is the list of lines.
pub mod Trust
pub mod Tries
use pageserv.Base.{
  ◌>>=◌, ℕ, zero, suc, ◌+◌, ◌≡◌, refl, Bool, true, false, Option, none, some, List, [], ◌∷◌, ◌++◌,
  if◌then◌else◌, Bytes, ℤ, pos, ltb_ℤ, eq_ℤ, codes, not,
}
use pageserv.Clib.{starts_with_nocase}
use pageserv.Queue.Types.{Env, World}
use pageserv.Queue.Store.{puttext}
use pageserv.Snpp.Session.{
  Session, initial, snpp_setpageid, snpp_setmess, snpp_setpriority, snpp_cleanstuff, snpp_send,
}
use pageserv.Snpp.Hold.{Calendar, snpp_arg, snpp_holduntil}
use pageserv.Snpp.Login.{System, snpp_login, snpp_del_user_q, snpp_show_user_q}

-- SNPP_PAGE to SNPP_DEQUE
pub data Method : Type 0 where
  snpp_page snpp_mess snpp_rese snpp_send_now snpp_quit snpp_help_me snpp_data snpp_logi : Method
  snpp_leve snpp_aler snpp_cove snpp_hold snpp_call snpp_subj snpp_2way snpp_ping snpp_expt : Method
  snpp_noqueue snpp_ackr snpp_rtyp snpp_mcre snpp_msta snpp_ktag : Method
  snpp_priority snpp_showq snpp_deque : Method

abbrev pub methodnames : List (Bytes × Method)
methodnames =
    (codes "PAGE", snpp_page)
    ∷ (codes "MESS", snpp_mess)
    ∷ (codes "RESE", snpp_rese)
    ∷ (codes "SEND", snpp_send_now)
    ∷ (codes "QUIT", snpp_quit)
    ∷ (codes "HELP", snpp_help_me)
    ∷ (codes "DATA", snpp_data)
    ∷ (codes "LOGI", snpp_logi)
    ∷ (codes "LEVE", snpp_leve)
    ∷ (codes "ALER", snpp_aler)
    ∷ (codes "COVE", snpp_cove)
    ∷ (codes "HOLD", snpp_hold)
    ∷ (codes "CALL", snpp_call)
    ∷ (codes "SUBJ", snpp_subj)
    ∷ (codes "2WAY", snpp_2way)
    ∷ (codes "PING", snpp_ping)
    ∷ (codes "EXPT", snpp_expt)
    ∷ (codes "NOQUEUE", snpp_noqueue)
    ∷ (codes "ACKR", snpp_ackr)
    ∷ (codes "RTYP", snpp_rtyp)
    ∷ (codes "MCRE", snpp_mcre)
    ∷ (codes "MSTA", snpp_msta)
    ∷ (codes "KTAG", snpp_ktag)
    ∷ (codes "PRIORITY", snpp_priority)
    ∷ (codes "SHOWQ", snpp_showq)
    ∷ (codes "DEQUE", snpp_deque)
    ∷ []

-- the loop of snpp_parse; -1 is `none`
find_method : Bytes → List (Bytes × Method) → Option Method
find_method cmd [] = none
find_method cmd ((name, m) ∷ rest) =
    let later = find_method cmd rest in if starts_with_nocase cmd name then some m else later

pub snpp_parse : Bytes → Option Method
unfolding find_method
snpp_parse cmd = find_method cmd methodnames

abbrev help_text : List Bytes
help_text =
    codes "Welcome to Dustin's Pager Server SNPP Module."
    ∷ codes "The following commands are recognized here:\n214 "
    ∷ codes "HELP"
    ∷ codes "\tThis help"
    ∷ codes "PAGE <id>"
    ∷ codes "\tPage goes to named ID"
    ∷ codes "MESSage <message>"
    ∷ codes "\tThe message to send"
    ∷ codes "PRIORITY"
    ∷ codes "\tSet the priority of the message"
    ∷ codes "HOLDuntil YYMMDDHHMMSS[+/-GMT]"
    ∷ codes " ...or"
    ∷ codes "HOLDuntil YYYYMMDDHHMMSS[+/-GMT]"
    ∷ codes "\tDelay delivery until the given time"
    ∷ codes "SEND"
    ∷ codes "\tSend the queued message"
    ∷ codes "RESEt"
    ∷ codes "\tReset all input crap, get ready to go again."
    ∷ codes "LOGIn <username> <passwd>"
    ∷ codes "\tLogin for special features, etc..."
    ∷ codes "QUIT"
    ∷ codes "\tExits"
    ∷ []

snpp_helpsend : Bytes → World → World
unfolding puttext
snpp_helpsend message w = puttext (codes "214 " ++ (message ++ codes "\n")) w

help_lines : List Bytes → World → World
unfolding snpp_helpsend
help_lines [] w = w
help_lines (message ∷ rest) w = help_lines rest (snpp_helpsend message w)

pub snpp_help : World → World
unfolding help_lines puttext
snpp_help w = puttext (codes "250 End of help\n") (help_lines help_text w)

-- the loop's variables, with the session's and the queue's
pub record Conn : Type 0 where
  pub session : Session
  pub world : World
  pub tries : ℕ
  pub going : Bool

-- what one connection reads: the C library, the configuration, and the client's address
pub record Setup : Type 0 where
  pub sys : System
  pub cal : Calendar
  pub env : Env
  pub addr : ℕ

unfoldable pub maxtries : Env → ℤ
maxtries env =
    let n = env.lookup_int (codes "modules.snpp.maxtries") in if eq_ℤ n (pos 0) then pos 250 else n

-- a session and a state put back
abbrev pub with_both : Conn → Session × World → Conn
with_both c (s, w) = record c { session = s; world = w }

abbrev pub with_login : Conn → Option Bytes × World → Conn
with_login c (name, w) = record c { session = record c.session { logname = name }; world = w }

say : Conn → Bytes → Conn
unfolding puttext
say c txt = record c { world = puttext txt c.world }

-- the cases of the switch
unfoldable pub dispatch : Setup → Option Method → Bytes → Conn → Option Conn
unfolding say snpp_help puttext
dispatch p (some snpp_help_me) buf c = some (record c { world = snpp_help c.world })
dispatch p (some snpp_quit) buf c =
    some (record (say c (codes "221 Alrighty, then, goodbye\n")) { going = false })
dispatch p (some snpp_page) buf c =
    some (with_both c (snpp_setpageid p.env (snpp_arg buf) c.session c.world))
dispatch p (some snpp_mess) buf c =
    some (with_both c (snpp_setmess (snpp_arg buf) c.session c.world))
dispatch p (some snpp_send_now) buf c = do
  r ← snpp_send p.env p.addr c.session c.world
  some (with_both c r)
dispatch p (some snpp_rese) buf c = some (record c {
  session = snpp_cleanstuff c.session;
  world = puttext (codes "250 Reset OK\n") c.world;
  tries = c.tries + 1;
})
dispatch p (some snpp_priority) buf c =
    some (with_both c (snpp_setpriority (snpp_arg buf) c.session c.world))
dispatch p (some snpp_hold) buf c =
    some (with_both c (snpp_holduntil p.cal (snpp_arg buf) c.session c.world))
dispatch p (some snpp_logi) buf c =
    some (with_login c (snpp_login p.sys p.env (snpp_arg buf) c.world))
dispatch p (some snpp_showq) buf c = do
  w ← snpp_show_user_q p.sys p.env c.session.logname (snpp_arg buf) c.world
  some (record c { world = w })
dispatch p (some snpp_deque) buf c =
    some (record c { world = snpp_del_user_q p.env c.session.logname (snpp_arg buf) c.world })
dispatch p none buf c = some (say c (codes "500 Unknown command\n"))
dispatch p (some _) buf c = some (say c (codes "500 Command not implemented\n"))

-- the test behind the switch
unfoldable pub limit_tries : Env → Conn → Conn
unfolding say maxtries
limit_tries env c =
    if ltb_ℤ (maxtries env) (pos c.tries)
    then record (say c (codes "421 Too many pages, call back later\n")) { going = false }
    else c

-- one pass of the loop
unfoldable pub serve_line : Setup → Bytes → Conn → Option Conn
unfolding dispatch limit_tries snpp_parse
serve_line p buf c = do d ← dispatch p (snpp_parse buf) buf c; some (limit_tries p.env d)

-- the loop, on the lines that the client sends
unfoldable pub serve : Setup → List Bytes → Conn → Option Conn
unfolding serve_line
serve p [] c = some c
serve p (buf ∷ rest) c = if not c.going then some c else do d ← serve_line p buf c; serve p rest d

-- behind the greeting
unfoldable pub connect : Bytes → World → Conn
unfolding puttext
connect version w = record {
  session = initial;
  world = puttext (codes "220 Dustin's SNPP gateway version " ++ (version ++ codes " ready\n")) w;
  tries = 0;
  going = true;
}
