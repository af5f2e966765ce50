-- ===== src/Snpp/Main/Trust.antt =====
-- What holds of the server's variables after any lines: `_snpp_main` of snpp/snppmain.c.
use mathlib.Core.List.{Mem}
use pageserv.Base.{◌>>=◌, ◌≤◌, ◌≡◌, true, Option, none, some, List, Bytes, length}
use pageserv.Queue.Types.{Env}
use pageserv.Snpp.Session.{Session}
use pageserv.Snpp.Session.Invariant.{IsValid}
use pageserv.Snpp.Hold.{snpp_arg}
use pageserv.Snpp.Login.{System, split_login}
use pageserv.Snpp.Main.{Conn, Setup, snpp_parse, snpp_logi}

-- A name that the session may act for: its user exists, and the client sent a LOGIn line with this name
-- before the first space, and behind that space a password that encrypts to the stored one.
abbrev pub Trusted : System → Env → List Bytes → Option Bytes → Type 0
Trusted sys env lines none = Unit
Trusted sys env lines (some name) =
    (env.u_exists name ≡ true)
    × (13 ≤ length (env.getuser name).passwd)
    × ((buf : Bytes) × Mem buf lines
        × (snpp_parse buf ≡ some snpp_logi)
        × ((split_login (snpp_arg buf)).0 ≡ name)
        × ((env.getuser name).passwd
            ≡ sys.crypt (split_login (snpp_arg buf)).1 (env.getuser name).passwd))

pub record IsSound (p : Setup) (lines : List Bytes) (s : Session) : Type 0 where
  pub valid : IsValid s
  pub trusted : Trusted p.sys p.env lines s.logname

-- what a pass must leave sound
Leaves : Setup → List Bytes → Option Conn → Type 0
Leaves p lines none = Unit
Leaves p lines (some c) = IsSound p lines c.session
