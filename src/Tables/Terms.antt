-- ===== src/Tables/Terms.antt =====
-- `parseterm` of pageserv/parseterms.c: a line of the terminal table.
use pageserv.Base.{ℕ, Option, none, some, [], Bytes, pos, codes}
use pageserv.Clib.{strtok}
use pageserv.Clib.Decimal.{atoi}
use pageserv.Net.{to_u32}
use pageserv.Text.{as_int}
use pageserv.Queue.Format.{fnsize}
use pageserv.Queue.Types.{Terminal}
use pageserv.Tables.{Parse, going, ◌>>=◌, finish, next_token, copy_field}
use pageserv.Tables.Users.{statlen}

abbrev pub initlen : ℕ
initlen = 80

-- DEF_INIT
abbrev pub def_init : Bytes
def_init = codes "atz"

abbrev pub no_terminal : Terminal
no_terminal = record {
  number = [];
  ts = [];
  predial = [];
  init = [];
  flags = 0;
  port = pos 0;
  max_msg_len = pos 0;
}

-- the init string, or the default where the line ends before it
unfoldable pub parse_init : Terminal → Option (Bytes × Bytes) → Parse Terminal (Bytes × Bytes)
unfolding copy_field
parse_init t none = going (def_init, [])
parse_init t (some (tmp, rest)) = do init ← copy_field t initlen tmp tmp; going (init, rest)

unfoldable pub parse_term_fields : Bytes → Bytes → Parse Terminal Terminal
unfolding next_token copy_field parse_init to_u32 as_int
parse_term_fields line delim = do
  (t1, r1) ← next_token no_terminal delim line
  number ← copy_field no_terminal statlen t1 t1
  let a = record no_terminal { number = number }
  (t2, r2) ← next_token a delim r1
  let b = record a { flags = to_u32 (atoi t2) }
  (t3, r3) ← next_token b delim r2
  ts ← copy_field b fnsize t3 t3
  let c = record b { ts = ts }
  (t4, r4) ← next_token c delim r3
  let d = record c { port = as_int (atoi t4) }
  (t5, r5) ← next_token d delim r4
  predial ← copy_field d statlen t5 t5
  let e = record d { predial = predial }
  (init, r6) ← parse_init e (strtok delim r5)
  let f = record e { init = init }
  (t7, r7) ← next_token f delim r6
  going (record f { max_msg_len = as_int (atoi t7) })

-- `none` where a field is written past its end
unfoldable pub parse_term : Bytes → Bytes → Option Terminal
unfolding parse_term_fields
parse_term line delim = finish (parse_term_fields line delim)
