-- ===== src/Http/Request.antt =====
-- http/httpparse.c: a request is read, line by line.
pub mod Rounds
use pageserv.Base.{
  ℕ, zero, suc, ◌+◌, Bool, true, false, ◌||◌, not, Option, none, some, List, [], ◌∷◌, ◌++◌, take,
  drop, if◌then◌else◌, Bytes, codes, length, ltb, leb, ◌==◌, ℤ, pos, negsuc,
}
use pageserv.Clib.{starts_with, c_string}
use pageserv.Clib.Decimal.{atoi}
use pageserv.Queue.Types.{Env}
use pageserv.Mash.Talk.{
  Talk, Step, going, ended, faulted, ◌>>=◌, ◌>>◌, return, stop, fault, hear, held,
}
use pageserv.Http.Auth.{http_authdecode}
use pageserv.Http.Args.{http_parseargs}

-- struct http_request, where NULL and the method -1 are `none`; nargs is the length of largs
pub record Request : Type 0 where
  pub request : Bytes
  pub name : Option Bytes
  pub pass : Option Bytes
  pub args : Option Bytes
  pub largs : List (Bytes × Bytes)
  pub content : ℤ
  pub version : ℕ
  pub method : Option ℕ

abbrev pub empty_request : Request
empty_request = record {
  request = [];
  name = none;
  pass = none;
  args = none;
  largs = [];
  content = pos 0;
  version = 0;
  method = none;
}

-- HTTP_GET and HTTP_POST are 0 and 2
abbrev pub request_methods : List Bytes
request_methods =
    codes "GET"
    ∷ codes "PUT"
    ∷ codes "POST"
    ∷ codes "HEAD"
    ∷ codes "DELETE"
    ∷ codes "TRACE"
    ∷ codes "OPTIONS"
    ∷ []

-- the first method with which the line begins, counted from i, and the length of its name
unfoldable pub method_of : ℕ → List Bytes → Bytes → Option (ℕ × ℕ)
unfolding starts_with
method_of i [] buf = none
method_of i (name ∷ names) buf =
    let more = method_of (suc i) names buf in
    if starts_with name buf then some (i, length name) else more

-- The bytes from position j: NULs where the question marks are and where the first space is, the
-- position behind the last question mark, and whether there is a space.
unfoldable pub cut_line : ℕ → Bytes → Bytes × Option ℕ × Bool
cut_line j [] = ([], none, false)
cut_line j (c ∷ s) =
    let (text, query, spaced) = cut_line (suc j) s in
    let last : Option ℕ = elim query [ none ↦ some (suc j) | some k ↦ some k ] in
    if c == b' '
    then (0 ∷ s, none, true)
    else if c == b'?'
    then (0 ∷ text, last, spaced)
    else (c ∷ text, query, spaced)

-- What the loop keeps: the request, the position buf2 - buf, and whether it has finished.
pub record Reading : Type 0 where
  pub r : Request
  pub buf2 : Option ℕ
  pub finished : Bool

-- r.args = strdup(buf2); a position behind the text reads what the memory held
unfoldable pub args_at : Bytes → Option ℕ → Option Bytes → Option (Option Bytes)
unfolding c_string
args_at buf none args = some args
args_at buf (some k) args = if leb k (length buf) then some (some (c_string (drop k buf))) else none

-- the line, behind the loop over the methods, and what it has made of the request
unfoldable pub method_line : Reading → Bytes → Option (ℕ × ℕ) → Option (Reading × Bytes)
unfolding cut_line args_at
method_line st buf none = some (st, buf)
method_line st buf (some (i, len)) =
    let start = suc len in
    let (text, query, spaced) = cut_line start (drop start buf) in
    let cut = take start buf ++ text in
    let buf2 : Option ℕ = elim query [ none ↦ st.buf2 | some k ↦ some k ] in
    let kept : Option (Reading × Bytes) = elim (args_at cut buf2 st.r.args) [
      | none ↦ none
      | some args ↦ some (
        record {
          r = record st.r {
            request = c_string text;
            args = args;
            version = if spaced then 1 else 0;
            method = some i;
          };
          buf2 = buf2;
          finished = if spaced then st.finished else true;
        },
        cut,
      )
    ] in
    if leb start (length buf) then kept else none

abbrev pub auth_header : Bytes
auth_header = codes "Authorization: Basic "

-- the loop over miscnames; the length of a header that is not there stays
unfoldable pub misc_line : Reading → Bytes → Option Reading
unfolding starts_with http_authdecode
misc_line st buf =
    let counted = record st { r = record st.r { content = atoi (drop 16 buf) } } in
    let named : Option Reading = elim (http_authdecode (drop (length auth_header) buf)) [
      | none ↦ none
      | some user ↦ some (record st { r = record st.r { name = some user.0; pass = some user.1 } })
    ] in
    if starts_with (codes "Content-Length: ") buf || starts_with (codes "Content-length: ") buf
    then some counted
    else if starts_with auth_header buf
    then named
    else some st

-- with what the line's buffer then holds
unfoldable pub one_line : Reading → Bytes → Option (Reading × Bytes)
unfolding method_line misc_line method_of
one_line st buf = elim (method_line st buf (method_of 0 request_methods buf)) [
  | none ↦ none
  | some kept ↦ elim (misc_line kept.0 (c_string kept.1)) [
    | none ↦ none
    | some st1 ↦ some (st1, kept.1)
  ]
]

-- recv(s, &tmp, 1, 0)
abbrev pub eat_byte : Talk → Step (Unit {0})
eat_byte t = going tt (record t { input = drop 1 t.input })

-- if(!finished): the next line, of which an empty one is the last
unfoldable pub next_line :
    Env → Bytes → Reading → (Bytes → Talk → Step Request) → Talk → Step Request
unfolding hear c_string
next_line env line st more =
    let next : Talk → Step Request = (do
      buf ← hear (held env line)
      let last : Talk → Step Request = (do eat_byte; return st.r)
      if length (c_string buf) == 0 then last else more buf) in
    if st.finished then return st.r else next

unfoldable pub go_on :
    Env → (Reading → Bytes → Talk → Step Request) → Option (Reading × Bytes) → Talk → Step Request
unfolding next_line
go_on env more none = fault
go_on env more (some (st, line)) = next_line env line st (more st)

-- The rounds of the loop from a line on. Each takes a byte or more of the input, so that fuel for more
-- than its bytes is enough.
unfoldable pub read_lines : ℕ → Env → Reading → Bytes → Talk → Step Request
unfolding one_line go_on c_string
read_lines zero env st buf = fault
read_lines (suc fuel) env st buf = go_on env (read_lines fuel env) (one_line st (c_string buf))

-- the body of a POST; at the end of the input the loop over recv goes on until the alarm ends the process
unfoldable pub read_body : Request → Talk → Step Request
unfolding c_string
read_body r t =
    let kept : ℕ → Step Request = (λ n.
      going (record r { args = some (c_string (take n t.input)) })
        (record t { input = drop n t.input })) in
    elim r.content [
      | pos n ↦ if ltb (length t.input) n then ended t else kept n
      | negsuc n ↦ faulted
    ]

-- _http_parseargs on what is in r->args
unfoldable pub parse_args : Request → Talk → Step Request
unfolding http_parseargs
parse_args r = elim r.args [
  | none ↦ return r
  | some args ↦ elim (http_parseargs r.largs args) [
    | none ↦ fault
    | some largs ↦ return (record r { largs = largs })
  ]
]

unfoldable pub http_body : Request → Talk → Step Request
unfolding read_body parse_args
http_body r = elim r.method [
  | none ↦ parse_args r
  | some i ↦ if i == 2 then read_body r >>= parse_args else parse_args r
]

unfoldable pub http_parserequest : Env → Talk → Step Request
unfolding read_lines http_body hear
http_parserequest env = do
  buf ← hear env.junk_line
  r ← (λ t.
      read_lines (suc (length t.input)) env
        (record { r = empty_request; buf2 = none; finished = false }) buf t)
  http_body r
