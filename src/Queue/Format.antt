-- ===== src/Queue/Format.antt =====
-- The queue file: what `storequeue` writes, and `readqueuefile` reads back.
pub mod RoundTrip
pub mod Keeps
pub mod Spoilt
use pageserv.Base.{
  ℕ, zero, suc, ◌+◌, ◌≤◌, ◌≡◌, refl, Bool, true, false, Option, none, some, List, [], ◌∷◌, ◌++◌,
  ltb, leb, ◌==◌, ◌&&◌, ◌||◌, if◌then◌else◌, Bytes, ℤ, pos, length,
}
use pageserv.Clib.{is_space, is_digit, starts_with}
use pageserv.Clib.Decimal.{print_nat, print_int, atoi}
use pageserv.Net.{to_u32}
use pageserv.Text.{kw, as_int}
use pageserv.Fs
use pageserv.Fs.{Files}
use pageserv.Queue.Types.{Queuent, Env, World}

abbrev pub buflen : ℕ
buflen = 1024

abbrev pub tolen : ℕ
tolen = 40

abbrev pub fnsize : ℕ
fnsize = 256

abbrev pub line : Bytes → Bytes → Bytes
line s rest = s ++ b'\n' ∷ rest

-- fprintf(qf, "%d\n%s\n%d\n%d\n%d\n%u\n%s\n", ..)
unfoldable pub write_entry : Queuent → Bytes
unfolding as_int
write_entry q = line (print_int q.priority) (
    line q.to (
      line (print_int (as_int q.submitted)) (
        line (print_int (as_int q.soonest))
          (line (print_int (as_int q.latest)) (line (print_nat q.rem_addr) (line q.message []))))))

-- the bytes that fgets takes: at most `room`, and none behind a newline
unfoldable pub fgets_take : ℕ → Bytes → Bytes × Bytes
fgets_take zero s = ([], s)
fgets_take (suc room) [] = ([], [])
fgets_take (suc room) (c ∷ s) =
    let (l, rest) = fgets_take room s in if c == b'\n' then (c ∷ [], s) else (c ∷ l, rest)

-- fgets(buf, size, f): at the end of the file the buffer stays as it was
pub fgets : Bytes → ℕ → Bytes → Bytes × Bytes
unfolding fgets_take
fgets buf zero s = (buf, s)
fgets buf (suc room) [] = (buf, [])
fgets buf (suc room) (c ∷ s) = fgets_take room (c ∷ s)

unsigned_number : Bytes → Bool
unsigned_number [] = false
unsigned_number (c ∷ s) = is_digit c

signed_number : ℕ → Bytes → Bool
unfolding unsigned_number
signed_number c s = if c == b'-' || c == b'+' then unsigned_number s else is_digit c

has_number : Bytes → Bool
unfolding signed_number
has_number [] = false
has_number (c ∷ s) = if is_space c then has_number s else signed_number c s

-- sscanf(buf, "%d", &old): without a number `old` stays
unfoldable pub sscanf_int : Bytes → ℤ → ℤ
unfolding has_number
sscanf_int buf old = if has_number buf then atoi buf else old

unfoldable pub last_q : Bytes → Bytes → Bytes
last_q [] best = best
last_q (d ∷ t) best = last_q t (if d == b'q' then d ∷ t else best)

-- fntoqid: the text from its last 'q' on, or the whole text
unfoldable pub fntoqid : Bytes → Bytes
unfolding last_q
fntoqid [] = []
fntoqid (c ∷ s) = last_q s (c ∷ s)

-- read_qf_line: an empty buffer makes the entry invalid
read_qf_line : Bytes → Queuent → Queuent × Bool → Queuent × Bool
read_qf_line [] q more = (record q { to = [] }, false)
read_qf_line (c ∷ s) q more = more

-- the lines of an open queue file; the flag says that no line was found missing
pub read_entry : Queuent → Bytes → Bytes → Bytes → Queuent × Bool
unfolding read_qf_line fgets sscanf_int
read_entry q0 buf0 fn s0 =
    let (b1, s1) = fgets buf0 buflen s0 in
    let q1 = record q0 { priority = sscanf_int b1 q0.priority } in
    read_qf_line b1 q0 (
      let (to, s2) = fgets [] tolen s1 in
      let q2 = record q1 { to = kw to } in
      read_qf_line to q1 (
        let (b3, s3) = fgets b1 buflen s2 in
        let q3 = record q2 { submitted = atoi b3; qid = fntoqid fn } in
        read_qf_line b3 q2 (
          let (b4, s4) = fgets b3 buflen s3 in
          let q4 = record q3 { soonest = atoi b4 } in
          read_qf_line b4 q3 (
            let (b5, s5) = fgets b4 buflen s4 in
            let q5 = record q4 { latest = atoi b5 } in
            read_qf_line b5 q4 (
              let (b6, s6) = fgets b5 buflen s5 in
              let q6 = record q5 { rem_addr = to_u32 (atoi b6) } in
              read_qf_line b6 q5 (
                let (m, s7) = fgets q0.message buflen s6 in
                read_qf_line m q6 (record q6 { message = kw m }, true)))))))

-- the path of a queue file, or `none` where it would be too long for the buffer
unfoldable pub queue_path : Bytes → Bytes → Option Bytes
queue_path qdir fn =
    if starts_with fn (b'/' ∷ [])
    then (if leb fnsize (length fn) then none else some fn)
    else if leb (fnsize + 5) (length qdir)
    then none
    else if leb fnsize (length fn + length (qdir ++ b'/' ∷ []))
    then none
    else some ((qdir ++ b'/' ∷ []) ++ fn)

-- an invalid file is removed
keep_or_remove : World → Bytes → Queuent × Bool → Queuent × World
keep_or_remove w path (q, true) = (q, w)
keep_or_remove w path (q, false) = (q, record w { files = Fs.unlink w.files path })

read_file : Env → Bytes → Queuent → World → Bytes → Option Bytes → Queuent × World
unfolding read_entry keep_or_remove
read_file env fn q0 w path none = (q0, w)
read_file env fn q0 w path (some content) =
    keep_or_remove w path (read_entry q0 env.junk_line fn content)

read_path : Env → Bytes → Queuent → World → Option Bytes → Queuent × World
unfolding read_file
read_path env fn q0 w none = (q0, w)
read_path env fn q0 w (some path) = read_file env fn q0 w path (Fs.get w.files path)

unfoldable pub readqueuefile : Env → Bytes → World → Queuent × World
unfolding queue_path read_path
readqueuefile env fn w = read_path env fn (record env.junk { to = [] }) w (queue_path env.qdir fn)
