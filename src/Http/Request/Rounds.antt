-- ===== src/Http/Request/Rounds.antt =====
-- The loop that reads a request ends.
use pageserv.Base.{
  ℕ, zero, suc, ◌<◌, ◌≤◌, ◌≡◌, refl, true, inl, inr, false, Option, none, some, [], ◌∷◌, drop,
  if◌then◌else◌, Bytes, length, ◌==◌, Bool-cases, Option-cases, arith,
}
use pageserv.Queue.Types.{Env}
use pageserv.Mash.Input.{Got, Buffer, is_newline, put_byte, read_rest, gettextcr}
use pageserv.Mash.Talk.{Talk, Step, going, ended, faulted, ◌>>=◌, ◌>>◌, return, hear, held, heard}
use pageserv.Clib.{c_string}
use pageserv.Http.Request.{Request, Reading, one_line, eat_byte, next_line, go_on, read_lines}

read_rest-shorter : (s : Bytes) (b : Buffer) → length (read_rest s b).rest ≤ length s
unfolding read_rest
read_rest-shorter [] b = omega arith
read_rest-shorter (c ∷ s) b = elim (Bool-cases (is_newline c)) [
  | inl newline ↦ rw newline (omega arith)
  | inr other ↦ let more = read_rest-shorter s (put_byte c b) in rw other (omega (arith, more))
]

-- what is still to be read behind a line is shorter
abbrev IsShorter : ℕ → Option Got → Type 0
IsShorter n none = Unit
IsShorter n (some g) = length g.rest < n

gettextcr-IsShorter : (junk s : Bytes) → IsShorter (length s) (gettextcr junk s)
unfolding gettextcr
gettextcr-IsShorter junk [] = tt
gettextcr-IsShorter junk (c ∷ s) =
    let more = read_rest-shorter s (record {
      text = c ∷ drop 1 junk;
      size = if is_newline c then 0 else 1;
      toobig = false;
      past_end = false;
    }) in
    omega (arith, more)

-- How the loop of http_parserequest goes, from a line in `buf` on: each round that is not the last takes
-- a byte or more of the input.
pub data Ends (env : Env) : Reading → Bytes → Talk → Step Request → Type 0 where
  -- the line makes the server read or write outside an array
  failed :
      (st : Reading) (buf : Bytes) (t : Talk)
      → one_line st (c_string buf) ≡ none
      → Ends env st buf t faulted
  -- the line is all there is
  done :
      (st st1 : Reading) (buf line : Bytes) (t : Talk)
      → one_line st (c_string buf) ≡ some (st1, line)
      → st1.finished ≡ true
      → Ends env st buf t (going st1.r t)
  -- the client has sent nothing more
  closed :
      (st st1 : Reading) (buf line : Bytes) (t : Talk)
      → one_line st (c_string buf) ≡ some (st1, line)
      → st1.finished ≡ false
      → gettextcr (held env line) t.input ≡ none
      → Ends env st buf t (ended t)
  -- the next line is too long for its buffer
  too_long :
      (st st1 : Reading) (buf line : Bytes) (t : Talk) (g : Got)
      → one_line st (c_string buf) ≡ some (st1, line)
      → st1.finished ≡ false
      → gettextcr (held env line) t.input ≡ some g
      → g.past_end ≡ true
      → Ends env st buf t faulted
  -- the next line is empty
  last :
      (st st1 : Reading) (buf line : Bytes) (t : Talk) (g : Got)
      → one_line st (c_string buf) ≡ some (st1, line)
      → st1.finished ≡ false
      → gettextcr (held env line) t.input ≡ some g
      → g.past_end ≡ false
      → length (c_string g.text) ≡ 0
      → Ends env st buf t (going st1.r (record t { input = drop 1 g.rest }))
  more :
      (st st1 : Reading) (buf line : Bytes) (t : Talk) (g : Got) (s : Step Request)
      → one_line st (c_string buf) ≡ some (st1, line)
      → st1.finished ≡ false
      → gettextcr (held env line) t.input ≡ some g
      → g.past_end ≡ false
      → 0 < length (c_string g.text)
      → length g.rest < length t.input
      → Ends env st1 g.text (record t { input = g.rest }) s
      → Ends env st buf t s

shorter_rest : (junk s : Bytes) (g : Got) → gettextcr junk s ≡ some g → length g.rest < length s
shorter_rest junk s g e = rw e at (gettextcr-IsShorter junk s)

-- what follows a line that is heard
abbrev behind : Reading → (Bytes → Talk → Step Request) → Bytes → Talk → Step Request
behind st f b =
    let last : Talk → Step Request = (do eat_byte; return st.r) in
    if length (c_string b) == 0 then last else f b

next_heard :
    (env : Env) (st st1 : Reading) (buf line : Bytes) (t : Talk) (f : Bytes → Talk → Step Request)
    (o : Option Got)
    → one_line st (c_string buf) ≡ some (st1, line)
    → st1.finished ≡ false
    → gettextcr (held env line) t.input ≡ o
    → ((b : Bytes) (t1 : Talk) → length t1.input < length t.input → Ends env st1 b t1 (f b t1))
    → Ends env st buf t (((λ t2. heard t2 o) >>= behind st1 f) t)
unfolding heard
next_heard env st st1 buf line t f none e going_on read k = closed st st1 buf line t e going_on read
next_heard env st st1 buf line t f (some g) e going_on read k = elim (Bool-cases g.past_end) [
  | inl past ↦ rw past (too_long st st1 buf line t g e going_on read past)
  | inr within ↦ elim (Bool-cases (length (c_string g.text) == 0)) [
    | inl empty ↦
        rw (within, empty) (last st st1 buf line t g e going_on read within (ground (arith, empty)))
    | inr text ↦
        let less = shorter_rest (held env line) t.input g read in
        rw (within, text)
          (more st st1 buf line t g (f g.text (record t { input = g.rest })) e going_on read within
            (ground (arith, text)) less (k g.text (record t { input = g.rest }) less))
  ]
]

next_line-Ends :
    (env : Env) (st st1 : Reading) (buf line : Bytes) (t : Talk) (f : Bytes → Talk → Step Request)
    → one_line st (c_string buf) ≡ some (st1, line)
    → ((b : Bytes) (t1 : Talk) → length t1.input < length t.input → Ends env st1 b t1 (f b t1))
    → Ends env st buf t (next_line env line st1 f t)
unfolding next_line hear
next_line-Ends env st st1 buf line t f e k = elim (Bool-cases st1.finished) [
  | inl finished ↦ rw finished (done st st1 buf line t e finished)
  | inr going_on ↦
      rw going_on
        (next_heard env st st1 buf line t f (gettextcr (held env line) t.input) e going_on refl k)
]

-- With fuel for more rounds than there are bytes to read the loop of http_parserequest comes to one of
-- its ends: a line that makes it leave an array, the end of the request, the end of the input, a line
-- that is too long, or an empty line. On the way each round takes a byte or more of the input.
pub read_lines-Ends :
    (fuel : ℕ) (env : Env) (st : Reading) (buf : Bytes) (t : Talk)
    → length t.input < fuel
    → Ends env st buf t (read_lines fuel env st buf t)
unfolding read_lines go_on
read_lines-Ends zero env st buf t h = absurd (omega (arith, h))
read_lines-Ends (suc fuel) env st buf t h = elim (Option-cases (one_line st (c_string buf))) [
  | inl failure ↦ rw failure (failed st buf t failure)
  | inr ((st1, line), read) ↦ rw read (
      next_line-Ends env st st1 buf line t (read_lines fuel env st1) read
        (λ b t1 less. read_lines-Ends fuel env st1 b t1 (omega (arith, h, less))))
]
