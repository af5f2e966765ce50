-- ===== src/Mash/Input.antt =====
-- `gettextcr` of pageserv/utility.c: a line from the client, into a buffer of BUFLEN bytes.
pub mod Line
use pageserv.Base.{
  ℕ, suc, ◌+◌, ◌-◌, Bool, true, false, ◌||◌, Option, none, some, [], ◌∷◌, ◌++◌, take, drop, ltb,
  ◌==◌, if◌then◌else◌, Bytes,
}
use pageserv.Queue.Format.{buflen}
use pageserv.Clib.{c_string}
use pageserv.Text.{kw}

-- What a call leaves: the buffer's text, the result, and what is still to be read. `past_end` says that
-- a NUL was written behind the buffer.
pub record Got : Type 0 where
  pub text : Bytes
  pub size : ℕ
  pub past_end : Bool
  pub rest : Bytes

abbrev pub is_newline : ℕ → Bool
is_newline c = c == b'\r' || c == b'\n'

-- The buffer and its flags in the loop over the bytes behind the first.
pub record Buffer : Type 0 where
  pub text : Bytes
  pub size : ℕ
  pub toobig : Bool
  pub past_end : Bool

-- buf[size - 1] = c; buf[size] = 0x00;
unfoldable pub put_byte : ℕ → Buffer → Buffer
put_byte c b =
    let size = b.size + 1 in
    let text = take b.size b.text ++ c ∷ [] in
    if b.toobig then record b { size = size } else record b {
      text = text;
      size = size;
      toobig = if ltb size buflen then false else true;
      past_end = b.past_end || (if ltb size buflen then false else true);
    }

-- kw works on the text up to its first NUL, which the client may have sent
unfoldable pub read_rest : Bytes → Buffer → Got
unfolding put_byte kw c_string
read_rest [] b = record {
  text = kw (c_string b.text);
  size = b.size;
  past_end = b.past_end;
  rest = [];
}
read_rest (c ∷ s) b =
    let more = read_rest s (put_byte c b) in
    let b1 = put_byte c b in
    if is_newline c
    then record { text = kw (c_string b1.text); size = b1.size; past_end = b1.past_end; rest = s }
    else more

-- `none` is the end of the process at the end of the input; `junk` is the text in the buffer before
unfoldable pub gettextcr : Bytes → Bytes → Option Got
unfolding read_rest
gettextcr junk [] = none
gettextcr junk (c ∷ s) = some (
    read_rest s (record {
      text = c ∷ drop 1 junk;
      size = if is_newline c then 0 else 1;
      toobig = false;
      past_end = false;
    }))
