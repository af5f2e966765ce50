-- ===== src/Mash/Input/Line.antt =====
-- What `gettextcr` gives for a line, however long it is.
use pageserv.Base.{
  ℕ, zero, suc, ◌+◌, ◌<◌, ◌≤◌, ◌≡◌, refl, ap, sym, ◌∙◌, Bool, true, false, some, [], ◌∷◌, ◌++◌,
  take, drop, ltb, leb, if◌then◌else◌, Bytes, length, length-append, arith, append_assoc, All,
  Bool-cases, inl, inr,
}
use pageserv.Queue.Format.{buflen, line}
use pageserv.Clib.{c_string}
use pageserv.Text.{kw}
use pageserv.Mash.Input.{Got, Buffer, is_newline, put_byte, read_rest, gettextcr}

-- no byte ends a line
abbrev pub NoNewline : Bytes → Type 0
NoNewline s = All (λ c. is_newline c ≡ false) s

take-all : (n : ℕ) (s : Bytes) → length s ≤ n → take n s ≡ s
take-all zero [] h = refl
take-all zero (c ∷ s) h = absurd (omega arith)
take-all (suc n) [] h = refl
take-all (suc n) (c ∷ s) h = ap (λ t. c ∷ t) (take-all n s (omega arith))

take-append : (n : ℕ) (s t : Bytes) → length s ≡ n → take n (s ++ t) ≡ s
take-append zero [] t h = refl
take-append zero (c ∷ s) t h = absurd (omega arith)
take-append (suc n) [] t h = absurd (omega arith)
take-append (suc n) (c ∷ s) t h = ap (λ u. c ∷ u) (take-append n s t (omega arith))

-- once the buffer is full its text stays
read_rest-toobig :
    (s rest text : Bytes) (size : ℕ)
    → NoNewline s
    → read_rest (line s rest) (record { text = text; size = size; toobig = true; past_end = true })
      ≡ record {
        text = kw (c_string text);
        size = size + length s + 1;
        past_end = true;
        rest = rest;
      }
unfolding read_rest put_byte
read_rest-toobig [] rest text size h =
    ap (λ n. record { text = kw (c_string text); size = n; past_end = true; rest = rest })
      (omega arith)
read_rest-toobig (c ∷ s) rest text size h = rw h.0 (
    read_rest-toobig s rest text (size + 1) h.1
    ∙ ap (λ n. record { text = kw (c_string text); size = n; past_end = true; rest = rest })
        (omega arith))

-- the line that is read after the bytes `pre`
abbrev pub got : Bytes → ℕ → Bytes → Got
got text size rest = record {
  text = kw (c_string (take 1024 text));
  size = size;
  past_end = leb 1024 size;
  rest = rest;
}

abbrev buffer : Bytes → ℕ → Buffer
buffer text size = record { text = text; size = size; toobig = false; past_end = false }

put_byte-fits :
    (c : ℕ) (text : Bytes) (size : ℕ)
    → size + 1 < 1024
    → put_byte c (buffer text size) ≡ buffer (take size text ++ c ∷ []) (size + 1)
unfolding put_byte
put_byte-fits c text size h = let fits : ltb (size + 1) buflen ≡ true = ground arith in rw fits refl

put_byte-full :
    (c : ℕ) (text : Bytes) (size : ℕ)
    → size + 1 ≡ 1024
    → put_byte c (buffer text size)
      ≡ record { text = take size text ++ c ∷ []; size = size + 1; toobig = true; past_end = true }
unfolding put_byte
put_byte-full c text size h =
    let full : ltb (size + 1) buflen ≡ false = ground arith in rw full refl

got_ext :
    (x y : Bytes) (m n : ℕ) (p : Bool) (rest : Bytes)
    → x ≡ take 1024 y
    → m ≡ n
    → p ≡ leb 1024 n
    → record { text = kw (c_string x); size = m; past_end = p; rest = rest } ≡ got y n rest
got_ext x y m n p rest a b c = rw (a, b, c) refl

-- a byte more in the buffer
longer :
    (c : ℕ) (text pre : Bytes) (size : ℕ)
    → take size text ≡ pre
    → length pre ≡ size
    → take (size + 1) (take size text ++ c ∷ []) ≡ pre ++ c ∷ []
longer c text pre size e l =
    rw e (take-all (size + 1) (pre ++ c ∷ []) (omega (arith, length-append pre (c ∷ []))))

read_rest-line :
    (s rest text pre : Bytes) (size : ℕ)
    → NoNewline s
    → take size text ≡ pre
    → length pre ≡ size
    → size < 1024
    → read_rest (line s rest) (buffer text size)
      ≡ got (pre ++ (s ++ b'\n' ∷ [])) (size + length s + 1) rest
unfolding read_rest
read_rest-line [] rest text pre size h e l room =
    got_ext (take size text ++ b'\n' ∷ []) (pre ++ b'\n' ∷ []) (size + 1) (size + 0 + 1)
      (if ltb (size + 1) buflen then false else true) rest
      (ap (λ t. t ++ b'\n' ∷ []) e
        ∙ sym (take-all 1024 (pre ++ b'\n' ∷ []) (omega (arith, length-append pre (b'\n' ∷ [])))))
      (omega arith) (ground arith)
read_rest-line (c ∷ s) rest text pre size h e l room = elim (Bool-cases (ltb (size + 1) 1024)) [
  | inl fits ↦
      let more =
        read_rest-line s rest (take size text ++ c ∷ []) (pre ++ c ∷ []) (size + 1) h.1
          (longer c text pre size e l) (omega (arith, length-append pre (c ∷ []))) (ground arith) in
      rw (h.0, fits)
        (more
          ∙ ap (λ t. got t (size + 1 + length s + 1) rest)
              (append_assoc pre (c ∷ []) (s ++ b'\n' ∷ []))
          ∙ ap (λ n. got (pre ++ c ∷ (s ++ b'\n' ∷ [])) n rest) (omega arith))
  | inr full ↦
      let at : length (pre ++ c ∷ []) ≡ 1024 = ground (arith, length-append pre (c ∷ [])) in
      rw (h.0, full)
        (read_rest-toobig s rest (take size text ++ c ∷ []) (size + 1) h.1
          ∙ got_ext (take size text ++ c ∷ []) (pre ++ c ∷ (s ++ b'\n' ∷ []))
              (size + 1 + length s + 1) (size + suc (length s) + 1) true rest
              (ap (λ t. t ++ c ∷ []) e
                ∙ sym (take-append 1024 (pre ++ c ∷ []) (s ++ b'\n' ∷ []) at)
                ∙ ap (take 1024) (append_assoc pre (c ∷ []) (s ++ b'\n' ∷ [])))
              (omega arith) (ground arith))
]

-- A line of one byte or more before its newline is read to the newline: its text, up to the first NUL in it
-- if the client sent one, without the white space at its end, and its length with the newline; of 1,024 bytes or more, its newline counted, the first 1,024
-- are kept, and a NUL is written behind the buffer then and only then.
pub gettextcr-line :
    (junk s rest : Bytes)
    → 0 < length s
    → NoNewline s
    → gettextcr junk (line s rest)
      ≡ some (record {
        text = kw (c_string (take 1024 (s ++ b'\n' ∷ [])));
        size = length s + 1;
        past_end = leb 1024 (length s + 1);
        rest = rest;
      })
unfolding gettextcr
gettextcr-line junk [] rest some_byte h = absurd (omega arith)
gettextcr-line junk (c ∷ s) rest some_byte h = rw h.0 (
    ap some (
      read_rest-line s rest (c ∷ drop 1 junk) (c ∷ []) 1 h.1 refl refl (omega arith)
      ∙ ap (λ n. got (c ∷ (s ++ b'\n' ∷ [])) n rest) (omega arith)))
