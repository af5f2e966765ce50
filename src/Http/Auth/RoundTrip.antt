-- ===== src/Http/Auth/RoundTrip.antt =====
-- Basic authentication, as RFC 2617 has it, is decoded to the name and the password.
use Prim.Native.Nat.{bit_or}
use pageserv.Base.{
  ltb, ◌-◌, if◌then◌else◌, ℕ, ◌+◌, ◌*◌, ◌/◌, ◌%◌, ◌<◌, ◌≡◌, refl, ap, ◌∙◌, true, false, some, [],
  ◌∷◌, ◌++◌, append_assoc, ◌==◌, Bytes, all_below, all_below_sound, All, arith, append-nil,
}
use pageserv.Http.Auth.{authdecode_match, decode_group, decode_loop, split_colon, http_authdecode}
use pageserv.Clib.{c_string}

-- the base64 alphabet of RFC 2045: A to Z, a to z, 0 to 9, plus and slash
abbrev pub char_of : ℕ → ℕ
char_of v =
    if ltb v 26
    then b'A' + v
    else if ltb v 52
    then b'a' + v - 26
    else if ltb v 62
    then b'0' + v - 52
    else if v == 62
    then b'+'
    else b'/'

-- base64: three bytes as four characters, with padding at the end
unfoldable pub encode : Bytes → Bytes
encode [] = []
encode (x ∷ []) = char_of (x / 4) ∷ char_of (x % 4 * 16) ∷ b'=' ∷ b'=' ∷ []
encode (x ∷ y ∷ []) =
    char_of (x / 4) ∷ char_of (x % 4 * 16 + y / 16) ∷ char_of (y % 16 * 4) ∷ b'=' ∷ []
encode (x ∷ y ∷ z ∷ s) =
    char_of (x / 4)
    ∷ char_of (x % 4 * 16 + y / 16)
    ∷ char_of (y % 16 * 4 + z / 64)
    ∷ char_of (z % 64)
    ∷ encode s

char_table : all_below 64 (λ v. authdecode_match (char_of v) == v) ≡ true
unfolding all_below authdecode_match
char_table = refl

char_back : (v : ℕ) → v < 64 → authdecode_match (char_of v) ≡ v
char_back v h =
    let found = all_below_sound 64 (λ v. authdecode_match (char_of v) == v) v char_table h in
    ground arith

padding : authdecode_match b'=' ≡ 64
unfolding authdecode_match
padding = refl

or_table : all_below 4 (λ hi. all_below 64 (λ lo. bit_or (hi * 64) lo == hi * 64 + lo)) ≡ true
unfolding all_below
or_table = refl

or_sum : (hi lo : ℕ) → hi < 4 → lo < 64 → bit_or (hi * 64) lo ≡ hi * 64 + lo
or_sum hi lo h l =
    let row =
      all_below_sound 4 (λ hi. all_below 64 (λ lo. bit_or (hi * 64) lo == hi * 64 + lo)) hi or_table
        h in
    let cell = all_below_sound 64 (λ lo. bit_or (hi * 64) lo == hi * 64 + lo) lo row l in
    ground arith

-- a byte of a text
abbrev pub IsByte : ℕ → Type 0
IsByte c = c < 256

decode_loop-step :
    (a b c d : ℕ) (s out : Bytes) (last : ℕ)
    → decode_loop (a ∷ b ∷ c ∷ d ∷ s) (out, last)
      ≡ decode_loop s (
          decode_group
            (authdecode_match a)
            (authdecode_match b)
            (authdecode_match c)
            (authdecode_match d)
            out)
unfolding decode_loop
decode_loop-step a b c d s out last = refl

decode_loop-end : (dest : Bytes × ℕ) → decode_loop [] dest ≡ some dest
unfolding decode_loop
decode_loop-end dest = refl

not_padding : (v : ℕ) → v < 64 → (v == 64) ≡ false
not_padding v h = ground arith

group_one :
    (x : ℕ) (out : Bytes)
    → x < 256
    → decode_group (x / 4) (x % 4 * 16) 64 64 out ≡ (out ++ x ∷ [], 0)
unfolding decode_group
group_one x out h =
    let first_byte : x / 4 * 4 % 256 + x % 4 * 16 / 16 % 4 ≡ x = omega arith in
    let rest : x % 4 * 16 % 16 * 16 ≡ 0 = omega arith in
    rw (not_padding (x % 4 * 16) (omega arith), first_byte, rest) refl

group_two :
    (x y : ℕ) (out : Bytes)
    → x < 256
    → y < 256
    → decode_group (x / 4) (x % 4 * 16 + y / 16) (y % 16 * 4) 64 out ≡ (out ++ x ∷ y ∷ [], 0)
unfolding decode_group
group_two x y out h k =
    let b = x % 4 * 16 + y / 16 in
    let c = y % 16 * 4 in
    let first_byte : x / 4 * 4 % 256 + b / 16 % 4 ≡ x = omega arith in
    let second_byte : b % 16 * 16 + c / 4 % 16 ≡ y = omega arith in
    let rest : c % 4 * 64 ≡ 0 = omega arith in
    rw (not_padding b (omega arith), not_padding c (omega arith), first_byte, second_byte, rest)
      refl

group_three :
    (x y z : ℕ) (out : Bytes)
    → x < 256
    → y < 256
    → z < 256
    → decode_group (x / 4) (x % 4 * 16 + y / 16) (y % 16 * 4 + z / 64) (z % 64) out
      ≡ (out ++ x ∷ y ∷ z ∷ [], 0)
unfolding decode_group
group_three x y z out h k l =
    let b = x % 4 * 16 + y / 16 in
    let c = y % 16 * 4 + z / 64 in
    let first_byte : x / 4 * 4 % 256 + b / 16 % 4 ≡ x = omega arith in
    let second_byte : b % 16 * 16 + c / 4 % 16 ≡ y = omega arith in
    let third_byte : bit_or (c % 4 * 64) (z % 64) ≡ z =
      or_sum (c % 4) (z % 64) (omega arith) (omega arith) ∙ omega arith in
    rw
      (
        not_padding b (omega arith),
        not_padding c (omega arith),
        not_padding (z % 64) (omega arith),
        first_byte,
        second_byte,
        third_byte,
      )
      refl

decode_loop-encode :
    (s out : Bytes) → All IsByte s → decode_loop (encode s) (out, 0) ≡ some (out ++ s, 0)
unfolding encode
decode_loop-encode [] out h = rw (append-nil out) (decode_loop-end (out, 0))
decode_loop-encode (x ∷ []) out h =
    rw
      (
        decode_loop-step (char_of (x / 4)) (char_of (x % 4 * 16)) b'=' b'=' [] out 0,
        char_back (x / 4) (omega (arith, h.0)),
        char_back (x % 4 * 16) (omega arith),
        padding,
        group_one x out h.0,
      )
      (decode_loop-end (out ++ x ∷ [], 0))
decode_loop-encode (x ∷ y ∷ []) out h =
    rw
      (
        decode_loop-step (char_of (x / 4)) (char_of (x % 4 * 16 + y / 16)) (char_of (y % 16 * 4))
            b'=' [] out 0,
        char_back (x / 4) (omega (arith, h.0)),
        char_back (x % 4 * 16 + y / 16) (omega (arith, h.1.0)),
        char_back (y % 16 * 4) (omega arith),
        padding,
        group_two x y out h.0 h.1.0,
      )
      (decode_loop-end (out ++ x ∷ y ∷ [], 0))
decode_loop-encode (x ∷ y ∷ z ∷ s) out h =
    rw
      (
        decode_loop-step (char_of (x / 4)) (char_of (x % 4 * 16 + y / 16))
            (char_of (y % 16 * 4 + z / 64)) (char_of (z % 64)) (encode s) out 0,
        char_back (x / 4) (omega (arith, h.0)),
        char_back (x % 4 * 16 + y / 16) (omega (arith, h.1.0)),
        char_back (y % 16 * 4 + z / 64) (omega (arith, h.1.1.0)),
        char_back (z % 64) (omega arith),
        group_three x y z out h.0 h.1.0 h.1.1.0,
      )
      (decode_loop-encode s (out ++ x ∷ y ∷ z ∷ []) h.1.1.1
        ∙ ap (λ t. some (t, 0)) (append_assoc out (x ∷ y ∷ z ∷ []) s))

-- a byte of a C text, and of a name that stands before the colon
abbrev pub IsText : ℕ → Type 0
IsText c = (c < 256) × ((c == 0) ≡ false)

abbrev pub IsName : ℕ → Type 0
IsName c = (c < 256) × ((c == 0) ≡ false) × ((c == b':') ≡ false)

split_colon-name :
    (name rest : Bytes) → All IsName name → split_colon (name ++ b':' ∷ rest) ≡ some (name, rest)
unfolding split_colon
split_colon-name [] rest h = refl
split_colon-name (c ∷ name) rest h = rw (h.0.2, split_colon-name name rest h.1) refl

c_string-text : (s rest : Bytes) → All IsText s → c_string (s ++ 0 ∷ rest) ≡ s
unfolding c_string
c_string-text [] rest h = refl
c_string-text (c ∷ s) rest h = rw h.0.1 (ap (λ t. c ∷ t) (c_string-text s rest h.1))

c_string-name : (s : Bytes) → All IsName s → c_string s ≡ s
unfolding c_string
c_string-name [] h = refl
c_string-name (c ∷ s) h = rw h.0.1 (ap (λ t. c ∷ t) (c_string-name s h.1))

text_bytes : (pass : Bytes) → All IsText pass → All IsByte pass
text_bytes [] k = tt
text_bytes (c ∷ pass) k = (k.0.0, text_bytes pass k.1)

bytes_of :
    (name pass : Bytes) → All IsName name → All IsText pass → All IsByte (name ++ b':' ∷ pass)
bytes_of [] pass h k = (omega arith, text_bytes pass k)
bytes_of (c ∷ name) pass h k = (h.0.0, bytes_of name pass h.1 k)

-- What a browser sends for a name and a password, the base64 of the two with a colon between them, is
-- decoded to the same name and password, where neither has a NUL and the name no colon.
pub http_authdecode-encode :
    (name pass : Bytes)
    → All IsName name
    → All IsText pass
    → http_authdecode (encode (name ++ b':' ∷ pass)) ≡ some (name, pass)
unfolding http_authdecode
http_authdecode-encode name pass h k =
    rw
      (
        decode_loop-encode (name ++ b':' ∷ pass) [] (bytes_of name pass h k),
        append_assoc name (b':' ∷ pass) (0 ∷ []),
        split_colon-name name (pass ++ 0 ∷ []) h,
        c_string-name name h,
        c_string-text pass [] k,
      )
      refl
