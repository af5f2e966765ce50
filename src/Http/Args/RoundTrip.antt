-- ===== src/Http/Args/RoundTrip.antt =====
-- The arguments of a form, as a browser writes them, are read back.
use pageserv.Base.{
  ◌>>=◌, ℕ, ◌+◌, ◌*◌, ◌/◌, ◌%◌, ◌<◌, ◌≡◌, refl, ap, ◌∙◌, Bool, true, false, ◌&&◌, ◌||◌, some, [],
  ◌∷◌, ◌++◌, leb, ◌==◌, if◌then◌else◌, length, Bytes, codes, get_or, all_below, all_below_sound,
  All, arith, Bool-cases, inl, inr,
}
use pageserv.Clib.{c_string}
use pageserv.Http.Args.{x2c, unescape_loop, http_unescape, plus_to_space, split_equals, parse_pair}

abbrev pub is_alnum : ℕ → Bool
is_alnum c = leb b'0' c && leb c b'9' || (leb b'A' c && leb c b'Z' || leb b'a' c && leb c b'z')

abbrev pub hex_char : ℕ → ℕ
hex_char v = get_or (codes "0123456789ABCDEF") v 0

-- application/x-www-form-urlencoded
unfoldable pub escape : Bytes → Bytes
escape [] = []
escape (c ∷ s) =
    let rest = escape s in
    if is_alnum c
    then c ∷ rest
    else if c == b' '
    then b'+' ∷ rest
    else b'%' ∷ hex_char (c / 16) ∷ hex_char (c % 16) ∷ rest

hex_table :
    all_below 16 (λ a. all_below 16 (λ b. x2c (hex_char a) (hex_char b) == a * 16 + b)) ≡ true
unfolding all_below x2c
hex_table = refl

x2c-hex_char : (c : ℕ) → c < 256 → x2c (hex_char (c / 16)) (hex_char (c % 16)) ≡ c
x2c-hex_char c h =
    let row =
      all_below_sound 16 (λ a. all_below 16 (λ b. x2c (hex_char a) (hex_char b) == a * 16 + b))
        (c / 16) hex_table (omega arith) in
    let cell =
      all_below_sound 16 (λ b. x2c (hex_char (c / 16)) (hex_char b) == c / 16 * 16 + b) (c % 16) row
        (omega arith) in
    let sum : c / 16 * 16 + c % 16 ≡ c = omega arith in ground arith

-- no hexadecimal digit is a plus, an ampersand or an equals sign
plain_table : all_below 16 (λ a. is_alnum (hex_char a)) ≡ true
unfolding all_below
plain_table = refl

pub hex_char-alnum : (v : ℕ) → v < 16 → is_alnum (hex_char v) ≡ true
hex_char-alnum v h = all_below_sound 16 (λ a. is_alnum (hex_char a)) v plain_table h

unescape_loop-plain :
    (c : ℕ) (s rest : Bytes)
    → (c == b'%') ≡ false
    → unescape_loop s ≡ some rest
    → unescape_loop (c ∷ s) ≡ some (c ∷ rest)
unfolding unescape_loop
unescape_loop-plain c [] rest h e = rw h (ap (λ o. o >>= λ r. some (c ∷ r)) e)
unescape_loop-plain c (a ∷ []) rest h e = rw (h, e) refl
unescape_loop-plain c (a ∷ b ∷ s) rest h e = rw (h, e) refl

unescape_loop-escaped :
    (a b : ℕ) (s rest : Bytes)
    → unescape_loop s ≡ some rest
    → unescape_loop (b'%' ∷ a ∷ b ∷ s) ≡ some (x2c a b ∷ rest)
unfolding unescape_loop
unescape_loop-escaped a b s rest e = rw e refl

-- a byte that plus_to_space and strtok leave alone
pub alnum_plain :
    (c : ℕ)
    → is_alnum c ≡ true
    → ((c == b'+') ≡ false)
      × ((c == b'%') ≡ false)
      × ((c == b'&') ≡ false)
      × ((c == b'=') ≡ false)
      × ((c == 0) ≡ false)
alnum_plain c h = ground arith

abbrev pub IsText : ℕ → Type 0
IsText c = (c < 256) × ((c == 0) ≡ false)

unescape_loop-end : unescape_loop [] ≡ some []
unfolding unescape_loop
unescape_loop-end = refl

unescape_loop-escape :
    (v : Bytes) → All IsText v → unescape_loop (plus_to_space (escape v)) ≡ some v
unfolding plus_to_space escape
unescape_loop-escape [] h = unescape_loop-end
unescape_loop-escape (c ∷ v) h =
    let more = unescape_loop-escape v h.1 in
    elim (Bool-cases (is_alnum c)) [
      | inl alnum ↦
          let plain = alnum_plain c alnum in
          rw (alnum, plain.0) (unescape_loop-plain c (plus_to_space (escape v)) v plain.1 more)
      | inr other ↦ elim (Bool-cases (c == b' ')) [
        | inl space ↦
            let same : b' ' ≡ c = ground arith in
            rw (other, space)
              (unescape_loop-plain b' ' (plus_to_space (escape v)) v refl more
                ∙ ap (λ d. some (d ∷ v)) same)
        | inr special ↦
            let hi =
              (alnum_plain (hex_char (c / 16))
                (hex_char-alnum (c / 16) (omega (arith, h.0.0)))).0 in
            let lo = (alnum_plain (hex_char (c % 16)) (hex_char-alnum (c % 16) (omega arith))).0 in
            rw (other, special, hi, lo)
              (unescape_loop-escaped (hex_char (c / 16)) (hex_char (c % 16))
                  (plus_to_space (escape v)) v more
                ∙ ap (λ d. some (d ∷ v)) (x2c-hex_char c h.0.0))
      ]
    ]

c_string-text : (s : Bytes) → All IsText s → c_string s ≡ s
unfolding c_string
c_string-text [] h = refl
c_string-text (c ∷ s) h = rw h.0.1 (ap (λ t. c ∷ t) (c_string-text s h.1))

http_unescape-escape :
    (v : Bytes) → All IsText v → http_unescape (plus_to_space (escape v)) ≡ some v
unfolding http_unescape
http_unescape-escape v h = rw (unescape_loop-escape v h, c_string-text v h) refl

-- An argument's name is of letters and digits, and its value is a text.
pub record IsArg (arg : Bytes × Bytes) : Type 0 where
  pub some_byte : 0 < length arg.0
  pub name : All (λ c. is_alnum c ≡ true) arg.0
  pub value : All IsText arg.1

-- the pair behind plus_to_space
abbrev pub cooked : Bytes × Bytes → Bytes
cooked (name, value) = name ++ b'=' ∷ plus_to_space (escape value)

split_equals-name :
    (name v : Bytes)
    → All (λ c. is_alnum c ≡ true) name
    → split_equals (name ++ b'=' ∷ v) ≡ some (name, v)
unfolding split_equals
split_equals-name [] v h = refl
split_equals-name (c ∷ name) v h = rw ((alnum_plain c h.0).3, split_equals-name name v h.1) refl

pub parse_pair-cooked : (arg : Bytes × Bytes) → IsArg arg → parse_pair (cooked arg) ≡ some arg
unfolding parse_pair
parse_pair-cooked arg h =
    rw
      (
        split_equals-name arg.0 (plus_to_space (escape arg.1)) h.name,
        http_unescape-escape arg.1 h.value,
      )
      refl
