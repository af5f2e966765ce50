-- ===== src/Clib.antt =====
-- The functions of the C library that the program calls on texts, over byte lists.
-- A text never holds a NUL, so `strlen` is the length and a text's end is the list's end; of an array
-- that may hold one, `c_string` is the text.
pub mod Decimal
pub mod Tokens
use pageserv.Base.{
  ℕ, ◌+◌, ◌-◌, ◌≡◌, ◌↔◌, refl, Bool, true, false, not, ◌&&◌, ◌||◌, Option, none, some, List, [],
  ◌∷◌, ◌++◌, arith, leb, ◌==◌, if◌then◌else◌, Bytes,
}

-- isspace, in the C locale
abbrev pub is_space : ℕ → Bool
is_space c = c == b' ' || leb 9 c && leb c 13

abbrev pub is_digit : ℕ → Bool
is_digit c = leb b'0' c && leb c b'9'

-- tolower, in the C locale
abbrev pub to_lower : ℕ → ℕ
to_lower c = if leb b'A' c && leb c b'Z' then c + 32 else c

-- the text in an array: the bytes before the first NUL
unfoldable pub c_string : Bytes → Bytes
c_string [] = []
c_string (c ∷ s) = let rest = c_string s in if c == 0 then [] else c ∷ rest

-- strcmp(a, b) == 0
unfoldable pub equal : Bytes → Bytes → Bool
equal [] [] = true
equal (c ∷ s) (d ∷ t) = c == d && equal s t
equal _ _ = false

pub equal_iff : (s t : Bytes) → (equal s t ≡ true) ↔ (s ≡ t)
unfolding equal
equal_iff [] [] = ground arith
equal_iff [] (d ∷ t) = ground arith
equal_iff (c ∷ s) [] = ground arith
equal_iff (c ∷ s) (d ∷ t) = ground (arith, equal_iff s t)

pub equal_refl : (a : Bytes) → equal a a ≡ true
equal_refl a = (equal_iff a a).1 refl

-- strncmp(s, p, strlen(p)) == 0 and strncasecmp(s, p, strlen(p)) == 0
unfoldable pub starts_with : Bytes → Bytes → Bool
starts_with s [] = true
starts_with [] (y ∷ p) = false
starts_with (x ∷ s) (y ∷ p) = x == y && starts_with s p

unfoldable pub starts_with_nocase : Bytes → Bytes → Bool
starts_with_nocase s [] = true
starts_with_nocase [] (y ∷ p) = false
starts_with_nocase (x ∷ s) (y ∷ p) = to_lower x == to_lower y && starts_with_nocase s p

-- strchr(s, c) != NULL
unfoldable pub contains : Bytes → ℕ → Bool
contains [] c = false
contains (x ∷ s) c = x == c || contains s c

-- strtok: the bytes of `delim` before the token are skipped, and the byte that ends it is dropped.
-- The result is the token and what the next call goes on with.
unfoldable pub skip_delim : Bytes → Bytes → Bytes
unfolding contains
skip_delim delim [] = []
skip_delim delim (c ∷ s) = if contains delim c then skip_delim delim s else c ∷ s

unfoldable pub token_end : Bytes → Bytes → Bytes × Bytes
unfolding contains
token_end delim [] = ([], [])
token_end delim (c ∷ s) =
    let (t, rest) = token_end delim s in if contains delim c then ([], s) else (c ∷ t, rest)

token_of : Bytes → Bytes → Option (Bytes × Bytes)
token_of delim [] = none
token_of delim (c ∷ s) = some (token_end delim (c ∷ s))

unfoldable pub strtok : Bytes → Bytes → Option (Bytes × Bytes)
unfolding skip_delim token_end token_of
strtok delim s = token_of delim (skip_delim delim s)
