-- ===== src/Http/Args.antt =====
-- http/urlparse.c: the arguments of a request, on the text that is in r->args. Reading or writing past a
-- text, and writing to a text constant, are `none`.
pub mod RoundTrip
pub mod Form
use Prim.Native.Nat.{bit_and}
use pageserv.Base.{
  ◌>>=◌, ℕ, zero, suc, ◌+◌, ◌-◌, ◌*◌, ◌%◌, Bool, ◌&&◌, Option, none, some, List, [], ◌∷◌, ◌++◌, map,
  ltb, leb, ◌==◌, if◌then◌else◌, length, Bytes,
}
use pageserv.Clib.{strtok, equal, c_string}

-- (u >= 'A' ? ((u & 0xdf) - 'A') + 10 : u - '0'), where a byte from 128 on is negative
unfoldable pub hex_value : ℕ → ℕ
hex_value u = if leb b'A' u && ltb u 128 then bit_and u 0xdf + 10 - b'A' else (u + 256 - b'0') % 256

unfoldable pub x2c : ℕ → ℕ → ℕ
unfolding hex_value
x2c a b = (hex_value a * 16 + hex_value b) % 256

-- `none` where a percent sign has less than two bytes behind it: the loop then passes the NUL
unfoldable pub unescape_loop : Bytes → Option Bytes
unfolding x2c
unescape_loop [] = some []
unescape_loop (c ∷ []) = if c == b'%' then none else some (c ∷ [])
unescape_loop (c ∷ a ∷ []) = do
  rest ← unescape_loop (a ∷ [])
  if c == b'%' then none else some (c ∷ rest)
unescape_loop (c ∷ a ∷ b ∷ s) =
    let escaped = (do rest ← unescape_loop s; some (x2c a b ∷ rest)) in
    let plain = (do rest ← unescape_loop (a ∷ b ∷ s); some (c ∷ rest)) in
    if c == b'%' then escaped else plain

unfoldable pub http_unescape : Bytes → Option Bytes
unfolding unescape_loop c_string
http_unescape u = do text ← unescape_loop u; some (c_string text)

-- for(i = 0; buf[i]; i++) if(buf[i] == '+') buf[i] = ' ';
unfoldable pub plus_to_space : Bytes → Bytes
plus_to_space s = map (λ c. if c == b'+' then b' ' else c) s

-- strchr(list[i], '='): the texts before and behind it
unfoldable pub split_equals : Bytes → Option (Bytes × Bytes)
split_equals [] = none
split_equals (c ∷ s) =
    let next = (do (before, behind) ← split_equals s; some (c ∷ before, behind)) in
    if c == b'=' then some ([], s) else next

-- name and value of a pair; without a '=' the constant "" is written to
unfoldable pub parse_pair : Bytes → Option (Bytes × Bytes)
unfolding split_equals http_unescape
parse_pair pair = do (name, v) ← split_equals pair; value ← http_unescape v; some (name, value)

-- the pairs of the text, with fuel for more than its bytes
unfoldable pub pairs_of : ℕ → Option (Bytes × Bytes) → List Bytes
unfolding strtok
pairs_of zero token = []
pairs_of (suc fuel) none = []
pairs_of (suc fuel) (some (pair, rest)) = pair ∷ pairs_of fuel (strtok (b'&' ∷ []) rest)

-- _http_addtolist, which appends
unfoldable pub add_pairs : List (Bytes × Bytes) → List Bytes → Option (List (Bytes × Bytes))
unfolding parse_pair
add_pairs largs [] = some largs
add_pairs largs (pair ∷ pairs) = do arg ← parse_pair pair; add_pairs (largs ++ arg ∷ []) pairs

unfoldable pub http_parseargs : List (Bytes × Bytes) → Bytes → Option (List (Bytes × Bytes))
unfolding add_pairs pairs_of plus_to_space
http_parseargs largs args =
    let buf = plus_to_space args in
    add_pairs largs (pairs_of (suc (length buf)) (strtok (b'&' ∷ []) buf))

-- NULL is `none`
unfoldable pub http_getcgiinfo : List (Bytes × Bytes) → Bytes → Option Bytes
unfolding equal
http_getcgiinfo [] what = none
http_getcgiinfo ((name, value) ∷ largs) what =
    let rest = http_getcgiinfo largs what in if equal name what then some value else rest
