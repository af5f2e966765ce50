-- ===== src/Http/Auth.antt =====
-- `_http_authdecode_match` and `_http_authdecode` of http/httpparse.c: the name and the password of basic
-- authentication. Reading or writing past an array is `none`.
pub mod RoundTrip
use Prim.Native.Nat.{bit_or}
use pageserv.Clib.{c_string}
use pageserv.Base.{
  ◌>>=◌, ℕ, zero, suc, ◌+◌, ◌*◌, ◌/◌, ◌%◌, Bool, Option, none, some, [], ◌∷◌, ◌++◌, ◌==◌,
  if◌then◌else◌, Bytes, codes,
}

abbrev pub alphabet : Bytes
alphabet = codes "ABCDEFGHIJKLMNOPQRSTUVWXYZabcdefghijklmnopqrstuvwxyz0123456789+/="

-- the place of c in what is left of the alphabet, which starts at i
unfoldable pub place_of : Bytes → ℕ → ℕ → ℕ
place_of [] c i = i
place_of (d ∷ s) c i = let next = place_of s c (i + 1) in if d == c then i else next

-- 64 for the padding, 65 for another byte
unfoldable pub authdecode_match : ℕ → ℕ
unfolding place_of
authdecode_match c = place_of alphabet c 0

-- Four characters, as numbers: what dest has so far, and the byte at dest[i] behind it.
unfoldable pub decode_group : ℕ → ℕ → ℕ → ℕ → Bytes → Bytes × ℕ
decode_group a b c d out =
    let x = a * 4 % 256 + b / 16 % 4 in
    let y = b % 16 * 16 + c / 4 % 16 in
    let z = bit_or (c % 4 * 64) d in
    if b == 64
    then (out, a * 4 % 256)
    else if c == 64
    then (out ++ x ∷ [], b % 16 * 16)
    else if d == 64
    then (out ++ x ∷ y ∷ [], c % 4 * 64)
    else (out ++ x ∷ y ∷ z ∷ [], 0)

unfoldable pub decode_loop : Bytes → Bytes × ℕ → Option (Bytes × ℕ)
unfolding authdecode_match decode_group
decode_loop [] dest = some dest
decode_loop (a ∷ b ∷ c ∷ d ∷ s) (out, last) = decode_loop s (
    decode_group (authdecode_match a) (authdecode_match b) (authdecode_match c) (authdecode_match d)
      out)
decode_loop _ dest = none

-- for(i = 0; dest[i] != ':'; i++); what is before and behind the colon
unfoldable pub split_colon : Bytes → Option (Bytes × Bytes)
split_colon [] = none
split_colon (c ∷ s) =
    let next = (do (before, behind) ← split_colon s; some (c ∷ before, behind)) in
    if c == b':' then some ([], s) else next

-- r->auth.name and r->auth.pass
unfoldable pub http_authdecode : Bytes → Option (Bytes × Bytes)
unfolding decode_loop split_colon c_string
http_authdecode string = do
  (out, last) ← decode_loop string ([], 0)
  (name, pass) ← split_colon (out ++ last ∷ [])
  some (c_string name, c_string pass)
