-- ===== src/Clib/Decimal.antt =====
-- `atoi`, and what `printf` writes for %d and %u.
pub mod RoundTrip
pub mod Digits
use Prim.Native.Nat.{◌*◌, ◌/◌, ◌%◌}
use mathlib.Core.Bool.{cond}
use pageserv.Base.{
  ℕ, zero, suc, ◌+◌, ◌-◌, ◌≡◌, refl, List, [], ◌∷◌, ◌++◌, leb, ltb, ◌==◌, ◌&&◌, ◌||◌, Bool,
  if◌then◌else◌, Bytes, ℤ, pos, negsuc, neg_ℕ, codes,
}

-- %u: the last digit stands behind those of n / 10; the fuel n + 1 is more than the digits
unfoldable pub print_fuel : ℕ → ℕ → Bytes
print_fuel zero n = []
print_fuel (suc f) n =
    let front = print_fuel f (n / 10) in
    if ltb n 10 then (b'0' + n) ∷ [] else front ++ (b'0' + n % 10) ∷ []

unfoldable pub print_nat : ℕ → Bytes
unfolding print_fuel
print_nat n = print_fuel (suc n) n

-- %x of a number below 16 ^ fuel
unfoldable pub print_hex : ℕ → ℕ → Bytes
print_hex zero n = []
print_hex (suc fuel) n =
    let digit = if ltb (n % 16) 10 then b'0' + n % 16 else b'a' + n % 16 - 10 in
    let more = print_hex fuel (n / 16) in if n / 16 == 0 then digit ∷ [] else more ++ digit ∷ []

-- %d
unfoldable pub print_int : ℤ → Bytes
unfolding print_nat
print_int (pos n) = print_nat n
print_int (negsuc n) = b'-' ∷ print_nat (suc n)

-- the digits at the front of a text, read behind `acc`
unfoldable pub scan : ℕ → Bytes → ℕ
scan acc [] = acc
scan acc (c ∷ s) = if leb b'0' c && leb c b'9' then scan (acc * 10 + (c - b'0')) s else acc

-- one sign, then digits
signed_scan : Bytes → ℤ
unfolding scan
signed_scan [] = pos 0
signed_scan (c ∷ s) =
    if c == b'-'
    then neg_ℕ (scan 0 s)
    else if c == b'+'
    then pos (scan 0 s)
    else pos (scan 0 (c ∷ s))

-- atoi, and sscanf's %d: spaces, a sign, digits; where `int` overflows C promises nothing, and the
-- model keeps the number itself
unfoldable pub atoi : Bytes → ℤ
unfolding signed_scan
atoi [] = pos 0
atoi (c ∷ s) = if c == b' ' || leb 9 c && leb c 13 then atoi s else signed_scan (c ∷ s)

prints : (print_int (pos 1024) ≡ codes "1024") × (print_int (negsuc 6) ≡ codes "-7")
unfolding print_int
prints = (refl, refl)

reads : (atoi (codes " \t-12x") ≡ negsuc 11) × (atoi (codes "007\n") ≡ pos 7)
unfolding atoi
reads = (refl, refl)
