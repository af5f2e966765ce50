-- ===== src/Clib/Decimal/RoundTrip.antt =====
-- `atoi` reads back what `printf` wrote.
use Prim.Native.Nat.{◌*◌, ◌/◌, ◌%◌, ◌<◌}
use pageserv.Base.{
  ℕ, zero, suc, ◌+◌, ◌≡◌, refl, ◌∙◌, [], ◌∷◌, ◌++◌, leb, ltb, ◌&&◌, false, Bytes, ℤ, pos, negsuc,
  neg_ℕ, arith, append_assoc, ap, Bool-cases, inl, inr,
}
use pageserv.Clib.Decimal.{print_fuel, print_nat, print_int, scan, atoi}

-- the text goes on with no digit
abbrev pub StopsDigits : Bytes → Type 0
StopsDigits [] = Unit
StopsDigits (c ∷ s) = (leb b'0' c && leb c b'9') ≡ false

scan_digit : (acc d : ℕ) (s : Bytes) → d < 10 → scan acc ((b'0' + d) ∷ s) ≡ scan (acc * 10 + d) s
unfolding scan
scan_digit acc d s h = ground arith

scan-print_fuel : (f n : ℕ) (rest : Bytes) → n < f → scan 0 (print_fuel f n ++ rest) ≡ scan n rest
unfolding print_fuel
scan-print_fuel zero n rest h = absurd (omega arith)
scan-print_fuel (suc f) n rest h = elim (Bool-cases (ltb n 10)) [
  | inl small ↦ rw small (scan_digit 0 n rest (ground arith) ∙ ap (λ k. scan k rest) (omega arith))
  | inr large ↦ rw large (
      rw append_assoc (
        scan-print_fuel f (n / 10) ((b'0' + n % 10) ∷ rest) (ground arith)
        ∙ scan_digit (n / 10) (n % 10) rest (omega arith)
        ∙ ap (λ k. scan k rest) (omega arith)))
]

pub scan-print_nat : (n : ℕ) (rest : Bytes) → scan 0 (print_nat n ++ rest) ≡ scan n rest
unfolding print_nat
scan-print_nat n rest = scan-print_fuel (suc n) n rest (omega arith)

pub scan_stops : (n : ℕ) (rest : Bytes) → StopsDigits rest → scan n rest ≡ n
unfolding scan
scan_stops n [] h = refl
scan_stops n (c ∷ s) h = rw h

-- a printed number is a digit and more
print_fuel_head :
    (f n : ℕ) → n < f → (d : ℕ) × (s : Bytes) × (print_fuel f n ≡ (b'0' + d) ∷ s) × (d < 10)
unfolding print_fuel
print_fuel_head zero n h = absurd (omega arith)
print_fuel_head (suc f) n h = elim (Bool-cases (ltb n 10)) [
  | inl small ↦ (n, [], rw small, ground arith)
  | inr large ↦
      let (d, s, e, lt) = print_fuel_head f (n / 10) (ground arith) in
      (d, s ++ (b'0' + n % 10) ∷ [], rw large (rw e refl), lt)
]

pub print_nat_head : (n : ℕ) → (d : ℕ) × (s : Bytes) × (print_nat n ≡ (b'0' + d) ∷ s) × (d < 10)
unfolding print_nat
print_nat_head n = print_fuel_head (suc n) n (omega arith)

atoi_digit : (d : ℕ) (s : Bytes) → d < 10 → atoi ((b'0' + d) ∷ s) ≡ pos (scan 0 ((b'0' + d) ∷ s))
unfolding atoi
atoi_digit d s h = ground arith

pub atoi-print_nat : (n : ℕ) (rest : Bytes) → StopsDigits rest → atoi (print_nat n ++ rest) ≡ pos n
atoi-print_nat n rest h =
    let (d, s, e, lt) = print_nat_head n in
    rw e (atoi_digit d (s ++ rest) lt)
    ∙ ap pos (rw e at (scan-print_nat n rest) ∙ scan_stops n rest h)

atoi_minus : (s : Bytes) → atoi (b'-' ∷ s) ≡ neg_ℕ (scan 0 s)
unfolding atoi
atoi_minus s = refl

-- Every integer is read back from its print, whatever follows that is no digit.
pub atoi-print_int : (z : ℤ) (rest : Bytes) → StopsDigits rest → atoi (print_int z ++ rest) ≡ z
unfolding print_int
atoi-print_int (pos n) rest h = atoi-print_nat n rest h
atoi-print_int (negsuc n) rest h =
    atoi_minus _ ∙ ap neg_ℕ (scan-print_nat (suc n) rest ∙ scan_stops (suc n) rest h)
