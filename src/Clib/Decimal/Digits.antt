-- ===== src/Clib/Decimal/Digits.antt =====
-- What `printf` writes for %u is one or more digits.
use Prim.Native.Nat.{◌/◌, ◌%◌}
use pageserv.Base.{
  ℕ, zero, suc, ◌+◌, ◌≡◌, true, [], ◌∷◌, ltb, arith, All, All-append, Bool-cases, inl, inr,
}
use pageserv.Clib.{is_digit}
use pageserv.Clib.Decimal.{print_fuel, print_nat}

print_fuel-digits : (f n : ℕ) → All (λ c. is_digit c ≡ true) (print_fuel f n)
unfolding print_fuel
print_fuel-digits zero n = tt
print_fuel-digits (suc f) n = elim (Bool-cases (ltb n 10)) [
  | inl small ↦ rw small (ground arith, tt)
  | inr large ↦ rw large (
      All-append (λ c. is_digit c ≡ true) (print_fuel f (n / 10)) ((b'0' + n % 10) ∷ [])
        (print_fuel-digits f (n / 10)) (ground arith, tt))
]

pub print_nat-digits : (n : ℕ) → All (λ c. is_digit c ≡ true) (print_nat n)
unfolding print_nat
print_nat-digits n = print_fuel-digits (suc n) n
