-- ===== src/Net/Quad.antt =====
-- Dotted quads: what `nmc_int_to_dq` prints, `nmc_dq_to_int` reads.
use pageserv.Base.{
  ℕ, ◌+◌, ◌*◌, ◌/◌, ◌%◌, ◌^◌, ◌<◌, ◌≡◌, refl, true, false, Bool, ◌&&◌, some, [], ◌∷◌, ◌++◌, ◌==◌,
  if◌then◌else◌, arith, ◌∙◌, ap, Bytes, all_below, all_below_sound,
}
use pageserv.Clib.{token_end, strtok}
use pageserv.Clib.Decimal.{atoi, print_nat}
use pageserv.Net.{u32, dot, octet, to_u32, parse_quad, or_zero, nmc_int_to_dq, nmc_dq_to_int}

abbrev not_dot : ℕ → Bool
not_dot c = if c == b'.' then false else true

-- no byte of `s` is the dot
abbrev dotless : Bytes → Bool
dotless [] = true
dotless (c ∷ s) = not_dot c && dotless s

-- an octet's print is not empty, has no dot, and reads back
abbrev prints_well : ℕ → Bytes → Bool
prints_well n [] = false
prints_well n (c ∷ s) = dotless (c ∷ s) && to_u32 (atoi (c ∷ s)) == n

octet_table : all_below 256 (λ n. prints_well n (print_nat n)) ≡ true
unfolding all_below print_nat atoi to_u32
octet_table = refl

token_end-dot : (s rest : Bytes) → dotless s ≡ true → token_end dot (s ++ b'.' ∷ rest) ≡ (s, rest)
unfolding token_end
token_end-dot [] rest h = refl
token_end-dot (c ∷ s) rest h = ground (arith, token_end-dot s rest)

token_end-nil : (s : Bytes) → dotless s ≡ true → token_end dot s ≡ (s, [])
unfolding token_end
token_end-nil [] h = refl
token_end-nil (c ∷ s) h = ground (arith, token_end-nil s)

strtok_start :
    (c : ℕ) (s : Bytes) → not_dot c ≡ true → strtok dot (c ∷ s) ≡ some (token_end dot (c ∷ s))
unfolding strtok
strtok_start c s h = ground arith

strtok-dot :
    (n : ℕ) (s rest : Bytes)
    → prints_well n s ≡ true
    → strtok dot (s ++ b'.' ∷ rest) ≡ some (s, rest)
strtok-dot n [] rest h = cc
strtok-dot n (c ∷ s) rest h =
    strtok_start c (s ++ b'.' ∷ rest) (ground arith)
    ∙ ap some (token_end-dot (c ∷ s) rest (ground arith))

strtok-nil : (n : ℕ) (s : Bytes) → prints_well n s ≡ true → strtok dot s ≡ some (s, [])
strtok-nil n [] h = cc
strtok-nil n (c ∷ s) h =
    strtok_start c s (ground arith) ∙ ap some (token_end-nil (c ∷ s) (ground arith))

reads_octet : (n : ℕ) (s : Bytes) → prints_well n s ≡ true → to_u32 (atoi s) ≡ n
reads_octet n [] h = cc
reads_octet n (c ∷ s) h = ground arith

octet_prints : (n : ℕ) → n < 256 → prints_well n (print_nat n) ≡ true
octet_prints n h = all_below_sound 256 (λ n. prints_well n (print_nat n)) n octet_table h

quad_digits :
    (addr : ℕ)
    → addr < u32
    → (addr / 2 ^ 24 % 256 * 2 ^ 24
          + addr / 2 ^ 16 % 256 * 2 ^ 16
          + addr / 2 ^ 8 % 256 * 2 ^ 8
          + addr / 2 ^ 0 % 256)
        % u32
      ≡ addr
quad_digits addr h = omega arith

parse_quad_lem :
    (a b c d : ℕ)
    → a < 256
    → b < 256
    → c < 256
    → d < 256
    → parse_quad
        (print_nat a ++ (b'.' ∷ (print_nat b ++ (b'.' ∷ (print_nat c ++ (b'.' ∷ print_nat d))))))
      ≡ some ((a * 2 ^ 24 + b * 2 ^ 16 + c * 2 ^ 8 + d) % u32)
unfolding parse_quad
parse_quad_lem a b c d ha hb hc hd = rw (
  strtok-dot a (print_nat a) _ (octet_prints a ha),
  strtok-dot b (print_nat b) _ (octet_prints b hb),
  strtok-dot c (print_nat c) _ (octet_prints c hc),
  strtok-nil d (print_nat d) (octet_prints d hd),
  reads_octet a (print_nat a) (octet_prints a ha),
  reads_octet b (print_nat b) (octet_prints b hb),
  reads_octet c (print_nat c) (octet_prints c hc),
  reads_octet d (print_nat d) (octet_prints d hd),
)

-- Every address is read back from its dotted quad.
pub nmc_dq_to_int-nmc_int_to_dq :
    (addr : ℕ) → addr < u32 → nmc_dq_to_int (nmc_int_to_dq addr) ≡ addr
unfolding nmc_dq_to_int nmc_int_to_dq
nmc_dq_to_int-nmc_int_to_dq addr h =
    ap or_zero (
      parse_quad_lem (octet addr 0) (octet addr 1) (octet addr 2) (octet addr 3) (omega arith)
        (omega arith) (omega arith) (omega arith))
    ∙ quad_digits addr h
