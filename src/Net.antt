-- ===== src/Net.antt =====
-- Network numbers: pageserv/nettools.c. An `unsigned int` is a number below 2 ^ 32, and the shifts
-- wrap around there; the `int`s of this file are their 32 bits.
pub mod Masks
pub mod Quad
use pageserv.Base.{
  ℕ, zero, suc, ◌+◌, ◌-◌, ◌*◌, ◌/◌, ◌%◌, ◌^◌, Option, none, some, List, [], ◌∷◌, ◌++◌, leb, ◌==◌,
  if◌then◌else◌, Bytes, ℤ, pos, negsuc,
}
use pageserv.Clib.{strtok}
use pageserv.Clib.Decimal.{atoi, print_nat}

abbrev pub u32 : ℕ
u32 = 2 ^ 32

-- ret <<= 1; ret++; as often as there are bits
pub ones : ℕ → ℕ → ℕ
ones zero ret = ret
ones (suc n) ret = ones n ((ret * 2 % u32 + 1) % u32)

-- ret <<= 1;
pub shift_left : ℕ → ℕ → ℕ
shift_left zero ret = ret
shift_left (suc n) ret = shift_left n (ret * 2 % u32)

-- the second loop runs for i = bits, .., 31
unfoldable pub nmc_bits_to_n : ℕ → ℕ
unfolding ones shift_left
nmc_bits_to_n bits = shift_left (32 - bits) (ones bits 1)

-- while((addr & 1) == 0); 32 rounds are enough for an address that is not 0
pub count_zeros : ℕ → ℕ → ℕ → ℕ
count_zeros zero addr ret = ret
count_zeros (suc f) addr ret =
    let more = count_zeros f (addr / 2) (ret + 1) in if addr % 2 == 0 then more else ret

unfoldable pub nmc_count_bits : ℕ → ℕ
unfolding count_zeros
nmc_count_bits addr = if addr == 0 then 0 else 32 - count_zeros 32 addr 0

-- for(i = 0; i < 32; i++), with 32 - i rounds left; `n` wraps as an `int`, and is compared with the
-- address as an `unsigned`
pub first_power : ℕ → ℕ → ℕ → ℕ → ℕ
first_power zero i n addr = i
first_power (suc f) i n addr =
    let next = first_power f (i + 1) (n * 2 % u32) addr in if leb addr n then i else next

unfoldable pub nmc_addrs_to_bits : ℕ → ℕ
unfolding first_power
nmc_addrs_to_bits addr = 32 - first_power 32 0 1 addr

unfoldable pub nmc_bits_to_addrs : ℕ → ℕ
unfolding shift_left
nmc_bits_to_addrs bits = if bits == 0 then 0 else shift_left (32 - bits) 1

-- The four bytes of an address, the first the highest: `ntohl` and the copy of its memory give them
-- in this order on every machine.
unfoldable pub octet : ℕ → ℕ → ℕ
octet addr k = addr / 2 ^ (24 - 8 * k) % 256

unfoldable pub nmc_int_to_dq : ℕ → Bytes
unfolding octet
nmc_int_to_dq addr =
    print_nat (octet addr 0)
    ++ (b'.'
        ∷ (print_nat (octet addr 1)
            ++ (b'.' ∷ (print_nat (octet addr 2) ++ (b'.' ∷ print_nat (octet addr 3))))))

-- an `int` as its 32 bits
unfoldable pub to_u32 : ℤ → ℕ
to_u32 (pos n) = n % u32
to_u32 (negsuc n) = u32 - 1 - n % u32

abbrev dot : Bytes
dot = b'.' ∷ []

infixl 5 ◌>>=◌
abbrev ◌>>=◌ : Option (Bytes × Bytes) → (Bytes × Bytes → Option ℕ) → Option ℕ
none >>= f = none
some a >>= f = f a

-- the four tokens; `none` where one is missing
parse_quad : Bytes → Option ℕ
unfolding to_u32
parse_quad dq = do
  (a, r1) ← strtok dot dq
  (b, r2) ← strtok dot r1
  (c, r3) ← strtok dot r2
  (d, r4) ← strtok dot r3
  some (
      (to_u32 (atoi a) * 2 ^ 24
        + to_u32 (atoi b) * 2 ^ 16
        + to_u32 (atoi c) * 2 ^ 8
        + to_u32 (atoi d))
      % u32)

or_zero : Option ℕ → ℕ
or_zero none = 0
or_zero (some n) = n

unfoldable pub nmc_dq_to_int : Bytes → ℕ
unfolding parse_quad or_zero
nmc_dq_to_int dq = or_zero (parse_quad dq)
