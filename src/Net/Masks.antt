-- ===== src/Net/Masks.antt =====
-- Netmasks, and how many addresses they leave.
use pageserv.Base.{
  ℕ, zero, suc, ◌+◌, ◌-◌, ◌*◌, ◌%◌, ◌^◌, ◌≤◌, ◌<◌, ◌≡◌, refl, ap, ◌||◌, true, false, Bool-cases,
  inl, inr, ◌↔◌, leb, ◌==◌, arith, ◌∙◌, all_below, all_below_sound, ==_iff,
}
use native.Mathlib.Nat.{pow-suc, pow-le-pow_right}
use native.Mathlib.Numerals.{add-one}
use pageserv.Net.{
  u32, nmc_bits_to_n, nmc_count_bits, first_power, nmc_addrs_to_bits, nmc_bits_to_addrs,
}

mask_table : all_below 33 (λ b. nmc_count_bits (nmc_bits_to_n b) == b) ≡ true
unfolding all_below nmc_count_bits nmc_bits_to_n
mask_table = refl

value_table : all_below 33 (λ b. nmc_bits_to_n b == u32 - 2 ^ (32 - b)) ≡ true
unfolding all_below nmc_bits_to_n
value_table = refl

-- For 0 to 32 bits the netmask is that many ones at the high end and zeros below, and counting its
-- bits gives their number back.
pub nmc_count_bits-nmc_bits_to_n :
    (bits : ℕ)
    → bits ≤ 32
    → (nmc_bits_to_n bits ≡ u32 - 2 ^ (32 - bits)) × (nmc_count_bits (nmc_bits_to_n bits) ≡ bits)
nmc_count_bits-nmc_bits_to_n bits h = (
  (==_iff _ _).0 (
      all_below_sound 33 (λ b. nmc_bits_to_n b == u32 - 2 ^ (32 - b)) bits value_table
        (omega arith)),
  (==_iff _ _).0 (
      all_below_sound 33 (λ b. nmc_count_bits (nmc_bits_to_n b) == b) bits mask_table
        (omega arith)),
)

small_table : all_below 32 (λ i. 2 ^ i % u32 == 2 ^ i) ≡ true
unfolding all_below
small_table = refl

small_power : (i : ℕ) → i < 32 → 2 ^ i % u32 ≡ 2 ^ i
small_power i h = (==_iff _ _).0 (all_below_sound 32 (λ i. 2 ^ i % u32 == 2 ^ i) i small_table h)

double_power : (i : ℕ) → 2 ^ i % u32 * 2 % u32 ≡ 2 ^ (i + 1) % u32
double_power i = rw add-one (rw (pow-suc 2 i) (omega arith))

le-first_power : (f i n addr : ℕ) → i ≤ first_power f i n addr
unfolding first_power
le-first_power zero i n addr = omega arith
le-first_power (suc f) i n addr = ground (arith, le-first_power f (i + 1) (n * 2 % u32) addr)

powers_differ :
    (i j addr n : ℕ) → n ≡ 2 ^ i → leb addr n ≡ false → (i == j) ≡ true → addr ≤ 2 ^ j → ⊥
powers_differ i j addr n e less last fits =
    let k : i ≡ j = (==_iff i j).0 last in ground (arith, ap (λ (m : ℕ). 2 ^ m) k)

-- the loop stops by round `j` exactly when 2 ^ j is enough
first_power_iff :
    (f i n addr j : ℕ)
    → f + i ≡ 32
    → n ≡ 2 ^ i % u32
    → i ≤ j
    → j < 32
    → (addr ≤ 2 ^ j → first_power f i n addr ≤ j) × (first_power f i n addr ≤ j → addr ≤ 2 ^ j)
unfolding first_power
first_power_iff zero i n addr j e p h k = absurd (omega arith)
first_power_iff (suc f) i n addr j e p h k =
    let same : n ≡ 2 ^ i = p ∙ small_power i (omega arith) in
    let up : 2 ^ i ≤ 2 ^ j = pow-le-pow_right (omega arith) h in
    elim (Bool-cases (leb addr n)) [
      | inl enough ↦ rw enough ((λ _. h), λ _. ground arith)
      | inr less ↦ rw less (elim (Bool-cases (i == j)) [
        | inl last ↦ (
          (λ fits. absurd (powers_differ i j addr n same less last fits)),
          λ r. absurd (ground (arith, le-first_power f (i + 1) (n * 2 % u32) addr)),
        )
        | inr more ↦
            first_power_iff f (i + 1) (n * 2 % u32) addr j (omega arith) (rw p (double_power i))
              (ground arith) k
      ])
    ]

addrs_table : all_below 33 (λ b. b == 0 || nmc_bits_to_addrs b == 2 ^ (32 - b)) ≡ true
unfolding all_below nmc_bits_to_addrs
addrs_table = refl

addrs_power : (bits : ℕ) → 0 < bits → bits ≤ 32 → nmc_bits_to_addrs bits ≡ 2 ^ (32 - bits)
addrs_power bits lo hi =
    let checked =
      all_below_sound 33 (λ b. b == 0 || nmc_bits_to_addrs b == 2 ^ (32 - b)) bits addrs_table
        (omega arith) in
    ground (arith, checked)

-- `nmc_addrs_to_bits` finds the longest mask that leaves enough addresses: a mask of 1 to 32 bits
-- leaves at least `addr` of them exactly when it is no longer than the result.
pub nmc_addrs_to_bits_iff :
    (addr bits : ℕ)
    → 0 < bits
    → bits ≤ 32
    → (addr ≤ nmc_bits_to_addrs bits) ↔ (bits ≤ nmc_addrs_to_bits addr)
unfolding nmc_addrs_to_bits
nmc_addrs_to_bits_iff addr bits lo hi =
    let stops =
      first_power_iff 32 0 1 addr (32 - bits) (omega arith) refl (omega arith) (omega arith) in
    rw (addrs_power bits lo hi) ((λ h. omega (arith, stops.0 h)), λ h. stops.1 (omega arith))
