-- ===== src/Delivery/Tap/Checksum.antt =====
-- The checksum of a TAP block: delivery/tap.c.
use pageserv.Base.{
  ℕ, ◌+◌, ◌-◌, ◌*◌, ◌/◌, ◌%◌, ◌≤◌, ◌<◌, ◌≡◌, refl, [], ◌∷◌, Bytes, ℤ, pos, arith, All,
}
use pageserv.Delivery.Tap.{low_bits, tap_checksum, sixteenth, times_16, digit_of, tap_sent_checksum}

-- the sum of the bytes, and what three characters from '0' to '?' stand for
abbrev pub total : Bytes → ℕ
total [] = 0
total (c ∷ s) = c + total s

abbrev pub checksum_value : Bytes → ℕ
checksum_value (a ∷ b ∷ c ∷ []) = (a - 48) * 256 + (b - 48) * 16 + (c - 48)
checksum_value _ = 0

tap_checksum-total : (s : Bytes) → All (λ c. c < 128) s → tap_checksum s ≡ pos (total s)
unfolding tap_checksum low_bits
tap_checksum-total [] h = refl
tap_checksum-total (c ∷ s) h = rw (tap_checksum-total s h.1) (ground arith)

digit_of-pos : (n : ℕ) → digit_of (pos n) ≡ 48 + n % 16
unfolding digit_of sixteenth times_16
digit_of-pos n = ground arith

sixteenth-pos : (n : ℕ) → sixteenth (pos n) ≡ pos (n / 16)
unfolding sixteenth
sixteenth-pos n = refl

tap_sent_checksum-digits :
    (z : ℤ)
    → tap_sent_checksum z
      ≡ digit_of (sixteenth (sixteenth z)) ∷ digit_of (sixteenth z) ∷ digit_of z ∷ []
unfolding tap_sent_checksum
tap_sent_checksum-digits z = refl

-- Of a text of seven-bit characters the three checksum characters lie from '0' to '?' and stand for the
-- sum of its characters, modulo 4096.
pub tap_sent_checksum-tap_checksum :
    (s : Bytes)
    → All (λ c. c < 128) s
    → (checksum_value (tap_sent_checksum (tap_checksum s)) ≡ total s % 4096)
      × All (λ c. (48 ≤ c) × (c < 64)) (tap_sent_checksum (tap_checksum s))
tap_sent_checksum-tap_checksum s h =
    let n = total s in
    rw
      (
        tap_checksum-total s h,
        tap_sent_checksum-digits (pos n),
        sixteenth-pos n,
        sixteenth-pos (n / 16),
        digit_of-pos n,
        digit_of-pos (n / 16),
        digit_of-pos (n / 16 / 16),
      )
      (
        omega arith,
        (
          (omega arith, omega arith),
          ((omega arith, omega arith), ((omega arith, omega arith), tt)),
        ),
      )
