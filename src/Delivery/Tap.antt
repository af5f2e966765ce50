-- ===== src/Delivery/Tap.antt =====
-- The TAP protocol: delivery/tap.c, with the characters of include/tap.h. A `char` is signed.
pub mod Checksum
pub mod Send
use Prim.Native.Nat.{bit_and}
use pageserv.Base.{
  ℕ, zero, suc, ◌+◌, ◌-◌, ◌*◌, ◌/◌, ◌≡◌, refl, Bool, true, false, not, Option, none, some, List, [],
  ◌∷◌, ◌++◌, ◌==◌, leb, ltb, if◌then◌else◌, Bytes, ℤ, pos, negsuc, neg_ℕ, ◌+ℤ◌, ◌-ℤ◌, eq_ℤ,
  pos_part, length, codes, ◌||◌,
}
use pageserv.Queue.Format.{buflen}
use pageserv.Delivery.{Arrival, Line, put_line}
use pageserv.Delivery.Modem.{s_modem_waitfor}

abbrev pub c_stx : ℕ
c_stx = 0x02

abbrev pub c_etx : ℕ
c_etx = 0x03

abbrev pub c_eot : ℕ
c_eot = 0x04

abbrev pub c_ack : ℕ
c_ack = 0x06

abbrev pub c_cr : ℕ
c_cr = 0x0d

abbrev pub c_nak : ℕ
c_nak = 0x15

abbrev pub c_esc : ℕ
c_esc = 0x1b

abbrev pub c_rs : ℕ
c_rs = 0x1e

-- string[i] - (int)(string[i] / 128) * 128, of a signed char: -128 becomes 0, others stay
pub low_bits : ℕ → ℤ
low_bits c = if ltb c 128 then pos c else if c == 128 then pos 0 else neg_ℕ (256 - c)

unfoldable pub tap_checksum : Bytes → ℤ
unfolding low_bits
tap_checksum [] = pos 0
tap_checksum (c ∷ s) = low_bits c +ℤ tap_checksum s

-- (int)(sum / 16)
unfoldable pub sixteenth : ℤ → ℤ
sixteenth (pos n) = pos (n / 16)
sixteenth (negsuc n) = neg_ℕ (suc n / 16)

-- 16 * z
times_16 : ℤ → ℤ
times_16 (pos n) = pos (16 * n)
times_16 (negsuc n) = neg_ℕ (16 * suc n)

-- 48 + sum - (int)(sum / 16) * 16, which lies from 33 to 63
digit_of : ℤ → ℕ
unfolding sixteenth times_16
digit_of sum = pos_part (pos 48 +ℤ sum -ℤ times_16 (sixteenth sum))

unfoldable pub tap_sent_checksum : ℤ → Bytes
unfolding digit_of sixteenth
tap_sent_checksum sum =
    digit_of (sixteenth (sixteenth sum)) ∷ digit_of (sixteenth sum) ∷ digit_of sum ∷ []

-- for(retry = 0; retry < RETRY_1; retry++), with as many rounds left
login_dance : ℕ → Line → Bool × Line
unfolding put_line s_modem_waitfor
login_dance zero p = (false, p)
login_dance (suc retry) p =
    let (ok, p1) = s_modem_waitfor (codes "ID=") 1 (put_line (c_cr ∷ []) p) in
    let more = login_dance retry p1 in if ok then (true, p1) else more

-- true for the result 0
unfoldable pub s_tap_init : ℕ → Line → Bool × Line
unfolding login_dance s_modem_waitfor put_line
s_tap_init flags p =
    let (ok, p1) = if bit_and flags 1 == 0 then (true, p) else login_dance 3 p in
    let more = s_modem_waitfor (c_esc ∷ codes "[p") 10 (put_line (c_esc ∷ codes "PG1\r") p1) in
    if ok then more else (false, p1)

unfoldable pub s_tap_end : Line → Line
unfolding put_line
s_tap_end p = put_line (c_eot ∷ c_cr ∷ []) p

-- charfound(buf, search), of a buffer of one byte
unfoldable pub is_answer : ℕ → Bool
is_answer c = c == c_ack || c == c_esc || c == c_nak || c == c_rs

-- the loop that reads; 'X' where nothing more comes
unfoldable pub read_answer : List Arrival → ℕ × List Arrival
unfolding is_answer
read_answer [] = (b'X', [])
read_answer (a ∷ s) = let more = read_answer s in if is_answer a.byte then (a.byte, s) else more

-- the block without its checksum
unfoldable pub block : Bytes → Bytes → Bytes
block id message = c_stx ∷ id ++ (c_cr ∷ message ++ c_cr ∷ c_etx ∷ [])

unfoldable pub sealed : Bytes → Bytes
unfolding tap_checksum tap_sent_checksum
sealed text = text ++ (tap_sent_checksum (tap_checksum text) ++ c_cr ∷ [])

unfoldable pub s_tap_send : Bytes → Bytes → Line → ℤ × Line
unfolding put_line read_answer block sealed
s_tap_send id message p =
    if ltb (buflen - 20) (length message + length id)
    then (negsuc 0, p)
    else (let (c, s) = read_answer p.incoming in
        let p1 = record (put_line (sealed (block id message)) p) { incoming = s } in
        (if c == c_ack then pos 0 else pos c, p1))
