-- ===== src/Delivery/Tap/Send.antt =====
-- What `s_tap_send` of delivery/tap.c writes, and when it reports success.
use pageserv.Base.{
  ap, ◌%◌, All, All-append, ℕ, ◌+◌, ◌-◌, ◌≤◌, ◌<◌, ◌≡◌, ◌↔◌, ◌≢◌, ◌⊎◌, inl, inr, refl, true, false,
  List, [], ◌∷◌, ◌++◌, ◌==◌, ltb, if◌then◌else◌, Bytes, length, arith, Bool-cases, pos,
  length-append,
}
use pageserv.Queue.Format.{buflen}
use pageserv.Delivery.{Arrival, Line, put_line}
use pageserv.Delivery.Tap.Checksum.{total, checksum_value, tap_sent_checksum-tap_checksum}
use pageserv.Delivery.Tap.{
  c_ack, c_stx, c_etx, c_cr, is_answer, read_answer, block, sealed, s_tap_send, tap_sent_checksum,
  tap_checksum,
}

-- the bytes with which a terminal answers a block: ACK, NAK, RS and ESC
abbrev pub Answers : ℕ → Type 0
Answers c = (c ≡ 0x06) ⊎ (c ≡ 0x15) ⊎ (c ≡ 0x1e) ⊎ (c ≡ 0x1b)

-- the first byte that is an answer is ACK
abbrev pub IsAcked : List Arrival → Type 0
IsAcked [] = ⊥
IsAcked (a ∷ s) = (a.byte ≡ 0x06) ⊎ ((Answers a.byte → ⊥) × IsAcked s)

-- what a block says: STX, the id, CR, the text, CR and ETX
abbrev pub tap_text : Bytes → Bytes → Bytes
tap_text id message = 0x02 ∷ id ++ (0x0d ∷ message ++ 0x0d ∷ 0x03 ∷ [])

is_answer-Answers : (c : ℕ) → is_answer c ≡ true → Answers c
unfolding is_answer
is_answer-Answers c h = elim (Bool-cases (c == 0x06)) [
  | inl hit ↦ inl (ground (arith, hit))
  | inr no_ack ↦ elim (Bool-cases (c == 0x15)) [
    | inl hit ↦ inr (inl (ground (arith, hit)))
    | inr no_nak ↦ elim (Bool-cases (c == 0x1e)) [
      | inl hit ↦ inr (inr (inl (ground (arith, hit))))
      | inr no_rs ↦ inr (inr (inr (ground (arith, h, no_ack, no_nak, no_rs))))
    ]
  ]
]

Answers-is_answer : (c : ℕ) → Answers c → is_answer c ≡ true
unfolding is_answer
Answers-is_answer c (inl e) = rw e refl
Answers-is_answer c (inr (inl e)) = rw e refl
Answers-is_answer c (inr (inr (inl e))) = rw e refl
Answers-is_answer c (inr (inr (inr e))) = rw e refl

-- what the loop gives is 'X' or the first answer, and never 0
read_answer-IsAcked :
    (s : List Arrival)
    → ((read_answer s).0 ≢ 0)
      × ((read_answer s).0 ≡ c_ack → IsAcked s)
      × (IsAcked s → (read_answer s).0 ≡ c_ack)
unfolding read_answer
read_answer-IsAcked [] = ((λ e. omega arith), (λ e. absurd (omega arith)), λ f. absurd f)
read_answer-IsAcked (a ∷ s) =
    let (some_answer, there, back) = read_answer-IsAcked s in
    elim (Bool-cases (is_answer a.byte)) [
      | inl answers ↦ rw answers (
        (λ e. unfold is_answer in ground arith),
        (λ e. inl e),
        λ f. elim f [
          | inl e ↦ e
          | inr (other, g) ↦ absurd (other (is_answer-Answers a.byte answers))
        ],
      )
      | inr noise ↦ rw noise (
        some_answer,
        (λ e. inr ((λ h. absurd (ground (arith, noise, Answers-is_answer a.byte h))), there e)),
        λ f. elim f [
          | inl e ↦ absurd (ground (arith, noise, Answers-is_answer a.byte (inl e)))
          | inr (other, g) ↦ back g
        ],
      )
    ]

sent_or_not : (c : ℕ) → c ≢ 0 → ((if c == c_ack then pos 0 else pos c) ≡ pos 0) ↔ (c ≡ c_ack)
sent_or_not c h = ground arith

length-sealed :
    (id message : Bytes) → length (sealed (block id message)) ≡ length id + length message + 8
unfolding sealed block tap_sent_checksum
length-sealed id message = omega (
  arith,
  length-append (c_stx ∷ id ++ (c_cr ∷ message ++ c_cr ∷ c_etx ∷ []))
      (tap_sent_checksum (tap_checksum (block id message)) ++ c_cr ∷ []),
  length-append id (c_cr ∷ message ++ c_cr ∷ c_etx ∷ []),
  length-append message (c_cr ∷ c_etx ∷ []),
)

-- the three characters behind a block of seven-bit bytes
block_checksum : Bytes → Bytes → Bytes
block_checksum id message = tap_sent_checksum (tap_checksum (tap_text id message))

sealed-tap_text :
    (id message : Bytes)
    → sealed (block id message) ≡ tap_text id message ++ (block_checksum id message ++ 0x0d ∷ [])
unfolding sealed block block_checksum
sealed-tap_text id message = refl

checksum-tap_text :
    (id message : Bytes)
    → All (λ c. c < 128) id
    → All (λ c. c < 128) message
    → checksum_value (block_checksum id message) ≡ total (tap_text id message) % 4096
unfolding block_checksum
checksum-tap_text id message h k =
    let ends : All (λ c. c < 128) (0x0d ∷ 0x03 ∷ []) = (omega arith, (omega arith, tt)) in
    let behind = All-append (λ c. c < 128) message (0x0d ∷ 0x03 ∷ []) k ends in
    let seven =
      All-append (λ c. c < 128) id (0x0d ∷ message ++ 0x0d ∷ 0x03 ∷ []) h (omega arith, behind) in
    (tap_sent_checksum-tap_checksum (tap_text id message) (omega arith, seven)).0

-- A page whose id and text have no more than 1004 bytes is written to the modem as STX, the id, CR, the
-- text, CR and ETX, a checksum and CR, which fit the buffer of 1024 bytes with its end; of seven-bit
-- bytes the three characters of the checksum stand for the sum of the bytes before them, modulo 4096. And
-- 0 is returned exactly when the first ACK, NAK, RS or ESC that arrives is ACK.
pub s_tap_send_lem :
    (id message : Bytes) (p : Line)
    → length id + length message ≤ buflen - 20
    → (checksum : Bytes) × ((s_tap_send id message p).1.out
        ≡ p.out ++ (tap_text id message ++ (checksum ++ 0x0d ∷ [])))
      × (length (tap_text id message ++ (checksum ++ 0x0d ∷ [])) < buflen)
      × (All (λ c. c < 128) id
          → All (λ c. c < 128) message
          → checksum_value checksum ≡ total (tap_text id message) % 4096)
      × (((s_tap_send id message p).0 ≡ pos 0) ↔ IsAcked p.incoming)
unfolding s_tap_send put_line
s_tap_send_lem id message p h =
    let short : ltb (buflen - 20) (length message + length id) ≡ false = ground arith in
    let (some_answer, there, back) = read_answer-IsAcked p.incoming in
    let answer = sent_or_not (read_answer p.incoming).0 some_answer in
    (
      block_checksum id message,
      rw short (ap (λ t. p.out ++ t) (sealed-tap_text id message)),
      omega (
        arith,
        length-sealed id message,
        ap (λ (t : Bytes). length t) (sealed-tap_text id message),
      ),
      checksum-tap_text id message,
      rw short ((λ e. there (answer.0 e)), λ f. answer.1 (back f)),
    )
