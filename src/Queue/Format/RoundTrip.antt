-- ===== src/Queue/Format/RoundTrip.antt =====
-- `readqueuefile` reads back the entry that `storequeue` wrote.
use pageserv.Base.{
  ℕ, zero, suc, ◌+◌, ◌≤◌, ◌<◌, ◌^◌, ◌/◌, ◌≡◌, refl, ◌∙◌, Bool, true, false, [], ◌∷◌, ◌++◌, ltb,
  ◌==◌, Bytes, ℤ, pos, negsuc, length, length-append, arith, Bool-cases, inl, inr,
}
use native.Mathlib.Nat.{pow-suc}
use pageserv.Clib.Decimal.{print_fuel, print_nat, print_int, atoi}
use pageserv.Clib.Decimal.RoundTrip.{print_nat_head, atoi-print_int, atoi-print_nat}
use pageserv.Net.{to_u32}
use pageserv.Text.{kw-newline, Trimmed, as_int-IsInt, IsInt}
use pageserv.Queue.Types.{Queuent}
use pageserv.Queue.Format.{
  buflen, line, write_entry, fgets_take, fgets, has_number, sscanf_int, fntoqid, read_qf_line,
  read_entry,
}

-- no newline in the text
abbrev pub OneLine : Bytes → Type 0
OneLine [] = Unit
OneLine (c ∷ s) = ((c == b'\n') ≡ false) × OneLine s

pub OneLine-append : (s t : Bytes) → OneLine s → OneLine t → OneLine (s ++ t)
OneLine-append [] t h k = k
OneLine-append (c ∷ s) t h k = (h.0, OneLine-append s t h.1 k)

pub fgets_take-line :
    (room : ℕ) (s rest : Bytes)
    → length s < room
    → OneLine s
    → fgets_take room (line s rest) ≡ (s ++ b'\n' ∷ [], rest)
unfolding fgets_take
fgets_take-line zero s rest h o = absurd (omega arith)
fgets_take-line (suc room) [] rest h o = refl
fgets_take-line (suc room) (c ∷ s) rest h o =
    rw o.0 (rw (fgets_take-line room s rest (omega arith) o.1) refl)

-- A line that fits is taken whole, with its newline.
fgets-line :
    (buf : Bytes) (room : ℕ) (s rest : Bytes)
    → length s < room
    → OneLine s
    → fgets buf (suc room) (line s rest) ≡ (s ++ b'\n' ∷ [], rest)
unfolding fgets
fgets-line buf room [] rest h o = fgets_take-line room [] rest h o
fgets-line buf room (c ∷ s) rest h o = fgets_take-line room (c ∷ s) rest h o

-- the digits of a number below a power of ten
length-print_fuel : (k f n : ℕ) → n < f → n < 10 ^ suc k → length (print_fuel f n) ≤ suc k
unfolding print_fuel
length-print_fuel k zero n h lt = absurd (omega arith)
length-print_fuel zero (suc f) n h lt = ground arith
length-print_fuel (suc k) (suc f) n h lt = elim (Bool-cases (ltb n 10)) [
  | inl small ↦ rw small (omega arith)
  | inr large ↦ rw large (
      rw length-append (
        omega (
          arith,
          length-print_fuel k f (n / 10) (ground arith) (omega (arith, pow-suc 10 (suc k))),
        )))
]

OneLine-print_fuel : (f n : ℕ) → OneLine (print_fuel f n)
unfolding print_fuel
OneLine-print_fuel zero n = tt
OneLine-print_fuel (suc f) n = elim (Bool-cases (ltb n 10)) [
  | inl small ↦ rw small (ground arith, tt)
  | inr large ↦
      rw large (
        OneLine-append (print_fuel f (n / 10)) _ (OneLine-print_fuel f (n / 10)) (ground arith, tt))
]

sscanf_digit :
    (d : ℕ) (s : Bytes) (old : ℤ) → d < 10 → sscanf_int ((b'0' + d) ∷ s) old ≡ atoi ((b'0' + d) ∷ s)
unfolding sscanf_int has_number
sscanf_digit d s old h = ground arith

sscanf_minus :
    (d : ℕ) (s : Bytes) (old : ℤ)
    → d < 10
    → sscanf_int (b'-' ∷ (b'0' + d) ∷ s) old ≡ atoi (b'-' ∷ (b'0' + d) ∷ s)
unfolding sscanf_int has_number
sscanf_minus d s old h = ground arith

pub sscanf-print : (z old : ℤ) → sscanf_int (print_int z ++ b'\n' ∷ []) old ≡ z
unfolding print_int
sscanf-print (pos n) old =
    let (d, s, e, lt) = print_nat_head n in
    rw e (sscanf_digit d (s ++ b'\n' ∷ []) old lt)
    ∙ rw e at (atoi-print_int (pos n) (b'\n' ∷ []) refl)
sscanf-print (negsuc n) old =
    let (d, s, e, lt) = print_nat_head (suc n) in
    rw e (sscanf_minus d (s ++ b'\n' ∷ []) old lt)
    ∙ rw e at (atoi-print_int (negsuc n) (b'\n' ∷ []) refl)

-- A printed `int` is one short line.
length-print_nat : (n : ℕ) → n < 2 ^ 32 → length (print_nat n) ≤ 10
unfolding print_nat
length-print_nat n h = length-print_fuel 9 (suc n) n (omega arith) (omega arith)

length-print_int : (z : ℤ) → IsInt z → length (print_int z) ≤ 11
unfolding print_int
length-print_int (pos n) h = omega (arith, length-print_nat n)
length-print_int (negsuc n) h = omega (arith, length-print_nat (suc n))

OneLine-print_nat : (n : ℕ) → OneLine (print_nat n)
unfolding print_nat
OneLine-print_nat n = OneLine-print_fuel (suc n) n

OneLine-print_int : (z : ℤ) → OneLine (print_int z)
unfolding print_int
OneLine-print_int (pos n) = OneLine-print_nat n
OneLine-print_int (negsuc n) = (refl, OneLine-print_nat (suc n))

fgets-print_int :
    (buf : Bytes) (z : ℤ) (rest : Bytes)
    → IsInt z
    → fgets buf buflen (line (print_int z) rest) ≡ (print_int z ++ b'\n' ∷ [], rest)
fgets-print_int buf z rest h =
    fgets-line buf 1023 (print_int z) rest (omega (arith, length-print_int z h))
      (OneLine-print_int z)

fgets-print_nat :
    (buf : Bytes) (n : ℕ) (rest : Bytes)
    → n < 2 ^ 32
    → fgets buf buflen (line (print_nat n) rest) ≡ (print_nat n ++ b'\n' ∷ [], rest)
fgets-print_nat buf n rest h =
    fgets-line buf 1023 (print_nat n) rest (omega (arith, length-print_nat n h))
      (OneLine-print_nat n)

read_qf_line-line :
    (s : Bytes) (q : Queuent) (more : Queuent × Bool) → read_qf_line (s ++ b'\n' ∷ []) q more ≡ more
unfolding read_qf_line
read_qf_line-line [] q more = refl
read_qf_line-line (c ∷ s) q more = refl

to_u32-small : (n : ℕ) → n < 2 ^ 31 → to_u32 (pos n) ≡ n
unfolding to_u32
to_u32-small n h = omega arith

-- what an entry is, so that its file can be read back
pub record Storable (q : Queuent) : Type 0 where
  pub priority : IsInt q.priority
  pub to_one_line : OneLine q.to
  pub to_trimmed : Trimmed q.to
  pub to_fits : length q.to < 39
  pub submitted : IsInt q.submitted
  pub soonest : IsInt q.soonest
  pub latest : IsInt q.latest
  pub rem_addr : q.rem_addr < 2 ^ 31
  pub message_one_line : OneLine q.message
  pub message_trimmed : Trimmed q.message
  pub message_fits : length q.message < 1023

-- What `storequeue` writes for an entry whose recipient and message are single lines without white
-- space at the end that fit their buffers, and whose numbers are `int`s, is read back with every
-- field as it was. The qid is that of the file name, and the user data is not in the file.
pub read_entry-write_entry :
    (q q0 : Queuent) (buf0 fn : Bytes)
    → Storable q
    → read_entry q0 buf0 fn (write_entry q) ≡ (record q { qid = fntoqid fn; u = q0.u }, true)
unfolding read_entry write_entry
read_entry-write_entry q q0 buf0 fn h = rw (
  as_int-IsInt q.submitted h.submitted,
  as_int-IsInt q.soonest h.soonest,
  as_int-IsInt q.latest h.latest,
  fgets-print_int buf0 q.priority _ h.priority,
  read_qf_line-line (print_int q.priority),
  fgets-line [] 39 q.to _ h.to_fits h.to_one_line,
  read_qf_line-line q.to,
  fgets-print_int _ q.submitted _ h.submitted,
  read_qf_line-line (print_int q.submitted),
  fgets-print_int _ q.soonest _ h.soonest,
  read_qf_line-line (print_int q.soonest),
  fgets-print_int _ q.latest _ h.latest,
  read_qf_line-line (print_int q.latest),
  fgets-print_nat _ q.rem_addr _ (omega (arith, h.rem_addr)),
  read_qf_line-line (print_nat q.rem_addr),
  fgets-line _ 1023 q.message _ h.message_fits h.message_one_line,
  read_qf_line-line q.message,
  sscanf-print q.priority q0.priority,
  kw-newline q.to h.to_trimmed,
  kw-newline q.message h.message_trimmed,
  atoi-print_int q.submitted (b'\n' ∷ []) refl,
  atoi-print_int q.soonest (b'\n' ∷ []) refl,
  atoi-print_int q.latest (b'\n' ∷ []) refl,
  atoi-print_nat q.rem_addr (b'\n' ∷ []) refl,
  to_u32-small q.rem_addr h.rem_addr,
)
