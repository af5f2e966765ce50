-- ===== src/Snpp/Hold.antt =====
-- HOLDuntil: `snpp_holduntil` of snpp/snppmain.c, and `snpp_arg` of snpp/snppmisc.c.
use pageserv.Base.{
  ℕ, suc, ◌≡◌, refl, Bool, true, false, [], ◌∷◌, ◌++◌, ◌||◌, if◌then◌else◌, Bytes, ℤ, pos, negsuc,
  neg_ℕ, ltb_ℤ, ◌-ℤ◌, ◌+ℤ◌, ◌*◌, length, ltb, ◌==◌, take, drop, codes, ◌⊎◌, inl, inr, Bool-cases,
}
use pageserv.Clib.Decimal.{atoi}
use pageserv.Text.{as_int}
use pageserv.Queue.Types.{World}
use pageserv.Queue.Store.{puttext}
use pageserv.Snpp.Session.{Session}

-- What the C library's calendar does: mktime on the year since 1900, the month from 0, the day, the
-- hour, the minute and the second; findGMTOffset(); and asctime(gmtime(t)). The last byte of a
-- four-byte year in a buffer of five is not written: `year_tail` is what stands there.
pub record Calendar : Type 0 where
  pub mktime : ℤ → ℤ → ℤ → ℤ → ℤ → ℤ → ℤ
  pub gmt_offset : ℤ
  pub asctime : ℤ → Bytes
  pub year_tail : Bytes

-- the argument behind the first space of a command
unfoldable pub snpp_arg : Bytes → Bytes
snpp_arg [] = []
snpp_arg (c ∷ s) = if c == b' ' then s else snpp_arg s

-- the date, and the offset from the first ' ', '-' or '+' on
split_offset : Bytes → Bytes × Bytes
split_offset [] = ([], [])
split_offset (c ∷ s) =
    let (date, offset) = split_offset s in
    if c == b' ' || c == b'-' || c == b'+' then ([], c ∷ s) else (c ∷ date, offset)

two_digits : Bytes → ℕ → ℤ
two_digits date i = atoi (take 2 (drop i date))

-- the six numbers, from a date of 12 bytes or from a longer one
time_of : Calendar → Bytes → ℤ
unfolding two_digits
time_of cal date =
    if length date == 12
    then cal.mktime (two_digits date 0) (two_digits date 2 -ℤ pos 1) (two_digits date 4)
        (two_digits date 6) (two_digits date 8) (two_digits date 10)
    else cal.mktime (atoi (take 4 date ++ cal.year_tail) -ℤ pos 1900) (two_digits date 4 -ℤ pos 1)
        (two_digits date 6) (two_digits date 8) (two_digits date 10) (two_digits date 12)

-- 3600 * z
hours : ℤ → ℤ
hours (pos n) = pos (3600 * n)
hours (negsuc n) = neg_ℕ (3600 * suc n)

all_but_last : Bytes → Bytes
all_but_last [] = []
all_but_last (c ∷ []) = []
all_but_last (c ∷ d ∷ s) = c ∷ all_but_last (d ∷ s)

bad_date : Session → World → Session × World
unfolding puttext
bad_date s w = (s, puttext (codes "550 Invalid Delivery Date/Time (try help)\n") w)

-- Behind a time that is not positive nothing is set, and nothing is written. The hold time is an `int`.
set_hold : Calendar → ℤ → Session → World → Session × World
unfolding all_but_last puttext
set_hold cal t s w =
    if ltb_ℤ (pos 0) t
    then (
      record s { holdtime = as_int t },
      puttext
          (all_but_last (codes "250 Page will be held until " ++ cal.asctime t) ++ codes " GMT\n")
          w,
    )
    else (s, w)

-- the time for which the page is held: t += gmt, t -= 3600 * offset
held_time : Calendar → Bytes → Bytes → ℤ
unfolding time_of hours
held_time cal date offset = time_of cal date +ℤ cal.gmt_offset -ℤ hours (atoi offset)

unfoldable pub snpp_holduntil : Calendar → Bytes → Session → World → Session × World
unfolding split_offset held_time bad_date set_hold
snpp_holduntil cal time s w =
    let (date, offset) = split_offset time in
    if ltb (length date) 12
    then bad_date s w
    else if ltb_ℤ (time_of cal date) (pos 0)
    then bad_date s w
    else set_hold cal (held_time cal date offset) s w

-- the session and the state behind HOLDuntil, by those before
pub record Held (s : Session) (w : World) (r : Session × World) : Type 0 where
  pub others : r.0 ≡ record s { holdtime = r.0.holdtime }
  pub positive :
      (r.0.holdtime ≡ s.holdtime) ⊎ ((t : ℤ) × (ltb_ℤ (pos 0) t ≡ true) × (r.0.holdtime ≡ as_int t))
  pub files : r.1.files ≡ w.files
  pub log : r.1.log ≡ w.log
  pub mail : r.1.mail ≡ w.mail

bad_date-Held : (s : Session) (w : World) → Held s w (bad_date s w)
unfolding bad_date
bad_date-Held s w = record {
  others = refl;
  positive = inl refl;
  files = refl;
  log = refl;
  mail = refl;
}

set_hold-Held : (cal : Calendar) (t : ℤ) (s : Session) (w : World) → Held s w (set_hold cal t s w)
unfolding set_hold
set_hold-Held cal t s w = elim (Bool-cases (ltb_ℤ (pos 0) t)) [
  | inl later ↦ rw later (record {
    others = refl;
    positive = inr (t, later, refl);
    files = refl;
    log = refl;
    mail = refl;
  })
  | inr never ↦
      rw never
        (record { others = refl; positive = inl refl; files = refl; log = refl; mail = refl })
]

if-Held :
    (b : Bool) (s : Session) (w : World) (x y : Session × World)
    → Held s w x
    → Held s w y
    → Held s w (if b then x else y)
if-Held true s w x y hx hy = hx
if-Held false s w x y hx hy = hy

-- HOLDuntil sets only the hold time of the session, and sets it only to a positive time, cut to an
-- `int`; it leaves files, log and mail as they are.
pub snpp_holduntil-Held :
    (cal : Calendar) (time : Bytes) (s : Session) (w : World)
    → Held s w (snpp_holduntil cal time s w)
unfolding snpp_holduntil
snpp_holduntil-Held cal time s w =
    let (date, offset) = split_offset time in
    let bad = bad_date s w in
    let held = set_hold cal (held_time cal date offset) s w in
    let early = ltb_ℤ (time_of cal date) (pos 0) in
    if-Held (ltb (length date) 12) s w bad (if early then bad else held) (bad_date-Held s w) (
      if-Held early s w bad held (bad_date-Held s w)
        (set_hold-Held cal (held_time cal date offset) s w))
