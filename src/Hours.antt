-- ===== src/Hours.antt =====
-- The hours at which a user takes normal pages, a bit for each hour of the day in an `int`:
-- `bit_set`, `set_bit` and `pack_timebits` of pageserv/utility.c, `getnormtimes` of pageserv/userdb.c.
-- The `int` is its 32 bits, as a number below 2 ^ 32. `bit_set` shifts by less than 32, where the
-- arithmetic shift of a negative `int`, masked by 1, reads the same bit.
pub mod Window
use Prim.Native.Nat.{bit_or, bit_and}
use pageserv.Base.{
  ℕ, zero, suc, ◌+◌, ◌-◌, ◌/◌, ◌%◌, ◌^◌, ◌≡◌, refl, Bool, ◌&&◌, ◌||◌, not, true, false, ltb, ◌==◌,
  if◌then◌else◌, ℤ, pos, negsuc, pos_part, eq_ℤ, ltb_ℤ,
}

abbrev pub all_hours : ℕ
all_hours = 0xffffffff

unfoldable pub bit_set : ℕ → ℕ → Bool
bit_set map bit = (map / 2 ^ bit) % 2 == 1

pub set_bit : ℕ → ℕ → ℕ
set_bit map bit = bit_or map (2 ^ bit)

-- for(i = from; i < from + n; i++) t = set_bit(t, i);
pub set_range : ℕ → ℕ → ℕ → ℕ
unfolding set_bit
set_range zero from t = t
set_range (suc n) from t = set_range n (from + 1) (set_bit t from)

-- the branch for two hours of the day that differ
pub pack_hours : ℕ → ℕ → ℕ
unfolding set_range
pack_hours early late =
    let first = if early == 0 then 23 else early in
    if ltb first late
    then set_range (late - first) first 0
    else set_range late 0 (set_range (24 - first) first 0)

unfoldable pub pack_timebits : ℤ → ℤ → ℕ
unfolding pack_hours
pack_timebits early late =
    if eq_ℤ early late
      || (ltb_ℤ (pos 23) early || ltb_ℤ early (pos 0) || ltb_ℤ (pos 23) late || ltb_ℤ late (pos 0))
    then all_hours
    else pack_hours (pos_part early) (pos_part late)

-- for(; bit_set(times, i) == want && BC; i++); with 24 - i rounds left, after which BC stops it
pub run_while : ℕ → Bool → ℕ → ℕ → ℕ
unfolding bit_set
run_while zero want times i = i
run_while (suc n) want times i =
    let next = run_while n want times (i + 1) in
    let same = if want then bit_set times i else not (bit_set times i) in
    if same && ltb i 24 then next else i

-- `ret[0]`, `ret[1]`
unfoldable pub getnormtimes : ℕ → ℕ × ℕ
unfolding bit_set run_while
getnormtimes times =
    if bit_set times 0
    then (if bit_and times 0xffffffff == 0xffffffff
        then (0, 0)
        else (let late = run_while 24 true times 0 in
            (run_while (24 - late) false times late, late)))
    else (let early = run_while 24 false times 0 in
        (early, run_while (24 - early) true times early))
