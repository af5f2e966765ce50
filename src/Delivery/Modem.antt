-- ===== src/Delivery/Modem.antt =====
-- The dialogue with the modem: `s_modem_waitfor`, `dexpect` and `s_modem_connect` of delivery/modem.c.
-- `_waitondesc` waits for a byte or until the time is up, so that the time is below 1 exactly when the
-- next byte does not come earlier than that.
pub mod Waits
use pageserv.Base.{
  ℕ, zero, suc, ◌+◌, ◌-◌, ◌≡◌, refl, Bool, true, false, not, Option, none, some, List, [], ◌∷◌,
  ◌++◌, ◌==◌, leb, if◌then◌else◌, Bytes, ℤ, pos, eq_ℤ, pos_part, get_or, length, codes, map,
}
use pageserv.Queue.Types.{Env}
use pageserv.Delivery.{Arrival, Line, put_line}

-- the loop, with i bytes of `what` seen; true for the result 0, and false for -1
unfoldable pub wait_match : Bytes → ℕ → ℕ → List Arrival → Bool × List Arrival
wait_match what i timeout [] = (leb (length what) i, [])
wait_match what i timeout (a ∷ s) =
    let more =
      wait_match what (if a.byte == get_or what i 0 then i + 1 else 0) (timeout - a.after) s in
    if leb (length what) i
    then (true, a ∷ s)
    else if leb timeout a.after
    then (false, record a { after = a.after - timeout } ∷ s)
    else more

unfoldable pub s_modem_waitfor : Bytes → ℕ → Line → Bool × Line
unfolding wait_match
s_modem_waitfor what timeout p =
    let (ok, s) = wait_match what 0 timeout p.incoming in (ok, record p { incoming = s })

-- `for(which = 0; what[which] != NULL; which++)` on one byte: the texts with how much of each was seen,
-- and the last that is complete
expect_step : ℕ → ℕ → List (Bytes × ℕ) → Option ℕ → List (Bytes × ℕ) × Option ℕ
expect_step c which [] found = ([], found)
expect_step c which ((w, i) ∷ ws) found =
    let hit = c == get_or w i 0 in
    let (ws', found') =
      expect_step c (which + 1) ws
        (if hit then (if (i + 1) == length w then some which else found) else found) in
    ((w, if hit then i + 1 else 0) ∷ ws', found')

-- while(found < 0); `none` is -1
expect_loop : List (Bytes × ℕ) → ℕ → List Arrival → Option ℕ × List Arrival
unfolding expect_step
expect_loop ws timeout [] = (none, [])
expect_loop ws timeout (a ∷ s) =
    let (ws', found) = expect_step a.byte 0 ws none in
    let more = expect_loop ws' (timeout - a.after) s in
    if leb timeout a.after
    then (none, record a { after = a.after - timeout } ∷ s)
    else elim found [ none ↦ more | some which ↦ (some which, s) ]

unfoldable pub dexpect : List Bytes → ℕ → Line → Option ℕ × Line
unfolding expect_loop
dexpect [] timeout p = (none, p)
dexpect (w ∷ ws) timeout p =
    let (found, s) = expect_loop (map (λ t. (t, 0)) (w ∷ ws)) timeout p.incoming in
    (found, record p { incoming = s })

-- A time limit below 0 ends the wait at once, as 0 does.
abbrev dial_timeout : Env → ℕ
dial_timeout env =
    let n = env.lookup_int (codes "tuning.modemDialTimeout") in
    if eq_ℤ n (pos 0) then 120 else pos_part n

dial : Env → Bytes → Line → Bool × Line
unfolding dexpect put_line
dial env number p =
    let (answer, p1) =
      dexpect (codes "CONNECT" ∷ codes "BUSY" ∷ codes "NO CARRIER" ∷ codes "NO DIALTONE" ∷ [])
        (dial_timeout env) (put_line (codes "atdt" ++ (number ++ codes "\r\n")) p) in
    (elim answer [ none ↦ false | some which ↦ which == 0 ], p1)

-- true for the result 0; what is logged is left out
unfoldable pub s_modem_connect : Env → Bytes → Line → Bool × Line
unfolding s_modem_waitfor dial put_line
s_modem_connect env number p =
    let (ready, p1) = s_modem_waitfor (codes "OK") 10 (put_line (codes "atz\r\n") p) in
    if ready then dial env number p1 else (false, p1)
