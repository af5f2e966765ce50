-- ===== src/Snpp/Main/Tries.antt =====
-- The limit on the resets of one connection: `_snpp_main` of snpp/snppmain.c.
use pageserv.Base.{
  ◌>>=◌, ℕ, ◌+◌, ◌≤◌, ◌<◌, ◌≡◌, refl, true, false, Option, none, some, List, [], ◌∷◌, Bytes, ℤ, pos,
  negsuc, arith, Bool-cases, Option-cases, inl, inr, ltb_ℤ, pos_part, ltb, ◌&&◌,
}
use pageserv.Queue.Types.{Env, World}
use pageserv.Snpp.Session.{Session, snpp_send}
use pageserv.Snpp.Hold.{snpp_arg}
use pageserv.Snpp.Login.{snpp_show_user_q}
use pageserv.Snpp.Main.{
  Method, Conn, Setup, with_both, dispatch, limit_tries, maxtries, serve_line, serve, connect,
  snpp_parse, snpp_page, snpp_mess, snpp_rese, snpp_send_now, snpp_quit, snpp_help_me, snpp_data,
  snpp_logi, snpp_leve, snpp_aler, snpp_cove, snpp_hold, snpp_call, snpp_subj, snpp_2way, snpp_ping,
  snpp_expt, snpp_noqueue, snpp_ackr, snpp_rtyp, snpp_mcre, snpp_msta, snpp_ktag, snpp_priority,
  snpp_showq, snpp_deque,
}

-- the count that a case of the switch leaves
CountsOne : ℕ → Option Conn → Type 0
CountsOne n none = Unit
CountsOne n (some d) = d.tries ≤ n + 1

same_count : (n : ℕ) → n ≤ n + 1
same_count n = omega arith

sent-CountsOne :
    (c : Conn) (r : Option (Session × World)) → CountsOne c.tries (do x ← r; some (with_both c x))
unfolding CountsOne
sent-CountsOne c none = tt
sent-CountsOne c (some x) = same_count c.tries

shown-CountsOne :
    (c : Conn) (r : Option World) → CountsOne c.tries (do w ← r; some (record c { world = w }))
unfolding CountsOne
shown-CountsOne c none = tt
shown-CountsOne c (some w) = same_count c.tries

dispatch-CountsOne :
    (p : Setup) (m : Option Method) (buf : Bytes) (c : Conn)
    → CountsOne c.tries (dispatch p m buf c)
unfolding dispatch CountsOne
dispatch-CountsOne p none buf c = same_count c.tries
dispatch-CountsOne p (some snpp_rese) buf c = omega arith
dispatch-CountsOne p (some snpp_send_now) buf c =
    sent-CountsOne c (snpp_send p.env p.addr c.session c.world)
dispatch-CountsOne p (some snpp_showq) buf c =
    shown-CountsOne c (snpp_show_user_q p.sys p.env c.session.logname (snpp_arg buf) c.world)
dispatch-CountsOne p (some snpp_page) buf c = same_count c.tries
dispatch-CountsOne p (some snpp_mess) buf c = same_count c.tries
dispatch-CountsOne p (some snpp_quit) buf c = same_count c.tries
dispatch-CountsOne p (some snpp_help_me) buf c = same_count c.tries
dispatch-CountsOne p (some snpp_data) buf c = same_count c.tries
dispatch-CountsOne p (some snpp_logi) buf c = same_count c.tries
dispatch-CountsOne p (some snpp_leve) buf c = same_count c.tries
dispatch-CountsOne p (some snpp_aler) buf c = same_count c.tries
dispatch-CountsOne p (some snpp_cove) buf c = same_count c.tries
dispatch-CountsOne p (some snpp_hold) buf c = same_count c.tries
dispatch-CountsOne p (some snpp_call) buf c = same_count c.tries
dispatch-CountsOne p (some snpp_subj) buf c = same_count c.tries
dispatch-CountsOne p (some snpp_2way) buf c = same_count c.tries
dispatch-CountsOne p (some snpp_ping) buf c = same_count c.tries
dispatch-CountsOne p (some snpp_expt) buf c = same_count c.tries
dispatch-CountsOne p (some snpp_noqueue) buf c = same_count c.tries
dispatch-CountsOne p (some snpp_ackr) buf c = same_count c.tries
dispatch-CountsOne p (some snpp_rtyp) buf c = same_count c.tries
dispatch-CountsOne p (some snpp_mcre) buf c = same_count c.tries
dispatch-CountsOne p (some snpp_msta) buf c = same_count c.tries
dispatch-CountsOne p (some snpp_ktag) buf c = same_count c.tries
dispatch-CountsOne p (some snpp_priority) buf c = same_count c.tries
dispatch-CountsOne p (some snpp_deque) buf c = same_count c.tries

-- no more resets than the limit and one, and none behind the limit that goes on
record IsLimited (env : Env) (c : Conn) : Type 0 where
  count : c.tries ≤ pos_part (maxtries env) + 1
  stops : pos_part (maxtries env) < c.tries → c.going ≡ false

over_limit : (z : ℤ) (n : ℕ) → pos_part z < n → ltb_ℤ z (pos n) ≡ true
over_limit (pos m) n h = ground arith
over_limit (negsuc m) n h = ground arith

limit_tries-IsLimited :
    (env : Env) (d : Conn)
    → d.tries ≤ pos_part (maxtries env) + 1
    → IsLimited env (limit_tries env d)
unfolding limit_tries
limit_tries-IsLimited env d h = elim (Bool-cases (ltb_ℤ (maxtries env) (pos d.tries))) [
  | inl over ↦ rw over (record { count = h; stops = λ _. refl })
  | inr under ↦ rw under (record {
    count = h;
    stops = λ k. absurd (ground (arith, over_limit (maxtries env) d.tries k));
  })
]

pass-IsLimited :
    (env : Env) (n : ℕ) (r : Option Conn) (d : Conn)
    → CountsOne n r
    → n ≤ pos_part (maxtries env)
    → (do c ← r; some (limit_tries env c)) ≡ some d
    → IsLimited env d
unfolding CountsOne
pass-IsLimited env n none d h le e = absurd (ground arith)
pass-IsLimited env n (some c) d h le e =
    let same : limit_tries env c ≡ d = ground arith in
    rw (← same) (limit_tries-IsLimited env c (omega arith))

going_below :
    (env : Env) (c : Conn) → IsLimited env c → c.going ≡ true → c.tries ≤ pos_part (maxtries env)
going_below env c h going = ground (arith, h.stops)

serve-IsLimited :
    (p : Setup) (lines : List Bytes) (c d : Conn)
    → IsLimited p.env c
    → serve p lines c ≡ some d
    → IsLimited p.env d
unfolding serve serve_line
serve-IsLimited p [] c d h e = ground arith
serve-IsLimited p (buf ∷ rest) c d h e = elim (Bool-cases c.going) [
  | inr over ↦ ground arith
  | inl going ↦ elim (Option-cases (serve_line p buf c)) [
    | inl fault ↦ absurd (ground arith)
    | inr (c1, passed) ↦
        serve-IsLimited p rest c1 d
          (pass-IsLimited p.env c.tries (dispatch p (snpp_parse buf) buf c) c1
            (dispatch-CountsOne p (snpp_parse buf) buf c) (going_below p.env c h going) passed)
          (ground arith)
  ]
]

-- Whatever lines a client sends, if the server gets through them without a fault, the client resets at
-- most one time more than the limit, which counts as 0 where it is negative, and the reset behind the
-- limit ends the loop.
pub connect-tries :
    (p : Setup) (version : Bytes) (w : World) (lines : List Bytes) (d : Conn)
    → serve p lines (connect version w) ≡ some d
    → (d.tries ≤ pos_part (maxtries p.env) + 1)
      × ((ltb (pos_part (maxtries p.env)) d.tries && d.going) ≡ false)
unfolding connect
connect-tries p version w lines d e =
    let start : IsLimited p.env (connect version w) = record {
      count = omega arith;
      stops = λ h. absurd (omega arith);
    } in
    let h = serve-IsLimited p lines (connect version w) d start e in
    (h.count, ground (arith, h.stops))
