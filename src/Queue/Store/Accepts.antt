-- ===== src/Queue/Store/Accepts.antt =====
-- At which hours a page is taken: `storequeue` of pageserv/queue.c with `check_time` of
-- pageserv/userdb.c.
use pageserv.Base.{
  ℕ, ◌<◌, ◌≡◌, ◌≢◌, ◌⊎◌, inl, inr, sym, ◌∙◌, Bool, true, false, ◌||◌, some, Bytes, ◌==◌,
  if◌then◌else◌, ℤ, pos, eq_ℤ, ltb_ℤ, arith, All, Bool-cases,
}
use pageserv.Hours.{pack_timebits}
use pageserv.Hours.Window.{in_span, pack_timebits-in_span}
use pageserv.Queue.Types.{Queuent, Env, World}
use pageserv.Queue.Names.Counter.{IsLetter}
use pageserv.Queue.Store.{pr_high, check_time, get_maxlen, too_long, storequeue}
use pageserv.Queue.Store.Entry.{Stored}
use pageserv.Queue.Store.Levels.{storequeue-Stored, storequeue-refused}

-- the hour of the later of two times
abbrev pub later_hour : Env → ℤ → ℤ → ℕ
later_hour env a b = if ltb_ℤ a b then env.hour_of b else env.hour_of a

-- of high priority, or at an hour from `early` up to `late`, where an `early` of 0 counts as 23
abbrev pub taken_at : Env → Queuent → ℕ → ℕ → Bool
taken_at env q early late =
    eq_ℤ q.priority pr_high
    || in_span (if early == 0 then 23 else early) late (later_hour env q.soonest env.now)

abbrev pub Unchanged : World → World → Type 0
Unchanged w v = (v.files ≡ w.files) × (v.log ≡ w.log) × (v.mail ≡ w.mail) × (v.tmp ≡ w.tmp)

or_else : (b x : Bool) → (if b then true else x) ≡ (b || x)
or_else b x = ground arith

check_time-taken_at :
    (env : Env) (q : Queuent) (early late : ℕ)
    → (env.getuser q.to).times ≡ pack_timebits (pos early) (pos late)
    → early < 24
    → late < 24
    → early ≢ late
    → later_hour env q.soonest env.now < 24
    → check_time env q ≡ taken_at env q early late
unfolding check_time
check_time-taken_at env q early late times he hl ne hh =
    elim (Bool-cases (ltb_ℤ q.soonest env.now)) [
      | inl behind ↦
          let hour : env.hour_of env.now < 24 = rw behind at hh in
          rw (behind, times, pack_timebits-in_span early late (env.hour_of env.now) he hl hour ne)
            (or_else (eq_ℤ q.priority pr_high) _)
      | inr ahead ↦
          let hour : env.hour_of q.soonest < 24 = rw ahead at hh in
          rw (ahead, times, pack_timebits-in_span early late (env.hour_of q.soonest) he hl hour ne)
            (or_else (eq_ℤ q.priority pr_high) _)
    ]

-- For a recipient with the normal hours from `early` to `late`, a message within the limit is stored,
-- with result 0, if its priority is high or the hour at which it may be delivered, now or later, lies
-- in these hours; otherwise it is refused with result 1, and files, log, mail and the name counter stay
-- as they are. The hours are two different ones of the day, and an `early` of 0 counts as 23.
pub storequeue-taken_at :
    (env : Env) (q : Queuent) (quiet : Bool) (w : World) (early late : ℕ)
    → All IsLetter w.tmp
    → too_long (get_maxlen env q) q.message ≡ false
    → (env.getuser q.to).times ≡ pack_timebits (pos early) (pos late)
    → early < 24
    → late < 24
    → early ≢ late
    → later_hour env q.soonest env.now < 24
    → ((taken_at env q early late ≡ true)
        × ((path : Bytes) × (v : World) × (storequeue env q quiet w ≡ some (0, v))
            × Stored env q w v path))
      ⊎ ((taken_at env q early late ≡ false)
          × ((v : World) × (storequeue env q quiet w ≡ some (1, v)) × Unchanged w v))
storequeue-taken_at env q quiet w early late letters short times he hl ne hh =
    let when = check_time-taken_at env q early late times he hl ne hh in
    elim (Bool-cases (check_time env q)) [
      | inl on ↦ inl (sym when ∙ on, storequeue-Stored env q quiet w letters short on)
      | inr off ↦
          let (v, e, files, log, mail, tmp) = storequeue-refused env q quiet w short off in
          inr (sym when ∙ off, (v, e, (files, log, mail, tmp)))
    ]
