-- ===== src/Queue/Locks/Taken.antt =====
-- When `gq_checkit` of pageserv/queue.c takes an entry for one terminal.
use pageserv.Base.{
  ◌≡◌, ◌≢◌, ◌⊎◌, refl, ap, sym, ◌∙◌, Bool, true, false, not, [], ◌∷◌, if◌then◌else◌, Bytes, ltb_ℤ,
  arith, Bool-cases, inl, inr,
}
use pageserv.Clib.{equal}
use pageserv.Queue.Types.{Queuent, Env, World}
use pageserv.Queue.Locks.{q_islocked, fuz, readytodeliver, checked, gq_checkit, splat}

readytodeliver-ready :
    (env : Env) (q : Queuent) (w : World)
    → (readytodeliver env q w).0 ≡ true
    → (readytodeliver env q w).1 ≡ w
unfolding readytodeliver
readytodeliver-ready env q w ready = elim (Bool-cases (ltb_ℤ env.maxqueuetime (fuz env q))) [
  | inl old ↦ absurd (ground arith)
  | inr fresh ↦ rw fresh refl
]

-- what is known of an entry that was taken
pub record Taken (env : Env) (q : Queuent) (number : Bytes) (w v : World) : Type 0 where
  pub valid : q.to ≢ []
  pub terminal : equal q.u.statid number ≡ true
  pub unlocked : q_islocked env q w ≡ false
  pub same : v ≡ w

-- the tests of gq_checkit, behind those on the terminal, the time and the lock
verdict : Bool → Bool → Bool × World → (World → Bool) → World → Bool × World
verdict mine star (ready, v) locked w =
    if mine then (if ready then (not (locked v), v) else (false, v)) else (star, w)

verdict-true :
    (mine : Bool) (r : Bool × World) (locked : World → Bool) (w : World)
    → (r.0 ≡ true → r.1 ≡ w)
    → (verdict mine false r locked w).0 ≡ true
    → (mine ≡ true) × (locked w ≡ false) × ((verdict mine false r locked w).1 ≡ w)
unfolding verdict
verdict-true false r locked w same e = absurd (ground arith)
verdict-true true (false, v) locked w same e = absurd (ground arith)
verdict-true true (true, v) locked w same e =
    let back = same refl in (refl, rw (← back) (ground arith), back)

checked-verdict :
    (env : Env) (q : Queuent) (number : Bytes) (w : World)
    → checked env q number w
      ≡ verdict
          (equal q.u.statid number)
          (equal number splat)
          (readytodeliver env q w)
          (q_islocked env q)
          w
unfolding checked verdict
checked-verdict env q number w = refl

checked-true :
    (env : Env) (q : Queuent) (number : Bytes) (w : World)
    → equal number splat ≡ false
    → q.to ≢ []
    → (checked env q number w).0 ≡ true
    → Taken env q number w (checked env q number w).1
checked-true env q number w one valid e =
    let is = checked-verdict env q number w ∙ rw one refl in
    let (mine, free, same) =
      verdict-true (equal q.u.statid number) (readytodeliver env q w) (q_islocked env q) w
        (readytodeliver-ready env q w) (ap (λ r. r.0) (sym is) ∙ e) in
    record { valid = valid; terminal = mine; unlocked = free; same = ap (λ r. r.1) is ∙ same }

gq_checkit-cases :
    (env : Env) (q : Queuent) (number : Bytes) (w : World) (to : Bytes)
    → q.to ≡ to
    → ((gq_checkit env q number w).0 ≡ false)
      ⊎ ((q.to ≢ []) × (gq_checkit env q number w ≡ checked env q number w))
unfolding gq_checkit
gq_checkit-cases env q number w [] e = inl (rw e refl)
gq_checkit-cases env q number w (c ∷ s) e = inr ((λ h. absurd (ground arith)), rw e refl)

-- Where `gq_checkit` takes an entry for one terminal, the entry is valid and of this terminal, it is not
-- locked, and the state is as it was.
pub gq_checkit-Taken :
    (env : Env) (q : Queuent) (number : Bytes) (w : World)
    → equal number splat ≡ false
    → (gq_checkit env q number w).0 ≡ true
    → Taken env q number w (gq_checkit env q number w).1
gq_checkit-Taken env q number w one e = elim (gq_checkit-cases env q number w q.to refl) [
  | inl refused ↦ absurd (ground arith)
  | inr (valid, is) ↦ rw is (checked-true env q number w one valid (ap (λ r. r.0) (sym is) ∙ e))
]
