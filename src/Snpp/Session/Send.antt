-- ===== src/Snpp/Session/Send.antt =====
-- `snpp_send` reports success exactly when every page was queued, and does not queue twice.
use pageserv.Base.{
  ℕ, zero, suc, ◌+◌, ◌≤◌, ◌≡◌, ◌≢◌, ◌↔◌, refl, ap, true, false, Option, none, some, List, [], ◌∷◌,
  ◌==◌, if◌then◌else◌, Bytes, arith, length, Bool-cases, Option-cases, inl, inr, codes, ℤ, ◌∙◌,
}
use pageserv.Queue.Types.{Queuent, Env, World}
use pageserv.Queue.Store.{puttext, storequeue}
use pageserv.Snpp.Session.{Session, page_for, send_all, ids_of, send_message, snpp_send}
use pageserv.Snpp.Session.Invariant.{IsValid, IdsFit}

-- the pages of these ids were queued one after the other, each with result 0
pub data Queued (env : Env) (page : Bytes → Queuent) : List Bytes → World → World → Type 0 where
  done : {w w' : World} → w ≡ w' → Queued env page [] w w'
  next :
      {id : Bytes} {ids : List Bytes} {w w' : World} (w1 : World)
      → storequeue env (page id) true w ≡ some (0, w1)
      → Queued env page ids w1 w'
      → Queued env page (id ∷ ids) w w'

Queued-cons :
    {env : Env} {page : Bytes → Queuent} {id : Bytes} {ids : List Bytes} {w w' : World}
    → Queued env page (id ∷ ids) w w'
    → (w1 : World) × (storequeue env (page id) true w ≡ some (0, w1)) × Queued env page ids w1 w'
Queued-cons (next w1 e q) = (w1, e, q)

-- one page of the loop, with what came of it and of the rest
module _ (env : Env) (page : Bytes → Queuent) (id : Bytes) (ids : List Bytes)
    (w w1 w2 : World) where
  count_one :
      (ret k : ℕ)
      → storequeue env (page id) true w ≡ some (ret, w1)
      → k ≤ length ids
      → (k ≡ length ids → Queued env page ids w1 w2)
      → (Queued env page ids w1 w2 → k ≡ length ids)
      → ((if ret == 0 then k + 1 else k) ≤ length (id ∷ ids))
        × ((if ret == 0 then k + 1 else k) ≡ length (id ∷ ids) → Queued env page (id ∷ ids) w w2)
        × (Queued env page (id ∷ ids) w w2 → (if ret == 0 then k + 1 else k) ≡ length (id ∷ ids))
  count_one zero k stored le all back = (
    omega arith,
    (λ e. next w1 stored (all (omega arith))),
    λ q.
        let (v, e, rest) = Queued-cons q in
        let same : w1 ≡ v = ground arith in omega (arith, back (rw same rest)),
  )
  count_one (suc r) k stored le all back = (
    ground arith,
    (λ e. absurd (ground arith)),
    λ q. let (v, e, rest) = Queued-cons q in absurd (ground arith),
  )

-- Each page counts once, and all count exactly when all were queued.
send_all-count :
    (env : Env) (page : Bytes → Queuent) (ids : List Bytes) (w : World) (j : ℕ) (w' : World)
    → send_all env page ids w ≡ some (j, w')
    → (j ≤ length ids)
      × (j ≡ length ids → Queued env page ids w w')
      × (Queued env page ids w w' → j ≡ length ids)
unfolding send_all
send_all-count env page [] w j w' e = (ground arith, (λ _. done (ground arith)), λ _. ground arith)
send_all-count env page (id ∷ ids) w j w' e =
    elim (Option-cases (storequeue env (page id) true w)) [
      | inl fault ↦ absurd (ground arith)
      | inr ((ret, w1), stored) ↦ elim (Option-cases (send_all env page ids w1)) [
        | inl fault ↦ absurd (ground arith)
        | inr ((k, w2), sent) ↦
            let (le, all, back) = send_all-count env page ids w1 k w2 sent in
            let ej : (if ret == 0 then k + 1 else k) ≡ j = ground arith in
            let ew : w2 ≡ w' = ground arith in
            rw (← ej, ← ew) (count_one env page id ids w w1 w2 ret k stored le all back)
      ]
    ]

ids_length :
    (p : Option (List Bytes)) (nid size : ℕ) (max : ℤ)
    → IdsFit p nid size max
    → nid ≡ length (ids_of p)
ids_length none nid size max h = h
ids_length (some ids) nid size max h = h.0

send_message-sent :
    (env : Env) (addr : ℕ) (s : Session) (w : World) (message : Bytes) (j : ℕ) (w1 : World)
    → (s.nid == 0) ≡ false
    → s.lastsend ≡ false
    → send_all env (page_for s addr message) (ids_of s.pageid) w ≡ some (j, w1)
    → send_message env addr s w (some message)
      ≡ some (
          if j == s.nid
          then (
            record s { lastsend = true },
            puttext (codes "250 Message queued successfully\n") w1,
          )
          else (record s { lastsend = false }, puttext (codes "554 Message failed\n") w1))
unfolding send_message
send_message-sent env addr s w message j w1 en el es = rw (en, el, es) refl

snpp_send-message :
    (env : Env) (addr : ℕ) (s : Session) (w : World) (message : Bytes)
    → s.message ≡ some message
    → snpp_send env addr s w ≡ send_message env addr s w (some message)
unfolding snpp_send
snpp_send-message env addr s w message e = ap (send_message env addr s w) e

-- With ids, a message, and nothing sent since the last RESEt, `snpp_send` ends in a session that is
-- marked as sent exactly when the page was queued to each id, one after the other with result 0; the
-- state is that behind the pages and the reply, and nothing else of the session changes.
pub snpp_send_lem :
    (env : Env) (addr : ℕ) (s : Session) (w : World) (message : Bytes) (j : ℕ) (w1 : World)
    → IsValid s
    → s.message ≡ some message
    → s.nid ≢ 0
    → s.lastsend ≡ false
    → send_all env (page_for s addr message) (ids_of s.pageid) w ≡ some (j, w1)
    → (s' : Session) × (reply : Bytes) × (snpp_send env addr s w ≡ some (s', puttext reply w1))
      × (s' ≡ record s { lastsend = s'.lastsend })
      × ((s'.lastsend ≡ true) ↔ Queued env (page_for s addr message) (ids_of s.pageid) w w1)
snpp_send_lem env addr s w message j w1 h em en el es =
    let (le, all, back) =
      send_all-count env (page_for s addr message) (ids_of s.pageid) w j w1 es in
    let same = ids_length s.pageid s.nid s.size s.max h.ids in
    let run =
      snpp_send-message env addr s w message em
      ∙ send_message-sent env addr s w message j w1 (ground arith) el es in
    elim (Bool-cases (j == s.nid)) [
      | inl every ↦ (
        record s { lastsend = true },
        codes "250 Message queued successfully\n",
        rw every at run,
        refl,
        ((λ _. all (ground arith)), λ _. refl),
      )
      | inr some_failed ↦ (
        record s { lastsend = false },
        codes "554 Message failed\n",
        rw some_failed at run,
        refl,
        ((λ e. absurd (ground arith)), λ q. absurd (ground (arith, back q))),
      )
    ]

-- A session that is marked as sent queues nothing more: SEND leaves it, the files and the log alone.
pub snpp_send_once :
    (env : Env) (addr : ℕ) (s : Session) (w : World)
    → s.lastsend ≡ true
    → (reply : Bytes) × (snpp_send env addr s w ≡ some (s, puttext reply w))
unfolding snpp_send
snpp_send_once env addr s w e = refused s.message
  where
    refused :
        (m : Option Bytes)
        → (reply : Bytes) × (send_message env addr s w m ≡ some (s, puttext reply w))
    refused none = (codes "503 Error, pager ID or message incomplete\n", refl)
    refused (some message) = elim (Bool-cases (s.nid == 0)) [
      | inl no_ids ↦ (codes "503 Error, pager ID or message incomplete\n", rw no_ids refl)
      | inr ids ↦ (codes "554 Message already sent\n", rw (ids, e) refl)
    ]
