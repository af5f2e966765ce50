-- ===== src/Snpp/Session/Keeps.antt =====
-- What the commands on the session leave alone: snpp/snppmain.c.
use pageserv.Base.{
  ◌>>=◌, ℕ, ◌≡◌, refl, ◌∙◌, Bool, true, false, Option, none, some, List, [], ◌∷◌, ◌==◌,
  if◌then◌else◌, Bytes, pos, length, Bool-cases, inl, inr, leb, not, ltb_ℤ, codes, ◌&&◌,
}
use pageserv.Clib.{to_lower}
use pageserv.Queue.Types.{Env, World}
use pageserv.Queue.Format.{buflen}
use pageserv.Queue.Store.{puttext}
use pageserv.Snpp.Session.{
  Session, allocate, accept_id, snpp_setpageid, set_message, snpp_setmess, snpp_setpriority,
  append_id, send_message, snpp_send, page_for, ids_of, send_all,
}

allocate-logname :
    (env : Env) (s : Session) (p : Option (List Bytes)) → (allocate env s p).logname ≡ s.logname
unfolding allocate
allocate-logname env s none = refl
allocate-logname env s (some ids) = refl

accept_id-logname :
    (env : Env) (id : Bytes) (s : Session) (w : World)
    → (accept_id env id s w).0.logname ≡ s.logname
unfolding accept_id append_id
accept_id-logname env id s w = elim (Bool-cases (env.u_exists id)) [
  | inr unknown ↦ rw unknown refl
  | inl known ↦ rw known (elim (Bool-cases (ltb_ℤ (pos 0) s.max && not (ltb_ℤ (pos s.nid) s.max))) [
    | inl full ↦ rw full refl
    | inr room ↦ rw room refl
  ])
]

pub snpp_setpageid-logname :
    (env : Env) (id : Bytes) (s : Session) (w : World)
    → (snpp_setpageid env id s w).0.logname ≡ s.logname
unfolding snpp_setpageid
snpp_setpageid-logname env id s w =
    accept_id-logname env id (allocate env s s.pageid) w ∙ allocate-logname env s s.pageid

set_message-logname :
    (mess : Bytes) (s : Session) (w : World) (m : Option Bytes)
    → (set_message mess s w m).0.logname ≡ s.logname
unfolding set_message
set_message-logname mess s w none = elim (Bool-cases (length mess == 0)) [
  | inl empty ↦ rw empty refl
  | inr text ↦ rw text (elim (Bool-cases (leb buflen (length mess))) [
    | inl long ↦ rw long refl
    | inr fits ↦ rw fits refl
  ])
]
set_message-logname mess s w (some old) = refl

pub snpp_setmess-logname :
    (mess : Bytes) (s : Session) (w : World) → (snpp_setmess mess s w).0.logname ≡ s.logname
unfolding snpp_setmess
snpp_setmess-logname mess s w = set_message-logname mess s w s.message

pub snpp_setpriority-logname :
    (pri : Bytes) (s : Session) (w : World) → (snpp_setpriority pri s w).0.logname ≡ s.logname
unfolding snpp_setpriority
snpp_setpriority-logname [] s w = refl
snpp_setpriority-logname (c ∷ pri) s w = elim (Bool-cases (to_lower c == b'h')) [
  | inl high ↦ rw high refl
  | inr other ↦ rw other refl
]

-- what is left of the session behind a page that is sent
SentOnly : Session → Option (Session × World) → Type 0
SentOnly s none = Unit
SentOnly s (some (t, v)) = t ≡ record s { lastsend = t.lastsend }

if-SentOnly :
    (b : Bool) (s : Session) (x y : Option (Session × World))
    → SentOnly s x
    → SentOnly s y
    → SentOnly s (if b then x else y)
if-SentOnly true s x y hx hy = hx
if-SentOnly false s x y hx hy = hy

if-sent :
    (b : Bool) (s : Session) (v w : World)
    → SentOnly s
        (some (if b then (record s { lastsend = true }, v) else (record s { lastsend = false }, w)))
unfolding SentOnly
if-sent true s v w = refl
if-sent false s v w = refl

sent_pages :
    (env : Env) (s : Session) (r : Option (ℕ × World))
    → SentOnly s (do
      (j, w1) ← r
      some (
          if j == s.nid
          then (
            record s { lastsend = true },
            puttext (codes "250 Message queued successfully\n") w1,
          )
          else (record s { lastsend = false }, puttext (codes "554 Message failed\n") w1)))
unfolding SentOnly
sent_pages env s none = tt
sent_pages env s (some (j, w1)) =
    if-sent (j == s.nid) s (puttext (codes "250 Message queued successfully\n") w1)
      (puttext (codes "554 Message failed\n") w1)

send_message-SentOnly :
    (env : Env) (addr : ℕ) (s : Session) (w : World) (m : Option Bytes)
    → SentOnly s (send_message env addr s w m)
unfolding send_message SentOnly
send_message-SentOnly env addr s w none = refl
send_message-SentOnly env addr s w (some message) =
    let sent = (do
      (j, w1) ← send_all env (page_for s addr message) (ids_of s.pageid) w
      some (
          if j == s.nid
          then (
            record s { lastsend = true },
            puttext (codes "250 Message queued successfully\n") w1,
          )
          else (record s { lastsend = false }, puttext (codes "554 Message failed\n") w1))) in
    let again = some (s, puttext (codes "554 Message already sent\n") w) in
    if-SentOnly (s.nid == 0) s
      (some (s, puttext (codes "503 Error, pager ID or message incomplete\n") w))
      (if s.lastsend then again else sent) refl
      (if-SentOnly s.lastsend s again sent refl
        (sent_pages env s (send_all env (page_for s addr message) (ids_of s.pageid) w)))

-- SEND changes nothing of the session but the mark that it was sent.
pub snpp_send-others :
    (env : Env) (addr : ℕ) (s : Session) (w : World) (t : Session) (v : World)
    → snpp_send env addr s w ≡ some (t, v)
    → t ≡ record s { lastsend = t.lastsend }
unfolding snpp_send SentOnly
snpp_send-others env addr s w t v e = rw e at (send_message-SentOnly env addr s w s.message)
