-- ===== src/Snpp/Session/Invariant.antt =====
-- The array of pager ids stays within its room and within the configured maximum.
use pageserv.Base.{
  ℕ, ◌+◌, ◌*◌, ◌<◌, ◌≡◌, ◌⊎◌, refl, false, Option, none, some, List, [], ◌∷◌, ◌++◌, if◌then◌else◌,
  Bytes, ℤ, pos, negsuc, arith, Bool-cases, leb, length, length-append, inl, inr, sym, ltb_ℤ, not,
  ◌&&◌, ◌==◌,
}
use pageserv.Clib.{to_lower}
use pageserv.Queue.Format.{buflen}
use pageserv.Queue.Types.{Env, World}
use pageserv.Queue.Store.{pr_high, pr_normal}
use pageserv.Snpp.Session.{
  Session, initial, allocate, append_id, accept_id, snpp_setpageid, snpp_setmess, snpp_setpriority,
  snpp_cleanstuff, set_message,
}

-- what holds of the array, once it is there
abbrev pub IdsFit : Option (List Bytes) → ℕ → ℕ → ℤ → Type 0
IdsFit none nid size max = nid ≡ 0
IdsFit (some ids) nid size max =
    (nid ≡ length ids) × (nid < size) × ((ltb_ℤ (pos 0) max && ltb_ℤ max (pos nid)) ≡ false)

pub record IsValid (s : Session) : Type 0 where
  pub ids : IdsFit s.pageid s.nid s.size s.max
  pub priority : (s.priority ≡ pr_high) ⊎ (s.priority ≡ pr_normal)

pub initial-IsValid : IsValid initial
initial-IsValid = record { ids = refl; priority = inr refl }

allocated :
    (env : Env) (s : Session) (p : Option (List Bytes))
    → p ≡ s.pageid
    → IdsFit p s.nid s.size s.max
    → (ids : List Bytes) × ((allocate env s p).pageid ≡ some ids)
      × IdsFit (some ids) (allocate env s p).nid (allocate env s p).size (allocate env s p).max
unfolding allocate
allocated env s none e h = ([], refl, (h, omega arith, ground arith))
allocated env s (some ids) e h = (ids, sym e, h)

allocate-priority :
    (env : Env) (s : Session) (p : Option (List Bytes)) → (allocate env s p).priority ≡ s.priority
unfolding allocate
allocate-priority env s none = refl
allocate-priority env s (some ids) = refl

fits_max :
    (max : ℤ) (nid : ℕ)
    → (ltb_ℤ (pos 0) max && ltb_ℤ max (pos nid)) ≡ false
    → (ltb_ℤ (pos 0) max && not (ltb_ℤ (pos nid) max)) ≡ false
    → (ltb_ℤ (pos 0) max && ltb_ℤ max (pos (nid + 1))) ≡ false
fits_max (pos n) nid h k = ground arith
fits_max (negsuc n) nid h k = ground arith

-- the state in which an id was counted
counted :
    (ids : List Bytes) (id : Bytes) (nid size : ℕ) (max : ℤ)
    → IdsFit (some ids) nid size max
    → (ltb_ℤ (pos 0) max && not (ltb_ℤ (pos nid) max)) ≡ false
    → IdsFit (some (ids ++ id ∷ [])) (nid + 1) (if (nid + 1) == size then size * 2 else size) max
counted ids id nid size max (a, b, c) room =
    (omega (arith, length-append ids (id ∷ [])), ground arith, fits_max max nid c room)

accept_id-IsValid :
    (env : Env) (id : Bytes) (s : Session) (w : World) (ids : List Bytes)
    → s.pageid ≡ some ids
    → IdsFit (some ids) s.nid s.size s.max
    → (s.priority ≡ pr_high) ⊎ (s.priority ≡ pr_normal)
    → IsValid (accept_id env id s w).0
unfolding accept_id append_id
accept_id-IsValid env id s w ids e h p = elim (Bool-cases (env.u_exists id)) [
  | inr unknown ↦ rw unknown (record { ids = rw e h; priority = p })
  | inl known ↦ rw known (elim (Bool-cases (ltb_ℤ (pos 0) s.max && not (ltb_ℤ (pos s.nid) s.max))) [
    | inl full ↦ rw full (record { ids = rw e h; priority = p })
    | inr room ↦
        rw room (record { ids = rw e (counted ids id s.nid s.size s.max h room); priority = p })
  ])
]

snpp_setpageid-IsValid :
    (env : Env) (id : Bytes) (s : Session) (w : World)
    → IsValid s
    → IsValid (snpp_setpageid env id s w).0
unfolding snpp_setpageid
snpp_setpageid-IsValid env id s w h =
    let (ids, e, fit) = allocated env s s.pageid refl h.ids in
    accept_id-IsValid env id (allocate env s s.pageid) w ids e fit
      (rw (allocate-priority env s s.pageid) h.priority)

set_message-IsValid :
    (mess : Bytes) (s : Session) (w : World) (old : Option Bytes)
    → IsValid s
    → IsValid (set_message mess s w old).0
unfolding set_message
set_message-IsValid mess s w (some old) h = h
set_message-IsValid mess s w none h = elim (Bool-cases (length mess == 0)) [
  | inl empty ↦ rw empty h
  | inr text ↦ rw text (elim (Bool-cases (leb buflen (length mess))) [
    | inl long ↦ rw long h
    | inr fits ↦ rw fits (record { ids = h.ids; priority = h.priority })
  ])
]

-- PAGE, MESSage and PRIORITY keep the session valid, and RESEt makes it so: the ids are as many as are
-- counted and leave room in their array, they are no more than the configured maximum where that is
-- positive, and the priority is high or normal.
pub Session-IsValid :
    (env : Env) (arg : Bytes) (s : Session) (w : World)
    → IsValid s
    → IsValid (snpp_setpageid env arg s w).0
      × IsValid (snpp_setmess arg s w).0
      × IsValid (snpp_setpriority arg s w).0
      × IsValid (snpp_cleanstuff s)
unfolding snpp_setmess snpp_setpriority snpp_cleanstuff
Session-IsValid env arg s w h = (
  snpp_setpageid-IsValid env arg s w h,
  set_message-IsValid arg s w s.message h,
  prioritised arg,
  record { ids = refl; priority = inr refl },
)
  where
    prioritised : (arg : Bytes) → IsValid (snpp_setpriority arg s w).0
    prioritised [] = h
    prioritised (c ∷ pri) = elim (Bool-cases (to_lower c == b'h')) [
      | inl high ↦ rw high (record { ids = h.ids; priority = inl refl })
      | inr other ↦ rw other h
    ]
