-- ===== src/Mash/Talk.antt =====
-- What the commands of pageserv/protocol.c and pageserv/login.c work on: the client's input, and what
-- they change. A call may also end the process, or write past an array; both stop the talk.
pub mod Quiet
use pageserv.Base.{
  ℕ, ◌+◌, Bool, true, false, Option, none, some, List, [], ◌∷◌, ◌++◌, if◌then◌else◌, Bytes, length,
  ◌==◌,
}
use pageserv.Queue.Types.{User, Env, World}
use pageserv.Queue.Store.{puttext}
use pageserv.Mash.Input.{Got, gettextcr}

-- conf.udb.storeuser(u) and conf.udb.deleteuser(name)
pub data Change : Type 0 where
  stores : User → Change
  deletes : Bytes → Change

pub record Talk : Type 0 where
  pub world : World
  pub input : Bytes
  -- the calls that change the user database
  pub changes : List Change

pub data Step (A : Type 0) : Type 0 where
  going : A → Talk → Step A
  -- exit(0)
  ended : Talk → Step A
  -- an access outside an array, or a failed assert
  faulted : Step A

infixl 5 ◌>>=◌ ◌>>◌
abbrev pub ◌>>=◌ : {A B : Type 0} → (Talk → Step A) → (A → Talk → Step B) → Talk → Step B
(m >>= f) t = elim (m t) [ going a t1 ↦ f a t1 | ended t1 ↦ ended t1 | faulted ↦ faulted ]

abbrev pub ◌>>◌ : {B : Type 0} → (Talk → Step (Unit {0})) → (Talk → Step B) → Talk → Step B
m >> k = m >>= λ a. k

abbrev pub return : {A : Type 0} → A → Talk → Step A
return a t = going a t

abbrev pub stop : {A : Type 0} → Talk → Step A
stop t = ended t

abbrev pub fault : {A : Type 0} → Talk → Step A
fault t = faulted

-- puttext(s, txt)
abbrev pub say : Bytes → Talk → Step (Unit {0})
say txt t = going tt (record t { world = puttext txt t.world })

unfoldable pub heard : Talk → Option Got → Step Bytes
heard t none = ended t
heard t (some g) = if g.past_end then faulted else going g.text (record t { input = g.rest })

-- what a buffer holds behind its last text: of an empty one, what the memory held
abbrev pub held : Env → Bytes → Bytes
held env buf = if length buf == 0 then env.junk_line else buf

-- gettextcr(s, buf), where `buf` holds the text given, and p_getpasswd, which also turns the echo of a terminal off and on again
unfoldable pub hear : Bytes → Talk → Step Bytes
unfolding gettextcr heard
hear buf t = heard t (gettextcr buf t.input)

-- conf.udb.storeuser(u)
abbrev pub keep_user : User → Talk → Step (Unit {0})
keep_user u t = going tt (record t { changes = t.changes ++ stores u ∷ [] })

unfoldable pub called : {A : Type 0} → Talk → Option (A × World) → Step A
called t none = faulted
called t (some (a, w)) = going a (record t { world = w })

-- a call that changes the files
unfoldable pub calls : {A : Type 0} → (World → Option (A × World)) → Talk → Step A
unfolding called
calls f t = called t (f t.world)

-- conf.udb.deleteuser(name)
abbrev pub drop_user : Bytes → Talk → Step (Unit {0})
drop_user name t = going tt (record t { changes = t.changes ++ deletes name ∷ [] })
