-- ===== src/Mash/Talk/Quiet.antt =====
-- Talks in which no user is stored or deleted, or at most one.
use pageserv.Base.{
  ◌≡◌, refl, ap, ◌∙◌, ◌⊎◌, inl, inr, Option, none, some, [], ◌∷◌, ◌++◌, Bytes, Bool-cases,
}
use pageserv.Queue.Types.{World}
use pageserv.Mash.Input.{Got, gettextcr}
use pageserv.Mash.Talk.{
  Change, Talk, Step, going, ended, faulted, ◌>>=◌, ◌>>◌, say, hear, heard, calls, called,
}

-- what holds of a value and the talk behind it, or of the talk at the end of the process
abbrev pub After : {A : Type 0} → (A → Talk → Type 0) → (Talk → Type 0) → Step A → Type 0
After Q E (going a t) = Q a t
After Q E (ended t) = E t
After Q E faulted = Unit

-- one change may be made, which is as S says
abbrev pub StoredOne : (Change → Type 0) → Talk → Talk → Type 0
StoredOne S t t1 =
    (t1.changes ≡ t.changes) ⊎ ((c : Change) × S c × (t1.changes ≡ t.changes ++ c ∷ []))

module _ {A : Type 0} where
  -- nothing is changed, and the value is as R says
  abbrev pub Quiet : (A → Type 0) → (Talk → Step A) → Type 0
  Quiet R m =
      (t : Talk)
      → After (λ a t1. R a × (t1.changes ≡ t.changes)) (λ t1. t1.changes ≡ t.changes) (m t)

  abbrev pub Stores : (Change → Type 0) → (Talk → Step A) → Type 0
  Stores S m = (t : Talk) → After (λ a t1. StoredOne S t t1) (StoredOne S t) (m t)

  pub mono-After :
      (P Q : A → Talk → Type 0) (E F : Talk → Type 0) (s : Step A)
      → After P E s
      → ((a : A) (t : Talk) → P a t → Q a t)
      → ((t : Talk) → E t → F t)
      → After Q F s
  mono-After P Q E F (going a t) h k l = k a t h
  mono-After P Q E F (ended t) h k l = l t h
  mono-After P Q E F faulted h k l = tt

  pub Quiet-Stores :
      (R : A → Type 0) (S : Change → Type 0) (m : Talk → Step A) → Quiet R m → Stores S m
  Quiet-Stores R S m h t =
      mono-After (λ a t1. R a × (t1.changes ≡ t.changes)) (λ a t1. StoredOne S t t1)
        (λ t1. t1.changes ≡ t.changes) (StoredOne S t) (m t) (h t) (λ a t1 p. inl p.1)
        (λ t1 e. inl e)

abbrev pub Anything : {A : Type 0} → A → Type 0
Anything a = Unit

-- a store behind nothing stored, and nothing stored behind a store
later :
    (S : Change → Type 0) (t t1 t2 : Talk)
    → t1.changes ≡ t.changes
    → StoredOne S t1 t2
    → StoredOne S t t2
later S t t1 t2 e (inl same) = inl (same ∙ e)
later S t t1 t2 e (inr (c, own, more)) = inr (c, own, more ∙ ap (λ l. l ++ c ∷ []) e)

sooner :
    (S : Change → Type 0) (t t1 t2 : Talk)
    → StoredOne S t t1
    → t2.changes ≡ t1.changes
    → StoredOne S t t2
sooner S t t1 t2 (inl same) e = inl (e ∙ same)
sooner S t t1 t2 (inr (c, own, more)) e = inr (c, own, e ∙ more)

module _ {A B : Type 0} where
  bind-After :
      (P : A → Talk → Type 0) (Q : B → Talk → Type 0) (E F : Talk → Type 0) (s : Step A)
      (f : A → Talk → Step B)
      → After P E s
      → ((t : Talk) → E t → F t)
      → ((a : A) (t : Talk) → P a t → After Q F (f a t))
      → After Q F (elim s [ going a t ↦ f a t | ended t ↦ ended t | faulted ↦ faulted ])
  bind-After P Q E F (going a t) f h l k = k a t h
  bind-After P Q E F (ended t) f h l k = l t h
  bind-After P Q E F faulted f h l k = tt

  pub Quiet-bind :
      (R : A → Type 0) (S : B → Type 0) (m : Talk → Step A) (f : A → Talk → Step B)
      → Quiet R m
      → ((a : A) → R a → Quiet S (f a))
      → Quiet S (m >>= f)
  Quiet-bind R S m f h k t =
      bind-After (λ a t1. R a × (t1.changes ≡ t.changes)) (λ b t2. S b × (t2.changes ≡ t.changes))
        (λ t1. t1.changes ≡ t.changes) (λ t1. t1.changes ≡ t.changes) (m t) f (h t) (λ t1 e. e)
        (λ a t1 p.
          mono-After (λ b t2. S b × (t2.changes ≡ t1.changes))
            (λ b t2. S b × (t2.changes ≡ t.changes)) (λ t2. t2.changes ≡ t1.changes)
            (λ t2. t2.changes ≡ t.changes) (f a t1) (k a p.0 t1) (λ b t2 q. (q.0, q.1 ∙ p.1))
            (λ t2 e. e ∙ p.1))

  pub Stores-after :
      (R : A → Type 0) (S : Change → Type 0) (m : Talk → Step A) (f : A → Talk → Step B)
      → Quiet R m
      → ((a : A) → R a → Stores S (f a))
      → Stores S (m >>= f)
  Stores-after R S m f h k t =
      bind-After (λ a t1. R a × (t1.changes ≡ t.changes)) (λ b t2. StoredOne S t t2)
        (λ t1. t1.changes ≡ t.changes) (StoredOne S t) (m t) f (h t) (λ t1 e. inl e)
        (λ a t1 p.
          mono-After (λ b t2. StoredOne S t1 t2) (λ b t2. StoredOne S t t2) (StoredOne S t1)
            (StoredOne S t) (f a t1) (k a p.0 t1) (λ b t2 q. later S t t1 t2 p.1 q)
            (λ t2 q. later S t t1 t2 p.1 q))

  pub Stores-before :
      (R : B → Type 0) (S : Change → Type 0) (m : Talk → Step A) (f : A → Talk → Step B)
      → Stores S m
      → ((a : A) → Quiet R (f a))
      → Stores S (m >>= f)
  Stores-before R S m f h k t =
      bind-After (λ a t1. StoredOne S t t1) (λ b t2. StoredOne S t t2) (StoredOne S t)
        (StoredOne S t) (m t) f (h t) (λ t1 e. e)
        (λ a t1 p.
          mono-After (λ b t2. R b × (t2.changes ≡ t1.changes)) (λ b t2. StoredOne S t t2)
            (λ t2. t2.changes ≡ t1.changes) (StoredOne S t) (f a t1) (k a t1)
            (λ b t2 q. sooner S t t1 t2 p q.1) (λ t2 e. sooner S t t1 t2 p e))

pub Quiet-say : (txt : Bytes) → Quiet Anything (say txt)
Quiet-say txt t = (tt, refl)

hear-After :
    (t : Talk) (o : Option Got)
    → After (λ a t1. Unit × (t1.changes ≡ t.changes)) (λ t1. t1.changes ≡ t.changes) (heard t o)
unfolding heard
hear-After t none = refl
hear-After t (some g) = elim (Bool-cases g.past_end) [
  | inl past ↦ rw past tt
  | inr within ↦ rw within (tt, refl)
]

pub Quiet-hear : (buf : Bytes) → Quiet Anything (hear buf)
unfolding hear
Quiet-hear buf t = hear-After t (gettextcr buf t.input)

called-After :
    {A : Type 0} (t : Talk) (o : Option (A × World))
    → After (λ a t1. Unit × (t1.changes ≡ t.changes)) (λ t1. t1.changes ≡ t.changes) (called t o)
unfolding called
called-After t none = tt
called-After t (some (a, w)) = (tt, refl)

pub Quiet-calls : {A : Type 0} (f : World → Option (A × World)) → Quiet Anything (calls f)
unfolding calls
Quiet-calls f t = called-After t (f t.world)

pub after_say :
    {A : Type 0} (R : A → Type 0) (txt : Bytes) (m : Talk → Step A)
    → Quiet R m
    → Quiet R (say txt >> m)
after_say R txt m h = Quiet-bind Anything R (say txt) (λ a. m) (Quiet-say txt) (λ a x. h)

pub after_hear :
    {A : Type 0} (R : A → Type 0) (buf : Bytes) (f : Bytes → Talk → Step A)
    → ((b : Bytes) → Quiet R (f b))
    → Quiet R (hear buf >>= f)
after_hear R buf f h = Quiet-bind Anything R (hear buf) f (Quiet-hear buf) (λ b x. h b)

pub Stores-say :
    {A : Type 0} (S : Change → Type 0) (txt : Bytes) (m : Talk → Step A)
    → Stores S m
    → Stores S (say txt >> m)
Stores-say S txt m h = Stores-after Anything S (say txt) (λ a. m) (Quiet-say txt) (λ a x. h)

pub Stores-hear :
    {A : Type 0} (S : Change → Type 0) (buf : Bytes) (f : Bytes → Talk → Step A)
    → ((b : Bytes) → Stores S (f b))
    → Stores S (hear buf >>= f)
Stores-hear S buf f h = Stores-after Anything S (hear buf) f (Quiet-hear buf) (λ b x. h b)

module _ {A : Type 0} (S : Change → Type 0) (f : Bytes → Talk → Step A) (t : Talk) where
  heard_at :
      (o : Option Got)
      → ((g : Got)
          → o ≡ some g
          → After
              (λ a t1. StoredOne S t t1)
              (StoredOne S t)
              (f g.text (record t { input = g.rest })))
      → After (λ a t1. StoredOne S t t1) (StoredOne S t) (((λ t2. heard t2 o) >>= f) t)
  unfolding heard
  heard_at none h = inl refl
  heard_at (some g) h = elim (Bool-cases g.past_end) [
    | inl past ↦ rw past tt
    | inr within ↦ rw within (h g refl)
  ]

  -- what is done with the line that is read from this input
  pub hear_at :
      (buf : Bytes)
      → ((g : Got)
          → gettextcr buf t.input ≡ some g
          → After
              (λ a t1. StoredOne S t t1)
              (StoredOne S t)
              (f g.text (record t { input = g.rest })))
      → After (λ a t1. StoredOne S t t1) (StoredOne S t) ((hear buf >>= f) t)
  unfolding hear
  hear_at buf h = heard_at (gettextcr buf t.input) h

StoredOne-mono :
    (S T : Change → Type 0) (t t1 : Talk)
    → StoredOne S t t1
    → ((c : Change) → S c → T c)
    → StoredOne T t t1
StoredOne-mono S T t t1 (inl same) k = inl same
StoredOne-mono S T t t1 (inr (c, h, more)) k = inr (c, k c h, more)

pub Stores-mono :
    {A : Type 0} (S T : Change → Type 0) (m : Talk → Step A)
    → Stores S m
    → ((c : Change) → S c → T c)
    → Stores T m
Stores-mono S T m h k t =
    mono-After (λ a t1. StoredOne S t t1) (λ a t1. StoredOne T t t1) (StoredOne S t) (StoredOne T t)
      (m t) (h t) (λ a t1 p. StoredOne-mono S T t t1 p k) (λ t1 p. StoredOne-mono S T t t1 p k)
