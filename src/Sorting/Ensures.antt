-- ===== src/Sorting/Ensures.antt =====
-- What is known of a result that may be a fault: `Fault` says whether a fault is possible at all, so a
-- statement at the empty `Fault` is one of total correctness.
use pageserv.Base.{◌>>=◌, ◌≡◌, refl, Option, none, some}

abbrev pub Ensures : Type 0 → {A : Type 0} → (A → Type 0) → Option A → Type 0
Ensures Fault P none = Fault
Ensures Fault P (some a) = P a

module _ (Fault : Type 0) where
  pub bind-Ensures :
      {A B : Type 0} (P : A → Type 0) (Q : B → Type 0) (o : Option A) (f : A → Option B)
      → Ensures Fault P o
      → ((a : A) → P a → Ensures Fault Q (f a))
      → Ensures Fault Q (o >>= f)
  bind-Ensures P Q none f h k = h
  bind-Ensures P Q (some a) f h k = k a h

  pub Ensures-mono :
      {A : Type 0} (P Q : A → Type 0) (o : Option A)
      → Ensures Fault P o
      → ((a : A) → P a → Q a)
      → Ensures Fault Q o
  Ensures-mono P Q none h k = h
  Ensures-mono P Q (some a) h k = k a h

pub Ensures-total :
    {A : Type 0} (P : A → Type 0) (o : Option A) → Ensures ⊥ P o → (a : A) × (o ≡ some a) × P a
Ensures-total P none h = elim h [ ]
Ensures-total P (some a) h = (a, refl, h)
