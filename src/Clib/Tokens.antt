-- ===== src/Clib/Tokens.antt =====
-- `strtok` on a text that is put together of fields and delimiters.
use pageserv.Base.{
  ℕ, ◌≡◌, refl, ap, ◌∙◌, true, false, Option, some, [], ◌∷◌, ◌++◌, Bytes, arith, All,
}
use pageserv.Clib.{contains, skip_delim, token_end, strtok}

-- no byte of the text, which is not empty, is a delimiter
abbrev pub IsField : Bytes → Bytes → Type 0
IsField delim [] = ⊥
IsField delim (c ∷ s) = (contains delim c ≡ false) × All (λ d. contains delim d ≡ false) s

-- every byte is a delimiter
abbrev pub AllDelim : Bytes → Bytes → Type 0
AllDelim delim s = All (λ d. contains delim d ≡ true) s

AllDelim-cons : (delim s : Bytes) (c : ℕ) → AllDelim delim s → AllDelim (c ∷ delim) s
unfolding contains
AllDelim-cons delim [] c h = tt
AllDelim-cons delim (d ∷ s) c h = (ground (arith, h.0), AllDelim-cons delim s c h.1)

pub AllDelim-self : (delim : Bytes) → AllDelim delim delim
unfolding contains
AllDelim-self [] = tt
AllDelim-self (c ∷ delim) = (ground arith, AllDelim-cons delim delim c (AllDelim-self delim))

skip_delim-append :
    (delim pre s : Bytes) → AllDelim delim pre → skip_delim delim (pre ++ s) ≡ skip_delim delim s
unfolding skip_delim
skip_delim-append delim [] s h = refl
skip_delim-append delim (c ∷ pre) s h = rw h.0 (skip_delim-append delim pre s h.1)

token_end-field :
    (delim s tail : Bytes) (d : ℕ)
    → All (λ c. contains delim c ≡ false) s
    → contains delim d ≡ true
    → token_end delim (s ++ d ∷ tail) ≡ (s, tail)
unfolding token_end
token_end-field delim [] tail d h k = rw k refl
token_end-field delim (c ∷ s) tail d h k =
    rw h.0 (ap (λ p. (c ∷ p.0, p.1)) (token_end-field delim s tail d h.1 k))

token_end-last :
    (delim s : Bytes) → All (λ c. contains delim c ≡ false) s → token_end delim s ≡ (s, [])
unfolding token_end
token_end-last delim [] h = refl
token_end-last delim (c ∷ s) h = rw h.0 (ap (λ p. (c ∷ p.0, p.1)) (token_end-last delim s h.1))

starts_field :
    (delim : Bytes) (c : ℕ) (s : Bytes)
    → contains delim c ≡ false
    → strtok delim (c ∷ s) ≡ some (token_end delim (c ∷ s))
unfolding strtok
starts_field delim c s k = ground arith

strtok_start :
    (delim : Bytes) (c : ℕ) (pre s : Bytes)
    → AllDelim delim pre
    → contains delim c ≡ false
    → strtok delim (pre ++ c ∷ s) ≡ some (token_end delim (c ∷ s))
unfolding strtok
strtok_start delim c pre s h k =
    rw (skip_delim-append delim pre (c ∷ s) h) (starts_field delim c s k)

pub strtok-field :
    (delim pre s tail : Bytes) (d : ℕ)
    → AllDelim delim pre
    → IsField delim s
    → contains delim d ≡ true
    → strtok delim (pre ++ (s ++ d ∷ tail)) ≡ some (s, tail)
strtok-field delim pre [] tail d h f k = elim f [ ]
strtok-field delim pre (c ∷ s) tail d h f k =
    strtok_start delim c pre (s ++ d ∷ tail) h f.0
    ∙ ap some (token_end-field delim (c ∷ s) tail d f k)

pub strtok-last :
    (delim pre s : Bytes)
    → AllDelim delim pre
    → IsField delim s
    → strtok delim (pre ++ s) ≡ some (s, [])
strtok-last delim pre [] h f = elim f [ ]
strtok-last delim pre (c ∷ s) h f =
    strtok_start delim c pre s h f.0 ∙ ap some (token_end-last delim (c ∷ s) f)

pub strtok-end : (delim : Bytes) → strtok delim [] ≡ Option.none
unfolding strtok
strtok-end delim = refl
