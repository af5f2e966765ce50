-- ===== src/Http/Args/Form.antt =====
-- A whole form: its arguments, one after another.
use pageserv.Base.{
  ℕ, zero, suc, ◌<◌, ◌≤◌, ◌≡◌, refl, ap, sym, ◌∙◌, true, false, some, List, [], ◌∷◌, ◌++◌,
  append_assoc, append-nil, map, ◌==◌, if◌then◌else◌, length, length-append, Bytes, All, All-append,
  arith, Bool-cases, inl, inr, ◌/◌, ◌%◌,
}
use pageserv.Clib.{contains, strtok}
use pageserv.Clib.Tokens.{IsField, strtok-field, strtok-last, strtok-end}
use pageserv.Http.Args.{plus_to_space, pairs_of, add_pairs, http_parseargs}
use pageserv.Http.Args.RoundTrip.{
  is_alnum, hex_char, hex_char-alnum, alnum_plain, escape, IsText, IsArg, cooked, parse_pair-cooked,
}

-- the arguments as a browser writes them, and what plus_to_space makes of that
unfoldable pub form : List (Bytes × Bytes) → Bytes
unfolding escape
form [] = []
form ((name, value) ∷ []) = name ++ b'=' ∷ escape value
form ((name, value) ∷ arg ∷ args) = (name ++ b'=' ∷ escape value) ++ b'&' ∷ form (arg ∷ args)

joined : List (Bytes × Bytes) → Bytes
joined [] = []
joined (arg ∷ []) = cooked arg
joined (arg ∷ next ∷ args) = cooked arg ++ b'&' ∷ joined (next ∷ args)

plus_to_space-append : (s t : Bytes) → plus_to_space (s ++ t) ≡ plus_to_space s ++ plus_to_space t
unfolding plus_to_space
plus_to_space-append [] t = refl
plus_to_space-append (c ∷ s) t =
    ap (λ u. (if c == b'+' then b' ' else c) ∷ u) (plus_to_space-append s t)

plus_to_space-name : (s : Bytes) → All (λ c. is_alnum c ≡ true) s → plus_to_space s ≡ s
unfolding plus_to_space
plus_to_space-name [] h = refl
plus_to_space-name (c ∷ s) h = rw (alnum_plain c h.0).0 (ap (λ t. c ∷ t) (plus_to_space-name s h.1))

starts_nothing : plus_to_space [] ≡ []
unfolding plus_to_space
starts_nothing = refl

starts_equals : (s : Bytes) → plus_to_space (b'=' ∷ s) ≡ b'=' ∷ plus_to_space s
unfolding plus_to_space
starts_equals s = refl

starts_ampersand : (s : Bytes) → plus_to_space (b'&' ∷ s) ≡ b'&' ∷ plus_to_space s
unfolding plus_to_space
starts_ampersand s = refl

plus_to_space-pair :
    (arg : Bytes × Bytes) → IsArg arg → plus_to_space (arg.0 ++ b'=' ∷ escape arg.1) ≡ cooked arg
plus_to_space-pair arg h =
    plus_to_space-append arg.0 (b'=' ∷ escape arg.1)
    ∙ ap (λ t. t ++ plus_to_space (b'=' ∷ escape arg.1)) (plus_to_space-name arg.0 h.name)
    ∙ ap (λ t. arg.0 ++ t) (starts_equals (escape arg.1))

plus_to_space-form :
    (args : List (Bytes × Bytes)) → All IsArg args → plus_to_space (form args) ≡ joined args
unfolding form joined
plus_to_space-form [] h = starts_nothing
plus_to_space-form (arg ∷ []) h = plus_to_space-pair arg h.0
plus_to_space-form (arg ∷ next ∷ args) h =
    plus_to_space-append (arg.0 ++ b'=' ∷ escape arg.1) (b'&' ∷ form (next ∷ args))
    ∙ ap (λ t. t ++ plus_to_space (b'&' ∷ form (next ∷ args))) (plus_to_space-pair arg h.0)
    ∙ ap (λ t. cooked arg ++ t)
        (starts_ampersand (form (next ∷ args))
          ∙ ap (λ t. b'&' ∷ t) (plus_to_space-form (next ∷ args) h.1))

abbrev ampersand : Bytes
ampersand = b'&' ∷ []

abbrev NoAmpersand : Bytes → Type 0
NoAmpersand s = All (λ c. contains ampersand c ≡ false) s

alnum-NoAmpersand : (s : Bytes) → All (λ c. is_alnum c ≡ true) s → NoAmpersand s
unfolding contains
alnum-NoAmpersand [] h = tt
alnum-NoAmpersand (c ∷ s) h = (ground (arith, alnum_plain c h.0), alnum-NoAmpersand s h.1)

escape-NoAmpersand : (v : Bytes) → All IsText v → NoAmpersand (plus_to_space (escape v))
unfolding escape plus_to_space contains
escape-NoAmpersand [] h = tt
escape-NoAmpersand (c ∷ v) h =
    let more = escape-NoAmpersand v h.1 in
    elim (Bool-cases (is_alnum c)) [
      | inl alnum ↦
          let plain = alnum_plain c alnum in rw (alnum, plain.0) (ground (arith, plain), more)
      | inr other ↦ elim (Bool-cases (c == b' ')) [
        | inl space ↦ rw (other, space) (refl, more)
        | inr special ↦
            let hi =
              alnum_plain (hex_char (c / 16)) (hex_char-alnum (c / 16) (omega (arith, h.0.0))) in
            let lo = alnum_plain (hex_char (c % 16)) (hex_char-alnum (c % 16) (omega arith)) in
            rw (other, special, hi.0, lo.0) (refl, (ground (arith, hi), (ground (arith, lo), more)))
      ]
    ]

-- what stands before another text without a delimiter is a field with it, when it has a byte
IsField-append :
    (delim a b : Bytes)
    → 0 < length a
    → All (λ c. contains delim c ≡ false) a
    → All (λ c. contains delim c ≡ false) b
    → IsField delim (a ++ b)
IsField-append delim [] b n h k = let no : ⊥ = omega (arith, n) in elim no [ ]
IsField-append delim (c ∷ a) b n h k = (h.0, All-append (λ d. contains delim d ≡ false) a b h.1 k)

equals_plain : contains ampersand b'=' ≡ false
unfolding contains
equals_plain = refl

ampersand_delim : contains ampersand b'&' ≡ true
unfolding contains
ampersand_delim = refl

cooked-IsField : (arg : Bytes × Bytes) → IsArg arg → IsField ampersand (cooked arg)
cooked-IsField arg h =
    IsField-append ampersand arg.0 (b'=' ∷ plus_to_space (escape arg.1)) h.some_byte
      (alnum-NoAmpersand arg.0 h.name) (equals_plain, escape-NoAmpersand arg.1 h.value)

pairs_of-joined :
    (args : List (Bytes × Bytes)) (fuel : ℕ)
    → All IsArg args
    → length args < fuel
    → pairs_of fuel (strtok ampersand (joined args)) ≡ map cooked args
unfolding pairs_of joined
pairs_of-joined args zero h n = let no : ⊥ = omega (arith, n) in elim no [ ]
pairs_of-joined [] (suc fuel) h n = ap (pairs_of (suc fuel)) (strtok-end ampersand)
pairs_of-joined (arg ∷ []) (suc fuel) h n =
    rw (strtok-last ampersand [] (cooked arg) tt (cooked-IsField arg h.0))
      (ap (λ t. cooked arg ∷ t) (pairs_of-joined [] fuel tt (omega (arith, n))))
pairs_of-joined (arg ∷ next ∷ args) (suc fuel) h n =
    rw
      (strtok-field ampersand [] (cooked arg) (joined (next ∷ args)) b'&' tt
        (cooked-IsField arg h.0) ampersand_delim)
      (ap (λ t. cooked arg ∷ t) (pairs_of-joined (next ∷ args) fuel h.1 (omega (arith, n))))

add_pairs-cooked :
    (args largs : List (Bytes × Bytes))
    → All IsArg args
    → add_pairs largs (map cooked args) ≡ some (largs ++ args)
unfolding add_pairs
add_pairs-cooked [] largs h = ap some (sym (append-nil largs))
add_pairs-cooked (arg ∷ args) largs h =
    rw (parse_pair-cooked arg h.0)
      (add_pairs-cooked args (largs ++ arg ∷ []) h.1 ∙ ap some (append_assoc largs (arg ∷ []) args))

length-cooked : (arg : Bytes × Bytes) → 0 < length (cooked arg)
length-cooked arg = rw (length-append arg.0 (b'=' ∷ plus_to_space (escape arg.1))) (omega arith)

length-joined : (args : List (Bytes × Bytes)) → length args ≤ length (joined args)
unfolding joined
length-joined [] = omega arith
length-joined (arg ∷ []) = let some_byte = length-cooked arg in omega (arith, some_byte)
length-joined (arg ∷ next ∷ args) =
    let more = length-joined (next ∷ args) in
    let some_byte = length-cooked arg in
    rw (length-append (cooked arg) (b'&' ∷ joined (next ∷ args))) (omega (arith, more, some_byte))

-- Of arguments whose names are letters and digits, at least one, and whose values are bytes other than NUL,
-- written as a browser writes a form, http_parseargs adds exactly these to the list, in their order.
pub http_parseargs-form :
    (largs args : List (Bytes × Bytes))
    → All IsArg args
    → http_parseargs largs (form args) ≡ some (largs ++ args)
unfolding http_parseargs
http_parseargs-form largs args h =
    rw
      (
        plus_to_space-form args h,
        pairs_of-joined args (suc (length (joined args))) h
            (let n = length-joined args in omega (arith, n)),
      )
      (add_pairs-cooked args largs h)
