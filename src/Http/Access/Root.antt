-- ===== src/Http/Access/Root.antt =====
-- The search for an .htaccess file comes to the document root and ends there.
use pageserv.Base.{
  ℕ, zero, suc, ◌+◌, ◌-◌, ◌<◌, ◌≤◌, ◌≡◌, refl, ap, sym, ◌∙◌, ◌⊎◌, inl, inr, Bool, true, false, ◌&&◌,
  not, some, [], ◌∷◌, ◌++◌, take, Bytes, codes, length, length-append, length-take, ltb, ◌==◌,
  get_or, Bool-cases, Option-cases, arith,
}
use pageserv.Clib.{equal, equal_refl}
use pageserv.Http.Reply.{Site}
use pageserv.Http.Access.{slash_from, striptopath, realm_of, find_realm}

get_or-append : (k : ℕ) (root s : Bytes) (c : ℕ) → length root ≡ k → get_or (root ++ c ∷ s) k 0 ≡ c
get_or-append zero [] s c h = refl
get_or-append zero (d ∷ root) s c h = absurd (omega (arith, h))
get_or-append (suc k) [] s c h = absurd (omega (arith, h))
get_or-append (suc k) (d ∷ root) s c h = get_or-append k root s c (omega (arith, h))

take-root : (root s : Bytes) → take (length root) (root ++ s) ≡ root
take-root [] s = refl
take-root (d ∷ root) s = ap (λ u. d ∷ u) (take-root root s)

take-behind :
    (j : ℕ) (root s : Bytes) (c : ℕ)
    → take (length root + suc j) (root ++ c ∷ s) ≡ root ++ c ∷ take j s
take-behind j [] s c = let sum : 0 + suc j ≡ suc j = omega arith in ap (λ n. take n (c ∷ s)) sum
take-behind j (d ∷ root) s c =
    let sum : suc (length root) + suc j ≡ suc (length root + suc j) = omega arith in
    ap (λ n. take n (d ∷ (root ++ c ∷ s))) sum ∙ ap (λ u. d ∷ u) (take-behind j root s c)

-- a slash that is there is found, or one behind it
slash_from-least :
    (i k : ℕ) (s : Bytes)
    → k ≤ i
    → 0 < k
    → get_or s k 0 ≡ b'/'
    → (k ≤ slash_from i s) × (slash_from i s ≤ i)
unfolding slash_from
slash_from-least zero k s h n e = absurd (omega (arith, h, n))
slash_from-least (suc i) k s h n e = elim (Bool-cases (get_or s (suc i) 0 == b'/')) [
  | inl here ↦ rw here (h, omega arith)
  | inr other ↦
      let before : k ≤ i = elim (Bool-cases (k == suc i)) [
        | inl same ↦
            let at : k ≡ suc i = ground (arith, same) in
            absurd (ground (arith, ap (λ n. get_or s n 0 == b'/') (sym at), e, other))
        | inr less ↦ ground (arith, h, less)
      ] in
      let more = slash_from-least i k s before n e in rw other (more.0, omega (arith, more.1))
]

-- the path of a page: something in the document root
abbrev IsBelow : Bytes → Bytes → ℕ → Type 0
IsBelow root pathname n = (s : Bytes) × (pathname ≡ root ++ b'/' ∷ s) × (length s < n)

striptopath-IsBelow :
    (root s : Bytes)
    → 0 < length root
    → (striptopath (root ++ b'/' ∷ s) ≡ root)
      ⊎ IsBelow root (striptopath (root ++ b'/' ∷ s)) (length s)
unfolding striptopath
striptopath-IsBelow root s n =
    let p = root ++ b'/' ∷ s in
    let i = slash_from (length p - 1) p in
    let len = length-append root (b'/' ∷ s) in
    let found =
      slash_from-least (length p - 1) (length root) p (omega (arith, len)) n
        (get_or-append (length root) root s b'/' refl) in
    let cut : ltb 0 i ≡ true = ground (arith, found, n) in
    elim (Bool-cases (i == length root)) [
      | inl top ↦
          let at : i ≡ length root = ground (arith, top) in
          rw cut (inl (ap (λ m. take m p) at ∙ take-root root (b'/' ∷ s)))
      | inr deeper ↦
          let j = i - length root - 1 in
          let at : i ≡ length root + suc j = ground (arith, found, deeper) in
          let less : length (take j s) < length s =
            let some_length = length-take j s in omega (arith, some_length, found, len, at) in
          rw cut (inr (take j s, ap (λ m. take m p) at ∙ take-behind j root s b'/', less))
    ]

-- the loop ends once it is at the root, and there it has found what there is
find_realm-root :
    (site : Site) (fuel : ℕ) (authname : Bytes) (needauth : Bool)
    → find_realm (suc fuel) site site.webroot authname needauth ≡ some (authname, needauth)
unfolding find_realm
find_realm-root site fuel authname needauth =
    rw (equal_refl site.webroot) (elim (Bool-cases (equal authname [])) [
      | inl empty ↦ rw empty refl
      | inr realm ↦ rw realm refl
    ])

find_realm-below :
    (site : Site) (fuel : ℕ) (pathname authname : Bytes) (needauth : Bool) (s : Bytes)
    → 0 < length site.webroot
    → pathname ≡ site.webroot ++ b'/' ∷ s
    → suc (length s) < fuel
    → (found : Bytes × Bool) × (find_realm fuel site pathname authname needauth ≡ some found)
unfolding find_realm
find_realm-below site zero pathname authname needauth s n e h = absurd (omega (arith, h))
find_realm-below site (suc zero) pathname authname needauth s n e h = absurd (omega (arith, h))
find_realm-below site (suc (suc fuel)) pathname authname needauth s n e h =
    let at : striptopath pathname ≡ striptopath (site.webroot ++ b'/' ∷ s) = ap striptopath e in
    let above : (a : Bytes) (b : Bool)
        → (found : Bytes × Bool) × (find_realm (suc fuel) site (striptopath pathname) a b
            ≡ some found) =
      λ a b. elim (striptopath-IsBelow site.webroot s n) [
        | inl top ↦ (
          (a, b),
          ap (λ p. find_realm (suc fuel) site p a b) (at ∙ top) ∙ find_realm-root site fuel a b,
        )
        | inr (rest, same, less) ↦
            find_realm-below site (suc fuel) (striptopath pathname) a b rest n (at ∙ same)
              (omega (arith, less, h))
      ] in
    elim (Bool-cases (equal authname [] && not (equal pathname site.webroot))) [
      | inr over ↦ rw over ((authname, needauth), refl)
      | inl going_on ↦
          elim (Option-cases (site.file (striptopath pathname ++ codes "/.htaccess"))) [
            | inl missing ↦ rw (going_on, missing) (above authname needauth)
            | inr (text, there) ↦ rw (going_on, there) (above (realm_of text) true)
          ]
    ]

-- The search of http_checkauth ends for every path that is the document root, a slash and something, where
-- the root is not empty: with fuel for more than the bytes of the path it gives a realm or that there is none.
pub find_realm-ends :
    (site : Site) (s : Bytes)
    → 0 < length site.webroot
    → (found : Bytes × Bool) × (find_realm
          (suc (length (site.webroot ++ b'/' ∷ s)))
          site
          (site.webroot ++ b'/' ∷ s)
          []
          false
        ≡ some found)
find_realm-ends site s n =
    let len = length-append site.webroot (b'/' ∷ s) in
    find_realm-below site (suc (length (site.webroot ++ b'/' ∷ s))) (site.webroot ++ b'/' ∷ s) []
      false s n refl (omega (arith, len, n))
