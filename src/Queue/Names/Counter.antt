-- ===== src/Queue/Names/Counter.antt =====
-- `newtmp` counts in letters, the first letter the lowest.
use pageserv.Base.{
  ℕ, ◌+◌, ◌-◌, ◌*◌, ◌≤◌, ◌≡◌, refl, true, false, [], ◌∷◌, ltb, Bytes, All, arith, Bool-cases, inl,
  inr,
}
use pageserv.Queue.Names.{settle, newtmp}

abbrev pub IsLetter : ℕ → Type 0
IsLetter c = (b'A' ≤ c) × (c ≤ b'Z')

-- the number that the letters stand for: A is 1, and the empty text 0
abbrev pub value : Bytes → ℕ
value [] = 0
value (c ∷ s) = c - 64 + 26 * value s

settle-false : (s : Bytes) → All IsLetter s → settle false s ≡ s
unfolding settle
settle-false [] h = refl
settle-false (c ∷ s) h = ground (arith, settle-false s h.1)

settle-true :
    (s : Bytes)
    → All IsLetter s
    → All IsLetter (settle true s) × (value (settle true s) ≡ value s + 1)
unfolding settle
settle-true [] h = omega arith
settle-true (c ∷ s) h = elim (Bool-cases (ltb b'Z' (c + 1))) [
  | inl over ↦ rw over (ground (arith, settle-true s h.1))
  | inr stay ↦ rw stay (rw (settle-false s h.1) (ground arith))
]

-- Each call of `newtmp` gives letters whose number is one more than that of the last call's.
pub value-newtmp :
    (s : Bytes) → All IsLetter s → All IsLetter (newtmp s) × (value (newtmp s) ≡ value s + 1)
unfolding newtmp
value-newtmp [] h = omega arith
value-newtmp (c ∷ s) h = settle-true (c ∷ s) h
