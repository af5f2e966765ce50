-- ===== src/Text.antt =====
-- Texts as pageserv/utility.c handles them: `kw`, which cuts the white space at the end, and the
-- cast of a wider number to `int`.
pub mod Sort
use mathlib.Core.List.{reverse, reverse-append, reverse-reverse}
use pageserv.Base.{
  ℕ, ◌-◌, ◌<◌, ◌≡◌, ◌∙◌, [], ◌∷◌, ◌++◌, ltb, ◌^◌, arith, if◌then◌else◌, Bytes, ℤ, pos, negsuc,
}
use pageserv.Clib.{is_space}
use pageserv.Net.{to_u32}

skip_space : Bytes → Bytes
skip_space [] = []
skip_space (c ∷ s) = if is_space c then skip_space s else c ∷ s

-- kill whitey: from the end of the text
unfoldable pub kw : Bytes → Bytes
unfolding skip_space
kw s = reverse (skip_space (reverse s))

pub kw-append : (s : Bytes) (c : ℕ) → kw (s ++ c ∷ []) ≡ (if is_space c then kw s else s ++ c ∷ [])
unfolding kw
kw-append s c =
    rw (reverse-append s (c ∷ []))
      (ground (arith, reverse-reverse (s ++ c ∷ []), reverse-append s (c ∷ [])))

-- no white space at the end
abbrev pub Trimmed : Bytes → Type 0
Trimmed s = kw s ≡ s

pub kw-newline : (s : Bytes) → Trimmed s → kw (s ++ b'\n' ∷ []) ≡ s
kw-newline s h = kw-append s b'\n' ∙ h

-- (int) z
unfoldable pub as_int : ℤ → ℤ
unfolding to_u32
as_int z = let w = to_u32 z in if ltb w (2 ^ 31) then pos w else negsuc (2 ^ 32 - 1 - w)

-- z is an `int`
abbrev pub IsInt : ℤ → Type 0
IsInt (pos n) = n < 2 ^ 31
IsInt (negsuc n) = n < 2 ^ 31

pub as_int-IsInt : (z : ℤ) → IsInt z → as_int z ≡ z
unfolding as_int
as_int-IsInt (pos n) h = ground arith
as_int-IsInt (negsuc n) h = ground arith
