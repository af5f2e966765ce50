-- ===== src/Queue/Store/Wrap.antt =====
-- What `_splitsq` makes of a long message.
use mathlib.Core.Path.{fun_ext, subst}
use pageserv.Base.{
  ℕ, zero, suc, ◌≤◌, ◌<◌, ◌≡◌, ◌≢◌, ◌⊎◌, refl, ap, sym, ◌∙◌, true, false, Option, none, some, List,
  [], ◌∷◌, ◌++◌, ltb, ◌==◌, Bytes, All, arith, Bool-cases, inl, inr, length, length-take,
  length-drop, take-append-drop, get_or, take, drop, lt→ltb, ltb→lt,
}
use pageserv.Clib.{is_space}
use pageserv.Queue.Types.{World}
use pageserv.Queue.Store.{find_break, next_piece, after_piece, split_loop}

-- from behind position p up to position k there is no white space in the text
abbrev pub NoSpace : Bytes → ℕ → ℕ → Type 0
NoSpace s p k = (j : ℕ) → p < j → j < k → is_space (get_or s j 0) ≡ false

-- The pieces of a message: none is longer than the limit. A piece is cut at the last white space byte
-- before the limit, which is left out, or at the limit, where only its first byte may be white space.
pub data Wraps (limit : ℕ) : Bytes → List Bytes → Type 0 where
  last : {s : Bytes} → length s ≤ limit → Wraps limit s (s ∷ [])
  soft :
      {s piece rest : Bytes} (c : ℕ) {pieces : List Bytes}
      → s ≡ piece ++ c ∷ rest
      → is_space c ≡ true
      → 0 < length piece
      → length piece < limit
      → NoSpace s (length piece) limit
      → Wraps limit rest pieces
      → Wraps limit s (piece ∷ pieces)
  hard :
      {s piece rest : Bytes} {pieces : List Bytes}
      → s ≡ piece ++ rest
      → length piece ≡ limit
      → NoSpace s 0 limit
      → Wraps limit rest pieces
      → Wraps limit s (piece ∷ pieces)

pub Wraps-fit :
    {limit : ℕ} {s : Bytes} {pieces : List Bytes}
    → Wraps limit s pieces
    → All (λ p. length p ≤ limit) pieces
Wraps-fit (last h) = (h, tt)
Wraps-fit (soft c e sp nonempty short gap w) = (omega arith, Wraps-fit w)
Wraps-fit (hard e full gap w) = (omega arith, Wraps-fit w)

then_all : (World → Option (ℕ × World)) → Option (ℕ × World) → Option (ℕ × World)
then_all rest none = none
then_all rest (some (zero, w)) = rest w
then_all rest (some (suc e, w)) = some (suc e, w)

-- store each piece, up to the first that is refused
pub store_all : (Bytes → World → Option (ℕ × World)) → List Bytes → World → Option (ℕ × World)
unfolding then_all
store_all store [] w = some (0, w)
store_all store (p ∷ ps) w = then_all (store_all store ps) (store p w)

find_break-cases :
    (k : ℕ) (buf : Bytes)
    → (find_break k buf ≡ 0)
      ⊎ ((0 < find_break k buf)
          × (find_break k buf < k)
          × (is_space (get_or buf (find_break k buf) 0) ≡ true))
unfolding find_break
find_break-cases zero buf = inl refl
find_break-cases (suc k) buf = elim (Bool-cases (k == 0)) [
  | inl start ↦ rw start (inl refl)
  | inr more ↦ rw more (elim (Bool-cases (is_space (get_or buf k 0))) [
    | inl space ↦ rw space (inr (ground arith, omega arith, space))
    | inr none_here ↦ rw none_here (elim (find_break-cases k buf) [
      | inl stop ↦ inl stop
      | inr (a, b, c) ↦ inr (a, omega arith, c)
    ])
  ])
]

find_break-NoSpace : (k : ℕ) (buf : Bytes) → NoSpace buf (find_break k buf) k
unfolding find_break
find_break-NoSpace zero buf = λ j lo hi. absurd (omega (arith, hi))
find_break-NoSpace (suc k) buf = elim (Bool-cases (k == 0)) [
  | inl start ↦ rw start (λ j lo hi. absurd (ground (arith, start, lo, hi)))
  | inr more ↦ rw more (elim (Bool-cases (is_space (get_or buf k 0))) [
    | inl space ↦ rw space (λ j lo hi. absurd (omega (arith, lo, hi)))
    | inr none_here ↦ rw none_here (λ j lo hi. elim (Bool-cases (j == k)) [
      | inl at_k ↦
          let same : j ≡ k = ground (arith, at_k) in
          ap (λ i. is_space (get_or buf i 0)) same ∙ none_here
      | inr before ↦ find_break-NoSpace k buf j lo (ground (arith, before, hi))
    ])
  ])
]

take-get_or-drop :
    (p : ℕ) (s : Bytes) → p < length s → s ≡ take p s ++ get_or s p 0 ∷ drop (suc p) s
take-get_or-drop p [] h = absurd (omega arith)
take-get_or-drop zero (c ∷ s) h = refl
take-get_or-drop (suc p) (c ∷ s) h = ap (◌∷◌ c) (take-get_or-drop p s (omega arith))

drop-ne-nil : (p : ℕ) (s : Bytes) → p < length s → drop p s ≢ []
drop-ne-nil p s h e = omega (arith, ap (λ (t : Bytes). length t) e, length-drop p s)

-- The two ways in which a piece is cut off a text that is too long.
next_piece-cases :
    (limit : ℕ) (buf : Bytes)
    → 0 < limit
    → limit < length buf
    → ((p : ℕ) × (next_piece limit buf ≡ (take p buf, drop (suc p) buf))
        × (0 < p)
        × (p < limit)
        × (is_space (get_or buf p 0) ≡ true)
        × NoSpace buf p limit)
      ⊎ ((next_piece limit buf ≡ (take limit buf, drop limit buf)) × NoSpace buf 0 limit)
unfolding next_piece
next_piece-cases limit buf h long =
    rw (lt→ltb limit (length buf) long) (elim (find_break-cases limit buf) [
      | inl stop ↦
          inr (rw stop refl, subst (λ p. NoSpace buf p limit) stop (find_break-NoSpace limit buf))
      | inr (a, b, c) ↦
          inl (find_break limit buf, ground arith, a, b, c, find_break-NoSpace limit buf)
    ])

after_piece-then_all :
    (rest : Bytes) (loop : Bytes → World → Option (ℕ × World)) (later : World → Option (ℕ × World))
    (r : Option (ℕ × World))
    → rest ≢ []
    → ((w : World) → loop rest w ≡ later w)
    → after_piece rest loop r ≡ then_all later r
unfolding after_piece then_all
after_piece-then_all [] loop later r ne h = absurd (ne refl)
after_piece-then_all (c ∷ s) loop later none ne h = refl
after_piece-then_all (c ∷ s) loop later (some (zero, w)) ne h = h w
after_piece-then_all (c ∷ s) loop later (some (suc k, w)) ne h = refl

after_piece-more :
    (rest : Bytes) (store : Bytes → World → Option (ℕ × World))
    (loop : Bytes → World → Option (ℕ × World)) (p : Bytes) (ps : List Bytes) (w : World)
    → rest ≢ []
    → ((w : World) → loop rest w ≡ store_all store ps w)
    → after_piece rest loop (store p w) ≡ store_all store (p ∷ ps) w
unfolding store_all
after_piece-more rest store loop p ps w ne h =
    after_piece-then_all rest loop (store_all store ps) (store p w) ne h

after_piece-nil :
    (loop : Bytes → World → Option (ℕ × World)) (r : Option (ℕ × World))
    → after_piece [] loop r ≡ then_all (λ w. some (0, w)) r
unfolding after_piece then_all
after_piece-nil loop none = refl
after_piece-nil loop (some (zero, w)) = refl
after_piece-nil loop (some (suc k, w)) = refl

after_piece-last :
    (store : Bytes → World → Option (ℕ × World)) (loop : Bytes → World → Option (ℕ × World))
    (p : Bytes) (w : World)
    → after_piece [] loop (store p w) ≡ store_all store (p ∷ []) w
unfolding store_all
after_piece-last store loop p w = after_piece-nil loop (store p w)

next_piece-short : (limit : ℕ) (buf : Bytes) → length buf ≤ limit → next_piece limit buf ≡ (buf, [])
unfolding next_piece
next_piece-short limit buf h = ground arith

-- With more rounds than there are bytes the loop stores the pieces of a wrapping, in order.
pub split_loop-Wraps :
    (fuel limit : ℕ) (s : Bytes)
    → 0 < limit
    → length s < fuel
    → (ps : List Bytes) × Wraps limit s ps
      × ((store : Bytes → World → Option (ℕ × World)) (w : World)
          → split_loop fuel limit store s w ≡ store_all store ps w)
unfolding split_loop
split_loop-Wraps zero limit s h lt = absurd (omega arith)
split_loop-Wraps (suc fuel) limit s h lt = elim (Bool-cases (ltb limit (length s))) [
  | inr fits ↦ (
    s ∷ [],
    last (ground arith),
    λ store w.
        rw (next_piece-short limit s (ground arith))
          (after_piece-last store (split_loop fuel limit store) s w),
  )
  | inl long ↦ elim (next_piece-cases limit s h (ground arith)) [
    | inl (p, e, lo, hi, space, gap) ↦
        let (ps, wraps, same) =
          split_loop-Wraps fuel limit (drop (suc p) s) h
            (omega (arith, length-drop (suc p) s, ltb→lt limit (length s) long)) in
        (
          take p s ∷ ps,
          soft (get_or s p 0) (take-get_or-drop p s (ground arith)) space
              (ground (arith, length-take p s)) (ground (arith, length-take p s))
              (λ j more below. gap j (ground (arith, length-take p s, more)) below) wraps,
          λ store w. rw e (
              after_piece-more (drop (suc p) s) store (split_loop fuel limit store) (take p s) ps w
                (drop-ne-nil (suc p) s (ground arith)) (same store)),
        )
    | inr (e, gap) ↦
        let (ps, wraps, same) =
          split_loop-Wraps fuel limit (drop limit s) h
            (omega (arith, length-drop limit s, ltb→lt limit (length s) long)) in
        (
          take limit s ∷ ps,
          hard (sym (take-append-drop limit s)) (ground (arith, length-take limit s)) gap wraps,
          λ store w. rw e (
              after_piece-more (drop limit s) store (split_loop fuel limit store) (take limit s) ps
                w (drop-ne-nil limit s (ground arith)) (same store)),
        )
  ]
]

pub store_all-same :
    (limit : ℕ) (f g : Bytes → World → Option (ℕ × World)) (ps : List Bytes) (w : World)
    → All (λ p. length p ≤ limit) ps
    → ((p : Bytes) → length p ≤ limit → (w : World) → f p w ≡ g p w)
    → store_all f ps w ≡ store_all g ps w
unfolding store_all
store_all-same limit f g [] w h same = refl
store_all-same limit f g (p ∷ ps) w h same =
    rw (same p h.0 w, fun_ext (λ w'. store_all-same limit f g ps w' h.1 same)) refl
