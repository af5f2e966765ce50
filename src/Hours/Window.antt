-- ===== src/Hours/Window.antt =====
-- What the packed hours mean, and what is read back from them.
use pageserv.Base.{
  ℕ, ◌+◌, ◌<◌, ◌≡◌, ◌≢◌, refl, Bool, true, false, ◌&&◌, ◌||◌, not, ltb, leb, ◌==◌, if◌then◌else◌, ℤ,
  pos, arith, all_below, all_below_sound, ltb_ℤ, ◌⊎◌, inl, inr, ◌∙◌,
}
use pageserv.Hours.{all_hours, bit_set, pack_hours, pack_timebits, getnormtimes}

-- the hour `h` lies in the span from `early` up to, and not including, `late`, around midnight
-- where `late` comes first
abbrev pub in_span : ℕ → ℕ → ℕ → Bool
in_span early late h =
    if ltb early late then leb early h && ltb h late else leb early h || ltb h late

abbrev same_bool : Bool → Bool → Bool
same_bool a b = if a then b else not b

same_bool-eq : (a b : Bool) → same_bool a b ≡ true → a ≡ b
same_bool-eq a b h = ground arith

-- a law of three hours of the day, by evaluation
abbrev spans_agree : ℕ → ℕ → ℕ → Bool
spans_agree e l h = same_bool (bit_set (pack_hours e l) h) (in_span (if e == 0 then 23 else e) l h)

spans_table : all_below 24 (λ e. all_below 24 (λ l. all_below 24 (λ h. spans_agree e l h))) ≡ true
unfolding all_below bit_set pack_hours
spans_table = refl

pairs_sound :
    (n : ℕ) (p : ℕ → ℕ → Bool) (a b : ℕ)
    → all_below n (λ x. all_below n (p x)) ≡ true
    → a < n
    → b < n
    → p a b ≡ true
pairs_sound n p a b h ha hb =
    all_below_sound n (p a) b (all_below_sound n (λ x. all_below n (p x)) a h ha) hb

pack_hours_bits :
    (e l h : ℕ)
    → e < 24
    → l < 24
    → h < 24
    → bit_set (pack_hours e l) h ≡ in_span (if e == 0 then 23 else e) l h
pack_hours_bits e l h he hl hh = same_bool-eq _ _ (
    all_below_sound 24 (spans_agree e l) h
      (pairs_sound 24 (λ e l. all_below 24 (spans_agree e l)) e l spans_table he hl) hh)

pack_timebits-pack_hours :
    (e l : ℕ) → e < 24 → l < 24 → e ≢ l → pack_timebits (pos e) (pos l) ≡ pack_hours e l
unfolding pack_timebits
pack_timebits-pack_hours e l he hl ne = ground arith

-- For two different hours of the day, the packed bits hold an hour of the day exactly when it lies
-- in the span from `early` up to `late`, around midnight where `late` comes first. An `early` of 0
-- counts as 23.
pub pack_timebits-in_span :
    (e l h : ℕ)
    → e < 24
    → l < 24
    → h < 24
    → e ≢ l
    → bit_set (pack_timebits (pos e) (pos l)) h ≡ in_span (if e == 0 then 23 else e) l h
pack_timebits-in_span e l h he hl hh ne =
    rw (pack_timebits-pack_hours e l he hl ne) (pack_hours_bits e l h he hl hh)

-- the two numbers that the reader gives back
abbrev reads_back : ℕ → ℕ → ℕ → ℕ → Bool
reads_back e l e' l' = let (a, b) = getnormtimes (pack_hours e l) in a == e' && b == l'

reads_back-eq :
    (e l e' l' : ℕ) → reads_back e l e' l' ≡ true → getnormtimes (pack_hours e l) ≡ (e', l')
reads_back-eq e l e' l' h = ground arith

abbrev trips : ℕ → ℕ → Bool
trips e l = e == 0 || l == 0 || e == l || reads_back e l e l

trips_table : all_below 24 (λ e. all_below 24 (trips e)) ≡ true
unfolding all_below getnormtimes pack_hours
trips_table = refl

trips-reads_back : (e l : ℕ) → 0 < e → 0 < l → e ≢ l → trips e l ≡ true → reads_back e l e l ≡ true
trips-reads_back e l he hl ne h = ground arith

-- Two different hours from 1 to 23 are read back from their packed bits as they were.
pub getnormtimes-pack_timebits :
    (e l : ℕ)
    → 0 < e
    → e < 24
    → 0 < l
    → l < 24
    → e ≢ l
    → getnormtimes (pack_timebits (pos e) (pos l)) ≡ (e, l)
getnormtimes-pack_timebits e l he he' hl hl' ne = rw (pack_timebits-pack_hours e l he' hl' ne) (
    reads_back-eq e l e l
      (trips-reads_back e l he hl ne (pairs_sound 24 trips e l trips_table he' hl')))

packs_all :
    (early late : ℤ)
    → (early ≡ late)
      ⊎ (ltb_ℤ (pos 23) early ≡ true)
      ⊎ (ltb_ℤ early (pos 0) ≡ true)
      ⊎ (ltb_ℤ (pos 23) late ≡ true)
      ⊎ (ltb_ℤ late (pos 0) ≡ true)
    → pack_timebits early late ≡ all_hours
unfolding pack_timebits
packs_all early late h = ground arith

full_times : getnormtimes all_hours ≡ (0, 0)
unfolding getnormtimes
full_times = refl

full_bits : all_below 24 (bit_set all_hours) ≡ true
unfolding all_below bit_set
full_bits = refl

-- Equal hours, and a pair with an hour outside 0 to 23, are packed as all ones: every hour is on,
-- and what is read back is 0 and 0.
pub pack_timebits-all_hours :
    (early late : ℤ) (h : ℕ)
    → h < 24
    → (early ≡ late)
      ⊎ (ltb_ℤ (pos 23) early ≡ true)
      ⊎ (ltb_ℤ early (pos 0) ≡ true)
      ⊎ (ltb_ℤ (pos 23) late ≡ true)
      ⊎ (ltb_ℤ late (pos 0) ≡ true)
    → (pack_timebits early late ≡ all_hours)
      × (getnormtimes (pack_timebits early late) ≡ (0, 0))
      × (bit_set (pack_timebits early late) h ≡ true)
pack_timebits-all_hours early late h lt out =
    let e = packs_all early late out in
    (e, rw e full_times, rw e (all_below_sound 24 (bit_set all_hours) h full_bits lt))

midnight_table : all_below 24 (λ e. e == 0 || reads_back e 0 e 24) ≡ true
unfolding all_below getnormtimes pack_hours
midnight_table = refl

nonzero : (e : ℕ) (b : Bool) → 0 < e → (e == 0 || b) ≡ true → b ≡ true
nonzero e b h k = ground arith

-- A span from hour e > 0 up to midnight, entered as hour 0, is read back as e and 24; packing what
-- was read back turns every hour on, also the hour e - 1, which was off.
pub repack_midnight :
    (e : ℕ)
    → e + 1 < 24
    → (getnormtimes (pack_timebits (pos (e + 1)) (pos 0)) ≡ (e + 1, 24))
      × (pack_timebits (pos (e + 1)) (pos 24) ≡ all_hours)
      × (bit_set (pack_timebits (pos (e + 1)) (pos 0)) e ≡ false)
      × (bit_set (pack_timebits (pos (e + 1)) (pos 24)) e ≡ true)
repack_midnight e he =
    let packed = pack_timebits-pack_hours (e + 1) 0 he (omega arith) (omega arith) in
    let all_on =
      pack_timebits-all_hours (pos (e + 1)) (pos 24) e (omega arith)
        (inr (inr (inr (inl (refl))))) in
    (
      rw packed (
          reads_back-eq (e + 1) 0 (e + 1) 24 (
            nonzero (e + 1) _ (omega arith)
              (all_below_sound 24 (λ e. e == 0 || reads_back e 0 e 24) (e + 1) midnight_table he))),
      all_on.0,
      pack_timebits-in_span (e + 1) 0 e he (omega arith) (omega arith) (omega arith) ∙ ground arith,
      all_on.2,
    )
