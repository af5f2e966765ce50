-- ===== src/Delivery/Modem/Waits.antt =====
-- When `s_modem_waitfor` of delivery/modem.c says that the text came, it came, and in time.
use pageserv.Base.{
  ℕ, zero, suc, ◌+◌, ◌-◌, ◌≤◌, ◌<◌, ◌≡◌, ◌⊎◌, inl, inr, refl, ap, sym, ◌∙◌, true, false, List, [],
  ◌∷◌, ◌++◌, ◌==◌, leb, Bytes, get_or, length, take, drop, length-drop, ltb, All, arith, Bool-cases,
  append_assoc,
}
use pageserv.Delivery.{Arrival, Line}
use pageserv.Delivery.Modem.{wait_match, s_modem_waitfor}

-- the bytes, and the seconds until the last of them is there
abbrev pub bytes : List Arrival → Bytes
bytes [] = []
bytes (a ∷ s) = a.byte ∷ bytes s

abbrev pub seconds : List Arrival → ℕ
seconds [] = 0
seconds (a ∷ s) = a.after + seconds s

take-suc : (xs : Bytes) (i : ℕ) → i < length xs → take (suc i) xs ≡ take i xs ++ get_or xs i 0 ∷ []
take-suc [] i h = absurd (omega arith)
take-suc (x ∷ xs) zero h = refl
take-suc (x ∷ xs) (suc i) h = rw (take-suc xs i (omega arith)) refl

take_all : (xs : Bytes) (i : ℕ) → length xs ≤ i → take i xs ≡ xs
take_all [] zero h = refl
take_all [] (suc i) h = refl
take_all (x ∷ xs) zero h = absurd (omega arith)
take_all (x ∷ xs) (suc i) h = rw (take_all xs i (omega arith)) refl

-- what a wait with i bytes seen came to
record Heard (what : Bytes) (i timeout : ℕ) (s rest : List Arrival) : Type 0 where
  text : (before : Bytes) × (take i what ++ bytes s ≡ (before ++ what) ++ bytes rest)
  time : ((length what ≤ i) × (rest ≡ s)) ⊎ (seconds s < seconds rest + timeout)

seen-Heard :
    (what : Bytes) (i timeout : ℕ) (s rest : List Arrival)
    → length what ≤ i
    → rest ≡ s
    → Heard what i timeout s rest
seen-Heard what i timeout s rest h e = record {
  text = ([], rw (take_all what i h, e) refl);
  time = inl (h, e);
}

hit-Heard :
    (what : Bytes) (i timeout : ℕ) (a : Arrival) (s rest : List Arrival)
    → i < length what
    → a.after < timeout
    → a.byte ≡ get_or what i 0
    → Heard what (suc i) (timeout - a.after) s rest
    → Heard what i timeout (a ∷ s) rest
hit-Heard what i timeout a s rest inside early hit h =
    let (before, e) = h.text in
    record {
      text = (
        before,
        sym (append_assoc (take i what) (a.byte ∷ []) (bytes s))
            ∙ ap (λ c. (take i what ++ c ∷ []) ++ bytes s) hit
            ∙ ap (λ t. t ++ bytes s) (sym (take-suc what i inside))
            ∙ e,
      );
      time = inr (elim h.time [ inl (full, same) ↦ rw same (omega arith) | inr lt ↦ omega arith ]);
    }

miss-Heard :
    (what : Bytes) (i timeout : ℕ) (a : Arrival) (s rest : List Arrival)
    → i < length what
    → a.after < timeout
    → Heard what 0 (timeout - a.after) s rest
    → Heard what i timeout (a ∷ s) rest
miss-Heard what i timeout a s rest inside early h =
    let (before, e) = h.text in
    record {
      text = (
        take i what ++ a.byte ∷ before,
        ap (λ t. take i what ++ a.byte ∷ t) e ∙ simp append_assoc,
      );
      time = inr (elim h.time [ inl (full, same) ↦ absurd (omega arith) | inr lt ↦ omega arith ]);
    }

wait_match-Heard :
    (what : Bytes) (i timeout : ℕ) (s rest : List Arrival)
    → wait_match what i timeout s ≡ (true, rest)
    → Heard what i timeout s rest
unfolding wait_match
wait_match-Heard what i timeout [] rest e =
    seen-Heard what i timeout [] rest (ground arith) (ground arith)
wait_match-Heard what i timeout (a ∷ s) rest e = elim (Bool-cases (leb (length what) i)) [
  | inl seen ↦ seen-Heard what i timeout (a ∷ s) rest (ground arith) (ground arith)
  | inr more ↦ elim (Bool-cases (leb timeout a.after)) [
    | inl late ↦ absurd (ground arith)
    | inr early ↦ elim (Bool-cases (a.byte == get_or what i 0)) [
      | inl hit ↦
          hit-Heard what i timeout a s rest (ground arith) (ground arith) (ground arith)
            (wait_match-Heard what (suc i) (timeout - a.after) s rest (ground arith))
      | inr miss ↦
          miss-Heard what i timeout a s rest (ground arith) (ground arith)
            (wait_match-Heard what 0 (timeout - a.after) s rest (ground arith))
    ]
  ]
]

-- Where `s_modem_waitfor` gives 0, what arrived up to where it stopped reading ends with the text, and
-- if the text is not empty, all of it arrived in less than the given seconds.
pub s_modem_waitfor-heard :
    (what : Bytes) (timeout : ℕ) (p p' : Line)
    → 0 < length what
    → s_modem_waitfor what timeout p ≡ (true, p')
    → (before : Bytes) × (bytes p.incoming ≡ (before ++ what) ++ bytes p'.incoming)
      × (seconds p.incoming < seconds p'.incoming + timeout)
      × (p'.out ≡ p.out)
unfolding s_modem_waitfor
s_modem_waitfor-heard what timeout p p' some_text e =
    let h = wait_match-Heard what 0 timeout p.incoming p'.incoming (ground arith) in
    (
      h.text.0,
      h.text.1,
      elim h.time [ inl (full, same) ↦ absurd (omega arith) | inr lt ↦ lt ],
      ground arith,
    )

wait_match-full :
    (what : Bytes) (i timeout : ℕ) (s : List Arrival)
    → length what ≤ i
    → wait_match what i timeout s ≡ (true, s)
unfolding wait_match
wait_match-full what i timeout [] h = ground arith
wait_match-full what i timeout (a ∷ s) h = ground arith

drop-get : (xs : Bytes) (i : ℕ) → i < length xs → drop i xs ≡ get_or xs i 0 ∷ drop (suc i) xs
drop-get [] i h = absurd (omega arith)
drop-get (x ∷ xs) zero h = refl
drop-get (x ∷ xs) (suc i) h = drop-get xs i (omega arith)

-- one byte of the text in time
wait_match-hit :
    (what : Bytes) (i timeout : ℕ) (a : Arrival) (s : List Arrival)
    → i < length what
    → a.after < timeout
    → a.byte ≡ get_or what i 0
    → wait_match what i timeout (a ∷ s) ≡ wait_match what (suc i) (timeout - a.after) s
unfolding wait_match
wait_match-hit what i timeout a s inside early hit = ground arith

wait_match-miss :
    (what : Bytes) (timeout : ℕ) (a : Arrival) (s : List Arrival)
    → 0 < length what
    → a.after < timeout
    → (a.byte == get_or what 0 0) ≡ false
    → wait_match what 0 timeout (a ∷ s) ≡ wait_match what 0 (timeout - a.after) s
unfolding wait_match
wait_match-miss what timeout a s inside early miss = ground arith

wait_match-text :
    (what : Bytes) (come rest : List Arrival) (i timeout : ℕ)
    → i ≤ length what
    → bytes come ≡ drop i what
    → seconds come < timeout
    → wait_match what i timeout (come ++ rest) ≡ (true, rest)
wait_match-text what [] rest i timeout h e t =
    wait_match-full what i timeout rest (ground (arith, drop-get what i))
wait_match-text what (a ∷ come) rest i timeout h e t = elim (Bool-cases (ltb i (length what))) [
  | inr over ↦ absurd (ground (arith, length-drop i what))
  | inl inside ↦
      let split = drop-get what i (ground arith) in
      wait_match-hit what i timeout a (come ++ rest) (ground arith) (omega arith) (ground arith)
      ∙ wait_match-text what come rest (suc i) (timeout - a.after) (ground arith) (ground arith)
          (omega arith)
]

wait_match-skip :
    (c : ℕ) (w : Bytes) (early come : List Arrival) (timeout : ℕ)
    → All (λ a. (a.byte == c) ≡ false) early
    → seconds early < timeout
    → wait_match (c ∷ w) 0 timeout (early ++ come)
      ≡ wait_match (c ∷ w) 0 (timeout - seconds early) come
wait_match-skip c w [] come timeout h t = ap (λ n. wait_match (c ∷ w) 0 n come) (omega arith)
wait_match-skip c w (a ∷ early) come timeout h t =
    wait_match-miss (c ∷ w) timeout a (early ++ come) (omega arith) (omega arith) h.0
    ∙ wait_match-skip c w early come (timeout - a.after) h.1 (omega arith)
    ∙ ap (λ n. wait_match (c ∷ w) 0 n come) (omega arith)

-- Where the text arrives within the given seconds, and its first byte does not arrive before it,
-- `s_modem_waitfor` gives 0 and reads just up to the end of the text.
pub s_modem_waitfor-hears :
    (c : ℕ) (w : Bytes) (early come rest : List Arrival) (timeout : ℕ) (out : Bytes)
    → All (λ a. (a.byte == c) ≡ false) early
    → bytes come ≡ c ∷ w
    → seconds early + seconds come < timeout
    → s_modem_waitfor (c ∷ w) timeout (record { incoming = early ++ (come ++ rest); out = out })
      ≡ (true, record { incoming = rest; out = out })
unfolding s_modem_waitfor
s_modem_waitfor-hears c w early come rest timeout out h e t =
    let heard =
      wait_match-skip c w early (come ++ rest) timeout h (omega arith)
      ∙ wait_match-text (c ∷ w) come rest 0 (timeout - seconds early) (omega arith) e
          (omega arith) in
    rw heard refl
