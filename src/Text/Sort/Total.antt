-- ===== src/Text/Sort/Total.antt =====
-- `stringListSort` of pageserv/utility.c sorts every list.
use mathlib.Core.List.{Perm}
use mathlib.Core.List.Perm
use pageserv.Base.{suc, ◌≡◌, refl, true, false, some, List, [], ◌∷◌, ltb, length, Bytes, arith}
use pageserv.Sorting.{sort_range}
use pageserv.Sorting.Ensures.{Ensures-total}
use pageserv.Sorting.Order.{Tests}
use pageserv.Sorting.Range.{Sorted, sort_range-Sorted}
use pageserv.Text.Sort.{strcmp_lt, text_up, text_down, string_list_sort}

-- strcmp(s, t) <= 0
abbrev pub TextLe : Bytes → Bytes → Type 0
TextLe s t = strcmp_lt t s ≡ false

TextLe-refl : (s : Bytes) → TextLe s s
unfolding strcmp_lt
TextLe-refl [] = refl
TextLe-refl (c ∷ s) = ground (arith, TextLe-refl s)

TextLe-trans : (s t u : Bytes) → TextLe s t → TextLe t u → TextLe s u
unfolding strcmp_lt
TextLe-trans [] [] [] h k = refl
TextLe-trans [] [] (e ∷ u) h k = refl
TextLe-trans [] (d ∷ t) [] h k = refl
TextLe-trans [] (d ∷ t) (e ∷ u) h k = refl
TextLe-trans (c ∷ s) [] u h k = absurd (ground arith)
TextLe-trans (c ∷ s) (d ∷ t) [] h k = absurd (ground arith)
TextLe-trans (c ∷ s) (d ∷ t) (e ∷ u) h k = ground (arith, TextLe-trans s t u)

strcmp_lt-asym : (s t : Bytes) → strcmp_lt s t ≡ true → TextLe s t
unfolding strcmp_lt
strcmp_lt-asym [] [] h = refl
strcmp_lt-asym [] (d ∷ t) h = refl
strcmp_lt-asym (c ∷ s) [] h = absurd (ground arith)
strcmp_lt-asym (c ∷ s) (d ∷ t) h = ground (arith, strcmp_lt-asym s t)

text_tests : Tests TextLe text_up text_down ⊥
unfolding text_up text_down
text_tests = record {
  le_refl = TextLe-refl;
  le_trans = TextLe-trans;
  up_on = λ x v i r on. strcmp_lt-asym x v (ground arith);
  up_off = λ x v i r off more. ground arith;
  up_self = λ v r. ground (arith, TextLe-refl v);
  down_on = λ x v j on. strcmp_lt-asym v x (ground arith);
  down_off = λ x v j off more. ground arith;
  down_end = λ x v on. ground arith;
}

-- stringListSort never reads or writes outside its list, ends, and leaves the texts that it was given,
-- in an order where none is above, as strcmp has it, any that follows it.
pub string_list_sort-Sorted :
    (list : List Bytes)
    → (sorted : List Bytes) × (string_list_sort list ≡ some sorted)
      × Perm list sorted
      × Sorted TextLe sorted
unfolding string_list_sort
string_list_sort-Sorted [] = ([], refl, Perm.nil, tt)
string_list_sort-Sorted (s ∷ list) =
    let some_text : ltb 0 (suc (length list)) ≡ true = ground arith in
    let (sorted, e, facts) =
      Ensures-total (λ p. Perm (s ∷ list) p × Sorted TextLe p)
        (sort_range text_up text_down (suc (suc (length list))) (s ∷ list) 0 (suc (length list)))
        (sort_range-Sorted TextLe text_up text_down ⊥ text_tests (s ∷ list)) in
    (sorted, rw some_text e, facts.0, facts.1)
