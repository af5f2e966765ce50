-- ===== src/Text/Sort.antt =====
-- `quicksort` and `stringListSort` of pageserv/utility.c, on the texts before the NULL that ends the
-- list. strcmp(a, b) > 0 is strcmp(b, a) < 0.
pub mod Total
use pageserv.Base.{
  ℕ, zero, suc, ◌+◌, Bool, true, false, ◌&&◌, ◌||◌, Option, some, List, [], ◌∷◌, ltb, ◌==◌,
  if◌then◌else◌, length, Bytes,
}
use pageserv.Sorting.{sort_range}

-- strcmp(a, b) < 0
unfoldable pub strcmp_lt : Bytes → Bytes → Bool
strcmp_lt [] [] = false
strcmp_lt [] (d ∷ t) = true
strcmp_lt (c ∷ s) [] = false
strcmp_lt (c ∷ s) (d ∷ t) = ltb c d || c == d && strcmp_lt s t

-- while ((strcmp(a[++i], v) < 0) && i < r);
unfoldable pub text_up : Bytes → Bytes → ℕ → ℕ → Bool
unfolding strcmp_lt
text_up x v i r = strcmp_lt x v && ltb i r

-- while ((strcmp(a[--j], v) > 0) && j > 0);
unfoldable pub text_down : Bytes → Bytes → ℕ → Bool
unfolding strcmp_lt
text_down x v j = strcmp_lt v x && ltb 0 j

unfoldable pub string_list_sort : List Bytes → Option (List Bytes)
unfolding sort_range text_up text_down
string_list_sort list =
    let sorted = sort_range text_up text_down (suc (length list)) list 0 (length list) in
    if ltb 0 (length list) then sorted else some list
