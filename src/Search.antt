-- ===== src/Search.antt =====
-- web/src/lib/search.ts. `fold` is the removal of accents and of the case of letters,
-- `value.normalize("NFD")` without combining marks in lower case.
pub mod Fields
use ledgerly_app.Base.{
  Bool, true, false, ◌&&◌, ◌||◌, Option, none, some, List, [], ◌∷◌, map, Text, all, any, filter,
  trim, is_space, ◌==◌, nat_eq, text_eq, if◌then◌else◌,
}
use ledgerly_app.Base.Splitting.{split}

-- `.replace(/\s+/g, " ")`; `in_space` tells whether the unit before was a space.
unfoldable pub collapse : Bool → Text → Text
collapse in_space [] = []
collapse true (c ∷ s) =
    let again = collapse true s in
    let later = collapse false s in if is_space c then again else c ∷ later
collapse false (c ∷ s) =
    let again = collapse true s in
    let later = collapse false s in if is_space c then b' ' ∷ again else c ∷ later

abbrev pub is_prefix : Text → Text → Bool
is_prefix [] s = true
is_prefix (c ∷ p) [] = false
is_prefix (c ∷ p) (d ∷ s) = c == d && is_prefix p s

-- `text.includes(part)`
abbrev pub contains_text : Text → Text → Bool
contains_text part [] = is_prefix part []
contains_text part (c ∷ s) = is_prefix part (c ∷ s) || contains_text part s

abbrev pub is_full_text : Text → Bool
is_full_text [] = false
is_full_text (_ ∷ _) = true

-- The values that are there, and not empty.
abbrev pub given_values : List (Option Text) → List Text
given_values [] = []
given_values (none ∷ values) = given_values values
given_values (some [] ∷ values) = given_values values
given_values (some (c ∷ s) ∷ values) = (c ∷ s) ∷ given_values values

-- What is searched of a transaction.
pub record SearchedTransaction : Type 0 where
  pub transaction_id : Option Text
  pub merchant : Option Text
  pub note : Option Text
  pub description : Option Text
  pub contact_name : Option Text

unfoldable pub matches_terms : List Text → List Text → Bool
matches_terms terms candidates =
    all (λ term. any (λ candidate. contains_text term candidate) candidates) terms

module _ (fold : Text → Text) where
  unfoldable pub normalize_search_text : Text → Text
  unfolding collapse trim
  normalize_search_text value = collapse false (trim (fold value))

  unfoldable pub candidates_of : List (Option Text) → List Text
  unfolding normalize_search_text
  candidates_of values = filter is_full_text (map normalize_search_text (given_values values))

  unfoldable pub matches_search_text : List (Option Text) → Text → Bool
  unfolding normalize_search_text candidates_of matches_terms split
  matches_search_text values query =
      let normalized_query = normalize_search_text query in
      if is_full_text normalized_query
      then matches_terms (filter is_full_text (split b' ' normalized_query)) (candidates_of values)
      else true

  unfoldable pub matches_transaction_search : SearchedTransaction → Text → Bool
  unfolding matches_search_text
  matches_transaction_search t query =
      matches_search_text
        (t.transaction_id ∷ t.merchant ∷ t.note ∷ t.description ∷ t.contact_name ∷ []) query
