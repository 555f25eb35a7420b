-- ===== src/Examples/Search.antt =====
-- A search whose text has spaces to spare.
use ledgerly_app.Base.{
  ◌≡◌, ◌↔◌, refl, true, false, none, some, Option, List, [], ◌∷◌, Text, codes, trim, All,
}
use ledgerly_app.Base.Splitting.{split}
use ledgerly_app.Search.{
  collapse, normalize_search_text, candidates_of, matches_terms, matches_search_text,
}
use ledgerly_app.Search.Fields.{matches_search_text_iff, Exists, Holds, terms_of}

-- A text without accents and capitals.
abbrev plain : Text → Text
plain value = value

abbrev values : List (Option Text)
values = some (codes "tea  house") ∷ none ∷ some (codes "cash") ∷ []

found_words : matches_search_text plain values (codes " tea  cash") ≡ true
unfolding matches_search_text normalize_search_text candidates_of matches_terms collapse trim split
found_words = refl

missing_word : matches_search_text plain values (codes "tea card") ≡ false
unfolding matches_search_text normalize_search_text candidates_of matches_terms collapse trim split
missing_word = refl

matches_search_text_iff_example :
    (matches_search_text plain values (codes " tea  cash") ≡ true)
    ↔ All (λ term. Exists (Holds plain term) values) (terms_of plain (codes " tea  cash"))
matches_search_text_iff_example = matches_search_text_iff plain values (codes " tea  cash")
