-- ===== src/Platform/BackNavigation/Search.antt =====
-- Taking the modal keys out of a query.
use ledgerly_app.Base.{
  not, ◌||◌, ◌==◌, text_eq, codes, ◌≡◌, refl, sym, ◌∙◌, ap, Bool, true, false, Option, none, some,
  List, [], ◌∷◌, Text, All, filter, filter-All, all, arith, Bool-cases, inl, inr, nat_eq,
}
use ledgerly_app.Base.Splitting.{split, join, Lacks, split-join, split-Lacks}
use ledgerly_app.Platform.BackNavigation.{
  decoded_query_key, raw_search, is_preserved, shown_search, without_modal, remove_from_raw,
  remove_modal_search,
}

filter-All_of {κ} :
    {A : Type 0} (P : A → Type κ) (p : A → Bool) (xs : List A) → All P xs → All P (filter p xs)
filter-All_of P p [] h = tt
filter-All_of P p (x ∷ xs) h = elim (Bool-cases (p x)) [
  | inl kept ↦ rw kept (h.0, filter-All_of P p xs h.1)
  | inr gone ↦ rw gone (filter-All_of P p xs h.1)
]

all_of_All : {A : Type 0} (p : A → Bool) (xs : List A) → All (λ x. p x ≡ true) xs → all p xs ≡ true
all_of_All p [] h = refl
all_of_All p (x ∷ xs) h = rw h.0 (all_of_All p xs h.1)

module _ (decode : Text → Option Text) where
  shown :
      (s search : Text)
      → all (is_preserved decode) (split b'&' s) ≡ false
      → without_modal decode (split b'&' s) ≡ some search
      → shown_search decode (filter (is_preserved decode) (split b'&' s)) ≡ search
  shown s search dirty h = ground arith

  raw-clean :
      (s : Text)
      → All (λ p. is_preserved decode p ≡ true) (split b'&' s)
      → remove_from_raw decode s ≡ none
  raw-clean [] h = refl
  raw-clean (c ∷ s) h = rw (all_of_All (is_preserved decode) (split b'&' (c ∷ s)) h)

  shown-clean :
      (ps : List Text)
      → All (Lacks b'&') ps
      → All (λ p. is_preserved decode p ≡ true) ps
      → remove_modal_search decode (shown_search decode ps) ≡ none
  unfolding remove_modal_search
  shown-clean [] h k = refl
  shown-clean (p ∷ ps) h k = raw-clean (join b'&' (p ∷ ps)) (rw (split-join b'&' p ps h) k)

  removed-clean :
      (raw search : Text)
      → remove_from_raw decode raw ≡ some search
      → remove_modal_search decode search ≡ none
  removed-clean [] search h = cc
  removed-clean (c ∷ s) search h =
      elim (Bool-cases (all (is_preserved decode) (split b'&' (c ∷ s)))) [
        | inl clean ↦ absurd (ground arith)
        | inr dirty ↦
            ap (remove_modal_search decode) (sym (shown (c ∷ s) search dirty h))
            ∙ shown-clean _
                (filter-All_of (Lacks b'&') (is_preserved decode) _ (split-Lacks b'&' (c ∷ s)))
                (filter-All (is_preserved decode) (split b'&' (c ∷ s)))
      ]

  -- The query that is left has no modal key: a second removal has nothing to do.
  pub remove_modal_search-done :
      (before after : Text)
      → remove_modal_search decode before ≡ some after
      → remove_modal_search decode after ≡ none
  unfolding remove_modal_search
  remove_modal_search-done before after h = removed-clean (raw_search before) after h

  -- What is left of a query: its other segments, in their order.
  pub remove_modal_search-segments :
      (before after : Text)
      → remove_modal_search decode before ≡ some after
      → after ≡ shown_search decode (filter (is_preserved decode) (split b'&' (raw_search before)))
  unfolding remove_modal_search
  remove_modal_search-segments before after h = go (raw_search before) h
    where
      go :
          (s : Text)
          → remove_from_raw decode s ≡ some after
          → after ≡ shown_search decode (filter (is_preserved decode) (split b'&' s))
      go [] e = cc
      go (c ∷ s) e = elim (Bool-cases (all (is_preserved decode) (split b'&' (c ∷ s)))) [
        | inl clean ↦ absurd (ground arith)
        | inr dirty ↦ sym (shown (c ∷ s) after dirty e)
      ]

  -- The segments that are no dialog's: those whose key, decoded, is neither "add" nor "claim".
  abbrev pub other_segments : Text → List Text
  other_segments query =
      filter
        (λ p. not (
          decoded_query_key decode p == codes "add" || decoded_query_key decode p == codes "claim"))
        (split b'&' (raw_search query))
