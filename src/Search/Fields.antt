-- ===== src/Search/Fields.antt =====
-- What a search finds: values that hold every word of the query.
use ledgerly_app.Base.{
  Bool, true, false, ◌&&◌, ◌||◌, ◌⊎◌, Option, none, some, List, [], ◌∷◌, ◌++◌, ℕ, filter, Text, any,
  ◌≡◌, ◌↔◌, refl, ap, sym, ◌∙◌, arith, inl, inr, Bool-cases, if◌then◌else◌, All, filter-All, nat_eq,
  nat_beq_iff,
}
use ledgerly_app.Base.Splitting.{split}
use ledgerly_app.Search.{
  is_prefix, contains_text, is_full_text, normalize_search_text, candidates_of, matches_terms,
  matches_search_text,
}

-- `part` stands somewhere in `text`.
abbrev pub Occurs : Text → Text → Type 0
Occurs part text = (before : Text) × (after : Text) × (text ≡ before ++ part ++ after)

abbrev pub Exists : {A : Type 0} → (A → Type 0) → List A → Type 0
Exists P [] = ⊥
Exists P (x ∷ xs) = P x ⊎ Exists P xs

-- A value that is there and not empty holds a term, when both are written in the same way.
abbrev pub Holds : (Text → Text) → Text → Option Text → Type 0
Holds fold term none = ⊥
Holds fold term (some []) = ⊥
Holds fold term (some (c ∷ s)) = Occurs term (normalize_search_text fold (c ∷ s))

-- The terms of a query: what stands between the spaces.
abbrev pub terms_of : (Text → Text) → Text → List Text
terms_of fold query = filter is_full_text (split b' ' (normalize_search_text fold query))

is_prefix-true : (p s : Text) → is_prefix p s ≡ true → (after : Text) × (s ≡ p ++ after)
is_prefix-true [] s h = (s, refl)
is_prefix-true (c ∷ p) [] h = cc
is_prefix-true (c ∷ p) (d ∷ s) h =
    let (after, e) = is_prefix-true p s (ground arith) in
    let same : c ≡ d = ground (arith, nat_beq_iff c d) in
    (after, ap (◌∷◌ d) e ∙ ap (λ x. x ∷ p ++ after) (sym same))

is_prefix-append : (p s : Text) → is_prefix p (p ++ s) ≡ true
is_prefix-append [] s = refl
is_prefix-append (c ∷ p) s = ground (arith, nat_beq_iff c c, is_prefix-append p s)

at_start : (part text : Text) → is_prefix part text ≡ true → Occurs part text
at_start part text h = let (after, e) = is_prefix-true part text h in ([], after, e)

contains_text-true : (part text : Text) → contains_text part text ≡ true → Occurs part text
contains_text-true part [] h = at_start part [] h
contains_text-true part (c ∷ s) h = elim (Bool-cases (is_prefix part (c ∷ s))) [
  | inl here ↦ at_start part (c ∷ s) here
  | inr later ↦
      let (before, after, e) = contains_text-true part s (ground arith) in
      (c ∷ before, after, ap (◌∷◌ c) e)
]

contains_text-append :
    (before part after : Text) → contains_text part (before ++ part ++ after) ≡ true
contains_text-append (c ∷ before) part after =
    ground (arith, contains_text-append before part after)
contains_text-append [] part after = starts (part ++ after) (is_prefix-append part after)
  where
    starts : (text : Text) → is_prefix part text ≡ true → contains_text part text ≡ true
    starts [] h = h
    starts (c ∷ s) h = rw h refl

contains_text_iff : (part text : Text) → (contains_text part text ≡ true) ↔ Occurs part text
contains_text_iff part text =
    (contains_text-true part text, λ o. rw o.2 (contains_text-append o.0 part o.1))

not_true : false ≡ true → ⊥
not_true h = cc

or_iff : {P Q : Type 0} (a b : Bool) → (a ≡ true) ↔ P → (b ≡ true) ↔ Q → ((a || b) ≡ true) ↔ (P ⊎ Q)
or_iff true b h k = (λ e. inl (h.0 refl), λ o. refl)
or_iff false b h k =
    (λ e. inr (k.0 e), λ o. elim o [ inl p ↦ absurd (not_true (h.1 p)) | inr q ↦ k.1 q ])

both_iff :
    {P Q : Type 0} (a b : Bool) → (a ≡ true) ↔ P → (b ≡ true) ↔ Q → ((a && b) ≡ true) ↔ (P × Q)
both_iff true b h k = (λ e. (h.0 refl, k.0 e), λ o. k.1 o.1)
both_iff false b h k = (λ e. absurd (not_true e), λ o. h.1 o.0)

Occurs-nil : (c : ℕ) (term : Text) → Occurs (c ∷ term) [] → ⊥
Occurs-nil c term o = not_true ((contains_text_iff (c ∷ term) []).1 o)

-- Whether a text that is left out when it is empty counts makes no difference to a term.
kept_iff :
    {Q : Type 0} (c : ℕ) (term text : Text) (rest : List Text)
    → (any (λ t. contains_text (c ∷ term) t) rest ≡ true) ↔ Q
    → (any (λ t. contains_text (c ∷ term) t) (if is_full_text text then text ∷ rest else rest)
        ≡ true)
      ↔ (Occurs (c ∷ term) text ⊎ Q)
kept_iff c term [] rest h =
    (λ e. inr (h.0 e), λ o. elim o [ inl p ↦ absurd (Occurs-nil c term p) | inr q ↦ h.1 q ])
kept_iff c term (d ∷ text) rest h = or_iff _ _ (contains_text_iff (c ∷ term) (d ∷ text)) h

none_iff : {P Q : Type 0} → P ↔ Q → P ↔ (⊥ ⊎ Q)
none_iff h = (λ p. inr (h.0 p), λ o. elim o [ inl e ↦ absurd e | inr q ↦ h.1 q ])

module _ (fold : Text → Text) where
  found_iff :
      (c : ℕ) (term : Text) (values : List (Option Text))
      → (any (λ t. contains_text (c ∷ term) t) (candidates_of fold values) ≡ true)
        ↔ Exists (Holds fold (c ∷ term)) values
  unfolding candidates_of
  found_iff c term [] = (λ e. not_true e, λ e. absurd e)
  found_iff c term (none ∷ values) = none_iff (found_iff c term values)
  found_iff c term (some [] ∷ values) = none_iff (found_iff c term values)
  found_iff c term (some (d ∷ s) ∷ values) =
      kept_iff c term (normalize_search_text fold (d ∷ s)) _ (found_iff c term values)

  all_found_iff :
      (terms : List Text) (values : List (Option Text))
      → All (λ term. is_full_text term ≡ true) terms
      → (matches_terms terms (candidates_of fold values) ≡ true)
        ↔ All (λ term. Exists (Holds fold term) values) terms
  unfolding matches_terms
  all_found_iff [] values full = (λ e. tt, λ h. refl)
  all_found_iff ([] ∷ terms) values full = absurd (not_true full.0)
  all_found_iff ((c ∷ term) ∷ terms) values full =
      both_iff _ _ (found_iff c term values) (all_found_iff terms values full.1)

  -- A query finds some values exactly if each of its words, the parts of the normalized query between
  -- its spaces, stands in one of the normalized values that are given and not empty.
  pub matches_search_text_iff :
      (values : List (Option Text)) (query : Text)
      → (matches_search_text fold values query ≡ true)
        ↔ All (λ term. Exists (Holds fold term) values) (terms_of fold query)
  unfolding matches_search_text split
  matches_search_text_iff values query = go (normalize_search_text fold query)
    where
      go :
          (wanted : Text)
          → ((if is_full_text wanted
                then matches_terms
                    (filter is_full_text (split b' ' wanted))
                    (candidates_of fold values)
                else true)
              ≡ true)
            ↔ All
                (λ term. Exists (Holds fold term) values)
                (filter is_full_text (split b' ' wanted))
      go [] = (λ e. tt, λ h. refl)
      go (c ∷ s) =
          all_found_iff (filter is_full_text (split b' ' (c ∷ s))) values
            (filter-All is_full_text (split b' ' (c ∷ s)))
