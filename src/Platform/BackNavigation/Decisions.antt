-- ===== src/Platform/BackNavigation/Decisions.antt =====
-- What is decided first.
use ledgerly_app.Base.{
  ◌≡◌, ◌↔◌, refl, Bool, true, false, Option, none, some, [], Text, codes, arith, text_eq,
  if◌then◌else◌,
}
use ledgerly_app.Platform.BackNavigation.{
  BackInput, BackAction, replace_location, history_back, replace_root, exit_app,
  remove_modal_search, decide_back_action, has_usable_history, is_exit_root,
}

no_search : (decode : Text → Option Text) → remove_modal_search decode [] ≡ none
unfolding remove_modal_search
no_search decode = refl

-- The tests of `decideBackAction` on a query with no modal key.
branches :
    {S : Type 0} (usable at_root : Bool) (root : Text) (chosen : BackAction S)
    → chosen ≡ (if usable then history_back else if at_root then exit_app else replace_root root)
    → ((chosen ≡ history_back) ↔ (usable ≡ true))
      × ((chosen ≡ exit_app) ↔ ((usable ≡ false) × (at_root ≡ true)))
branches usable at_root root chosen h = ground arith

module _ (decode : Text → Option Text) {S : Type 0} where
  decide_of_removed :
      (input : BackInput S) (left : Text)
      → remove_modal_search decode input.search ≡ some left
      → decide_back_action decode input
        ≡ replace_location input.pathname left input.hash input.state
  unfolding decide_back_action
  decide_of_removed input left h = rw (h, decide_back_action)

  -- The decision closes the dialogs of the query before anything else; only then does it go back in a usable
  -- history; a page is replaced by a root only from a page that is not one.
  pub decide_priority :
      (input : BackInput S)
      → ((left : Text)
          → remove_modal_search decode input.search ≡ some left
          → decide_back_action decode input
            ≡ replace_location input.pathname left input.hash input.state)
        × (remove_modal_search decode input.search ≡ none
            → (decide_back_action decode input ≡ history_back)
              ↔ (has_usable_history decode input ≡ true))
        × (remove_modal_search decode input.search ≡ none
            → (decide_back_action decode input ≡ exit_app)
              ↔ ((has_usable_history decode input ≡ false) × (is_exit_root decode input ≡ true)))
  unfolding decide_back_action
  decide_priority input = (decide_of_removed input, λ h. (chosen h).0, λ h. (chosen h).1)
    where
      chosen :
          remove_modal_search decode input.search ≡ none
          → ((decide_back_action decode input ≡ history_back)
              ↔ (has_usable_history decode input ≡ true))
            × ((decide_back_action decode input ≡ exit_app)
                ↔ ((has_usable_history decode input ≡ false) × (is_exit_root decode input ≡ true)))
      chosen h =
          branches (has_usable_history decode input) (is_exit_root decode input)
            (if input.is_authenticated then codes "/app/home" else codes "/")
            (decide_back_action decode input) (rw (h, decide_back_action))
