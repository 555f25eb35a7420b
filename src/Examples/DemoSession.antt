-- ===== src/Examples/DemoSession.antt =====
-- A collection of two base records.
use ledgerly_app.Base.{
  get, put, ℕ, ◌≡◌, refl, ◌∷◌, [], List, Text, codes, if◌then◌else◌, map, has, text_eq,
}
use ledgerly_app.DemoSession.{
  Identified, DemoSession, add_demo_session_item, update_demo_session_item,
  remove_demo_session_item, others, current, demo_collection_key, apply_to,
  use_demo_session_collection,
}
use ledgerly_app.DemoSession.Views.{view, view-add, view-remove, view-update}

abbrev by_first : Identified (Text × ℕ)
by_first = record { id = λ r. r.0 }

abbrev base : List (Text × ℕ)
base = (codes "a", 1) ∷ (codes "b", 2) ∷ []

abbrev fresh : DemoSession (Text × ℕ)
fresh = record { records = []; deleted_ids = []; version = 0 }

abbrev added : DemoSession (Text × ℕ)
added = add_demo_session_item by_first (codes "w") (codes "goals") (codes "a", 3) fresh

replaced :
    view by_first (codes "w") (codes "goals") base added ≡ (codes "a", 3) ∷ (codes "b", 2) ∷ []
unfolding add_demo_session_item use_demo_session_collection get put has
replaced = refl

view-add_example :
    view by_first
      (codes "w")
      (codes "goals")
      base
      (add_demo_session_item by_first (codes "w") (codes "goals") (codes "a", 3) fresh)
    ≡ (codes "a", 3)
      ∷ others by_first (codes "a") (view by_first (codes "w") (codes "goals") base fresh)
view-add_example = view-add by_first (codes "w") (codes "goals") base (codes "a", 3) fresh

view-remove_example :
    view by_first
      (codes "w")
      (codes "goals")
      base
      (remove_demo_session_item by_first (codes "w") (codes "goals") (codes "b") added)
    ≡ others by_first (codes "b") (view by_first (codes "w") (codes "goals") base added)
view-remove_example = view-remove by_first (codes "w") (codes "goals") base (codes "b") added

abbrev doubled : Text × ℕ → Text × ℕ
doubled (name, n) = (name, 6)

view-update_example :
    view by_first
      (codes "w")
      (codes "goals")
      base
      (update_demo_session_item by_first (codes "w") (codes "goals") (codes "a") doubled added)
    ≡ (if has
          (codes "a")
          (map by_first.id (current (demo_collection_key (codes "w") (codes "goals")) added))
        then map
            (apply_to by_first (codes "a") doubled)
            (view by_first (codes "w") (codes "goals") base added)
        else view by_first (codes "w") (codes "goals") base added)
view-update_example =
    view-update by_first (codes "w") (codes "goals") base (codes "a") doubled added (λ x. refl)
