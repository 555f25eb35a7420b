-- ===== src/Navigation/Active.antt =====
-- One item of the dock is active at a time.
use ledgerly_app.Base.{
  ◌≡◌, refl, Bool, Text, ◌==◌, filter, length, text_eq, text_beq_iff, Bool-cases, inl, inr, true,
  false,
}
use ledgerly_app.Base.Sorting.{sort_by}
use ledgerly_app.Navigation.{
  docked, mobile_navigation, is_mobile_navigation_active, home_item, transactions_item,
  budgets_item,
}

-- At every path, while something is created or not, exactly one item of the dock is active.
pub active-one :
    (pathname : Text) (creation_mode_active : Bool)
    → length (
        filter
          (λ item. is_mobile_navigation_active item pathname creation_mode_active)
          mobile_navigation)
      ≡ 1
unfolding is_mobile_navigation_active mobile_navigation docked sort_by
active-one pathname true = refl
active-one pathname false = elim (Bool-cases (home_item.to == pathname)) [
  | inl home ↦ rw⁻¹ ((text_beq_iff home_item.to pathname).0 home) refl
  | inr no_home ↦ elim (Bool-cases (transactions_item.to == pathname)) [
    | inl entries ↦ rw⁻¹ ((text_beq_iff transactions_item.to pathname).0 entries) refl
    | inr no_entries ↦ elim (Bool-cases (budgets_item.to == pathname)) [
      | inl budgets ↦ rw⁻¹ ((text_beq_iff budgets_item.to pathname).0 budgets) refl
      | inr no_budgets ↦ rw (no_home, no_entries, no_budgets) refl
    ]
  ]
]
