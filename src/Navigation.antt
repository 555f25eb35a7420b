-- ===== src/Navigation.antt =====
-- web/src/app/navigation/registry.ts: the parts of the registry that the rails, the search and the
-- dock show, and which item of the dock is the active one.
mod Registry
pub mod Active
pub use Registry.{
  DesktopNavigationSection, primary, collaborate, footer, SearchNavigationGroup, DockNavigationKind,
  link, quick_add, overflow, Dock, AppNavigationItem, navigation_registry, home_item,
  transactions_item, budgets_item, insights_item, quick_add_item, more_item,
}
use ledgerly_app.Base.{
  ℕ, Bool, true, false, not, ◌&&◌, Option, none, some, List, [], ◌∷◌, ◌++◌, Text, codes, filter,
  find, any, leb, ◌==◌, nat_eq, text_eq, if◌then◌else◌,
}
use ledgerly_app.Base.Sorting.{sort_by}

abbrev same_section : DesktopNavigationSection → DesktopNavigationSection → Bool
same_section primary primary = true
same_section collaborate collaborate = true
same_section footer footer = true
same_section _ _ = false

abbrev pub in_section : DesktopNavigationSection → AppNavigationItem → Bool
in_section section item = elim item.desktop_section [
  | none ↦ false
  | some other ↦ same_section other section
]

abbrev pub primary_navigation : List AppNavigationItem
primary_navigation = filter (in_section primary) navigation_registry

abbrev pub collaborative_navigation : List AppNavigationItem
collaborative_navigation = filter (in_section collaborate) navigation_registry

abbrev pub footer_navigation : List AppNavigationItem
footer_navigation = filter (in_section footer) navigation_registry

abbrev has_group : AppNavigationItem → Bool
has_group item = elim item.search_group [ none ↦ false | some _ ↦ true ]

abbrev pub searchable_navigation : List AppNavigationItem
searchable_navigation = filter has_group navigation_registry

-- An item with its dock.
pub record DockItem : Type 0 where
  pub item : AppNavigationItem
  pub dock : Dock

unfoldable pub docked : List AppNavigationItem → List DockItem
docked [] = []
docked (item ∷ items) = elim item.dock [
  | none ↦ docked items
  | some dock ↦ record { item = item; dock = dock } ∷ docked items
]

abbrev pub dock_le : DockItem → DockItem → Bool
dock_le left right = leb left.dock.order right.dock.order

unfoldable pub mobile_navigation : List DockItem
unfolding docked
mobile_navigation = sort_by dock_le (docked navigation_registry)

-- None is the source's exception.
unfoldable pub navigation_item_by_id : Text → Option AppNavigationItem
navigation_item_by_id id = find (λ candidate. candidate.id == id) navigation_registry

abbrev drop_prefix : Text → Text → Option Text
drop_prefix [] s = some s
drop_prefix (p ∷ ps) [] = none
drop_prefix (p ∷ ps) (c ∷ s) = if p == c then drop_prefix ps s else none

-- `text.replace(pattern, "")`: the first occurrence is taken away.
unfoldable pub without_first : Text → Text → Text
without_first pattern [] = []
without_first pattern (c ∷ s) = elim (drop_prefix pattern (c ∷ s)) [
  | some rest ↦ rest
  | none ↦ c ∷ without_first pattern s
]

abbrev or_nothing : Option (List Text) → List Text
or_nothing none = []
or_nothing (some keywords) = keywords

unfoldable pub search_keywords_for : AppNavigationItem → List Text
unfolding without_first
search_keywords_for item =
    item.label ∷ without_first (codes "/app/") item.to ∷ or_nothing item.search_keywords

abbrev is_link : DockNavigationKind → Bool
is_link link = true
is_link _ = false

abbrev pub is_link_to : Text → DockItem → Bool
is_link_to pathname candidate = is_link candidate.dock.kind && candidate.item.to == pathname

unfoldable pub is_mobile_navigation_active : DockItem → Text → Bool → Bool
unfolding mobile_navigation
is_mobile_navigation_active item pathname creation_mode_active = elim item.dock.kind [
  | quick_add ↦ creation_mode_active
  | overflow ↦
      if creation_mode_active then false else not (any (is_link_to pathname) mobile_navigation)
  | link ↦ if creation_mode_active then false else item.item.to == pathname
]
