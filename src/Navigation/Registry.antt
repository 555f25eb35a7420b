-- ===== src/Navigation/Registry.antt =====
-- web/src/app/navigation/registry.ts, the destinations of the application. Icons are left out.
use ledgerly_app.Base.{ℕ, Option, none, some, List, [], ◌∷◌, Text, codes}

pub data DesktopNavigationSection : Type 0 where
  primary collaborate footer : DesktopNavigationSection

pub data SearchNavigationGroup : Type 0 where
  money collaborative account : SearchNavigationGroup

pub data DockNavigationKind : Type 0 where
  link quick_add overflow : DockNavigationKind

pub record Dock : Type 0 where
  pub kind : DockNavigationKind
  pub order : ℕ
  pub dock_label : Option Text

pub record AppNavigationItem : Type 0 where
  pub id : Text
  pub label : Text
  pub to : Text
  pub desktop_section : Option DesktopNavigationSection
  pub search_group : Option SearchNavigationGroup
  pub search_keywords : Option (List Text)
  pub dock : Option Dock

abbrev pub home_item : AppNavigationItem
home_item = record {
  id = codes "home";
  label = codes "Home";
  to = codes "/app/home";
  desktop_section = some primary;
  search_group = some money;
  search_keywords = none;
  dock = some (record { kind = link; order = 0; dock_label = none });
}

abbrev pub transactions_item : AppNavigationItem
transactions_item = record {
  id = codes "transactions";
  label = codes "Transactions";
  to = codes "/app/transactions";
  desktop_section = some primary;
  search_group = some money;
  search_keywords = none;
  dock = some (record { kind = link; order = 1; dock_label = some (codes "Entries") });
}

abbrev pub accounts_item : AppNavigationItem
accounts_item = record {
  id = codes "accounts";
  label = codes "Accounts";
  to = codes "/app/accounts";
  desktop_section = some primary;
  search_group = some money;
  search_keywords = none;
  dock = none;
}

abbrev pub contacts_item : AppNavigationItem
contacts_item = record {
  id = codes "contacts";
  label = codes "Contacts";
  to = codes "/app/contacts";
  desktop_section = some primary;
  search_group = some money;
  search_keywords = some (codes "people" ∷ codes "payee" ∷ codes "payer" ∷ []);
  dock = none;
}

abbrev pub saved_names_item : AppNavigationItem
saved_names_item = record {
  id = codes "saved-names";
  label = codes "Saved names";
  to = codes "/app/saved-names";
  desktop_section = some primary;
  search_group = some money;
  search_keywords = some (codes "labels" ∷ codes "transaction names" ∷ []);
  dock = none;
}

abbrev pub budgets_item : AppNavigationItem
budgets_item = record {
  id = codes "budgets";
  label = codes "Budgets";
  to = codes "/app/budgets";
  desktop_section = some primary;
  search_group = some money;
  search_keywords = none;
  dock = some (record { kind = link; order = 3; dock_label = none });
}

abbrev pub goals_item : AppNavigationItem
goals_item = record {
  id = codes "goals";
  label = codes "Goals";
  to = codes "/app/goals";
  desktop_section = some primary;
  search_group = some money;
  search_keywords = none;
  dock = none;
}

abbrev pub bills_item : AppNavigationItem
bills_item = record {
  id = codes "bills";
  label = codes "Bills";
  to = codes "/app/bills";
  desktop_section = some primary;
  search_group = some money;
  search_keywords = none;
  dock = none;
}

abbrev pub insights_item : AppNavigationItem
insights_item = record {
  id = codes "insights";
  label = codes "Insights";
  to = codes "/app/insights";
  desktop_section = some collaborate;
  search_group = some money;
  search_keywords = none;
  dock = none;
}

abbrev pub forecast_item : AppNavigationItem
forecast_item = record {
  id = codes "forecast";
  label = codes "Forecast";
  to = codes "/app/forecast";
  desktop_section = some primary;
  search_group = some money;
  search_keywords =
      some
        (codes "projection" ∷ codes "cash flow" ∷ codes "upcoming balance" ∷ codes "predict" ∷ []);
  dock = none;
}

abbrev pub import_item : AppNavigationItem
import_item = record {
  id = codes "import";
  label = codes "Statement import";
  to = codes "/app/import";
  desktop_section = some primary;
  search_group = some money;
  search_keywords =
      some (codes "csv" ∷ codes "bank statement" ∷ codes "reconcile" ∷ codes "upload" ∷ []);
  dock = none;
}

abbrev pub automation_item : AppNavigationItem
automation_item = record {
  id = codes "automation";
  label = codes "Automation";
  to = codes "/app/automation";
  desktop_section = some collaborate;
  search_group = some money;
  search_keywords = some (codes "rules" ∷ codes "auto category" ∷ codes "rename rules" ∷ []);
  dock = none;
}

abbrev pub family_item : AppNavigationItem
family_item = record {
  id = codes "family";
  label = codes "Members";
  to = codes "/app/family";
  desktop_section = some collaborate;
  search_group = some collaborative;
  search_keywords = none;
  dock = none;
}

abbrev pub office_item : AppNavigationItem
office_item = record {
  id = codes "office";
  label = codes "Office";
  to = codes "/app/office";
  desktop_section = some collaborate;
  search_group = some collaborative;
  search_keywords = none;
  dock = none;
}

abbrev pub notifications_item : AppNavigationItem
notifications_item = record {
  id = codes "notifications";
  label = codes "Notifications";
  to = codes "/app/notifications";
  desktop_section = none;
  search_group = some money;
  search_keywords = none;
  dock = none;
}

abbrev pub settings_item : AppNavigationItem
settings_item = record {
  id = codes "settings";
  label = codes "Settings";
  to = codes "/app/settings";
  desktop_section = some footer;
  search_group = some account;
  search_keywords = some (
      codes "IDs"
      ∷ codes "transaction IDs"
      ∷ codes "ID sequence"
      ∷ codes "auto generate ID"
      ∷ codes "categories"
      ∷ codes "transaction categories"
      ∷ []);
  dock = none;
}

abbrev pub help_item : AppNavigationItem
help_item = record {
  id = codes "help";
  label = codes "Help and support";
  to = codes "/app/help";
  desktop_section = none;
  search_group = some account;
  search_keywords = none;
  dock = none;
}

abbrev pub quick_add_item : AppNavigationItem
quick_add_item = record {
  id = codes "quick-add";
  label = codes "Add";
  to = codes "/app/transactions?add=1";
  desktop_section = none;
  search_group = none;
  search_keywords = none;
  dock = some (record { kind = quick_add; order = 2; dock_label = none });
}

abbrev pub more_item : AppNavigationItem
more_item = record {
  id = codes "more";
  label = codes "More";
  to = codes "/app/more";
  desktop_section = none;
  search_group = none;
  search_keywords = none;
  dock = some (record { kind = overflow; order = 4; dock_label = none });
}

abbrev pub navigation_registry : List AppNavigationItem
navigation_registry =
    home_item ∷ transactions_item ∷ accounts_item ∷ contacts_item ∷ saved_names_item ∷ budgets_item
    ∷ goals_item ∷ bills_item ∷ insights_item ∷ forecast_item ∷ import_item ∷ automation_item
    ∷ family_item ∷ office_item ∷ notifications_item ∷ settings_item ∷ help_item ∷ quick_add_item
    ∷ more_item ∷ []
