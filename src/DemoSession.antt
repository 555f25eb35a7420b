-- ===== src/DemoSession.antt =====
-- web/src/pages/finance-writes/shared.ts, the demo session: records that a visitor adds, changes and
-- removes in the demo, laid over the base records. Listeners of the session are numbers.
pub mod Views
use ledgerly_app.Base.{
  ℕ, ◌+◌, Bool, true, false, not, ◌&&◌, ◌||◌, Option, none, some, List, [], ◌∷◌, ◌++◌, map, Text,
  filter, has, any, ◌==◌, text_eq, if◌then◌else◌, Map, get, put, delete, Eq,
}

-- `Identifiable`, of any type of records.
pub record Identified {ℓ} (T : Type ℓ) : Type ℓ where
  pub id : T → Text

pub record DemoSession (T : Type 0) : Type 0 where
  pub records : Map Text (List T)
  pub deleted_ids : Map Text (List Text)
  pub version : ℕ

abbrev pub demo_collection_key : Text → Text → Text
demo_collection_key workspace_id collection = workspace_id ++ b':' ∷ collection

abbrev pub or_nil {ℓ} : {A : Type ℓ} → Option (List A) → List A
or_nil none = []
or_nil (some l) = l

-- `demoSessionDeletedIds.get(key)?.delete(item.id)`
abbrev pub undelete : Text → Text → Map Text (List Text) → Map Text (List Text)
undelete key item_id m = elim (get key m) [
  | none ↦ m
  | some ids ↦ put key (filter (λ i. not (i == item_id)) ids) m
]

-- `deleted.add(itemId)`
abbrev pub add_id : Text → List Text → List Text
add_id item_id ids = if has item_id ids then ids else ids ++ item_id ∷ []

module _ {T : Type 0} where
  -- `publishDemoSessionChange`; the listeners are told by a new version.
  abbrev pub publish_demo_session_change : DemoSession T → DemoSession T
  publish_demo_session_change s = record s { version = s.version + 1 }

  -- `records.get(key) ?? []` and `deleted.get(key) ?? new Set()`
  abbrev pub current : Text → DemoSession T → List T
  current key s = or_nil (get key s.records)

  abbrev pub deleted : Text → DemoSession T → List Text
  deleted key s = or_nil (get key s.deleted_ids)

  -- `next.length ? records.set(key, next) : records.delete(key)`
  abbrev pub keep : Text → List T → Map Text (List T) → Map Text (List T)
  keep key [] m = delete key m
  keep key (item ∷ items) m = put key (item ∷ items) m

module _ {T : Type 0} (identified : Identified T) where
  open identified use {id}

  abbrev pub others : Text → List T → List T
  others item_id items = filter (λ item. not (id item == item_id)) items

  unfoldable pub add_demo_session_item : Text → Text → T → DemoSession T → DemoSession T
  add_demo_session_item workspace_id collection item s =
      let key = demo_collection_key workspace_id collection in
      publish_demo_session_change (record s {
        deleted_ids = undelete key (id item) s.deleted_ids;
        records = put key (item ∷ others (id item) (current key s)) s.records;
      })

  abbrev pub apply_to : Text → (T → T) → T → T
  apply_to item_id update item = if id item == item_id then update item else item

  unfoldable pub update_demo_session_item :
      Text → Text → Text → (T → T) → DemoSession T → DemoSession T
  update_demo_session_item workspace_id collection item_id update s =
      let key = demo_collection_key workspace_id collection in
      if any (λ item. id item == item_id) (current key s)
      then publish_demo_session_change
          (record s { records = put key (map (apply_to item_id update) (current key s)) s.records })
      else s

  unfoldable pub remove_demo_session_item : Text → Text → Text → DemoSession T → DemoSession T
  unfolding has
  remove_demo_session_item workspace_id collection item_id s =
      let key = demo_collection_key workspace_id collection in
      publish_demo_session_change (record s {
        deleted_ids = put key (add_id item_id (deleted key s)) s.deleted_ids;
        records = keep key (others item_id (current key s)) s.records;
      })

  -- The records that are shown: `useDemoSessionCollection` with its early returns.
  abbrev pub shown_base : List T → List Text → List T → List T
  shown_base additions deleted_ids base_items =
      filter (λ item. not (has (id item) (map id additions)) && not (has (id item) deleted_ids))
        base_items

  abbrev pub overlay : List T → List Text → List T → List T
  overlay [] [] base_items = base_items
  overlay additions deleted_ids base_items =
      additions ++ shown_base additions deleted_ids base_items

  unfoldable pub use_demo_session_collection : Bool → Text → Text → List T → DemoSession T → List T
  use_demo_session_collection enabled workspace_id collection base_items s =
      let key = demo_collection_key workspace_id collection in
      if enabled then overlay (current key s) (deleted key s) base_items else base_items
