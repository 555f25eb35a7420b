-- ===== src/ApiClient/Vaults.antt =====
-- The parts of the legacy vault recovery that send nothing: paths, bodies, records and the cache.
use ledgerly_app.Base.{
  ℕ, Bool, true, false, not, ◌&&◌, ◌||◌, Option, none, some, List, [], ◌∷◌, ◌++◌, Text, codes, ◌==◌,
  text_eq, nat_eq, if◌then◌else◌, Map, get, put,
}
use ledgerly_app.Base.Splitting.{split}
use ledgerly_app.ApiClient.Json.{
  Json, null, bool, string, object, Members, property, lookup_member, as_filled,
}
use ledgerly_app.ApiClient.Errors.{ApiErrorShape}

-- How a request can fail: an answer with an error status, no answer (a TypeError), or an answer whose
-- body is no JSON.
pub data Failure : Type 0 where
  api_error : ApiErrorShape → ℕ → Failure
  type_error : Failure
  syntax_error : Failure
  other_error : Failure

-- LEGACY_FINANCE_WRITE_PATTERN: "/workspaces/<id>/<collection>", the ID not empty.
abbrev finance_parts : List Text → Option Text
finance_parts (lead ∷ root ∷ (c ∷ workspace) ∷ collection ∷ []) =
    if lead == []
      && root == codes "workspaces"
      && (collection == codes "accounts"
          || collection == codes "transactions"
          || collection == codes "budgets"
          || collection == codes "goals"
          || collection == codes "expense-claims")
    then some (c ∷ workspace)
    else none
finance_parts _ = none

unfoldable pub legacy_finance_workspace_id : Text → Option Text
unfolding split
legacy_finance_workspace_id path = finance_parts (split b'/' path)

-- `jsonRecord`, of the parsed body.
abbrev pub members_of : Option Json → Option Members
members_of (some (object ms)) = some ms
members_of _ = none

abbrev pub is_field : Text → Text → Option (Map Text Text) → Bool
is_field key text none = false
is_field key text (some fields) = elim (get key fields) [ none ↦ false | some v ↦ v == text ]

unfoldable pub is_legacy_vault_validation : Failure → Bool
is_legacy_vault_validation (api_error shape status) =
    status == 422
    && (is_field (codes "vaultId") (codes "is required") shape.fields
        || is_field (codes "accountId") (codes "does not belong to the selected vault and currency")
            shape.fields)
is_legacy_vault_validation type_error = false
is_legacy_vault_validation other_error = false
is_legacy_vault_validation syntax_error = false

-- The state of the client: its token and its caches. `storage` is what `localStorage` holds, none
-- where it cannot be read; what is written to it is lost where `writable` is false.
pub record Client : Type 0 where
  pub bearer_token : Text
  pub legacy_vault_cache : Map Text Text
  pub storage : Option (Map Text Text)
  pub writable : Bool

abbrev pub set_api_token : Text → Client → Client
set_api_token token c = record c { bearer_token = token }

abbrev pub clear_api_token : Client → Client
clear_api_token c = record c { bearer_token = []; legacy_vault_cache = [] }

abbrev pub storage_key : Text → Text
storage_key key = codes "ledgerly:legacy-vault:" ++ key

-- A text that is there and not empty.
abbrev pub filled : Option Text → Option Text
filled (some (c ∷ s)) = some (c ∷ s)
filled _ = none

abbrev from_storage : Text → Option (Map Text Text) → Option Text
from_storage key none = none
from_storage key (some held) = filled (get (storage_key key) held)

unfoldable pub cached_legacy_vault_id : Text → Client → Option Text × Client
cached_legacy_vault_id key c = elim (filled (get key c.legacy_vault_cache)) [
  | some id ↦ (some id, c)
  | none ↦ elim (from_storage key c.storage) [
    | some id ↦ (some id, record c { legacy_vault_cache = put key id c.legacy_vault_cache })
    | none ↦ (none, c)
  ]
]

abbrev store : Bool → Text → Text → Option (Map Text Text) → Option (Map Text Text)
store true key id (some held) = some (put (storage_key key) id held)
store _ key id held = held

unfoldable pub remember_legacy_vault_id : Text → Text → Client → Client
remember_legacy_vault_id key id c = record c {
  legacy_vault_cache = put key id c.legacy_vault_cache;
  storage = store c.writable key id c.storage;
}

-- `record[key]` for the keys in turn, a string that is not empty.
abbrev first_filled : List Text → Members → Option Text
first_filled [] ms = none
first_filled (key ∷ keys) ms = elim (as_filled (lookup_member key ms)) [
  | some id ↦ some id
  | none ↦ first_filled keys ms
]

abbrev nested_id : Option Json → Option Text
nested_id (some vault) = as_filled (property (codes "id") vault)
nested_id none = none

unfoldable pub legacy_vault_id_from_record : Members → Option Text
unfolding lookup_member
legacy_vault_id_from_record ms =
    elim (first_filled (codes "vaultId" ∷ codes "vaultID" ∷ codes "vault_id" ∷ []) ms) [
      | some id ↦ some id
      | none ↦ nested_id (lookup_member (codes "vault") ms)
    ]

-- `String(value ?? "")` through the parameter `string_of`, and `toUpperCase`.
module _ (string_of : Json → Text) (to_upper_case : Text → Text) where
  abbrev pub string_or_empty : Option Json → Text
  string_or_empty none = []
  string_or_empty (some null) = []
  string_or_empty (some value) = string_of value

  abbrev pub currency_of : Members → Text
  currency_of ms = to_upper_case (string_or_empty (lookup_member (codes "currency") ms))

  abbrev pub legacy_vault_cache_key : Text → Text → Text
  legacy_vault_cache_key workspace_id currency = workspace_id ++ b':' ∷ to_upper_case currency

  -- The account that was asked for, in the currency.
  unfoldable pub matching_account : Text → Text → List Json → Option Members
  matching_account account_id currency [] = none
  matching_account account_id currency (object ms ∷ vs) =
      if string_or_empty (lookup_member (codes "id") ms) == account_id && currency_of ms == currency
      then some ms
      else matching_account account_id currency vs
  matching_account account_id currency (_ ∷ vs) = matching_account account_id currency vs

  abbrev is_archived : Option Json → Bool
  is_archived (some (bool true)) = true
  is_archived _ = false

  abbrev is_string : Text → Option Json → Bool
  is_string text (some (string s)) = s == text
  is_string text _ = false

  -- A vault that the whole workspace uses, in the currency.
  unfoldable pub matching_vault : Text → List Json → Option Members
  matching_vault currency [] = none
  matching_vault currency (object ms ∷ vs) =
      if not (is_archived (lookup_member (codes "archived") ms))
        && is_string (codes "workspace") (lookup_member (codes "privacy") ms)
        && currency_of ms == currency
      then some ms
      else matching_vault currency vs
  matching_vault currency (_ ∷ vs) = matching_vault currency vs
