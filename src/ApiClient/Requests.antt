-- ===== src/ApiClient/Requests.antt =====
-- `request`, `requestViaNative` and `ensureInternalVaultId`. The network is the parameter `fetch`,
-- over a state of the world.
use ledgerly_app.Base.{
  ℕ, Bool, true, false, ◌&&◌, ◌||◌, Option, none, some, List, [], ◌∷◌, ◌++◌, Text, codes, ◌==◌,
  text_eq, nat_eq, leb, ltb, if◌then◌else◌, Map, put,
}
use ledgerly_app.ApiClient.Json.{
  Json, number, string, array, object, Members, end, member, items_list, lookup_member, as_string,
  as_filled,
}
use ledgerly_app.ApiClient.Errors.{normalize_api_error}
use ledgerly_app.ApiClient.Bodies.{unwrap_response_body, response_header}
use ledgerly_app.ApiClient.Vaults.{
  Failure, api_error, type_error, syntax_error, other_error, Client, legacy_finance_workspace_id,
  members_of, is_legacy_vault_validation, cached_legacy_vault_id, remember_legacy_vault_id,
  legacy_vault_id_from_record, legacy_vault_cache_key, currency_of, matching_account,
  matching_vault, filled,
}

pub record HttpRequest : Type 0 where
  pub method : Text
  pub path : Text
  pub headers : Map Text Text
  pub body : Option Text

-- An answer; `body` is none where it is no JSON.
pub record Reply : Type 0 where
  pub status : ℕ
  pub headers : Map Text Text
  pub body : Option Json

-- How a request that is sent ends. A `fetch` that reaches nothing rejects with a TypeError; one that is
-- aborted, and CapacitorHttp, reject with another error.
pub data Arrival : Type 0 where
  answered : Reply → Arrival
  unreachable : Arrival
  rejected : Arrival

-- What a request returns: `returned none` is `undefined`.
pub data Outcome : Type 0 where
  returned : Option Json → Outcome
  thrown : Failure → Outcome

-- `RequestOptions`: `method` is none where the caller gave none.
pub record RequestOptions : Type 0 where
  pub method : Option Text
  pub body : Option Text
  pub headers : Map Text Text
  pub demo_fallback : Option (Option Json)
  pub retry_legacy_vault : Bool

-- What is not under web/src: the platform, the base URL's being one of the two deployed ones, the
-- network, JSON, `String` and `toUpperCase`.
pub record Platform (W : Type 0) : Type 0 where
  pub native : Bool
  pub authorized_deployment : Bool
  pub fetch : HttpRequest → W → Arrival × W
  pub parse : Text → Option Json
  pub stringify : Json → Text
  pub string_of : Json → Text
  pub to_upper_case : Text → Text

-- `{ ...target, ...source }`
abbrev pub spread : Map Text Text → Map Text Text → Map Text Text
spread target [] = target
spread target ((k, v) ∷ source) = spread (put k v target) source

abbrev authorization : Text → Map Text Text → Map Text Text
authorization [] headers = headers
authorization (c ∷ token) headers =
    put (codes "Authorization") (codes "Bearer " ++ c ∷ token) headers

abbrev content_type : Bool → Map Text Text → Map Text Text
content_type true headers = put (codes "Content-Type") (codes "application/json") headers
content_type false headers = headers

abbrev idempotency : Option Text → Map Text Text → Map Text Text
idempotency none headers = headers
idempotency (some key) headers = put (codes "idempotency-key") key headers

abbrev is_given : Option Text → Bool
is_given none = false
is_given (some _) = true

unfoldable pub request_headers : Text → Text → Option Text → Map Text Text → Map Text Text
unfolding response_header
request_headers token method body custom =
    let expects_json =
      is_given body || method == codes "POST" || method == codes "PUT" || method == codes "PATCH" in
    let accept = put (codes "Accept") (codes "application/json") [] in
    idempotency (response_header custom (codes "idempotency-key"))
      (spread (authorization token (content_type expects_json accept)) custom)

module _ {W : Type 0} (platform : Platform W) where
  open platform use {
    native, authorized_deployment, fetch, parse, stringify, string_of, to_upper_case,
  }

  -- The body of an answer that is no error. On the web a body that is no JSON throws.
  abbrev body_outcome : Option Json → Outcome
  body_outcome (some body) = returned (some (unwrap_response_body parse body))
  body_outcome none = if native then returned none else thrown syntax_error

  unfoldable pub reply_outcome : Arrival → Outcome
  unfolding unwrap_response_body normalize_api_error response_header
  reply_outcome unreachable = thrown type_error
  reply_outcome rejected = thrown other_error
  reply_outcome (answered reply) =
      if ltb reply.status 200 || leb 300 reply.status
      then thrown (
          api_error
            (normalize_api_error reply.body reply.status
              (response_header reply.headers (codes "X-Request-ID")))
            reply.status)
      else if reply.status == 204
      then returned none
      else body_outcome reply.body

  abbrev pub method_of : Option Text → Text
  method_of none = codes "GET"
  method_of (some method) = to_upper_case method

  -- The `try` block of `request`: one request is sent.
  unfoldable pub send : Client → Text → RequestOptions → W → Outcome × W
  unfolding request_headers reply_outcome
  send c path options w =
      let method = method_of options.method in
      let (reply, w') =
        fetch
          (record {
            method = method;
            path = path;
            headers = request_headers c.bearer_token method options.body options.headers;
            body = options.body;
          })
          w in
      (reply_outcome reply, w')

  abbrev pub plain : Text → Option Text → RequestOptions
  plain method body = record {
    method = some method;
    body = body;
    headers = [];
    demo_fallback = none;
    retry_legacy_vault = false;
  }

  -- The result of `ensureInternalVaultId`; `fault` is its exception.
  pub data Ensured : Type 0 where
    vault : Option Text → Client → W → Ensured
    fault : Client → W → Ensured

  abbrev items_of : Option Json → List Json
  items_of (some (array vs)) = items_list vs
  items_of _ = []

  abbrev pub workspace_path : Text → Text → Text
  workspace_path workspace_id collection = codes "/workspaces/" ++ workspace_id ++ b'/' ∷ collection

  -- What `JSON.stringify` is given for a new vault.
  abbrev new_vault : Text → Json
  new_vault currency = object (
      member (codes "name") (string (codes "General")) (
        member (codes "type") (string (codes "workspace_default")) (
          member (codes "currency") (string currency) (
            member (codes "description") (string []) (
              member (codes "openingMinor") (number (codes "0"))
                (member (codes "privacy") (string (codes "workspace")) end))))))

  abbrev remembered : Text → Option Text → Client → W → Ensured
  remembered cache_key none c w = vault none c w
  remembered cache_key (some id) c w = vault (some id) (remember_legacy_vault_id cache_key id c) w

  abbrev id_of_created : Option Json → Option Text
  id_of_created (some (object ms)) = as_filled (lookup_member (codes "id") ms)
  id_of_created _ = none

  abbrev created_vault : Text → Client → Outcome × W → Ensured
  created_vault cache_key c (thrown e, w) = fault c w
  created_vault cache_key c (returned created, w) = remembered cache_key (id_of_created created) c w

  unfoldable pub create_vault : Text → Text → Text → Client → W → Ensured
  create_vault workspace_id currency cache_key c w = created_vault cache_key c (
      send c (workspace_path workspace_id (codes "vaults"))
        (plain (codes "POST") (some (stringify (new_vault currency)))) w)

  abbrev id_of_match : Option Members → Option Text
  id_of_match none = none
  id_of_match (some ms) = as_filled (lookup_member (codes "id") ms)

  abbrev existing_vault : Text → Text → Text → Client → Outcome × W → Ensured
  existing_vault workspace_id currency cache_key c (thrown e, w) = fault c w
  existing_vault workspace_id currency cache_key c (returned existing, w) =
      elim (id_of_match (matching_vault string_of to_upper_case currency (items_of existing))) [
        | some id ↦ vault (some id) (remember_legacy_vault_id cache_key id c) w
        | none ↦ create_vault workspace_id currency cache_key c w
      ]

  unfoldable pub find_vault : Text → Text → Text → Client → W → Ensured
  unfolding matching_vault create_vault
  find_vault workspace_id currency cache_key c w =
      existing_vault workspace_id currency cache_key c
        (send c (workspace_path workspace_id (codes "vaults")) (plain (codes "GET") none) w)

  abbrev vault_of_account : Option Members → Option Text
  vault_of_account none = none
  vault_of_account (some ms) = legacy_vault_id_from_record ms

  abbrev account_vault : Text → Text → Text → Text → Client → Outcome × W → Ensured
  account_vault workspace_id currency cache_key account_id c (thrown e, w) = fault c w
  account_vault workspace_id currency cache_key account_id c (returned accounts, w) =
      elim (vault_of_account
        (matching_account string_of to_upper_case account_id currency (items_of accounts))) [
          | some id ↦ vault (some id) (remember_legacy_vault_id cache_key id c) w
          | none ↦ find_vault workspace_id currency cache_key c w
        ]

  -- The account's vault first, then one of the workspace, then a new one.
  abbrev search_vault : Text → Text → Text → Option Text → Client → W → Ensured
  search_vault workspace_id currency cache_key none c w =
      find_vault workspace_id currency cache_key c w
  search_vault workspace_id currency cache_key (some account_id) c w =
      account_vault workspace_id currency cache_key account_id c
        (send c (workspace_path workspace_id (codes "accounts")) (plain (codes "GET") none) w)

  unfoldable pub ensure_internal_vault_id : Text → Text → Option Text → Client → W → Ensured
  unfolding find_vault matching_account legacy_vault_id_from_record cached_legacy_vault_id
  ensure_internal_vault_id workspace_id [] account_id c w = vault none c w
  ensure_internal_vault_id workspace_id (u ∷ currency) account_id c w =
      let cache_key = legacy_vault_cache_key string_of to_upper_case workspace_id (u ∷ currency) in
      let (cached, c') = cached_legacy_vault_id cache_key c in
      elim cached [
        | some id ↦ vault (some id) c' w
        | none ↦ search_vault workspace_id (u ∷ currency) cache_key (filled account_id) c' w
      ]

  -- What is left of the `catch` block when the recovery did not answer: the demo's value for a GET
  -- that found no network, and otherwise the error that was caught.
  abbrev is_get : Option Text → Bool
  is_get none = true
  is_get (some method) = method == codes "GET"

  abbrev is_type_error : Failure → Bool
  is_type_error type_error = true
  is_type_error _ = false

  unfoldable pub fall_back : RequestOptions → Failure → Outcome
  fall_back options e = elim options.demo_fallback [
    | none ↦ thrown e
    | some value ↦ if is_type_error e && is_get options.method then returned value else thrown e
  ]

  -- The workspace and the body of a request that the recovery may send again.
  abbrev pub without_vault : Option Members → Option Members
  without_vault none = none
  without_vault (some ms) = elim (lookup_member (codes "vaultId") ms) [
    | none ↦ some ms
    | some _ ↦ none
  ]

  abbrev pub pair : Option Text → Option Members → Option (Text × Members)
  pair (some workspace_id) (some ms) = some (workspace_id, ms)
  pair _ _ = none

  abbrev pub parsed_body : Option Text → Option Json
  parsed_body none = none
  parsed_body (some body) = parse body

  unfoldable pub recoverable : Text → RequestOptions → Failure → Option (Text × Members)
  recoverable path options e =
      if options.retry_legacy_vault
        && authorized_deployment
        && method_of options.method == codes "POST"
        && is_legacy_vault_validation e
      then pair (legacy_finance_workspace_id path)
          (without_vault (members_of (parsed_body options.body)))
      else none

  -- `{ ...body, vaultId }`
  abbrev pub add_member : Text → Json → Members → Members
  add_member key value end = member key value end
  add_member key value (member k v ms) = member k v (add_member key value ms)

  abbrev pub sent_again :
      Text → RequestOptions → Members → Failure → Ensured → Outcome × (Client × W)
  sent_again path options ms e (fault c w) = (fall_back options e, (c, w))
  sent_again path options ms e (vault none c w) = (fall_back options e, (c, w))
  sent_again path options ms e (vault (some id) c w) =
      let (outcome, w') =
        send c path
          (record options {
            body = some (stringify (object (add_member (codes "vaultId") (string id) ms)));
            demo_fallback = none;
            retry_legacy_vault = false;
          })
          w in
      (outcome, (c, w'))

  -- The `catch` block of `request`.
  unfoldable pub recover : Text → RequestOptions → Client → Failure → W → Outcome × (Client × W)
  unfolding recoverable fall_back ensure_internal_vault_id
  recover path options c e w = elim (recoverable path options e) [
    | none ↦ (fall_back options e, (c, w))
    | some (workspace_id, ms) ↦ sent_again path options ms e (
        ensure_internal_vault_id workspace_id (currency_of string_of to_upper_case ms)
          (as_string (lookup_member (codes "accountId") ms)) c w)
  ]

  abbrev caught : Text → RequestOptions → Client → Outcome × W → Outcome × (Client × W)
  caught path options c (returned value, w) = (returned value, (c, w))
  caught path options c (thrown e, w) = recover path options c e w

  unfoldable pub request : Client → Text → RequestOptions → W → Outcome × (Client × W)
  unfolding send recover
  request c path options w = caught path options c (send c path options w)
