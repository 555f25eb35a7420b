-- ===== src/Examples/ApiClient.antt =====
-- A server that asks for a vault and then fails, seen through a platform that only counts requests.
use ledgerly_app.Base.{
  get, ℕ, zero, suc, ◌≡◌, refl, ◌∷◌, [], Text, true, false, codes, Option, none, some, arith,
  text_eq,
}
use ledgerly_app.ApiClient.Json.{
  Json, null, string, object, number, Members, end, member, lookup_member, as_string, property,
}
use ledgerly_app.ApiClient.Errors.{normalize_api_error}
use ledgerly_app.ApiClient.Bodies.{unwrap_response_body, unwrap_step}
use ledgerly_app.ApiClient.Vaults.{
  Failure, Client, currency_of, is_legacy_vault_validation, legacy_finance_workspace_id,
}
use ledgerly_app.ApiClient.Requests.{
  Platform, RequestOptions, HttpRequest, Arrival, answered, rejected, thrown, send, request,
  recoverable, ensure_internal_vault_id,
}
use ledgerly_app.ApiClient.Envelopes.{data_envelope, items_envelope, wrap, unwrap-wrap}
use ledgerly_app.ApiClient.Failures.{IsShowable, normalize_api_error-IsShowable}
use ledgerly_app.ApiClient.Recovery.{request-original_error, HasNoVault}

abbrev no_parse : Text → Option Json
no_parse text = none

abbrev amount : Json
amount = object (member (codes "amountMinor") (number (codes "250")) end)

amount-bare : unwrap_step no_parse amount ≡ none
unfolding unwrap_step property
amount-bare = refl

unwrap-wrap_example :
    unwrap_response_body no_parse (wrap (data_envelope ∷ items_envelope ∷ []) amount) ≡ amount
unwrap-wrap_example =
    unwrap-wrap no_parse (data_envelope ∷ items_envelope ∷ []) amount amount-bare (omega arith)

normalize_api_error-IsShowable_example :
    IsShowable (normalize_api_error (some (object (member (codes "error") null end))) 500 none)
normalize_api_error-IsShowable_example =
    normalize_api_error-IsShowable (some (object (member (codes "error") null end))) 500 none

-- The body of the entry, and the answer that asks for a vault.
abbrev entry : Members
entry = member (codes "currency") (string (codes "EUR")) end

abbrev refusal : Json
refusal = object (
    member (codes "error")
      (object (
        member (codes "code") (string (codes "invalid")) (
          member (codes "message") (string (codes "Check the fields")) (
            member (codes "fields")
              (object (member (codes "vaultId") (string (codes "is required")) end)) end))))
      end)

-- The first request is refused, and no later one is answered.
abbrev answer : HttpRequest → ℕ → Arrival × ℕ
answer sent zero = (answered (record { status = 422; headers = []; body = some refusal }), 1)
answer sent (suc n) = (rejected, suc (suc n))

abbrev device : Platform ℕ
device = record {
  native = true;
  authorized_deployment = true;
  fetch = answer;
  parse = λ text. some (object entry);
  stringify = λ value. codes "{}";
  string_of = λ value. codes "EUR";
  to_upper_case = λ text. text;
}

abbrev client : Client
client = record { bearer_token = []; legacy_vault_cache = []; storage = none; writable = false }

abbrev posted : RequestOptions
posted = record {
  method = some (codes "POST");
  body = some (codes "{}");
  headers = [];
  demo_fallback = none;
  retry_legacy_vault = true;
}

abbrev accounts : Text
accounts = codes "/workspaces/w1/accounts"

abbrev refused : Failure
refused = Failure.api_error (normalize_api_error (some refusal) 422 none) 422

first_answer : send device client accounts posted 0 ≡ (thrown refused, 1)
unfolding send
first_answer = refl

asked : recoverable device accounts posted refused ≡ some (codes "w1", entry)
unfolding recoverable normalize_api_error is_legacy_vault_validation property get
    legacy_finance_workspace_id
asked = refl

no_vault : HasNoVault device (
    ensure_internal_vault_id device
      (codes "w1")
      (currency_of device.string_of device.to_upper_case entry)
      (as_string (lookup_member (codes "accountId") entry))
      client
      1)
unfolding ensure_internal_vault_id send lookup_member get
no_vault = tt

request-original_error_example : (request device client accounts posted 0).0 ≡ thrown refused
request-original_error_example =
    request-original_error device client accounts posted 0 1 refused (codes "w1") entry first_answer
      asked no_vault

entry-vaultless : lookup_member (codes "vaultId") entry ≡ none
unfolding lookup_member
entry-vaultless = refl
