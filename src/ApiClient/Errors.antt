-- ===== src/ApiClient/Errors.antt =====
-- `ApiError`, `fallbackApiError` and `normalizeApiError`.
use ledgerly_app.Base.{◌+◌, ℕ, Option, none, some, [], ◌∷◌, Text, codes, leb, if◌then◌else◌, Map}
use ledgerly_app.Base.Decimal.{decimal}
use ledgerly_app.ApiClient.Json.{
  Json, object, array, Items, nil, item, Members, end, member, string, property, is_object,
  as_string, as_filled,
}

-- `ApiErrorShape` of web/src/domain/types.ts.
pub record ApiErrorShape : Type 0 where
  pub code : Text
  pub message : Text
  pub fields : Option (Map Text Text)
  pub request_id : Option Text

unfoldable pub fallback_api_error : ℕ → Option Text → ApiErrorShape
fallback_api_error status request_id =
    if leb 500 status
    then record {
      code = codes "service_unavailable";
      message = codes "The service is unavailable. Try again shortly.";
      fields = none;
      request_id = request_id;
    }
    else record {
      code = codes "unexpected_error";
      message = codes "The request could not be completed. Please try again.";
      fields = none;
      request_id = request_id;
    }

-- `Object.entries(fields)`, those with a string for a value.
unfoldable pub string_entries : Members → Map Text Text
string_entries end = []
string_entries (member k (string s) ms) = (k, s) ∷ string_entries ms
string_entries (member k _ ms) = string_entries ms

-- Those of an array, under their indices.
unfoldable pub string_items : ℕ → Items → Map Text Text
string_items index nil = []
string_items index (item (string s) vs) = (decimal index, s) ∷ string_items (index + 1) vs
string_items index (item _ vs) = string_items (index + 1) vs

-- `fields && Object.keys(fields).length > 0 ? fields : undefined`
abbrev some_entries : Map Text Text → Option (Map Text Text)
some_entries [] = none
some_entries (e ∷ es) = some (e ∷ es)

abbrev pub fields_of : Option Json → Option (Map Text Text)
fields_of (some (object ms)) = some_entries (string_entries ms)
fields_of (some (array vs)) = some_entries (string_items 0 vs)
fields_of _ = none

-- `a ?? b`
abbrev pub or_else : Option Text → Option Text → Option Text
or_else (some a) b = some a
or_else none b = b

abbrev pub shape_of :
    ℕ → Option Text → Option Text → Option (Map Text Text) → Option Text → ApiErrorShape
shape_of status (some code) (some message) fields request_id = record {
  code = code;
  message = message;
  fields = fields;
  request_id = request_id;
}
shape_of status _ _ fields request_id = fallback_api_error status request_id

-- The part behind `payload.error`.
unfoldable pub normalize_candidate : Json → ℕ → Option Text → ApiErrorShape
unfolding fallback_api_error string_entries string_items
normalize_candidate candidate status request_id =
    if is_object candidate
    then shape_of status (as_filled (property (codes "code") candidate))
        (as_filled (property (codes "message") candidate))
        (fields_of (property (codes "fields") candidate))
        (or_else (as_string (property (codes "requestId") candidate)) request_id)
    else fallback_api_error status request_id

abbrev candidate_or_fallback : Option Json → ℕ → Option Text → ApiErrorShape
candidate_or_fallback none status request_id = fallback_api_error status request_id
candidate_or_fallback (some candidate) status request_id =
    normalize_candidate candidate status request_id

-- `payload` is none where the body of the response was no JSON.
unfoldable pub normalize_api_error : Option Json → ℕ → Option Text → ApiErrorShape
unfolding normalize_candidate
normalize_api_error none status request_id = fallback_api_error status request_id
normalize_api_error (some payload) status request_id =
    candidate_or_fallback (property (codes "error") payload) status request_id
