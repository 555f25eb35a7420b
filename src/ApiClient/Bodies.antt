-- ===== src/ApiClient/Bodies.antt =====
-- `unwrapResponseBody`, `headersRecord`, `responseHeader`. `JSON.parse` is the parameter `parse`, none
-- where it throws.
use ledgerly_app.Base.{
  ℕ, zero, suc, Option, none, some, List, [], ◌∷◌, map, Text, codes, lower_unit, ◌==◌, text_eq,
  if◌then◌else◌, Map, put,
}
use ledgerly_app.ApiClient.Json.{Json, string, property}

module _ (parse : Text → Option Json) where
  -- What one round of the loop goes on with; none is its `break`.
  abbrev data_or_items : Option Json → Option Json → Option Json
  data_or_items (some inner) _ = some inner
  data_or_items none items = items

  unfoldable pub unwrap_step : Json → Option Json
  unwrap_step (string s) = parse s
  unwrap_step value = data_or_items (property (codes "data") value) (property (codes "items") value)

  -- At most `depth` rounds.
  unfoldable pub unwrap_rounds : ℕ → Json → Json
  unfolding unwrap_step
  unwrap_rounds zero value = value
  unwrap_rounds (suc depth) value = elim (unwrap_step value) [
    | none ↦ value
    | some inner ↦ unwrap_rounds depth inner
  ]

  unfoldable pub unwrap_response_body : Json → Json
  unfolding unwrap_rounds
  unwrap_response_body body = unwrap_rounds 3 body

-- The names are lowered by ASCII letters, of which header names are made.
abbrev pub to_lower_case : Text → Text
to_lower_case = map lower_unit

-- The value of a header, by a name in any case.
unfoldable pub response_header : Map Text Text → Text → Option Text
unfolding lower_unit
response_header [] name = none
response_header ((key, value) ∷ headers) name =
    if to_lower_case key == to_lower_case name then some value else response_header headers name

-- `headersRecord` on an array of pairs: of two with one name the last one counts.
unfoldable pub headers_record : List (Text × Text) → Map Text Text → Map Text Text
headers_record [] result = result
headers_record ((key, value) ∷ headers) result = headers_record headers (put key value result)
