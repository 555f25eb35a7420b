-- ===== src/ApiClient/Failures.antt =====
-- What callers can rely on in an error of the API.
use ledgerly_app.Base.{
  ℕ, ◌≡◌, ◌≢◌, Option, none, some, [], Text, arith, Bool-cases, Option-cases, inl, inr, leb, codes,
}
use ledgerly_app.ApiClient.Json.{Json, property, is_object, as_filled}
use ledgerly_app.ApiClient.Errors.{
  ApiErrorShape, fallback_api_error, fields_of, shape_of, normalize_candidate, normalize_api_error,
}

-- An error that can be shown: it has a code and a message, and field errors only if there are some.
pub record IsShowable (shape : ApiErrorShape) : Type 0 where
  pub coded : shape.code ≢ []
  pub worded : shape.message ≢ []
  pub fielded : shape.fields ≢ some []

fallback-IsShowable :
    (status : ℕ) (request_id : Option Text) → IsShowable (fallback_api_error status request_id)
unfolding fallback_api_error
fallback-IsShowable status request_id = elim (Bool-cases (leb 500 status)) [
  | inl server ↦ rw server (record { coded = λ e. cc; worded = λ e. cc; fielded = λ e. cc })
  | inr client ↦ rw client (record { coded = λ e. cc; worded = λ e. cc; fielded = λ e. cc })
]

filled-ne_nil : (v : Option Json) (s : Text) → as_filled v ≡ some s → s ≢ []
filled-ne_nil v s h = ground arith

fields_of-ne_nil : (v : Option Json) → fields_of v ≢ some []
fields_of-ne_nil v = ground arith

shape_of-IsShowable :
    (status : ℕ) (code message fields : Option Json) (request_id : Option Text)
    → IsShowable
        (shape_of status (as_filled code) (as_filled message) (fields_of fields) request_id)
shape_of-IsShowable status code message fields request_id = elim (Option-cases (as_filled code)) [
  | inl no_code ↦ rw no_code (fallback-IsShowable status request_id)
  | inr (c, coded) ↦ elim (Option-cases (as_filled message)) [
    | inl no_message ↦ rw (coded, no_message) (fallback-IsShowable status request_id)
    | inr (m, worded) ↦
        rw (coded, worded)
          (record {
            coded = filled-ne_nil code c coded;
            worded = filled-ne_nil message m worded;
            fielded = fields_of-ne_nil fields;
          })
  ]
]

normalize_candidate-IsShowable :
    (candidate : Json) (status : ℕ) (request_id : Option Text)
    → IsShowable (normalize_candidate candidate status request_id)
unfolding normalize_candidate
normalize_candidate-IsShowable candidate status request_id =
    elim (Bool-cases (is_object candidate)) [
      | inl structured ↦ rw structured (
          shape_of-IsShowable status (property (codes "code") candidate)
            (property (codes "message") candidate) (property (codes "fields") candidate) _)
      | inr other ↦ rw other (fallback-IsShowable status request_id)
    ]

-- Whatever the body of an error is, what is thrown can be shown.
pub normalize_api_error-IsShowable :
    (payload : Option Json) (status : ℕ) (request_id : Option Text)
    → IsShowable (normalize_api_error payload status request_id)
unfolding normalize_api_error
normalize_api_error-IsShowable none status request_id = fallback-IsShowable status request_id
normalize_api_error-IsShowable (some payload) status request_id =
    elim (Option-cases (property (codes "error") payload)) [
      | inl missing ↦ rw missing (fallback-IsShowable status request_id)
      | inr (candidate, there) ↦
          rw there (normalize_candidate-IsShowable candidate status request_id)
    ]
