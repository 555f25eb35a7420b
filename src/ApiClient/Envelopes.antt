-- ===== src/ApiClient/Envelopes.antt =====
-- Envelopes around the body of a response.
use ledgerly_app.Base.{
  ℕ, zero, suc, ◌≤◌, ◌≡◌, refl, Option, none, some, List, [], ◌∷◌, Text, codes, arith,
}
use ledgerly_app.ApiClient.Json.{Json, object, member, end, property}
use ledgerly_app.ApiClient.Bodies.{unwrap_step, unwrap_rounds, unwrap_response_body}

-- `{ "data": value }` and `{ "items": value }`
abbrev pub in_data : Json → Json
in_data value = object (member (codes "data") value end)

abbrev pub in_items : Json → Json
in_items value = object (member (codes "items") value end)

pub data Envelope : Type 0 where
  data_envelope items_envelope : Envelope

abbrev pub wrap_one : Envelope → Json → Json
wrap_one data_envelope value = in_data value
wrap_one items_envelope value = in_items value

abbrev pub wrap : List Envelope → Json → Json
wrap [] value = value
wrap (e ∷ es) value = wrap_one e (wrap es value)

abbrev size : List Envelope → ℕ
size [] = 0
size (_ ∷ es) = suc (size es)

module _ (parse : Text → Option Json) where
  step-wrap_one : (e : Envelope) (value : Json) → unwrap_step parse (wrap_one e value) ≡ some value
  unfolding unwrap_step property
  step-wrap_one data_envelope value = refl
  step-wrap_one items_envelope value = refl

  rounds-bare :
      (depth : ℕ) (value : Json)
      → unwrap_step parse value ≡ none
      → unwrap_rounds parse depth value ≡ value
  unfolding unwrap_rounds
  rounds-bare zero value h = refl
  rounds-bare (suc depth) value h = rw (h, unwrap_rounds)

  rounds-wrap :
      (es : List Envelope) (depth : ℕ) (value : Json)
      → unwrap_step parse value ≡ none
      → size es ≤ depth
      → unwrap_rounds parse depth (wrap es value) ≡ value
  unfolding unwrap_rounds
  rounds-wrap [] depth value h k = rounds-bare depth value h
  rounds-wrap (e ∷ es) zero value h k = absurd (omega arith)
  rounds-wrap (e ∷ es) (suc depth) value h k =
      rw (step-wrap_one e (wrap es value), unwrap_rounds)
        (rounds-wrap es depth value h (omega arith))

  -- A value in at most three envelopes, of either kind, is taken out of all of them, if it is no
  -- envelope and no JSON text itself.
  pub unwrap-wrap :
      (es : List Envelope) (value : Json)
      → unwrap_step parse value ≡ none
      → size es ≤ 3
      → unwrap_response_body parse (wrap es value) ≡ value
  unfolding unwrap_response_body
  unwrap-wrap es value h k = rounds-wrap es 3 value h k
