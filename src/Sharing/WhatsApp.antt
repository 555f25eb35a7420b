-- ===== src/Sharing/WhatsApp.antt =====
-- web/src/lib/share/whatsapp.ts, the link, and `composeShareText` of web/src/lib/share/delivery.ts.
-- `encode` is `encodeURIComponent`, which meets well-formed texts only.
use ledgerly_app.Base.{
  ℕ, zero, suc, ◌+◌, ◌-◌, ◌/◌, min, max, Bool, not, ◌&&◌, ◌||◌, Option, none, some, List, [], ◌∷◌,
  ◌++◌, Text, codes, take, trim_end, leb, ltb, length, ◌==◌, text_eq, if◌then◌else◌,
}
use ledgerly_app.Sharing.Texts.{ellipsis, code_points, concat, truncate_unicode, unicode_length}

pub record SharePayload : Type 0 where
  pub title : Text
  pub text : Text
  pub url : Option Text

abbrev pub whatsapp_base_url : Text
whatsapp_base_url = codes "https://wa.me/?text="

abbrev pub max_whatsapp_text_code_points : ℕ
max_whatsapp_text_code_points = 1600

abbrev pub max_whatsapp_url_length : ℕ
max_whatsapp_url_length = 4096

-- A limit that is none, infinite or NaN is `none`; a finite one is its floor, and one below zero counts
-- as zero.
abbrev pub bounded_limit : Option ℕ → ℕ → ℕ → ℕ
bounded_limit none maximum minimum = maximum
bounded_limit (some requested) maximum minimum = min maximum (max minimum requested)

-- `[title, text].filter(Boolean).join("\n\n")`
abbrev pub joined : Text → Text → Text
joined [] text = text
joined (c ∷ title) [] = c ∷ title
joined (c ∷ title) (d ∷ text) = (c ∷ title) ++ 10 ∷ 10 ∷ d ∷ text

abbrev pub body_of : SharePayload → Text
body_of payload = joined payload.title payload.text

-- `payload.url`, none where it is empty.
abbrev pub given_url : Option Text → Option Text
given_url (some (c ∷ url)) = some (c ∷ url)
given_url _ = none

abbrev pub url_suffix : Text → Text
url_suffix url = 10 ∷ 10 ∷ url

unfoldable pub compose_share_text : SharePayload → Text
compose_share_text payload =
    let content = truncate_unicode (body_of payload) 3500 in
    elim (given_url payload.url) [ none ↦ content | some url ↦ content ++ url_suffix url ]

abbrev pub marked : Text → Text
marked [] = []
marked (c ∷ prefix) = (c ∷ prefix) ++ ellipsis

-- The text that is tried for the first `middle` code points.
abbrev pub candidate : List Text → ℕ → Text
candidate points middle = marked (trim_end (concat (take middle points)))

module _ (encode : Text → Text) where
  abbrev pub fits : ℕ → Text → Bool
  fits max_encoded_length text = leb (length (encode text)) max_encoded_length

  -- The loop, on fuel: `count` is the source's `high + 1`, so that it does not go below zero.
  unfoldable pub search_fit : ℕ → ℕ → List Text → ℕ → ℕ → Text → Text
  search_fit zero max_encoded_length points low count best = best
  search_fit (suc fuel) max_encoded_length points low count best =
      let middle = (low + (count - 1)) / 2 in
      let longer =
        search_fit fuel max_encoded_length points (suc middle) count (candidate points middle) in
      let shorter = search_fit fuel max_encoded_length points low middle best in
      if ltb low count
      then (if fits max_encoded_length (candidate points middle) then longer else shorter)
      else best

  -- Each round leaves fewer counts between `low` and `count`.
  unfoldable pub fit_encoded_text : Text → ℕ → ℕ → Text
  unfolding search_fit truncate_unicode code_points
  fit_encoded_text source max_text_code_points max_encoded_length =
      let capped = truncate_unicode source max_text_code_points in
      let points = code_points capped in
      let count = suc (length points) in
      if fits max_encoded_length capped
      then capped
      else search_fit count max_encoded_length points 0 count []

  abbrev pub with_suffix : Text → Text → Text
  with_suffix url [] = url
  with_suffix url (c ∷ fitted) = (c ∷ fitted) ++ url_suffix url

  -- The URL is kept whole or omitted.
  unfoldable pub fit_whatsapp_text : SharePayload → ℕ → ℕ → Text
  unfolding fit_encoded_text unicode_length
  fit_whatsapp_text payload max_text_code_points max_encoded_length = elim (given_url payload.url) [
    | none ↦ fit_encoded_text (body_of payload) max_text_code_points max_encoded_length
    | some url ↦
        if leb (unicode_length (url_suffix url)) max_text_code_points
          && leb (length (encode (url_suffix url))) max_encoded_length
        then with_suffix url (
            fit_encoded_text (body_of payload)
              (max_text_code_points - unicode_length (url_suffix url))
              (max_encoded_length - length (encode (url_suffix url))))
        else fit_encoded_text (body_of payload) max_text_code_points max_encoded_length
  ]

  pub record WhatsAppShareLink : Type 0 where
    pub url : Text
    pub text : Text
    pub truncated : Bool

  -- The two limits are those of the options.
  unfoldable pub create_whatsapp_share_link : SharePayload → Option ℕ → Option ℕ → WhatsAppShareLink
  unfolding fit_whatsapp_text compose_share_text
  create_whatsapp_share_link payload text_limit url_limit =
      let max_text_code_points = bounded_limit text_limit max_whatsapp_text_code_points 1 in
      let max_url_length =
        bounded_limit url_limit max_whatsapp_url_length (length whatsapp_base_url) in
      let source = compose_share_text payload in
      let text =
        fit_whatsapp_text payload max_text_code_points
          (max_url_length - length whatsapp_base_url) in
      record {
        url = whatsapp_base_url ++ encode text;
        text = text;
        truncated = not (text == source) || ltb max_text_code_points (unicode_length source);
      }
