-- ===== src/Sharing/Links.antt =====
-- The length of a link to WhatsApp.
use ledgerly_app.Base.{
  ℕ, zero, suc, ◌+◌, ◌-◌, ◌/◌, ◌≤◌, ◌≡◌, refl, Bool, false, ◌&&◌, Option, none, some, List, [], ◌∷◌,
  ◌++◌, Text, arith, length, length-append, ap, if◌then◌else◌, Bool-cases, Option-cases, inl, inr,
  leb, ltb,
}
use ledgerly_app.Sharing.Texts.{is_low, truncate_unicode, code_points, unicode_length}
use ledgerly_app.Sharing.WhatsApp.{
  SharePayload, whatsapp_base_url, max_whatsapp_text_code_points, max_whatsapp_url_length,
  bounded_limit, body_of, given_url, url_suffix, candidate, fits, search_fit, fit_encoded_text,
  fit_whatsapp_text, with_suffix, create_whatsapp_share_link,
}

abbrev pub starts_low : Text → Bool
starts_low [] = false
starts_low (c ∷ s) = is_low c

-- What `encodeURIComponent` is documented to do: code points are encoded one by one, so that a text
-- cut between two of them is encoded in its parts.
pub record IsEncoding (encode : Text → Text) : Type 0 where
  pub encode_nil : encode [] ≡ []
  pub encode-append : (s t : Text) → starts_low t ≡ false → encode (s ++ t) ≡ encode s ++ encode t

-- The URL of a payload, which begins with "https://", begins with no half of a pair.
abbrev pub StartsWhole : Option Text → Type 0
StartsWhole none = Unit
StartsWhole (some url) = starts_low url ≡ false

module _ (encode : Text → Text) (encoding : IsEncoding encode) where
  search_fit-fits :
      (fuel bound low count : ℕ) (points : List Text) (best : Text)
      → length (encode best) ≤ bound
      → length (encode (search_fit encode fuel bound points low count best)) ≤ bound
  unfolding search_fit
  search_fit-fits zero bound low count points best h = h
  search_fit-fits (suc fuel) bound low count points best h = elim (Bool-cases (ltb low count)) [
    | inr over ↦ rw over h
    | inl going ↦
        elim (Bool-cases (fits encode bound (candidate points ((low + (count - 1)) / 2)))) [
          | inl small ↦
              rw (going, small)
                (search_fit-fits fuel bound (suc ((low + (count - 1)) / 2)) count points _
                  (ground (arith)))
          | inr large ↦
              rw (going, large)
                (search_fit-fits fuel bound low ((low + (count - 1)) / 2) points best h)
        ]
  ]

  pub fit_encoded_text-fits :
      (source : Text) (limit bound : ℕ)
      → length (encode (fit_encoded_text encode source limit bound)) ≤ bound
  unfolding fit_encoded_text
  fit_encoded_text-fits source limit bound =
      elim (Bool-cases (fits encode bound (truncate_unicode source limit))) [
        | inl small ↦ rw small (ground (arith))
        | inr large ↦ rw large (
            search_fit-fits (suc (length (code_points (truncate_unicode source limit)))) bound 0 _ _
              [] (rw encoding.encode_nil (omega arith)))
      ]

  with_suffix-fits :
      (url fitted : Text) (bound : ℕ)
      → starts_low url ≡ false
      → length (encode (url_suffix url)) ≤ bound
      → length (encode fitted) ≤ bound - length (encode (url_suffix url))
      → length (encode (with_suffix encode url fitted)) ≤ bound
  with_suffix-fits url [] bound whole h k = omega (
    arith,
    ap length (encoding.encode-append (10 ∷ 10 ∷ []) url whole),
    length-append {A = ℕ} (encode (10 ∷ 10 ∷ [])) (encode url),
  )
  with_suffix-fits url (c ∷ fitted) bound whole h k = omega (
    arith,
    ap length (encoding.encode-append (c ∷ fitted) (url_suffix url) refl),
    length-append {A = ℕ} (encode (c ∷ fitted)) (encode (url_suffix url)),
  )

  given-whole :
      (held : Option Text) (url : Text)
      → StartsWhole held
      → given_url held ≡ some url
      → starts_low url ≡ false
  given-whole none url whole h = cc
  given-whole (some []) url whole h = cc
  given-whole (some (c ∷ s)) url whole h = ground (arith)

  fit_whatsapp_text-fits :
      (payload : SharePayload) (limit bound : ℕ)
      → StartsWhole payload.url
      → length (encode (fit_whatsapp_text encode payload limit bound)) ≤ bound
  unfolding fit_whatsapp_text
  fit_whatsapp_text-fits payload limit bound whole = elim (Option-cases (given_url payload.url)) [
    | inl no_url ↦
        rw (no_url, fit_whatsapp_text) (fit_encoded_text-fits (body_of payload) limit bound)
    | inr (url, given) ↦
        rw (given, fit_whatsapp_text) (go url (given-whole payload.url url whole given))
  ]
    where
      go :
          (url : Text)
          → starts_low url ≡ false
          → length (
              encode (
                if leb (unicode_length (url_suffix url)) limit
                  && leb (length (encode (url_suffix url))) bound
                then with_suffix encode url (
                    fit_encoded_text encode
                      (body_of payload)
                      (limit - unicode_length (url_suffix url))
                      (bound - length (encode (url_suffix url))))
                else fit_encoded_text encode (body_of payload) limit bound))
            ≤ bound
      go url w =
          elim (Bool-cases (
            leb (unicode_length (url_suffix url)) limit
            && leb (length (encode (url_suffix url))) bound)) [
              | inl room ↦ rw room (
                  with_suffix-fits url _ bound w (ground (arith))
                    (fit_encoded_text-fits (body_of payload) _ _))
              | inr no_room ↦ rw no_room (fit_encoded_text-fits (body_of payload) limit bound)
            ]

  base_fits :
      (limit : Option ℕ)
      → length whatsapp_base_url
        ≤ bounded_limit limit max_whatsapp_url_length (length whatsapp_base_url)
  base_fits none = omega arith
  base_fits (some requested) = omega arith

  -- Whatever a payload holds, the link is no longer than the limit, which is at most 4,096 and at
  -- least the length of the link with no text; the limit on code points does not matter.
  pub share_link-bounded :
      (payload : SharePayload) (text_limit url_limit : Option ℕ)
      → StartsWhole payload.url
      → length (create_whatsapp_share_link encode payload text_limit url_limit).url
        ≤ bounded_limit url_limit max_whatsapp_url_length (length whatsapp_base_url)
  unfolding create_whatsapp_share_link
  share_link-bounded payload text_limit url_limit whole = omega (
    arith,
    length-append {A = ℕ} whatsapp_base_url
        (encode (create_whatsapp_share_link encode payload text_limit url_limit).text),
    fit_whatsapp_text-fits payload (bounded_limit text_limit max_whatsapp_text_code_points 1)
        (bounded_limit url_limit max_whatsapp_url_length (length whatsapp_base_url)
          - length whatsapp_base_url)
        whole,
    base_fits url_limit,
  )
