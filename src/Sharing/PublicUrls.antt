-- ===== src/Sharing/PublicUrls.antt =====
-- web/src/lib/share/safe-public-url.ts. `new URL(text)` is the parameter `parse_url`, none where it
-- throws; a hostname that it gives is ASCII.
use ledgerly_app.Base.{
  ℕ, Bool, true, false, not, ◌&&◌, ◌||◌, Option, none, some, List, [], ◌∷◌, Text, codes, map, all,
  any, length, trim, leb, ltb, is_digit, lower_unit, ◌==◌, nat_eq, text_eq, if◌then◌else◌,
}
use ledgerly_app.Base.Decimal.{digits_value}
use ledgerly_app.Base.Splitting.{split}

abbrev pub max_safe_public_url_length : ℕ
max_safe_public_url_length = 2048

-- `\d{1,3}`
abbrev pub is_octet_text : Text → Bool
is_octet_text s = leb 1 (length s) && leb (length s) 3 && all is_digit s

-- The first three of four octets, none if the text is no dotted quad, and whether one is over 255.
abbrev quad_of : List Text → Option (List ℕ)
quad_of (a ∷ b ∷ c ∷ d ∷ []) =
    if is_octet_text a && is_octet_text b && is_octet_text c && is_octet_text d
    then some (digits_value 0 a ∷ digits_value 0 b ∷ digits_value 0 c ∷ digits_value 0 d ∷ [])
    else none
quad_of _ = none

unfoldable pub dotted_quad : Text → Option (List ℕ)
unfolding split digits_value
dotted_quad hostname = quad_of (split b'.' hostname)

-- One of the tests holds.
unfoldable pub is_reserved : ℕ → ℕ → ℕ → Bool
is_reserved first second third =
    any (λ test. test)
      ((first == 0)
        ∷ (first == 10)
        ∷ (first == 127)
        ∷ (leb 224 first)
        ∷ (first == 100 && leb 64 second && leb second 127)
        ∷ (first == 169 && second == 254)
        ∷ (first == 172 && leb 16 second && leb second 31)
        ∷ (first == 192 && second == 0 && third == 0)
        ∷ (first == 192 && second == 0 && third == 2)
        ∷ (first == 192 && second == 168)
        ∷ (first == 198 && (second == 18 || second == 19))
        ∷ (first == 198 && second == 51 && third == 100)
        ∷ (first == 203 && second == 0 && third == 113)
        ∷ [])

abbrev pub is_non_public_quad : Option (List ℕ) → Bool
is_non_public_quad (some (a ∷ b ∷ c ∷ d ∷ [])) =
    if any (λ octet. ltb 255 octet) (a ∷ b ∷ c ∷ d ∷ []) then true else is_reserved a b c
is_non_public_quad _ = false

unfoldable pub is_non_public_ipv4 : Text → Bool
unfolding dotted_quad is_reserved
is_non_public_ipv4 hostname = is_non_public_quad (dotted_quad hostname)

abbrev without_open : Text → Text
without_open [] = []
without_open (c ∷ s) = if c == b'[' then s else c ∷ s

unfoldable pub without_close : Text → Text
without_close [] = []
without_close (c ∷ []) = if c == b']' then [] else c ∷ []
without_close (c ∷ d ∷ s) = c ∷ without_close (d ∷ s)

-- `hostname.replace(/^\[|\]$/g, "").toLowerCase()`
unfoldable pub normalized_host : Text → Text
unfolding without_close lower_unit
normalized_host hostname = map lower_unit (without_close (without_open hostname))

abbrev pub without_prefix : Text → Text → Option Text
without_prefix [] s = some s
without_prefix (p ∷ ps) [] = none
without_prefix (p ∷ ps) (c ∷ s) = if p == c then without_prefix ps s else none

abbrev pub starts_with : Text → Text → Bool
starts_with p s = elim (without_prefix p s) [ none ↦ false | some _ ↦ true ]

unfoldable pub ends_with : Text → Text → Bool
ends_with p [] = [] == p
ends_with p (c ∷ s) = (c ∷ s) == p || ends_with p s

abbrev pub includes_unit : ℕ → Text → Bool
includes_unit unit s = any (λ c. c == unit) s

abbrev is_link_local : Text → Bool
is_link_local (f ∷ e ∷ x ∷ s) =
    f == b'f' && e == b'e' && (x == b'8' || x == b'9' || x == b'a' || x == b'b')
is_link_local _ = false

-- `/::ffff:(quad)$/`
unfoldable pub mapped_quad : Text → Option (List ℕ)
unfolding dotted_quad
mapped_quad [] = none
mapped_quad (c ∷ s) = elim (without_prefix (codes "::ffff:") (c ∷ s)) [
  | none ↦ mapped_quad s
  | some rest ↦ elim (dotted_quad rest) [ none ↦ mapped_quad s | some quad ↦ some quad ]
]

unfoldable pub is_non_public_ipv6 : Text → Bool
unfolding normalized_host mapped_quad is_reserved
is_non_public_ipv6 hostname =
    let address = normalized_host hostname in
    if not (includes_unit b':' address)
    then false
    else if address == codes "::"
        || address == codes "::1"
        || starts_with (codes "fc") address
        || starts_with (codes "fd") address
        || is_link_local address
        || starts_with (codes "2001:db8:") address
    then true
    else is_non_public_quad (mapped_quad address)

abbrev is_local_name : Text → Bool
is_local_name name =
    name == []
    || name == codes "localhost"
    || ends_with (codes ".localhost") name
    || ends_with (codes ".local") name
    || ends_with (codes ".internal") name
    || ends_with (codes ".test") name
    || ends_with (codes ".invalid") name

unfoldable pub has_public_hostname : Text → Bool
unfolding normalized_host ends_with is_non_public_ipv4 is_non_public_ipv6
has_public_hostname hostname =
    let normalized = normalized_host hostname in
    if is_local_name normalized || is_non_public_ipv4 normalized || is_non_public_ipv6 normalized
    then false
    else includes_unit b'.' normalized || includes_unit b':' normalized

pub record Url : Type 0 where
  pub protocol : Text
  pub username : Text
  pub password : Text
  pub hostname : Text
  pub serialized : Text

abbrev pub if_short : Text → Option Text
if_short normalized =
    if leb (length normalized) max_safe_public_url_length then some normalized else none

abbrev pub if_safe : Option Url → Option Text
if_safe none = none
if_safe (some parsed) =
    if not (parsed.protocol == codes "https:")
      || not (parsed.username == [])
      || not (parsed.password == [])
      || not (has_public_hostname parsed.hostname)
    then none
    else if_short parsed.serialized

module _ (parse_url : Text → Option Url) where
  unfoldable pub create_safe_public_url : Text → Option Text
  unfolding trim has_public_hostname
  create_safe_public_url value =
      let candidate = trim value in
      if candidate == [] || ltb max_safe_public_url_length (length candidate)
      then none
      else if_safe (parse_url candidate)
