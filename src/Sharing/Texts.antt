-- ===== src/Sharing/Texts.antt =====
-- web/src/lib/share/text.ts, well-formed texts and cutting them. A code point is the text of its one
-- or two units, as `Array.from` gives it.
use ledgerly_app.Base.{
  ℕ, zero, suc, Bool, ◌&&◌, ◌||◌, List, [], ◌∷◌, ◌++◌, Text, take, trim_end, leb, length,
  if◌then◌else◌,
}

abbrev pub ellipsis : Text
ellipsis = 0x2026 ∷ []

abbrev pub is_high : ℕ → Bool
is_high unit = leb 0xd800 unit && leb unit 0xdbff

abbrev pub is_low : ℕ → Bool
is_low unit = leb 0xdc00 unit && leb unit 0xdfff

abbrev well_formed_unit : ℕ → ℕ
well_formed_unit unit = if is_high unit || is_low unit then 0xfffd else unit

unfoldable pub to_well_formed_unicode : Text → Text
to_well_formed_unicode [] = []
to_well_formed_unicode (c ∷ []) = well_formed_unit c ∷ []
to_well_formed_unicode (c ∷ d ∷ s) =
    let behind_pair = to_well_formed_unicode s in
    let behind_one = to_well_formed_unicode (d ∷ s) in
    if is_high c && is_low d then c ∷ d ∷ behind_pair else well_formed_unit c ∷ behind_one

-- `Array.from(value)`
unfoldable pub code_points : Text → List Text
code_points [] = []
code_points (c ∷ []) = (c ∷ []) ∷ []
code_points (c ∷ d ∷ s) =
    let behind_pair = code_points s in
    let behind_one = code_points (d ∷ s) in
    if is_high c && is_low d then (c ∷ d ∷ []) ∷ behind_pair else (c ∷ []) ∷ behind_one

unfoldable pub unicode_length : Text → ℕ
unfolding code_points
unicode_length value = length (code_points value)

-- `parts.join("")`
abbrev pub concat : List Text → Text
concat [] = []
concat (p ∷ ps) = p ++ concat ps

abbrev pub cut : ℕ → List Text → Text
cut zero points = ellipsis
cut (suc n) points = trim_end (concat (take (suc n) points)) ++ ellipsis

-- A limit below zero counts as zero.
unfoldable pub truncate_unicode : Text → ℕ → Text
unfolding to_well_formed_unicode code_points
truncate_unicode value zero = []
truncate_unicode value (suc n) =
    let normalized = to_well_formed_unicode value in
    if leb (length (code_points normalized)) (suc n)
    then normalized
    else cut n (code_points normalized)
