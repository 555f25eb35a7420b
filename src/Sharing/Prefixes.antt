-- ===== src/Sharing/Prefixes.antt =====
-- A text that is cut shorter is encoded shorter.
use ledgerly_app.Base.{
  close, ℕ, zero, suc, ◌≡◌, refl, sym, ◌∙◌, ap, Bool, true, false, not, ◌&&◌, ◌||◌, List, [], ◌∷◌,
  ◌++◌, Text, arith, length, take, trim_end, is_space, leb, All, Bool-cases, inl, inr, append_assoc,
  if◌then◌else◌,
}
use ledgerly_app.Sharing.Texts.{
  ellipsis, is_high, is_low, to_well_formed_unicode, code_points, concat, truncate_unicode, cut,
}
use ledgerly_app.Sharing.Links.{starts_low}

-- Every second half of a pair has a first half before it; `opened` tells whether one comes before the
-- text.
unfoldable halves_follow : Bool → Text → Bool
halves_follow opened [] = true
halves_follow opened (c ∷ s) = (opened || not (is_low c)) && halves_follow (is_high c) s

halves_follow-open : (b : Bool) (s : Text) → halves_follow false s ≡ true → halves_follow b s ≡ true
unfolding halves_follow
halves_follow-open b [] h = refl
halves_follow-open b (c ∷ s) h = ground arith

halves_follow-append :
    (b : Bool) (s t : Text)
    → halves_follow b s ≡ true
    → halves_follow false t ≡ true
    → halves_follow b (s ++ t) ≡ true
unfolding halves_follow
halves_follow-append b [] t h k = halves_follow-open b t k
halves_follow-append b (c ∷ s) t h k = ground (arith, halves_follow-append (is_high c) s t)

halves_follow-prefix :
    (b : Bool) (s t : Text) → halves_follow b (s ++ t) ≡ true → halves_follow b s ≡ true
unfolding halves_follow
halves_follow-prefix b [] t h = refl
halves_follow-prefix b (c ∷ s) t h = ground (arith, halves_follow-prefix (is_high c) s t)

to_well_formed_unicode-halves_follow :
    (s : Text) → halves_follow false (to_well_formed_unicode s) ≡ true
unfolding halves_follow to_well_formed_unicode
to_well_formed_unicode-halves_follow [] = refl
to_well_formed_unicode-halves_follow (c ∷ []) = ground arith
to_well_formed_unicode-halves_follow (c ∷ d ∷ s) = ground (
  arith,
  to_well_formed_unicode-halves_follow s,
  to_well_formed_unicode-halves_follow (d ∷ s),
  halves_follow-open (is_high d) (to_well_formed_unicode s),
)

-- No code point of such a text begins with a second half.
abbrev pub AllWhole : List Text → Type 0
AllWhole = All (λ p. starts_low p ≡ false)

code_points-AllWhole : (s : Text) → halves_follow false s ≡ true → AllWhole (code_points s)
unfolding halves_follow code_points
code_points-AllWhole [] h = tt
code_points-AllWhole (c ∷ []) h = (ground arith, tt)
code_points-AllWhole (c ∷ d ∷ s) h = elim (Bool-cases (is_high c && is_low d)) [
  | inl two ↦ rw two (ground arith, code_points-AllWhole s (ground arith))
  | inr one ↦ rw one (ground arith, code_points-AllWhole (d ∷ s) (ground arith))
]

concat-code_points : (s : Text) → concat (code_points s) ≡ s
unfolding code_points
concat-code_points [] = refl
concat-code_points (c ∷ []) = refl
concat-code_points (c ∷ d ∷ s) = elim (Bool-cases (is_high c && is_low d)) [
  | inl two ↦ rw two (ap (λ t. c ∷ d ∷ t) (concat-code_points s))
  | inr one ↦ rw one (ap (◌∷◌ c) (concat-code_points (d ∷ s)))
]

concat-take : (n : ℕ) (ps : List Text) → (t : Text) × (concat ps ≡ concat (take n ps) ++ t)
concat-take zero ps = (concat ps, refl)
concat-take (suc n) [] = ([], refl)
concat-take (suc n) (p ∷ ps) =
    let (t, e) = concat-take n ps in
    (t, ap (λ s. p ++ s) e ∙ sym (append_assoc p (concat (take n ps)) t))

trim_end_prefix : (s : Text) → (t : Text) × (s ≡ trim_end s ++ t)
unfolding trim_end
trim_end_prefix [] = ([], refl)
trim_end_prefix (c ∷ s) = go (trim_end s) (trim_end_prefix s)
  where
    go : (u : Text) → ((t : Text) × (s ≡ u ++ t)) → (t : Text) × (c ∷ s ≡ close c u ++ t)
    go [] (t, e) = elim (Bool-cases (is_space c)) [
      | inl b ↦ rw b (c ∷ s, refl)
      | inr b ↦ rw b (s, refl)
    ]
    go (x ∷ u) (t, e) = (t, ap (◌∷◌ c) e)

cut-halves_follow :
    (n : ℕ) (s : Text)
    → halves_follow false s ≡ true
    → halves_follow false (cut n (code_points s)) ≡ true
unfolding halves_follow
cut-halves_follow zero s h = refl
cut-halves_follow (suc n) s h =
    let start = concat (take (suc n) (code_points s)) in
    let (t, taken) = concat-take (suc n) (code_points s) in
    let (u, trimmed) = trim_end_prefix start in
    let whole : halves_follow false (start ++ t) ≡ true =
      ap (halves_follow false) (sym taken ∙ concat-code_points s) ∙ h in
    let kept = halves_follow-prefix false start t whole in
    halves_follow-append false (trim_end start) ellipsis
      (halves_follow-prefix false (trim_end start) u
        (ap (halves_follow false) (sym trimmed) ∙ kept))
      refl

if-halves_follow :
    (b : Bool) (s t : Text)
    → halves_follow false s ≡ true
    → halves_follow false t ≡ true
    → halves_follow false (if b then s else t) ≡ true
if-halves_follow true s t h k = h
if-halves_follow false s t h k = k

pub truncate_unicode-AllWhole :
    (s : Text) (limit : ℕ) → AllWhole (code_points (truncate_unicode s limit))
unfolding truncate_unicode halves_follow
truncate_unicode-AllWhole s limit =
    code_points-AllWhole (truncate_unicode s limit) (well_formed limit)
  where
    well_formed : (n : ℕ) → halves_follow false (truncate_unicode s n) ≡ true
    well_formed zero = refl
    well_formed (suc n) =
        let normal = to_well_formed_unicode-halves_follow s in
        let written = to_well_formed_unicode s in
        if-halves_follow (leb (length (code_points written)) (suc n)) written
          (cut n (code_points written)) normal (cut-halves_follow n written normal)
