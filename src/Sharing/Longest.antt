-- ===== src/Sharing/Longest.antt =====
-- The search for a text that fits an encoded length.
use ledgerly_app.Base.{
  ◌≢◌, ◌++◌, ◌∷◌, take, ℕ, zero, suc, ◌+◌, ◌-◌, ◌/◌, ◌≤◌, ◌<◌, ◌≡◌, refl, Bool, true, false, List,
  [], Text, arith, length, trim_end, leb→le, Bool-cases, inl, inr, ltb, leb, nat_eq,
}
use ledgerly_app.Sharing.Texts.{ellipsis, concat, truncate_unicode, code_points}
use ledgerly_app.Sharing.Links.{IsEncoding, fit_encoded_text-fits}
use ledgerly_app.Sharing.Prefixes.{truncate_unicode-AllWhole}
use ledgerly_app.Sharing.Shrinking.{fits_shorter}
use ledgerly_app.Sharing.WhatsApp.{marked, candidate, fits, search_fit, fit_encoded_text}

-- A text cut after `k` code points: without the white space at its end, and with an ellipsis if
-- anything is left.
abbrev pub IsCut : List Text → ℕ → Text → Type 0
IsCut points k text =
    (trim_end (concat (take k points)) ≡ [] → text ≡ [])
    × (trim_end (concat (take k points)) ≢ []
        → text ≡ trim_end (concat (take k points)) ++ ellipsis)

-- The text cut after `k` code points, of which nothing fits that is cut later.
abbrev pub IsLongestCut : (Text → Text) → ℕ → List Text → Text → ℕ → Type 0
IsLongestCut encode bound points text k =
    (k ≤ length points)
    × IsCut points k text
    × ((j : ℕ) (other : Text)
        → k < j
        → j ≤ length points
        → IsCut points j other
        → bound < length (encode other))

abbrev IsLongest : (Text → Text) → ℕ → List Text → Text → ℕ → Type 0
IsLongest encode bound points text k =
    (k ≤ length points)
    × (text ≡ candidate points k)
    × ((j : ℕ) → k < j → j ≤ length points → fits encode bound (candidate points j) ≡ false)

marked-cut : (s : Text) → ((s ≡ [] → marked s ≡ []) × (s ≢ [] → marked s ≡ s ++ ellipsis))
marked-cut [] = (λ h. refl, λ h. absurd (h refl))
marked-cut (c ∷ s) = (λ h. cc, λ h. refl)

cut-marked :
    (s text : Text) → (s ≡ [] → text ≡ []) → (s ≢ [] → text ≡ s ++ ellipsis) → text ≡ marked s
cut-marked [] text h k = h refl
cut-marked (c ∷ s) text h k = k (λ e. cc)

too_long :
    (encode : Text → Text) (bound : ℕ) (s t : Text)
    → fits encode bound t ≡ false
    → s ≡ t
    → bound < length (encode s)
too_long encode bound s t h e = rw e (ground arith)

IsLongest-IsLongestCut :
    (encode : Text → Text) (bound : ℕ) (points : List Text) (text : Text)
    → ((k : ℕ) × IsLongest encode bound points text k)
    → (k : ℕ) × IsLongestCut encode bound points text k
IsLongest-IsLongestCut encode bound points text (k, (inside, same, later)) = (
  k,
  (
    inside,
    rw same (marked-cut (trim_end (concat (take k points)))),
    λ j other h l cut.
        too_long encode bound other _ (later j h l)
          (cut-marked (trim_end (concat (take j points))) other cut.0 cut.1),
  ),
)

-- A text that fits still fits with one code point less.
abbrev Shrinks : (Text → Text) → ℕ → List Text → Type 0
Shrinks encode bound points =
    (i : ℕ)
    → i < length points
    → fits encode bound (candidate points (suc i)) ≡ true
    → fits encode bound (candidate points i) ≡ true

contradicts : {b : Bool} → b ≡ true → b ≡ false → ⊥
contradicts h k = cc

module _ (encode : Text → Text) (bound : ℕ) (points : List Text)
    (shrinks : Shrinks encode bound points) where
  at_equal :
      (m j : ℕ)
      → m ≡ j
      → fits encode bound (candidate points m) ≡ false
      → fits encode bound (candidate points j) ≡ false
  at_equal m j same no_room = rw⁻¹ same no_room

  overflows :
      (m j : ℕ)
      → m ≤ j
      → j ≤ length points
      → fits encode bound (candidate points m) ≡ false
      → fits encode bound (candidate points j) ≡ false
  overflows m zero h top no_room = at_equal m 0 (omega arith) no_room
  overflows m (suc j) h top no_room = elim (Bool-cases (leb m j)) [
    | inr last ↦ at_equal m (suc j) (ground (arith)) no_room
    | inl below ↦ elim (Bool-cases (fits encode bound (candidate points (suc j)))) [
      | inr still ↦ still
      | inl room ↦ absurd (
          contradicts (shrinks j (omega arith) room)
            (overflows m j (leb→le m j below) (omega arith) no_room))
    ]
  ]

  search_fit-IsLongest :
      (fuel low count k : ℕ) (best : Text)
      → count - low ≤ fuel
      → count ≤ suc (length points)
      → low ≤ suc k
      → k ≤ length points
      → best ≡ candidate points k
      → ((j : ℕ) → count ≤ j → j ≤ length points → fits encode bound (candidate points j) ≡ false)
      → (l : ℕ) × IsLongest encode bound points
          (search_fit encode fuel bound points low count best)
          l
  unfolding search_fit
  search_fit-IsLongest zero low count k best enough top start inside held no_room =
      (k, (inside, held, λ j h l. no_room j (omega arith) l))
  search_fit-IsLongest (suc fuel) low count k best enough top start inside held no_room =
      elim (Bool-cases (ltb low count)) [
        | inr over ↦ rw over (k, (inside, held, λ j h l. no_room j (ground (arith)) l))
        | inl going ↦
            elim (Bool-cases (fits encode bound (candidate points ((low + (count - 1)) / 2)))) [
              | inl room ↦
                  rw (going, room)
                    (search_fit-IsLongest fuel (suc ((low + (count - 1)) / 2)) count
                      ((low + (count - 1)) / 2) _ (ground (arith)) top (omega arith)
                      (ground (arith)) refl no_room)
              | inr large ↦
                  rw (going, large)
                    (search_fit-IsLongest fuel low ((low + (count - 1)) / 2) k best (ground (arith))
                      (ground (arith)) start inside held (λ j h l. overflows _ j h l large))
            ]
      ]

-- With an encoding of code points one by one: of a text that does not fit when it is cut to the limit of
-- code points, what is left fits, and is that text cut once more, with an ellipsis unless nothing is
-- left; cut after any more of its code points it would not fit.
pub fit_encoded_text-IsLongestCut :
    (encode : Text → Text) (source : Text) (limit bound : ℕ)
    → IsEncoding encode
    → fits encode bound (truncate_unicode source limit) ≡ false
    → (length (encode (fit_encoded_text encode source limit bound)) ≤ bound)
      × ((k : ℕ) × IsLongestCut encode bound
            (code_points (truncate_unicode source limit))
            (fit_encoded_text encode source limit bound)
            k)
unfolding fit_encoded_text trim_end
fit_encoded_text-IsLongestCut encode source limit bound encoding large =
    let points = code_points (truncate_unicode source limit) in
    (
      fit_encoded_text-fits encode encoding source limit bound,
      rw (large, fit_encoded_text)
          (IsLongest-IsLongestCut encode bound points _ (
            search_fit-IsLongest encode bound points
              (λ i h.
                fits_shorter encode encoding bound i points (truncate_unicode-AllWhole source limit)
                  h)
              (suc (length points)) 0 (suc (length points)) 0 [] (omega arith) (omega arith)
              (omega arith) (omega arith) refl (λ j h l. absurd (omega arith)))),
    )
