-- ===== src/Base/Trimming.antt =====
-- Laws of `trim`.
use mathlib.Core.Path.{◌≡◌, refl}
use mathlib.Core.Bool.{false}
use mathlib.Core.Logic.{inl, inr}
use mathlib.Core.List.{[], ◌∷◌}
use ledgerly_app.Base.Tests.{Bool-cases}
use ledgerly_app.Base.Lists.{All}
use ledgerly_app.Base.Strings.{Text, is_space, trim_end, trim, close}

abbrev pub IsSolid : Text → Type 0
IsSolid = All (λ c. is_space c ≡ false)

trim_end-of_IsSolid : (s : Text) → IsSolid s → trim_end s ≡ s
unfolding trim_end
trim_end-of_IsSolid [] h = refl
trim_end-of_IsSolid (c ∷ []) h = rw h.0
trim_end-of_IsSolid (c ∷ d ∷ s) h = rw (trim_end-of_IsSolid (d ∷ s) h.1)

-- A text with no space is left as it is.
pub trim_of_IsSolid : (s : Text) → IsSolid s → trim s ≡ s
unfolding trim
trim_of_IsSolid [] h = refl
trim_of_IsSolid (c ∷ s) h = rw h.0 (trim_end-of_IsSolid (c ∷ s) h)

trim_end_idem : (s : Text) → trim_end (trim_end s) ≡ trim_end s
unfolding trim_end
trim_end_idem [] = refl
trim_end_idem (c ∷ s) = go (trim_end s) (trim_end_idem s)
  where
    go : (t : Text) → trim_end t ≡ t → trim_end (close c t) ≡ close c t
    go [] e = elim (Bool-cases (is_space c)) [ inl b ↦ rw b | inr b ↦ rw b (rw b) ]
    go (d ∷ t) e = rw e
