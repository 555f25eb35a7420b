-- ===== src/Base/Splitting.antt =====
-- `String.prototype.split` by a separator of one unit, and `Array.prototype.join`.
use Prim.Native.Nat.{ℕ}
use mathlib.Core.Path.{◌≡◌, sym, ap, ◌∙◌}
use mathlib.Core.Bool.{true, false}
use mathlib.Core.Logic.{inl, inr}
use mathlib.Core.List.{List, [], ◌∷◌, ◌++◌, append-nil, append_assoc}
use native.Mathlib.Omega.{arith}
use ledgerly_app.Base.Tests.{if◌then◌else◌, ◌==◌, nat_eq, Bool-cases}
use ledgerly_app.Base.Lists.{All}
use ledgerly_app.Base.Strings.{Text}

-- `text.split(separator)` for a separator of one unit; `part` is the part read so far.
unfoldable pub split_from : ℕ → Text → Text → List Text
split_from sep part [] = part ∷ []
split_from sep part (c ∷ s) =
    let closed = part ∷ split_from sep [] s in
    let longer = split_from sep (part ++ c ∷ []) s in if c == sep then closed else longer

unfoldable pub split : ℕ → Text → List Text
unfolding split_from
split sep s = split_from sep [] s

-- `parts.join(separator)`
unfoldable pub join : ℕ → List Text → Text
join sep [] = []
join sep (p ∷ []) = p
join sep (p ∷ q ∷ ps) = p ++ sep ∷ join sep (q ∷ ps)

-- A part of a split holds no separator.
abbrev pub Lacks : ℕ → Text → Type 0
Lacks sep = All (λ c. (c == sep) ≡ false)

Lacks-append_one :
    (sep c : ℕ) (p : Text) → Lacks sep p → (c == sep) ≡ false → Lacks sep (p ++ c ∷ [])
Lacks-append_one sep c [] h e = (e, tt)
Lacks-append_one sep c (d ∷ p) h e = (h.0, Lacks-append_one sep c p h.1 e)

pub split_from-Lacks :
    (sep : ℕ) (part s : Text) → Lacks sep part → All (Lacks sep) (split_from sep part s)
unfolding split_from
split_from-Lacks sep part [] h = (h, tt)
split_from-Lacks sep part (c ∷ s) h = elim (Bool-cases (c == sep)) [
  | inl cut ↦ rw cut (h, split_from-Lacks sep [] s tt)
  | inr more ↦
      rw more (split_from-Lacks sep (part ++ c ∷ []) s (Lacks-append_one sep c part h more))
]

split_from-append :
    (sep : ℕ) (part p s : Text)
    → Lacks sep p
    → split_from sep part (p ++ s) ≡ split_from sep (part ++ p) s
unfolding split_from
split_from-append sep part [] s h = rw (append-nil part)
split_from-append sep part (c ∷ p) s h =
    rw h.0 (split_from-append sep (part ++ c ∷ []) p s h.1 ∙ rw (append_assoc part (c ∷ []) p))

-- Splitting what was joined gives the parts back.
pub split-join :
    (sep : ℕ) (p : Text) (ps : List Text)
    → All (Lacks sep) (p ∷ ps)
    → split sep (join sep (p ∷ ps)) ≡ p ∷ ps
unfolding split join split_from
split-join sep p [] h =
    ap (split_from sep []) (sym (append-nil p)) ∙ split_from-append sep [] p [] h.0
split-join sep p (q ∷ ps) h =
    split_from-append sep [] p (sep ∷ join sep (q ∷ ps)) h.0
    ∙ rw same (ap (◌∷◌ p) (split-join sep q ps h.1))
  where
    same : (sep == sep) ≡ true
    same = ground arith

pub split-Lacks : (sep : ℕ) (s : Text) → All (Lacks sep) (split sep s)
unfolding split
split-Lacks sep s = split_from-Lacks sep [] s tt
