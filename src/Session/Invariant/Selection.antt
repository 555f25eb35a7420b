-- ===== src/Session/Invariant/Selection.antt =====
-- The workspace that is selected is one of those to select from.
use ledgerly_app.Base.{
  ◌≡◌, ◌≢◌, Bool, Option, none, some, List, [], ◌∷◌, Text, arith, ◌⊎◌, inl, inr, ◌==◌, text_eq,
  find,
}
use ledgerly_app.Session.Stored.{
  Workspace, find_workspace, select_available_workspace, or_else, find_preferred, first_of,
}

abbrev pub Among : Workspace → List Workspace → Type 0
Among w [] = ⊥
Among w (v ∷ vs) = (v ≡ w) ⊎ Among w vs

some_injective : {A : Type 0} {a b : A} → some a ≡ some b → a ≡ b
some_injective e = grind arith

find-Among :
    (p : Workspace → Bool) (ws : List Workspace) (w : Workspace) → find p ws ≡ some w → Among w ws
find-Among p [] w h = ground arith
find-Among p (v ∷ vs) w h = ground (arith, find-Among p vs w)

pub find_workspace-Among :
    (id : Text) (ws : List Workspace) {w : Workspace} → find_workspace id ws ≡ some w → Among w ws
find_workspace-Among id ws h = find-Among (λ item. item.id == id) ws _ h

or_else-some :
    (a b : Option Workspace) {w : Workspace} → or_else a b ≡ some w → (a ≡ some w) ⊎ (b ≡ some w)
or_else-some none b h = inr h
or_else-some (some a) b h = inl h

find_preferred-Among :
    (ws : List Workspace) (preferred : Option Workspace) {w : Workspace}
    → find_preferred preferred ws ≡ some w
    → Among w ws
find_preferred-Among ws none h = ground arith
find_preferred-Among ws (some v) h = find_workspace-Among v.id ws h

first_of-Among : (ws : List Workspace) {w : Workspace} → first_of ws ≡ some w → Among w ws
first_of-Among [] h = ground arith
first_of-Among (v ∷ vs) h = inl (some_injective h)

others-Among :
    (ws : List Workspace) (preferred : Option Workspace) {w : Workspace}
    → or_else (find_preferred preferred ws) (first_of ws) ≡ some w
    → Among w ws
others-Among ws preferred h = elim (or_else-some (find_preferred preferred ws) _ h) [
  | inl e ↦ find_preferred-Among ws preferred e
  | inr e ↦ first_of-Among ws e
]

pub select_available_workspace-Among :
    (ws : List Workspace) (preferred : Option Workspace) (id : Text) {w : Workspace}
    → select_available_workspace ws preferred id ≡ some w
    → Among w ws
unfolding select_available_workspace
select_available_workspace-Among ws preferred id h =
    elim (or_else-some (find_workspace id ws) _ h) [
      | inl e ↦ find_workspace-Among id ws e
      | inr e ↦ others-Among ws preferred e
    ]

-- A selection out of a list that is not empty finds a workspace of the list.
or_else-none : (a b : Option Workspace) → b ≢ none → or_else a b ≢ none
or_else-none none b h e = h e
or_else-none (some a) b h e = ground arith

pub select-some :
    (w : Workspace) (ws : List Workspace) (preferred : Option Workspace) (id : Text)
    → select_available_workspace (w ∷ ws) preferred id ≢ none
unfolding select_available_workspace
select-some w ws preferred id =
    or_else-none (find_workspace id (w ∷ ws)) _
      (or_else-none (find_preferred preferred (w ∷ ws)) (some w) (λ e. ground arith))
