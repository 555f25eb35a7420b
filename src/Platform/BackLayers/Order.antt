-- ===== src/Platform/BackLayers/Order.antt =====
-- The stack holds the registered layers, each once, in the order of registration.
use ledgerly_app.Base.{
  ℕ, ◌<◌, ◌≡◌, ◌↔◌, refl, ◌∙◌, ap, Bool, true, false, not, none, some, List, [], ◌∷◌, ◌++◌,
  filter-append, has, ◌==◌, nat_eq, All, All-map, All-append, arith, append-nil,
}
use ledgerly_app.Base.Tokens.{
  has-append_one, Distinct-append_absent, has-fresh, Distinct, without, without-absent, has-without,
  Distinct-without, without-All,
}
use ledgerly_app.Platform.BackLayers.{
  BackLayers, no_layers, register_back_layer, remove_last, unregister, top, Dismiss,
  dismiss_top_back_layer,
}

-- A layer is on the stack exactly when its closure was not used; addresses are not used twice.
pub record IsConsistent (s : BackLayers) : Type 0 where
  pub distinct : Distinct s.layers
  pub fresh : All (λ a. a < s.next) s.layers
  pub flagged : (a : ℕ) → has a s.layers ≡ has a s.registered

remove_last-without :
    (a : ℕ) (xs : List ℕ) → Distinct xs → has a xs ≡ true → remove_last a xs ≡ without a xs
unfolding remove_last has
remove_last-without a [] d h = cc
remove_last-without a (x ∷ xs) d h =
    ground (arith, remove_last-without a xs d.1, without-absent a xs)

pub no_layers-IsConsistent : IsConsistent no_layers
no_layers-IsConsistent = record { distinct = tt; fresh = tt; flagged = λ a. refl }

-- Registering a layer keeps the stack consistent.
pub register-IsConsistent :
    (s : BackLayers) → IsConsistent s → IsConsistent (register_back_layer s).0
unfolding register_back_layer has
register-IsConsistent s h = record {
  distinct = Distinct-append_absent s.next s.layers (has-fresh s.next s.layers h.fresh) h.distinct;
  fresh = All-append _ s.layers _ (All-map (λ a r. omega arith) s.layers h.fresh) (omega arith, tt);
  flagged = λ a. ground (arith, has-append_one a s.next s.layers, h.flagged a);
}

-- On a consistent stack a closure takes its own layer away and leaves the others in their order; a
-- second call of it does nothing.
pub unregister-layers :
    (a : ℕ) (s : BackLayers)
    → IsConsistent s
    → ((unregister a s).layers ≡ without a s.layers)
      × (unregister a (unregister a s) ≡ unregister a s)
unfolding unregister
unregister-layers a s h = (
  ground (arith, h.flagged a, remove_last-without a s.layers h.distinct, without-absent a s.layers),
  ground (arith, has-without a a s.registered),
)

unregister-next : (a : ℕ) (s : BackLayers) → (unregister a s).next ≡ s.next
unfolding unregister
unregister-next a s = ground arith

unregister-registered :
    (a : ℕ) (s : BackLayers) → (unregister a s).registered ≡ without a s.registered
unfolding unregister
unregister-registered a s = ground (arith, without-absent a s.registered)

-- Using a closure keeps the stack consistent.
pub unregister-IsConsistent :
    (a : ℕ) (s : BackLayers) → IsConsistent s → IsConsistent (unregister a s)
unregister-IsConsistent a s h = record {
  distinct = rw (unregister-layers a s h).0 (Distinct-without a s.layers h.distinct);
  fresh =
      rw (unregister-layers a s h).0
        (rw (unregister-next a s) (without-All (λ b. b < s.next) a s.layers h.fresh));
  flagged = λ b. rw (unregister-layers a s h).0 (
      rw (unregister-registered a s)
        (has-without a b s.layers ∙ ground (arith, h.flagged b, has-without a b s.registered)));
}

-- What the rest of the client can do to the stack.
pub data Step (s : BackLayers) : BackLayers → Type 0 where
  registers : Step s (register_back_layer s).0
  unregisters : (a : ℕ) → Step s (unregister a s)

pub data Reach (s : BackLayers) : BackLayers → Type 0 where
  here : Reach s s
  next : {t u : BackLayers} → Reach s t → Step t u → Reach s u

Step-IsConsistent : {t u : BackLayers} → IsConsistent t → Step t u → IsConsistent u
Step-IsConsistent {t} h registers = register-IsConsistent t h
Step-IsConsistent {t} h (unregisters a) = unregister-IsConsistent a t h

-- In whatever order layers are registered and closures used, also more than once, the stack holds
-- the layers whose closure was not used, each once.
pub Reach-IsConsistent : {s : BackLayers} → Reach no_layers s → IsConsistent s
Reach-IsConsistent here = no_layers-IsConsistent
Reach-IsConsistent (next r st) = Step-IsConsistent (Reach-IsConsistent r) st

top-append_one : (xs : List ℕ) (a : ℕ) → top (xs ++ a ∷ []) ≡ some a
unfolding top
top-append_one [] a = refl
top-append_one (x ∷ []) a = refl
top-append_one (x ∷ y ∷ xs) a = top-append_one (y ∷ xs) a

Distinct-last : (xs : List ℕ) (a : ℕ) → Distinct (xs ++ a ∷ []) → has a xs ≡ false
unfolding has
Distinct-last [] a d = refl
Distinct-last (x ∷ xs) a d = ground (arith, Distinct-last xs a d.1, has-append_one x a xs)

-- A back press on a consistent stack whose owners unregister when they are dismissed, throwing or
-- not, closes the layer that was registered last, leaves the others, and is consumed.
pub dismiss_top-last :
    (s : BackLayers) (xs : List ℕ) (a : ℕ) (throws : ℕ → Bool)
    → IsConsistent s
    → s.layers ≡ xs ++ a ∷ []
    → ((dismiss_top_back_layer (λ b t. (unregister b t, throws b)) s).0.layers ≡ xs)
      × ((dismiss_top_back_layer (λ b t. (unregister b t, throws b)) s).1 ≡ true)
unfolding dismiss_top_back_layer
dismiss_top-last s xs a throws h e =
    let pressed : top s.layers ≡ some a = ap top e ∙ top-append_one xs a in
    rw (pressed, dismiss_top_back_layer)
      (
        (unregister-layers a s h).0
            ∙ rw e (
                filter-append (λ b. not (b == a)) xs (a ∷ [])
                ∙ ground (
                  arith,
                  without-absent a xs,
                  Distinct-last xs a (rw e at h.distinct),
                  append-nil xs,
                )),
        refl,
      )

top-none : (xs : List ℕ) → top xs ≡ none → xs ≡ []
unfolding top
top-none [] h = refl
top-none (x ∷ []) h = cc
top-none (x ∷ y ∷ xs) h = cc (top-none (y ∷ xs) h)

-- A back press is passed on exactly when there is no layer, whatever a dismissed owner does.
pub dismiss_top-false_iff :
    (s : BackLayers) (dismiss : Dismiss)
    → ((dismiss_top_back_layer dismiss s).1 ≡ false) ↔ (s.layers ≡ [])
unfolding dismiss_top_back_layer top
dismiss_top-false_iff s dismiss =
    (λ h. top-none s.layers (ground arith), λ e. rw (e, dismiss_top_back_layer))
