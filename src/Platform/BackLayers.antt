-- ===== src/Platform/BackLayers.antt =====
-- web/src/platform/back-layer-stack.ts: the stack of layers that a back press closes.
-- A layer object is an address; `registered` holds the closures' flags that are still true.
pub mod Order
use ledgerly_app.Base.{
  ℕ, suc, ◌+◌, Bool, true, false, not, Option, none, some, List, [], ◌∷◌, ◌++◌, filter, has, ◌==◌,
  nat_eq, if◌then◌else◌,
}

pub record BackLayers : Type 0 where
  pub layers : List ℕ
  pub registered : List ℕ
  pub next : ℕ

abbrev pub no_layers : BackLayers
no_layers = record { layers = []; registered = []; next = 0 }

-- `registerBackLayer`: the layer's address also stands for the closure that is returned.
unfoldable pub register_back_layer : BackLayers → BackLayers × ℕ
register_back_layer s = (
  record s {
    layers = s.layers ++ s.next ∷ [];
    registered = s.next ∷ s.registered;
    next = s.next + 1;
  },
  s.next,
)

-- `layers.splice(layers.lastIndexOf(layer), 1)`, where the index is not -1
unfoldable pub remove_last : ℕ → List ℕ → List ℕ
remove_last a [] = []
remove_last a (x ∷ xs) = if has a xs then x ∷ remove_last a xs else if x == a then xs else x ∷ xs

-- The closure that `registerBackLayer` returns.
unfoldable pub unregister : ℕ → BackLayers → BackLayers
unfolding remove_last has
unregister a s = if not (has a s.registered) then s else record s {
  registered = filter (λ b. not (b == a)) s.registered;
  layers = if has a s.layers then remove_last a s.layers else s.layers;
}

-- `layers.at(-1)`
unfoldable pub top : List ℕ → Option ℕ
top [] = none
top (x ∷ []) = some x
top (_ ∷ y ∷ xs) = top (y ∷ xs)

-- What a dismissed layer's owner does to the stack; it may also throw.
abbrev pub Dismiss : Type 0
Dismiss = ℕ → BackLayers → BackLayers × Bool

-- `dismissTopBackLayer`: the flag of an exception is dropped by the `catch`.
unfoldable pub dismiss_top_back_layer : Dismiss → BackLayers → BackLayers × Bool
unfolding top
dismiss_top_back_layer dismiss s = elim (top s.layers) [
  | none ↦ (s, false)
  | some a ↦ ((dismiss a s).0, true)
]
