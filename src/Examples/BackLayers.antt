-- ===== src/Examples/BackLayers.antt =====
-- The stack of back layers in a short session.
use ledgerly_app.Base.{◌≡◌, refl, true, [], ◌∷◌}
use ledgerly_app.Platform.BackLayers.{
  BackLayers, no_layers, register_back_layer, unregister, dismiss_top_back_layer,
}
use ledgerly_app.Platform.BackLayers.Order.{
  IsConsistent, Reach, here, next, registers, Reach-IsConsistent, dismiss_top-last,
}

abbrev menu_and_dialog : BackLayers
menu_and_dialog = (register_back_layer (register_back_layer no_layers).0).0

opened : Reach no_layers menu_and_dialog
opened = next (next here registers) registers

Reach-IsConsistent_example : IsConsistent menu_and_dialog
Reach-IsConsistent_example = Reach-IsConsistent opened

menu_left : (unregister 0 menu_and_dialog).layers ≡ 1 ∷ []
unfolding unregister register_back_layer
menu_left = refl

stacked : menu_and_dialog.layers ≡ 0 ∷ 1 ∷ []
unfolding register_back_layer
stacked = refl

dismiss_top-last_example :
    ((dismiss_top_back_layer (λ b t. (unregister b t, true)) menu_and_dialog).0.layers ≡ 0 ∷ [])
    × ((dismiss_top_back_layer (λ b t. (unregister b t, true)) menu_and_dialog).1 ≡ true)
dismiss_top-last_example =
    dismiss_top-last menu_and_dialog (0 ∷ []) 1 (λ _. true) (Reach-IsConsistent opened) stacked
