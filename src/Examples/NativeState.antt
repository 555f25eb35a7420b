-- ===== src/Examples/NativeState.antt =====
-- A listener of the network state.
use ledgerly_app.Base.{◌≡◌, refl, [], ◌∷◌, codes, false, true, none}
use ledgerly_app.Platform.NativeState.{
  NetworkState, KeyboardState, NativeAppState, Store, initial, publish, publish_network_state,
  subscribe_native_app_state,
}

abbrev offline : NetworkState
offline = record { connected = false; connection_type = codes "none" }

abbrev listening : Store
listening = (subscribe_native_app_state 7 initial).0

told : (publish_network_state offline listening).notified ≡ 7 ∷ []
unfolding publish_network_state publish subscribe_native_app_state
told = refl

told_once :
    (publish_network_state offline (publish_network_state offline listening)).notified ≡ 7 ∷ []
unfolding publish_network_state publish subscribe_native_app_state
told_once = refl

abbrev offline_state : NativeAppState
offline_state = record { network = offline; native_keyboard = none }

abbrev opened : KeyboardState
opened = record { open_now = true; height = 290 }
