-- ===== src/Platform/NativeState.antt =====
-- web/src/platform/native-app-state.ts: the network and keyboard state that components subscribe to.
-- A listener is a number, and a closure that `subscribeNativeAppState` returns is another; the
-- listeners that are called stand in `notified`, the last one last.
pub mod Publishing
use ledgerly_app.Base.{
  ℕ, ◌+◌, Bool, true, false, not, ◌&&◌, Option, none, some, List, [], ◌∷◌, ◌++◌, Text, codes,
  filter, has, ◌==◌, nat_eq, text_eq, if◌then◌else◌, Map, get, put, delete,
}

pub record NetworkState : Type 0 where
  pub connected : Bool
  pub connection_type : Text

pub record KeyboardState : Type 0 where
  pub open_now : Bool
  pub height : ℕ

pub record NativeAppState : Type 0 where
  pub network : NetworkState
  pub native_keyboard : Option KeyboardState

abbrev pub default_network : NetworkState
default_network = record { connected = true; connection_type = codes "unknown" }

abbrev pub server_snapshot : NativeAppState
server_snapshot = record { network = default_network; native_keyboard = none }

-- The variables of the module, and the closures that are still subscribed, with their listeners.
pub record Store : Type 0 where
  pub snapshot : NativeAppState
  pub listeners : List ℕ
  pub subscribed : Map ℕ ℕ
  pub next : ℕ
  pub notified : List ℕ

abbrev pub initial : Store
initial = record {
  snapshot = server_snapshot;
  listeners = [];
  subscribed = [];
  next = 0;
  notified = [];
}

abbrev pub bool_eq : Bool → Bool → Bool
bool_eq true b = b
bool_eq false b = not b

unfoldable pub same_network : NetworkState → NetworkState → Bool
same_network left right =
    bool_eq left.connected right.connected && left.connection_type == right.connection_type

unfoldable pub same_keyboard : Option KeyboardState → Option KeyboardState → Bool
same_keyboard none none = true
same_keyboard (some left) (some right) =
    bool_eq left.open_now right.open_now && left.height == right.height
same_keyboard _ _ = false

unfoldable pub publish : NativeAppState → Store → Store
unfolding same_network same_keyboard
publish next s =
    if same_network s.snapshot.network next.network
      && same_keyboard s.snapshot.native_keyboard next.native_keyboard
    then s
    else record s { snapshot = next; notified = s.notified ++ s.listeners }

unfoldable pub publish_network_state : NetworkState → Store → Store
publish_network_state network s =
    publish (record { network = network; native_keyboard = s.snapshot.native_keyboard }) s

unfoldable pub publish_native_keyboard_state : Option KeyboardState → Store → Store
publish_native_keyboard_state native_keyboard s =
    publish (record { network = s.snapshot.network; native_keyboard = native_keyboard }) s

abbrev pub get_native_app_state : Store → NativeAppState
get_native_app_state s = s.snapshot

-- `listeners.add(listener)`: a listener that is there is not added again.
unfoldable pub subscribe_native_app_state : ℕ → Store → Store × ℕ
unfolding has
subscribe_native_app_state listener s = (
  record s {
    listeners = if has listener s.listeners then s.listeners else s.listeners ++ listener ∷ [];
    subscribed = put s.next listener s.subscribed;
    next = s.next + 1;
  },
  s.next,
)

-- The closure that is returned, once; `listeners.delete(listener)`.
unfoldable pub unsubscribe : ℕ → Store → Store
unsubscribe closure s = elim (get closure s.subscribed) [
  | none ↦ s
  | some listener ↦ record s {
    subscribed = delete closure s.subscribed;
    listeners = filter (λ l. not (l == listener)) s.listeners;
  }
]
