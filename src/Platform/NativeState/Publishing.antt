-- ===== src/Platform/NativeState/Publishing.antt =====
-- Subscribers are told of every change and of nothing else.
use ledgerly_app.Base.{
  ℕ, ◌≡◌, ◌↔◌, ◌≢◌, Bool, true, Option, none, some, ◌++◌, arith, has, nat_eq, text_eq, Bool-cases,
  Option-cases, get, inl, inr, nat_beq_iff, text_beq_iff,
}
use ledgerly_app.Base.Tokens.{Distinct, Distinct-append_absent, Distinct-without}
use ledgerly_app.Platform.NativeState.{
  NetworkState, KeyboardState, NativeAppState, Store, initial, same_network, same_keyboard, publish,
  publish_network_state, publish_native_keyboard_state, subscribe_native_app_state, unsubscribe,
  bool_eq,
}

bool_eq_iff : (a b : Bool) → (bool_eq a b ≡ true) ↔ (a ≡ b)
bool_eq_iff a b = ground arith

same_network_iff : (a b : NetworkState) → (same_network a b ≡ true) ↔ (a ≡ b)
unfolding same_network
same_network_iff a b =
    ground
      (arith, bool_eq_iff a.connected b.connected, text_beq_iff a.connection_type b.connection_type)

same_keyboard_iff : (a b : Option KeyboardState) → (same_keyboard a b ≡ true) ↔ (a ≡ b)
unfolding same_keyboard
same_keyboard_iff none none = ground arith
same_keyboard_iff none (some b) = ground arith
same_keyboard_iff (some a) none = ground arith
same_keyboard_iff (some a) (some b) =
    ground (arith, bool_eq_iff a.open_now b.open_now, nat_beq_iff a.height b.height)

-- After a state is published it is the current one; the current listeners are called, each in its
-- turn, exactly if it differs from the one before, and who listens does not change.
pub publish_lem :
    (next : NativeAppState) (s : Store)
    → ((publish next s).snapshot ≡ next)
      × (s.snapshot ≡ next → publish next s ≡ s)
      × (s.snapshot ≢ next → (publish next s).notified ≡ s.notified ++ s.listeners)
      × ((publish next s).listeners ≡ s.listeners)
unfolding publish
publish_lem next s = ground (
  arith,
  same_network_iff s.snapshot.network next.network,
  same_keyboard_iff s.snapshot.native_keyboard next.native_keyboard,
)

-- What can be done to the store.
pub data Step (s : Store) : Store → Type 0 where
  network_changes : (state : NetworkState) → Step s (publish_network_state state s)
  keyboard_changes : (state : Option KeyboardState) → Step s (publish_native_keyboard_state state s)
  subscribes : (listener : ℕ) → Step s (subscribe_native_app_state listener s).0
  unsubscribes : (closure : ℕ) → Step s (unsubscribe closure s)

pub data Reach (s : Store) : Store → Type 0 where
  here : Reach s s
  next : {t u : Store} → Reach s t → Step t u → Reach s u

unsubscribe-Distinct :
    (a : ℕ) (s : Store) → Distinct s.listeners → Distinct (unsubscribe a s).listeners
unfolding unsubscribe
unsubscribe-Distinct a s d = elim (Option-cases (get a s.subscribed)) [
  | inl gone ↦ rw (gone, unsubscribe) d
  | inr (l, live) ↦ rw (live, unsubscribe) (Distinct-without l s.listeners d)
]

subscribe-Distinct :
    (l : ℕ) (s : Store)
    → Distinct s.listeners
    → Distinct (subscribe_native_app_state l s).0.listeners
unfolding subscribe_native_app_state
subscribe-Distinct l s d = elim (Bool-cases (has l s.listeners)) [
  | inl known ↦ rw known d
  | inr fresh ↦ rw fresh (Distinct-append_absent l s.listeners fresh d)
]

publish-Distinct :
    (n : NativeAppState) (s : Store) → Distinct s.listeners → Distinct (publish n s).listeners
publish-Distinct n s d = rw (publish_lem n s).3 d

Step-Distinct : {s t : Store} → Distinct s.listeners → Step s t → Distinct t.listeners
unfolding publish_network_state publish_native_keyboard_state
Step-Distinct {s} d (network_changes state) = publish-Distinct _ s d
Step-Distinct {s} d (keyboard_changes state) = publish-Distinct _ s d
Step-Distinct {s} d (subscribes listener) = subscribe-Distinct listener s d
Step-Distinct {s} d (unsubscribes closure) = unsubscribe-Distinct closure s d

-- However components subscribe and unsubscribe, no listener stands twice, so that a change calls
-- each at most once.
pub Reach-Distinct : {s : Store} → Reach initial s → Distinct s.listeners
Reach-Distinct here = tt
Reach-Distinct (next r st) = Step-Distinct (Reach-Distinct r) st

-- A network state is published without touching the keyboard's, and the other way round.
pub publish_parts :
    (network : NetworkState) (keyboard : Option KeyboardState) (s : Store)
    → ((publish_network_state network s).snapshot
        ≡ record { network = network; native_keyboard = s.snapshot.native_keyboard })
      × ((publish_native_keyboard_state keyboard s).snapshot
          ≡ record { network = s.snapshot.network; native_keyboard = keyboard })
unfolding publish_network_state publish_native_keyboard_state
publish_parts network keyboard s = ((publish_lem _ s).0, (publish_lem _ s).0)
