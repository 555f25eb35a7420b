-- ===== src/Session/Invariant/Devices.antt =====
-- Choosing, refreshing and deleting workspaces, and the gate, keep the invariant.
use ledgerly_app.Base.{
  ◌≡◌, ◌≢◌, refl, Bool, true, false, Option, none, some, List, [], ◌∷◌, Text, arith, if◌then◌else◌,
  ℕ,
}
use ledgerly_app.Session.Pins.{validate_device_pin, verify_device_pin}
use ledgerly_app.Session.Stored.{Workspace, find_workspace, select_available_workspace}
use ledgerly_app.Session.App.{App, unlocked}
use ledgerly_app.Session.Login.{clear_queries}
use ledgerly_app.Session.Workspaces.{
  refresh_workspaces, app_after, restore_effect, restore_is_due, after_delete, delete_workspace,
  set_workspace, set_default_workspace, show_workspace, show_as_default, keep_default,
  refreshed_workspace, next_default, preferred_after,
}
use ledgerly_app.Session.Gate.{
  Gate, submit, submit_pin, try_pin, set_up, unlock, say, is_setup, is_missing, digest_text,
  configure_device_pin, unlock_device,
}
use ledgerly_app.Session.Invariant.Selection.{
  Among, select-some, find_workspace-Among, select_available_workspace-Among,
}
use ledgerly_app.Session.Invariant.Sound.{IsSound}
use ledgerly_app.Session.Invariant.Users.{sign_out-IsSound}

choice-IsSound : (b : Bool) (x y : App) → IsSound x → IsSound y → IsSound (if b then x else y)
choice-IsSound true x y h k = h
choice-IsSound false x y h k = k

show-IsSound :
    (app : App) (w : Workspace) (ws : List Workspace)
    → Among w ws
    → IsSound app
    → IsSound (show_workspace (some w) (record app { available_workspaces = ws }))
show-IsSound app w ws k h = record {
  shown = λ e. k;
  demo_is_open = h.demo_is_open;
  signed_out_is_bare = h.signed_out_is_bare;
  demo_is_stored = h.demo_is_stored;
  lock_has_digest = h.lock_has_digest;
  restored = λ e. ((h.restored e).0, (w, refl));
}

show_found-IsSound :
    (o : Option Workspace) (app : App)
    → ((w : Workspace) → o ≡ some w → Among w app.available_workspaces)
    → IsSound app
    → IsSound (show_workspace o app)
show_found-IsSound none app k h = h
show_found-IsSound (some w) app k h = show-IsSound app w app.available_workspaces (k w refl) h

pub set_workspace-IsSound :
    (next : Workspace) (app : App) → IsSound app → IsSound (set_workspace next app)
unfolding set_workspace
set_workspace-IsSound next app h =
    show_found-IsSound (find_workspace next.id app.available_workspaces) app
      (λ w e. find_workspace-Among next.id app.available_workspaces e) h

show_default-IsSound :
    (o : Option Workspace) (app : App)
    → ((w : Workspace) → o ≡ some w → Among w app.available_workspaces)
    → IsSound app
    → IsSound (show_as_default o app)
show_default-IsSound none app k h = h
show_default-IsSound (some w) app k h =
    show-IsSound (keep_default w.id app) w app.available_workspaces (k w refl) h

pub set_default_workspace-IsSound :
    (next : Workspace) (app : App) → IsSound app → IsSound (set_default_workspace next app)
unfolding set_default_workspace
set_default_workspace-IsSound next app h =
    show_default-IsSound (find_workspace next.id app.available_workspaces) app
      (λ w e. find_workspace-Among next.id app.available_workspaces e) h

IsSelected : List Workspace → Option Workspace → Type 0
IsSelected ws o = (o ≢ none) × ((w : Workspace) → o ≡ some w → Among w ws)

select-IsSelected :
    (w : Workspace) (ws : List Workspace) (preferred : Option Workspace) (id : Text)
    → IsSelected (w ∷ ws) (select_available_workspace (w ∷ ws) preferred id)
unfolding IsSelected
select-IsSelected w ws preferred id =
    (select-some w ws preferred id, λ v e. select_available_workspace-Among (w ∷ ws) preferred id e)

selected-IsSound :
    (o : Option Workspace) (ws : List Workspace) (app : App)
    → IsSelected ws o
    → IsSound app
    → IsSound (show_workspace o (record app { available_workspaces = ws }))
unfolding IsSelected
selected-IsSound none ws app k h = absurd (k.0 refl)
selected-IsSound (some w) ws app k h = show-IsSound app w ws (k.1 w refl) h

refreshed_workspace-IsSelected :
    (w : Workspace) (ws : List Workspace) (id : Text) (app : App)
    → IsSelected (w ∷ ws) (refreshed_workspace (w ∷ ws) id app)
refreshed_workspace-IsSelected w ws [] app = select-IsSelected w ws _ _
refreshed_workspace-IsSelected w ws (c ∷ id) app = select-IsSelected w ws _ _

pub refresh_workspaces-IsSound :
    (preferred_id : Text) (answer : Option (List Workspace)) (app : App)
    → IsSound app
    → IsSound (app_after (refresh_workspaces preferred_id answer app))
unfolding refresh_workspaces
refresh_workspaces-IsSound preferred_id none app h = h
refresh_workspaces-IsSound preferred_id (some []) app h = h
refresh_workspaces-IsSound preferred_id (some (w ∷ ws)) app h =
    selected-IsSound (refreshed_workspace (w ∷ ws) preferred_id app) (w ∷ ws) (clear_queries app)
      (refreshed_workspace-IsSelected w ws preferred_id app) h

pub restore_effect-IsSound :
    (answer : Option (List Workspace)) (app : App)
    → IsSound app
    → IsSound (restore_effect answer app)
unfolding restore_effect
restore_effect-IsSound answer app h =
    choice-IsSound (restore_is_due app) _ app
      (refresh_workspaces-IsSound [] answer (record app { needs_refresh = false }) h) h

after_delete-IsSound :
    (id : Text) (ws : List Workspace) (app : App) → IsSound app → IsSound (after_delete id ws app)
unfolding after_delete
after_delete-IsSound id [] app h = sign_out-IsSound (clear_queries app)
after_delete-IsSound id (w ∷ ws) app h =
    let default_id = next_default app.default_workspace_id w ws in
    selected-IsSound _ (w ∷ ws) (keep_default default_id (clear_queries app))
      (select-IsSelected w ws (preferred_after id app) default_id) h

pub delete_workspace-IsSound :
    (id : Text) (deleted : Bool) (answer : Option (List Workspace)) (app : App)
    → IsSound app
    → IsSound (delete_workspace id deleted answer app)
unfolding delete_workspace
delete_workspace-IsSound id false answer app h = h
delete_workspace-IsSound id true none app h = h
delete_workspace-IsSound id true (some ws) app h =
    choice-IsSound app.demo_mode app _ h (after_delete-IsSound id ws app h)

opened-IsSound :
    (next : App)
    → IsSound next
    → (digest : Option Text)
    → IsSound (record next { device_access = unlocked; app_pin_digest = digest })
opened-IsSound next h digest = record {
  shown = h.shown;
  demo_is_open = λ e. ((h.demo_is_open e).0, refl, (h.demo_is_open e).2);
  signed_out_is_bare = λ e. (refl, (h.signed_out_is_bare e).1);
  demo_is_stored = h.demo_is_stored;
  lock_has_digest = λ e. ground arith;
  restored = h.restored;
}

-- The gate's own part of a result does not matter.
IsKept : Gate × App → Type 0
IsKept p = IsSound p.1

choice-IsKept : (b : Bool) (p q : Gate × App) → IsKept p → IsKept q → IsKept (if b then p else q)
choice-IsKept true p q h k = h
choice-IsKept false p q h k = k

module _ (sha256 : Text → List ℕ) (app : App) (h : IsSound app) where
  set_up-IsKept : (gate : Gate) (digest : Option Text) → IsKept (set_up gate app digest)
  unfolding set_up configure_device_pin IsKept
  set_up-IsKept gate none = h
  set_up-IsKept gate (some digest) = opened-IsSound app h (some digest)

  try_pin-IsKept :
      (setting_up works : Bool) (gate : Gate) → IsKept (try_pin sha256 setting_up works gate app)
  unfolding try_pin unlock unlock_device IsKept
  try_pin-IsKept true works gate = set_up-IsKept gate _
  try_pin-IsKept false true gate =
      choice-IsKept (verify_device_pin sha256 gate.pin (digest_text app.app_pin_digest)) _ _
        (opened-IsSound app h app.app_pin_digest) h
  try_pin-IsKept false false gate = h

  submit_pin-IsKept :
      (works : Bool) (message : Option Text) (gate : Gate)
      → IsKept (submit_pin sha256 works message gate app)
  unfolding submit_pin IsKept
  submit_pin-IsKept works (some message) gate = h
  submit_pin-IsKept works none gate =
      choice-IsKept (is_setup app.device_access) _ _ (try_pin-IsKept true works (say [] gate)) (
        choice-IsKept (is_missing app.app_pin_digest) _ _ h
          (try_pin-IsKept false works (say [] gate)))

  pub submit-IsSound : (works : Bool) (gate : Gate) → IsSound (submit sha256 works gate app).1
  unfolding submit IsKept
  submit-IsSound works gate =
      choice-IsKept gate.is_submitting _ _ h
        (submit_pin-IsKept works (validate_device_pin gate.pin) gate)
