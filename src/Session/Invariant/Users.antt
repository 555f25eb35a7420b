-- ===== src/Session/Invariant/Users.antt =====
-- Starting, entering the demo, signing in and out keep the invariant.
use ledgerly_app.Base.{
  ◌≡◌, ◌≢◌, refl, Bool, true, false, ◌||◌, Option, none, some, List, Text, arith, inl, inr,
  Bool-cases, Option-cases, if◌then◌else◌, text_eq, ℕ,
}
use ledgerly_app.Session.Pins.{is_digest}
use ledgerly_app.Session.Stored.{
  Workspace, Stored, read_stored, select_available_workspace, stored_app_pin_hash,
  stored_default_workspace_id, digest_or_none,
}
use ledgerly_app.Session.App.{
  App, unlocked, locked, initial, remembered_session, demo_workspaces, default_demo_workspace,
  select_demo_workspace, or_workspace, listed, gate_for, restore_remembered_api_token,
}
use ledgerly_app.Session.Login.{
  LoginRequest, app_of, clear_api_token, clear_queries, complete_login, finish_login, next_digest,
  remember_session, gate_after, start_session, sign_out, enter_demo,
}
use ledgerly_app.Session.Invariant.Selection.{Among, select_available_workspace-Among}
use ledgerly_app.Session.Invariant.Sound.{IsSound}

or_workspace-Among :
    (o : Option Workspace) (w : Workspace) (ws : List Workspace)
    → ((v : Workspace) → o ≡ some v → Among v ws)
    → Among w ws
    → Among (or_workspace o w) ws
or_workspace-Among none w ws h k = k
or_workspace-Among (some v) w ws h k = h v refl

pub select_demo_workspace-Among :
    (preferred : Option Workspace) (id : Text)
    → Among (select_demo_workspace preferred id) demo_workspaces
select_demo_workspace-Among preferred id =
    or_workspace-Among (select_available_workspace demo_workspaces preferred id)
      default_demo_workspace demo_workspaces
      (λ v e. select_available_workspace-Among demo_workspaces preferred id e) (inl refl)

digest_or_none-some :
    (o : Option Text) (digest : Text) → digest_or_none o ≡ some digest → is_digest digest ≡ true
digest_or_none-some none digest h = ground arith
digest_or_none-some (some d) digest h = ground arith

abbrev pub IsStored : Stored → Type 0
IsStored s = remembered_session s ≡ true → (w : Workspace) × (s.workspace ≡ some w)

shown_at_start :
    (s : Stored)
    → IsStored s
    → (read_stored s.demo false || remembered_session s) ≡ true
    → Among
        (if read_stored s.demo false
          then select_demo_workspace s.workspace (stored_default_workspace_id s)
          else or_workspace s.workspace default_demo_workspace)
        (if read_stored s.demo false then demo_workspaces else listed s.workspace)
shown_at_start s h e = elim (Bool-cases (read_stored s.demo false)) [
  | inl k ↦ rw k (select_demo_workspace-Among s.workspace (stored_default_workspace_id s))
  | inr k ↦ rw (k, (h (ground arith)).1) (inl refl)
]

lock_at_start :
    (s : Stored)
    → (if read_stored s.demo false
        then unlocked
        else if remembered_session s
        then gate_for (stored_app_pin_hash s)
        else unlocked)
      ≡ locked
    → (digest : Text) × ((if remembered_session s then stored_app_pin_hash s else none)
        ≡ some digest)
      × (is_digest digest ≡ true)
lock_at_start s e = elim (Option-cases (stored_app_pin_hash s)) [
  | inl k ↦ ground arith
  | inr k ↦ (k.0, ground arith, digest_or_none-some s.app_pin_hash k.0 k.1)
]

pub initial-IsSound :
    (to_upper_case : Text → Text) (s : Stored) → IsStored s → IsSound (initial to_upper_case s)
unfolding initial restore_remembered_api_token
initial-IsSound to_upper_case s h = record {
  shown = λ e. shown_at_start s h e;
  demo_is_open = λ e. ground arith;
  signed_out_is_bare = λ e. ground arith;
  demo_is_stored = refl;
  lock_has_digest = λ e. lock_at_start s e;
  restored = λ e. (ground arith, h e);
}

pub sign_out-IsSound : (app : App) → IsSound (sign_out app)
unfolding sign_out
sign_out-IsSound app = record {
  shown = λ e. ground arith;
  demo_is_open = λ e. ground arith;
  signed_out_is_bare = λ e. (refl, refl);
  demo_is_stored = refl;
  lock_has_digest = λ e. ground arith;
  restored = λ e. ground arith;
}

pub enter_demo-IsSound :
    (to_upper_case : Text → Text) (app : App) → IsSound (enter_demo to_upper_case app)
unfolding enter_demo
enter_demo-IsSound to_upper_case app = record {
  shown = λ e.
      select_demo_workspace-Among app.stored.workspace (stored_default_workspace_id app.stored);
  demo_is_open = λ e. (refl, refl, refl);
  signed_out_is_bare = λ e. ground arith;
  demo_is_stored = refl;
  lock_has_digest = λ e. ground arith;
  restored = λ e. ground arith;
}

gate_after-unlocked :
    (remembered : Bool) (digest : Option Text) → gate_after remembered digest ≢ locked
gate_after-unlocked true none h = ground arith
gate_after-unlocked true (some digest) h = ground arith
gate_after-unlocked false digest h = ground arith

remember_session-demo :
    (remembered : Bool) (request : LoginRequest) (digest : Option Text) (s : Stored)
    → (remember_session remembered request digest s).demo ≡ s.demo
remember_session-demo true request digest s = refl
remember_session-demo false request digest s = refl

remember_session-workspace :
    (remembered : Bool) (request : LoginRequest) (digest : Option Text) (s : Stored)
    → (remember_session remembered request digest s).workspace ≡ s.workspace
remember_session-workspace true request digest s = refl
remember_session-workspace false request digest s = refl

pub start_session-IsSound :
    (to_upper_case : Text → Text) (request : LoginRequest) (ws : List Workspace) (w : Workspace)
    (digest : Option Text) (app : App)
    → Among w ws
    → IsSound (start_session to_upper_case request ws w digest app)
unfolding start_session
start_session-IsSound to_upper_case request ws w digest app h = record {
  shown = λ e. h;
  demo_is_open = λ e. ground arith;
  signed_out_is_bare = λ e. ground arith;
  demo_is_stored = rw (remember_session-demo request.remember_device request digest _) refl;
  lock_has_digest = λ e. absurd (gate_after-unlocked request.remember_device digest e);
  restored = λ e. (refl, (w, remember_session-workspace request.remember_device request digest _));
}

-- A login that fails takes the token away from whoever is signed in.
pub bare-IsSound : (app : App) → IsSound app → IsSound (clear_api_token (clear_queries app))
bare-IsSound app h = record {
  shown = h.shown;
  demo_is_open = λ e. ((h.demo_is_open e).0, (h.demo_is_open e).1, refl);
  signed_out_is_bare = λ e. ((h.signed_out_is_bare e).0, refl);
  demo_is_stored = h.demo_is_stored;
  lock_has_digest = h.lock_has_digest;
  restored = h.restored;
}

finish_login-IsSound :
    (to_upper_case : Text → Text) (request : LoginRequest) (ws : List Workspace)
    (o : Option Workspace) (digest : Option (Option Text)) (app : App)
    → ((w : Workspace) → o ≡ some w → Among w ws)
    → IsSound app
    → IsSound (app_of (finish_login to_upper_case request ws o digest app))
finish_login-IsSound to_upper_case request ws none digest app h k = bare-IsSound app k
finish_login-IsSound to_upper_case request ws (some w) none app h k = bare-IsSound app k
finish_login-IsSound to_upper_case request ws (some w) (some digest) app h k =
    start_session-IsSound to_upper_case request ws w digest app (h w refl)

pub complete_login-IsSound :
    (to_upper_case : Text → Text) (sha256 : Text → List ℕ) (works : Bool) (request : LoginRequest)
    (answer : Option (List Workspace)) (app : App)
    → IsSound app
    → IsSound (app_of (complete_login to_upper_case sha256 works request answer app))
unfolding complete_login
complete_login-IsSound to_upper_case sha256 works request none app h = bare-IsSound app h
complete_login-IsSound to_upper_case sha256 works request (some ws) app h =
    finish_login-IsSound to_upper_case request ws _ (next_digest sha256 works request app.stored)
      app
      (λ w e.
        select_available_workspace-Among ws app.stored.workspace
          (stored_default_workspace_id app.stored) e)
      h
