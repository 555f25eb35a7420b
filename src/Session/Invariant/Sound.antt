-- ===== src/Session/Invariant/Sound.antt =====
-- The invariant of the session, and the steps that a user and the API make of it.
use ledgerly_app.Base.{◌≡◌, Bool, true, false, Option, some, List, [], Text, text_eq, ℕ}
use ledgerly_app.Session.Pins.{is_digest}
use ledgerly_app.Session.Stored.{Workspace, CurrentUser, Theme, read_stored}
use ledgerly_app.Session.App.{
  DeviceAccessState, App, unlocked, locked, initial, remembered_session, is_gated,
}
use ledgerly_app.Session.Login.{
  LoginRequest, sign_out, enter_demo, complete_login, app_of, set_preferred_currency,
  set_current_user, set_privacy_mode, set_theme,
}
use ledgerly_app.Session.Workspaces.{
  refresh_workspaces, app_after, restore_effect, delete_workspace, set_workspace,
  set_default_workspace,
}
use ledgerly_app.Session.Gate.{Gate, submit}
use ledgerly_app.Session.Invariant.Selection.{Among}

-- In order: the workspace that is shown is one of the available ones; the demo needs neither a PIN
-- nor a token; a signed-out session keeps no token; the demo is stored as such; a lock has a digest to
-- be opened by; a session that a restart would restore is signed in, and has its workspace stored.
pub record Soundness (demo_mode is_authenticated : Bool) (workspace : Workspace)
    (available : List Workspace) (app_pin_digest : Option Text) (device_access : DeviceAccessState)
    (api_token : Text) (stored_demo remembered : Bool) (stored_workspace : Option Workspace)
    : Type 0 where
  pub shown : is_authenticated ≡ true → Among workspace available
  pub demo_is_open :
      demo_mode ≡ true → (is_authenticated ≡ true) × (device_access ≡ unlocked) × (api_token ≡ [])
  pub signed_out_is_bare : is_authenticated ≡ false → (device_access ≡ unlocked) × (api_token ≡ [])
  pub demo_is_stored : stored_demo ≡ demo_mode
  pub lock_has_digest :
      device_access ≡ locked
      → (digest : Text) × (app_pin_digest ≡ some digest) × (is_digest digest ≡ true)
  pub restored :
      remembered ≡ true
      → (is_authenticated ≡ true) × ((w : Workspace) × (stored_workspace ≡ some w))

abbrev pub IsSound : App → Type 0
IsSound app =
    Soundness app.demo_mode app.is_authenticated app.workspace app.available_workspaces
      app.app_pin_digest app.device_access app.api_token (read_stored app.stored.demo false)
      (remembered_session app.stored) app.stored.workspace

-- What a user and the API make of a session; what the API answers is any text.
pub data Step (to_upper_case : Text → Text) (sha256 : Text → List ℕ) : App → App → Type 0 where
  restart : {app : App} → Step to_upper_case sha256 app (initial to_upper_case app.stored)
  enter : {app : App} → Step to_upper_case sha256 app (enter_demo to_upper_case app)
  log_in :
      {app : App} (works : Bool) (request : LoginRequest) (answer : Option (List Workspace))
      → Step to_upper_case sha256 app
          (app_of (complete_login to_upper_case sha256 works request answer app))
  refresh :
      {app : App} (preferred_id : Text) (answer : Option (List Workspace))
      → Step to_upper_case sha256 app (app_after (refresh_workspaces preferred_id answer app))
  restore :
      {app : App} (answer : Option (List Workspace))
      → Step to_upper_case sha256 app (restore_effect answer app)
  leave : {app : App} → Step to_upper_case sha256 app (sign_out app)
  delete_one :
      {app : App} (id : Text) (deleted : Bool) (answer : Option (List Workspace))
      → Step to_upper_case sha256 app (delete_workspace id deleted answer app)
  choose : {app : App} (next : Workspace) → Step to_upper_case sha256 app (set_workspace next app)
  choose_default :
      {app : App} (next : Workspace)
      → Step to_upper_case sha256 app (set_default_workspace next app)
  submit_gate :
      {app : App} (works : Bool) (gate : Gate)
      → is_gated app ≡ true
      → Step to_upper_case sha256 app (submit sha256 works gate app).1
  hide : {app : App} (enabled : Bool) → Step to_upper_case sha256 app (set_privacy_mode enabled app)
  paint : {app : App} (next : Theme) → Step to_upper_case sha256 app (set_theme next app)
  price :
      {app : App} (next : Text)
      → Step to_upper_case sha256 app (set_preferred_currency to_upper_case next app)
  edit_user :
      {app : App} (next : CurrentUser)
      → Step to_upper_case sha256 app (set_current_user to_upper_case next app)
