-- ===== src/Session/Login.antt =====
-- Entering the demo, logging in, signing out, and the preferences of the user.
use ledgerly_app.Base.{
  suc, Bool, true, false, ◌&&◌, Option, none, some, List, [], Text, codes, ◌==◌, text_eq,
  if◌then◌else◌, ℕ,
}
use ledgerly_app.Session.Pins.{hash_device_pin}
use ledgerly_app.Session.Stored.{
  Workspace, CurrentUser, Theme, Stored, read_stored, is_full, default_currency, normalize_currency,
  stored_user_id, stored_default_workspace_id, stored_app_pin_hash, select_available_workspace,
}
use ledgerly_app.Session.App.{
  text_of, App, DeviceAccessState, unlocked, setup, demo_user_name, demo_user_id, demo_current_user,
  default_demo_workspace, demo_workspaces, select_demo_workspace,
}

-- The bearer token of the API client; `clearApiToken` also empties that client's cache of vaults, of which
-- `ApiClient.Vaults` has the model.
abbrev pub clear_api_token : App → App
clear_api_token app = record app { api_token = [] }

abbrev pub clear_queries : App → App
clear_queries app = record app { cleared = suc app.cleared }

-- `signOut`
unfoldable pub sign_out : App → App
sign_out app = record app {
  cleared = suc app.cleared;
  is_authenticated = false;
  demo_mode = false;
  user_id = [];
  user_name = demo_user_name;
  current_user = demo_current_user;
  workspace = default_demo_workspace;
  available_workspaces = [];
  default_workspace_id = [];
  preferred_currency = default_currency;
  app_pin_digest = none;
  device_access = unlocked;
  api_token = [];
  stored = record (app.stored) {
    demo = none;
    user_name = none;
    user_profile = none;
    workspace = none;
    auth_token = none;
    user_id = none;
    remember = none;
    default_workspace_id = none;
    app_pin_hash = none;
    preferred_currency = none;
  };
}

-- How a login ends: by an exception, the API's or its own, or by a session.
pub data LoginResult : Type 0 where
  logged_in : App → LoginResult
  login_failed : App → LoginResult

abbrev pub app_of : LoginResult → App
app_of (logged_in app) = app
app_of (login_failed app) = app

-- What is given to `completeLogin`: a missing `rememberDevice` is true.
pub record LoginRequest : Type 0 where
  pub user_id : Text
  pub name : Text
  pub token : Text
  pub remember_device : Bool
  pub preferred_currency : Option Text
  pub app_pin : Option Text

abbrev pub kept_pin : Stored → LoginRequest → Option Text
kept_pin s request =
    if request.remember_device && stored_user_id s == request.user_id
    then stored_app_pin_hash s
    else none

abbrev pub gate_after : Bool → Option Text → DeviceAccessState
gate_after true none = setup
gate_after _ _ = unlocked

-- What is stored of a session that is remembered, and of one that is not.
abbrev pub remember_session : Bool → LoginRequest → Option Text → Stored → Stored
remember_session true request digest s = record s {
  auth_token = some request.token;
  user_id = some request.user_id;
  remember = some true;
  app_pin_hash = digest;
}
remember_session false request digest s = record s {
  auth_token = none;
  user_id = none;
  remember = none;
  app_pin_hash = none;
}

abbrev pub refused : App → LoginResult
refused app = login_failed (clear_api_token (clear_queries app))

module _ (to_upper_case : Text → Text) where
  abbrev pub workspace_currency : Workspace → Text
  workspace_currency w = normalize_currency to_upper_case w.currency default_currency

  -- `enterDemo`
  unfoldable pub enter_demo : App → App
  unfolding normalize_currency select_available_workspace
  enter_demo app =
      let next_workspace =
        select_demo_workspace app.stored.workspace (stored_default_workspace_id app.stored) in
      let next_currency =
        normalize_currency to_upper_case
          (some (
            read_stored app.stored.preferred_currency
              (read_stored next_workspace.currency default_currency)))
          (workspace_currency next_workspace) in
      record app {
        cleared = suc app.cleared;
        api_token = [];
        available_workspaces = demo_workspaces;
        workspace = next_workspace;
        user_id = demo_user_id;
        user_name = demo_user_name;
        current_user = demo_current_user;
        demo_mode = true;
        is_authenticated = true;
        app_pin_digest = none;
        device_access = unlocked;
        preferred_currency = next_currency;
        stored = record (app.stored) {
          user_name = some demo_user_name;
          workspace = some next_workspace;
          demo = some true;
          preferred_currency = some next_currency;
        };
      }

  abbrev pub profile_for : LoginRequest → Text → CurrentUser
  profile_for request currency = record {
    email = [];
    name = request.name;
    locale = codes "en-IN";
    preferred_currency = currency;
    email_verified = false;
  }

  -- The part of `completeLogin` behind its awaits.
  unfoldable pub start_session : LoginRequest → List Workspace → Workspace → Option Text → App → App
  unfolding normalize_currency
  start_session request real_workspaces next_workspace next_pin_digest app =
      let currency =
        normalize_currency to_upper_case request.preferred_currency
          (workspace_currency next_workspace) in
      record app {
        cleared = suc app.cleared;
        api_token = request.token;
        user_id = request.user_id;
        user_name = request.name;
        available_workspaces = real_workspaces;
        workspace = next_workspace;
        demo_mode = false;
        is_authenticated = true;
        app_pin_digest = next_pin_digest;
        device_access = gate_after request.remember_device next_pin_digest;
        current_user = profile_for request currency;
        preferred_currency = currency;
        stored =
            remember_session request.remember_device request next_pin_digest (record (app.stored) {
              demo = none;
              user_name = some request.name;
              user_profile = some (profile_for request currency);
              workspace = some next_workspace;
              preferred_currency = some currency;
            });
      }

  -- `next_pin_digest` is none where hashing throws.
  abbrev pub finish_login :
      LoginRequest → List Workspace → Option Workspace → Option (Option Text) → App → LoginResult
  finish_login request real_workspaces (some next_workspace) (some next_pin_digest) app =
      logged_in (start_session request real_workspaces next_workspace next_pin_digest app)
  finish_login request real_workspaces _ _ app = refused app

  unfoldable pub set_preferred_currency : Text → App → App
  unfolding normalize_currency
  set_preferred_currency next app =
      let currency = normalize_currency to_upper_case (some next) default_currency in
      record app {
        preferred_currency = currency;
        stored = record (app.stored) { preferred_currency = some currency };
      }

  unfoldable pub set_current_user : CurrentUser → App → App
  unfolding normalize_currency
  set_current_user next app =
      let currency =
        normalize_currency to_upper_case (some next.preferred_currency) default_currency in
      record app {
        current_user = next;
        user_name = next.name;
        preferred_currency = currency;
        stored = record (app.stored) {
          user_name = some next.name;
          user_profile = some (record next { preferred_currency = currency });
          preferred_currency = some currency;
        };
      }

module _ (sha256 : Text → List ℕ) where
  -- `works` is false where the hash of a text cannot be computed.
  abbrev pub next_digest : Bool → LoginRequest → Stored → Option (Option Text)
  next_digest works request s =
      if request.remember_device && is_full request.app_pin
      then elim (if works then hash_device_pin sha256 (text_of request.app_pin) else none) [
        | none ↦ none
        | some digest ↦ some (some digest)
      ]
      else some (kept_pin s request)

module _ (to_upper_case : Text → Text) (sha256 : Text → List ℕ) where
  -- `completeLogin`; `answer` is what the API returns for the workspaces, none where it throws. With no
  -- workspaces there is none to select.
  unfoldable pub complete_login : Bool → LoginRequest → Option (List Workspace) → App → LoginResult
  unfolding start_session select_available_workspace hash_device_pin
  complete_login works request none app = refused app
  complete_login works request (some real_workspaces) app =
      finish_login to_upper_case request real_workspaces
        (select_available_workspace real_workspaces app.stored.workspace
          (stored_default_workspace_id app.stored))
        (next_digest sha256 works request app.stored) app

unfoldable pub set_privacy_mode : Bool → App → App
set_privacy_mode enabled app = record app {
  privacy_mode = enabled;
  stored = record (app.stored) { privacy = some enabled };
}

unfoldable pub set_theme : Theme → App → App
set_theme next app = record app { theme = next; stored = record (app.stored) { theme = some next } }
