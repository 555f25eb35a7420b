-- ===== src/Session/App.antt =====
-- The state of `AppProvider`, and how it starts from what is stored. The rendering is left out, and
-- with it the resolved theme.
use ledgerly_app.Base.{
  ℕ, Bool, true, false, not, ◌&&◌, ◌||◌, Option, none, some, List, [], ◌∷◌, Text, codes,
  if◌then◌else◌,
}
use ledgerly_app.Session.Stored.{
  Workspace, CurrentUser, Theme, Stored, read_stored, is_full, stored_remember, stored_user_id,
  stored_default_workspace_id, stored_app_pin_hash, stored_theme, stored_preferred_currency,
  select_available_workspace, normalize_currency,
}

abbrev pub demo_user_name : Text
demo_user_name = codes "Aarav Sharma"

abbrev pub demo_user_id : Text
demo_user_id = codes "demo-current-user"

abbrev pub demo_current_user : CurrentUser
demo_current_user = record {
  email = codes "aarav@example.test";
  name = demo_user_name;
  locale = codes "en-IN";
  preferred_currency = codes "INR";
  email_verified = true;
}

abbrev pub default_demo_workspace : Workspace
default_demo_workspace = record {
  id = codes "personal";
  name = codes "My money";
  workspace_type = codes "personal";
  role = codes "owner";
  member_count = 1;
  currency = none;
}

abbrev pub demo_workspaces : List Workspace
demo_workspaces =
    default_demo_workspace
    ∷ record {
      id = codes "family";
      name = codes "Sharma family";
      workspace_type = codes "family";
      role = codes "admin";
      member_count = 4;
      currency = none;
    }
    ∷ record {
      id = codes "office";
      name = codes "Fieldwork studio";
      workspace_type = codes "office";
      role = codes "member";
      member_count = 12;
      currency = none;
    }
    ∷ []

pub data DeviceAccessState : Type 0 where
  unlocked setup locked : DeviceAccessState

-- `needs_refresh` is restoredSessionNeedsRefreshRef, `api_token` the bearer token of the API client,
-- and `cleared` counts the calls of `queryClient.clear()`.
pub record App : Type 0 where
  pub demo_mode : Bool
  pub is_authenticated : Bool
  pub user_name : Text
  pub current_user : CurrentUser
  pub user_id : Text
  pub workspace : Workspace
  pub available_workspaces : List Workspace
  pub default_workspace_id : Text
  pub preferred_currency : Text
  pub privacy_mode : Bool
  pub theme : Theme
  pub app_pin_digest : Option Text
  pub device_access : DeviceAccessState
  pub needs_refresh : Bool
  pub api_token : Text
  pub cleared : ℕ
  pub stored : Stored

abbrev pub or_workspace : Option Workspace → Workspace → Workspace
or_workspace none w = w
or_workspace (some v) w = v

-- The demo has workspaces, so that the last argument is not met.
abbrev pub select_demo_workspace : Option Workspace → Text → Workspace
select_demo_workspace preferred default_workspace_id =
    or_workspace (select_available_workspace demo_workspaces preferred default_workspace_id)
      default_demo_workspace

abbrev pub listed : Option Workspace → List Workspace
listed none = []
listed (some w) = w ∷ []

abbrev pub text_of : Option Text → Text
text_of none = []
text_of (some s) = s

-- `restoreRememberedApiToken`, which runs before the application is rendered.
unfoldable pub restore_remembered_api_token : Stored → Text
restore_remembered_api_token s =
    if is_full s.auth_token && stored_remember s && not (read_stored s.demo false)
    then text_of s.auth_token
    else []

abbrev pub remembered_session : Stored → Bool
remembered_session s = not (read_stored s.demo false) && stored_remember s && is_full s.auth_token

abbrev pub gate_for : Option Text → DeviceAccessState
gate_for none = setup
gate_for (some digest) = locked

module _ (to_upper_case : Text → Text) where
  abbrev pub stored_profile : Stored → CurrentUser
  stored_profile s = read_stored s.user_profile (record {
    email = [];
    name = read_stored s.user_name [];
    locale = codes "en-IN";
    preferred_currency = stored_preferred_currency to_upper_case s;
    email_verified = false;
  })

  -- The start of the application.
  unfoldable pub initial : Stored → App
  unfolding restore_remembered_api_token select_available_workspace normalize_currency
  initial s =
      let demo = read_stored s.demo false in
      let remembered = remembered_session s in
      record {
        demo_mode = demo;
        is_authenticated = demo || remembered;
        user_name = read_stored s.user_name demo_user_name;
        current_user = if demo then demo_current_user else stored_profile s;
        user_id = if demo then demo_user_id else if stored_remember s then stored_user_id s else [];
        workspace =
            if demo
            then select_demo_workspace s.workspace (stored_default_workspace_id s)
            else or_workspace s.workspace default_demo_workspace;
        available_workspaces = if demo then demo_workspaces else listed s.workspace;
        default_workspace_id = stored_default_workspace_id s;
        preferred_currency = stored_preferred_currency to_upper_case s;
        privacy_mode = read_stored s.privacy false;
        theme = stored_theme s;
        app_pin_digest = if remembered then stored_app_pin_hash s else none;
        device_access =
            if demo
            then unlocked
            else if remembered
            then gate_for (stored_app_pin_hash s)
            else unlocked;
        needs_refresh = remembered;
        api_token = restore_remembered_api_token s;
        cleared = 0;
        stored = s;
      }

abbrev pub is_unlocked : DeviceAccessState → Bool
is_unlocked unlocked = true
is_unlocked _ = false

-- `shouldGateDeviceAccess`: the gate stands in place of the application.
abbrev pub is_gated : App → Bool
is_gated app = not app.demo_mode && app.is_authenticated && not (is_unlocked app.device_access)
