-- ===== src/Session/Failures.antt =====
-- When a login fails, and what it leaves.
use ledgerly_app.Base.{
  ◌≡◌, ◌≢◌, refl, suc, Bool, true, false, not, ◌&&◌, ◌||◌, Option, none, some, List, [], ◌∷◌, Text,
  arith, Bool-cases, inl, inr, ℕ,
}
use ledgerly_app.Session.Pins.{is_pin, hash_device_pin}
use ledgerly_app.Session.Stored.{Workspace, is_full, stored_default_workspace_id, find_preferred}
use ledgerly_app.Session.App.{App}
use ledgerly_app.Session.Login.{
  LoginRequest, LoginResult, logged_in, login_failed, app_of, complete_login, finish_login,
  next_digest,
}
use ledgerly_app.Session.Invariant.Selection.{select-some}

abbrev pub has_failed : LoginResult → Bool
has_failed (logged_in app) = false
has_failed (login_failed app) = true

-- The API threw, or gave no workspace.
abbrev pub has_no_workspace : Option (List Workspace) → Bool
has_no_workspace none = true
has_no_workspace (some []) = true
has_no_workspace (some (w ∷ ws)) = false

abbrev pub given : Option Text → Text
given none = []
given (some s) = s

-- A PIN was given for a remembered device, and has not six digits or cannot be hashed.
abbrev pub has_bad_pin : Bool → LoginRequest → Bool
has_bad_pin works request =
    request.remember_device
    && is_full request.app_pin
    && not (works && is_pin (given request.app_pin))

finish_login-has_failed :
    (to_upper_case : Text → Text) (sha256 : Text → List ℕ) (works : Bool) (request : LoginRequest)
    (ws : List Workspace) (o : Option Workspace) (app : App)
    → o ≢ none
    → has_failed
        (finish_login to_upper_case request ws o (next_digest sha256 works request app.stored) app)
      ≡ has_bad_pin works request
unfolding hash_device_pin
finish_login-has_failed to_upper_case sha256 works request ws none app h = absurd (h refl)
finish_login-has_failed to_upper_case sha256 works request ws (some w) app h =
    elim (Bool-cases (request.remember_device && is_full request.app_pin)) [
      | inr a ↦ rw a refl
      | inl a ↦ elim (Bool-cases (is_pin (given request.app_pin))) [
        | inl p ↦ elim (Bool-cases works) [ inl w ↦ rw (a, p, w) refl | inr w ↦ rw (a, p, w) refl ]
        | inr p ↦ elim (Bool-cases works) [ inl w ↦ rw (a, p, w) refl | inr w ↦ rw (a, p, w) refl ]
      ]
    ]

find_preferred-nil : (o : Option Workspace) → find_preferred o [] ≡ none
find_preferred-nil none = refl
find_preferred-nil (some w) = refl

finish_login-app_of :
    (to_upper_case : Text → Text) (request : LoginRequest) (ws : List Workspace)
    (o : Option Workspace) (digest : Option (Option Text)) (app : App)
    → has_failed (finish_login to_upper_case request ws o digest app) ≡ true
    → app_of (finish_login to_upper_case request ws o digest app)
      ≡ record app { cleared = suc app.cleared; api_token = [] }
finish_login-app_of to_upper_case request ws none digest app h = refl
finish_login-app_of to_upper_case request ws (some w) none app h = refl
finish_login-app_of to_upper_case request ws (some w) (some digest) app h = ground arith

-- A login fails exactly if the API gives no workspace, or a PIN is set for a remembered device
-- that has not six digits or cannot be hashed.
pub complete_login-has_failed :
    (to_upper_case : Text → Text) (sha256 : Text → List ℕ) (works : Bool) (request : LoginRequest)
    (answer : Option (List Workspace)) (app : App)
    → has_failed (complete_login to_upper_case sha256 works request answer app)
      ≡ (has_no_workspace answer || has_bad_pin works request)
unfolding complete_login
complete_login-has_failed to_upper_case sha256 works request none app = refl
complete_login-has_failed to_upper_case sha256 works request (some []) app =
    rw (find_preferred-nil app.stored.workspace) refl
complete_login-has_failed to_upper_case sha256 works request (some (w ∷ ws)) app =
    finish_login-has_failed to_upper_case sha256 works request (w ∷ ws) _ app
      (select-some w ws app.stored.workspace (stored_default_workspace_id app.stored))

-- A login that fails, for whichever reason, changes nothing, on the screen or stored, but that the
-- queries are cleared once and the token of the API client is dropped.
pub complete_login-app_of_failed :
    (to_upper_case : Text → Text) (sha256 : Text → List ℕ) (works : Bool) (request : LoginRequest)
    (answer : Option (List Workspace)) (app : App)
    → has_failed (complete_login to_upper_case sha256 works request answer app) ≡ true
    → app_of (complete_login to_upper_case sha256 works request answer app)
      ≡ record app { cleared = suc app.cleared; api_token = [] }
unfolding complete_login
complete_login-app_of_failed to_upper_case sha256 works request none app h = refl
complete_login-app_of_failed to_upper_case sha256 works request (some ws) app h =
    finish_login-app_of to_upper_case request ws _ (next_digest sha256 works request app.stored) app
      h
