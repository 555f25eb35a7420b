-- ===== src/Session/Restart.antt =====
-- What a restart finds of a session, and how a device is opened again.
use ledgerly_app.Base.{
  ◌≡◌, refl, sym, ap, true, false, not, Option, none, some, List, [], Text, arith, ℕ, Bool,
}
use ledgerly_app.Session.Stored.{
  Workspace, nothing_stored, read_stored, is_full, stored_theme, digest_or_none,
}
use ledgerly_app.Session.App.{
  App, initial, is_gated, is_unlocked, gate_for, restore_remembered_api_token,
}
use ledgerly_app.Session.Login.{
  LoginRequest, logged_in, app_of, sign_out, complete_login, finish_login, next_digest,
  start_session,
}

-- After signing out, a restart finds what it finds where nothing was ever stored, but for the privacy
-- mode and the theme.
pub sign_out-initial :
    (to_upper_case : Text → Text) (app : App)
    → initial to_upper_case (sign_out app).stored ≡ record (initial to_upper_case nothing_stored) {
      privacy_mode = read_stored app.stored.privacy false;
      theme = stored_theme app.stored;
      stored = record nothing_stored { privacy = app.stored.privacy; theme = app.stored.theme };
    }
unfolding initial sign_out restore_remembered_api_token
sign_out-initial to_upper_case app = refl

IsStart : (Text → Text) → LoginRequest → App → App → Type 0
IsStart to_upper_case request app next =
    (ws : List Workspace) × (w : Workspace) × (digest : Option Text) × (next
      ≡ start_session to_upper_case request ws w digest app)

finish_login-IsStart :
    (to_upper_case : Text → Text) (request : LoginRequest) (ws : List Workspace)
    (o : Option Workspace) (digest : Option (Option Text)) (app next : App)
    → finish_login to_upper_case request ws o digest app ≡ logged_in next
    → IsStart to_upper_case request app next
unfolding IsStart
finish_login-IsStart to_upper_case request ws none digest app next e = ground arith
finish_login-IsStart to_upper_case request ws (some w) none app next e = ground arith
finish_login-IsStart to_upper_case request ws (some w) (some digest) app next e =
    (ws, w, digest, sym (ap app_of e))

complete_login-IsStart :
    (to_upper_case : Text → Text) (sha256 : Text → List ℕ) (works : Bool) (request : LoginRequest)
    (answer : Option (List Workspace)) (app next : App)
    → complete_login to_upper_case sha256 works request answer app ≡ logged_in next
    → IsStart to_upper_case request app next
unfolding complete_login
complete_login-IsStart to_upper_case sha256 works request none app next e = ground arith
complete_login-IsStart to_upper_case sha256 works request (some ws) app next e =
    finish_login-IsStart to_upper_case request ws _ (next_digest sha256 works request app.stored)
      app next e

gate_for-closed : (o : Option Text) → not (is_unlocked (gate_for o)) ≡ true
gate_for-closed none = refl
gate_for-closed (some digest) = refl

-- What a restart makes of what a login has stored.
abbrev pub IsRestored : LoginRequest → App → App → Type 0
IsRestored request next again =
    (again.is_authenticated ≡ true)
    × (again.demo_mode ≡ false)
    × (is_gated again ≡ true)
    × (again.user_id ≡ request.user_id)
    × (again.api_token ≡ request.token)
    × (again.workspace ≡ next.workspace)
    × (again.user_name ≡ request.name)
    × (again.current_user ≡ next.current_user)

start_session-IsRestored :
    (to_upper_case : Text → Text) (request : LoginRequest) (ws : List Workspace) (w : Workspace)
    (digest : Option Text) (app : App)
    → request.remember_device ≡ true
    → is_full (some request.token) ≡ true
    → IsRestored request
        (start_session to_upper_case request ws w digest app)
        (initial to_upper_case (start_session to_upper_case request ws w digest app).stored)
unfolding start_session initial restore_remembered_api_token
start_session-IsRestored to_upper_case request ws w digest app e k =
    rw (e, k) (refl, refl, gate_for-closed (digest_or_none digest), refl, refl, refl, refl, refl)

-- After a login that is remembered, with a token, a restart signs the same user in with the same
-- workspace, name, profile and token, and the gate stands in front of it.
pub complete_login-initial-IsRestored :
    (to_upper_case : Text → Text) (sha256 : Text → List ℕ) (works : Bool) (request : LoginRequest)
    (answer : Option (List Workspace)) (app next : App)
    → complete_login to_upper_case sha256 works request answer app ≡ logged_in next
    → request.remember_device ≡ true
    → is_full (some request.token) ≡ true
    → IsRestored request next (initial to_upper_case next.stored)
unfolding IsStart
complete_login-initial-IsRestored to_upper_case sha256 works request answer app next e remembered
      full =
    let start = complete_login-IsStart to_upper_case sha256 works request answer app next e in
    rw (start.3)
      (start_session-IsRestored to_upper_case request start.0 start.1 start.2 app remembered full)

abbrev pub IsForgotten : App → App → Type 0
IsForgotten next again =
    (again.is_authenticated ≡ false)
    × (again.api_token ≡ [])
    × (again.user_id ≡ [])
    × (is_gated again ≡ false)
    × (next.stored.app_pin_hash ≡ none)

start_session-IsForgotten :
    (to_upper_case : Text → Text) (request : LoginRequest) (ws : List Workspace) (w : Workspace)
    (digest : Option Text) (app : App)
    → request.remember_device ≡ false
    → IsForgotten
        (start_session to_upper_case request ws w digest app)
        (initial to_upper_case (start_session to_upper_case request ws w digest app).stored)
unfolding start_session initial restore_remembered_api_token
start_session-IsForgotten to_upper_case request ws w digest app e =
    rw e (refl, refl, refl, refl, refl)

-- After a login that is not remembered a restart is signed out, without a token, a user or a gate, and
-- the digest of a PIN is forgotten.
pub complete_login-initial-IsForgotten :
    (to_upper_case : Text → Text) (sha256 : Text → List ℕ) (works : Bool) (request : LoginRequest)
    (answer : Option (List Workspace)) (app next : App)
    → complete_login to_upper_case sha256 works request answer app ≡ logged_in next
    → request.remember_device ≡ false
    → IsForgotten next (initial to_upper_case next.stored)
unfolding IsStart
complete_login-initial-IsForgotten to_upper_case sha256 works request answer app next e forgotten =
    let start = complete_login-IsStart to_upper_case sha256 works request answer app next e in
    rw (start.3)
      (start_session-IsForgotten to_upper_case request start.0 start.1 start.2 app forgotten)
