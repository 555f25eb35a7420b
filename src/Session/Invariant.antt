-- ===== src/Session/Invariant.antt =====
-- What holds of the session whatever its user does, across restarts too.
pub mod Selection
pub mod Sound
mod Users
mod Devices
use ledgerly_app.Base.{◌≡◌, refl, Bool, true, false, Option, none, some, List, Text, arith, ℕ}
use ledgerly_app.Session.Pins.{is_digest}
use ledgerly_app.Session.Stored.{nothing_stored, is_full}
use ledgerly_app.Session.App.{App, DeviceAccessState, unlocked, setup, locked, initial, is_gated}
use ledgerly_app.Session.Login.{
  set_preferred_currency, set_current_user, set_privacy_mode, set_theme,
}
use Selection.{Among}
use Sound.{
  IsSound, Step, restart, enter, log_in, refresh, restore, leave, delete_one, choose,
  choose_default, submit_gate, hide, paint, price, edit_user,
}
use Users.{initial-IsSound, sign_out-IsSound, enter_demo-IsSound, complete_login-IsSound}
use Devices.{
  set_workspace-IsSound, set_default_workspace-IsSound, refresh_workspaces-IsSound,
  restore_effect-IsSound, delete_workspace-IsSound, submit-IsSound,
}

module _ (to_upper_case : Text → Text) (sha256 : Text → List ℕ) where
  pub Step-IsSound :
      {app next : App} → IsSound app → Step to_upper_case sha256 app next → IsSound next
  unfolding set_preferred_currency set_current_user set_privacy_mode set_theme
  Step-IsSound h (restart {app}) = initial-IsSound to_upper_case app.stored (λ e. (h.restored e).1)
  Step-IsSound h (enter {app}) = enter_demo-IsSound to_upper_case app
  Step-IsSound h (log_in {app} works request answer) =
      complete_login-IsSound to_upper_case sha256 works request answer app h
  Step-IsSound h (refresh {app} id answer) = refresh_workspaces-IsSound id answer app h
  Step-IsSound h (restore {app} answer) = restore_effect-IsSound answer app h
  Step-IsSound h (leave {app}) = sign_out-IsSound app
  Step-IsSound h (delete_one {app} id deleted answer) =
      delete_workspace-IsSound id deleted answer app h
  Step-IsSound h (choose {app} next) = set_workspace-IsSound next app h
  Step-IsSound h (choose_default {app} next) = set_default_workspace-IsSound next app h
  Step-IsSound h (submit_gate {app} works gate gated) = submit-IsSound sha256 app h works gate
  Step-IsSound h (hide enabled) = h
  Step-IsSound h (paint next) = h
  Step-IsSound h (price next) = h
  Step-IsSound h (edit_user next) = h

-- What comes of a browser that has nothing stored.
pub data Reach (to_upper_case : Text → Text) (sha256 : Text → List ℕ) : App → Type 0 where
  here : Reach to_upper_case sha256 (initial to_upper_case nothing_stored)
  next :
      {app then : App}
      → Reach to_upper_case sha256 app
      → Step to_upper_case sha256 app then
      → Reach to_upper_case sha256 then

module _ (to_upper_case : Text → Text) (sha256 : Text → List ℕ) where
  pub Reach-IsSound : {app : App} → Reach to_upper_case sha256 app → IsSound app
  Reach-IsSound here = initial-IsSound to_upper_case nothing_stored (λ e. ground arith)
  Reach-IsSound (next r st) = Step-IsSound to_upper_case sha256 (Reach-IsSound r) st
