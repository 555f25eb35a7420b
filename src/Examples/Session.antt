-- ===== src/Examples/Session.antt =====
-- A family's session: a login, a PIN, a restart. The digest of the examples puts zeros behind a PIN.
use ledgerly_app.Base.{
  zero, ◌<◌, ◌%◌, ap, All, length, ◌∷◌, arith, ◌≡◌, ◌↔◌, refl, true, false, ◌||◌, none, some, [],
  Text, codes, map, lower_unit, suc, ℕ, List,
}
use ledgerly_app.Base.Decimal.{pad_start}
use ledgerly_app.Session.Pins.{
  to_hex, is_pin, is_digest, verify_device_pin, differences, same_digest,
}
use ledgerly_app.Session.Stored.{nothing_stored, select_available_workspace}
use ledgerly_app.Session.App.{
  App, unlocked, setup, initial, demo_workspaces, restore_remembered_api_token,
}
use ledgerly_app.Session.Login.{LoginRequest, app_of, complete_login, start_session}
use ledgerly_app.Session.Gate.{Gate, submit, configure_device_pin}
use ledgerly_app.Session.Digest.{verify_device_pin_iff}
use ledgerly_app.Session.Opening.{submit-opens_iff, submit-initial-submit, IsLockedBy, IsOpenedBy}
use ledgerly_app.Session.Restart.{
  complete_login-initial-IsRestored, complete_login-initial-IsForgotten, IsRestored, IsForgotten,
}
use ledgerly_app.Session.Failures.{
  has_failed, has_no_workspace, has_bad_pin, complete_login-has_failed,
  complete_login-app_of_failed,
}
use ledgerly_app.Session.Hex.{IsSha256}
use ledgerly_app.Session.Invariant.{here, next, Reach-IsSound}
use ledgerly_app.Session.Invariant.Sound.{IsSound, log_in, restart}

abbrev to_upper_case : Text → Text
to_upper_case s = s

unfoldable padded : ℕ → Text → List ℕ
padded zero s = []
padded (suc n) [] = 0 ∷ padded n []
padded (suc n) (c ∷ s) = c % 256 ∷ padded n s

length-padded : (n : ℕ) (s : Text) → length (padded n s) ≡ n
unfolding padded
length-padded zero s = refl
length-padded (suc n) [] = ap suc (length-padded n [])
length-padded (suc n) (c ∷ s) = ap suc (length-padded n s)

padded-bytes : (n : ℕ) (s : Text) → All (λ byte. byte < 256) (padded n s)
unfolding padded
padded-bytes zero s = tt
padded-bytes (suc n) [] = (omega arith, padded-bytes n [])
padded-bytes (suc n) (c ∷ s) = (omega arith, padded-bytes n s)

abbrev sha256 : Text → List ℕ
sha256 = padded 32

sha256-IsSha256 : IsSha256 sha256
sha256-IsSha256 text = (length-padded 32 text, padded-bytes 32 text)

abbrev pin : Text
pin = codes "271828"

abbrev digest : Text
digest = to_hex (sha256 pin)

abbrev gate : Gate
gate = record { pin = codes "271828"; error = []; is_submitting = false }

abbrev request : LoginRequest
request = record {
  user_id = codes "u1";
  name = codes "Asha";
  token = codes "t1";
  remember_device = true;
  preferred_currency = some (codes "EUR");
  app_pin = none;
}

abbrev once : LoginRequest
once = record request { remember_device = false }

abbrev fresh : App
fresh = initial to_upper_case nothing_stored

abbrev after_login : App
after_login = app_of (complete_login to_upper_case sha256 true request (some demo_workspaces) fresh)

abbrev after_once : App
after_once = app_of (complete_login to_upper_case sha256 true once (some demo_workspaces) fresh)

verify_device_pin_iff_example :
    (verify_device_pin sha256 pin digest ≡ true)
    ↔ ((is_pin pin ≡ true) × (is_digest digest ≡ true) × (digest ≡ map lower_unit digest))
verify_device_pin_iff_example = verify_device_pin_iff sha256 pin digest

accepts_the_pin : verify_device_pin sha256 pin digest ≡ true
unfolding verify_device_pin same_digest differences lower_unit to_hex padded pad_start
accepts_the_pin = refl

refuses_another : verify_device_pin sha256 (codes "271829") digest ≡ false
unfolding verify_device_pin same_digest differences lower_unit to_hex padded pad_start
refuses_another = refl

after_login-setup : after_login.device_access ≡ setup
unfolding complete_login initial start_session select_available_workspace
after_login-setup = refl

complete_login-initial-IsRestored_example :
    IsRestored request after_login (initial to_upper_case after_login.stored)
unfolding complete_login initial start_session select_available_workspace
complete_login-initial-IsRestored_example =
    complete_login-initial-IsRestored to_upper_case sha256 true request (some demo_workspaces) fresh
      after_login refl refl refl

complete_login-initial-IsForgotten_example :
    IsForgotten after_once (initial to_upper_case after_once.stored)
unfolding complete_login initial start_session select_available_workspace
complete_login-initial-IsForgotten_example =
    complete_login-initial-IsForgotten to_upper_case sha256 true once (some demo_workspaces) fresh
      after_once refl refl

abbrev with_pin : LoginRequest
with_pin = record request { app_pin = some pin }

-- A PIN of six digits that cannot be hashed.
complete_login-has_failed_example :
    has_failed (complete_login to_upper_case sha256 false with_pin (some demo_workspaces) fresh)
    ≡ (has_no_workspace (some demo_workspaces) || has_bad_pin false with_pin)
complete_login-has_failed_example =
    complete_login-has_failed to_upper_case sha256 false with_pin (some demo_workspaces) fresh

no_hash_failed : has_bad_pin false with_pin ≡ true
no_hash_failed = refl

hash_accepted : has_bad_pin true with_pin ≡ false
hash_accepted = refl

complete_login-app_of_failed_example :
    app_of (complete_login to_upper_case sha256 true request none after_login)
    ≡ record after_login { cleared = suc after_login.cleared; api_token = [] }
unfolding complete_login
complete_login-app_of_failed_example =
    complete_login-app_of_failed to_upper_case sha256 true request none after_login refl

abbrev kept_lock : App
kept_lock = initial to_upper_case (configure_device_pin digest after_login).stored

submit-opens_iff_example : ((submit sha256 true gate kept_lock).1.device_access ≡ unlocked) ↔ (
    (gate.is_submitting ≡ false)
    × (true ≡ true)
    × (is_pin gate.pin ≡ true)
    × (to_hex (sha256 gate.pin) ≡ map lower_unit digest))
unfolding initial configure_device_pin complete_login start_session select_available_workspace
    restore_remembered_api_token to_hex padded pad_start
submit-opens_iff_example = submit-opens_iff sha256 true gate kept_lock digest refl refl refl

submit-initial-submit_example :
    IsLockedBy digest (initial to_upper_case (submit sha256 true gate after_login).1.stored)
    × (IsOpenedBy sha256 gate (initial to_upper_case (submit sha256 true gate after_login).1.stored)
        ↔ ((is_pin gate.pin ≡ true) × (to_hex (sha256 gate.pin) ≡ digest)))
unfolding complete_login initial start_session select_available_workspace lower_unit
submit-initial-submit_example =
    submit-initial-submit to_upper_case sha256 gate gate after_login refl refl refl refl
      sha256-IsSha256 refl

Reach-IsSound_example : IsSound (initial to_upper_case after_login.stored)
Reach-IsSound_example =
    Reach-IsSound to_upper_case sha256
      (next (next here (log_in true request (some demo_workspaces))) restart)
