-- ===== src/Session/Gate.antt =====
-- The gate of a device (web/src/components/device-access-gate.tsx), and its calls of the session.
use ledgerly_app.Base.{
  Bool, true, false, Option, none, some, [], ◌∷◌, Text, codes, filter, take, is_digit,
  if◌then◌else◌, ℕ, List,
}
use ledgerly_app.Session.Pins.{validate_device_pin, hash_device_pin, verify_device_pin}
use ledgerly_app.Session.App.{App, DeviceAccessState, unlocked, setup}

-- `configureDevicePin`
unfoldable pub configure_device_pin : Text → App → App
configure_device_pin digest app = record app {
  stored = record (app.stored) { app_pin_hash = some digest };
  app_pin_digest = some digest;
  device_access = unlocked;
}

-- `unlockDevice`
unfoldable pub unlock_device : App → App
unlock_device app = record app { device_access = unlocked }

pub record Gate : Type 0 where
  pub pin : Text
  pub error : Text
  pub is_submitting : Bool

unfoldable pub update_pin : Text → Gate → Gate
update_pin value gate = record gate { pin = take 6 (filter is_digit value); error = [] }

abbrev pub is_setup : DeviceAccessState → Bool
is_setup setup = true
is_setup _ = false

-- What the gate was given as `pinDigest`; an empty digest counts as none.
abbrev pub is_missing : Option Text → Bool
is_missing none = true
is_missing (some []) = true
is_missing (some (_ ∷ _)) = false

abbrev pub digest_text : Option Text → Text
digest_text none = []
digest_text (some digest) = digest

abbrev pub say : Text → Gate → Gate
say message gate = record gate { error = message }

unfoldable pub set_up : Gate → App → Option Text → Gate × App
unfolding configure_device_pin
set_up gate app none = (say (codes "The app PIN could not be saved. Try again.") gate, app)
set_up gate app (some digest) = (gate, configure_device_pin digest app)

module _ (sha256 : Text → List ℕ) where
  unfoldable pub unlock : Gate → App → Gate × App
  unfolding verify_device_pin unlock_device
  unlock gate app =
      if verify_device_pin sha256 gate.pin (digest_text app.app_pin_digest)
      then (gate, unlock_device app)
      else (say (codes "That PIN is not correct.") gate, app)

  -- The part of `submit` behind its guards; `works` is false where hashing throws.
  unfoldable pub try_pin : Bool → Bool → Gate → App → Gate × App
  unfolding hash_device_pin set_up unlock
  try_pin true works gate app =
      set_up gate app (if works then hash_device_pin sha256 gate.pin else none)
  try_pin false true gate app = unlock gate app
  try_pin false false gate app =
      (say (codes "The app PIN could not be verified. Try again.") gate, app)

  unfoldable pub submit_pin : Bool → Option Text → Gate → App → Gate × App
  unfolding try_pin
  submit_pin works (some message) gate app = (say message gate, app)
  submit_pin works none gate app =
      if is_setup app.device_access
      then try_pin true works (say [] gate) app
      else if is_missing app.app_pin_digest
      then (say (codes "This device PIN is unavailable. Sign in again to continue.") gate, app)
      else try_pin false works (say [] gate) app

  -- `submit`, run to its end.
  unfoldable pub submit : Bool → Gate → App → Gate × App
  unfolding validate_device_pin submit_pin
  submit works gate app =
      if gate.is_submitting
      then (gate, app)
      else submit_pin works (validate_device_pin gate.pin) gate app
