-- ===== src/Settings.antt =====
-- web/src/pages/settings/settings-model.ts: sections, sessions and devices. The clock and the reading
-- of a date are parameters; icons and the formatting by `Intl` are left out.
pub mod Sections
pub mod Sessions
use ledgerly_app.Base.{
  ℕ, Bool, true, false, ◌&&◌, ◌||◌, Option, none, some, List, [], ◌∷◌, ◌++◌, Text, codes, find, leb,
  trim, drop, ◌==◌, nat_eq, text_eq, if◌then◌else◌,
}
use ledgerly_app.ApiClient.Vaults.{Failure, api_error, type_error, syntax_error, other_error}

abbrev pub settings_sections : List (Text × Text)
settings_sections =
    (codes "settings-0", codes "Profile")
    ∷ (codes "settings-1", codes "Appearance")
    ∷ (codes "settings-2", codes "Privacy and security")
    ∷ (codes "settings-3", codes "Notifications")
    ∷ (codes "settings-4", codes "Money preferences")
    ∷ (codes "settings-5", codes "IDs & categories")
    ∷ []

pub data SessionTone : Type 0 where
  neutral warning positive : SessionTone

pub record SessionState : Type 0 where
  pub label : Text
  pub tone : SessionTone

pub record AuthSession : Type 0 where
  pub id : Text
  pub user_id : Text
  pub user_agent : Text
  pub ip_address : Text
  pub created_at : Text
  pub expires_at : Text
  pub revoked_at : Option Text

abbrev pub is_set : Option Text → Bool
is_set none = false
is_set (some []) = false
is_set (some (_ ∷ _)) = true

-- `!Number.isFinite(expiresAt) || expiresAt <= now`
abbrev pub is_over : ℕ → Option ℕ → Bool
is_over now none = true
is_over now (some expires_at) = leb expires_at now

-- `time_of` is `new Date(text).getTime()`, none where it is not finite; dates before 1970 count as 0.
module _ (time_of : Text → Option ℕ) where
  unfoldable pub get_session_state : ℕ → AuthSession → SessionState
  get_session_state now session =
      if is_set session.revoked_at
      then record { label = codes "Signed out"; tone = neutral }
      else if is_over now (time_of session.expires_at)
      then record { label = codes "Expired"; tone = warning }
      else record { label = codes "Active"; tone = positive }

abbrev starts : Text → Text → Bool
starts [] s = true
starts (p ∷ ps) [] = false
starts (p ∷ ps) (c ∷ s) = p == c && starts ps s

-- `/part/.test(text)` for a pattern with no special characters.
unfoldable pub includes : Text → Text → Bool
includes part [] = starts part []
includes part (c ∷ s) = starts part (c ∷ s) || includes part s

-- The name of the first test that holds.
abbrev pub first_name : List (Bool × Text) → Text → Text
first_name [] other = other
first_name ((test, name) ∷ tests) other = if test then name else first_name tests other

unfoldable pub browser_of : Text → Text
unfolding includes
browser_of user_agent =
    first_name
      ((includes (codes "Edg/") user_agent, codes "Edge")
        ∷ (
          includes (codes "CriOS") user_agent || includes (codes "Chrome/") user_agent,
          codes "Chrome",
        )
        ∷ (
          includes (codes "FxiOS") user_agent || includes (codes "Firefox/") user_agent,
          codes "Firefox",
        )
        ∷ (includes (codes "Safari/") user_agent, codes "Safari")
        ∷ [])
      (codes "Browser")

unfoldable pub device_of : Text → Text
unfolding includes
device_of user_agent =
    first_name
      ((includes (codes "iPad") user_agent, codes "iPad")
        ∷ (includes (codes "iPhone") user_agent, codes "iPhone")
        ∷ (includes (codes "Android") user_agent, codes "Android")
        ∷ (
          includes (codes "Macintosh") user_agent || includes (codes "Mac OS X") user_agent,
          codes "Mac",
        )
        ∷ (includes (codes "Windows") user_agent, codes "Windows")
        ∷ (includes (codes "Linux") user_agent, codes "Linux")
        ∷ [])
      (codes "device")

abbrev label_if : Text → Text → Text
label_if [] user_agent = codes "Unknown device"
label_if (_ ∷ _) user_agent = browser_of user_agent ++ codes " on " ++ device_of user_agent

unfoldable pub get_device_label : Text → Text
unfolding trim
get_device_label user_agent = label_if (trim user_agent) user_agent

unfoldable pub get_session_error_message : Failure → Text → Text
get_session_error_message (api_error shape status) fallback =
    if status == 401
    then codes "Your session has expired. Sign in again to manage devices."
    else fallback
get_session_error_message type_error fallback =
    codes "The service could not be reached. Check your connection and try again."
get_session_error_message syntax_error fallback = fallback
get_session_error_message other_error fallback = fallback

abbrev id_or_first : Option (Text × Text) → Text
id_or_first none = codes "settings-0"
id_or_first (some (id, label)) = id

-- The argument is `window.location.hash`.
unfoldable pub get_settings_section_from_hash : Text → Text
get_settings_section_from_hash hash =
    id_or_first (find (λ section. section.0 == drop 1 hash) settings_sections)
