-- ===== src/Session/Stored.antt =====
-- What the browser keeps of a session, and the values that stand in it. A stored text is the value
-- that it is read back as; a text that is no JSON, and a missing one, is none. Writes succeed. Of a
-- workspace and a user the fields are left out that the session only passes on.
use ledgerly_app.Base.{
  ℕ, Bool, true, false, ◌&&◌, Option, none, some, List, [], ◌∷◌, Text, codes, all, length, leb,
  trim, find, ◌==◌, nat_eq, text_eq, if◌then◌else◌,
}
use ledgerly_app.Session.Pins.{is_digest}

pub record Workspace : Type 0 where
  pub id : Text
  pub name : Text
  pub workspace_type : Text
  pub role : Text
  pub member_count : ℕ
  pub currency : Option Text

pub record CurrentUser : Type 0 where
  pub email : Text
  pub name : Text
  pub locale : Text
  pub preferred_currency : Text
  pub email_verified : Bool

pub data Theme : Type 0 where
  light dark system : Theme

pub record Stored : Type 0 where
  pub demo : Option Bool
  pub user_name : Option Text
  pub user_profile : Option CurrentUser
  pub user_id : Option Text
  pub auth_token : Option Text
  pub remember : Option Bool
  pub app_pin_hash : Option Text
  pub workspace : Option Workspace
  pub default_workspace_id : Option Text
  pub privacy : Option Bool
  pub theme : Option Theme
  pub preferred_currency : Option Text

abbrev pub nothing_stored : Stored
nothing_stored = record {
  demo = none;
  user_name = none;
  user_profile = none;
  user_id = none;
  auth_token = none;
  remember = none;
  app_pin_hash = none;
  workspace = none;
  default_workspace_id = none;
  privacy = none;
  theme = none;
  preferred_currency = none;
}

-- `readStored(key, fallback)`
abbrev pub read_stored {ℓ} : {A : Type ℓ} → Option A → A → A
read_stored none fallback = fallback
read_stored (some value) fallback = value

abbrev pub is_upper : ℕ → Bool
is_upper c = leb b'A' c && leb c b'Z'

abbrev pub default_currency : Text
default_currency = codes "INR"

-- `/^[A-Z]{3}$/u.test(code)`
abbrev pub is_currency : Text → Bool
is_currency code = length code == 3 && all is_upper code

abbrev text_or_empty : Option Text → Text
text_or_empty none = []
text_or_empty (some s) = s

unfoldable pub normalize_currency : (Text → Text) → Option Text → Text → Text
unfolding trim
normalize_currency to_upper_case value fallback =
    let normalized = to_upper_case (trim (text_or_empty value)) in
    if is_currency normalized then normalized else fallback

abbrev pub is_full : Option Text → Bool
is_full none = false
is_full (some []) = false
is_full (some (_ ∷ _)) = true

abbrev pub stored_remember : Stored → Bool
stored_remember s = read_stored s.remember false

abbrev pub stored_user_id : Stored → Text
stored_user_id s = read_stored s.user_id []

abbrev pub stored_default_workspace_id : Stored → Text
stored_default_workspace_id s = read_stored s.default_workspace_id []

abbrev pub digest_or_none : Option Text → Option Text
digest_or_none none = none
digest_or_none (some digest) = if is_digest digest then some digest else none

abbrev pub stored_app_pin_hash : Stored → Option Text
stored_app_pin_hash s = digest_or_none s.app_pin_hash

abbrev pub stored_theme : Stored → Theme
stored_theme s = read_stored s.theme system

abbrev pub stored_preferred_currency : (Text → Text) → Stored → Text
stored_preferred_currency to_upper_case s =
    normalize_currency to_upper_case (some (read_stored s.preferred_currency default_currency))
      default_currency

abbrev pub find_workspace : Text → List Workspace → Option Workspace
find_workspace id available = find (λ item. item.id == id) available

abbrev pub find_preferred : Option Workspace → List Workspace → Option Workspace
find_preferred none available = none
find_preferred (some preferred) available = find_workspace preferred.id available

abbrev pub first_of : List Workspace → Option Workspace
first_of [] = none
first_of (item ∷ _) = some item

abbrev pub or_else {ℓ} : {A : Type ℓ} → Option A → Option A → Option A
or_else none b = b
or_else (some a) b = some a

-- The default workspace, or the preferred one, or the first. None only where nothing is available.
unfoldable pub select_available_workspace :
    List Workspace → Option Workspace → Text → Option Workspace
select_available_workspace available preferred default_workspace_id =
    or_else (find_workspace default_workspace_id available)
      (or_else (find_preferred preferred available) (first_of available))
