-- ===== src/Examples/Navigation.antt =====
-- The dock on a page that it does not link to.
use ledgerly_app.Base.{ℕ, ◌≡◌, refl, none, some, Option, Text, ◌∷◌, [], codes, length, text_eq}
use ledgerly_app.Navigation.{search_keywords_for, insights_item}
use ledgerly_app.Settings.{AuthSession, get_device_label, browser_of, device_of}

keywords : search_keywords_for insights_item ≡ codes "Insights" ∷ codes "insights" ∷ []
unfolding search_keywords_for
keywords = refl

abbrev session : AuthSession
session = record {
  id = codes "s1";
  user_id = codes "u1";
  user_agent = codes "Mozilla/5.0 (X11; Linux) Firefox/128.0";
  ip_address = codes "127.0.0.1";
  created_at = codes "2026-01-01";
  expires_at = codes "2026-02-01";
  revoked_at = none;
}

-- Dates by their lengths.
abbrev time_of : Text → Option ℕ
time_of text = some (length text)

device : get_device_label session.user_agent ≡ codes "Firefox on Linux"
unfolding get_device_label browser_of device_of
device = refl
