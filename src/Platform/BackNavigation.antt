-- ===== src/Platform/BackNavigation.antt =====
-- web/src/platform/back-navigation.ts: what a back press does.
-- `decodeURIComponent` is the parameter `decode`, `none` where it throws.
pub mod Search
pub mod Decisions
use ledgerly_app.Base.{
  ℕ, ◌<◌, Bool, true, false, not, ◌||◌, ◌&&◌, Option, none, some, List, [], ◌∷◌, ◌++◌, map, Text,
  codes, filter, all, ltb, ◌==◌, nat_eq, text_eq, if◌then◌else◌,
}
use ledgerly_app.Base.Splitting.{split, join}

-- A number: `other` is a negative or fractional one, an infinity or NaN.
pub data HistoryIndex : Type 0 where
  whole : ℕ → HistoryIndex
  other : HistoryIndex

pub record BackInput (S : Type 0) : Type 0 where
  pub pathname : Text
  pub search : Text
  pub hash : Text
  pub state : S
  pub is_authenticated : Bool
  pub can_go_back : Option Bool
  pub browser_history_index : Option HistoryIndex

pub data BackAction (S : Type 0) : Type 0 where
  replace_location : Text → Text → Text → S → BackAction S
  history_back : BackAction S
  replace_root : Text → BackAction S
  exit_app : BackAction S

-- `segment.slice(0, segment.indexOf("="))`, or the segment with no "=".
unfoldable pub raw_key : Text → Text
raw_key [] = []
raw_key (c ∷ s) = if c == b'=' then [] else c ∷ raw_key s

-- `rawKey.replaceAll("+", " ")`
abbrev pub plus_to_space : Text → Text
plus_to_space = map (λ c. if c == b'+' then b' ' else c)

abbrev or_raw : Text → Option Text → Text
or_raw raw none = raw
or_raw raw (some key) = key

abbrev pub is_modal_key : Text → Bool
is_modal_key key = key == codes "add" || key == codes "claim"

-- `search.startsWith("?") ? search.slice(1) : search`
unfoldable pub raw_search : Text → Text
raw_search [] = []
raw_search (c ∷ s) = if c == b'?' then s else c ∷ s

module _ (decode : Text → Option Text) where
  unfoldable pub decoded_query_key : Text → Text
  unfolding raw_key
  decoded_query_key segment = or_raw (raw_key segment) (decode (plus_to_space (raw_key segment)))

  abbrev pub is_preserved : Text → Bool
  is_preserved segment = not (is_modal_key (decoded_query_key segment))

  -- `preserved.length > 0 ? "?" + preserved.join("&") : ""`
  abbrev pub shown_search : List Text → Text
  shown_search [] = []
  shown_search (p ∷ ps) = b'?' ∷ join b'&' (p ∷ ps)

  -- `removed` is set when a segment is dropped.
  abbrev pub without_modal : List Text → Option Text
  without_modal segments =
      if all is_preserved segments then none else some (shown_search (filter is_preserved segments))

  abbrev pub remove_from_raw : Text → Option Text
  remove_from_raw [] = none
  remove_from_raw (c ∷ s) = without_modal (split b'&' (c ∷ s))

  -- `removeModalSearch`
  unfoldable pub remove_modal_search : Text → Option Text
  unfolding raw_search split
  remove_modal_search search = remove_from_raw (raw_search search)

  abbrev index_usable : Option HistoryIndex → Bool
  index_usable (some (whole n)) = ltb 0 n
  index_usable _ = false

  module _ {S : Type 0} where
    unfoldable pub has_usable_history : BackInput S → Bool
    has_usable_history input = elim input.can_go_back [
      | some usable ↦ usable
      | none ↦ index_usable input.browser_history_index
    ]

    abbrev pub is_exit_root : BackInput S → Bool
    is_exit_root input =
        input.pathname == codes "/"
        || input.pathname == codes "/login"
        || (input.pathname == codes "/app/home" && input.is_authenticated)

    -- `decideBackAction`
    unfoldable pub decide_back_action : BackInput S → BackAction S
    unfolding has_usable_history
    decide_back_action input = elim (remove_modal_search input.search) [
      | some search ↦ replace_location input.pathname search input.hash input.state
      | none ↦
          if has_usable_history input
          then history_back
          else if is_exit_root input
          then exit_app
          else replace_root (if input.is_authenticated then codes "/app/home" else codes "/")
    ]
