-- ===== src/ApiClient/Json.antt =====
-- JSON values, and the tests that the client makes of values of unknown type.
use ledgerly_app.Base.{
  Bool, true, false, Option, none, some, List, [], ◌∷◌, Text, ◌==◌, text_eq, if◌then◌else◌,
}

mutual
  pub data Json : Type 0 where
    null : Json
    bool : Bool → Json
    -- A number, by its decimal text.
    number : Text → Json
    string : Text → Json
    array : Items → Json
    object : Members → Json

  pub data Items : Type 0 where
    nil : Items
    item : Json → Items → Items

  pub data Members : Type 0 where
    end : Members
    member : Text → Json → Members → Members

abbrev pub items_list : Items → List Json
items_list nil = []
items_list (item v vs) = v ∷ items_list vs

-- `key in value` with the value there; a parsed object has a key once.
unfoldable pub lookup_member : Text → Members → Option Json
lookup_member key end = none
lookup_member key (member k v ms) = if k == key then some v else lookup_member key ms

-- The value under a key of an object (`typeof value === "object"` and `key in value`). An array has
-- none of the keys that the client asks for.
unfoldable pub property : Text → Json → Option Json
unfolding lookup_member
property key (object ms) = lookup_member key ms
property key _ = none

-- `typeof value === "object"`, for a value that is not null.
abbrev pub is_object : Json → Bool
is_object (object _) = true
is_object (array _) = true
is_object _ = false

-- `typeof value === "string" ? value : undefined`
abbrev pub as_string : Option Json → Option Text
as_string (some (string s)) = some s
as_string _ = none

-- The same, where an empty string counts as none.
abbrev pub as_filled : Option Json → Option Text
as_filled (some (string [])) = none
as_filled (some (string (c ∷ s))) = some (c ∷ s)
as_filled _ = none
