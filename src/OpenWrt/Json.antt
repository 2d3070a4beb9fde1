-- ===== src/OpenWrt/Json.antt =====
-- JSON values as encoding/json decodes them into `map[string]interface{}`; numbers and lists are
-- never looked into.
use ai_assistant_driver.Common.{
  [], Bool, true, false, Option, none, some, Text, text_eq, if◌then◌else◌,
}

mutual
  pub data Json : Type 0 where
    null other : Json
    string : Text → Json
    object : Members → Json

  pub data Members : Type 0 where
    no_members : Members
    member : (name : Text) → (value : Json) → (rest : Members) → Members

-- The value of a name; Go's nil where there is none.
unfoldable pub value_of : Text → Members → Json
value_of name no_members = null
value_of name (member other_name value rest) =
    let later = value_of name rest in if text_eq name other_name then value else later

-- `v.(string)` and `v.(map[string]interface{})`, with whether they hold.
unfoldable pub as_string : Json → Option Text
as_string (string s) = some s
as_string _ = none

unfoldable pub as_object : Json → Option Members
as_object (object m) = some m
as_object _ = none

-- The string of a member, or the empty one that the field starts with.
unfoldable pub string_or_empty : Text → Members → Text
unfolding value_of as_string
string_or_empty name m = elim (as_string (value_of name m)) [ none ↦ [] | some s ↦ s ]

unfoldable pub is_null : Json → Bool
is_null null = true
is_null _ = false
