-- ===== src/Kernel/Names.antt =====
-- The canonical names of src/kernel: `ActionName` (requests.rs), `SchemaName` and `Scope`
-- (authority.rs), `EventType` (subscriptions.rs). Each `new` returns the text that it stores.
pub mod Grammar
use infernal_law.Base.{
  ℕ, ltb, leb, ◌==◌, Bool, true, false, not, ◌&&◌, ◌||◌, List, [], ◌∷◌, Option, none, some,
  if◌then◌else◌, length, Text, text_eq, bytes, trim, split_dots, all,
}

abbrev pub max_action_name_length : ℕ
max_action_name_length = 200

abbrev pub max_schema_name_length : ℕ
max_schema_name_length = 200

abbrev pub max_scope_length : ℕ
max_scope_length = 200

abbrev pub max_event_type_length : ℕ
max_event_type_length = 200

-- `is_ascii_lowercase`, `is_ascii_digit`.
abbrev pub is_lower : ℕ → Bool
is_lower c = leb b'a' c && leb c b'z'

abbrev pub is_digit : ℕ → Bool
is_digit c = leb b'0' c && leb c b'9'

abbrev pub is_name_byte : ℕ → Bool
is_name_byte c = is_lower c || is_digit c || c == b'_' || c == b'-'

unfoldable pub starts_lower : List ℕ → Bool
starts_lower [] = false
starts_lower (b ∷ bs) = is_lower b && all is_name_byte bs

unfoldable pub is_valid_action_segment : Text → Bool
is_valid_action_segment segment = starts_lower (bytes segment)

unfoldable pub namespaced : List Text → Bool
namespaced (namespace ∷ first ∷ rest) =
    is_valid_action_segment namespace
    && is_valid_action_segment first
    && all is_valid_action_segment rest
namespaced _ = false

unfoldable pub is_valid_action_name : Text → Bool
is_valid_action_name [] = false
is_valid_action_name value =
    if ltb max_action_name_length (length (bytes value))
    then false
    else namespaced (split_dots value)

unfoldable pub valid_event_segment : Text → Bool
valid_event_segment [] = false
valid_event_segment (c ∷ cs) = is_lower c && all is_name_byte cs

-- `EventType::new`, with `none` for `InvalidEventType`.
unfoldable pub event_type_checked : Text → Option Text
event_type_checked [] = none
event_type_checked value =
    if ltb max_event_type_length (length value) || not (all valid_event_segment (split_dots value))
    then none
    else some value

unfoldable pub event_type : Text → Option Text
event_type value = event_type_checked (trim value)

-- `ActionName::new`.
unfoldable pub action_name : Text → Option Text
action_name value = if is_valid_action_name value then some value else none

unfoldable pub is_valid_schema_name : Text → Bool
is_valid_schema_name [] = false
is_valid_schema_name value =
    if ltb max_schema_name_length (length (bytes value))
    then false
    else namespaced (split_dots value)

-- `SchemaName::new`.
unfoldable pub schema_name : Text → Option Text
schema_name value = if is_valid_schema_name value then some value else none

-- `Scope::new`.
unfoldable pub scope : Text → Option Text
scope [] = none
scope value =
    if ltb max_scope_length (length (bytes value)) || not (text_eq (trim value) value)
    then none
    else some value
