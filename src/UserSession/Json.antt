-- ===== src/UserSession/Json.antt =====
-- `serde_json::Value`, as far as the sources read it.
use sjmb_slack.Prelude.{ℕ, Bool, false, Option, none, some, if◌then◌else◌}
use sjmb_slack.Prelude.Text.{Text, text_eq}

-- Of the numbers, those that are a u64 are told apart.
mutual
  pub data Value : Type 0 where
    null other_number : Value
    boolean : Bool → Value
    unsigned : ℕ → Value
    text : Text → Value
    array : Items → Value
    object : Fields → Value

  pub data Items : Type 0 where
    no_items : Items
    item : Value → Items → Items

  pub data Fields : Type 0 where
    no_fields : Fields
    field : Text → Value → Fields → Fields

abbrev pub find_field : Text → Fields → Value
find_field key no_fields = null
find_field key (field k v rest) = if text_eq k key then v else find_field key rest

-- `value[key]`: null on anything but an object with the key.
abbrev pub at_key : Text → Value → Value
at_key key (object fields) = find_field key fields
at_key key _ = null

abbrev pub as_str : Value → Option Text
as_str (text t) = some t
as_str _ = none

abbrev pub as_u64 : Value → Option ℕ
as_u64 (unsigned n) = some n
as_u64 _ = none

-- `value == true`.
abbrev pub is_true : Value → Bool
is_true (boolean b) = b
is_true _ = false

-- `value == "..."`.
abbrev pub is_text : Text → Value → Bool
is_text expected (text t) = text_eq t expected
is_text expected _ = false
