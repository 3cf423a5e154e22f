-- ===== src/Json/Access.antt =====
-- Access to the parts of a document, as `serde_json::Value` gives it.
use signal_call_tunnel.Base.{
  ℕ, Bool, List, [], ◌∷◌, Option, none, some, Text, text_eq, if◌then◌else◌,
}
use signal_call_tunnel.Json.{
  Json, null, bool, num, str, arr, obj, Items, nil, cons, Fields, end, field,
}

-- The member of an object, null if there is none.
abbrev pub member : Fields → Text → Json
member end key = null
member (field k v fs) key = if text_eq k key then v else member fs key

abbrev pub index : Json → Text → Json
index (obj fs) key = member fs key
index _ key = null

abbrev pub as_str : Json → Option Text
as_str (str s) = some s
as_str _ = none

abbrev pub as_u64 : Json → Option ℕ
as_u64 (num n) = some n
as_u64 _ = none

abbrev pub as_bool : Json → Option Bool
as_bool (bool b) = some b
as_bool _ = none

abbrev pub items : Items → List Json
items nil = []
items (cons x xs) = x ∷ items xs

abbrev pub as_array : Json → Option (List Json)
as_array (arr xs) = some (items xs)
as_array _ = none
