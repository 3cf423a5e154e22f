-- ===== src/Config/Deserialize.antt =====
-- A deserialiser of the configuration with the documented behaviour of serde's derive, which shows
-- what the parameter `from_str` of `main` can be: a missing or null `Option` is none, a missing or
-- repeated field, another type and a number out of range are errors, other fields are ignored.
use signal_call_tunnel.Base.{
  ℕ, ◌^◌, List, [], ◌∷◌, Option, none, some, ◌>>=◌, Text, codes, text_eq, ltb, if◌then◌else◌,
}
use signal_call_tunnel.Json.{Json, null, num, str, obj, Fields, end, field}
use signal_call_tunnel.Json.Access.{as_bool}
use signal_call_tunnel.Json.Read.{read_json}
use signal_call_tunnel.Config.{Config}

-- The values of the members with one name.
unfoldable members : Text → Fields → List Json
unfolding text_eq
members key end = []
members key (field k v fs) = let rest = members key fs in if text_eq k key then v ∷ rest else rest

abbrev required : List Json → Option Json
required (v ∷ []) = some v
required _ = none

abbrev optional : List Json → Option (Option Text)
optional [] = some none
optional (null ∷ []) = some none
optional (str s ∷ []) = some (some s)
optional _ = none

-- A number below `bound`.
abbrev bounded : ℕ → Json → Option ℕ
bounded bound (num n) = if ltb n bound then some n else none
bounded bound _ = none

unfoldable from_fields : Fields → Option Config
unfolding members
from_fields fs = do
  call_id ← required (members (codes "call_id") fs) >>= bounded (2 ^ 64)
  is_outgoing ← required (members (codes "is_outgoing") fs) >>= as_bool
  local_device_id ← required (members (codes "local_device_id") fs) >>= bounded (2 ^ 32)
  input_device_name ← optional (members (codes "input_device_name") fs)
  output_device_name ← optional (members (codes "output_device_name") fs)
  audio_mode ← optional (members (codes "audio_mode") fs)
  some (record {
    call_id = call_id;
    is_outgoing = is_outgoing;
    local_device_id = local_device_id;
    input_device_name = input_device_name;
    output_device_name = output_device_name;
    audio_mode = audio_mode;
  })

unfoldable pub from_str : Text → Option Config
unfolding from_fields read_json
from_str text = elim (read_json text) [ some (obj fs) ↦ from_fields fs | _ ↦ none ]
