-- ===== src/Control.antt =====
-- signal-call-tunnel/src/control.rs: the messages of the parent process and how a line becomes one.
pub mod Threads
pub mod Kinds
pub mod Commands
pub mod UnitTests
mod Tests
use signal_call_tunnel.Base.{
  ℕ, zero, suc, ◌%◌, ◌^◌, ◌<◌, ◌≡◌, Bool, true, false, List, [], ◌∷◌, ◌++◌, map, Option, none, some,
  ◌>>=◌, Text, codes, text_eq, if◌then◌else◌, unwrap_or,
}

pub record IceServerConfig : Type 0 where
  pub username : Text
  pub password : Text
  pub urls : List Text

pub data ControlMessage : Type 0 where
  create_outgoing_call : (call_id : ℕ) (peer_id : Text) → ControlMessage
  proceed : (call_id : ℕ) (ice_servers : List IceServerConfig) (hide_ip : Bool) → ControlMessage
  received_offer :
      (call_id : ℕ) (peer_id : Text) (sender_device_id : ℕ) (opaque : List ℕ) (age_ms : ℕ)
      (sender_identity_key receiver_identity_key : List ℕ)
      → ControlMessage
  received_answer :
      (opaque : List ℕ) (sender_device_id : ℕ) (sender_identity_key receiver_identity_key : List ℕ)
      → ControlMessage
  received_ice : (candidates : List (List ℕ)) (sender_device_id : ℕ) → ControlMessage
  accept hangup : ControlMessage

-- What the parser calls of serde_json and base64. `index v k` is `v[k]`, the null value if there is
-- no such member; `decode` is `BASE64.decode`.
pub record Codec : Type 1 where
  pub Value : Type 0
  pub from_str : Text → Option Value
  pub index : Value → Text → Value
  pub as_str : Value → Option Text
  pub as_u64 : Value → Option ℕ
  pub as_bool : Value → Option Bool
  pub as_array : Value → Option (List Value)
  pub decode : Text → Option (List ℕ)

pub data ParseError : Type 0 where
  invalid_json : ParseError
  unknown_type : Text → ParseError

pub data Parsed : Type 0 where
  ok : ControlMessage → Parsed
  err : ParseError → Parsed

-- `Iterator::filter_map`.
unfoldable pub filter_map {ℓ κ} : {A : Type ℓ} {B : Type κ} → (A → Option B) → List A → List B
filter_map f [] = []
filter_map f (x ∷ xs) = elim (f x) [ none ↦ filter_map f xs | some y ↦ y ∷ filter_map f xs ]

module _ (codec : Codec) where
  -- `v[key].as_str().unwrap_or(default)`, and so on.
  abbrev pub text_at : codec.Value → Text → Text → Text
  text_at v key default = unwrap_or (codec.as_str (codec.index v key)) default

  abbrev pub u64_at : codec.Value → Text → ℕ → ℕ
  u64_at v key default = unwrap_or (codec.as_u64 (codec.index v key)) default

  abbrev pub bool_at : codec.Value → Text → Bool
  bool_at v key = unwrap_or (codec.as_bool (codec.index v key)) false

  -- `.as_u64().unwrap_or(1) as u32`.
  abbrev pub device_at : codec.Value → Text → ℕ
  device_at v key = u64_at v key 1 % 2 ^ 32

  abbrev pub bytes_at : codec.Value → Text → List ℕ
  bytes_at v key = unwrap_or (codec.decode (text_at v key [])) []

  abbrev pub array_at : codec.Value → Text → List codec.Value
  array_at v key = unwrap_or (codec.as_array (codec.index v key)) []

  unfoldable pub ice_server : codec.Value → IceServerConfig
  unfolding filter_map
  ice_server s = record {
    username = text_at s (codes "username") [];
    password = text_at s (codes "password") [];
    urls = filter_map codec.as_str (array_at s (codes "urls"));
  }

  unfoldable pub candidate : codec.Value → Option (List ℕ)
  candidate c = do b64 ← codec.as_str c; codec.decode b64

  unfoldable pub message_of : codec.Value → Text → Parsed
  unfolding ice_server candidate filter_map
  message_of v msg_type =
      if text_eq msg_type (codes "createOutgoingCall")
      then ok (create_outgoing_call (u64_at v (codes "callId") 0) (text_at v (codes "peerId") []))
      else if text_eq msg_type (codes "proceed")
      then ok (
          proceed (u64_at v (codes "callId") 0) (map ice_server (array_at v (codes "iceServers")))
            (bool_at v (codes "hideIp")))
      else if text_eq msg_type (codes "receivedOffer")
      then ok (
          received_offer (u64_at v (codes "callId") 0) (text_at v (codes "peerId") (codes "remote"))
            (device_at v (codes "senderDeviceId")) (bytes_at v (codes "opaque"))
            (u64_at v (codes "age") 0) (bytes_at v (codes "senderIdentityKey"))
            (bytes_at v (codes "receiverIdentityKey")))
      else if text_eq msg_type (codes "receivedAnswer")
      then ok (
          received_answer (bytes_at v (codes "opaque")) (device_at v (codes "senderDeviceId"))
            (bytes_at v (codes "senderIdentityKey")) (bytes_at v (codes "receiverIdentityKey")))
      else if text_eq msg_type (codes "receivedIce")
      then ok (
          received_ice (filter_map candidate (array_at v (codes "candidates")))
            (device_at v (codes "senderDeviceId")))
      else if text_eq msg_type (codes "accept")
      then ok accept
      else if text_eq msg_type (codes "hangup")
      then ok hangup
      else err (unknown_type msg_type)

  unfoldable pub parse_message : Text → Parsed
  unfolding message_of
  parse_message line = elim (codec.from_str line) [
    | none ↦ err invalid_json
    | some v ↦ message_of v (text_at v (codes "type") [])
  ]
