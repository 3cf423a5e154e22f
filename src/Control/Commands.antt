-- ===== src/Control/Commands.antt =====
-- The commands of the parent as documents, and `parse_message` of control.rs on them.

use signal_call_tunnel.Base.{
  ℕ, ◌<◌, ◌^◌, ◌%◌, ◌≡◌, refl, ap, ap₂, List, [], ◌∷◌, map, Option, some, Text, codes, text_eq,
  arith,
}
use signal_call_tunnel.Json.{Json, bool, num, str, arr, obj, Items, nil, cons, Fields, end, field}
use signal_call_tunnel.Json.Access.{index, as_str, as_u64, as_bool, items, as_array}
use signal_call_tunnel.Control.{
  IceServerConfig, ControlMessage, create_outgoing_call, proceed, received_offer, received_answer,
  received_ice, accept, hangup, Codec, ok, filter_map, ice_server, candidate, parse_message,
}
use signal_call_tunnel.Control.Kinds.{tag}

-- The interface over documents, whatever reads the line and the base64 text.
abbrev pub json_codec : (Text → Option Json) → (Text → Option (List ℕ)) → Codec
json_codec from_str decode = record {
  Value = Json;
  from_str = from_str;
  index = index;
  as_str = as_str;
  as_u64 = as_u64;
  as_bool = as_bool;
  as_array = as_array;
  decode = decode;
}

abbrev strings : List Text → Items
strings [] = nil
strings (s ∷ ss) = cons (str s) (strings ss)

abbrev server_document : IceServerConfig → Json
server_document s = obj (
    field (codes "username") (str s.username)
      (field (codes "password") (str s.password) (field (codes "urls") (arr (strings s.urls)) end)))

abbrev server_documents : List IceServerConfig → Items
server_documents [] = nil
server_documents (s ∷ ss) = cons (server_document s) (server_documents ss)

module _ (encode : List ℕ → Text) where
  abbrev blobs : List (List ℕ) → Items
  blobs [] = nil
  blobs (b ∷ bs) = cons (str (encode b)) (blobs bs)

  abbrev members : ControlMessage → Fields
  members (create_outgoing_call call_id peer_id) =
      field (codes "callId") (num call_id) (field (codes "peerId") (str peer_id) end)
  members (proceed call_id ice_servers hide_ip) = field (codes "callId") (num call_id) (
      field (codes "hideIp") (bool hide_ip)
        (field (codes "iceServers") (arr (server_documents ice_servers)) end))
  members (received_offer call_id peer_id device opaque age sender receiver) =
      field (codes "callId") (num call_id) (
        field (codes "peerId") (str peer_id) (
          field (codes "senderDeviceId") (num device) (
            field (codes "opaque") (str (encode opaque)) (
              field (codes "age") (num age) (
                field (codes "senderIdentityKey") (str (encode sender))
                  (field (codes "receiverIdentityKey") (str (encode receiver)) end))))))
  members (received_answer opaque device sender receiver) =
      field (codes "opaque") (str (encode opaque)) (
        field (codes "senderDeviceId") (num device) (
          field (codes "senderIdentityKey") (str (encode sender))
            (field (codes "receiverIdentityKey") (str (encode receiver)) end)))
  members (received_ice candidates device) =
      field (codes "candidates") (arr (blobs candidates))
        (field (codes "senderDeviceId") (num device) end)
  members accept = end
  members hangup = end

  -- The command as the protocol writes it.
  abbrev pub command : ControlMessage → Json
  command m = obj (field (codes "type") (str (tag m)) (members m))

abbrev pub AllBytes : List ℕ → Type 0
AllBytes [] = Unit
AllBytes (b ∷ bs) = (b < 256) × AllBytes bs

abbrev pub AllBlobs : List (List ℕ) → Type 0
AllBlobs [] = Unit
AllBlobs (b ∷ bs) = AllBytes b × AllBlobs bs

-- A device id fits into a `u32`, and a blob is of bytes.
abbrev pub IsWide : ControlMessage → Type 0
IsWide (received_offer call_id peer_id device opaque age sender receiver) =
    (device < 2 ^ 32) × AllBytes opaque × AllBytes sender × AllBytes receiver
IsWide (received_answer opaque device sender receiver) =
    (device < 2 ^ 32) × AllBytes opaque × AllBytes sender × AllBytes receiver
IsWide (received_ice candidates device) = (device < 2 ^ 32) × AllBlobs candidates
IsWide _ = Unit

mod-u32 : (n : ℕ) → n < 2 ^ 32 → n % 2 ^ 32 ≡ n
mod-u32 n h = omega arith

module _ (from_str : Text → Option Json) (encode : List ℕ → Text) (decode : Text → Option (List ℕ))
    (decode-encode : (bytes : List ℕ) → AllBytes bytes → decode (encode bytes) ≡ some bytes) where
  abbrev codec : Codec
  codec = json_codec from_str decode

  urls-strings : (ss : List Text) → filter_map as_str (items (strings ss)) ≡ ss
  unfolding filter_map
  urls-strings [] = refl
  urls-strings (s ∷ ss) = ap (λ l. s ∷ l) (urls-strings ss)

  server-document : (s : IceServerConfig) → ice_server codec (server_document s) ≡ s
  unfolding ice_server text_eq
  server-document s = rw (urls-strings s.urls)

  servers-documents :
      (ss : List IceServerConfig) → map (ice_server codec) (items (server_documents ss)) ≡ ss
  servers-documents [] = refl
  servers-documents (s ∷ ss) = ap₂ ◌∷◌ (server-document s) (servers-documents ss)

  candidates-blobs :
      (bs : List (List ℕ))
      → AllBlobs bs
      → filter_map (candidate codec) (items (blobs encode bs)) ≡ bs
  unfolding candidate filter_map
  candidates-blobs [] h = refl
  candidates-blobs (b ∷ bs) h = rw (decode-encode b h.0) (ap (λ l. b ∷ l) (candidates-blobs bs h.1))

  -- For all seven kinds of message: if base64 decodes what it encodes, the device id fits 32 bits
  -- and the blobs are bytes, a line that holds the document of a command is parsed to that command,
  -- with every field.
  pub parse_message-command :
      (m : ControlMessage) (line : Text)
      → IsWide m
      → from_str line ≡ some (command encode m)
      → parse_message codec line ≡ ok m
  unfolding parse_message text_eq
  parse_message-command (create_outgoing_call call_id peer_id) line w h = rw h
  parse_message-command (proceed call_id ice_servers hide_ip) line w h =
      rw (h, servers-documents ice_servers)
  parse_message-command (received_offer call_id peer_id device opaque age sender receiver) line w
        h =
      rw (
        h,
        decode-encode opaque w.1,
        decode-encode sender w.2,
        decode-encode receiver w.3,
        mod-u32 device w.0,
      )
  parse_message-command (received_answer opaque device sender receiver) line w h = rw (
    h,
    decode-encode opaque w.1,
    decode-encode sender w.2,
    decode-encode receiver w.3,
    mod-u32 device w.0,
  )
  parse_message-command (received_ice candidates device) line w h =
      rw (h, candidates-blobs candidates w.1, mod-u32 device w.0)
  parse_message-command accept line w h = rw h
  parse_message-command hangup line w h = rw h
