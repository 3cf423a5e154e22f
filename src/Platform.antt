-- ===== src/Platform.antt =====
-- signal-call-tunnel/src/platform.rs: the events for the parent process, their JSON lines, and the
-- callbacks of RingRTC that produce them.
pub mod Lines
pub mod Parent
pub mod Relay
pub mod Callbacks
pub mod UnitTests
mod Tests
use signal_call_tunnel.Base.{
  ℕ, Bool, true, false, List, [], ◌∷◌, ◌++◌, map, Option, none, some, Text, codes, decimal,
}
use signal_call_tunnel.Channel.{Channel, send}
use signal_call_tunnel.Config.{to_ascii_lowercase}

pub data CallMediaType : Type 0 where
  audio video : CallMediaType

-- Blobs are lists of bytes, a call id is the number that `u64::from` gives.
pub data SignalingEvent : Type 0 where
  send_offer : (opaque : List ℕ) (call_media_type : CallMediaType) → SignalingEvent
  send_answer : (opaque : List ℕ) → SignalingEvent
  send_ice : (candidates : List (List ℕ)) → SignalingEvent
  send_hangup : (hangup_type : Text) → SignalingEvent
  send_busy : SignalingEvent

pub data PlatformEvent : Type 0 where
  send_signaling : (call_id : ℕ) (message : SignalingEvent) → PlatformEvent
  state_change : (state : Text) (reason : Option Text) → PlatformEvent

-- `[String]::join`.
unfoldable pub join : Text → List Text → Text
join separator [] = []
join separator (s ∷ []) = s
join separator (s ∷ t ∷ rest) = s ++ (separator ++ join separator (t ∷ rest))

abbrev pub media_type : CallMediaType → Text
media_type audio = codes "audio"
media_type video = codes "video"

-- `encode` is `BASE64.encode`.
module _ (encode : List ℕ → Text) where
  unfoldable pub candidate_json : List ℕ → Text
  candidate_json c = codes "{\"opaque\":\"" ++ (encode c ++ codes "\"}")

  unfoldable pub signaling_json : ℕ → SignalingEvent → Text
  unfolding candidate_json join
  signaling_json call_id (send_offer opaque media) =
      codes "{\"type\":\"sendOffer\",\"callId\":"
      ++ (decimal call_id
          ++ (codes ",\"opaque\":\""
              ++ (encode opaque
                  ++ (codes "\",\"callMediaType\":\"" ++ (media_type media ++ codes "\"}")))))
  signaling_json call_id (send_answer opaque) =
      codes "{\"type\":\"sendAnswer\",\"callId\":"
      ++ (decimal call_id ++ (codes ",\"opaque\":\"" ++ (encode opaque ++ codes "\"}")))
  signaling_json call_id (send_ice candidates) =
      codes "{\"type\":\"sendIce\",\"callId\":"
      ++ (decimal call_id
          ++ (codes ",\"candidates\":["
              ++ (join (codes ",") (map candidate_json candidates) ++ codes "]}")))
  signaling_json call_id (send_hangup hangup_type) =
      codes "{\"type\":\"sendHangup\",\"callId\":"
      ++ (decimal call_id ++ (codes ",\"hangupType\":\"" ++ (hangup_type ++ codes "\"}")))
  signaling_json call_id send_busy =
      codes "{\"type\":\"sendBusy\",\"callId\":" ++ (decimal call_id ++ codes "}")

  unfoldable pub to_json : PlatformEvent → Text
  unfolding signaling_json
  to_json (send_signaling call_id message) = signaling_json call_id message
  to_json (state_change state (some reason)) =
      codes "{\"type\":\"stateChange\",\"state\":\""
      ++ (state ++ (codes "\",\"reason\":\"" ++ (reason ++ codes "\"}")))
  to_json (state_change state none) =
      codes "{\"type\":\"stateChange\",\"state\":\"" ++ (state ++ codes "\"}")

-- `signaling::Message`, as far as the match reads it; a hangup is of a type that RingRTC defines.
pub data Message (H : Type 0) : Type 0 where
  offer : (opaque : List ℕ) (call_media_type : CallMediaType) → Message H
  answer : (opaque : List ℕ) → Message H
  ice : (candidates : List (List ℕ)) → Message H
  hangup : H → Message H
  busy : Message H

-- `debug_hangup` is the `Debug` text of the type in `Hangup::to_type_and_device_id`: the ASCII name
-- of a variant.
module _ {H : Type 0} (debug_hangup : H → Text) where
  unfoldable pub event_of : Message H → SignalingEvent
  event_of (offer opaque media) = send_offer opaque media
  event_of (answer opaque) = send_answer opaque
  event_of (ice candidates) = send_ice candidates
  event_of (hangup h) = send_hangup (map to_ascii_lowercase (debug_hangup h))
  event_of busy = send_busy

  -- The result is always `Ok`; the new state of the event channel is what the call leaves.
  unfoldable pub relay_signaling : ℕ → Message H → Channel PlatformEvent → Channel PlatformEvent
  unfolding event_of
  relay_signaling call_id message events =
      (send (send_signaling call_id (event_of message)) events).1

-- `native::CallState`, as far as the match reads it; `R` is the type of the reasons.
pub data CallState (R : Type 0) : Type 0 where
  incoming outgoing : CallMediaType → CallState R
  ringing connected connecting : CallState R
  ended rejected : R → CallState R
  concluded : CallState R

-- `Debug` of the media type and of the reasons.
module _ {R : Type 0} (debug_media : CallMediaType → Text) (debug_reason : R → Text) where
  unfoldable pub state_of : CallState R → Text × Option Text
  state_of (incoming media) = (codes "Incoming(" ++ (debug_media media ++ codes ")"), none)
  state_of (outgoing media) = (codes "Outgoing(" ++ (debug_media media ++ codes ")"), none)
  state_of ringing = (codes "Ringing", none)
  state_of connected = (codes "Connected", none)
  state_of connecting = (codes "Connecting", none)
  state_of (ended reason) = (codes "Ended", some (debug_reason reason))
  state_of (rejected reason) = (codes "Rejected", some (debug_reason reason))
  state_of concluded = (codes "Concluded", none)

  unfoldable pub handle_call_state : CallState R → Channel PlatformEvent → Channel PlatformEvent
  unfolding state_of
  handle_call_state call_state events =
      let (state, reason) = state_of call_state in (send (state_change state reason) events).1
