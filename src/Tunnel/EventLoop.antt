-- ===== src/Tunnel/EventLoop.antt =====
-- The event loop of main.rs: control messages become calls of RingRTC's call manager.
pub mod Requests
pub mod Routing
pub mod Exits
pub mod Errors
use signal_call_tunnel.Base.{
  ℕ, Bool, true, false, List, [], ◌∷◌, ◌++◌, map, Option, none, some, Text, codes, if◌then◌else◌,
}
use signal_call_tunnel.Channel.{Channel}
use signal_call_tunnel.Platform.{CallMediaType, audio}
use signal_call_tunnel.Control.{IceServerConfig, ControlMessage}
use signal_call_tunnel.Control.Threads.{send_line}

-- The arguments of `IceServer::new`.
pub record IceServer : Type 0 where
  pub username : Text
  pub password : Text
  pub hostname : Text
  pub urls : List Text

-- A call of the call manager, with what it is given.
pub data Request : Type 0 where
  create_outgoing_call :
      (peer : Text) (call_id : ℕ) (media : CallMediaType) (local_device_id : ℕ) → Request
  proceed : (call_id : ℕ) (hide_ip : Bool) (ice_servers : List IceServer) → Request
  received_offer :
      (peer : Text) (call_id : ℕ) (media : CallMediaType) (opaque : List ℕ) (age_ms : ℕ)
      (sender_device_id receiver_device_id : ℕ) (sender_identity_key receiver_identity_key : List ℕ)
      → Request
  received_answer :
      (peer : Text) (call_id : ℕ) (opaque : List ℕ) (sender_device_id : ℕ)
      (sender_identity_key receiver_identity_key : List ℕ)
      → Request
  received_ice :
      (peer : Text) (call_id : ℕ) (candidates : List (List ℕ)) (sender_device_id : ℕ) → Request
  accept_call : (call_id : ℕ) → Request
  hangup : Request

-- What the loop uses of RingRTC. `call` answers `none` for `Ok` and the text of the error otherwise;
-- the factory's three constructors and the two parsers say whether they succeed.
pub record Ringrtc : Type 1 where
  pub World : Type 0
  pub call : Request → World → Option Text × World
  pub create_outgoing_audio_track : World → Bool × World
  pub create_outgoing_video_source : World → Bool × World
  pub create_outgoing_video_track : World → Bool × World
  pub offer_parses : CallMediaType → List ℕ → Bool
  pub answer_parses : List ℕ → Bool

-- The two fields of the configuration that the loop keeps.
pub record Local : Type 0 where
  pub call_id : ℕ
  pub local_device_id : ℕ

-- `calls` are the requests that the loop has made, in order.
pub record Session (World : Type 0) : Type 0 where
  pub active_peer_id : Text
  pub world : World
  pub lines : Channel Text
  pub calls : List Request

unfoldable pub ice_server : IceServerConfig → IceServer
ice_server s = record { username = s.username; password = s.password; hostname = []; urls = s.urls }

unfoldable pub error_line : Text → Text → Text
error_line what e =
    codes "{\"type\":\"error\",\"message\":\"" ++ (what ++ (codes ": " ++ (e ++ codes "\"}")))

-- How an iteration ends: SIGTERM was seen, or what `recv_timeout` returned.
pub data Received : Type 0 where
  message : ControlMessage → Received
  timeout disconnected : Received

pub record Poll : Type 0 where
  pub terminate : Bool
  pub received : Received

pub data Exit : Type 0 where
  running sigterm disconnected hung_up : Exit

module _ (rtc : Ringrtc) (local : Local) where
  unfoldable pub call : Request → Session rtc.World → Option Text × Session rtc.World
  call r s =
      let (answer, world) = rtc.call r s.world in
      (answer, record s { world = world; calls = s.calls ++ r ∷ [] })

  -- An error that the parent is told of.
  unfoldable pub report : Text → Option Text × Session rtc.World → Session rtc.World
  report what (none, s) = s
  report what (some e, s) = record s { lines = send_line (error_line what e) s.lines }

  unfoldable pub create_tracks : rtc.World → Bool × rtc.World
  create_tracks w =
      let (audio_track, w1) = rtc.create_outgoing_audio_track w in
      let (video_source, w2) = rtc.create_outgoing_video_source w1 in
      let with_source = rtc.create_outgoing_video_track w2 in
      let with_track = if video_source then with_source else (false, w2) in
      if audio_track then with_track else (false, w1)

  unfoldable pub handle : ControlMessage → Session rtc.World → Session rtc.World
  unfolding call report create_tracks
  handle (ControlMessage.create_outgoing_call cid pid) s =
      report (codes "failed to create outgoing call") (
        call (create_outgoing_call pid cid audio local.local_device_id)
          (record s { active_peer_id = pid }))
  handle (ControlMessage.proceed cid ice_servers hide_ip) s =
      let (created, world) = create_tracks s.world in
      let s' = record s { world = world } in
      if created
      then report (codes "failed to proceed")
          (call (proceed cid hide_ip (map ice_server ice_servers)) s')
      else s'
  handle
        (ControlMessage.received_offer cid pid sender_device_id opaque age_ms sender_key
          receiver_key)
        s =
      let s' = record s { active_peer_id = pid } in
      if rtc.offer_parses audio opaque
      then (call
          (received_offer pid cid audio opaque age_ms sender_device_id local.local_device_id
            sender_key receiver_key)
          s').1
      else s'
  handle (ControlMessage.received_answer opaque sender_device_id sender_key receiver_key) s =
      if rtc.answer_parses opaque
      then (call
          (received_answer s.active_peer_id local.call_id opaque sender_device_id sender_key
            receiver_key)
          s).1
      else s
  handle (ControlMessage.received_ice candidates sender_device_id) s =
      (call (received_ice s.active_peer_id local.call_id candidates sender_device_id) s).1
  handle ControlMessage.accept s = (call (accept_call local.call_id) s).1
  handle ControlMessage.hangup s = (call hangup s).1

  -- What a received message does to the loop: `again` is the next iteration.
  unfoldable pub dispatch :
      (Session rtc.World → Exit × Session rtc.World)
      → Received
      → Session rtc.World
      → Exit × Session rtc.World
  dispatch again timeout s = again s
  dispatch again disconnected s = (Exit.disconnected, s)
  dispatch again (message ControlMessage.hangup) s = (hung_up, handle ControlMessage.hangup s)
  dispatch again (message m) s = again (handle m s)

  -- The loop over the iterations that happen.
  unfoldable pub event_loop : List Poll → Session rtc.World → Exit × Session rtc.World
  unfolding dispatch
  event_loop [] s = (running, s)
  event_loop (p ∷ polls) s = elim p.terminate [
    | true ↦ (sigterm, s)
    | false ↦ dispatch (λ t. event_loop polls t) p.received s
  ]

-- `PeerId::from("remote")`, before a message names a peer.
unfoldable pub session : {World : Type 0} → World → Channel Text → Session World
session world lines = record {
  active_peer_id = codes "remote";
  world = world;
  lines = lines;
  calls = [];
}
