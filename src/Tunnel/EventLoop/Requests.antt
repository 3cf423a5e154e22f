-- ===== src/Tunnel/EventLoop/Requests.antt =====
-- The request that each message is due, by which the event loop of main.rs is judged.
use signal_call_tunnel.Base.{
  ◌≡◌, refl, subst, inl, inr, Bool, true, false, List, [], ◌∷◌, ◌++◌, map, Option, none, some, Text,
  codes, Bool-cases,
}
use signal_call_tunnel.Platform.{audio}
use signal_call_tunnel.Control.{ControlMessage}
use signal_call_tunnel.Tunnel.EventLoop.{
  Request, Ringrtc, create_tracks, call, report, Local, Session, ice_server, handle,
}

-- The peer that answers and candidates go to: the one that a call or an offer named last.
abbrev pub peer_after : ControlMessage → Text → Text
peer_after (ControlMessage.create_outgoing_call cid pid) peer = pid
peer_after (ControlMessage.received_offer cid pid device opaque age sender receiver) peer = pid
peer_after _ peer = peer

abbrev pub is_hangup : ControlMessage → Bool
is_hangup ControlMessage.hangup = true
is_hangup _ = false

module _ (rtc : Ringrtc) (local : Local) where
  -- The request for a message, where answers and candidates go to `peer`.
  abbrev pub request_of : Text → ControlMessage → Request
  request_of peer (ControlMessage.create_outgoing_call cid pid) =
      Request.create_outgoing_call pid cid audio local.local_device_id
  request_of peer (ControlMessage.proceed cid servers hide_ip) =
      Request.proceed cid hide_ip (map ice_server servers)
  request_of peer (ControlMessage.received_offer cid pid device opaque age sender receiver) =
      Request.received_offer pid cid audio opaque age device local.local_device_id sender receiver
  request_of peer (ControlMessage.received_answer opaque device sender receiver) =
      Request.received_answer peer local.call_id opaque device sender receiver
  request_of peer (ControlMessage.received_ice candidates device) =
      Request.received_ice peer local.call_id candidates device
  request_of peer ControlMessage.accept = Request.accept_call local.call_id
  request_of peer ControlMessage.hangup = Request.hangup

  -- Whether the tracks of a call can be created, in a state of RingRTC, and the state behind that: the
  -- audio track, the video source and the video track, each after the one before it.
  pub data Tracks (w : rtc.World) : Bool → rtc.World → Type 0 where
    no_audio_track :
        (rtc.create_outgoing_audio_track w).0 ≡ false
        → Tracks w false (rtc.create_outgoing_audio_track w).1
    no_video_source :
        (rtc.create_outgoing_audio_track w).0 ≡ true
        → (rtc.create_outgoing_video_source (rtc.create_outgoing_audio_track w).1).0 ≡ false
        → Tracks w false (rtc.create_outgoing_video_source (rtc.create_outgoing_audio_track w).1).1
    video_track :
        {created : Bool} {u : rtc.World}
        → (rtc.create_outgoing_audio_track w).0 ≡ true
        → (rtc.create_outgoing_video_source (rtc.create_outgoing_audio_track w).1).0 ≡ true
        → rtc.create_outgoing_video_track
            (rtc.create_outgoing_video_source (rtc.create_outgoing_audio_track w).1).1
          ≡ (created, u)
        → Tracks w created u

  -- Whether a message is due a request, in a state of RingRTC, and the state in which it is made: not
  -- if its blob does not parse, or the tracks of its call cannot be created.
  abbrev pub Due : ControlMessage → rtc.World → Bool → rtc.World → Type 0
  Due (ControlMessage.proceed cid servers hide_ip) w due u = Tracks w due u
  Due (ControlMessage.received_offer cid pid device opaque age sender receiver) w due u =
      (rtc.offer_parses audio opaque ≡ due) × (u ≡ w)
  Due (ControlMessage.received_answer opaque device sender receiver) w due u =
      (rtc.answer_parses opaque ≡ due) × (u ≡ w)
  Due m w due u = (due ≡ true) × (u ≡ w)

  -- The requests that messages lead to, from a peer and a state of RingRTC on: one for each message
  -- that is due one, in order, for the peer named last, up to and including a hangup.
  pub data Routed : Text → rtc.World → List ControlMessage → List Request → Type 0 where
    finished : {peer : Text} {w : rtc.World} → Routed peer w [] []
    hung_up :
        {peer : Text} {w : rtc.World} {ms : List ControlMessage}
        → Routed peer w (ControlMessage.hangup ∷ ms) (Request.hangup ∷ [])
    made :
        {peer : Text} {w u : rtc.World} {ms : List ControlMessage} {rs : List Request}
        (m : ControlMessage)
        → is_hangup m ≡ false
        → Due m w true u
        → Routed (peer_after m peer) (rtc.call (request_of peer m) u).1 ms rs
        → Routed peer w (m ∷ ms) (request_of peer m ∷ rs)
    skipped :
        {peer : Text} {w u : rtc.World} {ms : List ControlMessage} {rs : List Request}
        (m : ControlMessage)
        → Due m w false u
        → Routed (peer_after m peer) u ms rs
        → Routed peer w (m ∷ ms) rs

  -- What a message does if it is due a request, and if it is not.
  abbrev pub Handled :
      Bool → ControlMessage → rtc.World → Session rtc.World → Session rtc.World → Type 0
  Handled true m u s s' =
      (s'.calls ≡ s.calls ++ request_of s.active_peer_id m ∷ [])
      × (s'.world ≡ (rtc.call (request_of s.active_peer_id m) u).1)
  Handled false m u s s' = (s'.calls ≡ s.calls) × (s'.world ≡ u)

  pub record Handles (m : ControlMessage) (s s' : Session rtc.World) : Type 0 where
    pub peer : s'.active_peer_id ≡ peer_after m s.active_peer_id
    pub due : Bool
    pub state : rtc.World
    pub is_due : Due m s.world due state
    pub handled : Handled due m state s s'

  create_tracks-Tracks :
      (w : rtc.World) → Tracks w (create_tracks rtc local w).0 (create_tracks rtc local w).1
  unfolding create_tracks
  create_tracks-Tracks w = elim (Bool-cases (rtc.create_outgoing_audio_track w).0) [
    | inr undue ↦ rw undue (no_audio_track undue)
    | inl has_audio ↦
        elim (Bool-cases
          (rtc.create_outgoing_video_source (rtc.create_outgoing_audio_track w).1).0) [
            | inr undue ↦ rw (has_audio, undue) (no_video_source has_audio undue)
            | inl has_source ↦ rw (has_audio, has_source) (video_track has_audio has_source refl)
          ]
  ]

  report-kept :
      (what : Text) (o : Option Text) (s : Session rtc.World)
      → ((report rtc local what (o, s)).active_peer_id ≡ s.active_peer_id)
        × ((report rtc local what (o, s)).world ≡ s.world)
        × ((report rtc local what (o, s)).calls ≡ s.calls)
  unfolding report
  report-kept what none s = (refl, refl, refl)
  report-kept what (some e) s = (refl, refl, refl)

  pub handle-Handles :
      (m : ControlMessage) (s : Session rtc.World) → Handles m s (handle rtc local m s)
  unfolding handle call
  handle-Handles (ControlMessage.create_outgoing_call cid pid) s =
      let r : Request = Request.create_outgoing_call pid cid audio local.local_device_id in
      let k =
        report-kept (codes "failed to create outgoing call") (rtc.call r s.world).0 (record s {
          active_peer_id = pid;
          world = (rtc.call r s.world).1;
          calls = s.calls ++ r ∷ [];
        }) in
      record {
        peer = k.0;
        due = true;
        state = s.world;
        is_due = (refl, refl);
        handled = (k.2, k.1);
      }
  handle-Handles (ControlMessage.proceed cid servers hide_ip) s =
      let m : ControlMessage = ControlMessage.proceed cid servers hide_ip in
      let t = create_tracks-Tracks s.world in
      let w : rtc.World = (create_tracks rtc local s.world).1 in
      let r : Request = request_of s.active_peer_id m in
      let k =
        report-kept (codes "failed to proceed") (rtc.call r w).0
          (record s { world = (rtc.call r w).1; calls = s.calls ++ r ∷ [] }) in
      elim (Bool-cases (create_tracks rtc local s.world).0) [
        | inl due ↦ record {
          peer = rw (due, handle) k.0;
          due = true;
          state = w;
          is_due = subst (λ b. Tracks s.world b w) due t;
          handled = (rw (due, handle) k.2, rw (due, handle) k.1);
        }
        | inr undue ↦ record {
          peer = rw (undue, handle) refl;
          due = false;
          state = w;
          is_due = subst (λ b. Tracks s.world b w) undue t;
          handled = (rw (undue, handle) refl, rw (undue, handle) refl);
        }
      ]
  handle-Handles (ControlMessage.received_offer cid pid device opaque age sender receiver) s =
      elim (Bool-cases (rtc.offer_parses audio opaque)) [
        | inl due ↦ record {
          peer = rw (due, handle) refl;
          due = true;
          state = s.world;
          is_due = (due, refl);
          handled = (rw (due, handle) refl, rw (due, handle) refl);
        }
        | inr undue ↦ record {
          peer = rw (undue, handle) refl;
          due = false;
          state = s.world;
          is_due = (undue, refl);
          handled = (rw (undue, handle) refl, rw (undue, handle) refl);
        }
      ]
  handle-Handles (ControlMessage.received_answer opaque device sender receiver) s =
      elim (Bool-cases (rtc.answer_parses opaque)) [
        | inl due ↦ record {
          peer = rw (due, handle) refl;
          due = true;
          state = s.world;
          is_due = (due, refl);
          handled = (rw (due, handle) refl, rw (due, handle) refl);
        }
        | inr undue ↦ record {
          peer = rw (undue, handle) refl;
          due = false;
          state = s.world;
          is_due = (undue, refl);
          handled = (rw (undue, handle) refl, rw (undue, handle) refl);
        }
      ]
  handle-Handles m s = record {
    peer = refl;
    due = true;
    state = s.world;
    is_due = (refl, refl);
    handled = (refl, refl);
  }
