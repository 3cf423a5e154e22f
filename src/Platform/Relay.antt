-- ===== src/Platform/Relay.antt =====
-- The callbacks of platform.rs and the event channel.
use signal_call_tunnel.Base.{
  ℕ, ◌≡◌, refl, true, List, [], ◌∷◌, ◌++◌, append_assoc, append-nil, map, Text,
}
use signal_call_tunnel.Channel.{Channel, send}
use signal_call_tunnel.Platform.{
  CallMediaType, PlatformEvent, send_signaling, state_change, Message, CallState, event_of,
  relay_signaling, state_of, handle_call_state,
}

-- What RingRTC tells the tunnel, in the order in which it does.
pub data Notice (H R : Type 0) : Type 0 where
  signaling : (call_id : ℕ) → Message H → Notice H R
  state : CallState R → Notice H R

module _ {H R : Type 0} (debug_hangup : H → Text) (debug_media : CallMediaType → Text)
    (debug_reason : R → Text) where
  abbrev pub notice_event : Notice H R → PlatformEvent
  notice_event (signaling call_id m) = send_signaling call_id (event_of debug_hangup m)
  notice_event (state s) =
      let (st, reason) = state_of debug_media debug_reason s in state_change st reason

  abbrev pub callback : Notice H R → Channel PlatformEvent → Channel PlatformEvent
  callback (signaling call_id m) = relay_signaling debug_hangup call_id m
  callback (state s) = handle_call_state debug_media debug_reason s

  abbrev pub callbacks : List (Notice H R) → Channel PlatformEvent → Channel PlatformEvent
  callbacks [] events = events
  callbacks (n ∷ ns) events = callbacks ns (callback n events)

  pub callback-open :
      (n : Notice H R) (q : List PlatformEvent)
      → callback n (record { is_open = true; queue = q })
        ≡ record { is_open = true; queue = q ++ notice_event n ∷ [] }
  unfolding relay_signaling handle_call_state send
  callback-open (signaling call_id m) q = refl
  callback-open (state s) q = refl

  -- While the event channel is open every notice adds its event, in order, and nothing is lost.
  pub callbacks-queue :
      (ns : List (Notice H R)) (q : List PlatformEvent)
      → callbacks ns (record { is_open = true; queue = q })
        ≡ record { is_open = true; queue = q ++ map notice_event ns }
  callbacks-queue [] q = rw append-nil
  callbacks-queue (n ∷ ns) q =
      rw (callback-open n q, callbacks-queue ns (q ++ notice_event n ∷ []), append_assoc)
