-- ===== src/Platform/Callbacks.antt =====
-- All callbacks of RingRTC that platform.rs implements: `SignalingSender`, `CallStateHandler` and
-- `GroupUpdateHandler`.
use signal_call_tunnel.Base.{
  ◌≡◌, refl, ap, ◌∙◌, Bool, true, false, List, [], ◌∷◌, ◌++◌, map, Text, if◌then◌else◌,
}
use signal_call_tunnel.Channel.{Channel, send}
use signal_call_tunnel.Platform.{CallMediaType, PlatformEvent, relay_signaling, handle_call_state}
use signal_call_tunnel.Platform.Relay.{
  Notice, signaling, state, notice_event, callbacks, callbacks-queue,
}

-- A call by RingRTC. Of the callbacks beside the two notices the arguments that none reads are left
-- out.
pub data Callback (H R : Type 0) : Type 0 where
  notice : Notice H R → Callback H R
  send_call_message send_call_message_to_group send_call_message_to_adhoc_group : Callback H R
  handle_remote_audio_state handle_remote_video_state handle_remote_sharing_screen :
      (enabled : Bool) → Callback H R
  handle_network_route handle_audio_levels : Callback H R
  handle_low_bandwidth_for_video : (recovered : Bool) → Callback H R
  handle_group_update : Callback H R

-- What a callback returns to RingRTC.
pub data Answer : Type 0 where
  ok err : Answer

module _ {H R : Type 0} (debug_hangup : H → Text) (debug_media : CallMediaType → Text)
    (debug_reason : R → Text) where
  unfoldable pub respond : Callback H R → Channel PlatformEvent → Answer × Channel PlatformEvent
  unfolding relay_signaling handle_call_state
  respond (notice (signaling call_id m)) events =
      (ok, relay_signaling debug_hangup call_id m events)
  respond (notice (state s)) events = (ok, handle_call_state debug_media debug_reason s events)
  respond send_call_message events = (ok, events)
  respond send_call_message_to_group events = (ok, events)
  respond send_call_message_to_adhoc_group events = (ok, events)
  respond (handle_remote_audio_state enabled) events = (ok, events)
  respond (handle_remote_video_state enabled) events = (ok, events)
  respond (handle_remote_sharing_screen enabled) events = (ok, events)
  respond handle_network_route events = (ok, events)
  respond handle_audio_levels events = (ok, events)
  respond (handle_low_bandwidth_for_video recovered) events = (ok, events)
  respond handle_group_update events = (ok, events)

  unfoldable pub respond_all :
      List (Callback H R) → Channel PlatformEvent → List Answer × Channel PlatformEvent
  unfolding respond
  respond_all [] events = ([], events)
  respond_all (c ∷ cs) events =
      let (answer, events1) = respond c events in
      let (answers, events2) = respond_all cs events1 in (answer ∷ answers, events2)

  -- The notices among the calls.
  abbrev pub notices_of : List (Callback H R) → List (Notice H R)
  notices_of [] = []
  notices_of (notice n ∷ cs) = n ∷ notices_of cs
  notices_of (c ∷ cs) = notices_of cs

  -- The channel with the events of notices, if there is still a receiver.
  abbrev pub extended : List (Notice H R) → Channel PlatformEvent → Channel PlatformEvent
  extended ns events =
      if events.is_open
      then record events {
        queue = events.queue ++ map (notice_event debug_hangup debug_media debug_reason) ns;
      }
      else events

  callbacks-closed :
      (ns : List (Notice H R)) (q : List PlatformEvent)
      → callbacks debug_hangup debug_media debug_reason ns (record { is_open = false; queue = q })
        ≡ record { is_open = false; queue = q }
  unfolding relay_signaling handle_call_state send
  callbacks-closed [] q = refl
  callbacks-closed (signaling call_id m ∷ ns) q = callbacks-closed ns q
  callbacks-closed (state s ∷ ns) q = callbacks-closed ns q

  callbacks-extended :
      (ns : List (Notice H R)) (is_open : Bool) (q : List PlatformEvent)
      → callbacks debug_hangup debug_media debug_reason ns (record { is_open = is_open; queue = q })
        ≡ extended ns (record { is_open = is_open; queue = q })
  callbacks-extended ns true q = callbacks-queue debug_hangup debug_media debug_reason ns q
  callbacks-extended ns false q = callbacks-closed ns q

  respond_all-callbacks :
      (cs : List (Callback H R)) (events : Channel PlatformEvent)
      → ((respond_all cs events).0 ≡ map (λ c. ok) cs)
        × ((respond_all cs events).1
            ≡ callbacks debug_hangup debug_media debug_reason (notices_of cs) events)
  unfolding respond_all respond
  respond_all-callbacks [] events = (refl, refl)
  respond_all-callbacks (notice (signaling call_id m) ∷ cs) events =
      let (a, b) = respond_all-callbacks cs (relay_signaling debug_hangup call_id m events) in
      (ap (λ l. ok ∷ l) a, b)
  respond_all-callbacks (notice (state s) ∷ cs) events =
      let (a, b) = respond_all-callbacks cs (handle_call_state debug_media debug_reason s events) in
      (ap (λ l. ok ∷ l) a, b)
  respond_all-callbacks (send_call_message ∷ cs) events =
      let (a, b) = respond_all-callbacks cs events in (ap (λ l. ok ∷ l) a, b)
  respond_all-callbacks (c ∷ cs) events =
      let (a, b) = respond_all-callbacks cs events in (ap (λ l. ok ∷ l) a, b)

  -- Whatever RingRTC calls in whatever order, each callback returns `Ok`, also when no one receives the
  -- events any more; and the calls add one event for each signaling message and each state change, in
  -- order, if there is a receiver, and nothing otherwise.
  pub respond_all_lem :
      (cs : List (Callback H R)) (events : Channel PlatformEvent)
      → ((respond_all cs events).0 ≡ map (λ c. ok) cs)
        × ((respond_all cs events).1 ≡ extended (notices_of cs) events)
  respond_all_lem cs events =
      let (a, b) = respond_all-callbacks cs events in
      (a, b ∙ callbacks-extended (notices_of cs) events.is_open events.queue)
