-- ===== src/Tunnel/EventLoop/Routing.antt =====
-- Which requests the event loop of main.rs makes for the messages that it receives.
use signal_call_tunnel.Base.{
  ◌≡◌, refl, sym, subst, ap, ◌∙◌, inl, inr, Bool, true, false, List, [], ◌∷◌, ◌++◌, append-nil,
  append_assoc, if◌then◌else◌, Bool-cases,
}
use signal_call_tunnel.Control.{ControlMessage}
use signal_call_tunnel.Tunnel.EventLoop.{
  Request, Ringrtc, Local, Session, Poll, Received, message, timeout, disconnected, Exit, handle,
  dispatch, event_loop,
}
use signal_call_tunnel.Tunnel.EventLoop.Requests.{
  peer_after, is_hangup, request_of, Due, Routed, finished, hung_up, made, skipped, Handled,
  Handles, handle-Handles,
}

-- The messages that the loop takes; the ones behind a hangup are among them, and not read.
abbrev pub taken_from : Received → List ControlMessage → List ControlMessage
taken_from (message m) later = m ∷ later
taken_from timeout later = later
taken_from disconnected later = []

abbrev pub taken : List Poll → List ControlMessage
taken [] = []
taken (p ∷ polls) = if p.terminate then [] else taken_from p.received (taken polls)

module _ (rtc : Ringrtc) (local : Local) where
  -- What the loop has added to the calls when it stops.
  pub record Routes (s : Session rtc.World) (ms : List ControlMessage)
      (out : Exit × Session rtc.World) : Type 0 where
    pub requests : List Request
    pub added : out.1.calls ≡ s.calls ++ requests
    pub routed : Routed rtc local s.active_peer_id s.world ms requests

  Routes-of :
      (m : ControlMessage) (s t : Session rtc.World) {ms : List ControlMessage}
      {out : Exit × Session rtc.World}
      → is_hangup m ≡ false
      → Routes t ms out
      → t.active_peer_id ≡ peer_after m s.active_peer_id
      → (due : Bool) (u : rtc.World) → Due rtc local m s.world due u
      → Handled rtc local due m u s t
      → Routes s (m ∷ ms) out
  Routes-of m s t {ms} n r peer true u d (calls, world) = record {
    requests = request_of rtc local s.active_peer_id m ∷ r.requests;
    added =
        r.added
        ∙ rw calls (append_assoc s.calls (request_of rtc local s.active_peer_id m ∷ []) r.requests);
    routed = made m n d (
        subst
          (λ p.
            Routed rtc local p (rtc.call (request_of rtc local s.active_peer_id m) u).1 ms
              r.requests)
          peer (subst (λ w. Routed rtc local t.active_peer_id w ms r.requests) world r.routed));
  }
  Routes-of m s t {ms} n r peer false u d (calls, world) = record {
    requests = r.requests;
    added = r.added ∙ ap (λ l. l ++ r.requests) calls;
    routed = skipped m d (
        subst (λ p. Routed rtc local p u ms r.requests) peer
          (subst (λ w. Routed rtc local t.active_peer_id w ms r.requests) world r.routed));
  }

  Routes-after :
      (m : ControlMessage) (s t : Session rtc.World) {ms : List ControlMessage}
      {out : Exit × Session rtc.World}
      → is_hangup m ≡ false
      → Handles rtc local m s t
      → Routes t ms out
      → Routes s (m ∷ ms) out
  Routes-after m s t n h r = Routes-of m s t n r h.peer h.due h.state h.is_due h.handled

  Routes-stop : (s : Session rtc.World) (x : Exit) → Routes s [] (x, s)
  Routes-stop s x = record { requests = []; added = sym (append-nil s.calls); routed = finished }

  calls-hangup :
      (s : Session rtc.World)
      → (handle rtc local ControlMessage.hangup s).calls ≡ s.calls ++ Request.hangup ∷ []
  unfolding handle
  calls-hangup s = refl

  dispatch-Routes :
      (again : Session rtc.World → Exit × Session rtc.World) (r : Received) (s : Session rtc.World)
      (later : List ControlMessage)
      → ((t : Session rtc.World) → Routes t later (again t))
      → Routes s (taken_from r later) (dispatch rtc local again r s)
  unfolding dispatch
  dispatch-Routes again timeout s later h = h s
  dispatch-Routes again disconnected s later h = Routes-stop s Exit.disconnected
  dispatch-Routes again (message ControlMessage.hangup) s later h = record {
    requests = Request.hangup ∷ [];
    added = calls-hangup s;
    routed = hung_up;
  }
  dispatch-Routes again (message m) s later h =
      Routes-after m s (handle rtc local m s) refl (handle-Handles rtc local m s)
        (h (handle rtc local m s))

  -- The requests that the loop adds are, in order, those of the messages that it takes, each for
  -- the peer that the last call or offer before it named, and after a hangup none; a message goes
  -- without a request exactly if its blob does not parse, or one of the tracks of its call cannot be
  -- created in the state of RingRTC that the requests before it have led to.
  pub event_loop-Routes :
      (polls : List Poll) (s : Session rtc.World)
      → Routes s (taken polls) (event_loop rtc local polls s)
  unfolding event_loop
  event_loop-Routes [] s = Routes-stop s Exit.running
  event_loop-Routes (p ∷ polls) s = elim (Bool-cases p.terminate) [
    | inl stop ↦ rw (stop, event_loop) (Routes-stop s Exit.sigterm)
    | inr go ↦
        rw (go, event_loop)
          (dispatch-Routes (λ t. event_loop rtc local polls t) p.received s (taken polls)
            (λ t. event_loop-Routes polls t))
  ]
