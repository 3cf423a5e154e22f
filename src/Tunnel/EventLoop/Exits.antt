-- ===== src/Tunnel/EventLoop/Exits.antt =====
-- How the event loop of main.rs ends.
use signal_call_tunnel.Base.{
  ◌≡◌, refl, ◌⊎◌, inl, inr, List, [], ◌∷◌, ◌++◌, Bool-cases, if◌then◌else◌,
}
use signal_call_tunnel.Control.{ControlMessage}
use signal_call_tunnel.Tunnel.EventLoop.{
  Ringrtc, Local, Session, Poll, Received, message, timeout, disconnected, Exit, running, sigterm,
  hung_up, handle, dispatch, event_loop,
}

-- The first reason to stop among the iterations.
abbrev pub ending_by : Received → Exit → Exit
ending_by timeout later = later
ending_by disconnected later = Exit.disconnected
ending_by (message ControlMessage.hangup) later = hung_up
ending_by (message m) later = later

abbrev pub ending : List Poll → Exit
ending [] = running
ending (p ∷ polls) = if p.terminate then sigterm else ending_by p.received (ending polls)

module _ (rtc : Ringrtc) (local : Local) where
  dispatch-ending :
      (again again' : Session rtc.World → Exit × Session rtc.World) (r : Received)
      (s : Session rtc.World) (later : Exit)
      → ((t : Session rtc.World)
          → ((again t).0 ≡ later) × ((later ≡ running) ⊎ (again' t ≡ again t)))
      → ((dispatch rtc local again r s).0 ≡ ending_by r later)
        × ((ending_by r later ≡ running)
            ⊎ (dispatch rtc local again' r s ≡ dispatch rtc local again r s))
  unfolding dispatch
  dispatch-ending again again' timeout s later h = h s
  dispatch-ending again again' disconnected s later h = (refl, inr refl)
  dispatch-ending again again' (message ControlMessage.hangup) s later h = (refl, inr refl)
  dispatch-ending again again' (message m) s later h = h (handle rtc local m s)

  -- The loop ends for the first reason there is, a hangup, a closed channel or SIGTERM, and then
  -- nothing that comes later, not even a message that waits, has an effect.
  pub event_loop-ending :
      (polls later : List Poll) (s : Session rtc.World)
      → ((event_loop rtc local polls s).0 ≡ ending polls)
        × ((ending polls ≡ running)
            ⊎ (event_loop rtc local (polls ++ later) s ≡ event_loop rtc local polls s))
  unfolding event_loop
  event_loop-ending [] later s = (refl, inl refl)
  event_loop-ending (p ∷ polls) later s = elim (Bool-cases p.terminate) [
    | inl stop ↦ rw (stop, event_loop) (refl, inr refl)
    | inr go ↦
        rw (go, event_loop)
          (dispatch-ending (λ t. event_loop rtc local polls t)
            (λ t. event_loop rtc local (polls ++ later) t) p.received s (ending polls)
            (λ t. event_loop-ending polls later t))
  ]
