-- ===== src/Tunnel/Forward.antt =====
-- The thread of main.rs that forwards the platform's events to the control channel.
pub mod EndToEnd
pub mod Heard
mod Tests
use signal_call_tunnel.Base.{ℕ, List, [], ◌∷◌, Text}
use signal_call_tunnel.Channel.{Channel}
use signal_call_tunnel.Platform.{PlatformEvent}
use signal_call_tunnel.Control.Threads.{send_event}

-- `for event in event_receiver`: the events that the channel gives until it is closed.
unfoldable pub forward : (List ℕ → Text) → List PlatformEvent → Channel Text → Channel Text
forward encode [] lines = lines
forward encode (event ∷ events) lines = forward encode events (send_event encode event lines)
