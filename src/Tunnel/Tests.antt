-- ===== src/Tunnel/Tests.antt =====
-- main.rs at concrete inputs.
use signal_call_tunnel.Base.{
  ℕ, suc, ◌==◌, if◌then◌else◌, ◌≡◌, ◌↔◌, ◌⊎◌, refl, true, false, List, [], ◌∷◌, ◌++◌, Option, none,
  some, Text, codes, arith, text_eq,
}
use signal_call_tunnel.Channel.{channel}
use signal_call_tunnel.Platform.{audio}
use signal_call_tunnel.Config.{Config, resolve_audio_mode}
use signal_call_tunnel.Control.{ControlMessage}
use signal_call_tunnel.Json.{render, escape, escape_char}
use signal_call_tunnel.Tunnel.EventLoop.{
  Request, Ringrtc, Local, Session, Poll, message, timeout, Exit, error_line, handle, event_loop,
  session,
}
use signal_call_tunnel.Tunnel.EventLoop.Routing.{Routes, taken, event_loop-Routes}
use signal_call_tunnel.Tunnel.EventLoop.Exits.{ending, event_loop-ending}
use signal_call_tunnel.Tunnel.EventLoop.Errors.{
  error_document, error_line-render_iff, lines_after, lines-handle,
}
use signal_call_tunnel.Tunnel.Setup.{Host, setup, device_index}
use signal_call_tunnel.Tunnel.Setup.Devices.{IsFound, device_index-IsFound}
use signal_call_tunnel.Tunnel.Setup.Ready.{IsPipeSetup, setup-IsPipeSetup}

-- A call manager that counts its requests, and refuses the fourth.
abbrev answer_at : ℕ → Option Text
answer_at n = if n == 3 then some (codes "busy") else none

abbrev ringrtc : Ringrtc
ringrtc = record {
  World = ℕ;
  call = λ r n. (answer_at n, suc n);
  create_outgoing_audio_track = λ n. (true, n);
  create_outgoing_video_source = λ n. (true, n);
  create_outgoing_video_track = λ n. (true, n);
  offer_parses = λ media opaque. true;
  answer_parses = λ opaque. text_eq opaque (7 ∷ []);
}

abbrev local : Local
local = record { call_id = 9; local_device_id = 2 }

abbrev received : ControlMessage → Poll
received m = record { terminate = false; received = message m }

abbrev idle : Poll
idle = record { terminate = false; received = timeout }

abbrev start : Session ℕ
start = session 0 channel

abbrev answer : ControlMessage
answer = ControlMessage.received_answer (7 ∷ []) 1 [] []

abbrev polls : List Poll
polls =
    received answer
    ∷ received (ControlMessage.create_outgoing_call 9 (codes "bob"))
    ∷ idle
    ∷ received answer
    ∷ received ControlMessage.hangup
    ∷ received ControlMessage.accept
    ∷ []

requests_test :
    (event_loop ringrtc local polls start).1.calls
    ≡ Request.received_answer (codes "remote") 9 (7 ∷ []) 1 [] []
      ∷ Request.create_outgoing_call (codes "bob") 9 audio 2
      ∷ Request.received_answer (codes "bob") 9 (7 ∷ []) 1 [] []
      ∷ Request.hangup
      ∷ []
unfolding event_loop handle session channel text_eq
requests_test = refl

event_loop-Routes_example :
    Routes ringrtc local start (taken polls) (event_loop ringrtc local polls start)
event_loop-Routes_example = event_loop-Routes ringrtc local polls start

event_loop-ending_example :
    ((event_loop ringrtc local polls start).0 ≡ ending polls)
    × ((ending polls ≡ Exit.running)
        ⊎ (event_loop ringrtc local (polls ++ idle ∷ []) start
            ≡ event_loop ringrtc local polls start))
event_loop-ending_example = event_loop-ending ringrtc local polls (idle ∷ []) start

-- A quote in an error breaks the line.
unescaped : codes "x: \"" ≡ escape (codes "x: \"") → ⊥
unfolding escape escape_char
unescaped h = ground arith

error_line-render_iff_example :
    (error_line (codes "x") (codes "\"") ≡ render (error_document (codes "x") (codes "\"")))
    ↔ (codes "x: \"" ≡ escape (codes "x: \""))
error_line-render_iff_example = error_line-render_iff (codes "x") (codes "\"")

lines-handle_example :
    (handle ringrtc local (ControlMessage.proceed 9 [] true) (session 3 channel)).lines
    ≡ lines_after ringrtc local (ControlMessage.proceed 9 [] true) (session 3 channel)
lines-handle_example =
    lines-handle ringrtc local (ControlMessage.proceed 9 [] true) (session 3 channel)

abbrev config : Option Text → Config
config mode = record {
  call_id = 9;
  is_outgoing = true;
  local_device_id = 2;
  input_device_name = none;
  output_device_name = some (codes "out");
  audio_mode = mode;
}

abbrev host : Host
host = record {
  macos = false;
  env_mode = none;
  env_dir = none;
  temp_dir = codes "/tmp";
  pipe_binds = λ path. true;
  Pair = Text × Text;
  new_pair = λ input output. some (input, output);
  input_source = λ p. p.0;
  output_sink = λ p. p.1;
  new_factory = true;
  polls = (none, none) ∷ (some (codes "out" ∷ []), some (codes "mic" ∷ [])) ∷ [];
  recording_devices = some (codes "mic" ∷ codes "signal_input_9" ∷ []);
  playout_devices = some (codes "out" ∷ []);
  set_recording_device = λ i. true;
  set_playout_device = λ i. true;
  new_call_manager = true;
  register_sigterm = true;
}

device_index-IsFound_example :
    IsFound
      (codes "out")
      (codes "mic" ∷ codes "out" ∷ codes "out" ∷ [])
      (device_index (codes "out") (codes "mic" ∷ codes "out" ∷ codes "out" ∷ []))
device_index-IsFound_example =
    device_index-IsFound (codes "out") (codes "mic" ∷ codes "out" ∷ codes "out" ∷ []) (omega arith)

setup-IsPipeSetup_example :
    IsPipeSetup host (config (some (codes "pipe"))) (setup host (config (some (codes "pipe"))))
unfolding resolve_audio_mode
setup-IsPipeSetup_example = setup-IsPipeSetup host (config (some (codes "pipe"))) refl
