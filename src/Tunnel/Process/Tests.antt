-- ===== src/Tunnel/Process/Tests.antt =====
-- `main` of main.rs at concrete inputs.
use signal_call_tunnel.Base.{
  ℕ, suc, ◌≡◌, refl, true, false, List, [], ◌∷◌, map, none, some, Text, codes, text_eq, decimal,
  ◌==◌, if◌then◌else◌,
}
use signal_call_tunnel.Json.Read.{read_json}
use signal_call_tunnel.Channel.{channel, send}
use signal_call_tunnel.Base64.{encode64, decode64, decode64-encode64}
use signal_call_tunnel.Config.Deserialize.{from_str}
use signal_call_tunnel.Config.{Config, resolve_audio_mode, pipe_socket_path}
use signal_call_tunnel.Platform.{send_signaling, send_busy, to_json}
use signal_call_tunnel.Control.{ControlMessage, Codec, parse_message}
use signal_call_tunnel.Control.Threads.{
  line, failed, start_control_channel, read_lines, is_whitespace, trim, ready_line,
}
use signal_call_tunnel.Tunnel.EventLoop.{handle, error_line, Ringrtc, session}
use signal_call_tunnel.Tunnel.Inbound.{closed, waited, got}
use signal_call_tunnel.Tunnel.Setup.{Host, ready, setup}
use signal_call_tunnel.Tunnel.Process.{Move, polls, forwards, turns_of, main, drive}
use signal_call_tunnel.Control.Commands.{json_codec}
use signal_call_tunnel.Tunnel.Process.Outcome.{IsOutcome, main-IsOutcome, Served, main-Served}

abbrev ringrtc : Ringrtc
ringrtc = record {
  World = ℕ;
  call = λ r n. (if n == 0 then some (codes "busy") else none, suc n);
  create_outgoing_audio_track = λ n. (true, n);
  create_outgoing_video_source = λ n. (true, n);
  create_outgoing_video_track = λ n. (true, n);
  offer_parses = λ media opaque. true;
  answer_parses = λ opaque. true;
}

abbrev config : Config
config = record {
  call_id = 9;
  is_outgoing = true;
  local_device_id = 2;
  input_device_name = none;
  output_device_name = none;
  audio_mode = some (codes "pipe");
}

abbrev config_line : Text
config_line =
    codes
      "{\"call_id\": 9, \"is_outgoing\": true, \"local_device_id\": 2, \"audio_mode\": \"pipe\"}"

abbrev host : Host
host = record {
  macos = false;
  env_mode = none;
  env_dir = none;
  temp_dir = codes "/tmp";
  pipe_binds = λ path. true;
  Pair = Unit;
  new_pair = λ input output. none;
  input_source = λ p. [];
  output_sink = λ p. [];
  new_factory = true;
  polls = [];
  recording_devices = none;
  playout_devices = none;
  set_recording_device = λ i. true;
  set_playout_device = λ i. true;
  new_call_manager = true;
  register_sigterm = true;
}

abbrev outgoing : ControlMessage
outgoing = ControlMessage.create_outgoing_call 9 (codes "bob")

-- What the parent writes behind the configuration.
abbrev outgoing_line : Text
outgoing_line = codes "{\"type\": \"createOutgoingCall\", \"callId\": 9, \"peerId\": \"bob\"}"

abbrev hangup_line : Text
hangup_line = codes "{\"type\":\"hangup\"}"

abbrev moves : List Move
moves =
    polls false false
    ∷ polls false true
    ∷ forwards (send_signaling 9 send_busy)
    ∷ polls false true
    ∷ polls false true
    ∷ []

abbrev codec : Codec
codec = json_codec read_json decode64

abbrev report : Text
report = codes "unix:/tmp/signal-call-9.sock"

ready_setup : setup host config ≡ ready none (start_control_channel report report)
unfolding setup resolve_audio_mode pipe_socket_path decimal
ready_setup = refl

lines_test :
    (main encode64 ringrtc codec host from_str 0 moves
      (map line (config_line ∷ outgoing_line ∷ hangup_line ∷ []))).lines
    ≡ some (record {
      is_open = true;
      queue =
          ready_line report report
          ∷ codes "{\"type\":\"error\",\"message\":\"failed to create outgoing call: busy\"}"
          ∷ codes "{\"type\":\"sendBusy\",\"callId\":9}"
          ∷ [];
    })
unfolding main turns_of read_lines is_whitespace trim parse_message read_json text_eq from_str setup
    resolve_audio_mode pipe_socket_path decimal session drive send to_json handle
    start_control_channel channel error_line
lines_test = refl

main-IsOutcome_example :
    IsOutcome encode64 ringrtc host from_str moves
      (line config_line ∷ failed ∷ [])
      (main encode64 ringrtc codec host from_str 0 moves (line config_line ∷ failed ∷ []))
main-IsOutcome_example =
    main-IsOutcome encode64 ringrtc codec host from_str 0 moves (line config_line ∷ failed ∷ [])

main-Served_example :
    Served encode64 ringrtc config 0 moves
      (turns_of (outgoing ∷ ControlMessage.hangup ∷ []) moves)
      (outgoing ∷ ControlMessage.hangup ∷ [])
      (main encode64 ringrtc codec host from_str 0 moves
        (line config_line ∷ map line (outgoing_line ∷ hangup_line ∷ [])))
unfolding from_str read_json turns_of is_whitespace
main-Served_example =
    main-Served read_json encode64 decode64 decode64-encode64 ringrtc host from_str 0 moves
      config_line (outgoing_line ∷ hangup_line ∷ []) (outgoing ∷ ControlMessage.hangup ∷ []) config
      none (start_control_channel report report) refl ready_setup
      (refl, tt, refl, (refl, tt, refl, tt))
      (waited (got outgoing (got ControlMessage.hangup closed)))
