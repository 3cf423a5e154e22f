-- ===== src/Tunnel/System/Tests.antt =====
-- The running process at concrete moves.
use signal_call_tunnel.Base.{
  ℕ, suc, ◌+◌, ◌*◌, ◌%◌, ◌≡◌, ◌≢◌, refl, true, false, List, [], ◌∷◌, Option, none, some, Text,
  codes, arith, decimal, text_eq, ◌==◌, if◌then◌else◌,
}
use signal_call_tunnel.Base64.{encode64, decode64}
use signal_call_tunnel.Channel.{channel}
use signal_call_tunnel.Json.Read.{read_json}
use signal_call_tunnel.Platform.{
  relay_signaling, handle_call_state, CallMediaType, event_of, state_of, to_json, busy, connected,
}
use signal_call_tunnel.Platform.Relay.{signaling, state}
use signal_call_tunnel.Control.{Codec, parse_message}
use signal_call_tunnel.Control.Commands.{json_codec}
use signal_call_tunnel.Control.Threads.{ready_line, start_control_channel}
use signal_call_tunnel.Tunnel.EventLoop.{Ringrtc, Local, hung_up, running, handle, error_line}
use signal_call_tunnel.Tunnel.System.{
  System, Turn, reads, forwards, returns, polls, notified, writes, run, started,
}
use signal_call_tunnel.Tunnel.System.Steps.{go_on, is_polls}
use signal_call_tunnel.Tunnel.System.Measures.{is_reads}
use signal_call_tunnel.Tunnel.System.Fair.{first_turns, IsFair, run-Left}
use signal_call_tunnel.Tunnel.System.Served.{is_sigterm, Served, run-Served}
use signal_call_tunnel.Tunnel.System.Outgoing.{is_forwards, is_writes, is_failing}
use signal_call_tunnel.Tunnel.System.Told.{IsTelling, Told, run-Told}
use signal_call_tunnel.Tunnel.System.Ordered.{InOrder, run-InOrder}

-- A call manager that is busy.
abbrev ringrtc : Ringrtc
ringrtc = record {
  World = ℕ;
  call = λ r n. (if n == 0 then some (codes "busy") else none, suc n);
  create_outgoing_audio_track = λ n. (true, n);
  create_outgoing_video_source = λ n. (true, n);
  create_outgoing_video_track = λ n. (true, n);
  offer_parses = λ media opaque. true;
  answer_parses = λ opaque. true;
}

abbrev local : Local
local = record { call_id = 9; local_device_id = 2 }

abbrev codec : Codec
codec = json_codec read_json decode64

abbrev say : Text → Text
say t = t

abbrev say_media : CallMediaType → Text
say_media m = codes "Audio"

abbrev stdin : List (Option Text)
stdin =
    some (codes "{\"type\":\"createOutgoingCall\",\"callId\":9,\"peerId\":\"bob\"}")
    ∷ some (codes "?")
    ∷ some (codes "{\"type\":\"hangup\"}")
    ∷ []

-- Two events come while the error line of the call is still to be told.
abbrev turns : List (Turn Text Text)
turns =
    reads
    ∷ notified (signaling 9 busy)
    ∷ writes true true
    ∷ forwards
    ∷ polls false
    ∷ notified (state connected)
    ∷ reads
    ∷ reads
    ∷ writes true true
    ∷ polls false
    ∷ forwards
    ∷ returns
    ∷ writes true true
    ∷ []

abbrev start : System ℕ
start = started 0 (start_control_channel (codes "in") (codes "out")) channel stdin

abbrev last : System ℕ
last = go_on codec encode64 ringrtc local say say_media say turns start

run_test :
    (last.exit ≡ hung_up)
    × (last.stdout
        ≡ ready_line (codes "in") (codes "out")
          ∷ codes "{\"type\":\"sendBusy\",\"callId\":9}"
          ∷ codes "{\"type\":\"error\",\"message\":\"failed to create outgoing call: busy\"}"
          ∷ [])
    × (last.session.lines.queue ≡ codes "{\"type\":\"stateChange\",\"state\":\"Connected\"}" ∷ [])
unfolding run started start_control_channel channel read_json text_eq event_of state_of to_json
    decimal parse_message relay_signaling handle handle_call_state error_line
run_test = (refl, refl, refl)

run-InOrder_example :
    InOrder codec encode64 ringrtc local say say_media say 0
      (codes "in")
      (codes "out")
      channel
      stdin
      turns
      (go_on codec encode64 ringrtc local say say_media say turns start)
unfolding channel
run-InOrder_example =
    run-InOrder codec encode64 ringrtc local say say_media say 0 (codes "in") (codes "out") channel
      stdin turns refl

-- The reader and the loop, in turn.
abbrev in_turn : ℕ → Turn Text Text
in_turn n = if n % 2 == 0 then reads else polls false

in_turn-reads : (n : ℕ) → is_reads (in_turn (2 * n)) ≡ true
in_turn-reads n = ground arith

in_turn-polls : (n : ℕ) → is_polls (in_turn (2 * n + 1)) ≡ true
in_turn-polls n = ground arith

in_turn-IsFair : IsFair in_turn
in_turn-IsFair = record {
  reads_on = λ n. (2 * n, omega arith, in_turn-reads n);
  polls_on = λ n. (2 * n + 1, omega arith, in_turn-polls n);
}

run-Left_example :
    (k : ℕ) × ((go_on codec encode64 ringrtc local say say_media say
        (first_turns in_turn k)
        start).exit
      ≢ running)
run-Left_example =
    run-Left codec encode64 ringrtc local say say_media say in_turn start in_turn-IsFair

in_turn-calm : (n : ℕ) → is_sigterm (in_turn n) ≡ false
in_turn-calm n = ground arith

run-Served_example :
    (k : ℕ) × Served codec encode64 ringrtc local say say_media say 0
      (codes "in")
      (codes "out")
      channel
      stdin
      (go_on codec encode64 ringrtc local say say_media say (first_turns in_turn k) start)
unfolding channel
run-Served_example =
    run-Served codec encode64 ringrtc local say say_media say 0 (codes "in") (codes "out") channel
      stdin in_turn in_turn-IsFair in_turn-calm refl

-- The forwarding thread and the writer, in turn.
abbrev tell : ℕ → Turn Text Text
tell n = if n % 2 == 0 then forwards else writes true true

tell-forwards : (n : ℕ) → is_forwards (tell (2 * n)) ≡ true
tell-forwards n = ground arith

tell-writes : (n : ℕ) → is_writes (tell (2 * n + 1)) ≡ true
tell-writes n = ground arith

tell-succeeds : (n : ℕ) → is_failing (tell n) ≡ false
tell-succeeds n = ground arith

tell-IsTelling : IsTelling tell
tell-IsTelling = record {
  forwards_on = λ n. (2 * n, omega arith, tell-forwards n);
  writes_on = λ n. (2 * n + 1, omega arith, tell-writes n);
  succeeds = tell-succeeds;
}

-- Behind the setup, with two events of RingRTC that wait.
abbrev notified_twice : System ℕ
notified_twice =
    go_on codec encode64 ringrtc local say say_media say
      (notified (signaling 9 busy) ∷ notified (state connected) ∷ []) start

run-Told_example :
    (k : ℕ) × Told encode64 notified_twice
      (go_on codec encode64 ringrtc local say say_media say (first_turns tell k) notified_twice)
unfolding run started start_control_channel channel relay_signaling handle_call_state
run-Told_example =
    run-Told codec encode64 ringrtc local say say_media say tell notified_twice tell-IsTelling refl
      refl
