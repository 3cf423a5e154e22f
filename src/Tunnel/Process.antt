-- ===== src/Tunnel/Process.antt =====
-- `main` in main.rs as a whole: the configuration on stdin, the setup, and the event loop with the
-- thread beside it that forwards RingRTC's events.
pub mod Turns
pub mod Outcome
mod Tests
use signal_call_tunnel.Base.{ℕ, Bool, true, false, List, [], ◌∷◌, ◌++◌, Option, none, some, Text}
use signal_call_tunnel.Channel.{Channel, channel}
use signal_call_tunnel.Control.{ControlMessage, Codec}
use signal_call_tunnel.Config.{Config}
use signal_call_tunnel.Platform.{PlatformEvent}
use signal_call_tunnel.Control.Threads.{
  Input, line, failed, receiver_dropped, ControlChannel, send_event, read_lines,
}
use signal_call_tunnel.Tunnel.EventLoop.{
  Request, Ringrtc, Local, Session, Poll, message, timeout, disconnected, Exit, running, sigterm,
  dispatch, session,
}
use signal_call_tunnel.Tunnel.Setup.{Host, Stage, Setup, failed, waiting, ready, setup}

-- Who moves next: the event loop, to the end of an iteration, or the forwarding thread, by an event
-- that the channel of the callbacks gives it.
pub data Turn : Type 0 where
  polled : Poll → Turn
  forwarded : PlatformEvent → Turn

-- The same with what the loop finds by itself: SIGTERM, or that a message, or the end of the channel,
-- has arrived in time. A message counts as arrived when the reader thread has sent it, and the end of
-- the channel when it has come to the end of stdin, which may be never.
pub data Move : Type 0 where
  polls : (terminate arrived : Bool) → Move
  forwards : PlatformEvent → Move

-- The turns of the moves, when the reader thread sends these messages: `recv_timeout` takes them in
-- order, and then finds the channel closed.
unfoldable pub turns_of : List ControlMessage → List Move → List Turn
turns_of queue [] = []
turns_of queue (forwards event ∷ moves) = forwarded event ∷ turns_of queue moves
turns_of queue (polls terminate false ∷ moves) =
    polled (record { terminate = terminate; received = timeout }) ∷ turns_of queue moves
turns_of (m ∷ queue) (polls terminate true ∷ moves) =
    polled (record { terminate = terminate; received = message m }) ∷ turns_of queue moves
turns_of [] (polls terminate true ∷ moves) =
    polled (record { terminate = terminate; received = disconnected }) ∷ turns_of [] moves

-- What a start of the program comes to. `undecided` is a run that waits for its devices, or whose
-- loop is still running, as `Exit` then says.
pub data End : Type 0 where
  config_unread config_unparsed : End
  setup_failed : Stage → End
  undecided : End
  left_loop : Exit → End

-- The lines queued for stdout, if the control channel was started, and the requests made.
pub record Process : Type 0 where
  pub end : End
  pub lines : Option (Channel Text)
  pub calls : List Request

-- `read_line` on stdin: the line with its newline, and what is left; nothing at the end of stdin is an
-- empty line. A last line without a newline is taken as if it had one.
unfoldable pub read_config_line : List Input → Option (Text × List Input)
read_config_line [] = some ([], [])
read_config_line (line l ∷ inputs) = some (l ++ b'\n' ∷ [], inputs)
read_config_line (failed ∷ inputs) = none
read_config_line (receiver_dropped ∷ inputs) = read_config_line inputs

unfoldable pub local_of : Config → Local
local_of config = record { call_id = config.call_id; local_device_id = config.local_device_id }

unfoldable pub lines_of : Option ControlChannel → Option (Channel Text)
lines_of none = none
lines_of (some control) = some control.lines

module _ (encode : List ℕ → Text) (rtc : Ringrtc) where
  unfoldable pub drive : Local → List Turn → Session rtc.World → Exit × Session rtc.World
  unfolding dispatch send_event
  drive local [] s = (running, s)
  drive local (forwarded event ∷ turns) s =
      drive local turns (record s { lines = send_event encode event s.lines })
  drive local (polled p ∷ turns) s = elim p.terminate [
    | true ↦ (sigterm, s)
    | false ↦ dispatch rtc local (λ t. drive local turns t) p.received s
  ]

  unfoldable pub after_setup : rtc.World → List Turn → Config → Setup → Process
  unfolding drive local_of lines_of session
  after_setup w turns config (failed stage control) = record {
    end = setup_failed stage;
    lines = lines_of control;
    calls = [];
  }
  after_setup w turns config (waiting control) = record {
    end = undecided;
    lines = some control.lines;
    calls = [];
  }
  after_setup w turns config (ready selected control) =
      let (exit, s) = drive (local_of config) turns (session w control.lines) in
      record { end = left_loop exit; lines = some s.lines; calls = s.calls }

  -- `from_str` is what serde derives for `Config`; `codec` is for the reader thread, which gets what is
  -- left of stdin.
  unfoldable pub main :
      Codec → Host → (Text → Option Config) → rtc.World → List Move → List Input → Process
  unfolding read_config_line after_setup setup read_lines channel turns_of
  main codec host from_str w moves stdin = elim (read_config_line stdin) [
    | none ↦ record { end = config_unread; lines = none; calls = [] }
    | some (l, rest) ↦ elim (from_str l) [
      | none ↦ record { end = config_unparsed; lines = none; calls = [] }
      | some config ↦
          let sent = (read_lines codec rest channel).queue in
          after_setup w (turns_of sent moves) config (setup host config)
    ]
  ]
