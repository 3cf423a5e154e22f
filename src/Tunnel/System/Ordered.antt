-- ===== src/Tunnel/System/Ordered.antt =====
-- The running process as a whole, from stdin to RingRTC and from RingRTC to stdout.
use signal_call_tunnel.Base.{ℕ, ◌≡◌, refl, sym, ◌∙◌, true, List, [], ◌∷◌, ◌++◌, Option, Text}
use signal_call_tunnel.Channel.{Channel, channel, send}
use signal_call_tunnel.Platform.{CallMediaType, PlatformEvent}
use signal_call_tunnel.Control.{ControlMessage, Codec}
use signal_call_tunnel.Control.Threads.{send_line, ready_line, start_control_channel}
use signal_call_tunnel.Control.Threads.Reading.{messages_in}
use signal_call_tunnel.Tunnel.EventLoop.{
  Ringrtc, Local, Poll, running, disconnected, hung_up, event_loop, session,
}
use signal_call_tunnel.Tunnel.EventLoop.Routing.{taken, Routes, event_loop-Routes}
use signal_call_tunnel.Tunnel.Process.Turns.{Logs}
use signal_call_tunnel.Tunnel.System.{System, Turn, started}
use signal_call_tunnel.Tunnel.System.Steps.{lines_before, due, go_on}
use signal_call_tunnel.Tunnel.System.Loop.{run-Loops}
use signal_call_tunnel.Tunnel.System.Spoken.{heard, run-Spoke}

module _ {H R : Type 0} (codec : Codec) (encode : List ℕ → Text) (rtc : Ringrtc) (local : Local)
    (debug_hangup : H → Text) (debug_media : CallMediaType → Text) (debug_reason : R → Text)
    (w : rtc.World) (input_name output_name : Text) (events : Channel PlatformEvent)
    (stdin : List (Option Text)) where
  abbrev pub begin : System rtc.World
  begin = started w (start_control_channel input_name output_name) events stdin

  -- Commands go from stdin to RingRTC, and events from RingRTC to stdout.
  pub record InOrder (turns : List (Turn H R)) (s : System rtc.World) : Type 0 where
    pub iterations : List Poll
    pub rest : List ControlMessage
    pub commands : messages_in codec (lines_before stdin) ≡ taken iterations ++ rest
    pub exit : (event_loop rtc local iterations begin.session).0 ≡ s.exit
    pub routes : Routes rtc local begin.session (taken iterations) (s.exit, s.session)
    pub none_lost : s.exit ≡ running → rest ≡ due codec s
    pub drained : s.exit ≡ disconnected → rest ≡ []
    pub hung :
        s.exit ≡ hung_up
        → (before : List ControlMessage) × (taken iterations ≡ before ++ ControlMessage.hangup ∷ [])
    pub forwarded : List PlatformEvent
    pub added : List Text
    pub unwritten : List Text
    pub handed :
        events.queue ++ heard debug_hangup debug_media debug_reason turns
        ≡ forwarded ++ s.events.queue
    pub logs : Logs encode running forwarded added
    pub written : ready_line input_name output_name ∷ added ≡ s.stdout ++ unwritten
    pub waiting : s.session.lines.is_open ≡ true → unwritten ≡ s.session.lines.queue

  -- If the callbacks find the event channel open: in every order of the threads' moves, however
  -- writing to stdout succeeds and whenever SIGTERM comes: the loop has been left or not as it is
  -- alone on its iterations; the messages of these are the first ones on stdin, in order; while the
  -- loop runs all others still wait, when it has found the channel closed there are no others, and
  -- after a hangup that is the last one; the requests are those of these messages, in order, up to
  -- a hangup, but for those, and only those, whose blob does not parse or whose tracks cannot be
  -- created in the state of RingRTC that the requests before have led to. The events forwarded are
  -- the first ones of RingRTC's, in order, and the others wait; stdout holds the ready line, and
  -- behind it one line for each event forwarded, in order, with error lines between, up to a point,
  -- and what is missing still waits while the writer thread lives.
  pub run-InOrder :
      (turns : List (Turn H R))
      → events.is_open ≡ true
      → InOrder turns
          (go_on codec encode rtc local debug_hangup debug_media debug_reason turns begin)
  unfolding started session start_control_channel send_line send channel
  run-InOrder turns o =
      let l =
        run-Loops codec encode rtc local debug_hangup debug_media debug_reason turns begin refl
          (λ _. refl) in
      let k =
        run-Spoke codec encode rtc local debug_hangup debug_media debug_reason turns begin o in
      let r = event_loop-Routes rtc local l.iterations begin.session in
      record {
        iterations = l.iterations;
        rest = l.rest;
        commands = l.first;
        exit = l.same.0;
        routes = record {
          requests = r.requests;
          added = sym l.same.1.calls ∙ r.added;
          routed = r.routed;
        };
        none_lost = l.whole;
        drained = l.drained;
        hung = l.hung;
        forwarded = k.forwarded;
        added = k.added;
        unwritten = k.unwritten;
        handed = k.handed;
        logs = k.logs;
        written = k.written;
        waiting = k.whole;
      }
