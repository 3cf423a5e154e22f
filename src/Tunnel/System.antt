-- ===== src/Tunnel/System.antt =====
-- The threads of the running process side by side, by turns: the reader of stdin and the writer of
-- stdout of control.rs, the event loop and the forwarding thread of main.rs, and RingRTC's callbacks.
pub mod Steps
pub mod Loop
pub mod Lines
pub mod Moves
pub mod Spoken
pub mod Ordered
pub mod Measures
pub mod Fair
pub mod Served
pub mod Outgoing
pub mod Told
mod Tests
use signal_call_tunnel.Base.{
  ℕ, Bool, true, false, ◌&&◌, List, [], ◌∷◌, ◌++◌, Option, none, some, Text, if◌then◌else◌,
}
use signal_call_tunnel.Channel.{Channel, send}
use signal_call_tunnel.Platform.{CallMediaType, PlatformEvent}
use signal_call_tunnel.Platform.Relay.{Notice, callback}
use signal_call_tunnel.Control.{ControlMessage, Codec, Parsed, ok, err, parse_message}
use signal_call_tunnel.Control.Threads.{is_empty, trim, ControlChannel, send_event}
use signal_call_tunnel.Tunnel.EventLoop.{
  Ringrtc, Local, Session, Received, message, timeout, disconnected, Exit, running, sigterm,
  dispatch, session,
}

-- `stdin` is what the parent still has to say, `none` a read error, and the end of the list the end
-- of stdin; while a parent keeps stdin open and says nothing, the reader thread does not move.
-- `reading` says that the reader thread lives, and with it the sender of the messages. The
-- writer thread lives while the channel of the lines, in the session, is open.
pub record System (World : Type 0) : Type 0 where
  pub stdin : List (Option Text)
  pub reading : Bool
  pub messages : Channel ControlMessage
  pub exit : Exit
  pub session : Session World
  pub events : Channel PlatformEvent
  pub stdout : List Text

-- Who moves. `polls` says whether `terminate` is set then, `writes` whether writing and flushing
-- succeed; `returns` is the end of `main`, which drops the receiver of the messages, and behind which
-- the other threads may go on for a while.
pub data Turn (H R : Type 0) : Type 0 where
  reads forwards returns : Turn H R
  polls : (terminate : Bool) → Turn H R
  notified : Notice H R → Turn H R
  writes : (written flushed : Bool) → Turn H R

module _ {World : Type 0} where
  -- As the threads find things behind the setup; `events` is the new channel of the callbacks.
  unfoldable pub started :
      World → ControlChannel → Channel PlatformEvent → List (Option Text) → System World
  unfolding session
  started w control events stdin = record {
    stdin = stdin;
    reading = true;
    messages = control.messages;
    exit = running;
    session = session w control.lines;
    events = events;
    stdout = [];
  }

  -- A line of stdin that is a message is sent; the thread ends if no one receives it.
  unfoldable pub hand_on : Parsed → System World → System World
  unfolding send
  hand_on (err e) s = s
  hand_on (ok m) s =
      let (sent, messages) = send m s.messages in record s { reading = sent; messages = messages }

  -- A round of the reader thread.
  unfoldable pub read_next : Codec → List (Option Text) → System World → System World
  unfolding hand_on trim
  read_next codec [] s = record s { reading = false }
  read_next codec (none ∷ stdin) s = record s { stdin = stdin; reading = false }
  read_next codec (some l ∷ stdin) s =
      let s' = record s { stdin = stdin } in
      if is_empty (trim l) then s' else hand_on (parse_message codec l) s'

  unfoldable pub read_turn : Codec → Bool → System World → System World
  unfolding read_next
  read_turn codec true s = read_next codec s.stdin s
  read_turn codec false s = s

  -- A round of the writer thread, if there is a line; the receiver is dropped with the thread.
  unfoldable pub write_next : Bool → Bool → List Text → System World → System World
  write_next written flushed [] s = s
  write_next written flushed (l ∷ queue) s = record s {
    session = record s.session { lines = record { is_open = written && flushed; queue = queue } };
    stdout = if written then s.stdout ++ l ∷ [] else s.stdout;
  }

  unfoldable pub write_turn : Bool → Bool → System World → System World
  unfolding write_next
  write_turn written flushed s =
      if s.session.lines.is_open then write_next written flushed s.session.lines.queue s else s

  -- A round of the forwarding thread, if there is an event.
  unfoldable pub forward_next : (List ℕ → Text) → List PlatformEvent → System World → System World
  unfolding send_event
  forward_next encode [] s = s
  forward_next encode (e ∷ queue) s = record s {
    session = record s.session { lines = send_event encode e s.session.lines };
    events = record s.events { queue = queue };
  }

  unfoldable pub forward_turn : (List ℕ → Text) → System World → System World
  unfolding forward_next
  forward_turn encode s = forward_next encode s.events.queue s

  -- The receiver is dropped when `main` returns, not while the loop runs.
  unfoldable pub return_turn : Exit → System World → System World
  return_turn running s = s
  return_turn x s = record s { messages = record s.messages { is_open = false } }

-- `recv_timeout`, and what is left in the channel: a message that waits comes first; without one the
-- time runs out, or there is no sender any more.
unfoldable pub receive : Bool → List ControlMessage → Received × List ControlMessage
receive reading (m ∷ queue) = (message m, queue)
receive true [] = (timeout, [])
receive false [] = (disconnected, [])

module _ (rtc : Ringrtc) (local : Local) where
  -- The end of an iteration of the loop, the next one not begun.
  abbrev pub iterate : Received → Session rtc.World → Exit × Session rtc.World
  iterate r s = dispatch rtc local (λ t. (running, t)) r s

  unfoldable pub poll_next : Bool → System rtc.World → System rtc.World
  unfolding receive dispatch
  poll_next true s = record s { exit = sigterm }
  poll_next false s =
      let (r, queue) = receive s.reading s.messages.queue in
      let (x, t) = iterate r s.session in
      record s { exit = x; session = t; messages = record s.messages { queue = queue } }

  -- An iteration of the loop, if it has not been left.
  unfoldable pub poll_turn : Exit → Bool → System rtc.World → System rtc.World
  unfolding poll_next
  poll_turn running terminate s = poll_next terminate s
  poll_turn x terminate s = s

module _ {H R : Type 0} (codec : Codec) (encode : List ℕ → Text) (rtc : Ringrtc) (local : Local)
    (debug_hangup : H → Text) (debug_media : CallMediaType → Text) (debug_reason : R → Text) where
  unfoldable pub turn : Turn H R → System rtc.World → System rtc.World
  unfolding read_turn forward_turn return_turn poll_turn write_turn
  turn reads s = read_turn codec s.reading s
  turn forwards s = forward_turn encode s
  turn returns s = return_turn s.exit s
  turn (polls terminate) s = poll_turn rtc local s.exit terminate s
  turn (notified n) s = record s {
    events = callback debug_hangup debug_media debug_reason n s.events;
  }
  turn (writes written flushed) s = write_turn written flushed s

  -- A run, by the order in which the threads move.
  unfoldable pub run : List (Turn H R) → System rtc.World → System rtc.World
  unfolding turn
  run [] s = s
  run (t ∷ turns) s = run turns (turn t s)
