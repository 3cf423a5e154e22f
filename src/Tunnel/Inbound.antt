-- ===== src/Tunnel/Inbound.antt =====
-- From the parent's lines on stdin to the calls of RingRTC, through control.rs and main.rs.
use signal_call_tunnel.Base.{
  ℕ, ◌≡◌, refl, sym, ap, ◌∙◌, subst, false, List, [], ◌∷◌, append-nil, map, Option, some, Text,
}
use signal_call_tunnel.Json.{Json}
use signal_call_tunnel.Channel.{Channel, channel}
use signal_call_tunnel.Control.{ControlMessage, Codec}
use signal_call_tunnel.Control.Commands.{
  json_codec, command, AllBytes, IsWide, parse_message-command,
}
use signal_call_tunnel.Control.Threads.{line, read_lines}
use signal_call_tunnel.Control.Threads.Reading.{is_white, messages_in, read_lines_lem}
use signal_call_tunnel.Tunnel.EventLoop.{
  Ringrtc, Local, Session, Poll, Received, message, timeout, disconnected, event_loop,
}
use signal_call_tunnel.Tunnel.EventLoop.Routing.{Routes, taken, event_loop-Routes}

abbrev pub poll : Received → Poll
poll r = record { terminate = false; received = r }

-- What `recv_timeout` may return, while no SIGTERM comes, on a channel that holds messages and whose
-- sender is gone at the end: the messages in order, time-outs among them, and then that it is closed.
pub data Receives : List ControlMessage → List Poll → Type 0 where
  closed : Receives [] (poll disconnected ∷ [])
  waited :
      {ms : List ControlMessage} {polls : List Poll}
      → Receives ms polls
      → Receives ms (poll timeout ∷ polls)
  got :
      {ms : List ControlMessage} {polls : List Poll} (m : ControlMessage)
      → Receives ms polls
      → Receives (m ∷ ms) (poll (message m) ∷ polls)

taken-Receives :
    {ms : List ControlMessage} {polls : List Poll} → Receives ms polls → taken polls ≡ ms
taken-Receives closed = refl
taken-Receives (waited r) = taken-Receives r
taken-Receives (got m r) = ap (λ ms. m ∷ ms) (taken-Receives r)

module _ (from_str : Text → Option Json) (encode : List ℕ → Text) (decode : Text → Option (List ℕ))
    (decode-encode : (bytes : List ℕ) → AllBytes bytes → decode (encode bytes) ≡ some bytes) where
  abbrev pub codec : Codec
  codec = json_codec from_str decode

  -- Each line holds the document of the command in its place.
  abbrev pub AreCommands : List Text → List ControlMessage → Type 0
  AreCommands [] [] = Unit
  AreCommands (l ∷ ls) (m ∷ ms) =
      (is_white l ≡ false) × IsWide m × (from_str l ≡ some (command encode m)) × AreCommands ls ms
  AreCommands _ _ = ⊥

  messages_in-AreCommands :
      (ls : List Text) (ms : List ControlMessage) → AreCommands ls ms → messages_in codec ls ≡ ms
  messages_in-AreCommands [] [] h = refl
  messages_in-AreCommands [] (m ∷ ms) h = elim h [ ]
  messages_in-AreCommands (l ∷ ls) [] h = elim h [ ]
  messages_in-AreCommands (l ∷ ls) (m ∷ ms) h =
      rw (h.0, parse_message-command from_str encode decode decode-encode m l h.1 h.2)
        (ap (λ k. m ∷ k) (messages_in-AreCommands ls ms h.3))

  -- The reader thread sends the commands of the lines.
  pub sent-commands :
      (ls : List Text) (ms : List ControlMessage)
      → AreCommands ls ms
      → (read_lines codec (map line ls) channel).queue ≡ ms
  unfolding channel
  sent-commands ls ms h =
      ap (λ (inputs : List _). (read_lines codec inputs channel).queue)
        (sym (append-nil (map line ls)))
      ∙ ap (λ (c : Channel ControlMessage). c.queue) (read_lines_lem codec ls [] [] tt)
      ∙ messages_in-AreCommands ls ms h

  -- If base64 decodes what it encodes, and each line of stdin is not blank and holds the document
  -- of a command whose device id fits 32 bits and whose blobs are bytes, then, however the loop
  -- waits for them and with no SIGTERM, the requests that it adds are those of the commands, in
  -- order, each for the peer named last, up to the first hangup; as in the loop alone, a blob that
  -- does not parse or tracks that cannot be created cost a request.
  pub event_loop-commands :
      (rtc : Ringrtc) (local : Local) (ls : List Text) (ms : List ControlMessage)
      (polls : List Poll) (s : Session rtc.World)
      → AreCommands ls ms
      → Receives (read_lines codec (map line ls) channel).queue polls
      → Routes rtc local s ms (event_loop rtc local polls s)
  event_loop-commands rtc local ls ms polls s h r =
      subst (λ ks. Routes rtc local s ks (event_loop rtc local polls s))
        (taken-Receives r ∙ sent-commands ls ms h) (event_loop-Routes rtc local polls s)
