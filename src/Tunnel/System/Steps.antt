-- ===== src/Tunnel/System/Steps.antt =====
-- What the moves of the threads leave as it is: the loop's part, and the messages that are due.
use signal_call_tunnel.Base.{
  ℕ, ◌≡◌, refl, sym, ap, ◌∙◌, inl, inr, Bool, true, false, List, [], ◌∷◌, ◌++◌, append-nil,
  append_assoc, Option, none, some, Text, arith, Bool-cases,
}
use signal_call_tunnel.Channel.{Channel, send}
use signal_call_tunnel.Platform.{CallMediaType, PlatformEvent}
use signal_call_tunnel.Control.{ControlMessage, Codec, Parsed, ok, err, parse_message}
use signal_call_tunnel.Control.Threads.{is_empty, trim}
use signal_call_tunnel.Control.Threads.Reading.{is_white, message_in, messages_in, trim-is_white}
use signal_call_tunnel.Tunnel.EventLoop.{Ringrtc, Local, Exit, running, sigterm, hung_up}
use signal_call_tunnel.Tunnel.Process.Turns.{Agrees}
use signal_call_tunnel.Tunnel.System.{
  System, Turn, reads, forwards, returns, polls, notified, writes, hand_on, read_next, read_turn,
  write_next, write_turn, forward_next, forward_turn, return_turn, turn, run,
}

-- The lines before the end of stdin, or before a read error.
abbrev pub lines_before : List (Option Text) → List Text
lines_before [] = []
lines_before (none ∷ stdin) = []
lines_before (some l ∷ stdin) = l ∷ lines_before stdin

module _ (rtc : Ringrtc) where
  -- The loop's own part of the state is as it was.
  pub record Kept (s t : System rtc.World) : Type 0 where
    pub exit : t.exit ≡ s.exit
    pub agrees : Agrees rtc s.session t.session

  pub Kept-refl : (s : System rtc.World) → Kept s s
  Kept-refl s = record { exit = refl; agrees = record { peer = refl; world = refl; calls = refl } }

  read_next-Kept :
      (codec : Codec) (stdin : List (Option Text)) (s : System rtc.World)
      → Kept s (read_next codec stdin s)
  unfolding read_next
  read_next-Kept codec [] s = ground arith
  read_next-Kept codec (none ∷ stdin) s = ground arith
  read_next-Kept codec (some l ∷ stdin) s = ground arith

  read_turn-Kept :
      (codec : Codec) (reading : Bool) (s : System rtc.World) → Kept s (read_turn codec reading s)
  unfolding read_turn
  read_turn-Kept codec true s = read_next-Kept codec s.stdin s
  read_turn-Kept codec false s = Kept-refl s

  write_next-Kept :
      (written flushed : Bool) (queue : List Text) (s : System rtc.World)
      → Kept s (write_next written flushed queue s)
  unfolding write_next
  write_next-Kept written flushed [] s = Kept-refl s
  write_next-Kept written flushed (l ∷ queue) s = ground arith

  write_turn-Kept :
      (written flushed : Bool) (s : System rtc.World) → Kept s (write_turn written flushed s)
  unfolding write_turn
  write_turn-Kept written flushed s =
      ground (arith, write_next-Kept written flushed s.session.lines.queue s)

  forward_next-Kept :
      (encode : List ℕ → Text) (queue : List PlatformEvent) (s : System rtc.World)
      → Kept s (forward_next encode queue s)
  unfolding forward_next
  forward_next-Kept encode [] s = Kept-refl s
  forward_next-Kept encode (e ∷ queue) s = ground arith

  return_turn-Kept : (x : Exit) (s : System rtc.World) → Kept s (return_turn x s)
  unfolding return_turn
  return_turn-Kept running s = Kept-refl s
  return_turn-Kept sigterm s = ground arith
  return_turn-Kept Exit.disconnected s = ground arith
  return_turn-Kept hung_up s = ground arith

-- The messages that the reader thread will read, if it lives.
abbrev pub still_in : Codec → Bool → List (Option Text) → List ControlMessage
still_in codec true stdin = messages_in codec (lines_before stdin)
still_in codec false stdin = []

module _ {World : Type 0} (codec : Codec) where
  -- The messages that are queued, and those that are still to be read.
  abbrev pub due : System World → List ControlMessage
  due s = s.messages.queue ++ still_in codec s.reading s.stdin

  -- What is due stays due, but for messages that are lost because no one receives them.
  abbrev pub Keeps : System World → System World → Type 0
  Keeps s s' =
      (lost : List ControlMessage) × (due s ≡ due s' ++ lost)
      × (s.messages.is_open ≡ true → lost ≡ [])

  hand_on-Keeps :
      (p : Parsed) (s : System World)
      → s.reading ≡ true
      → (lost : List ControlMessage) × (s.messages.queue
            ++ (message_in codec p ++ messages_in codec (lines_before s.stdin))
          ≡ due (hand_on p s) ++ lost)
        × (s.messages.is_open ≡ true → lost ≡ [])
  unfolding hand_on send
  hand_on-Keeps (err e) s h = ([], rw (h, append-nil) refl, λ _. refl)
  hand_on-Keeps (ok m) s h = elim (Bool-cases s.messages.is_open) [
    | inl here ↦
        ([], rw (here, append-nil) (sym (append_assoc s.messages.queue (m ∷ []) _)), λ _. refl)
    | inr gone ↦ (m ∷ messages_in codec (lines_before s.stdin), rw (gone, append-nil) refl, λ e. cc)
  ]

  read_next-Keeps :
      (stdin : List (Option Text)) (s : System World)
      → s.stdin ≡ stdin
      → s.reading ≡ true
      → Keeps s (read_next codec stdin s)
  unfolding read_next
  read_next-Keeps [] s e h = ([], simp (e, h, append-nil), λ _. refl)
  read_next-Keeps (none ∷ stdin) s e h = ([], simp (e, h, append-nil), λ _. refl)
  read_next-Keeps (some l ∷ stdin) s e h = elim (Bool-cases (is_white l)) [
    | inl white ↦
        let empty : is_empty (trim l) ≡ true = trim-is_white l ∙ white in
        rw empty ([], simp (e, h, white, append-nil), λ _. refl)
    | inr black ↦
        let full : is_empty (trim l) ≡ false = trim-is_white l ∙ black in
        let (lost, q, k) = hand_on-Keeps (parse_message codec l) (record s { stdin = stdin }) h in
        rw full (lost, (simp (e, h, black)) ∙ q, k)
  ]

  read_turn-Keeps :
      (reading : Bool) (s : System World)
      → s.reading ≡ reading
      → Keeps s (read_turn codec reading s)
  unfolding read_turn
  read_turn-Keeps true s h = read_next-Keeps s.stdin s refl h
  read_turn-Keeps false s h = ([], simp append-nil, λ _. refl)

  Keeps-same : (s t : System World) → due t ≡ due s → Keeps s t
  Keeps-same s t e = ([], sym (append-nil (due t) ∙ e), λ _. refl)

  write_next-due :
      (written flushed : Bool) (queue : List Text) (s : System World)
      → due (write_next written flushed queue s) ≡ due s
  unfolding write_next
  write_next-due written flushed [] s = refl
  write_next-due written flushed (l ∷ queue) s = refl

  write_turn-due :
      (written flushed : Bool) (s : System World) → due (write_turn written flushed s) ≡ due s
  unfolding write_turn
  write_turn-due written flushed s = elim (Bool-cases s.session.lines.is_open) [
    | inl lives ↦ simp lives (write_next-due written flushed s.session.lines.queue s)
    | inr ended ↦ simp ended refl
  ]

  forward_next-due :
      (encode : List ℕ → Text) (queue : List PlatformEvent) (s : System World)
      → due (forward_next encode queue s) ≡ due s
  unfolding forward_next
  forward_next-due encode [] s = refl
  forward_next-due encode (e ∷ queue) s = refl

  return_turn-due : (x : Exit) (s : System World) → due (return_turn x s) ≡ due s
  unfolding return_turn
  return_turn-due running s = refl
  return_turn-due sigterm s = refl
  return_turn-due Exit.disconnected s = refl
  return_turn-due hung_up s = refl

abbrev pub is_polls : {H R : Type 0} → Turn H R → Bool
is_polls (polls terminate) = true
is_polls _ = false

module _ {World : Type 0} where
  -- While the loop runs it holds the receiver.
  abbrev pub Holds : System World → Type 0
  Holds s = s.exit ≡ running → s.messages.is_open ≡ true

  hand_on-open :
      (p : Parsed) (s : System World) → (hand_on p s).messages.is_open ≡ s.messages.is_open
  unfolding hand_on send
  hand_on-open (err e) s = refl
  hand_on-open (ok m) s = ground arith

  read_next-open :
      (codec : Codec) (stdin : List (Option Text)) (s : System World)
      → (read_next codec stdin s).messages.is_open ≡ s.messages.is_open
  unfolding read_next
  read_next-open codec [] s = refl
  read_next-open codec (none ∷ stdin) s = refl
  read_next-open codec (some l ∷ stdin) s =
      ground (arith, hand_on-open (parse_message codec l) (record s { stdin = stdin }))

  read_turn-open :
      (codec : Codec) (reading : Bool) (s : System World)
      → (read_turn codec reading s).messages.is_open ≡ s.messages.is_open
  unfolding read_turn
  read_turn-open codec true s = read_next-open codec s.stdin s
  read_turn-open codec false s = refl

  forward_next-open :
      (encode : List ℕ → Text) (queue : List PlatformEvent) (s : System World)
      → (forward_next encode queue s).messages ≡ s.messages
  unfolding forward_next
  forward_next-open encode [] s = refl
  forward_next-open encode (e ∷ queue) s = refl

  write_next-open :
      (written flushed : Bool) (queue : List Text) (s : System World)
      → (write_next written flushed queue s).messages ≡ s.messages
  unfolding write_next
  write_next-open written flushed [] s = refl
  write_next-open written flushed (l ∷ queue) s = refl

  write_turn-open :
      (written flushed : Bool) (s : System World)
      → (write_turn written flushed s).messages ≡ s.messages
  unfolding write_turn
  write_turn-open written flushed s =
      ground (arith, write_next-open written flushed s.session.lines.queue s)

module _ {H R : Type 0} (codec : Codec) (encode : List ℕ → Text) (rtc : Ringrtc) (local : Local)
    (debug_hangup : H → Text) (debug_media : CallMediaType → Text) (debug_reason : R → Text) where
  abbrev pub go : Turn H R → System rtc.World → System rtc.World
  go = turn codec encode rtc local debug_hangup debug_media debug_reason

  abbrev pub go_on : List (Turn H R) → System rtc.World → System rtc.World
  go_on = run codec encode rtc local debug_hangup debug_media debug_reason

  -- Every move but the loop's own.
  pub other-Kept : (t : Turn H R) (s : System rtc.World) → is_polls t ≡ false → Kept rtc s (go t s)
  unfolding turn forward_turn
  other-Kept reads s h = read_turn-Kept rtc codec s.reading s
  other-Kept forwards s h = forward_next-Kept rtc encode s.events.queue s
  other-Kept returns s h = return_turn-Kept rtc s.exit s
  other-Kept (polls terminate) s h = cc
  other-Kept (notified n) s h = record {
    exit = refl;
    agrees = record { peer = refl; world = refl; calls = refl };
  }
  other-Kept (writes written flushed) s h = write_turn-Kept rtc written flushed s

  pub other-Keeps :
      (t : Turn H R) (s : System rtc.World) → is_polls t ≡ false → Keeps codec s (go t s)
  unfolding turn forward_turn
  other-Keeps reads s h = read_turn-Keeps codec s.reading s refl
  other-Keeps forwards s h =
      Keeps-same codec s (go forwards s) (forward_next-due codec encode s.events.queue s)
  other-Keeps returns s h = Keeps-same codec s (go returns s) (return_turn-due codec s.exit s)
  other-Keeps (polls terminate) s h = cc
  other-Keeps (notified n) s h = Keeps-same codec s (go (notified n) s) refl
  other-Keeps (writes written flushed) s h =
      Keeps-same codec s (go (writes written flushed) s) (write_turn-due codec written flushed s)

  return_turn-Holds :
      (x : Exit) (s : System rtc.World) → s.exit ≡ x → Holds s → Holds (return_turn x s)
  unfolding return_turn
  return_turn-Holds running s e h = h
  return_turn-Holds sigterm s e h = λ r. cc
  return_turn-Holds Exit.disconnected s e h = λ r. cc
  return_turn-Holds hung_up s e h = λ r. cc

  pub other-Holds :
      (t : Turn H R) (s : System rtc.World) → is_polls t ≡ false → Holds s → Holds (go t s)
  unfolding turn forward_turn
  other-Holds reads s h k = λ r.
      read_turn-open codec s.reading s ∙ k (sym (read_turn-Kept rtc codec s.reading s).exit ∙ r)
  other-Holds forwards s h k = λ r.
      ap (λ (c : Channel ControlMessage). c.is_open) (forward_next-open encode s.events.queue s)
      ∙ k (sym (forward_next-Kept rtc encode s.events.queue s).exit ∙ r)
  other-Holds returns s h k = return_turn-Holds s.exit s refl k
  other-Holds (polls terminate) s h k = cc
  other-Holds (notified n) s h k = k
  other-Holds (writes written flushed) s h k = λ r.
      ap (λ (c : Channel ControlMessage). c.is_open) (write_turn-open written flushed s)
      ∙ k (sym (write_turn-Kept rtc written flushed s).exit ∙ r)
