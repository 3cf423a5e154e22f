-- ===== src/Tunnel/System/Measures.antt =====
-- How much the reader thread and the event loop have still to do, before and behind each move.
use signal_call_tunnel.Base.{
  ℕ, suc, ◌-◌, ◌≤◌, ◌≡◌, ◌≢◌, refl, ap, ap₂, Bool, true, false, List, [], ◌∷◌, Option, none, some,
  length, Text, arith,
}
use signal_call_tunnel.Channel.{send}
use signal_call_tunnel.Platform.{CallMediaType, PlatformEvent}
use signal_call_tunnel.Control.{ControlMessage, Codec, Parsed, ok, err, parse_message}
use signal_call_tunnel.Tunnel.EventLoop.{
  Ringrtc, Local, Session, Exit, running, sigterm, hung_up, dispatch,
}
use signal_call_tunnel.Tunnel.System.{
  System, Turn, reads, forwards, returns, polls, notified, writes, hand_on, read_next, read_turn,
  write_next, write_turn, forward_next, forward_turn, return_turn, receive, iterate, poll_next,
  poll_turn, turn,
}
use signal_call_tunnel.Tunnel.System.Steps.{is_polls, go, go_on}
use signal_call_tunnel.Tunnel.System.Steps.{other-Kept}

abbrev pub is_reads : {H R : Type 0} → Turn H R → Bool
is_reads reads = true
is_reads _ = false

-- The rounds that the reader thread has still to make.
abbrev pub rounds : Bool → List (Option Text) → ℕ
rounds true stdin = suc (length stdin)
rounds false stdin = 0

pub rounds-zero :
    (reading : Bool) (stdin : List (Option Text)) → rounds reading stdin ≡ 0 → reading ≡ false
rounds-zero true stdin h = absurd (omega arith)
rounds-zero false stdin h = refl

rounds-le :
    (reading : Bool) (stdin : List (Option Text)) → rounds reading stdin ≤ suc (length stdin)
rounds-le true stdin = omega arith
rounds-le false stdin = omega arith

-- The iterations that the loop has still to make, when nothing is sent to it any more.
abbrev pub left_for : Exit → List ControlMessage → ℕ
left_for running queue = suc (length queue)
left_for x queue = 0

left_for-le : (x : Exit) (queue : List ControlMessage) → left_for x queue ≤ suc (length queue)
left_for-le running queue = omega arith
left_for-le x queue = omega arith

pub left_for-zero : (x : Exit) (queue : List ControlMessage) → left_for x queue ≡ 0 → x ≢ running
left_for-zero running queue h = absurd (omega arith)
left_for-zero x queue h = λ e. cc

module _ {World : Type 0} where
  abbrev pub to_read : System World → ℕ
  to_read s = rounds s.reading s.stdin

  abbrev pub to_take : System World → ℕ
  to_take s = left_for s.exit s.messages.queue

  hand_on-rounds : (p : Parsed) (s : System World) → to_read (hand_on p s) ≤ suc (length s.stdin)
  unfolding hand_on
  hand_on-rounds (err e) s = rounds-le s.reading s.stdin
  hand_on-rounds (ok m) s = rounds-le (send m s.messages).0 s.stdin

  read_next-rounds :
      (codec : Codec) (stdin : List (Option Text)) (s : System World)
      → s.reading ≡ true
      → to_read (read_next codec stdin s) ≤ length stdin
  unfolding read_next
  read_next-rounds codec [] s h = omega arith
  read_next-rounds codec (none ∷ stdin) s h = omega arith
  read_next-rounds codec (some l ∷ stdin) s h = ground (
    arith,
    hand_on-rounds (parse_message codec l) (record s { stdin = stdin }),
    rounds-le s.reading stdin,
  )

  read_turn-rounds :
      (codec : Codec) (reading : Bool) (s : System World)
      → s.reading ≡ reading
      → to_read (read_turn codec reading s) ≤ to_read s - 1
  unfolding read_turn
  read_turn-rounds codec true s h =
      let e : to_read s ≡ suc (length s.stdin) = ap (λ b. rounds b s.stdin) h in
      omega (arith, read_next-rounds codec s.stdin s h)
  read_turn-rounds codec false s h =
      let e : to_read s ≡ 0 = ap (λ b. rounds b s.stdin) h in omega arith

  -- What the other threads leave alone.
  record SameInput (s t : System World) : Type 0 where
    pub stdin : t.stdin ≡ s.stdin
    pub reading : t.reading ≡ s.reading
    pub queue : t.messages.queue ≡ s.messages.queue

  write_next-SameInput :
      (written flushed : Bool) (queue : List Text) (s : System World)
      → SameInput s (write_next written flushed queue s)
  unfolding write_next
  write_next-SameInput written flushed [] s = record { stdin = refl; reading = refl; queue = refl }
  write_next-SameInput written flushed (l ∷ queue) s = record {
    stdin = refl;
    reading = refl;
    queue = refl;
  }

  write_turn-SameInput :
      (written flushed : Bool) (s : System World) → SameInput s (write_turn written flushed s)
  unfolding write_turn
  write_turn-SameInput written flushed s =
      ground (arith, write_next-SameInput written flushed s.session.lines.queue s)

  forward_next-SameInput :
      (encode : List ℕ → Text) (queue : List PlatformEvent) (s : System World)
      → SameInput s (forward_next encode queue s)
  unfolding forward_next
  forward_next-SameInput encode [] s = record { stdin = refl; reading = refl; queue = refl }
  forward_next-SameInput encode (e ∷ queue) s = record {
    stdin = refl;
    reading = refl;
    queue = refl;
  }

  return_turn-SameInput : (x : Exit) (s : System World) → SameInput s (return_turn x s)
  unfolding return_turn
  return_turn-SameInput running s = record { stdin = refl; reading = refl; queue = refl }
  return_turn-SameInput x s = record { stdin = refl; reading = refl; queue = refl }

module _ (rtc : Ringrtc) (local : Local) where
  receive-left :
      (reading : Bool) (queue : List ControlMessage) (s : Session rtc.World)
      → reading ≡ false
      → left_for (iterate rtc local (receive reading queue).0 s).0 (receive reading queue).1
        ≤ length queue
  unfolding receive dispatch
  receive-left reading (m ∷ queue) s h = left_for-le _ queue
  receive-left true [] s h = cc
  receive-left false [] s h = omega arith

  poll_next-left :
      (b : Bool) (s : System rtc.World)
      → s.reading ≡ false
      → to_take (poll_next rtc local b s) ≤ length s.messages.queue
  unfolding poll_next
  poll_next-left true s h = omega arith
  poll_next-left false s h = receive-left s.reading s.messages.queue s.session h

  poll_next-rounds :
      (b : Bool) (s : System rtc.World) → to_read (poll_next rtc local b s) ≡ to_read s
  unfolding poll_next
  poll_next-rounds true s = refl
  poll_next-rounds false s = refl

  poll_turn-rounds :
      (x : Exit) (b : Bool) (s : System rtc.World) → to_read (poll_turn rtc local x b s) ≡ to_read s
  unfolding poll_turn
  poll_turn-rounds running b s = poll_next-rounds b s
  poll_turn-rounds x b s = refl

  poll_turn-left :
      (x : Exit) (b : Bool) (s : System rtc.World)
      → s.exit ≡ x
      → s.reading ≡ false
      → to_take (poll_turn rtc local x b s) ≤ to_take s - 1
  unfolding poll_turn
  poll_turn-left running b s e h =
      let n : to_take s ≡ suc (length s.messages.queue) = ap (λ x. left_for x s.messages.queue) e in
      omega (arith, poll_next-left b s h)
  poll_turn-left sigterm b s e h =
      let n : to_take s ≡ 0 = ap (λ x. left_for x s.messages.queue) e in omega arith
  poll_turn-left Exit.disconnected b s e h =
      let n : to_take s ≡ 0 = ap (λ x. left_for x s.messages.queue) e in omega arith
  poll_turn-left hung_up b s e h =
      let n : to_take s ≡ 0 = ap (λ x. left_for x s.messages.queue) e in omega arith

module _ {H R : Type 0} (codec : Codec) (encode : List ℕ → Text) (rtc : Ringrtc) (local : Local)
    (debug_hangup : H → Text) (debug_media : CallMediaType → Text) (debug_reason : R → Text) where
  abbrev pub one : Turn H R → System rtc.World → System rtc.World
  one = go codec encode rtc local debug_hangup debug_media debug_reason

  abbrev pub all : List (Turn H R) → System rtc.World → System rtc.World
  all = go_on codec encode rtc local debug_hangup debug_media debug_reason

  same-rounds : (s t : System rtc.World) → SameInput s t → to_read t ≤ to_read s
  same-rounds s t q = let e : to_read t ≡ to_read s = ap₂ rounds q.reading q.stdin in omega arith

  pub turn-rounds : (t : Turn H R) (s : System rtc.World) → to_read (one t s) ≤ to_read s
  unfolding turn forward_turn
  turn-rounds reads s = omega (arith, read_turn-rounds codec s.reading s refl)
  turn-rounds forwards s =
      same-rounds s (one forwards s) (forward_next-SameInput encode s.events.queue s)
  turn-rounds returns s = same-rounds s (one returns s) (return_turn-SameInput s.exit s)
  turn-rounds (polls b) s = omega (arith, poll_turn-rounds rtc local s.exit b s)
  turn-rounds (notified n) s = omega arith
  turn-rounds (writes written flushed) s =
      same-rounds s (one (writes written flushed) s) (write_turn-SameInput written flushed s)

  pub reads-rounds :
      (t : Turn H R) (s : System rtc.World) → is_reads t ≡ true → to_read (one t s) ≤ to_read s - 1
  unfolding turn
  reads-rounds reads s h = read_turn-rounds codec s.reading s refl
  reads-rounds t s h = cc

  same-left :
      (t : Turn H R) (s : System rtc.World)
      → is_polls t ≡ false
      → (one t s).messages.queue ≡ s.messages.queue
      → to_take (one t s) ≤ to_take s
  same-left t s h q =
      let k = other-Kept codec encode rtc local debug_hangup debug_media debug_reason t s h in
      let e : to_take (one t s) ≡ to_take s = ap₂ left_for k.exit q in omega arith

  read_turn-ended : (s : System rtc.World) → s.reading ≡ false → read_turn codec s.reading s ≡ s
  unfolding read_turn
  read_turn-ended s h = ap (λ b. read_turn codec b s) h

  -- Without a reader thread no move leaves the loop more to do.
  pub turn-left :
      (t : Turn H R) (s : System rtc.World) → s.reading ≡ false → to_take (one t s) ≤ to_take s
  unfolding turn forward_turn
  turn-left reads s h =
      same-left reads s refl (ap (λ (u : System rtc.World). u.messages.queue) (read_turn-ended s h))
  turn-left forwards s h =
      same-left forwards s refl (forward_next-SameInput encode s.events.queue s).queue
  turn-left returns s h = same-left returns s refl (return_turn-SameInput s.exit s).queue
  turn-left (polls b) s h = omega (arith, poll_turn-left rtc local s.exit b s refl h)
  turn-left (notified n) s h = omega arith
  turn-left (writes written flushed) s h =
      same-left (writes written flushed) s refl (write_turn-SameInput written flushed s).queue

  pub polls-left :
      (t : Turn H R) (s : System rtc.World)
      → is_polls t ≡ true
      → s.reading ≡ false
      → to_take (one t s) ≤ to_take s - 1
  unfolding turn
  polls-left (polls b) s e h = poll_turn-left rtc local s.exit b s refl h
  polls-left t s e h = cc
