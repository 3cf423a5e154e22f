-- ===== src/Tunnel/System/Served.antt =====
-- The way of the commands on stdin to RingRTC in an unending run of the process's threads.
use signal_call_tunnel.Base.{
  ℕ, zero, suc, ◌≡◌, ◌≢◌, refl, sym, subst, ◌∙◌, ◌⊎◌, inl, inr, Bool, true, false, List, [], ◌∷◌,
  ◌++◌, Option, Text,
}
use signal_call_tunnel.Channel.{Channel}
use signal_call_tunnel.Platform.{CallMediaType, PlatformEvent}
use signal_call_tunnel.Control.{ControlMessage, Codec}
use signal_call_tunnel.Control.Threads.Reading.{messages_in}
use signal_call_tunnel.Tunnel.EventLoop.{
  Ringrtc, Local, Session, Received, message, timeout, disconnected, Exit, running, sigterm,
  hung_up, dispatch,
}
use signal_call_tunnel.Tunnel.EventLoop.Routing.{taken, Routes}
use signal_call_tunnel.Tunnel.System.{
  System, Turn, polls, receive, iterate, poll_next, poll_turn, turn, run, started,
}
use signal_call_tunnel.Tunnel.System.Steps.{go, go_on, lines_before, other-Kept}
use signal_call_tunnel.Tunnel.System.Ordered.{begin, run-InOrder}
use signal_call_tunnel.Tunnel.System.Fair.{first_turns, IsFair, run-snoc, run-Left}

-- A move in which the loop finds `terminate` set.
abbrev pub is_sigterm : {H R : Type 0} → Turn H R → Bool
is_sigterm (polls b) = b
is_sigterm t = false

-- The two ways out of the loop that are left without SIGTERM.
one_of_two :
    {A B : Type 0} (x : Exit)
    → x ≢ running
    → x ≢ sigterm
    → (x ≡ disconnected → A)
    → (x ≡ hung_up → B)
    → A ⊎ B
one_of_two running n m a b = absurd (n refl)
one_of_two sigterm n m a b = absurd (m refl)
one_of_two disconnected n m a b = inl (a refl)
one_of_two hung_up n m a b = inr (b refl)

module _ (rtc : Ringrtc) (local : Local) where
  iterate-no_sigterm : (r : Received) (s : Session rtc.World) → (iterate rtc local r s).0 ≢ sigterm
  unfolding dispatch
  iterate-no_sigterm timeout s e = cc
  iterate-no_sigterm Received.disconnected s e = cc
  iterate-no_sigterm (message ControlMessage.hangup) s e = cc
  iterate-no_sigterm (message m) s e = cc

  poll_turn-no_sigterm :
      (x : Exit) (s : System rtc.World)
      → s.exit ≡ x
      → x ≢ sigterm
      → (poll_turn rtc local x false s).exit ≢ sigterm
  unfolding poll_turn poll_next
  poll_turn-no_sigterm running s h n e =
      iterate-no_sigterm (receive s.reading s.messages.queue).0 s.session e
  poll_turn-no_sigterm sigterm s h n e = absurd (n refl)
  poll_turn-no_sigterm disconnected s h n e = n (sym h ∙ e)
  poll_turn-no_sigterm hung_up s h n e = n (sym h ∙ e)

module _ {H R : Type 0} (codec : Codec) (encode : List ℕ → Text) (rtc : Ringrtc) (local : Local)
    (debug_hangup : H → Text) (debug_media : CallMediaType → Text) (debug_reason : R → Text) where
  abbrev one : Turn H R → System rtc.World → System rtc.World
  one = go codec encode rtc local debug_hangup debug_media debug_reason

  abbrev all : List (Turn H R) → System rtc.World → System rtc.World
  all = go_on codec encode rtc local debug_hangup debug_media debug_reason

  turn-no_sigterm :
      (t : Turn H R) (s : System rtc.World)
      → is_sigterm t ≡ false
      → s.exit ≢ sigterm
      → (one t s).exit ≢ sigterm
  unfolding turn
  turn-no_sigterm (polls true) s h n e = cc
  turn-no_sigterm (polls false) s h n e = poll_turn-no_sigterm rtc local s.exit s refl n e
  turn-no_sigterm t s h n e =
      let k = other-Kept codec encode rtc local debug_hangup debug_media debug_reason t s refl in
      n (sym k.exit ∙ e)

  run-no_sigterm :
      (schedule : ℕ → Turn H R) (s : System rtc.World)
      → ((n : ℕ) → is_sigterm (schedule n) ≡ false)
      → s.exit ≢ sigterm
      → (k : ℕ) → (all (first_turns schedule k) s).exit ≢ sigterm
  unfolding run
  run-no_sigterm schedule s calm n zero = n
  run-no_sigterm schedule s calm n (suc k) =
      let before = all (first_turns schedule k) s in
      subst (λ (u : System rtc.World). u.exit ≢ sigterm)
        (sym (
          run-snoc codec encode rtc local debug_hangup debug_media debug_reason
            (first_turns schedule k) (schedule k) s))
        (turn-no_sigterm (schedule k) before (calm k) (run-no_sigterm schedule s calm n k))

  module _ (w : rtc.World) (input_name output_name : Text) (events : Channel PlatformEvent)
      (stdin : List (Option Text)) where
    abbrev start : System rtc.World
    start =
        begin codec encode rtc local debug_hangup debug_media debug_reason w input_name output_name
          events stdin

    -- The messages on stdin are served up to a hangup, or all of them.
    pub record Served (s : System rtc.World) : Type 0 where
      pub served : List ControlMessage
      pub unread : List ControlMessage
      pub commands : messages_in codec (lines_before stdin) ≡ served ++ unread
      pub routes : Routes rtc local start.session served (s.exit, s.session)
      pub complete :
          (unread ≡ [])
          ⊎ ((before : List ControlMessage) × (served ≡ before ++ ControlMessage.hangup ∷ []))

    left-Served :
        (turns : List (Turn H R))
        → events.is_open ≡ true
        → (x : Exit) → (all turns start).exit ≡ x
        → x ≢ running
        → x ≢ sigterm
        → Served (all turns start)
    left-Served turns o x e n m =
        let i =
          run-InOrder codec encode rtc local debug_hangup debug_media debug_reason w input_name
            output_name events stdin turns o in
        record {
          served = taken i.iterations;
          unread = i.rest;
          commands = i.commands;
          routes = i.routes;
          complete = one_of_two x n m (λ q. i.drained (e ∙ q)) (λ q. i.hung (e ∙ q));
        }

    -- If stdin has finitely many lines and then ends, the callbacks find the event channel open,
    -- the reader thread and the loop move again and again and SIGTERM never comes, then after some
    -- moves, whatever the other threads, RingRTC and stdout do, the messages on stdin up to a
    -- hangup, or all of them if there is none, have been taken, and the requests to RingRTC are
    -- those of these messages, in order, but for those, and only those, whose blob does not parse
    -- or whose tracks cannot be created in the state of RingRTC that the requests before have led
    -- to.
    pub run-Served :
        (schedule : ℕ → Turn H R)
        → IsFair schedule
        → ((n : ℕ) → is_sigterm (schedule n) ≡ false)
        → events.is_open ≡ true
        → (k : ℕ) × Served (all (first_turns schedule k) start)
    unfolding started
    run-Served schedule fair calm o =
        let (k, left) =
          run-Left codec encode rtc local debug_hangup debug_media debug_reason schedule start
            fair in
        (
          k,
          left-Served (first_turns schedule k) o (all (first_turns schedule k) start).exit refl left
              (run-no_sigterm schedule start calm (λ e. cc) k),
        )
