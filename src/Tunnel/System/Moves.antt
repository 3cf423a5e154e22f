-- ===== src/Tunnel/System/Moves.antt =====
-- What a move of a thread says on stdout, and what it hands on.
use signal_call_tunnel.Base.{
  ℕ, ◌≡◌, refl, sym, ap, ◌∙◌, inl, inr, Bool, true, false, List, [], ◌∷◌, ◌++◌, append-nil, Text,
  arith,
}
use signal_call_tunnel.Channel.{Channel}
use signal_call_tunnel.Platform.{PlatformEvent, to_json}
use signal_call_tunnel.Control.Threads.{send_event}
use signal_call_tunnel.Tunnel.EventLoop.{Ringrtc, Local, Session, Exit, running, error_line}
use signal_call_tunnel.Tunnel.Process.Turns.{Logs, all_forwarded, event, error}
use signal_call_tunnel.Tunnel.System.{
  System, write_next, write_turn, forward_next, receive, poll_next, poll_turn,
}
use signal_call_tunnel.Tunnel.System.Lines.{
  closed-send_line, told, Quiet, Adds, forward_next-Adds, poll_next-Adds, iterate-IsLonger,
}

module _ {World : Type 0} where
  -- Without a writer thread nothing reaches stdout, and the thread does not come back.
  pub record Mute (s t : System World) : Type 0 where
    pub closed : t.session.lines.is_open ≡ false
    pub stdout : t.stdout ≡ s.stdout

module _ (encode : List ℕ → Text) (rtc : Ringrtc) where
  -- Events `es` come with the move; some are forwarded, and lines are added.
  pub record Says (es : List PlatformEvent) (s t : System rtc.World) : Type 0 where
    pub forwarded : List PlatformEvent
    pub added : List Text
    pub handed : s.events.queue ++ es ≡ forwarded ++ t.events.queue
    pub open_still : t.events.is_open ≡ true
    pub logs : Logs encode running forwarded added
    pub adds : Adds added s t

  pub Says-plain :
      (s t : System rtc.World)
      → t.events ≡ s.events
      → s.events.is_open ≡ true
      → Adds [] s t
      → Says [] s t
  Says-plain s t e o a = record {
    forwarded = [];
    added = [];
    handed = append-nil s.events.queue ∙ ap (λ (c : Channel PlatformEvent). c.queue) (sym e);
    open_still = ap (λ (c : Channel PlatformEvent). c.is_open) e ∙ o;
    logs = all_forwarded;
    adds = a;
  }

  write_next-events :
      (written flushed : Bool) (queue : List Text) (s : System rtc.World)
      → (write_next written flushed queue s).events ≡ s.events
  unfolding write_next
  write_next-events written flushed [] s = refl
  write_next-events written flushed (l ∷ queue) s = refl

  pub write_turn-events :
      (written flushed : Bool) (s : System rtc.World)
      → (write_turn written flushed s).events ≡ s.events
  unfolding write_turn
  write_turn-events written flushed s =
      ground (arith, write_next-events written flushed s.session.lines.queue s)

  pub forward_next-Says :
      (queue : List PlatformEvent) (s : System rtc.World)
      → s.events.queue ≡ queue
      → s.events.is_open ≡ true
      → Says [] s (forward_next encode queue s)
  unfolding forward_next
  forward_next-Says [] s e o = Says-plain s s refl o (inl (sym (append-nil (told s))))
  forward_next-Says (x ∷ queue) s e o = record {
    forwarded = x ∷ [];
    added = to_json encode x ∷ [];
    handed = append-nil s.events.queue ∙ e;
    open_still = o;
    logs = event x all_forwarded;
    adds = forward_next-Adds encode x queue s;
  }

module _ (encode : List ℕ → Text) (rtc : Ringrtc) (local : Local) where
  poll_next-events : (b : Bool) (s : System rtc.World) → (poll_next rtc local b s).events ≡ s.events
  unfolding poll_next
  poll_next-events true s = refl
  poll_next-events false s = refl

  poll_next-Says :
      (b : Bool) (s : System rtc.World)
      → s.events.is_open ≡ true
      → Says encode rtc [] s (poll_next rtc local b s)
  poll_next-Says b s o = elim (poll_next-Adds encode rtc local b s) [
    | inl a ↦ Says-plain encode rtc s (poll_next rtc local b s) (poll_next-events b s) o a
    | inr (what, e, a) ↦ record {
      forwarded = [];
      added = error_line what e ∷ [];
      handed =
          append-nil s.events.queue
          ∙ ap (λ (c : Channel PlatformEvent). c.queue) (sym (poll_next-events b s));
      open_still = ap (λ (c : Channel PlatformEvent). c.is_open) (poll_next-events b s) ∙ o;
      logs = error what e all_forwarded;
      adds = a;
    }
  ]

  pub poll_turn-Says :
      (x : Exit) (b : Bool) (s : System rtc.World)
      → s.events.is_open ≡ true
      → Says encode rtc [] s (poll_turn rtc local x b s)
  unfolding poll_turn
  poll_turn-Says running b s o = poll_next-Says b s o
  poll_turn-Says x b s o = Says-plain encode rtc s s refl o (inl (sym (append-nil (told s))))

  pub Quiet-Mute : (s t : System rtc.World) → s.session.lines.is_open ≡ false → Quiet s t → Mute s t
  Quiet-Mute s t h q = record {
    closed = ap (λ (u : Session rtc.World). u.lines.is_open) q.session ∙ h;
    stdout = q.stdout;
  }

  pub write_turn-Mute :
      (written flushed : Bool) (s : System rtc.World)
      → s.session.lines.is_open ≡ false
      → Mute s (write_turn written flushed s)
  unfolding write_turn
  write_turn-Mute written flushed s h = ground arith

  pub forward_next-Mute :
      (queue : List PlatformEvent) (s : System rtc.World)
      → s.session.lines.is_open ≡ false
      → Mute s (forward_next encode queue s)
  unfolding forward_next send_event
  forward_next-Mute [] s h = record { closed = h; stdout = refl }
  forward_next-Mute (e ∷ queue) s h = record {
    closed = closed-send_line (to_json encode e) s.session.lines h;
    stdout = refl;
  }

  poll_next-Mute :
      (b : Bool) (s : System rtc.World)
      → s.session.lines.is_open ≡ false
      → Mute s (poll_next rtc local b s)
  unfolding poll_next
  poll_next-Mute true s h = record { closed = h; stdout = refl }
  poll_next-Mute false s h =
      elim (iterate-IsLonger encode rtc local (receive s.reading s.messages.queue).0 s.session) [
        | inl same ↦ record {
          closed = ap (λ (c : Channel Text). c.is_open) same ∙ h;
          stdout = refl;
        }
        | inr (what, e, longer) ↦ record {
          closed =
              ap (λ (c : Channel Text). c.is_open) longer
              ∙ closed-send_line (error_line what e) s.session.lines h;
          stdout = refl;
        }
      ]

  pub poll_turn-Mute :
      (x : Exit) (b : Bool) (s : System rtc.World)
      → s.session.lines.is_open ≡ false
      → Mute s (poll_turn rtc local x b s)
  unfolding poll_turn
  poll_turn-Mute running b s h = poll_next-Mute b s h
  poll_turn-Mute x b s h = record { closed = h; stdout = refl }
