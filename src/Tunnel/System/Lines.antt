-- ===== src/Tunnel/System/Lines.antt =====
-- The lines and the events among the threads of the process: what is on stdout, and what waits.
use signal_call_tunnel.Base.{
  ℕ, ◌≡◌, refl, sym, ap, ap₂, ◌∙◌, ◌⊎◌, inl, inr, Bool, true, false, List, [], ◌∷◌, ◌++◌,
  append-nil, append_assoc, Option, none, some, Text, arith, Bool-cases,
}
use signal_call_tunnel.Channel.{Channel, send}
use signal_call_tunnel.Platform.{PlatformEvent, to_json}
use signal_call_tunnel.Control.{ControlMessage, Codec, Parsed, ok, err, parse_message}
use signal_call_tunnel.Control.Threads.{send_line, send_event}
use signal_call_tunnel.Tunnel.EventLoop.{
  Ringrtc, Local, Session, Received, message, timeout, disconnected, Exit, running, error_line,
  dispatch,
}
use signal_call_tunnel.Tunnel.Process.Turns.{
  Logs, all_forwarded, left_over, event, error, IsLonger, handle-IsLonger,
}
use signal_call_tunnel.Tunnel.System.{
  System, hand_on, read_next, read_turn, write_next, write_turn, forward_next, return_turn, receive,
  iterate, poll_next,
}

pub Logs-append :
    (encode : List ℕ → Text) (x : Exit) {es : List PlatformEvent} {ls : List Text}
    (fs : List PlatformEvent) (ms : List Text)
    → Logs encode x es ls
    → x ≡ running
    → Logs encode x fs ms
    → Logs encode x (es ++ fs) (ls ++ ms)
Logs-append encode x fs ms all_forwarded r l = l
Logs-append encode x fs ms (left_over n) r l = absurd (n r)
Logs-append encode x fs ms (event e k) r l = event e (Logs-append encode x fs ms k r l)
Logs-append encode x fs ms (error what e k) r l = error what e (Logs-append encode x fs ms k r l)

pub queue-send_line :
    (l : Text) (c : Channel Text) → c.is_open ≡ true → (send_line l c).queue ≡ c.queue ++ l ∷ []
unfolding send_line send
queue-send_line l c h = ground arith

pub closed-send_line :
    (l : Text) (c : Channel Text) → c.is_open ≡ false → (send_line l c).is_open ≡ false
unfolding send_line send
closed-send_line l c h = ground arith

module _ {World : Type 0} where
  -- What is written, and what waits for it.
  abbrev pub told : System World → List Text
  told s = s.stdout ++ s.session.lines.queue

  -- A move of a thread that does not care about lines and events.
  pub record Quiet (s t : System World) : Type 0 where
    pub session : t.session ≡ s.session
    pub events : t.events ≡ s.events
    pub stdout : t.stdout ≡ s.stdout

  hand_on-Quiet : (p : Parsed) (s : System World) → Quiet s (hand_on p s)
  unfolding hand_on
  hand_on-Quiet (err e) s = record { session = refl; events = refl; stdout = refl }
  hand_on-Quiet (ok m) s = record { session = refl; events = refl; stdout = refl }

  read_next-Quiet :
      (codec : Codec) (stdin : List (Option Text)) (s : System World)
      → Quiet s (read_next codec stdin s)
  unfolding read_next
  read_next-Quiet codec [] s = record { session = refl; events = refl; stdout = refl }
  read_next-Quiet codec (none ∷ stdin) s = record { session = refl; events = refl; stdout = refl }
  read_next-Quiet codec (some l ∷ stdin) s =
      ground (arith, hand_on-Quiet (parse_message codec l) (record s { stdin = stdin }))

  pub read_turn-Quiet :
      (codec : Codec) (reading : Bool) (s : System World) → Quiet s (read_turn codec reading s)
  unfolding read_turn
  read_turn-Quiet codec true s = read_next-Quiet codec s.stdin s
  read_turn-Quiet codec false s = record { session = refl; events = refl; stdout = refl }

  pub return_turn-Quiet : (x : Exit) (s : System World) → Quiet s (return_turn x s)
  unfolding return_turn
  return_turn-Quiet running s = record { session = refl; events = refl; stdout = refl }
  return_turn-Quiet x s = record { session = refl; events = refl; stdout = refl }

  -- A move adds lines to what is told, or it finds or leaves the writer gone.
  abbrev pub Adds : List Text → System World → System World → Type 0
  Adds added s t =
      (told t ≡ told s ++ added)
      ⊎ ((t.session.lines.is_open ≡ false)
          × ((unwritten : List Text) × (told s ++ added ≡ t.stdout ++ unwritten)))

  pub Quiet-Adds : (s t : System World) → Quiet s t → Adds [] s t
  Quiet-Adds s t q = inl (
      ap₂ (λ (o : List Text) (u : Session World). o ++ u.lines.queue) q.stdout q.session
      ∙ sym (append-nil (told s)))

  write_next-Adds :
      (written flushed : Bool) (queue : List Text) (s : System World)
      → s.session.lines.queue ≡ queue
      → Adds [] s (write_next written flushed queue s)
  unfolding write_next
  write_next-Adds written flushed [] s e = inl (sym (append-nil (told s)))
  write_next-Adds true flushed (l ∷ queue) s e = inl (
      append_assoc s.stdout (l ∷ []) queue
      ∙ ap (λ q. s.stdout ++ q) (sym e)
      ∙ sym (append-nil (told s)))
  write_next-Adds false flushed (l ∷ queue) s e =
      inr (refl, (l ∷ queue, append-nil (told s) ∙ ap (λ q. s.stdout ++ q) e))

  pub write_turn-Adds :
      (written flushed : Bool) (s : System World) → Adds [] s (write_turn written flushed s)
  unfolding write_turn
  write_turn-Adds written flushed s = elim (Bool-cases s.session.lines.is_open) [
    | inl lives ↦ simp lives (write_next-Adds written flushed s.session.lines.queue s refl)
    | inr ended ↦ simp ended (inl (sym (append-nil (told s))))
  ]

  send_line-Adds :
      (l : Text) (s t : System World)
      → t.stdout ≡ s.stdout
      → t.session.lines ≡ send_line l s.session.lines
      → Adds (l ∷ []) s t
  send_line-Adds l s t o e = elim (Bool-cases s.session.lines.is_open) [
    | inl lives ↦
        let q : t.session.lines.queue ≡ s.session.lines.queue ++ l ∷ [] =
          ap (λ (c : Channel Text). c.queue) e ∙ queue-send_line l s.session.lines lives in
        inl (ap₂ ◌++◌ o q ∙ sym (append_assoc s.stdout s.session.lines.queue (l ∷ [])))
    | inr ended ↦
        let gone : t.session.lines.is_open ≡ false =
          ap (λ (c : Channel Text). c.is_open) e ∙ closed-send_line l s.session.lines ended in
        inr (
          gone,
          (
            s.session.lines.queue ++ l ∷ [],
            append_assoc s.stdout s.session.lines.queue (l ∷ [])
                ∙ ap (λ h. h ++ (s.session.lines.queue ++ l ∷ [])) (sym o),
          ),
        )
  ]

  pub forward_next-Adds :
      (encode : List ℕ → Text) (e : PlatformEvent) (queue : List PlatformEvent) (s : System World)
      → Adds (to_json encode e ∷ []) s (forward_next encode (e ∷ queue) s)
  unfolding forward_next send_event
  forward_next-Adds encode e queue s =
      send_line-Adds (to_json encode e) s (forward_next encode (e ∷ queue) s) refl refl

module _ (encode : List ℕ → Text) (rtc : Ringrtc) (local : Local) where
  pub iterate-IsLonger :
      (r : Received) (s : Session rtc.World)
      → IsLonger encode rtc local (iterate rtc local r s).1.lines s.lines
  unfolding dispatch
  iterate-IsLonger timeout s = inl refl
  iterate-IsLonger disconnected s = inl refl
  iterate-IsLonger (message ControlMessage.hangup) s =
      handle-IsLonger encode rtc local ControlMessage.hangup s
  iterate-IsLonger (message m) s = handle-IsLonger encode rtc local m s

  -- An iteration adds at most an error line.
  pub poll_next-Adds :
      (b : Bool) (s : System rtc.World)
      → Adds [] s (poll_next rtc local b s)
        ⊎ ((what : Text) × (e : Text) × Adds (error_line what e ∷ []) s (poll_next rtc local b s))
  unfolding poll_next
  poll_next-Adds true s = inl (inl (sym (append-nil (told s))))
  poll_next-Adds false s =
      elim (iterate-IsLonger (receive s.reading s.messages.queue).0 s.session) [
        | inl same ↦
            inl (
              inl (ap (λ (c : Channel Text). s.stdout ++ c.queue) same ∙ sym (append-nil (told s))))
        | inr (what, e, longer) ↦ inr (
          what,
          e,
          send_line-Adds (error_line what e) s (poll_next rtc local false s) refl longer,
        )
      ]
