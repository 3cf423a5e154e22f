-- ===== src/Tunnel/Process/Turns.antt =====
-- The event loop and the forwarding thread of main.rs, turn by turn.
use signal_call_tunnel.Base.{
  ℕ, ◌≡◌, ◌≢◌, refl, sym, subst, ap, ◌∙◌, ◌⊎◌, inl, inr, true, List, [], ◌∷◌, ◌++◌, append-nil,
  append_assoc, Option, none, some, Text, arith, Bool-cases,
}
use signal_call_tunnel.Channel.{Channel, send}
use signal_call_tunnel.Platform.{PlatformEvent, to_json}
use signal_call_tunnel.Control.{ControlMessage}
use signal_call_tunnel.Control.Threads.{send_line, send_event}
use signal_call_tunnel.Tunnel.EventLoop.{
  Ringrtc, Local, Session, Poll, Received, message, timeout, disconnected, Exit, running, sigterm,
  hung_up, error_line, create_tracks, handle, dispatch, event_loop,
}
use signal_call_tunnel.Tunnel.EventLoop.Errors.{reported, lines_after, lines-handle}
use signal_call_tunnel.Tunnel.Process.{Turn, polled, forwarded, drive}

abbrev pub polls_of : List Turn → List Poll
polls_of [] = []
polls_of (polled p ∷ turns) = p ∷ polls_of turns
polls_of (forwarded e ∷ turns) = polls_of turns

abbrev pub events_of : List Turn → List PlatformEvent
events_of [] = []
events_of (polled p ∷ turns) = events_of turns
events_of (forwarded e ∷ turns) = e ∷ events_of turns

module _ (encode : List ℕ → Text) where
  -- The lines that a run of the turns adds: one for each event in order, and error lines anywhere
  -- between; events may be left over only if the loop has ended.
  pub data Logs : Exit → List PlatformEvent → List Text → Type 0 where
    all_forwarded : {x : Exit} → Logs x [] []
    left_over : {x : Exit} {events : List PlatformEvent} → x ≢ running → Logs x events []
    event :
        {x : Exit} {events : List PlatformEvent} {ls : List Text} (e : PlatformEvent)
        → Logs x events ls
        → Logs x (e ∷ events) (to_json encode e ∷ ls)
    error :
        {x : Exit} {events : List PlatformEvent} {ls : List Text} (what e : Text)
        → Logs x events ls
        → Logs x events (error_line what e ∷ ls)

module _ (rtc : Ringrtc) where
  -- Two sessions that agree on all but the lines.
  pub record Agrees (s t : Session rtc.World) : Type 0 where
    pub peer : s.active_peer_id ≡ t.active_peer_id
    pub world : s.world ≡ t.world
    pub calls : s.calls ≡ t.calls

module _ (encode : List ℕ → Text) (rtc : Ringrtc) (local : Local) where
  handle-Agrees :
      (m : ControlMessage) (s t : Session rtc.World)
      → Agrees rtc s t
      → Agrees rtc (handle rtc local m s) (handle rtc local m t)
  unfolding handle
  handle-Agrees (ControlMessage.create_outgoing_call cid pid) s t a = ground arith
  handle-Agrees (ControlMessage.proceed cid servers hide_ip) s t a = ground arith
  handle-Agrees (ControlMessage.received_offer cid pid device opaque age sender receiver) s t a =
      ground arith
  handle-Agrees (ControlMessage.received_answer opaque device sender receiver) s t a = ground arith
  handle-Agrees (ControlMessage.received_ice candidates device) s t a = ground arith
  handle-Agrees ControlMessage.accept s t a = ground arith
  handle-Agrees ControlMessage.hangup s t a = ground arith

  abbrev pub SameEnd : Exit × Session rtc.World → Exit × Session rtc.World → Type 0
  SameEnd out out' = (out.0 ≡ out'.0) × Agrees rtc out.1 out'.1

  pub dispatch-SameEnd :
      (again again' : Session rtc.World → Exit × Session rtc.World) (r : Received)
      (s t : Session rtc.World)
      → ((u v : Session rtc.World) → Agrees rtc u v → SameEnd (again u) (again' v))
      → Agrees rtc s t
      → SameEnd (dispatch rtc local again r s) (dispatch rtc local again' r t)
  unfolding dispatch
  dispatch-SameEnd again again' timeout s t h a = h s t a
  dispatch-SameEnd again again' disconnected s t h a = (refl, a)
  dispatch-SameEnd again again' (message ControlMessage.hangup) s t h a =
      (refl, handle-Agrees ControlMessage.hangup s t a)
  dispatch-SameEnd again again' (message m) s t h a =
      h (handle rtc local m s) (handle rtc local m t) (handle-Agrees m s t a)

  -- From sessions that agree on all but the lines, the turns and the event loop alone, on the
  -- iterations among them, end in the same way, with the same peer, state of RingRTC and requests: the
  -- forwarding thread does not interfere, in whatever order the two move.
  pub drive-SameEnd :
      (turns : List Turn) (s t : Session rtc.World)
      → Agrees rtc s t
      → SameEnd (drive encode rtc local turns s) (event_loop rtc local (polls_of turns) t)
  unfolding drive event_loop
  drive-SameEnd [] s t a = (refl, a)
  drive-SameEnd (forwarded e ∷ turns) s t a =
      drive-SameEnd turns (record s { lines = send_event encode e s.lines }) t
        (record { peer = a.peer; world = a.world; calls = a.calls })
  drive-SameEnd (polled p ∷ turns) s t a = elim (Bool-cases p.terminate) [
    | inl stop ↦ rw (stop, drive, event_loop) (refl, a)
    | inr go ↦
        rw (go, drive, event_loop)
          (dispatch-SameEnd (λ u. drive encode rtc local turns u)
            (λ v. event_loop rtc local (polls_of turns) v) p.received s t
            (λ u v b. drive-SameEnd turns u v b) a)
  ]

  -- The lines after a message: the same, or with one error line.
  abbrev pub IsLonger : Channel Text → Channel Text → Type 0
  IsLonger lines' lines =
      (lines' ≡ lines)
      ⊎ ((what : Text) × (e : Text) × (lines' ≡ send_line (error_line what e) lines))

  reported-IsLonger :
      (what : Text) (o : Option Text) (lines : Channel Text)
      → IsLonger (reported what o lines) lines
  reported-IsLonger what none lines = inl refl
  reported-IsLonger what (some e) lines = inr (what, e, refl)

  lines_after-IsLonger :
      (m : ControlMessage) (s : Session rtc.World) → IsLonger (lines_after rtc local m s) s.lines
  lines_after-IsLonger (ControlMessage.create_outgoing_call cid pid) s =
      reported-IsLonger _ _ s.lines
  lines_after-IsLonger (ControlMessage.proceed cid servers hide_ip) s =
      elim (Bool-cases (create_tracks rtc local s.world).0) [
        | inl e ↦ rw (e, lines_after) (reported-IsLonger _ _ s.lines)
        | inr e ↦ rw (e, lines_after) (inl refl)
      ]
  lines_after-IsLonger (ControlMessage.received_offer cid pid device opaque age sender receiver) s =
      inl refl
  lines_after-IsLonger m s = inl refl

  pub handle-IsLonger :
      (m : ControlMessage) (s : Session rtc.World) → IsLonger (handle rtc local m s).lines s.lines
  handle-IsLonger m s =
      subst (λ c. IsLonger c s.lines) (sym (lines-handle rtc local m s)) (lines_after-IsLonger m s)

  abbrev open_with : List Text → Channel Text
  open_with q = record { is_open = true; queue = q }

  pub record Logged (q : List Text) (events : List PlatformEvent) (out : Exit × Session rtc.World)
      : Type 0 where
    pub added : List Text
    pub lines : out.1.lines ≡ record { is_open = true; queue = q ++ added }
    pub logs : Logs encode out.0 events added

  Logged-none :
      (q : List Text) (events : List PlatformEvent) (x : Exit) (s : Session rtc.World)
      → s.lines ≡ open_with q
      → Logs encode x events []
      → Logged q events (x, s)
  Logged-none q events x s h l = record { added = []; lines = rw (append-nil q) h; logs = l }

  Logged-event :
      (q : List Text) (e : PlatformEvent) (events : List PlatformEvent)
      (out : Exit × Session rtc.World)
      → Logged (q ++ to_json encode e ∷ []) events out
      → Logged q (e ∷ events) out
  Logged-event q e events out g = record {
    added = to_json encode e ∷ g.added;
    lines = g.lines ∙ ap open_with (append_assoc q (to_json encode e ∷ []) g.added);
    logs = event e g.logs;
  }

  Logged-error :
      (q : List Text) (what e : Text) (events : List PlatformEvent) (out : Exit × Session rtc.World)
      → Logged (q ++ error_line what e ∷ []) events out
      → Logged q events out
  Logged-error q what e events out g = record {
    added = error_line what e ∷ g.added;
    lines = g.lines ∙ ap open_with (append_assoc q (error_line what e ∷ []) g.added);
    logs = error what e g.logs;
  }

  Logged-handle :
      (m : ControlMessage) (q : List Text) (events : List PlatformEvent) (s : Session rtc.World)
      (again : Session rtc.World → Exit × Session rtc.World)
      → s.lines ≡ open_with q
      → ((k : List Text) (u : Session rtc.World)
          → u.lines ≡ open_with k
          → Logged k events (again u))
      → Logged q events (again (handle rtc local m s))
  unfolding send_line send
  Logged-handle m q events s again h rec = elim (handle-IsLonger m s) [
    | inl same ↦ rec q (handle rtc local m s) (same ∙ h)
    | inr (what, e, added) ↦
        Logged-error q what e events (again (handle rtc local m s))
          (rec (q ++ error_line what e ∷ []) (handle rtc local m s) (added ∙ rw h refl))
  ]

  dispatch-Logged :
      (again : Session rtc.World → Exit × Session rtc.World) (r : Received) (q : List Text)
      (events : List PlatformEvent) (s : Session rtc.World)
      → s.lines ≡ open_with q
      → ((k : List Text) (u : Session rtc.World)
          → u.lines ≡ open_with k
          → Logged k events (again u))
      → Logged q events (dispatch rtc local again r s)
  unfolding dispatch
  dispatch-Logged again timeout q events s h rec = rec q s h
  dispatch-Logged again disconnected q events s h rec =
      Logged-none q events Exit.disconnected s h (left_over (λ e. ground arith))
  dispatch-Logged again (message ControlMessage.hangup) q events s h rec =
      Logged-handle ControlMessage.hangup q events s (λ u. (hung_up, u)) h
        (λ k u e. Logged-none k events hung_up u e (left_over (λ x. ground arith)))
  dispatch-Logged again (message m) q events s h rec = Logged-handle m q events s again h rec

  -- While the writer thread lives, the turns add a line for each event that is forwarded, in order,
  -- and error lines between them, and nothing else; with the loop still running no event is left.
  pub drive-Logged :
      (turns : List Turn) (q : List Text) (s : Session rtc.World)
      → s.lines ≡ record { is_open = true; queue = q }
      → Logged q (events_of turns) (drive encode rtc local turns s)
  unfolding drive send_event send_line send
  drive-Logged [] q s h = Logged-none q [] running s h all_forwarded
  drive-Logged (forwarded e ∷ turns) q s h = Logged-event q e (events_of turns) _ (
      drive-Logged turns (q ++ to_json encode e ∷ [])
        (record s { lines = send_event encode e s.lines }) (rw h refl))
  drive-Logged (polled p ∷ turns) q s h = elim (Bool-cases p.terminate) [
    | inl stop ↦
        rw (stop, drive)
          (Logged-none q (events_of turns) sigterm s h (left_over (λ e. ground arith)))
    | inr go ↦
        rw (go, drive)
          (dispatch-Logged (λ u. drive encode rtc local turns u) p.received q (events_of turns) s h
            (λ k u e. drive-Logged turns k u e))
  ]
