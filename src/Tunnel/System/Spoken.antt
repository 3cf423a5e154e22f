-- ===== src/Tunnel/System/Spoken.antt =====
-- What a run of the process's threads has said on stdout.
use signal_call_tunnel.Base.{
  ℕ, ◌≡◌, refl, sym, ap, ◌∙◌, inl, inr, true, false, List, [], ◌∷◌, ◌++◌, append-nil, append_assoc,
  Text,
}
use signal_call_tunnel.Channel.{Channel}
use signal_call_tunnel.Platform.{CallMediaType, PlatformEvent}
use signal_call_tunnel.Platform.Relay.{Notice, notice_event, callback, callback-open}
use signal_call_tunnel.Control.{Codec}
use signal_call_tunnel.Tunnel.EventLoop.{Ringrtc, Local, running}
use signal_call_tunnel.Tunnel.Process.Turns.{Logs, all_forwarded}
use signal_call_tunnel.Tunnel.System.{
  System, Turn, reads, forwards, returns, polls, notified, writes, forward_turn, turn, run,
}
use signal_call_tunnel.Tunnel.System.Steps.{go, go_on}
use signal_call_tunnel.Tunnel.System.Lines.{
  Logs-append, told, read_turn-Quiet, return_turn-Quiet, Quiet-Adds, Adds, write_turn-Adds,
}
use signal_call_tunnel.Tunnel.System.Moves.{
  Says, Says-plain, write_turn-events, forward_next-Says, poll_turn-Says, Mute, Quiet-Mute,
  write_turn-Mute, forward_next-Mute, poll_turn-Mute,
}

module _ {H R : Type 0} (debug_hangup : H → Text) (debug_media : CallMediaType → Text)
    (debug_reason : R → Text) where
  abbrev pub heard_of : Turn H R → List PlatformEvent
  heard_of (notified n) = notice_event debug_hangup debug_media debug_reason n ∷ []
  heard_of _ = []

  -- The events that RingRTC's callbacks make among the moves.
  abbrev pub heard : List (Turn H R) → List PlatformEvent
  heard [] = []
  heard (t ∷ turns) = heard_of t ++ heard turns

module _ (encode : List ℕ → Text) (rtc : Ringrtc) where
  -- From a state on, events `es` come: those that have been forwarded are the first ones, in order,
  -- and the others wait. Stdout has grown by what waited to be written, and behind that by a line for
  -- each event forwarded, and error lines between, up to a point; what is missing still waits, if the
  -- writer thread lives.
  pub record Spoke (es : List PlatformEvent) (s t : System rtc.World) : Type 0 where
    pub forwarded : List PlatformEvent
    pub added : List Text
    pub unwritten : List Text
    pub handed : s.events.queue ++ es ≡ forwarded ++ t.events.queue
    pub logs : Logs encode running forwarded added
    pub written : told s ++ added ≡ t.stdout ++ unwritten
    pub whole : t.session.lines.is_open ≡ true → unwritten ≡ t.session.lines.queue

  -- What stdout holds behind more moves, by the lines that the first one and the others add.
  Written : List Text → System rtc.World → System rtc.World → Type 0
  Written added s u =
      (unwritten : List Text) × (told s ++ added ≡ u.stdout ++ unwritten)
      × (u.session.lines.is_open ≡ true → unwritten ≡ u.session.lines.queue)

  Written-over :
      (a b : List Text) (s t u : System rtc.World)
      → Adds a s t
      → (t.session.lines.is_open ≡ false → Mute t u)
      → Written b t u
      → Written (a ++ b) s u
  unfolding Written
  Written-over a b s t u (inl e) mute (unwritten, w, k) =
      (unwritten, sym (append_assoc (told s) a b) ∙ ap (λ c. c ++ b) (sym e) ∙ w, k)
  Written-over a b s t u (inr (closed, (lost, e))) mute w =
      let m = mute closed in
      (
        lost ++ b,
        sym (append_assoc (told s) a b)
            ∙ ap (λ c. c ++ b) e
            ∙ append_assoc t.stdout lost b
            ∙ ap (λ c. c ++ (lost ++ b)) (sym m.stdout),
        λ o. cc m.closed,
      )

  Spoke-over :
      (es fs : List PlatformEvent) (s t u : System rtc.World)
      → Says encode rtc es s t
      → (t.session.lines.is_open ≡ false → Mute t u)
      → Spoke fs t u
      → Spoke (es ++ fs) s u
  unfolding Written
  Spoke-over es fs s t u h mute k =
      let (unwritten, written, whole) =
        Written-over h.added k.added s t u h.adds mute (k.unwritten, k.written, k.whole) in
      record {
        forwarded = h.forwarded ++ k.forwarded;
        added = h.added ++ k.added;
        unwritten = unwritten;
        handed =
            sym (append_assoc s.events.queue es fs)
            ∙ ap (λ c. c ++ fs) h.handed
            ∙ append_assoc h.forwarded t.events.queue fs
            ∙ ap (λ c. h.forwarded ++ c) k.handed
            ∙ sym (append_assoc h.forwarded k.forwarded u.events.queue);
        logs = Logs-append encode running k.forwarded k.added h.logs refl k.logs;
        written = written;
        whole = whole;
      }

module _ {H R : Type 0} (codec : Codec) (encode : List ℕ → Text) (rtc : Ringrtc) (local : Local)
    (debug_hangup : H → Text) (debug_media : CallMediaType → Text) (debug_reason : R → Text) where
  abbrev one : Turn H R → System rtc.World → System rtc.World
  one = go codec encode rtc local debug_hangup debug_media debug_reason

  abbrev all : List (Turn H R) → System rtc.World → System rtc.World
  all = go_on codec encode rtc local debug_hangup debug_media debug_reason

  callback-told :
      (n : Notice H R) (c : Channel PlatformEvent)
      → c.is_open ≡ true
      → callback debug_hangup debug_media debug_reason n c ≡ record {
        is_open = true;
        queue = c.queue ++ notice_event debug_hangup debug_media debug_reason n ∷ [];
      }
  callback-told n c o =
      ap
        (λ b.
          callback debug_hangup debug_media debug_reason n
            (record { is_open = b; queue = c.queue }))
        o
      ∙ callback-open debug_hangup debug_media debug_reason n c.queue

  pub turn-Says :
      (t : Turn H R) (s : System rtc.World)
      → s.events.is_open ≡ true
      → Says encode rtc (heard_of debug_hangup debug_media debug_reason t) s (one t s)
  unfolding turn forward_turn
  turn-Says reads s o =
      let q = read_turn-Quiet codec s.reading s in
      Says-plain encode rtc s (one reads s) q.events o (Quiet-Adds s (one reads s) q)
  turn-Says forwards s o = forward_next-Says encode rtc s.events.queue s refl o
  turn-Says returns s o =
      let q = return_turn-Quiet s.exit s in
      Says-plain encode rtc s (one returns s) q.events o (Quiet-Adds s (one returns s) q)
  turn-Says (polls b) s o = poll_turn-Says encode rtc local s.exit b s o
  turn-Says (notified n) s o =
      let e = callback-told n s.events o in
      record {
        forwarded = [];
        added = [];
        handed = ap (λ (c : Channel PlatformEvent). c.queue) (sym e);
        open_still = ap (λ (c : Channel PlatformEvent). c.is_open) e;
        logs = all_forwarded;
        adds = inl (sym (append-nil (told s)));
      }
  turn-Says (writes written flushed) s o =
      Says-plain encode rtc s (one (writes written flushed) s)
        (write_turn-events encode rtc written flushed s) o (write_turn-Adds written flushed s)

  turn-Mute :
      (t : Turn H R) (s : System rtc.World) → s.session.lines.is_open ≡ false → Mute s (one t s)
  unfolding turn forward_turn
  turn-Mute reads s h =
      Quiet-Mute encode rtc local s (one reads s) h (read_turn-Quiet codec s.reading s)
  turn-Mute forwards s h = forward_next-Mute encode rtc local s.events.queue s h
  turn-Mute returns s h =
      Quiet-Mute encode rtc local s (one returns s) h (return_turn-Quiet s.exit s)
  turn-Mute (polls b) s h = poll_turn-Mute encode rtc local s.exit b s h
  turn-Mute (notified n) s h = record { closed = h; stdout = refl }
  turn-Mute (writes written flushed) s h = write_turn-Mute encode rtc local written flushed s h

  run-Mute :
      (turns : List (Turn H R)) (s : System rtc.World)
      → s.session.lines.is_open ≡ false
      → Mute s (all turns s)
  unfolding run
  run-Mute [] s h = record { closed = h; stdout = refl }
  run-Mute (t ∷ turns) s h =
      let m = turn-Mute t s h in
      let k = run-Mute turns (one t s) m.closed in
      record { closed = k.closed; stdout = k.stdout ∙ m.stdout }

  pub run-Spoke :
      (turns : List (Turn H R)) (s : System rtc.World)
      → s.events.is_open ≡ true
      → Spoke encode rtc (heard debug_hangup debug_media debug_reason turns) s (all turns s)
  unfolding run
  run-Spoke [] s o = record {
    forwarded = [];
    added = [];
    unwritten = s.session.lines.queue;
    handed = append-nil s.events.queue;
    logs = all_forwarded;
    written = append-nil (told s);
    whole = λ _. refl;
  }
  run-Spoke (t ∷ turns) s o =
      let h = turn-Says t s o in
      Spoke-over encode rtc (heard_of debug_hangup debug_media debug_reason t)
        (heard debug_hangup debug_media debug_reason turns) s (one t s) (all turns (one t s)) h
        (λ c. run-Mute turns (one t s) c) (run-Spoke turns (one t s) h.open_still)
