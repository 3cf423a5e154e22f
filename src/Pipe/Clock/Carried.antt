-- ===== src/Pipe/Clock/Carried.antt =====
-- What a round of `clock_loop` in pipe_audio.rs carries over a connection, in both directions.
use signal_call_tunnel.Base.{
  ℕ, ◌+◌, ◌*◌, ◌≤◌, ◌<◌, ◌≡◌, refl, sym, subst, ap, ◌∙◌, inl, inr, Bool, true, false, ◌&&◌, List,
  [], ◌++◌, append-nil, Option, none, some, ℤ, arith, ltb, length, drop, Bool-cases, Option-cases,
}
use signal_call_tunnel.Pipe.Pcm.{encode}
use signal_call_tunnel.Pipe.Buffer.{cap_buffer}
use signal_call_tunnel.Pipe.Buffer.Cap.{DropsPairs, DropsPairs-refl, cap_buffer-DropsPairs}
use signal_call_tunnel.Pipe.Buffer.Window.{available}
use signal_call_tunnel.Pipe.Socket.{ok, err, IoResult, Socket, IsStream}
use signal_call_tunnel.Pipe.Socket.Drain.{drain_playout-Drained}
use signal_call_tunnel.Pipe.Socket.Fill.{fill_capture-Filled}
use signal_call_tunnel.Pipe.Clock.{
  Clock, Round, Emitted, max_buffered, tick_ns, remote_phase, accept_phase, playout_phase, drained,
  drain_phase, filled, capture_phase, pace, tick,
}
use signal_call_tunnel.Pipe.Clock.Phases.{IsRemote, IsReady, taken, window_pushed, record_phase_lem}

module _ (net : Socket) (laws : IsStream net) (fuel : ℕ) where
  -- If the connection is still there: with what is left in the playout buffer, what was sent since
  -- `p` is what was queued, and `fresh` was received.
  abbrev pub IsMoved : net.Peer → List ℕ → List ℕ → Option net.Peer → List ℕ → Type 0
  IsMoved p queued fresh none left = Unit
  IsMoved p queued fresh (some q) left =
      (net.sent q ++ left ≡ net.sent p ++ queued) × (net.received q ≡ net.received p ++ fresh)

  -- The samples of a round, encoded, if it plays.
  abbrev pub played : Bool → List ℤ → List ℕ
  played false play = []
  played true play = encode play

  -- What a phase leaves of the connection with `p`, and of the capture buffer.
  record Drains (c : Clock net) (p : net.Peer) (c' : Clock net) : Type 0 where
    capture_same : c'.capture_buf ≡ c.capture_buf
    moved : IsMoved p c.playout_buf [] c'.stream c'.playout_buf
    still : IsReady net fuel c'.stream

  drained-Drains :
      (c : Clock net) (p : net.Peer) (r : IoResult (Unit {0})) (q : net.Peer) (left : List ℕ)
      → net.sent q ++ left ≡ net.sent p ++ c.playout_buf
      → net.received q ≡ net.received p
      → net.pending q < fuel
      → Drains c p (drained c (r, q, left))
  unfolding drained
  drained-Drains c p (ok u) q left sent received still = record {
    capture_same = refl;
    moved = (sent, received ∙ sym (append-nil (net.received p)));
    still = still;
  }
  drained-Drains c p (err k) q left sent received still = record {
    capture_same = refl;
    moved = tt;
    still = tt;
  }

  undrained-Drains :
      (c : Clock net) (p : net.Peer) → c.stream ≡ some p → net.pending p < fuel → Drains c p c
  undrained-Drains c p e ready = record {
    capture_same = refl;
    moved =
        subst (λ s. IsMoved p c.playout_buf [] s c.playout_buf) (sym e)
          (refl, sym (append-nil (net.received p)));
    still = subst (IsReady net fuel) (sym e) ready;
  }

  drain_phase-Drains :
      (c : Clock net) (p : net.Peer)
      → c.stream ≡ some p
      → net.pending p < fuel
      → (c' : Clock net) × (drain_phase c ≡ some c') × Drains c p c'
  unfolding drain_phase
  drain_phase-Drains c p e ready =
      let d = drain_playout-Drained net laws p c.playout_buf in
      elim (Bool-cases (ltb 0 (length c.playout_buf))) [
        | inl queued ↦ (
          drained c (d.result, d.peer, d.left),
          ground (arith, d.returned),
          drained-Drains c p d.result d.peer d.left d.conserved d.received
              (omega (arith, d.pending)),
        )
        | inr empty ↦ (c, ground arith, undrained-Drains c p e ready)
      ]

  -- The capture phase, after a drain that began with `p` and `queued`.
  record Fills (c : Clock net) (p : net.Peer) (queued : List ℕ) (c' : Clock net) : Type 0 where
    fresh : List ℕ
    kept : DropsPairs c'.capture_buf (c.capture_buf ++ fresh)
    spare : length (c.capture_buf ++ fresh) ≤ max_buffered → c'.capture_buf ≡ c.capture_buf ++ fresh
    moved : IsMoved p queued fresh c'.stream c'.playout_buf

  filled-Fills :
      (c : Clock net) (p : net.Peer) (queued : List ℕ) (r : IoResult (Unit {0})) (q : net.Peer)
      (left fresh : List ℕ)
      → net.sent q ++ c.playout_buf ≡ net.sent p ++ queued
      → net.received q ≡ net.received p ++ fresh
      → DropsPairs left (c.capture_buf ++ fresh)
      → (length (c.capture_buf ++ fresh) ≤ max_buffered → left ≡ c.capture_buf ++ fresh)
      → Fills c p queued (filled c (r, q, left))
  unfolding filled
  filled-Fills c p queued (ok u) q left fresh sent received kept spare = record {
    fresh = fresh;
    kept = kept;
    spare = spare;
    moved = (sent, received);
  }
  filled-Fills c p queued (err k) q left fresh sent received kept spare = record {
    fresh = fresh;
    kept = kept;
    spare = spare;
    moved = tt;
  }

  capture_phase-Fills :
      (c : Clock net) (p : net.Peer) (queued : List ℕ)
      → IsMoved p queued [] c.stream c.playout_buf
      → IsReady net fuel c.stream
      → length c.capture_buf ≤ max_buffered + 1
      → (c' : Clock net) × (capture_phase fuel c ≡ some c') × Fills c p queued c'
  unfolding capture_phase
  capture_phase-Fills c p queued moved ready bound = elim (Option-cases c.stream) [
    | inl e ↦ (
      c,
      ground arith,
      record {
        fresh = [];
        kept =
            subst (DropsPairs c.capture_buf) (sym (append-nil c.capture_buf))
              (DropsPairs-refl c.capture_buf);
        spare = λ h. sym (append-nil c.capture_buf);
        moved = subst (λ s. IsMoved p queued [] s c.playout_buf) (sym e) tt;
      },
    )
    | inr (q, e) ↦
        let still : net.pending q < fuel = subst (IsReady net fuel) e ready in
        let now = subst (λ s. IsMoved p queued [] s c.playout_buf) e moved in
        let d = fill_capture-Filled net laws max_buffered fuel q c.capture_buf still bound in
        (
          filled c (d.result, d.peer, d.left),
          ground (arith, d.returned),
          filled-Fills c p queued d.result d.peer d.left d.fresh
              (ap (λ l. l ++ c.playout_buf) d.sent ∙ now.0)
              (d.received ∙ ap (λ l. l ++ d.fresh) (now.1 ∙ append-nil (net.received p))) d.kept
              d.spare,
        )
  ]

  abbrev queued_by : Bool → List ℤ → List ℕ → List ℕ
  queued_by false play buf = buf
  queued_by true play buf = cap_buffer (buf ++ encode play) max_buffered

  queued_by-DropsPairs :
      (playing : Bool) (play : List ℤ) (buf : List ℕ)
      → DropsPairs (queued_by playing play buf) (buf ++ played playing play)
  queued_by-DropsPairs false play buf =
      subst (DropsPairs buf) (sym (append-nil buf)) (DropsPairs-refl buf)
  queued_by-DropsPairs true play buf = cap_buffer-DropsPairs (buf ++ encode play) max_buffered

  -- The clock before the socket is used.
  abbrev early : Round net → Clock net → Clock net
  early r c = playout_phase r.playing r.play (
      accept_phase r.accepted
        (remote_phase r.remote (record c { next_tick = c.next_tick + tick_ns })))

  early_lem :
      (r : Round net) (c : Clock net) (p : net.Peer)
      → c.stream ≡ some p
      → ((early r c).stream ≡ some (r.remote p))
        × ((early r c).capture_buf ≡ c.capture_buf)
        × ((early r c).playout_buf ≡ queued_by r.playing r.play c.playout_buf)
  unfolding playout_phase accept_phase remote_phase
  early_lem r c p e = ground arith

  -- What stays in the capture buffer.
  abbrev pub unheard : Bool → List ℕ → List ℕ
  unheard false heard = heard
  unheard true heard = drop (available heard * 2) heard

  -- A round over the connection with `p`: `queued` is what is there to send, `heard` what is there
  -- to deliver.
  pub record Carried (r : Round net) (p : net.Peer) (c : Clock net)
      (out : Option (Clock net × Emitted)) : Type 0 where
    pub clock : Clock net
    pub emitted : Emitted
    pub queued : List ℕ
    pub fresh : List ℕ
    pub heard : List ℕ
    pub returned : out ≡ some (clock, emitted)
    pub queue : DropsPairs queued (c.playout_buf ++ played r.playing r.play)
    pub moved : IsMoved p queued fresh clock.stream clock.playout_buf
    pub capture : DropsPairs heard (c.capture_buf ++ fresh)
    pub spare : length (c.capture_buf ++ fresh) ≤ max_buffered → heard ≡ c.capture_buf ++ fresh
    pub pushed : emitted.pushed ≡ window_pushed (r.recording && r.send_to_webrtc) heard
    pub rest : clock.capture_buf ≡ unheard (r.recording && r.send_to_webrtc) heard

  taken_lem :
      (go : Bool) (now : ℕ) (c : Clock net)
      → ((pace now (taken net fuel go c)).0.stream ≡ c.stream)
        × ((pace now (taken net fuel go c)).0.playout_buf ≡ c.playout_buf)
        × ((pace now (taken net fuel go c)).0.capture_buf ≡ unheard go c.capture_buf)
  unfolding pace
  taken_lem go now c = ground arith

  IsMoved-along :
      (p q : net.Peer) (buf queued fresh : List ℕ) (s : Option net.Peer) (left : List ℕ)
      → net.sent q ≡ net.sent p
      → net.received q ≡ net.received p
      → buf ≡ queued
      → IsMoved q buf fresh s left
      → IsMoved p queued fresh s left
  IsMoved-along p q buf queued fresh none left sent received b m = tt
  IsMoved-along p q buf queued fresh (some t) left sent received b m =
      (m.0 ∙ rw (sent, b) refl, m.1 ∙ ap (λ l. l ++ fresh) received)

  tick-Carried_from :
      (r : Round net) (c c3 c4 : Clock net) (p : net.Peer) (queued : List ℕ)
      → drain_phase (early r c) ≡ some c3
      → capture_phase fuel c3 ≡ some c4
      → c3.capture_buf ≡ c.capture_buf
      → DropsPairs queued (c.playout_buf ++ played r.playing r.play)
      → Fills c3 p queued c4
      → Carried r p c (tick fuel r c)
  unfolding tick
  tick-Carried_from r c c3 c4 p queued e3 e4 same queue f =
      let go = r.recording && r.send_to_webrtc in
      let (stream, playout, capture) = taken_lem go r.now c4 in
      record {
        clock = (pace r.now (taken net fuel go c4)).0;
        emitted = record {
          pulled = r.playing;
          pushed = window_pushed go c4.capture_buf;
          slept = (pace r.now (taken net fuel go c4)).1;
        };
        queued = queued;
        fresh = f.fresh;
        heard = c4.capture_buf;
        returned = rw (e3, e4, record_phase_lem net fuel go c4);
        queue = queue;
        moved = rw (stream, playout) f.moved;
        capture = subst (λ b. DropsPairs c4.capture_buf (b ++ f.fresh)) same f.kept;
        spare =
            subst (λ b. length (b ++ f.fresh) ≤ max_buffered → c4.capture_buf ≡ b ++ f.fresh) same
              f.spare;
        pushed = refl;
        rest = capture;
      }

  -- Over a socket that keeps to its documentation, with more fuel than bytes ever wait in it, a round
  -- that finds a connection and at most `max + 1` bytes captured returns. What it sends, with what
  -- stays queued, is the queue followed by the encoded samples of the round, less whole pairs of the
  -- oldest bytes. It delivers, if it delivers, the window at the front of the captured bytes followed
  -- by those received in this round, less whole pairs of the oldest, where nothing is dropped if `max`
  -- bytes are enough, and keeps what is behind it.
  pub tick-Carried :
      (r : Round net) (c : Clock net) (p : net.Peer)
      → IsRemote net fuel r.remote
      → c.stream ≡ some p
      → length c.capture_buf ≤ max_buffered + 1
      → Carried r p c (tick fuel r c)
  tick-Carried r c p remote e bound =
      let (stream, capture, playout) = early_lem r c p e in
      let (sent, received, ready) = remote p in
      let (c3, e3, d) = drain_phase-Drains (early r c) (r.remote p) stream ready in
      let queued = queued_by r.playing r.play c.playout_buf in
      let moved : IsMoved p queued [] c3.stream c3.playout_buf =
        IsMoved-along p (r.remote p) _ queued [] c3.stream c3.playout_buf sent received playout
          d.moved in
      let same : c3.capture_buf ≡ c.capture_buf = d.capture_same ∙ capture in
      let (c4, e4, f) =
        capture_phase-Fills c3 p queued moved d.still
          (subst (λ b. length b ≤ max_buffered + 1) (sym same) bound) in
      tick-Carried_from r c c3 c4 p queued e3 e4 same
        (queued_by-DropsPairs r.playing r.play c.playout_buf) f
