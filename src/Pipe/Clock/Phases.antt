-- ===== src/Pipe/Clock/Phases.antt =====
-- What each phase of a round of `clock_loop` in pipe_audio.rs keeps.
use signal_call_tunnel.Base.{
  ℕ, ◌+◌, ◌*◌, ◌%◌, ◌≤◌, ◌<◌, ◌≡◌, refl, ap, subst, Bool, true, false, List, [], ◌++◌, Option, none,
  some, ℤ, ltb, inl, inr, Bool-cases, Option-cases, length, arith, drop, length-append, length-drop,
}
use signal_call_tunnel.Pipe.Pcm.{encode}
use signal_call_tunnel.Pipe.Pcm.RoundTrip.{length-encode}
use signal_call_tunnel.Pipe.Buffer.{cap_buffer}
use signal_call_tunnel.Pipe.Buffer.Cap.{
  DropsPairs, DropsPairs-parity, cap_buffer-DropsPairs, length-cap_buffer-le,
}
use signal_call_tunnel.Pipe.Buffer.Window.{window_of, take_window_lem, available}
use signal_call_tunnel.Pipe.Socket.{IoResult, ok, err, Socket, IsStream}
use signal_call_tunnel.Pipe.Socket.Drain.{drain_playout-Drained}
use signal_call_tunnel.Pipe.Socket.Fill.{fill_capture-Filled}
use signal_call_tunnel.Pipe.Clock.{
  Clock, Pushed, push_of, max_buffered, remote_phase, accept_phase, playout_phase, drained,
  drain_phase, filled, capture_phase, record_phase, pace,
}

-- What a round hands to WebRTC, by whether a window is due.
abbrev pub window_pushed : Bool → List ℕ → Option Pushed
window_pushed false buf = none
window_pushed true buf = some (push_of (window_of buf))

module _ (net : Socket) (fuel : ℕ) where
  -- In both directions the bytes moved and buffered on a connection are whole samples.
  abbrev pub IsAligned : Option net.Peer → List ℕ → List ℕ → Type 0
  IsAligned none playout capture = Unit
  IsAligned (some p) playout capture =
      ((length (net.sent p) + length playout) % 2 ≡ 0)
      × ((length (net.received p) + length capture) % 2 ≡ 0)

  -- The fuel of a round covers the bytes that wait in the socket.
  abbrev pub IsReady : Option net.Peer → Type 0
  IsReady none = Unit
  IsReady (some p) = net.pending p < fuel

  pub record IsSound (c : Clock net) : Type 0 where
    pub playout_bound : length c.playout_buf ≤ max_buffered + 1
    pub capture_bound : length c.capture_buf ≤ max_buffered + 1
    pub aligned : IsAligned c.stream c.playout_buf c.capture_buf
    pub ready : IsReady c.stream

  -- A connection that `accept` returns is new.
  abbrev pub IsFresh : IoResult net.Peer → Type 0
  IsFresh (ok p) = (net.sent p ≡ []) × (net.received p ≡ []) × (net.pending p < fuel)
  IsFresh (err e) = Unit

  -- What the other side does moves no byte through our calls.
  abbrev pub IsRemote : (net.Peer → net.Peer) → Type 0
  IsRemote remote =
      (p : net.Peer)
      → (net.sent (remote p) ≡ net.sent p)
        × (net.received (remote p) ≡ net.received p)
        × (net.pending (remote p) < fuel)

  parity-cap_buffer : (buf : List ℕ) → length (cap_buffer buf max_buffered) % 2 ≡ length buf % 2
  parity-cap_buffer buf = DropsPairs-parity (cap_buffer-DropsPairs buf max_buffered)

  pub accept_phase-IsSound :
      (a : IoResult net.Peer) (c : Clock net) → IsFresh a → IsSound c → IsSound (accept_phase a c)
  unfolding accept_phase
  accept_phase-IsSound a c h s = ground arith

  pub playout_phase-IsSound :
      (playing : Bool) (play : List ℤ) (c : Clock net)
      → IsSound c
      → IsSound (playout_phase playing play c)
  unfolding playout_phase
  playout_phase-IsSound playing play c s =
      let buf : List ℕ = c.playout_buf ++ encode play in
      ground (
        arith,
        length-append c.playout_buf (encode play),
        length-encode play,
        length-cap_buffer-le (c.playout_buf ++ encode play) max_buffered,
        parity-cap_buffer (c.playout_buf ++ encode play),
      )

  pub remote_phase-IsSound :
      (remote : net.Peer → net.Peer) (c : Clock net)
      → IsRemote remote
      → IsSound c
      → IsSound (remote_phase remote c)
  unfolding remote_phase
  remote_phase-IsSound remote c h s = grind arith

  module _ (laws : IsStream net) where
    drained-IsSound :
        (c : Clock net) (p : net.Peer) (r : IoResult (Unit {0})) (q : net.Peer) (left : List ℕ)
        → IsSound c
        → c.stream ≡ some p
        → net.sent q ++ left ≡ net.sent p ++ c.playout_buf
        → net.received q ≡ net.received p
        → net.pending q ≤ net.pending p
        → length left ≤ length c.playout_buf
        → IsSound (drained c (r, q, left))
    unfolding drained
    drained-IsSound c p (ok u) q left s e sent received pending shorter = ground (
      arith,
      ap length sent,
      length-append (net.sent q) left,
      length-append (net.sent p) c.playout_buf,
      ap length received,
    )
    drained-IsSound c p (err k) q left s e sent received pending shorter = ground arith

    next_tick-drained :
        (c : Clock net) (r : IoResult (Unit {0})) (q : net.Peer) (left : List ℕ)
        → (drained c (r, q, left)).next_tick ≡ c.next_tick
    unfolding drained
    next_tick-drained c (ok u) q left = refl
    next_tick-drained c (err k) q left = refl

    next_tick-filled :
        (c : Clock net) (r : IoResult (Unit {0})) (q : net.Peer) (left : List ℕ)
        → (filled c (r, q, left)).next_tick ≡ c.next_tick
    unfolding filled
    next_tick-filled c (ok u) q left = refl
    next_tick-filled c (err k) q left = refl

    -- The phase returns, and keeps the buffers bounded and the streams aligned.
    pub drain_phase-IsSound :
        (c : Clock net)
        → IsSound c
        → (c' : Clock net) × (drain_phase c ≡ some c') × IsSound c' × (c'.next_tick ≡ c.next_tick)
    unfolding drain_phase
    drain_phase-IsSound c s = elim (Option-cases c.stream) [
      | inl e ↦ (c, ground arith, s, refl)
      | inr (p, e) ↦
          let d = drain_playout-Drained net laws p c.playout_buf in
          elim (Bool-cases (ltb 0 (length c.playout_buf))) [
            | inl queued ↦ (
              drained c (d.result, d.peer, d.left),
              ground (arith, d.returned),
              drained-IsSound c p d.result d.peer d.left s e d.conserved d.received d.pending
                  d.shorter,
              next_tick-drained c d.result d.peer d.left,
            )
            | inr empty ↦ (c, ground arith, s, refl)
          ]
    ]

    filled-IsSound :
        (c : Clock net) (p : net.Peer) (r : IoResult (Unit {0})) (q : net.Peer)
        (left fresh : List ℕ)
        → IsSound c
        → c.stream ≡ some p
        → net.received q ≡ net.received p ++ fresh
        → DropsPairs left (c.capture_buf ++ fresh)
        → length left ≤ max_buffered + 1
        → net.sent q ≡ net.sent p
        → net.pending q ≤ net.pending p
        → IsSound (filled c (r, q, left))
    unfolding filled
    filled-IsSound c p (ok u) q left fresh s e received kept bound sent pending = ground (
      arith,
      ap length received,
      length-append (net.received p) fresh,
      DropsPairs-parity kept,
      length-append c.capture_buf fresh,
      ap length sent,
    )
    filled-IsSound c p (err k) q left fresh s e received kept bound sent pending = ground arith

    pub capture_phase-IsSound :
        (c : Clock net)
        → IsSound c
        → (c' : Clock net) × (capture_phase fuel c ≡ some c')
          × IsSound c'
          × (c'.next_tick ≡ c.next_tick)
    unfolding capture_phase
    capture_phase-IsSound c s = elim (Option-cases c.stream) [
      | inl e ↦ (c, ground arith, s, refl)
      | inr (p, e) ↦
          let ready : net.pending p < fuel = subst IsReady e s.ready in
          let d =
            fill_capture-Filled net laws max_buffered fuel p c.capture_buf ready s.capture_bound in
          (
            filled c (d.result, d.peer, d.left),
            ground (arith, d.returned),
            filled-IsSound c p d.result d.peer d.left d.fresh s e d.received d.kept d.bound d.sent
                d.pending,
            next_tick-filled c d.result d.peer d.left,
          )
    ]

  pub pace-IsSound : (now : ℕ) (c : Clock net) → IsSound c → IsSound (pace now c).0
  unfolding pace
  pace-IsSound now c s = ground arith

  -- The clock after a window is taken.
  abbrev pub taken : Bool → Clock net → Clock net
  taken false c = c
  taken true c = record c { capture_buf = drop (available c.capture_buf * 2) c.capture_buf }

  pub record_phase_lem :
      (go : Bool) (c : Clock net)
      → record_phase go c ≡ some (taken go c, window_pushed go c.capture_buf)
  unfolding record_phase
  record_phase_lem false c = refl
  record_phase_lem true c = rw (take_window_lem c.capture_buf)

  pub taken-IsSound : (go : Bool) (c : Clock net) → IsSound c → IsSound (taken go c)
  taken-IsSound false c s = s
  taken-IsSound true c s = ground (arith, length-drop (available c.capture_buf * 2) c.capture_buf)

  pub next_tick-taken : (go : Bool) (c : Clock net) → (taken go c).next_tick ≡ c.next_tick
  next_tick-taken false c = refl
  next_tick-taken true c = refl

  -- The phases before the socket is used do not touch the clock.
  pub next_tick-early :
      (remote : net.Peer → net.Peer) (a : IoResult net.Peer) (playing : Bool) (play : List ℤ)
      (c : Clock net)
      → (playout_phase playing play (accept_phase a (remote_phase remote c))).next_tick
        ≡ c.next_tick
  unfolding playout_phase accept_phase remote_phase
  next_tick-early remote a playing play c = ground arith
