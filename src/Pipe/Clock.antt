-- ===== src/Pipe/Clock.antt =====
-- `clock_loop` of pipe_audio.rs: one round every 10 ms, phase by phase.
pub mod Phases
pub mod Carried
pub mod Stream
pub mod Hearing
pub mod Rounds
use signal_call_tunnel.Base.{
  ℕ, ◌+◌, ◌-◌, ◌*◌, ◌<◌, ◌≡◌, Bool, true, false, List, [], ◌∷◌, ◌++◌, Option, none, some, ◌>>=◌, ℤ,
  ltb, ◌&&◌, if◌then◌else◌, length,
}
use signal_call_tunnel.Pipe.Pcm.{
  sample_frequency, num_channels, window_ms, webrtc_window, bytes_per_sample, pipe_playout_delay_ms,
  encode,
}
use signal_call_tunnel.Pipe.Buffer.{cap_buffer, take_window}
use signal_call_tunnel.Pipe.Socket.{IoResult, ok, err, Socket, Moved, drain_playout, fill_capture}

-- Instants and durations are in nanoseconds.
abbrev pub tick_ns : ℕ
tick_ns = window_ms * 1000000

abbrev pub bytes_per_window : ℕ
bytes_per_window = webrtc_window * bytes_per_sample

abbrev pub max_buffered : ℕ
max_buffered = bytes_per_window * 8

-- The arguments of `push_recording`.
pub record Pushed : Type 0 where
  pub samples : List ℤ
  pub channels : ℕ
  pub samples_per_sec : ℕ
  pub total_delay_ms : ℕ

-- What a round does to WebRTC and how long it sleeps.
pub record Emitted : Type 0 where
  pub pulled : Bool
  pub pushed : Option Pushed
  pub slept : ℕ

unfoldable pub push_of : List ℤ → Pushed
push_of samples = record {
  samples = samples;
  channels = num_channels;
  samples_per_sec = sample_frequency;
  total_delay_ms = pipe_playout_delay_ms;
}

module _ (net : Socket) where
  -- The local variables of `clock_loop`.
  pub record Clock : Type 0 where
    pub stream : Option net.Peer
    pub playout_buf : List ℕ
    pub capture_buf : List ℕ
    pub next_tick : ℕ

  -- What a round finds: what the other side of the socket has done since the last round, the answer
  -- of `accept`, the flags as loaded, the samples of `pull_playout`, and the time.
  pub record Round : Type 0 where
    pub remote : net.Peer → net.Peer
    pub accepted : IoResult net.Peer
    pub playing : Bool
    pub play : List ℤ
    pub recording : Bool
    pub send_to_webrtc : Bool
    pub now : ℕ

module _ {net : Socket} where
  unfoldable pub start : ℕ → Clock net
  start now = record { stream = none; playout_buf = []; capture_buf = []; next_tick = now }

  -- A connected peer as the round finds it.
  unfoldable pub remote_phase : (net.Peer → net.Peer) → Clock net → Clock net
  remote_phase remote c = elim c.stream [
    | none ↦ c
    | some p ↦ record c { stream = some (remote p) }
  ]

  unfoldable pub attach : IoResult net.Peer → Clock net → Clock net
  attach (ok peer) c = record c { stream = some peer; playout_buf = []; capture_buf = [] }
  attach (err e) c = c

  unfoldable pub accept_phase : IoResult net.Peer → Clock net → Clock net
  unfolding attach
  accept_phase accepted c = elim c.stream [ none ↦ attach accepted c | some p ↦ c ]

  unfoldable pub playout_phase : Bool → List ℤ → Clock net → Clock net
  playout_phase false play c = c
  playout_phase true play c = elim c.stream [
    | none ↦ c
    | some p ↦ record c { playout_buf = cap_buffer (c.playout_buf ++ encode play) max_buffered }
  ]

  -- A write error drops the peer.
  unfoldable pub drained : Clock net → IoResult (Unit {0}) × net.Peer × List ℕ → Clock net
  drained c (ok _, p, left) = record c { stream = some p; playout_buf = left }
  drained c (err e, p, left) = record c { stream = none; playout_buf = left }

  unfoldable pub drain_phase : Clock net → Option (Clock net)
  unfolding drained
  drain_phase c = elim c.stream [
    | none ↦ some c
    | some p ↦
        if ltb 0 (length c.playout_buf)
        then (do out ← drain_playout net p c.playout_buf; some (drained c out))
        else some c
  ]

  -- A read error or the end of the stream drops the peer.
  unfoldable pub filled : Clock net → IoResult (Unit {0}) × net.Peer × List ℕ → Clock net
  filled c (ok _, p, left) = record c { stream = some p; capture_buf = left }
  filled c (err e, p, left) = record c { stream = none; capture_buf = left }

  unfoldable pub capture_phase : ℕ → Clock net → Option (Clock net)
  unfolding filled
  capture_phase fuel c = elim c.stream [
    | none ↦ some c
    | some p ↦ do out ← fill_capture net fuel p c.capture_buf max_buffered; some (filled c out)
  ]

  unfoldable pub record_phase : Bool → Clock net → Option (Clock net × Option Pushed)
  unfolding push_of
  record_phase false c = some (c, none)
  record_phase true c = do
    (samples, rest) ← take_window c.capture_buf
    some (record c { capture_buf = rest }, some (push_of samples))

  -- The sleep at the end of a round, and the next tick.
  unfoldable pub pace : ℕ → Clock net → Clock net × ℕ
  pace now c =
      if ltb now c.next_tick then (c, c.next_tick - now) else (record c { next_tick = now }, 0)

  unfoldable pub tick : ℕ → Round net → Clock net → Option (Clock net × Emitted)
  tick fuel r c = do
    let c1 = remote_phase r.remote (record c { next_tick = c.next_tick + tick_ns })
    let c2 = playout_phase r.playing r.play (accept_phase r.accepted c1)
    c3 ← drain_phase c2
    c4 ← capture_phase fuel c3
    (c5, pushed) ← record_phase (r.recording && r.send_to_webrtc) c4
    let (c6, slept) = pace r.now c5
    some (c6, record { pulled = r.playing; pushed = pushed; slept = slept })

  -- The `while` loop over the rounds that happen, each with the flag `terminate` as loaded before it.
  unfoldable pub clock_loop :
      ℕ → List (Bool × Round net) → Clock net → Option (List Emitted × Clock net)
  clock_loop fuel [] c = some ([], c)
  clock_loop fuel ((true, r) ∷ rounds) c = some ([], c)
  clock_loop fuel ((false, r) ∷ rounds) c = do
    (c', e) ← tick fuel r c
    (es, c'') ← clock_loop fuel rounds c'
    some (e ∷ es, c'')
