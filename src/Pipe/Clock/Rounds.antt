-- ===== src/Pipe/Clock/Rounds.antt =====
-- A round of `clock_loop` in pipe_audio.rs, and the whole loop.
use signal_call_tunnel.Base.{
  ℕ, ◌+◌, ◌-◌, ◌*◌, ◌≤◌, ◌≡◌, refl, ap, ◌∙◌, Bool, true, false, ◌&&◌, List, [], ◌∷◌, Option, none,
  some, length, arith,
}
use signal_call_tunnel.Pipe.Pcm.{webrtc_window}
use signal_call_tunnel.Pipe.Buffer.Window.{length-window_of}
use signal_call_tunnel.Pipe.Socket.{Socket, IsStream}
use signal_call_tunnel.Pipe.Clock.{
  Clock, Round, Emitted, Pushed, push_of, tick_ns, remote_phase, accept_phase, playout_phase,
  drain_phase, capture_phase, pace, tick, clock_loop,
}
use signal_call_tunnel.Pipe.Clock.Phases.{
  IsSound, IsFresh, IsRemote, remote_phase-IsSound, accept_phase-IsSound, playout_phase-IsSound,
  drain_phase-IsSound, capture_phase-IsSound, record_phase_lem, taken, taken-IsSound, window_pushed,
  pace-IsSound, next_tick-early, next_tick-taken,
}

-- One window of full length if it is due, and nothing otherwise.
abbrev pub IsDelivered : Bool → Option Pushed → Type 0
IsDelivered true (some w) = length w.samples ≡ webrtc_window
IsDelivered false none = Unit
IsDelivered _ _ = ⊥

window_pushed-IsDelivered : (go : Bool) (buf : List ℕ) → IsDelivered go (window_pushed go buf)
unfolding push_of
window_pushed-IsDelivered false buf = tt
window_pushed-IsDelivered true buf = length-window_of buf

module _ (net : Socket) (laws : IsStream net) (fuel : ℕ) where
  abbrev pub IsRound : Round net → Type 0
  IsRound r = IsRemote net fuel r.remote × IsFresh net fuel r.accepted

  -- The round ends, in a sound state; a window is delivered exactly if recording is on and wanted,
  -- and the next tick is one period on, or now if that is later.
  pub record Ticked (r : Round net) (c : Clock net) (out : Option (Clock net × Emitted))
      : Type 0 where
    pub clock : Clock net
    pub emitted : Emitted
    pub returned : out ≡ some (clock, emitted)
    pub sound : IsSound net fuel clock
    pub pulled : emitted.pulled ≡ r.playing
    pub delivered : IsDelivered (r.recording && r.send_to_webrtc) emitted.pushed
    pub period : c.next_tick + tick_ns ≤ clock.next_tick
    pub slept : clock.next_tick ≤ r.now + emitted.slept
    pub short : emitted.slept ≡ c.next_tick + tick_ns - r.now

  abbrev due : Round net → Bool
  due r = r.recording && r.send_to_webrtc

  -- The state after the phases that only touch the buffers.
  abbrev queued : Round net → Clock net → Clock net
  queued r c = playout_phase r.playing r.play (
      accept_phase r.accepted
        (remote_phase r.remote (record c { next_tick = c.next_tick + tick_ns })))

  queued-IsSound :
      (r : Round net) (c : Clock net)
      → IsRound r
      → IsSound net fuel c
      → IsSound net fuel (queued r c)
  queued-IsSound r c h s = playout_phase-IsSound net fuel r.playing r.play _ (
      accept_phase-IsSound net fuel r.accepted _ h.1 (
        remote_phase-IsSound net fuel r.remote _ h.0 (record {
          playout_bound = s.playout_bound;
          capture_bound = s.capture_bound;
          aligned = s.aligned;
          ready = s.ready;
        })))

  pace_lem :
      (now : ℕ) (c : Clock net)
      → (c.next_tick ≤ (pace now c).0.next_tick)
        × ((pace now c).0.next_tick ≤ now + (pace now c).1)
        × ((pace now c).1 ≡ c.next_tick - now)
  unfolding pace
  pace_lem now c = ground arith

  tick-Ticked_from :
      (r : Round net) (c c3 c4 : Clock net)
      → drain_phase (queued r c) ≡ some c3
      → capture_phase fuel c3 ≡ some c4
      → IsSound net fuel c4
      → c4.next_tick ≡ c.next_tick + tick_ns
      → Ticked r c (tick fuel r c)
  unfolding tick
  tick-Ticked_from r c c3 c4 e3 e4 s4 n =
      let c5 : Clock net = taken net fuel (due r) c4 in
      let n5 : c5.next_tick ≡ c.next_tick + tick_ns = next_tick-taken net fuel (due r) c4 ∙ n in
      let (p, q, w) = pace_lem r.now c5 in
      record {
        clock = (pace r.now c5).0;
        emitted = record {
          pulled = r.playing;
          pushed = window_pushed (due r) c4.capture_buf;
          slept = (pace r.now c5).1;
        };
        returned = rw (e3, e4, record_phase_lem net fuel (due r) c4);
        sound = pace-IsSound net fuel r.now c5 (taken-IsSound net fuel (due r) c4 s4);
        pulled = refl;
        delivered = window_pushed-IsDelivered (due r) c4.capture_buf;
        period = omega (arith, p, n5);
        slept = q;
        short = w ∙ ap (λ k. k - r.now) n5;
      }

  -- Over a socket that keeps to its documentation, with more fuel than bytes ever wait in it, a
  -- round ends from a sound state in a sound state: it pulls and delivers what the flags say, its
  -- tick is at least one period on, it sleeps up to the tick of the round, and the new tick is not
  -- later than the time at which it wakes.
  pub tick-Ticked :
      (r : Round net) (c : Clock net) → IsRound r → IsSound net fuel c → Ticked r c (tick fuel r c)
  tick-Ticked r c h s =
      let (c3, e3, s3, n3) =
        drain_phase-IsSound net fuel laws (queued r c) (queued-IsSound r c h s) in
      let (c4, e4, s4, n4) = capture_phase-IsSound net fuel laws c3 s3 in
      tick-Ticked_from r c c3 c4 e3 e4 s4
        (n4 ∙ n3 ∙ next_tick-early net fuel r.remote r.accepted r.playing r.play _)

  abbrev pub AllRounds : List (Bool × Round net) → Type 0
  AllRounds [] = Unit
  AllRounds ((b, r) ∷ rounds) = IsRound r × AllRounds rounds

  -- The rounds before the one that finds `terminate` set.
  abbrev pub rounds_run : List (Bool × Round net) → List (Round net)
  rounds_run [] = []
  rounds_run ((true, r) ∷ rounds) = []
  rounds_run ((false, r) ∷ rounds) = r ∷ rounds_run rounds

  -- Round by round, what was emitted is what was due.
  abbrev pub AllDelivered : List (Round net) → List Emitted → Type 0
  AllDelivered [] [] = Unit
  AllDelivered (r ∷ rs) (e ∷ es) =
      (e.pulled ≡ r.playing)
      × IsDelivered (r.recording && r.send_to_webrtc) e.pushed
      × AllDelivered rs es
  AllDelivered _ _ = ⊥

  pub record Looped (rounds : List (Bool × Round net)) (c : Clock net)
      (out : Option (List Emitted × Clock net)) : Type 0 where
    pub emitted : List Emitted
    pub clock : Clock net
    pub returned : out ≡ some (emitted, clock)
    pub sound : IsSound net fuel clock
    pub delivered : AllDelivered (rounds_run rounds) emitted
    pub paced : c.next_tick + length emitted * tick_ns ≤ clock.next_tick

  -- Over a socket that keeps to its documentation, with more fuel than bytes ever wait in it, the
  -- loop returns from a sound state: it makes exactly the rounds before `terminate` is seen, pulls
  -- in each exactly if playing, hands WebRTC a window of full length exactly if recording is on and
  -- wanted and nothing otherwise, and ends in a sound state; its clock advances by a period a round
  -- at least.
  pub clock_loop-Looped :
      (rounds : List (Bool × Round net)) (c : Clock net)
      → AllRounds rounds
      → IsSound net fuel c
      → Looped rounds c (clock_loop fuel rounds c)
  unfolding clock_loop
  clock_loop-Looped [] c h s = record {
    emitted = [];
    clock = c;
    returned = refl;
    sound = s;
    delivered = tt;
    paced = omega arith;
  }
  clock_loop-Looped ((true, r) ∷ rounds) c h s = record {
    emitted = [];
    clock = c;
    returned = refl;
    sound = s;
    delivered = tt;
    paced = omega arith;
  }
  clock_loop-Looped ((false, r) ∷ rounds) c h s =
      let t = tick-Ticked r c h.0 s in
      let l = clock_loop-Looped rounds t.clock h.1 t.sound in
      record {
        emitted = t.emitted ∷ l.emitted;
        clock = l.clock;
        returned = rw (t.returned, l.returned);
        sound = l.sound;
        delivered = (t.pulled, t.delivered, l.delivered);
        paced = omega (arith, t.period, l.paced);
      }
