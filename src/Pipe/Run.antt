-- ===== src/Pipe/Run.antt =====
-- `PipeAudioDevice::run` of pipe_audio.rs: the control thread and the clock loop side by side, the loop
-- as far as one atomic load at a time.
pub mod Refines
pub mod Steps
pub mod Rounds
pub mod Finish
pub mod Muted
mod Tests
use signal_call_tunnel.Base.{
  if◌then◌else◌, ℕ, ◌+◌, Bool, true, false, List, [], ◌∷◌, ◌++◌, Option, some, ◌>>=◌, length,
}
use signal_call_tunnel.Pipe.Socket.{Socket}
use signal_call_tunnel.Pipe.Clock.{
  Clock, Round, Emitted, tick_ns, start, remote_phase, accept_phase, playout_phase, drain_phase,
  capture_phase, record_phase, pace,
}
use signal_call_tunnel.Pipe.Flags.{Event, Flags, Store, control_thread, apply_store, initial}

module _ (net : Socket) where
  -- The load that the loop makes next, with the round that it is in; the flags of that round which
  -- have been loaded are in the round.
  pub data Pc : Type 0 where
    at_terminate finished : Pc
    at_playing at_recording at_send : Round net → Pc

  -- `todo` are the stores that the control thread has still to make.
  pub record Run : Type 0 where
    pub flags : Flags
    pub todo : List Store
    pub pc : Pc
    pub clock : Clock net
    pub emitted : List Emitted

module _ {net : Socket} where
  unfoldable pub launch : List Event → ℕ → Run net
  unfolding control_thread initial start
  launch events now = record {
    flags = initial;
    todo = control_thread events;
    pc = at_terminate;
    clock = start now;
    emitted = [];
  }

  -- The control thread makes its next store, if there is one left.
  unfoldable pub control_next : List Store → Run net → Run net
  unfolding apply_store
  control_next [] s = s
  control_next (store ∷ rest) s = record s { flags = apply_store store s.flags; todo = rest }

  unfoldable pub control_turn : Run net → Run net
  unfolding control_next
  control_turn s = control_next s.todo s

  -- What follows the last load of a round: the window if it is due, and the pace.
  unfoldable pub end_round : Bool → Round net → Run net → Option (Run net)
  end_round due r s = do
    (c, pushed) ← record_phase due s.clock
    let (c', slept) = pace r.now c
    some (record s {
      pc = at_terminate;
      clock = c';
      emitted = s.emitted ++ record { pulled = r.playing; pushed = pushed; slept = slept } ∷ [];
    })

  -- What the loop does by the flag `terminate`: leave, or begin a round.
  unfoldable pub after_terminate : Bool → Round net → Run net → Option (Run net)
  after_terminate true r s = some (record s { pc = finished })
  after_terminate false r s =
      let c = remote_phase r.remote (record s.clock { next_tick = s.clock.next_tick + tick_ns }) in
      some (record s { pc = at_playing r; clock = accept_phase r.accepted c })

  -- By the flag `playing`: both ways of the socket, up to the next load.
  unfoldable pub after_playing : Bool → ℕ → Round net → Run net → Option (Run net)
  after_playing playing fuel r s = do
    c ← drain_phase (playout_phase playing r.play s.clock)
    c' ← capture_phase fuel c
    some (record s { pc = at_recording (record r { playing = playing }); clock = c' })

  -- By the flag `recording`; `send_to_webrtc` is loaded only if it is set.
  unfoldable pub after_recording : Bool → Round net → Run net → Option (Run net)
  unfolding end_round
  after_recording true r s = some (record s { pc = at_send (record r { recording = true }) })
  after_recording false r s = end_round false (record r { recording = false }) s

  -- `env n` is what round number `n` finds outside the program; its flags are not used. Each clause
  -- goes from one load to the next.
  unfoldable pub load_turn : ℕ → (ℕ → Round net) → Pc net → Run net → Option (Run net)
  unfolding end_round after_terminate after_playing after_recording
  load_turn fuel env at_terminate s = after_terminate s.flags.terminate (env (length s.emitted)) s
  load_turn fuel env (at_playing r) s = after_playing s.flags.playing fuel r s
  load_turn fuel env (at_recording r) s = after_recording s.flags.recording r s
  load_turn fuel env (at_send r) s =
      end_round s.flags.send_to_webrtc (record r { send_to_webrtc = s.flags.send_to_webrtc }) s
  load_turn fuel env finished s = some s

  unfoldable pub loop_turn : ℕ → (ℕ → Round net) → Run net → Option (Run net)
  unfolding load_turn
  loop_turn fuel env s = load_turn fuel env s.pc s

-- Which thread moves.
pub data Turn : Type 0 where
  control loop : Turn

module _ {net : Socket} where
  unfoldable pub turn : ℕ → (ℕ → Round net) → Turn → Run net → Option (Run net)
  unfolding control_turn loop_turn
  turn fuel env control s = some (control_turn s)
  turn fuel env loop s = loop_turn fuel env s

  -- A run, by the order in which the threads move.
  unfoldable pub run : ℕ → (ℕ → Round net) → List Turn → Run net → Option (Run net)
  unfolding turn
  run fuel env [] s = some s
  run fuel env (t ∷ turns) s = do s' ← turn fuel env t s; run fuel env turns s'
