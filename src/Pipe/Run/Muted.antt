-- ===== src/Pipe/Run/Muted.antt =====
-- `run` of pipe_audio.rs as a run of the system of flags.
use signal_call_tunnel.Base.{
  ℕ, ◌+◌, ◌≡◌, refl, sym, subst, ap, Bool, true, false, List, [], ◌∷◌, ◌++◌, Option, none, some,
  arith, unwrap_or,
}
use signal_call_tunnel.Pipe.Socket.{Socket, IsStream}
use signal_call_tunnel.Pipe.Clock.{Round, Emitted, Pushed, pace}
use signal_call_tunnel.Pipe.Clock.Phases.{window_pushed, taken, record_phase_lem}
use signal_call_tunnel.Pipe.Flags as Loads
use signal_call_tunnel.Pipe.Flags.{
  Event, Flags, Store, control_thread, apply_store, initial, System, Reach, here, next,
}
use signal_call_tunnel.Pipe.Flags.Race.{AllMuted, Reach-no_push}
use signal_call_tunnel.Pipe.Run.{
  Pc, at_terminate, finished, at_playing, at_recording, at_send, Run, launch, control_next,
  control_turn, after_terminate, after_playing, after_recording, end_round, load_turn, loop_turn,
  Turn, control, loop, turn, run,
}
use signal_call_tunnel.Pipe.Run.Refines.{unbind}
use signal_call_tunnel.Pipe.Run.Rounds.{run-Refines}
use signal_call_tunnel.Pipe.Clock.Rounds.{IsRound}

abbrev count_if : Bool → ℕ
count_if true = 1
count_if false = 0

abbrev count_some : Option Pushed → ℕ
count_some none = 0
count_some (some w) = 1

abbrev pulls_in : List Emitted → ℕ
pulls_in [] = 0
pulls_in (e ∷ es) = count_if e.pulled + pulls_in es

abbrev pushes_in : List Emitted → ℕ
pushes_in [] = 0
pushes_in (e ∷ es) = count_some e.pushed + pushes_in es

pulls_in-snoc :
    (es : List Emitted) (e : Emitted) → pulls_in (es ++ e ∷ []) ≡ pulls_in es + count_if e.pulled
pulls_in-snoc [] e = omega arith
pulls_in-snoc (d ∷ es) e = omega (arith, pulls_in-snoc es e)

pushes_in-snoc :
    (es : List Emitted) (e : Emitted)
    → pushes_in (es ++ e ∷ []) ≡ pushes_in es + count_some e.pushed
pushes_in-snoc [] e = omega arith
pushes_in-snoc (d ∷ es) e = omega (arith, pushes_in-snoc es e)

module _ {net : Socket} where
  abbrev pc_of : Pc net → Loads.Pc
  pc_of at_terminate = Loads.at_terminate
  pc_of finished = Loads.finished
  pc_of (at_playing r) = Loads.at_playing
  pc_of (at_recording r) = Loads.at_recording
  pc_of (at_send r) = Loads.at_send

  -- The pull of the round that the loop is in.
  abbrev pulled_now : Pc net → ℕ
  pulled_now (at_recording r) = count_if r.playing
  pulled_now (at_send r) = count_if r.playing
  pulled_now _ = 0

  abbrev system_of : Run net → System
  system_of s = record {
    flags = s.flags;
    todo = s.todo;
    pc = pc_of s.pc;
    pulls = pulls_in s.emitted + pulled_now s.pc;
    pushes = pushes_in s.emitted;
  }

  -- The end of a round counts its pull, and a push if a window was due.
  end_round-counts :
      (fuel : ℕ) (due : Bool) (r : Round net) (s s' : Run net)
      → end_round due r s ≡ some s'
      → (s'.flags ≡ s.flags)
        × (s'.todo ≡ s.todo)
        × (s'.pc ≡ at_terminate)
        × (pulls_in s'.emitted ≡ pulls_in s.emitted + count_if r.playing)
        × (pushes_in s'.emitted ≡ pushes_in s.emitted + count_if due)
  unfolding end_round
  end_round-counts fuel due r s s' h =
      let e : Emitted = record {
        pulled = r.playing;
        pushed = window_pushed due s.clock.capture_buf;
        slept = (pace r.now (taken net fuel due s.clock)).1;
      } in
      ground (
        arith,
        record_phase_lem net fuel due s.clock,
        pulls_in-snoc s.emitted e,
        pushes_in-snoc s.emitted e,
      )

  load-system_of :
      (fuel : ℕ) (env : ℕ → Round net) (pc : Pc net) (s s' : Run net)
      → load_turn fuel env pc s ≡ some s'
      → s.pc ≡ pc
      → system_of s' ≡ Loads.load (system_of s)
  unfolding load_turn after_terminate after_playing after_recording Loads.load
  load-system_of fuel env finished s s' h e = ground arith
  load-system_of fuel env at_terminate s s' h e = ground arith
  load-system_of fuel env (at_playing r) s s' h e = ground arith
  load-system_of fuel env (at_recording r) s s' h e =
      ground (arith, end_round-counts fuel false (record r { recording = false }) s s')
  load-system_of fuel env (at_send r) s s' h e = ground (
    arith,
    end_round-counts fuel s.flags.send_to_webrtc
        (record r { send_to_webrtc = s.flags.send_to_webrtc }) s s' h,
  )

  control_next-Reach :
      (stores : List Store) (s : Run net) {r : System}
      → s.todo ≡ stores
      → Reach r (system_of s)
      → Reach r (system_of (control_next stores s))
  unfolding control_next
  control_next-Reach [] s e h = h
  control_next-Reach (store ∷ rest) s e h = next h (Loads.control store rest e)

  -- Every run is an interleaving of the system of flags.
  run-Reach :
      (fuel : ℕ) (env : ℕ → Round net) (turns : List Turn) (s s' : Run net) {r : System}
      → run fuel env turns s ≡ some s'
      → Reach r (system_of s)
      → Reach r (system_of s')
  unfolding run turn control_turn loop_turn
  run-Reach fuel env [] s s' {r} h t =
      subst (λ (u : Run net). Reach r (system_of u)) (ap (λ o. unwrap_or o s') h) t
  run-Reach fuel env (control ∷ turns) s s' h t =
      run-Reach fuel env turns (control_turn s) s' h (control_next-Reach s.todo s refl t)
  run-Reach fuel env (loop ∷ turns) s s' {r} h t =
      let (u, e, k) = unbind (load_turn fuel env s.pc s) _ s' h in
      run-Reach fuel env turns u s' k
        (subst (Reach r) (sym (load-system_of fuel env s.pc s u e refl)) (next t Loads.loop))

-- Nothing was pushed.
abbrev pub NonePushed : List Emitted → Type 0
NonePushed [] = Unit
NonePushed (e ∷ es) = (e.pushed ≡ none) × NonePushed es

NonePushed-of_pushes_in : (es : List Emitted) → pushes_in es ≡ 0 → NonePushed es
NonePushed-of_pushes_in [] h = tt
NonePushed-of_pushes_in (e ∷ es) h = (ground arith, NonePushed-of_pushes_in es (omega arith))

module _ (net : Socket) (laws : IsStream net) (fuel : ℕ) (env : ℕ → Round net)
    (rounds_fit : (n : ℕ) → IsRound net laws fuel (env n)) (now : ℕ) where
  -- Over a socket that keeps to its documentation, with more fuel than bytes ever wait in it: if every
  -- recording is started with `send_to_webrtc` off, then in whatever order the threads of `run` move,
  -- the rounds that are made push nothing to WebRTC.
  pub run-NonePushed :
      (events : List Event) (turns : List Turn)
      → AllMuted events
      → (s : Run net) × (run fuel env turns (launch events now) ≡ some s) × NonePushed s.emitted
  unfolding launch Loads.launch
  run-NonePushed events turns h =
      let (s, e, _) = run-Refines net laws fuel env rounds_fit now events turns in
      (
        s,
        e,
        NonePushed-of_pushes_in s.emitted
            (Reach-no_push events h (run-Reach fuel env turns (launch events now) s e here)),
      )
