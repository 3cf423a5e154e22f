-- ===== src/Pipe/Run/Steps.antt =====
-- What each load of `run` in pipe_audio.rs does to the state of the clock loop that it stands for.
use signal_call_tunnel.Base.{
  ℕ, ◌+◌, ◌≡◌, append-nil, append_assoc, ◌∙◌, refl, sym, subst, ap, Bool, true, false, ◌&&◌, List,
  [], ◌∷◌, ◌++◌, Option, some, ◌>>=◌, arith, length, length-append,
}
use signal_call_tunnel.Pipe.Socket.{Socket, IsStream}
use signal_call_tunnel.Pipe.Clock.{
  Clock, Round, Emitted, tick_ns, start, playout_phase, drain_phase, capture_phase, pace,
}
use signal_call_tunnel.Pipe.Clock.Phases.{
  IsSound, IsRemote, IsFresh, remote_phase-IsSound, accept_phase-IsSound, playout_phase-IsSound,
  drain_phase-IsSound, capture_phase-IsSound, pace-IsSound, taken, taken-IsSound, record_phase_lem,
  window_pushed,
}
use signal_call_tunnel.Pipe.Clock.Rounds.{IsRound}
use signal_call_tunnel.Pipe.Flags.{Store}
use signal_call_tunnel.Pipe.Run.{
  Pc, at_terminate, finished, at_playing, at_recording, at_send, Run, control_next, after_terminate,
  after_playing, after_recording, end_round,
}
use signal_call_tunnel.Pipe.Run.Refines.{
  clock_loop-snoc, IsDrawn, early, carried, tick-due, Stands, drawn, IsCurrent, Refines, Load,
  terminate, playing, recording, loads_of, loads_of_all, loads_begun, loads_of_all-snoc,
}

module _ (net : Socket) (laws : IsStream net) (fuel : ℕ) (env : ℕ → Round net)
    (rounds_fit : (n : ℕ) → IsRound net laws fuel (env n)) (now : ℕ) where
  -- A step returns, in a state of the clock loop again.
  abbrev pub Goes : List Load → Option (Run net) → Type 0
  Goes looks o = (s : Run net) × (o ≡ some s) × Refines net fuel env now looks s

  IsDrawn-IsRound : (n : ℕ) (r : Round net) → IsDrawn net fuel (env n) r → IsRound net laws fuel r
  IsDrawn-IsRound n r d = (
    subst (IsRemote net fuel) (sym d.0) (rounds_fit n).0,
    subst (IsFresh net fuel) (sym d.1) (rounds_fit n).1,
  )

  pub control_next-Refines :
      (looks : List Load) (stores : List Store) (s : Run net)
      → Refines net fuel env now looks s
      → Refines net fuel env now looks (control_next stores s)
  unfolding control_next
  control_next-Refines looks [] s f = f
  control_next-Refines looks (store ∷ rest) s f = record {
    rounds = f.rounds;
    begun = f.begun;
    looped = f.looped;
    count = f.count;
    all_drawn = f.all_drawn;
    loaded = f.loaded;
    current = f.current;
    stands = f.stands;
    sound = f.sound;
  }

  pub end_round-Goes :
      (looks : List Load) (due : Bool) (r : Round net) (s : Run net) (old : List Load)
      (f : Refines net fuel env now old s)
      → looks ≡ loads_of_all f.rounds ++ loads_of r
      → carried net fuel r f.begun ≡ some s.clock
      → (r.recording && r.send_to_webrtc) ≡ due
      → IsDrawn net fuel (env (length f.rounds)) r
      → Goes looks (end_round due r s)
  unfolding end_round
  end_round-Goes looks due r s old f seen h d drawn_r =
      let c : Clock net = taken net fuel due s.clock in
      let e : Emitted = record {
        pulled = r.playing;
        pushed = window_pushed due s.clock.capture_buf;
        slept = (pace r.now c).1;
      } in
      (
        record s { pc = at_terminate; clock = (pace r.now c).0; emitted = s.emitted ++ e ∷ [] },
        rw (record_phase_lem net fuel due s.clock) refl,
        record {
          rounds = f.rounds ++ r ∷ [];
          begun = (pace r.now c).0;
          looped =
              clock_loop-snoc net fuel f.rounds r (start now) f.begun (pace r.now c).0 e s.emitted
                f.looped (tick-due net fuel due r f.begun s.clock h d);
          count = omega (
            arith,
            f.count,
            length-append {0} s.emitted (e ∷ []),
            length-append {0} f.rounds (r ∷ []),
          );
          all_drawn = drawn r f.all_drawn drawn_r;
          loaded =
              seen
              ∙ sym (loads_of_all-snoc f.rounds r)
              ∙ sym (append-nil (loads_of_all (f.rounds ++ r ∷ [])));
          current = tt;
          stands = refl;
          sound = pace-IsSound net fuel r.now c (taken-IsSound net fuel due s.clock f.sound);
        },
      )

  -- A move within a round.
  within :
      (looks old : List Load) (s : Run net) (f : Refines net fuel env now old s) (pc : Pc net)
      (k : Clock net)
      → looks ≡ loads_of_all f.rounds ++ loads_begun pc
      → IsCurrent net fuel env pc (length f.rounds)
      → Stands net fuel pc f.begun k
      → IsSound net fuel k
      → Refines net fuel env now looks (record s { pc = pc; clock = k })
  within looks old s f pc k seen current stands sound = record {
    rounds = f.rounds;
    begun = f.begun;
    looped = f.looped;
    count = f.count;
    all_drawn = f.all_drawn;
    loaded = seen;
    current = current;
    stands = stands;
    sound = sound;
  }

  pub after_terminate-Goes :
      (old : List Load) (stop : Bool) (s : Run net) (f : Refines net fuel env now old s)
      → old ≡ loads_of_all f.rounds
      → s.clock ≡ f.begun
      → Goes (old ++ terminate stop ∷ []) (after_terminate stop (env (length s.emitted)) s)
  unfolding after_terminate
  after_terminate-Goes old true s f seen stands = (
    record s { pc = finished },
    refl,
    within _ old s f finished s.clock (ap (λ l. l ++ terminate true ∷ []) seen) tt stands f.sound,
  )
  after_terminate-Goes old false s f seen stands =
      let r : Round net = env (length s.emitted) in
      let ticked : IsSound net fuel (record s.clock { next_tick = s.clock.next_tick + tick_ns }) =
        record {
          playout_bound = f.sound.playout_bound;
          capture_bound = f.sound.capture_bound;
          aligned = f.sound.aligned;
          ready = f.sound.ready;
        } in
      let fit = rounds_fit (length s.emitted) in
      (
        record s { pc = at_playing r; clock = early net fuel r s.clock },
        refl,
        within _ old s f (at_playing r) (early net fuel r s.clock)
            (ap (λ l. l ++ terminate false ∷ []) seen)
            (subst (λ n. IsDrawn net fuel (env n) r) f.count (refl, refl, refl, refl))
            (ap (early net fuel r) stands)
            (accept_phase-IsSound net fuel r.accepted _ fit.1
              (remote_phase-IsSound net fuel r.remote _ fit.0 ticked)),
      )

  pub after_playing-Goes :
      (old : List Load) (b : Bool) (r : Round net) (s : Run net)
      (f : Refines net fuel env now old s)
      → old ≡ loads_of_all f.rounds ++ terminate false ∷ []
      → IsDrawn net fuel (env (length f.rounds)) r
      → s.clock ≡ early net fuel r f.begun
      → Goes (old ++ playing b ∷ []) (after_playing b fuel r s)
  unfolding after_playing
  after_playing-Goes old b r s f seen current stands =
      let (c, e, sound_c, _) =
        drain_phase-IsSound net fuel laws (playout_phase b r.play s.clock)
          (playout_phase-IsSound net fuel b r.play s.clock f.sound) in
      let (k, e', sound_k, _) = capture_phase-IsSound net fuel laws c sound_c in
      let r' : Round net = record r { playing = b } in
      let same : carried net fuel r' f.begun ≡ some k =
        subst (λ d. (drain_phase (playout_phase b r.play d) >>= λ b. capture_phase fuel b) ≡ some k)
          stands (rw (e, e') refl) in
      (
        record s { pc = at_recording r'; clock = k },
        rw (e, e') refl,
        within _ old s f (at_recording r') k
            (ap (λ l. l ++ playing b ∷ []) seen
              ∙ append_assoc (loads_of_all f.rounds) (terminate false ∷ []) (playing b ∷ []))
            current same sound_k,
      )

  pub later_load :
      {old : List Load} (rs : List (Round net)) (begun : List Load) (l : Load)
      → old ≡ loads_of_all rs ++ begun
      → old ++ l ∷ [] ≡ loads_of_all rs ++ (begun ++ l ∷ [])
  later_load rs begun l e = ap (λ o. o ++ l ∷ []) e ∙ append_assoc (loads_of_all rs) begun (l ∷ [])

  pub after_recording-Goes :
      (old : List Load) (b : Bool) (r : Round net) (s : Run net)
      (f : Refines net fuel env now old s)
      → old ≡ loads_of_all f.rounds ++ (terminate false ∷ playing r.playing ∷ [])
      → IsDrawn net fuel (env (length f.rounds)) r
      → carried net fuel r f.begun ≡ some s.clock
      → Goes (old ++ recording b ∷ []) (after_recording b r s)
  unfolding after_recording
  after_recording-Goes old true r s f seen current stands = (
    record s { pc = at_send (record r { recording = true }) },
    refl,
    within _ old s f (at_send (record r { recording = true })) s.clock
        (later_load f.rounds _ (recording true) seen) current (stands, refl) f.sound,
  )
  after_recording-Goes old false r s f seen current stands =
      end_round-Goes _ false (record r { recording = false }) s old f
        (later_load f.rounds _ (recording false) seen) stands refl current
