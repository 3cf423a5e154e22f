-- ===== src/Pipe/Run/Rounds.antt =====
-- `run` of pipe_audio.rs beside the rounds of the clock loop.
use signal_call_tunnel.Base.{
  ℕ, ◌≡◌, append-nil, append_assoc, ◌∙◌, if◌then◌else◌, refl, sym, subst, ap, false, ◌&&◌, List, [],
  ◌∷◌, ◌++◌, some, arith, length,
}
use signal_call_tunnel.Pipe.Socket.{Socket, IsStream}
use signal_call_tunnel.Pipe.Clock.{Round, start, clock_loop}
use signal_call_tunnel.Pipe.Clock.Rounds.{IsRound}
use signal_call_tunnel.Pipe.Flags.{Event}
use signal_call_tunnel.Pipe.Run.{
  Pc, at_terminate, finished, at_playing, at_recording, at_send, Run, launch, control_turn,
  load_turn, loop_turn, Turn, control, loop, turn, run,
}
use signal_call_tunnel.Pipe.Run.Refines.{
  Stands, none_yet, IsCurrent, Refines, Load, terminate, playing, recording, send_to_webrtc, look,
  look_of, watched, loads_of_all, loads_begun,
}
use signal_call_tunnel.Pipe.Run.Steps.{
  control_next-Refines, end_round-Goes, after_terminate-Goes, after_playing-Goes,
  after_recording-Goes, later_load, Goes,
}

module _ (net : Socket) (laws : IsStream net) (fuel : ℕ) (env : ℕ → Round net)
    (rounds_fit : (n : ℕ) → IsRound net laws fuel (env n)) (now : ℕ) where
  load-Goes :
      (looks : List Load) (pc : Pc net) (s : Run net) (f : Refines net fuel env now looks s)
      → looks ≡ loads_of_all f.rounds ++ loads_begun pc
      → IsCurrent net fuel env pc (length f.rounds)
      → Stands net fuel pc f.begun s.clock
      → Goes net laws fuel env rounds_fit now (looks ++ look pc s.flags) (load_turn fuel env pc s)
  unfolding load_turn
  load-Goes looks finished s f seen current stands =
      (s, refl, subst (λ l. Refines net fuel env now l s) (sym (append-nil looks)) f)
  load-Goes looks at_terminate s f seen current stands =
      after_terminate-Goes net laws fuel env rounds_fit now looks s.flags.terminate s f
        (seen ∙ append-nil (loads_of_all f.rounds)) stands
  load-Goes looks (at_playing r) s f seen current stands =
      after_playing-Goes net laws fuel env rounds_fit now looks s.flags.playing r s f seen current
        stands
  load-Goes looks (at_recording r) s f seen current stands =
      after_recording-Goes net laws fuel env rounds_fit now looks s.flags.recording r s f seen
        current stands
  load-Goes looks (at_send r) s f seen current stands =
      end_round-Goes net laws fuel env rounds_fit now _ s.flags.send_to_webrtc
        (record r { send_to_webrtc = s.flags.send_to_webrtc }) s looks f
        (later_load net laws fuel env rounds_fit now f.rounds _
            (send_to_webrtc s.flags.send_to_webrtc) seen
          ∙ ap
              (λ b.
                loads_of_all f.rounds
                ++ (terminate false
                    ∷ playing r.playing
                    ∷ recording b
                    ∷ (if b then send_to_webrtc s.flags.send_to_webrtc ∷ [] else [])))
              (sym stands.1))
        stands.0 (ap (λ b. b && s.flags.send_to_webrtc) stands.1) current

  turn-Goes :
      (looks : List Load) (t : Turn) (s : Run net)
      → Refines net fuel env now looks s
      → Goes net laws fuel env rounds_fit now (looks ++ look_of t s) (turn fuel env t s)
  unfolding turn control_turn loop_turn
  turn-Goes looks control s f = (
    control_turn s,
    refl,
    subst (λ l. Refines net fuel env now l (control_turn s)) (sym (append-nil looks))
        (control_next-Refines net laws fuel env rounds_fit now looks s.todo s f),
  )
  turn-Goes looks loop s f = load-Goes looks s.pc s f f.loaded f.current f.stands

  run-Goes :
      (looks : List Load) (turns : List Turn) (s : Run net)
      → Refines net fuel env now looks s
      → Goes net laws fuel env rounds_fit now
          (looks ++ watched fuel env turns s)
          (run fuel env turns s)
  unfolding run
  run-Goes looks [] s f =
      (s, refl, subst (λ l. Refines net fuel env now l s) (sym (append-nil looks)) f)
  run-Goes looks (t ∷ turns) s f =
      let (u, e, g) = turn-Goes looks t s f in
      let (v, d, h) = run-Goes (looks ++ look_of t s) turns u g in
      rw e (
        v,
        d,
        subst (λ l. Refines net fuel env now l v)
            (append_assoc looks (look_of t s) (watched fuel env turns u)) h,
      )

  launch-Refines : (events : List Event) → Refines net fuel env now [] (launch events now)
  unfolding launch start clock_loop
  launch-Refines events = record {
    rounds = [];
    begun = start now;
    looped = refl;
    count = refl;
    all_drawn = none_yet;
    loaded = refl;
    current = tt;
    stands = refl;
    sound = record {
      playout_bound = omega arith;
      capture_bound = omega arith;
      aligned = tt;
      ready = tt;
    };
  }

  -- Over a socket that keeps to its documentation, with more fuel than bytes ever wait in it, whatever
  -- the events are and in whatever order the threads of `run` move: the moves are made, and lead to
  -- where the clock loop stands after some whole rounds and a part of the next. These rounds find what
  -- is outside in their turn, and their flags are those that the states of the run had when the loop
  -- came to look at them: `terminate` unset, `playing`, `recording`, and `send_to_webrtc` while
  -- recording, in this order, for each round, then those of the next round as far as it has come, where
  -- the loop has left exactly if it found `terminate` set. What was pulled, pushed and slept is what the
  -- clock loop does in these rounds, and the state is sound.
  pub run-Refines :
      (events : List Event) (turns : List Turn)
      → (s : Run net) × (run fuel env turns (launch events now) ≡ some s)
        × Refines net fuel env now (watched fuel env turns (launch events now)) s
  run-Refines events turns = run-Goes [] turns (launch events now) (launch-Refines events)
