-- ===== src/Pipe/Run/Tests.antt =====
-- `run` of pipe_audio.rs at concrete events.
use signal_call_tunnel.Base.{ℕ, ◌≡◌, refl, false, List, [], ◌∷◌, ◌++◌, some, pos, arith}
use signal_call_tunnel.Pipe.Socket.{ok}
use signal_call_tunnel.Pipe.Socket.Memory.{memory, memory-IsStream}
use signal_call_tunnel.Pipe.Clock.{Round}
use signal_call_tunnel.Pipe.Clock.Rounds.{IsRound}
use signal_call_tunnel.Pipe.Flags.{Event, start_playout, start_recording, control_thread}
use signal_call_tunnel.Pipe.Run.{Run, launch, control, loop, Turn, run}
use signal_call_tunnel.Pipe.Run.Refines.{Refines, watched}
use signal_call_tunnel.Pipe.Run.Rounds.{run-Refines}
use signal_call_tunnel.Pipe.Run.Finish.{Returned, run-Returned}
use signal_call_tunnel.Pipe.Run.Muted.{NonePushed, run-NonePushed}

abbrev round : ℕ → Round memory
round n = record {
  remote = λ p. record p { inbox = 1 ∷ 2 ∷ [] };
  accepted = ok (record { room = 9; inbox = []; closed = false; sent = []; received = [] });
  playing = false;
  play = pos 258 ∷ [];
  recording = false;
  send_to_webrtc = false;
  now = 4000000;
}

round-IsRound : (n : ℕ) → IsRound memory memory-IsStream 5 (round n)
round-IsRound n = (λ p. (refl, refl, omega arith), (refl, refl, omega arith))

abbrev events : List Event
events = start_playout ∷ start_recording false ∷ Event.terminate ∷ []

abbrev turns : List Turn
turns = loop ∷ control ∷ control ∷ loop ∷ control ∷ loop ∷ control ∷ []

run-Refines_example :
    (s : Run memory) × (run 5 round turns (launch events 0) ≡ some s)
    × Refines memory 5 round 0 (watched 5 round turns (launch events 0)) s
run-Refines_example = run-Refines memory memory-IsStream 5 round round-IsRound 0 events turns

run-Returned_example :
    (s : Run memory) × (run 5 round (turns ++ loop ∷ loop ∷ loop ∷ loop ∷ []) (launch events 0)
      ≡ some s)
    × Returned memory memory-IsStream 5 round round-IsRound 0 events s
unfolding control_thread
run-Returned_example =
    run-Returned memory memory-IsStream 5 round round-IsRound 0 events turns
      (loop ∷ loop ∷ loop ∷ loop ∷ []) (omega arith) (omega arith)

run-NonePushed_example :
    (s : Run memory) × (run 5 round turns (launch events 0) ≡ some s) × NonePushed s.emitted
run-NonePushed_example =
    run-NonePushed memory memory-IsStream 5 round round-IsRound 0 events turns (refl, tt)
