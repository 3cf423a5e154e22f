-- ===== src/Pipe/Tests.antt =====
-- pipe_audio.rs at concrete inputs.
use signal_call_tunnel.Base.{
  ℕ, zero, suc, ◌≡◌, refl, Bool, true, false, List, [], ◌∷◌, ◌++◌, none, some, ℤ, pos, negsuc,
  arith, length, replicate, length-replicate,
}
use signal_call_tunnel.Pipe.Pcm.{webrtc_window, encode, decode, to_le_bytes, from_le_bytes}
use signal_call_tunnel.Pipe.Pcm.RoundTrip.{AllI16}
use signal_call_tunnel.Pipe.Buffer.{cap_buffer, take_window}
use signal_call_tunnel.Pipe.Buffer.Cap.{DropsPairs, cap_buffer-DropsPairs, length-cap_buffer}
use signal_call_tunnel.Pipe.Buffer.Window.{window_of, take_window_lem, take_window-encode}
use signal_call_tunnel.Pipe.Socket.{ok, drain_playout, fill_capture}
use signal_call_tunnel.Pipe.Socket.Drain.{Drained, drain_playout-Drained}
use signal_call_tunnel.Pipe.Socket.Fill.{Filled, fill_capture-Filled}
use signal_call_tunnel.Pipe.Socket.Memory.{MemoryPeer, memory, memory-IsStream}
use signal_call_tunnel.Pipe.Clock.{
  Clock, Emitted, push_of, Round, drain_phase, playout_phase, accept_phase, remote_phase,
  capture_phase, record_phase, pace, tick, clock_loop, start,
}
use signal_call_tunnel.Pipe.Clock.Phases.{IsSound}
use signal_call_tunnel.Pipe.Clock.Carried.{Carried, tick-Carried}
use signal_call_tunnel.Pipe.Clock.Hearing.{Heard, Talks-Heard}
use signal_call_tunnel.Pipe.Clock.Stream.{no_round, went_on, all_played, Spoken, Talks-Spoken}
use signal_call_tunnel.Pipe.Clock.Rounds.{IsRound, Looped, clock_loop-Looped}

samples_of_bytes :
    decode (0 ∷ 128 ∷ 255 ∷ 255 ∷ 1 ∷ 0 ∷ 7 ∷ []) ≡ negsuc 32767 ∷ negsuc 0 ∷ pos 1 ∷ []
unfolding decode from_le_bytes
samples_of_bytes = refl

abbrev play : List ℤ
play = pos 258 ∷ negsuc 0 ∷ negsuc 32767 ∷ []

bytes_of_samples : encode play ≡ 2 ∷ 1 ∷ 255 ∷ 255 ∷ 0 ∷ 128 ∷ []
unfolding encode to_le_bytes
bytes_of_samples = refl

cap_even : cap_buffer (1 ∷ 2 ∷ 3 ∷ 4 ∷ 5 ∷ 6 ∷ []) 4 ≡ 3 ∷ 4 ∷ 5 ∷ 6 ∷ []
unfolding cap_buffer
cap_even = refl

-- An odd excess leaves one byte more than the bound.
cap_odd : cap_buffer (1 ∷ 2 ∷ 3 ∷ 4 ∷ 5 ∷ []) 4 ≡ 1 ∷ 2 ∷ 3 ∷ 4 ∷ 5 ∷ []
unfolding cap_buffer
cap_odd = refl

cap_buffer-DropsPairs_example :
    DropsPairs (cap_buffer (1 ∷ 2 ∷ 3 ∷ 4 ∷ 5 ∷ []) 2) (1 ∷ 2 ∷ 3 ∷ 4 ∷ 5 ∷ [])
cap_buffer-DropsPairs_example = cap_buffer-DropsPairs (1 ∷ 2 ∷ 3 ∷ 4 ∷ 5 ∷ []) 2

length-cap_buffer_example : length (cap_buffer (1 ∷ 2 ∷ 3 ∷ 4 ∷ 5 ∷ []) 2) ≡ 3
length-cap_buffer_example = length-cap_buffer (1 ∷ 2 ∷ 3 ∷ 4 ∷ 5 ∷ []) 2

take_window_lem_example : take_window (2 ∷ 1 ∷ 9 ∷ []) ≡ some (window_of (2 ∷ 1 ∷ 9 ∷ []), 9 ∷ [])
take_window_lem_example = take_window_lem (2 ∷ 1 ∷ 9 ∷ [])

all_loud : (n : ℕ) → AllI16 (replicate n (negsuc 5))
unfolding replicate
all_loud zero = tt
all_loud (suc n) = (omega arith, all_loud n)

take_window-encode_example :
    take_window (encode (replicate webrtc_window (negsuc 5)) ++ 9 ∷ [])
    ≡ some (replicate webrtc_window (negsuc 5), 9 ∷ [])
take_window-encode_example =
    take_window-encode (replicate webrtc_window (negsuc 5)) (9 ∷ []) (all_loud webrtc_window)
      (length-replicate webrtc_window (negsuc 5))

-- A peer that takes three bytes more, and has sent four.
abbrev peer : MemoryPeer
peer = record { room = 3; inbox = 1 ∷ 2 ∷ 3 ∷ 4 ∷ []; closed = true; sent = []; received = [] }

drained_in_part :
    drain_playout memory peer (5 ∷ 6 ∷ 7 ∷ 8 ∷ [])
    ≡ some (ok tt, record peer { room = 0; sent = 5 ∷ 6 ∷ 7 ∷ [] }, 8 ∷ [])
unfolding drain_playout
drained_in_part = refl

drain_playout-Drained_example :
    Drained memory memory-IsStream peer
      (5 ∷ 6 ∷ 7 ∷ 8 ∷ [])
      (drain_playout memory peer (5 ∷ 6 ∷ 7 ∷ 8 ∷ []))
drain_playout-Drained_example =
    drain_playout-Drained memory memory-IsStream peer (5 ∷ 6 ∷ 7 ∷ 8 ∷ [])

fill_capture-Filled_example :
    Filled memory memory-IsStream 4 peer (9 ∷ []) (fill_capture memory 5 peer (9 ∷ []) 4)
fill_capture-Filled_example =
    fill_capture-Filled memory memory-IsStream 4 5 peer (9 ∷ []) (omega arith) (omega arith)

abbrev round : Round memory
round = record {
  remote = λ p. record p { inbox = 1 ∷ 2 ∷ 3 ∷ [] };
  accepted = ok peer;
  playing = true;
  play = play;
  recording = true;
  send_to_webrtc = true;
  now = 4000000;
}

round-IsRound : IsRound memory memory-IsStream 5 round
round-IsRound = (λ p. (refl, refl, omega arith), (refl, refl, omega arith))

start-IsSound : (now : ℕ) → IsSound memory 5 (start now)
unfolding start
start-IsSound now = omega arith

abbrev schedule : List (Bool × Round memory)
schedule = (false, round) ∷ (false, record round { recording = false }) ∷ (true, round) ∷ []

clock_loop-Looped_example :
    Looped memory memory-IsStream 5 schedule (start 0) (clock_loop 5 schedule (start 0))
clock_loop-Looped_example =
    clock_loop-Looped memory memory-IsStream 5 schedule (start 0)
      (round-IsRound, (round-IsRound, (round-IsRound, tt))) (start-IsSound 0)

abbrev connected : Clock memory
connected = record {
  stream = some peer;
  playout_buf = 5 ∷ 6 ∷ [];
  capture_buf = 9 ∷ [];
  next_tick = 0;
}

tick-Carried_example :
    Carried memory memory-IsStream 5 round peer connected (tick 5 round connected)
tick-Carried_example =
    tick-Carried memory memory-IsStream 5 round connected peer (λ p. (refl, refl, omega arith)) refl
      (omega arith)

abbrev talking : Clock memory
talking = record connected {
  stream = some (record peer { room = 100; closed = false });
  capture_buf = [];
}

abbrev silent_round : Round memory
silent_round = record round { play = pos 258 ∷ []; recording = false }

abbrev told : MemoryPeer
told = record {
  room = 96;
  inbox = [];
  closed = false;
  sent = 5 ∷ 6 ∷ 2 ∷ 1 ∷ [];
  received = 1 ∷ 2 ∷ 3 ∷ [];
}

abbrev talked : Clock memory
talked = record {
  stream = some told;
  playout_buf = [];
  capture_buf = 1 ∷ 2 ∷ 3 ∷ [];
  next_tick = 10000000;
}

silent_test :
    tick 5 silent_round talking
    ≡ some (talked, record { pulled = true; pushed = none; slept = 6000000 })
unfolding tick drain_phase playout_phase accept_phase remote_phase cap_buffer encode to_le_bytes
    drain_playout capture_phase fill_capture record_phase pace
silent_test = refl

Talks-Spoken_example :
    Spoken memory memory-IsStream 5
      (5 ∷ 6 ∷ all_played memory memory-IsStream 5 (silent_round ∷ []))
      talked
Talks-Spoken_example =
    Talks-Spoken memory memory-IsStream 5 talking (record peer { room = 100; closed = false })
      (silent_round ∷ []) (record { pulled = true; pushed = none; slept = 6000000 } ∷ []) talked
      refl (omega arith)
      (went_on silent_round (record { pulled = true; pushed = none; slept = 6000000 }) told no_round
        (λ p. (refl, refl, omega arith), (refl, refl, omega arith)) silent_test refl)

abbrev loud_round : Round memory
loud_round = record silent_round { recording = true }

abbrev heard_clock : Clock memory
heard_clock = record talked { capture_buf = 3 ∷ [] }

abbrev loud : Emitted
loud = record {
  pulled = true;
  pushed = some (push_of (window_of (1 ∷ 2 ∷ 3 ∷ [])));
  slept = 6000000;
}

loud_test : tick 5 loud_round talking ≡ some (heard_clock, loud)
unfolding tick drain_phase playout_phase accept_phase remote_phase cap_buffer encode to_le_bytes
    drain_playout capture_phase fill_capture record_phase pace take_window decode replicate
loud_test = refl

Talks-Heard_example : Heard memory memory-IsStream 5 (loud ∷ []) heard_clock
Talks-Heard_example =
    Talks-Heard memory memory-IsStream 5 talking (record peer { room = 100; closed = false })
      (loud_round ∷ []) (loud ∷ []) heard_clock refl (omega arith) refl refl
      (went_on loud_round loud told no_round
        (λ p. (refl, refl, omega arith), (refl, refl, omega arith)) loud_test refl)
