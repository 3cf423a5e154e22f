-- ===== src/Pipe/Flags/Verdict.antt =====
-- What the control thread of pipe_audio.rs leaves in the flags.
use signal_call_tunnel.Base.{
  ◌≡◌, refl, Bool, true, false, List, [], ◌∷◌, Option, none, some, unwrap_or, arith,
}
use signal_call_tunnel.Pipe.Flags.{
  Event, start_playout, stop_playout, start_recording, stop_recording, unknown, Flags,
  control_thread, apply_stores,
}

-- What an event says of a flag.
abbrev pub on_playing : Event → Option Bool
on_playing start_playout = some true
on_playing stop_playout = some false
on_playing _ = none

abbrev pub on_recording : Event → Option Bool
on_recording (start_recording send) = some true
on_recording stop_recording = some false
on_recording _ = none

abbrev pub on_send : Event → Option Bool
on_send (start_recording send) = some send
on_send _ = none

-- The newest word on a flag, if there is one, of the events before the first `Terminate`.
abbrev pub newest : (Event → Option Bool) → List Event → Option Bool
newest says [] = none
newest says (Event.terminate ∷ events) = none
newest says (e ∷ events) = elim (newest says events) [ none ↦ says e | some b ↦ some b ]

-- When the control thread ends each flag holds the newest word of the events up to `Terminate`, or
-- what it held before, and `terminate` is set.
pub control_thread-apply_stores :
    (events : List Event) (f : Flags)
    → apply_stores (control_thread events) f ≡ record {
      playing = unwrap_or (newest on_playing events) f.playing;
      recording = unwrap_or (newest on_recording events) f.recording;
      send_to_webrtc = unwrap_or (newest on_send events) f.send_to_webrtc;
      terminate = true;
    }
unfolding apply_stores control_thread
control_thread-apply_stores [] f = refl
control_thread-apply_stores (Event.terminate ∷ events) f = refl
control_thread-apply_stores (start_playout ∷ events) f =
    ground (arith, control_thread-apply_stores events (record f { playing = true }))
control_thread-apply_stores (stop_playout ∷ events) f =
    ground (arith, control_thread-apply_stores events (record f { playing = false }))
control_thread-apply_stores (start_recording b ∷ events) f =
    ground (
      arith,
      control_thread-apply_stores events (record f { send_to_webrtc = b; recording = true }),
    )
control_thread-apply_stores (stop_recording ∷ events) f =
    ground (arith, control_thread-apply_stores events (record f { recording = false }))
control_thread-apply_stores (unknown ∷ events) f =
    ground (arith, control_thread-apply_stores events f)
