-- ===== src/Pipe/Flags/Tests.antt =====
-- The two threads of pipe_audio.rs at concrete events.
use signal_call_tunnel.Base.{◌≡◌, refl, true, false, List, [], ◌∷◌}
use signal_call_tunnel.Pipe.Flags.{
  Event, start_playout, stop_playout, start_recording, stop_recording, Store, System, Reach, here,
  next, control, launch, control_thread, apply_store, apply_stores, initial, at_terminate,
}
use signal_call_tunnel.Pipe.Flags.Verdict.{control_thread-apply_stores}

abbrev muted : List Event
muted = start_recording false ∷ []

-- The recording has begun; the loop has not made a load.
abbrev begun : System
begun = record {
  flags = record { playing = false; recording = true; send_to_webrtc = false; terminate = false };
  todo = Store.terminate true ∷ [];
  pc = at_terminate;
  pulls = 0;
  pushes = 0;
}

begun-reached : Reach (launch muted) begun
unfolding launch apply_store
begun-reached =
    next
      (next here (
        control (Store.send_to_webrtc false) (Store.recording true ∷ Store.terminate true ∷ [])
          refl))
      (control (Store.recording true) (Store.terminate true ∷ []) refl)

abbrev stopped : System
stopped = record begun {
  flags = record { playing = false; recording = true; send_to_webrtc = false; terminate = true };
  todo = [];
}

stopped-reached : Reach (launch muted) stopped
unfolding apply_store
stopped-reached = next begun-reached (control (Store.terminate true) [] refl)

control_thread-apply_stores_example :
    apply_stores
      (control_thread (start_playout ∷ stop_recording ∷ Event.terminate ∷ stop_playout ∷ []))
      initial
    ≡ record {
      playing = true;
      recording = false;
      send_to_webrtc = initial.send_to_webrtc;
      terminate = true;
    }
control_thread-apply_stores_example =
    control_thread-apply_stores
      (start_playout ∷ stop_recording ∷ Event.terminate ∷ stop_playout ∷ []) initial
