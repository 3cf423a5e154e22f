-- ===== src/Pipe/Flags/Race.antt =====
-- Every interleaving of the control thread and the clock loop of pipe_audio.rs.
use signal_call_tunnel.Base.{◌≡◌, refl, ◌⊎◌, inl, Bool, true, false, List, [], ◌∷◌, arith}
use signal_call_tunnel.Pipe.Flags.{
  Event, start_playout, stop_playout, start_recording, stop_recording, unknown, Store, apply_store,
  control_thread, Pc, at_send, System, load, control, loop, Reach, here, next, launch,
}

-- Every recording that is started is one whose windows WebRTC does not want.
abbrev pub AllMuted : List Event → Type 0
AllMuted [] = Unit
AllMuted (start_recording send ∷ events) = (send ≡ false) × AllMuted events
AllMuted (e ∷ events) = AllMuted events

-- The stores to come set `recording` only where `send_to_webrtc` is off, and never switch that on.
abbrev IsMuted : Bool → List Store → Type 0
IsMuted send [] = Unit
IsMuted send (Store.send_to_webrtc b ∷ stores) = (b ≡ false) × IsMuted b stores
IsMuted send (Store.recording true ∷ stores) = (send ≡ false) × IsMuted send stores
IsMuted send (s ∷ stores) = IsMuted send stores

abbrev is_at_send : Pc → Bool
is_at_send at_send = true
is_at_send _ = false

record IsQuiet (s : System) : Type 0 where
  none_pushed : s.pushes ≡ 0
  flags_off : (s.flags.recording ≡ false) ⊎ (s.flags.send_to_webrtc ≡ false)
  load_off : (is_at_send s.pc ≡ false) ⊎ (s.flags.send_to_webrtc ≡ false)
  later : IsMuted s.flags.send_to_webrtc s.todo

control_thread-IsMuted :
    (send : Bool) (events : List Event) → AllMuted events → IsMuted send (control_thread events)
unfolding control_thread
control_thread-IsMuted send [] h = tt
control_thread-IsMuted send (Event.terminate ∷ events) h = tt
control_thread-IsMuted send (start_playout ∷ events) h = control_thread-IsMuted send events h
control_thread-IsMuted send (stop_playout ∷ events) h = control_thread-IsMuted send events h
control_thread-IsMuted send (start_recording b ∷ events) h =
    (h.0, (h.0, control_thread-IsMuted b events h.1))
control_thread-IsMuted send (stop_recording ∷ events) h = control_thread-IsMuted send events h
control_thread-IsMuted send (unknown ∷ events) h = control_thread-IsMuted send events h

store-IsQuiet :
    (s : System) (store : Store) (rest : List Store)
    → s.todo ≡ store ∷ rest
    → IsQuiet s
    → IsQuiet (record s { flags = apply_store store s.flags; todo = rest })
unfolding apply_store
store-IsQuiet s (Store.playing b) rest e q = ground arith
store-IsQuiet s (Store.recording true) rest e q = ground arith
store-IsQuiet s (Store.recording false) rest e q = ground arith
store-IsQuiet s (Store.send_to_webrtc b) rest e q = ground arith
store-IsQuiet s (Store.terminate b) rest e q = ground arith

load-IsQuiet : (s : System) → IsQuiet s → IsQuiet (load s)
unfolding load
load-IsQuiet s q = ground arith

Reach-IsQuiet : {s t : System} → IsQuiet s → Reach s t → IsQuiet t
Reach-IsQuiet q here = q
Reach-IsQuiet q (next r (control store rest e)) = store-IsQuiet _ store rest e (Reach-IsQuiet q r)
Reach-IsQuiet q (next r loop) = load-IsQuiet _ (Reach-IsQuiet q r)

launch-IsQuiet : (events : List Event) → AllMuted events → IsQuiet (launch events)
unfolding launch
launch-IsQuiet events h = record {
  none_pushed = refl;
  flags_off = inl refl;
  load_off = inl refl;
  later = control_thread-IsMuted true events h;
}

-- If every recording is started with `send_to_webrtc` off, no interleaving of the two threads hands
-- a window to WebRTC, although the flag is on at first.
pub Reach-no_push :
    (events : List Event) {s : System} → AllMuted events → Reach (launch events) s → s.pushes ≡ 0
Reach-no_push events h r = (Reach-IsQuiet (launch-IsQuiet events h) r).none_pushed
