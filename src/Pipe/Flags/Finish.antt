-- ===== src/Pipe/Flags/Finish.antt =====
-- How the clock loop of pipe_audio.rs ends.
use signal_call_tunnel.Base.{
  ℕ, zero, suc, ◌≤◌, ◌≡◌, refl, ◌⊎◌, inl, true, false, List, [], ◌∷◌, arith,
}
use signal_call_tunnel.Pipe.Flags.{
  Event, start_playout, stop_playout, start_recording, stop_recording, unknown, Store, apply_store,
  control_thread, Pc, at_terminate, at_playing, at_recording, at_send, finished, System, load,
  control, loop, Reach, here, next, launch,
}

-- `terminate` is the last store to come.
abbrev IsLast : List Store → Type 0
IsLast [] = Unit
IsLast (Store.terminate b ∷ stores) = stores ≡ []
IsLast (s ∷ stores) = IsLast stores

record IsOrdered (s : System) : Type 0 where
  last : IsLast s.todo
  stopped : (s.flags.terminate ≡ false) ⊎ (s.todo ≡ [])

control_thread-IsLast : (events : List Event) → IsLast (control_thread events)
unfolding control_thread
control_thread-IsLast [] = refl
control_thread-IsLast (Event.terminate ∷ events) = refl
control_thread-IsLast (start_playout ∷ events) = control_thread-IsLast events
control_thread-IsLast (stop_playout ∷ events) = control_thread-IsLast events
control_thread-IsLast (start_recording b ∷ events) = control_thread-IsLast events
control_thread-IsLast (stop_recording ∷ events) = control_thread-IsLast events
control_thread-IsLast (unknown ∷ events) = control_thread-IsLast events

store-IsOrdered :
    (s : System) (store : Store) (rest : List Store)
    → s.todo ≡ store ∷ rest
    → IsOrdered s
    → IsOrdered (record s { flags = apply_store store s.flags; todo = rest })
unfolding apply_store
store-IsOrdered s (Store.playing b) rest e q = ground arith
store-IsOrdered s (Store.recording b) rest e q = ground arith
store-IsOrdered s (Store.send_to_webrtc b) rest e q = ground arith
store-IsOrdered s (Store.terminate b) rest e q = ground arith

load-IsOrdered : (s : System) → IsOrdered s → IsOrdered (load s)
unfolding load
load-IsOrdered s q = ground arith

Reach-IsOrdered : {s t : System} → IsOrdered s → Reach s t → IsOrdered t
Reach-IsOrdered q here = q
Reach-IsOrdered q (next r (control store rest e)) =
    store-IsOrdered _ store rest e (Reach-IsOrdered q r)
Reach-IsOrdered q (next r loop) = load-IsOrdered _ (Reach-IsOrdered q r)

launch-IsOrdered : (events : List Event) → IsOrdered (launch events)
unfolding launch
launch-IsOrdered events = record { last = control_thread-IsLast events; stopped = inl refl }

-- The loads that are left when `terminate` is set.
abbrev pub rank : Pc → ℕ
rank finished = 0
rank at_terminate = 1
rank at_send = 2
rank at_recording = 3
rank at_playing = 4

abbrev pub loads : ℕ → System → System
loads zero s = s
loads (suc n) s = loads n (load s)

load-terminate : (s : System) → (load s).flags ≡ s.flags
unfolding load
load-terminate s = ground arith

finish : (s : System) → s.flags.terminate ≡ true → (loads (rank s.pc) s).pc ≡ finished
unfolding load
finish s h = ground arith

-- In every state that the two threads reach with `terminate` set, the control thread has nothing
-- left to do, and the loop ends after the loads that are left of its round, four at most.
pub Reach-finishes :
    (events : List Event) {s : System}
    → Reach (launch events) s
    → s.flags.terminate ≡ true
    → (s.todo ≡ []) × ((loads (rank s.pc) s).pc ≡ finished) × (rank s.pc ≤ 4)
Reach-finishes events {s} r h =
    let q = Reach-IsOrdered (launch-IsOrdered events) r in
    (ground (arith, q.stopped), finish s h, ground arith)
