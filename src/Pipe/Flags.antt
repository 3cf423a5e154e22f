-- ===== src/Pipe/Flags.antt =====
-- The control thread of `run` in pipe_audio.rs, the atomic flags that it stores to, and the loads of
-- `clock_loop`, interleaved in any order (`Ordering::SeqCst`).
pub mod Verdict
pub mod Race
pub mod Finish
mod Tests
use signal_call_tunnel.Base.{
  ℕ, zero, suc, ◌+◌, ◌≡◌, Bool, true, false, List, [], ◌∷◌, if◌then◌else◌,
}

-- `AudioControlEvent`; `unknown` stands for what the enum may gain, the `_` arm of the match.
pub data Event : Type 0 where
  start_playout stop_playout : Event
  start_recording : (send_to_webrtc : Bool) → Event
  stop_recording terminate unknown : Event

pub record Flags : Type 0 where
  pub playing : Bool
  pub recording : Bool
  pub send_to_webrtc : Bool
  pub terminate : Bool

-- One atomic store.
pub data Store : Type 0 where
  playing recording send_to_webrtc terminate : Bool → Store

-- All stores of the control thread, by the events that it receives until the channel closes.
unfoldable pub control_thread : List Event → List Store
control_thread [] = Store.terminate true ∷ []
control_thread (Event.terminate ∷ events) = Store.terminate true ∷ []
control_thread (start_playout ∷ events) = Store.playing true ∷ control_thread events
control_thread (stop_playout ∷ events) = Store.playing false ∷ control_thread events
control_thread (start_recording send ∷ events) =
    Store.send_to_webrtc send ∷ Store.recording true ∷ control_thread events
control_thread (stop_recording ∷ events) = Store.recording false ∷ control_thread events
control_thread (unknown ∷ events) = control_thread events

unfoldable pub apply_store : Store → Flags → Flags
apply_store (Store.playing b) f = record f { playing = b }
apply_store (Store.recording b) f = record f { recording = b }
apply_store (Store.send_to_webrtc b) f = record f { send_to_webrtc = b }
apply_store (Store.terminate b) f = record f { terminate = b }

unfoldable pub apply_stores : List Store → Flags → Flags
unfolding apply_store
apply_stores [] f = f
apply_stores (s ∷ stores) f = apply_stores stores (apply_store s f)

-- The flags as `run` creates them.
unfoldable pub initial : Flags
initial = record { playing = false; recording = false; send_to_webrtc = true; terminate = false }

-- The load that `clock_loop` makes next.
pub data Pc : Type 0 where
  at_terminate at_playing at_recording at_send finished : Pc

-- `todo` are the stores that the control thread has still to make; `pulls` and `pushes` count the
-- calls of `pull_playout` and `push_recording`.
pub record System : Type 0 where
  pub flags : Flags
  pub todo : List Store
  pub pc : Pc
  pub pulls : ℕ
  pub pushes : ℕ

abbrev one_if : Bool → ℕ
one_if true = 1
one_if false = 0

load_at : Pc → System → System
load_at at_terminate s = record s { pc = if s.flags.terminate then finished else at_playing }
load_at at_playing s = record s { pc = at_recording; pulls = s.pulls + one_if s.flags.playing }
load_at at_recording s = record s { pc = if s.flags.recording then at_send else at_terminate }
load_at at_send s = record s {
  pc = at_terminate;
  pushes = s.pushes + one_if s.flags.send_to_webrtc;
}
load_at finished s = s

-- The loop's next load, and what it does by it.
unfoldable pub load : System → System
unfolding load_at
load s = load_at s.pc s

-- Either thread moves.
pub data Step (s : System) : System → Type 0 where
  control :
      (store : Store) (rest : List Store)
      → s.todo ≡ store ∷ rest
      → Step s (record s { flags = apply_store store s.flags; todo = rest })
  loop : Step s (load s)

pub data Reach (s : System) : System → Type 0 where
  here : Reach s s
  next : {t u : System} → Reach s t → Step t u → Reach s u

unfoldable pub launch : List Event → System
unfolding initial control_thread
launch events = record {
  flags = initial;
  todo = control_thread events;
  pc = at_terminate;
  pulls = 0;
  pushes = 0;
}
