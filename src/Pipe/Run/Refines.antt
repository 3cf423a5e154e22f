-- ===== src/Pipe/Run/Refines.antt =====
-- How a state of `run` of pipe_audio.rs stands for one of the clock loop.
use signal_call_tunnel.Base.{
  ℕ, ◌+◌, ◌≡◌, append-nil, append_assoc, ◌∙◌, if◌then◌else◌, refl, sym, subst, ap, Bool, true,
  false, ◌&&◌, List, [], ◌∷◌, ◌++◌, Option, none, some, ◌>>=◌, arith, length, unwrap_or,
}
use signal_call_tunnel.Pipe.Socket.{Socket}
use signal_call_tunnel.Pipe.Clock.{
  Clock, Round, Emitted, tick_ns, start, remote_phase, accept_phase, playout_phase, drain_phase,
  capture_phase, pace, tick, clock_loop,
}
use signal_call_tunnel.Pipe.Clock.Phases.{IsSound, taken, record_phase_lem, window_pushed}
use signal_call_tunnel.Pipe.Run.{
  Pc, at_terminate, finished, at_playing, at_recording, at_send, Run, Turn, control, loop, turn,
}
use signal_call_tunnel.Pipe.Flags.{Flags}

pub unbind {ℓ κ} :
    {A : Type ℓ} {B : Type κ} (o : Option A) (f : A → Option B) (b : B)
    → (o >>= f) ≡ some b
    → (a : A) × (o ≡ some a) × (f a ≡ some b)
unbind none f b h = cc h
unbind (some a) f b h = (a, refl, h)

-- What the loop learns by a load.
pub data Load : Type 0 where
  terminate playing recording send_to_webrtc : Bool → Load

module _ {net : Socket} where
  -- The flag that the loop looks at where it stands, and the value that it has in that state.
  abbrev pub look : Pc net → Flags → List Load
  look at_terminate f = terminate f.terminate ∷ []
  look (at_playing r) f = playing f.playing ∷ []
  look (at_recording r) f = recording f.recording ∷ []
  look (at_send r) f = send_to_webrtc f.send_to_webrtc ∷ []
  look finished f = []

  abbrev pub look_of : Turn → Run net → List Load
  look_of control s = []
  look_of loop s = look s.pc s.flags

  -- The flags along a run, by the state before each move of the loop.
  abbrev pub watched : ℕ → (ℕ → Round net) → List Turn → Run net → List Load
  watched fuel env [] s = []
  watched fuel env (t ∷ turns) s =
      look_of t s ++ elim (turn fuel env t s) [ none ↦ [] | some u ↦ watched fuel env turns u ]

  -- The flags of a round that was gone through, of several, and of the one that is begun; the flag
  -- `send_to_webrtc` is looked at only while recording.
  abbrev pub loads_of : Round net → List Load
  loads_of r =
      terminate false
      ∷ playing r.playing
      ∷ recording r.recording
      ∷ (if r.recording then send_to_webrtc r.send_to_webrtc ∷ [] else [])

  abbrev pub loads_of_all : List (Round net) → List Load
  loads_of_all [] = []
  loads_of_all (r ∷ rs) = loads_of r ++ loads_of_all rs

  abbrev pub loads_begun : Pc net → List Load
  loads_begun at_terminate = []
  loads_begun (at_playing r) = terminate false ∷ []
  loads_begun (at_recording r) = terminate false ∷ playing r.playing ∷ []
  loads_begun (at_send r) = terminate false ∷ playing r.playing ∷ recording true ∷ []
  loads_begun finished = terminate true ∷ []

  pub loads_of_all-snoc :
      (rs : List (Round net)) (r : Round net)
      → loads_of_all (rs ++ r ∷ []) ≡ loads_of_all rs ++ loads_of r
  loads_of_all-snoc [] r = append-nil (loads_of r)
  loads_of_all-snoc (q ∷ rs) r =
      ap (λ l. loads_of q ++ l) (loads_of_all-snoc rs r)
      ∙ sym (append_assoc (loads_of q) (loads_of_all rs) (loads_of r))

module _ (net : Socket) (fuel : ℕ) where
  -- Rounds before `terminate` is seen.
  abbrev pub unstopped : List (Round net) → List (Bool × Round net)
  unstopped [] = []
  unstopped (r ∷ rs) = (false, r) ∷ unstopped rs

  pub clock_loop-snoc :
      (rs : List (Round net)) (r : Round net) (c0 c c' : Clock net) (e : Emitted)
      (es : List Emitted)
      → clock_loop fuel (unstopped rs) c0 ≡ some (es, c)
      → tick fuel r c ≡ some (c', e)
      → clock_loop fuel (unstopped (rs ++ r ∷ [])) c0 ≡ some (es ++ e ∷ [], c')
  unfolding clock_loop
  clock_loop-snoc [] r c0 c c' e es h t = ground arith
  clock_loop-snoc (s ∷ rs) r c0 c c' e es h t =
      let ((c1, e1), y, k) = unbind (tick fuel s c0) _ (es, c) h in
      let ((es1, c2), z, l) = unbind (clock_loop fuel (unstopped rs) c1) _ (es, c) k in
      let same : (e1 ∷ es1, c2) ≡ (es, c) =
        ap (λ (o : Option (List Emitted × Clock net)). unwrap_or o (es, c)) l in
      let here : tick fuel r c2 ≡ some (c', e) =
        subst (λ (p : List Emitted × Clock net). tick fuel r p.1 ≡ some (c', e)) (sym same) t in
      rw (y, clock_loop-snoc rs r c1 c2 c' e es1 z here)
        (ap (λ (p : List Emitted × Clock net). some (p.0 ++ e ∷ [], c')) same)

  -- What a round finds outside, whatever the flags are.
  abbrev pub IsDrawn : Round net → Round net → Type 0
  IsDrawn e r =
      (r.remote ≡ e.remote) × (r.accepted ≡ e.accepted) × (r.play ≡ e.play) × (r.now ≡ e.now)

  -- The clock of a round that was begun at `c`, up to the load of `recording`.
  abbrev pub early : Round net → Clock net → Clock net
  early r c =
      accept_phase r.accepted
        (remote_phase r.remote (record c { next_tick = c.next_tick + tick_ns }))

  abbrev pub carried : Round net → Clock net → Option (Clock net)
  carried r c =
      drain_phase (playout_phase r.playing r.play (early r c)) >>= λ d. capture_phase fuel d

  pub tick-due :
      (due : Bool) (r : Round net) (c k : Clock net)
      → carried r c ≡ some k
      → (r.recording && r.send_to_webrtc) ≡ due
      → tick fuel r c
        ≡ some (
          (pace r.now (taken net fuel due k)).0,
          record {
            pulled = r.playing;
            pushed = window_pushed due k.capture_buf;
            slept = (pace r.now (taken net fuel due k)).1;
          },
        )
  unfolding tick
  tick-due due r c k h d = ground (arith, record_phase_lem net fuel due k)

  -- Where the loop is in its round: the clock now, by the one at the round's begin.
  abbrev pub Stands : Pc net → Clock net → Clock net → Type 0
  Stands at_terminate c k = k ≡ c
  Stands finished c k = k ≡ c
  Stands (at_playing r) c k = k ≡ early r c
  Stands (at_recording r) c k = carried r c ≡ some k
  Stands (at_send r) c k = (carried r c ≡ some k) × (r.recording ≡ true)

  module _ (env : ℕ → Round net) where
    -- The rounds find what `env` has for them.
    pub data AllDrawn : List (Round net) → Type 0 where
      none_yet : AllDrawn []
      drawn :
          {rs : List (Round net)} (r : Round net)
          → AllDrawn rs
          → IsDrawn (env (length rs)) r
          → AllDrawn (rs ++ r ∷ [])

    abbrev pub IsCurrent : Pc net → ℕ → Type 0
    IsCurrent (at_playing r) n = IsDrawn (env n) r
    IsCurrent (at_recording r) n = IsDrawn (env n) r
    IsCurrent (at_send r) n = IsDrawn (env n) r
    IsCurrent _ n = Unit

    -- A state of `run` is that of the clock loop after `rounds` and a part of the next one.
    -- `looks` are the values that the flags had when the loop looked at them.
    pub record Refines (now : ℕ) (looks : List Load) (s : Run net) : Type 0 where
      pub rounds : List (Round net)
      pub begun : Clock net
      pub looped : clock_loop fuel (unstopped rounds) (start now) ≡ some (s.emitted, begun)
      pub count : length s.emitted ≡ length rounds
      pub all_drawn : AllDrawn rounds
      pub loaded : looks ≡ loads_of_all rounds ++ loads_begun s.pc
      pub current : IsCurrent s.pc (length rounds)
      pub stands : Stands s.pc begun s.clock
      pub sound : IsSound net fuel s.clock
