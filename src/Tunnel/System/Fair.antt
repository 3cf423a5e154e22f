-- ===== src/Tunnel/System/Fair.antt =====
-- How the event loop of main.rs comes to its end in an unending run of the process's threads.
use signal_call_tunnel.Base.{
  ℕ, zero, suc, ◌+◌, ◌-◌, ◌≤◌, ◌≡◌, ◌≢◌, refl, sym, subst, true, false, List, [], ◌∷◌, ◌++◌, Text,
  arith,
}
use signal_call_tunnel.Platform.{CallMediaType}
use signal_call_tunnel.Control.{Codec}
use signal_call_tunnel.Tunnel.EventLoop.{Ringrtc, Local, running}
use signal_call_tunnel.Tunnel.System.{System, Turn, run}
use signal_call_tunnel.Tunnel.System.Steps.{is_polls}
use signal_call_tunnel.Tunnel.System.Measures.{
  left_for-zero, rounds-zero, to_read, to_take, is_reads, one, all, turn-rounds, reads-rounds,
  turn-left, polls-left,
}

-- A number that never grows from `start` on, and falls again and again, comes to zero.
module _ (f : ℕ → ℕ) (start : ℕ) (Falls : ℕ → Type 0) (mono : (k : ℕ) → start ≤ k → f (suc k) ≤ f k)
    (drop : (k : ℕ) → start ≤ k → Falls k → f (suc k) ≤ f k - 1)
    (often : (n : ℕ) → (m : ℕ) × (n ≤ m) × Falls m) where
  stays-le : (d n : ℕ) → start ≤ n → f (d + n) ≤ f n
  stays-le zero n h = let e : n ≡ 0 + n = omega arith in subst (λ k. f k ≤ f n) e (omega arith)
  stays-le (suc d) n h =
      let e : suc (d + n) ≡ suc d + n = omega arith in
      subst (λ k. f k ≤ f n) e (omega (arith, mono (d + n) (omega arith), stays-le d n h))

  pub comes_to_zero : (b n : ℕ) → start ≤ n → f n ≤ b → (k : ℕ) × (start ≤ k) × (f k ≡ 0)
  comes_to_zero zero n h le = (n, h, omega arith)
  comes_to_zero (suc b) n h le =
      let (m, later, falls) = often n in
      let low : f m ≤ f n = subst (λ k. f k ≤ f n) (omega arith) (stays-le (m - n) n h) in
      comes_to_zero b (suc m) (omega arith) (omega (arith, drop m (omega arith) falls))

  stays_zero : (k m : ℕ) → start ≤ k → k ≤ m → f k ≡ 0 → f m ≡ 0
  stays_zero k m h le z =
      let e : m - k + k ≡ m = omega arith in
      let low : f m ≤ f k = subst (λ i. f i ≤ f k) e (stays-le (m - k) k h) in omega arith

-- The first moves of a schedule.
abbrev pub first_turns : {H R : Type 0} → (ℕ → Turn H R) → ℕ → List (Turn H R)
first_turns schedule zero = []
first_turns schedule (suc k) = first_turns schedule k ++ schedule k ∷ []

-- The threads that the loop's end depends on are never left out for good: the reader, which the end
-- of stdin, or a read error, lets move in the end, and the loop itself, with its time-outs.
pub record IsFair {H R : Type 0} (schedule : ℕ → Turn H R) : Type 0 where
  pub reads_on : (n : ℕ) → (m : ℕ) × (n ≤ m) × (is_reads (schedule m) ≡ true)
  pub polls_on : (n : ℕ) → (m : ℕ) × (n ≤ m) × (is_polls (schedule m) ≡ true)

module _ {H R : Type 0} (codec : Codec) (encode : List ℕ → Text) (rtc : Ringrtc) (local : Local)
    (debug_hangup : H → Text) (debug_media : CallMediaType → Text) (debug_reason : R → Text) where
  abbrev step : Turn H R → System rtc.World → System rtc.World
  step = one codec encode rtc local debug_hangup debug_media debug_reason

  abbrev run_of : List (Turn H R) → System rtc.World → System rtc.World
  run_of = all codec encode rtc local debug_hangup debug_media debug_reason

  pub run-snoc :
      (turns : List (Turn H R)) (t : Turn H R) (s : System rtc.World)
      → run_of (turns ++ t ∷ []) s ≡ step t (run_of turns s)
  unfolding run
  run-snoc [] t s = refl
  run-snoc (u ∷ turns) t s = run-snoc turns t (step u s)

  module _ (schedule : ℕ → Turn H R) (fair : IsFair schedule) (s : System rtc.World) where
    -- The state before move number `k`.
    abbrev at : ℕ → System rtc.World
    at k = run_of (first_turns schedule k) s

    at-suc : (k : ℕ) → at (suc k) ≡ step (schedule k) (at k)
    at-suc k = run-snoc (first_turns schedule k) (schedule k) s

    read_mono : (k : ℕ) → to_read (at (suc k)) ≤ to_read (at k)
    read_mono k =
        subst (λ (u : System rtc.World). to_read u ≤ to_read (at k)) (sym (at-suc k))
          (turn-rounds codec encode rtc local debug_hangup debug_media debug_reason (schedule k)
            (at k))

    read_drop : (k : ℕ) → is_reads (schedule k) ≡ true → to_read (at (suc k)) ≤ to_read (at k) - 1
    read_drop k h =
        subst (λ (u : System rtc.World). to_read u ≤ to_read (at k) - 1) (sym (at-suc k))
          (reads-rounds codec encode rtc local debug_hangup debug_media debug_reason (schedule k)
            (at k) h)

    -- In the end the reader thread is through with stdin, for good.
    reader_ends : (k : ℕ) × ((m : ℕ) → k ≤ m → (at m).reading ≡ false)
    reader_ends =
        let (k, _, z) =
          comes_to_zero (λ n. to_read (at n)) 0 (λ n. is_reads (schedule n) ≡ true)
            (λ n _. read_mono n) (λ n _ h. read_drop n h) fair.reads_on (to_read (at 0)) 0
            (omega arith) (omega arith) in
        (
          k,
          λ m h. rounds-zero (at m).reading (at m).stdin (
              stays_zero (λ n. to_read (at n)) 0 (λ n. is_reads (schedule n) ≡ true)
                (λ n _. read_mono n) (λ n _ r. read_drop n r) fair.reads_on k m (omega arith) h z),
        )

    module _ (k : ℕ) (ended : (m : ℕ) → k ≤ m → (at m).reading ≡ false) where
      take_mono : (m : ℕ) → k ≤ m → to_take (at (suc m)) ≤ to_take (at m)
      take_mono m h =
          subst (λ (u : System rtc.World). to_take u ≤ to_take (at m)) (sym (at-suc m))
            (turn-left codec encode rtc local debug_hangup debug_media debug_reason (schedule m)
              (at m) (ended m h))

      take_drop :
          (m : ℕ) → k ≤ m → is_polls (schedule m) ≡ true → to_take (at (suc m)) ≤ to_take (at m) - 1
      take_drop m h p =
          subst (λ (u : System rtc.World). to_take u ≤ to_take (at m) - 1) (sym (at-suc m))
            (polls-left codec encode rtc local debug_hangup debug_media debug_reason (schedule m)
              (at m) p (ended m h))

  -- From every state, which has finitely many lines to come on stdin and then its end, in every
  -- unending run in which the reader thread and the loop move again and again, whatever the other
  -- threads, RingRTC and stdout do, the loop is left after some moves.
  pub run-Left :
      (schedule : ℕ → Turn H R) (s : System rtc.World)
      → IsFair schedule
      → (k : ℕ) × ((run_of (first_turns schedule k) s).exit ≢ running)
  run-Left schedule s fair =
      let (k, ended) = reader_ends schedule fair s in
      let (m, _, z) =
        comes_to_zero (λ n. to_take (at schedule fair s n)) k (λ n. is_polls (schedule n) ≡ true)
          (λ n h. take_mono schedule fair s k ended n h)
          (λ n h p. take_drop schedule fair s k ended n h p) fair.polls_on
          (to_take (at schedule fair s k)) k (omega arith) (omega arith) in
      (m, left_for-zero (at schedule fair s m).exit (at schedule fair s m).messages.queue z)
