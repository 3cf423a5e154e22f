-- ===== src/Pipe/Run/Finish.antt =====
-- How `run` of pipe_audio.rs ends.
use signal_call_tunnel.Base.{
  ℕ, suc, ◌-◌, ◌≤◌, ◌≡◌, refl, sym, subst, ap, ◌∙◌, true, List, [], ◌∷◌, ◌++◌, some, ◌>>=◌, arith,
  length, ap₂, unwrap_or,
}
use signal_call_tunnel.Pipe.Socket.{Socket, IsStream}
use signal_call_tunnel.Pipe.Clock.{Round}
use signal_call_tunnel.Pipe.Clock.Rounds.{IsRound}
use signal_call_tunnel.Pipe.Flags.{Event, Flags, Store, control_thread, apply_stores, initial}
use signal_call_tunnel.Pipe.Flags.Verdict.{control_thread-apply_stores}
use signal_call_tunnel.Pipe.Run.{
  Pc, at_terminate, finished, at_playing, at_recording, at_send, Run, launch, control_next,
  control_turn, after_terminate, after_playing, after_recording, end_round, load_turn, loop_turn,
  Turn, control, loop, turn, run,
}
use signal_call_tunnel.Pipe.Run.Refines.{unbind}
use signal_call_tunnel.Pipe.Run.Rounds.{run-Refines}

-- How often a thread moves.
abbrev pub controls : List Turn → ℕ
controls [] = 0
controls (control ∷ turns) = suc (controls turns)
controls (loop ∷ turns) = controls turns

abbrev pub loops : List Turn → ℕ
loops [] = 0
loops (control ∷ turns) = loops turns
loops (loop ∷ turns) = suc (loops turns)

module _ {net : Socket} where
  -- The loads that are left of the round, with the one that finds `terminate` set.
  abbrev rank : Pc net → ℕ
  rank finished = 0
  rank at_terminate = 1
  rank (at_send r) = 2
  rank (at_recording r) = 3
  rank (at_playing r) = 4

  load-threads :
      (fuel : ℕ) (env : ℕ → Round net) (pc : Pc net) (s s' : Run net)
      → load_turn fuel env pc s ≡ some s'
      → (s'.flags ≡ s.flags) × (s'.todo ≡ s.todo)
  unfolding load_turn after_terminate after_playing after_recording end_round
  load-threads fuel env finished s s' h = ground arith
  load-threads fuel env at_terminate s s' h = ground arith
  load-threads fuel env (at_playing r) s s' h = ground arith
  load-threads fuel env (at_recording r) s s' h = ground arith
  load-threads fuel env (at_send r) s s' h = ground arith

  load-rank :
      (fuel : ℕ) (env : ℕ → Round net) (pc : Pc net) (s s' : Run net)
      → load_turn fuel env pc s ≡ some s'
      → s.flags.terminate ≡ true
      → s.pc ≡ pc
      → rank s'.pc ≤ rank pc - 1
  unfolding load_turn after_terminate after_playing after_recording end_round
  load-rank fuel env finished s s' h t e = ground arith
  load-rank fuel env at_terminate s s' h t e = ground arith
  load-rank fuel env (at_playing r) s s' h t e = ground arith
  load-rank fuel env (at_recording r) s s' h t e = ground arith
  load-rank fuel env (at_send r) s s' h t e = ground arith

  -- The flags after all stores that are left.
  abbrev verdict : Run net → Flags
  verdict s = apply_stores s.todo s.flags

  control_next-verdict :
      (stores : List Store) (s : Run net)
      → s.todo ≡ stores
      → (verdict (control_next stores s) ≡ verdict s)
        × (length (control_next stores s).todo ≡ length stores - 1)
        × ((control_next stores s).pc ≡ s.pc)
  unfolding control_next apply_stores
  control_next-verdict [] s e = (refl, ap length e, refl)
  control_next-verdict (store ∷ rest) s e =
      (ap (λ l. apply_stores l s.flags) (sym e), omega arith, refl)

  module _ (fuel : ℕ) (env : ℕ → Round net) where
    run-verdict :
        (turns : List Turn) (s s' : Run net)
        → run fuel env turns s ≡ some s'
        → (verdict s' ≡ verdict s) × (length s'.todo ≤ length s.todo - controls turns)
    unfolding run turn control_turn loop_turn
    run-verdict [] s s' h =
        let e : s ≡ s' = ap (λ o. unwrap_or o s') h in
        subst (λ u. (verdict u ≡ verdict s) × (length u.todo ≤ length s.todo - 0)) e
          (refl, omega arith)
    run-verdict (control ∷ turns) s s' h =
        let (v, n, p) = control_next-verdict s.todo s refl in
        let (v', n') = run-verdict turns (control_turn s) s' h in (v' ∙ v, omega (arith, n, n'))
    run-verdict (loop ∷ turns) s s' h =
        let (u, e, k) = unbind (load_turn fuel env s.pc s) _ s' h in
        let (f, t) = load-threads fuel env s.pc s u e in
        let (v', n') = run-verdict turns u s' k in
        (v' ∙ ap₂ apply_stores t f, omega (arith, ap length t, n'))

    run-rank :
        (turns : List Turn) (s s' : Run net)
        → run fuel env turns s ≡ some s'
        → s.todo ≡ []
        → s.flags.terminate ≡ true
        → (s'.todo ≡ []) × (rank s'.pc ≤ rank s.pc - loops turns)
    unfolding run turn control_turn control_next loop_turn
    run-rank [] s s' h none_left stop =
        let e : s ≡ s' = ap (λ o. unwrap_or o s') h in
        subst (λ u. (u.todo ≡ []) × (rank u.pc ≤ rank s.pc - 0)) e (none_left, omega arith)
    run-rank (control ∷ turns) s s' h none_left stop =
        let same : control_turn s ≡ s = ap (λ l. control_next l s) none_left in
        run-rank turns s s' (subst (λ u. run fuel env turns u ≡ some s') same h) none_left stop
    run-rank (loop ∷ turns) s s' h none_left stop =
        let (u, e, k) = unbind (load_turn fuel env s.pc s) _ s' h in
        let (f, t) = load-threads fuel env s.pc s u e in
        let (n, m) =
          run-rank turns u s' k (t ∙ none_left) (ap (λ (g : Flags). g.terminate) f ∙ stop) in
        (n, omega (arith, load-rank fuel env s.pc s u e stop refl, m))

    run-split :
        (turns more : List Turn) (s s' : Run net)
        → run fuel env (turns ++ more) s ≡ some s'
        → (u : Run net) × (run fuel env turns s ≡ some u) × (run fuel env more u ≡ some s')
    unfolding run
    run-split [] more s s' h = (s, refl, h)
    run-split (t ∷ turns) more s s' h =
        let (u, e, k) = unbind (turn fuel env t s) _ s' h in
        let (v, l, m) = run-split turns more u s' k in
        (v, ap (λ o. o >>= λ w. run fuel env turns w) e ∙ l, m)

  rank-finished : (pc : Pc net) → rank pc ≤ 0 → pc ≡ finished
  rank-finished finished h = refl
  rank-finished at_terminate h = absurd (omega arith)
  rank-finished (at_playing r) h = absurd (omega arith)
  rank-finished (at_recording r) h = absurd (omega arith)
  rank-finished (at_send r) h = absurd (omega arith)

  rank-le : (pc : Pc net) → rank pc ≤ 4
  rank-le pc = ground arith

nil-of_length {ℓ} : {A : Type ℓ} (xs : List A) → length xs ≤ 0 → xs ≡ []
nil-of_length [] h = refl
nil-of_length (x ∷ xs) h = absurd (omega arith)

module _ (net : Socket) (laws : IsStream net) (fuel : ℕ) (env : ℕ → Round net)
    (rounds_fit : (n : ℕ) → IsRound net laws fuel (env n)) (now : ℕ) where
  -- Both threads have ended, so that the join returns, and the flags hold what the events said last.
  pub record Returned (events : List Event) (s : Run net) : Type 0 where
    pub loop_left : s.pc ≡ finished
    pub joined : s.todo ≡ []
    pub flags_last : s.flags ≡ apply_stores (control_thread events) initial

  -- Over a socket that keeps to its documentation, with more fuel than bytes ever wait in it: in every
  -- order of moves in which the control thread has made its stores, and the loop moves four times or
  -- more behind that, `run` returns: the loop has left, the control thread can be joined, and the flags
  -- are those of the events.
  pub run-Returned :
      (events : List Event) (turns more : List Turn)
      → length (control_thread events) ≤ controls turns
      → 4 ≤ loops more
      → (s : Run net) × (run fuel env (turns ++ more) (launch events now) ≡ some s)
        × Returned events s
  unfolding launch apply_stores
  run-Returned events turns more hc hl =
      let (s, e, _) = run-Refines net laws fuel env rounds_fit now events (turns ++ more) in
      let (u, a, b) = run-split fuel env turns more (launch events now) s e in
      let (v, n) = run-verdict fuel env turns (launch events now) u a in
      let none_left : u.todo ≡ [] = nil-of_length u.todo (omega (arith, n, hc)) in
      let told : u.flags ≡ apply_stores (control_thread events) initial =
        ap (λ l. apply_stores l u.flags) (sym none_left) ∙ v in
      let stop : u.flags.terminate ≡ true =
        ap (λ (f : Flags). f.terminate) (told ∙ control_thread-apply_stores events initial) in
      let (left, r) = run-rank fuel env more u s b none_left stop in
      let (v', _) = run-verdict fuel env more u s b in
      (
        s,
        e,
        record {
          loop_left = rank-finished s.pc (omega (arith, r, rank-le u.pc, hl));
          joined = left;
          flags_last = ap (λ l. apply_stores l s.flags) (sym left) ∙ v' ∙ v;
        },
      )
