-- ===== src/Tunnel/System/Loop.antt =====
-- The event loop among the other threads of the process, beside the same loop alone.
use signal_call_tunnel.Base.{
  ℕ, ◌≡◌, ◌≢◌, refl, sym, subst, ap, ◌∙◌, inl, inr, Bool, true, false, List, [], ◌∷◌, ◌++◌,
  append-nil, append_assoc, Option, Text, Bool-cases,
}
use signal_call_tunnel.Platform.{CallMediaType}
use signal_call_tunnel.Control.{ControlMessage, Codec}
use signal_call_tunnel.Tunnel.EventLoop.{
  Ringrtc, Local, Session, Poll, Received, message, timeout, disconnected, Exit, running, sigterm,
  hung_up, dispatch, event_loop,
}
use signal_call_tunnel.Tunnel.EventLoop.Routing.{taken, taken_from}
use signal_call_tunnel.Tunnel.Process.Turns.{Agrees, SameEnd, dispatch-SameEnd}
use signal_call_tunnel.Tunnel.System.{
  System, Turn, polls, receive, iterate, poll_next, poll_turn, turn, run,
}
use signal_call_tunnel.Tunnel.System.Steps.{
  Kept, Kept-refl, still_in, due, Keeps, Holds, go, go_on, other-Kept, other-Keeps, other-Holds,
}

-- What the loop takes of the channel by what it receives.
abbrev first_of : Received → List ControlMessage
first_of (message m) = m ∷ []
first_of _ = []

receive-first :
    (reading : Bool) (queue : List ControlMessage)
    → queue ≡ first_of (receive reading queue).0 ++ (receive reading queue).1
unfolding receive
receive-first reading (m ∷ queue) = refl
receive-first true [] = refl
receive-first false [] = refl

regrouped :
    (first queue still : List ControlMessage) {messages : List ControlMessage}
    → messages ≡ first ++ queue
    → messages ++ still ≡ first ++ (queue ++ still)
regrouped first queue still e = ap (λ c. c ++ still) e ∙ append_assoc first queue still

module _ (rtc : Ringrtc) (local : Local) where
  -- An iteration behind which the loop goes on, or one behind which it does not.
  data Iterated (r : Received) (s : Session rtc.World) : Exit → Session rtc.World → Type 0 where
    goes_on :
        {t : Session rtc.World}
        → ((again : Session rtc.World → Exit × Session rtc.World)
            → dispatch rtc local again r s ≡ again t)
        → ((later : List ControlMessage) → taken_from r later ≡ first_of r ++ later)
        → Iterated r s running t
    stops :
        {x : Exit} {t : Session rtc.World}
        → x ≢ running
        → ((again : Session rtc.World → Exit × Session rtc.World)
            → dispatch rtc local again r s ≡ (x, t))
        → taken_from r [] ≡ first_of r
        → (x ≡ hung_up → first_of r ≡ ControlMessage.hangup ∷ [])
        → Iterated r s x t

  iterate-Iterated :
      (r : Received) (s : Session rtc.World)
      → Iterated r s (iterate rtc local r s).0 (iterate rtc local r s).1
  unfolding dispatch
  iterate-Iterated timeout s = goes_on (λ again. refl) (λ later. refl)
  iterate-Iterated disconnected s = stops (λ e. cc) (λ again. refl) refl (λ e. cc)
  iterate-Iterated (message ControlMessage.hangup) s =
      stops (λ e. cc) (λ again. refl) refl (λ e. refl)
  iterate-Iterated (message m) s = goes_on (λ again. refl) (λ later. refl)

  message-not_disconnected :
      (m : ControlMessage) (s : Session rtc.World)
      → (iterate rtc local (message m) s).0 ≢ Exit.disconnected
  unfolding dispatch
  message-not_disconnected ControlMessage.hangup s e = cc
  message-not_disconnected m s e = cc

  -- The channel is found closed when nothing is left in it and the reader thread has ended.
  receive-drained :
      (codec : Codec) (reading : Bool) (queue : List ControlMessage) (stdin : List (Option Text))
      (s : Session rtc.World)
      → (iterate rtc local (receive reading queue).0 s).0 ≡ Exit.disconnected
      → (receive reading queue).1 ++ still_in codec reading stdin ≡ []
  unfolding receive dispatch
  receive-drained codec reading (m ∷ queue) stdin s e = absurd (message-not_disconnected m s e)
  receive-drained codec true [] stdin s e = cc
  receive-drained codec false [] stdin s e = refl

  event_loop-SameEnd :
      (ps : List Poll) (s t : Session rtc.World)
      → Agrees rtc s t
      → (encode : List ℕ → Text)
      → SameEnd encode rtc local (event_loop rtc local ps s) (event_loop rtc local ps t)
  unfolding event_loop
  event_loop-SameEnd [] s t a encode = (refl, a)
  event_loop-SameEnd (p ∷ ps) s t a encode = elim (Bool-cases p.terminate) [
    | inl stop ↦ rw (stop, event_loop) (refl, a)
    | inr more ↦
        rw (more, event_loop)
          (dispatch-SameEnd encode rtc local (λ u. event_loop rtc local ps u)
            (λ v. event_loop rtc local ps v) p.received s t
            (λ u v b. event_loop-SameEnd ps u v b encode) a)
  ]

module _ (codec : Codec) (encode : List ℕ → Text) (rtc : Ringrtc) (local : Local) where
  -- From a state on, the loop has done what it does alone on some iterations, and the messages that
  -- these take are the first ones of those that were due; while it runs, the others are still due,
  -- when the channel is closed there are no others, and after a hangup it is the last one taken.
  pub record Loops (s s' : System rtc.World) : Type 0 where
    pub iterations : List Poll
    pub rest : List ControlMessage
    pub same :
        SameEnd encode rtc local (event_loop rtc local iterations s.session) (s'.exit, s'.session)
    pub first : due codec s ≡ taken iterations ++ rest
    pub whole : s'.exit ≡ running → rest ≡ due codec s'
    pub drained : s'.exit ≡ Exit.disconnected → rest ≡ []
    pub hung :
        s'.exit ≡ hung_up
        → (before : List ControlMessage) × (taken iterations ≡ before ++ ControlMessage.hangup ∷ [])

  abbrev moved :
      Exit → Session rtc.World → List ControlMessage → System rtc.World → System rtc.World
  moved x t queue s = record s {
    exit = x;
    session = t;
    messages = record s.messages { queue = queue };
  }

  Loops-Iterated :
      (r : Received) (queue : List ControlMessage) (s s' : System rtc.World) (x : Exit)
      (t : Session rtc.World)
      → Iterated rtc local r s.session x t
      → s.messages.queue ≡ first_of r ++ queue
      → (x ≡ running → Loops (moved x t queue s) s')
      → (x ≢ running → Kept rtc (moved x t queue s) s')
      → (x ≡ Exit.disconnected → due codec (moved x t queue s) ≡ [])
      → Loops s s'
  unfolding event_loop
  Loops-Iterated r queue s s' x t (goes_on d f) e h k z =
      let l = h refl in
      record {
        iterations = record { terminate = false; received = r } ∷ l.iterations;
        rest = l.rest;
        same = rw (d (λ u. event_loop rtc local l.iterations u)) l.same;
        first =
            regrouped (first_of r) queue (still_in codec s.reading s.stdin) e
            ∙ ap (λ (c : List ControlMessage). first_of r ++ c) l.first
            ∙ sym (append_assoc (first_of r) (taken l.iterations) l.rest)
            ∙ ap (λ (c : List ControlMessage). c ++ l.rest) (sym (f (taken l.iterations)));
        whole = l.whole;
        drained = l.drained;
        hung = λ q.
            let (before, g) = l.hung q in
            (
              first_of r ++ before,
              f (taken l.iterations)
                  ∙ ap (λ (c : List ControlMessage). first_of r ++ c) g
                  ∙ sym (append_assoc (first_of r) before (ControlMessage.hangup ∷ [])),
            );
      }
  Loops-Iterated r queue s s' x t (stops n d f u) e h k z =
      let l = k n in
      record {
        iterations = record { terminate = false; received = r } ∷ [];
        rest = due codec (moved x t queue s);
        same = rw (d (λ u. (running, u))) (sym l.exit, l.agrees);
        first =
            regrouped (first_of r) queue (still_in codec s.reading s.stdin) e
            ∙ ap (λ (c : List ControlMessage). c ++ due codec (moved x t queue s)) (sym f);
        whole = λ q. absurd (n (sym l.exit ∙ q));
        drained = λ q. z (sym l.exit ∙ q);
        hung = λ q. ([], f ∙ u (sym l.exit ∙ q));
      }

  Loops-over :
      (s t s' : System rtc.World)
      → Kept rtc s t
      → Keeps codec s t
      → s.messages.is_open ≡ true
      → Loops t s'
      → Loops s s'
  Loops-over s t s' k (lost, q, n) o l =
      let (x, a) = event_loop-SameEnd rtc local l.iterations s.session t.session k.agrees encode in
      record {
        iterations = l.iterations;
        rest = l.rest;
        same = (
          x ∙ l.same.0,
          record {
            peer = a.peer ∙ l.same.1.peer;
            world = a.world ∙ l.same.1.world;
            calls = a.calls ∙ l.same.1.calls;
          },
        );
        first = q ∙ ap (λ c. due codec t ++ c) (n o) ∙ append-nil (due codec t) ∙ l.first;
        whole = l.whole;
        drained = l.drained;
        hung = l.hung;
      }

  poll_turn-Kept :
      (x : Exit) (b : Bool) (s : System rtc.World)
      → x ≢ running
      → Kept rtc s (poll_turn rtc local x b s)
  unfolding poll_turn
  poll_turn-Kept running b s n = absurd (n refl)
  poll_turn-Kept sigterm b s n = Kept-refl rtc s
  poll_turn-Kept Exit.disconnected b s n = Kept-refl rtc s
  poll_turn-Kept hung_up b s n = Kept-refl rtc s

  Kept-trans : (s t u : System rtc.World) → Kept rtc s t → Kept rtc t u → Kept rtc s u
  Kept-trans s t u h k = record {
    exit = k.exit ∙ h.exit;
    agrees = record {
      peer = h.agrees.peer ∙ k.agrees.peer;
      world = h.agrees.world ∙ k.agrees.world;
      calls = h.agrees.calls ∙ k.agrees.calls;
    };
  }

  poll_next-Loops :
      (b : Bool) (s : System rtc.World) (again : System rtc.World → System rtc.World)
      → s.exit ≡ running
      → s.messages.is_open ≡ true
      → ((u : System rtc.World) → u.exit ≡ running → Holds u → Loops u (again u))
      → ((u : System rtc.World) → u.exit ≢ running → Kept rtc u (again u))
      → Loops s (again (poll_next rtc local b s))
  unfolding poll_next event_loop
  poll_next-Loops true s again e o rec kept =
      let k = kept (record s { exit = sigterm }) (λ q. cc) in
      record {
        iterations = record { terminate = true; received = timeout } ∷ [];
        rest = due codec s;
        same = (sym k.exit, k.agrees);
        first = refl;
        whole = λ q. cc k.exit;
        drained = λ q. cc k.exit;
        hung = λ q. cc k.exit;
      }
  poll_next-Loops false s again e o rec kept =
      let r = (receive s.reading s.messages.queue).0 in
      let queue = (receive s.reading s.messages.queue).1 in
      let x = (iterate rtc local r s.session).0 in
      let t = (iterate rtc local r s.session).1 in
      Loops-Iterated r queue s (again (moved x t queue s)) x t
        (iterate-Iterated rtc local r s.session) (receive-first s.reading s.messages.queue)
        (λ f. rec (moved x t queue s) f (λ _. o)) (λ n. kept (moved x t queue s) n)
        (λ q. receive-drained rtc local codec s.reading s.messages.queue s.stdin s.session q)

  module _ {H R : Type 0} (debug_hangup : H → Text) (debug_media : CallMediaType → Text)
      (debug_reason : R → Text) where
    abbrev one : Turn H R → System rtc.World → System rtc.World
    one = go codec encode rtc local debug_hangup debug_media debug_reason

    abbrev all : List (Turn H R) → System rtc.World → System rtc.World
    all = go_on codec encode rtc local debug_hangup debug_media debug_reason

    turn-Kept : (t : Turn H R) (s : System rtc.World) → s.exit ≢ running → Kept rtc s (one t s)
    unfolding turn
    turn-Kept (polls b) s n = poll_turn-Kept s.exit b s n
    turn-Kept t s n =
        other-Kept codec encode rtc local debug_hangup debug_media debug_reason t s refl

    turn-polls :
        (b : Bool) (s : System rtc.World)
        → s.exit ≡ running
        → one (polls b) s ≡ poll_next rtc local b s
    unfolding turn poll_turn
    turn-polls b s e = ap (λ x. poll_turn rtc local x b s) e

    -- Once the loop has been left, nothing changes its part of the state.
    pub run-Kept :
        (turns : List (Turn H R)) (s : System rtc.World)
        → s.exit ≢ running
        → Kept rtc s (all turns s)
    unfolding run
    run-Kept [] s n = Kept-refl rtc s
    run-Kept (t ∷ turns) s n =
        let k = turn-Kept t s n in
        Kept-trans s (one t s) (all turns (one t s)) k
          (run-Kept turns (one t s) (λ e. n (sym k.exit ∙ e)))

    pub run-Loops :
        (turns : List (Turn H R)) (s : System rtc.World)
        → s.exit ≡ running
        → Holds s
        → Loops s (all turns s)
    unfolding run event_loop
    run-Loops [] s e h = record {
      iterations = [];
      rest = due codec s;
      same = (sym e, record { peer = refl; world = refl; calls = refl });
      first = refl;
      whole = λ _. refl;
      drained = λ q. cc e;
      hung = λ q. cc e;
    }
    run-Loops (polls b ∷ turns) s e h =
        subst (λ (u : System rtc.World). Loops s (all turns u)) (sym (turn-polls b s e))
          (poll_next-Loops b s (λ u. all turns u) e (h e) (λ u f k. run-Loops turns u f k)
            (λ u n. run-Kept turns u n))
    run-Loops (t ∷ turns) s e h =
        let k = other-Kept codec encode rtc local debug_hangup debug_media debug_reason t s refl in
        Loops-over s (one t s) (all turns (one t s)) k
          (other-Keeps codec encode rtc local debug_hangup debug_media debug_reason t s refl) (h e)
          (run-Loops turns (one t s) (k.exit ∙ e)
            (other-Holds codec encode rtc local debug_hangup debug_media debug_reason t s refl h))
