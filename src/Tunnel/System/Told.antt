-- ===== src/Tunnel/System/Told.antt =====
-- The way of RingRTC's events to stdout in an unending run of the process's threads.
use signal_call_tunnel.Base.{
  ℕ, zero, suc, ◌+◌, ◌-◌, ◌≤◌, ◌≡◌, sym, subst, ap, ◌∙◌, true, false, List, [], ◌∷◌, ◌++◌,
  append-nil, append_assoc, length, length-append, Text, arith,
}
use signal_call_tunnel.Platform.{CallMediaType, PlatformEvent}
use signal_call_tunnel.Control.{Codec}
use signal_call_tunnel.Tunnel.EventLoop.{Ringrtc, Local, running}
use signal_call_tunnel.Tunnel.Process.Turns.{Logs}
use signal_call_tunnel.Tunnel.System.{System, Turn, run}
use signal_call_tunnel.Tunnel.System.Steps.{go, go_on}
use signal_call_tunnel.Tunnel.System.Lines.{told}
use signal_call_tunnel.Tunnel.System.Spoken.{heard, heard_of, turn-Says, run-Spoke}
use signal_call_tunnel.Tunnel.System.Outgoing.{
  is_forwards, is_writes, is_failing, Grown, append-Grown, turn-Lives, turn-Grown, turn-waiting,
  forwards-waiting, turn-stdout, writes-told,
}
use signal_call_tunnel.Tunnel.System.Fair.{comes_to_zero, first_turns, run-snoc}

-- The forwarding thread and the writer are never left out for good, and writing succeeds.
pub record IsTelling {H R : Type 0} (schedule : ℕ → Turn H R) : Type 0 where
  pub forwards_on : (n : ℕ) → (m : ℕ) × (n ≤ m) × (is_forwards (schedule m) ≡ true)
  pub writes_on : (n : ℕ) → (m : ℕ) × (n ≤ m) × (is_writes (schedule m) ≡ true)
  pub succeeds : (n : ℕ) → is_failing (schedule n) ≡ false

-- Stdout has, behind what was written and what waited to be, a line for each event that waited to be
-- forwarded, in order, with error lines between.
pub record Told (encode : List ℕ → Text) {World : Type 0} (s t : System World) : Type 0 where
  pub more : List PlatformEvent
  pub added : List Text
  pub later : List Text
  pub logs : Logs encode running (s.events.queue ++ more) added
  pub written : t.stdout ≡ (told s ++ added) ++ later

module _ {H R : Type 0} (codec : Codec) (encode : List ℕ → Text) (rtc : Ringrtc) (local : Local)
    (debug_hangup : H → Text) (debug_media : CallMediaType → Text) (debug_reason : R → Text) where
  abbrev one : Turn H R → System rtc.World → System rtc.World
  one = go codec encode rtc local debug_hangup debug_media debug_reason

  abbrev all : List (Turn H R) → System rtc.World → System rtc.World
  all = go_on codec encode rtc local debug_hangup debug_media debug_reason

  abbrev heard_in : List (Turn H R) → List PlatformEvent
  heard_in = heard debug_hangup debug_media debug_reason

  heard-snoc :
      (turns : List (Turn H R)) (t : Turn H R)
      → heard_in (turns ++ t ∷ [])
        ≡ heard_in turns ++ heard_of debug_hangup debug_media debug_reason t
  heard-snoc [] t = append-nil (heard_of debug_hangup debug_media debug_reason t)
  heard-snoc (u ∷ turns) t =
      ap (λ c. heard_of debug_hangup debug_media debug_reason u ++ c) (heard-snoc turns t)
      ∙ sym (
          append_assoc (heard_of debug_hangup debug_media debug_reason u) (heard_in turns)
            (heard_of debug_hangup debug_media debug_reason t))

  module _ (schedule : ℕ → Turn H R) (telling : IsTelling schedule) (s : System rtc.World)
      (o : s.events.is_open ≡ true) (h : s.session.lines.is_open ≡ true) where
    abbrev at : ℕ → System rtc.World
    at k = all (first_turns schedule k) s

    at-suc : (k : ℕ) → at (suc k) ≡ one (schedule k) (at k)
    at-suc k =
        run-snoc codec encode rtc local debug_hangup debug_media debug_reason
          (first_turns schedule k) (schedule k) s

    events-open : (k : ℕ) → (at k).events.is_open ≡ true
    unfolding run
    events-open zero = o
    events-open (suc k) =
        subst (λ (u : System rtc.World). u.events.is_open ≡ true) (sym (at-suc k))
          (turn-Says codec encode rtc local debug_hangup debug_media debug_reason (schedule k)
            (at k) (events-open k)).open_still

    lives : (k : ℕ) → (at k).session.lines.is_open ≡ true
    unfolding run
    lives zero = h
    lives (suc k) =
        subst (λ (u : System rtc.World). u.session.lines.is_open ≡ true) (sym (at-suc k))
          (turn-Lives codec encode rtc local debug_hangup debug_media debug_reason (schedule k)
            (at k) (telling.succeeds k) (lives k))

    told-suc : (k : ℕ) → Grown (told (at k)) (told (at (suc k)))
    told-suc k =
        subst (λ (u : System rtc.World). Grown (told (at k)) (told u)) (sym (at-suc k))
          (turn-Grown codec encode rtc local debug_hangup debug_media debug_reason (schedule k)
            (at k) (events-open k)
            (subst (λ (u : System rtc.World). u.session.lines.is_open ≡ true) (at-suc k)
              (lives (suc k))))

    told-later : (d n : ℕ) → Grown (told (at n)) (told (at (d + n)))
    told-later zero n =
        let e : n ≡ 0 + n = omega arith in
        subst (λ k. Grown (told (at n)) (told (at k))) e ([], sym (append-nil (told (at n))))
    told-later (suc d) n =
        let e : suc (d + n) ≡ suc d + n = omega arith in
        let (a, p) = told-later d n in
        let (b, q) = told-suc (d + n) in
        subst (λ k. Grown (told (at n)) (told (at k))) e
          (a ++ b, q ∙ ap (λ c. c ++ b) p ∙ append_assoc (told (at n)) a b)

    told-from : (n m : ℕ) → n ≤ m → Grown (told (at n)) (told (at m))
    told-from n m le =
        let e : m - n + n ≡ m = omega arith in
        subst (λ k. Grown (told (at n)) (told (at k))) e (told-later (m - n) n)

    -- The events that waited in the beginning and still wait.
    abbrev waiting : ℕ → ℕ
    waiting k = length (at k).events.queue - length (heard_in (first_turns schedule k))

    heard-suc :
        (k : ℕ)
        → length (heard_in (first_turns schedule (suc k)))
          ≡ length (heard_in (first_turns schedule k))
            + length (heard_of debug_hangup debug_media debug_reason (schedule k))
    heard-suc k =
        ap (λ (c : List PlatformEvent). length c) (heard-snoc (first_turns schedule k) (schedule k))
        ∙ length-append (heard_in (first_turns schedule k))
            (heard_of debug_hangup debug_media debug_reason (schedule k))

    waiting_mono : (k : ℕ) → waiting (suc k) ≤ waiting k
    waiting_mono k =
        let e = ap (λ (u : System rtc.World). length u.events.queue) (at-suc k) in
        omega (
          arith,
          e,
          heard-suc k,
          turn-waiting codec encode rtc local debug_hangup debug_media debug_reason (schedule k)
              (at k) (events-open k),
        )

    waiting_drop : (k : ℕ) → is_forwards (schedule k) ≡ true → waiting (suc k) ≤ waiting k - 1
    waiting_drop k f =
        let e = ap (λ (u : System rtc.World). length u.events.queue) (at-suc k) in
        omega (
          arith,
          e,
          heard-suc k,
          forwards-waiting codec encode rtc local debug_hangup debug_media debug_reason (schedule k)
              (at k) f,
        )

    forwarded_all : (k : ℕ) × (waiting k ≡ 0)
    forwarded_all =
        let (k, _, z) =
          comes_to_zero (λ n. waiting n) 0 (λ n. is_forwards (schedule n) ≡ true)
            (λ n _. waiting_mono n) (λ n _ f. waiting_drop n f) telling.forwards_on (waiting 0) 0
            (omega arith) (omega arith) in
        (k, z)

    -- What is not on stdout of what has been told at one time.
    abbrev missing : ℕ → ℕ → ℕ
    missing n k = length (told (at n)) - length (at k).stdout

    missing_mono : (n k : ℕ) → missing n (suc k) ≤ missing n k
    missing_mono n k =
        let e = ap (λ (u : System rtc.World). length u.stdout) (at-suc k) in
        omega (
          arith,
          e,
          turn-stdout codec encode rtc local debug_hangup debug_media debug_reason (schedule k)
              (at k),
        )

    missing_drop :
        (n k : ℕ) → n ≤ k → is_writes (schedule k) ≡ true → missing n (suc k) ≤ missing n k - 1
    missing_drop n k le w =
        let e = ap (λ (u : System rtc.World). length u.stdout) (at-suc k) in
        let (more, g) = told-from n k le in
        let long : length (told (at n)) ≤ length (told (at k)) =
          omega (arith, ap (λ (c : List Text). length c) g, length-append (told (at n)) more) in
        omega (
          arith,
          e,
          writes-told codec encode rtc local debug_hangup debug_media debug_reason (schedule k)
              (at k) w (telling.succeeds k) (lives k) (length (told (at n))) long,
        )

    written_all : (n : ℕ) → (k : ℕ) × Grown (told (at n)) (at k).stdout
    written_all n =
        let (k, le, z) =
          comes_to_zero (λ m. missing n m) n (λ m. is_writes (schedule m) ≡ true)
            (λ m _. missing_mono n m) (λ m le w. missing_drop n m le w) telling.writes_on
            (missing n n) n (omega arith) (omega arith) in
        let (more, g) = told-from n k le in
        (
          k,
          append-Grown (told (at n)) more (at k).stdout (at k).session.lines.queue (sym g)
              (omega arith),
        )

  -- From every state in which the writer thread lives and the callbacks find the event channel open:
  -- if the forwarding thread and the writer move again and again, and writing to stdout succeeds, then
  -- after some moves, whatever the other threads and RingRTC do, stdout has all that waited to be
  -- written, and behind it a line for each event that waited to be forwarded, in order, with error
  -- lines between.
  pub run-Told :
      (schedule : ℕ → Turn H R) (s : System rtc.World)
      → IsTelling schedule
      → s.events.is_open ≡ true
      → s.session.lines.is_open ≡ true
      → (k : ℕ) × Told encode s (all (first_turns schedule k) s)
  run-Told schedule s telling o h =
      let (n, z) = forwarded_all schedule telling s o h in
      let (k, (later, w)) = written_all schedule telling s o h n in
      let turns = first_turns schedule n in
      let t = all turns s in
      let p = run-Spoke codec encode rtc local debug_hangup debug_media debug_reason turns s o in
      let (more, g) =
        append-Grown s.events.queue (heard_in turns) p.forwarded t.events.queue p.handed (
          omega (
            arith,
            ap (λ (c : List PlatformEvent). length c) p.handed,
            length-append s.events.queue (heard_in turns),
            length-append p.forwarded t.events.queue,
          )) in
      let all_told : told t ≡ told s ++ p.added =
        ap (λ c. t.stdout ++ c) (sym (p.whole (lives schedule telling s o h n))) ∙ sym p.written in
      (
        k,
        record {
          more = more;
          added = p.added;
          later = later;
          logs = subst (λ es. Logs encode running es p.added) g p.logs;
          written = w ∙ ap (λ c. c ++ later) all_told;
        },
      )
