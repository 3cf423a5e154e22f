-- ===== src/Tunnel/System/Outgoing.antt =====
-- What a move of a thread does to the events and lines that wait, while the writer thread lives.
use signal_call_tunnel.Base.{
  ℕ, ◌+◌, ◌-◌, ◌≤◌, ◌≡◌, refl, ap, ◌∙◌, inl, inr, Bool, true, false, ◌&&◌, not, List, [], ◌∷◌, ◌++◌,
  append-nil, length, length-append, Text, arith,
}
use signal_call_tunnel.Platform.{CallMediaType, PlatformEvent}
use signal_call_tunnel.Control.{Codec}
use signal_call_tunnel.Control.Threads.{send_line, send_event}
use signal_call_tunnel.Channel.{Channel, send}
use signal_call_tunnel.Tunnel.EventLoop.{Ringrtc, Local, Session, Exit, running}
use signal_call_tunnel.Tunnel.System.{
  System, Turn, reads, forwards, returns, polls, notified, writes, write_next, write_turn,
  forward_next, forward_turn, receive, poll_next, poll_turn, turn,
}
use signal_call_tunnel.Tunnel.System.Steps.{go}
use signal_call_tunnel.Tunnel.System.Lines.{
  told, read_turn-Quiet, return_turn-Quiet, iterate-IsLonger,
}
use signal_call_tunnel.Tunnel.System.Spoken.{heard_of, turn-Says}

abbrev pub is_forwards : {H R : Type 0} → Turn H R → Bool
is_forwards forwards = true
is_forwards _ = false

abbrev pub is_writes : {H R : Type 0} → Turn H R → Bool
is_writes (writes written flushed) = true
is_writes _ = false

-- A move in which writing to stdout or flushing it fails.
abbrev pub is_failing : {H R : Type 0} → Turn H R → Bool
is_failing (writes written flushed) = not (written && flushed)
is_failing _ = false

-- One list goes on with the other.
abbrev pub Grown {ℓ} : {A : Type ℓ} → List A → List A → Type ℓ
Grown {A = A} a b = (more : List A) × (b ≡ a ++ more)

-- The first part that is long enough goes on with the other.
pub append-Grown {ℓ} :
    {A : Type ℓ} (a b c d : List A) → a ++ b ≡ c ++ d → length a ≤ length c → Grown a c
append-Grown [] b c d e h = (c, refl)
append-Grown (x ∷ a) b [] d e h = absurd (omega arith)
append-Grown (x ∷ a) b (y ∷ c) d e h =
    let same : x ≡ y = cc e in
    let rest : a ++ b ≡ c ++ d = cc e in
    let (more, g) = append-Grown a b c d rest (omega arith) in (more, cc (same, g))

open-send_line : (l : Text) (c : Channel Text) → c.is_open ≡ true → (send_line l c).is_open ≡ true
unfolding send_line send
open-send_line l c h = ground arith

module _ {H R : Type 0} (codec : Codec) (encode : List ℕ → Text) (rtc : Ringrtc) (local : Local)
    (debug_hangup : H → Text) (debug_media : CallMediaType → Text) (debug_reason : R → Text) where
  abbrev one : Turn H R → System rtc.World → System rtc.World
  one = go codec encode rtc local debug_hangup debug_media debug_reason

  abbrev heard_in : Turn H R → List PlatformEvent
  heard_in = heard_of debug_hangup debug_media debug_reason

  abbrev Lives : System rtc.World → Type 0
  Lives s = s.session.lines.is_open ≡ true

  forward_next-Lives :
      (queue : List PlatformEvent) (s : System rtc.World)
      → Lives s
      → Lives (forward_next encode queue s)
  unfolding forward_next send_event
  forward_next-Lives [] s h = h
  forward_next-Lives (e ∷ queue) s h = open-send_line _ s.session.lines h

  poll_next-Lives : (b : Bool) (s : System rtc.World) → Lives s → Lives (poll_next rtc local b s)
  unfolding poll_next
  poll_next-Lives true s h = h
  poll_next-Lives false s h =
      elim (iterate-IsLonger encode rtc local (receive s.reading s.messages.queue).0 s.session) [
        | inl same ↦ ap (λ (c : Channel Text). c.is_open) same ∙ h
        | inr (what, e, longer) ↦
            ap (λ (c : Channel Text). c.is_open) longer ∙ open-send_line _ s.session.lines h
      ]

  poll_turn-Lives :
      (x : Exit) (b : Bool) (s : System rtc.World) → Lives s → Lives (poll_turn rtc local x b s)
  unfolding poll_turn
  poll_turn-Lives running b s h = poll_next-Lives b s h
  poll_turn-Lives x b s h = h

  write_next-Lives :
      (queue : List Text) (s : System rtc.World) → Lives s → Lives (write_next true true queue s)
  unfolding write_next
  write_next-Lives [] s h = h
  write_next-Lives (l ∷ queue) s h = refl

  -- The writer thread lives on, unless writing fails.
  pub turn-Lives :
      (t : Turn H R) (s : System rtc.World) → is_failing t ≡ false → Lives s → Lives (one t s)
  unfolding turn forward_turn write_turn
  turn-Lives reads s f h =
      ap (λ (u : Session rtc.World). u.lines.is_open) (read_turn-Quiet codec s.reading s).session
      ∙ h
  turn-Lives returns s f h =
      ap (λ (u : Session rtc.World). u.lines.is_open) (return_turn-Quiet s.exit s).session ∙ h
  turn-Lives forwards s f h = forward_next-Lives s.events.queue s h
  turn-Lives (polls b) s f h = poll_turn-Lives s.exit b s h
  turn-Lives (notified n) s f h = h
  turn-Lives (writes true true) s f h = simp h (write_next-Lives s.session.lines.queue s h)
  turn-Lives (writes true false) s f h = cc
  turn-Lives (writes false flushed) s f h = cc

  -- While it does, what has been told is kept.
  pub turn-Grown :
      (t : Turn H R) (s : System rtc.World)
      → s.events.is_open ≡ true
      → Lives (one t s)
      → Grown (told s) (told (one t s))
  turn-Grown t s o h =
      let says = turn-Says codec encode rtc local debug_hangup debug_media debug_reason t s o in
      elim says.adds [ inl e ↦ (says.added, e) | inr (closed, lost) ↦ cc ]

  -- No more events wait than waited before or have come.
  pub turn-waiting :
      (t : Turn H R) (s : System rtc.World)
      → s.events.is_open ≡ true
      → length (one t s).events.queue ≤ length s.events.queue + length (heard_in t)
  turn-waiting t s o =
      let says = turn-Says codec encode rtc local debug_hangup debug_media debug_reason t s o in
      omega (
        arith,
        ap (λ (c : List PlatformEvent). length c) says.handed,
        length-append s.events.queue (heard_in t),
        length-append says.forwarded (one t s).events.queue,
      )

  forward_next-waiting :
      (queue : List PlatformEvent) (s : System rtc.World)
      → s.events.queue ≡ queue
      → length (forward_next encode queue s).events.queue ≤ length queue - 1
  unfolding forward_next
  forward_next-waiting [] s e = rw e (omega arith)
  forward_next-waiting (x ∷ queue) s e = omega arith

  pub forwards-waiting :
      (t : Turn H R) (s : System rtc.World)
      → is_forwards t ≡ true
      → length (one t s).events.queue ≤ length s.events.queue - 1
  unfolding turn forward_turn
  forwards-waiting forwards s h = forward_next-waiting s.events.queue s refl
  forwards-waiting reads s h = cc
  forwards-waiting returns s h = cc
  forwards-waiting (polls b) s h = cc
  forwards-waiting (notified n) s h = cc
  forwards-waiting (writes written flushed) s h = cc

  poll_turn-stdout :
      (x : Exit) (b : Bool) (s : System rtc.World) → (poll_turn rtc local x b s).stdout ≡ s.stdout
  unfolding poll_turn poll_next
  poll_turn-stdout running true s = refl
  poll_turn-stdout running false s = refl
  poll_turn-stdout x b s = refl

  forward_next-stdout :
      (queue : List PlatformEvent) (s : System rtc.World)
      → (forward_next encode queue s).stdout ≡ s.stdout
  unfolding forward_next
  forward_next-stdout [] s = refl
  forward_next-stdout (e ∷ queue) s = refl

  write_next-stdout :
      (written flushed : Bool) (queue : List Text) (s : System rtc.World)
      → length s.stdout ≤ length (write_next written flushed queue s).stdout
  unfolding write_next
  write_next-stdout written flushed [] s = omega arith
  write_next-stdout true flushed (l ∷ queue) s = omega (arith, length-append s.stdout (l ∷ []))
  write_next-stdout false flushed (l ∷ queue) s = omega arith

  -- What is on stdout stays there.
  pub turn-stdout :
      (t : Turn H R) (s : System rtc.World) → length s.stdout ≤ length (one t s).stdout
  unfolding turn forward_turn write_turn
  turn-stdout reads s =
      let e = (read_turn-Quiet codec s.reading s).stdout in
      omega (arith, ap (λ (o : List Text). length o) e)
  turn-stdout returns s =
      let e = (return_turn-Quiet s.exit s).stdout in
      omega (arith, ap (λ (o : List Text). length o) e)
  turn-stdout forwards s =
      omega (arith, ap (λ (o : List Text). length o) (forward_next-stdout s.events.queue s))
  turn-stdout (polls b) s =
      omega (arith, ap (λ (o : List Text). length o) (poll_turn-stdout s.exit b s))
  turn-stdout (notified n) s = omega arith
  turn-stdout (writes written flushed) s =
      ground (arith, write_next-stdout written flushed s.session.lines.queue s)

  write_next-told :
      (queue : List Text) (s : System rtc.World)
      → s.session.lines.queue ≡ queue
      → (n : ℕ) → n ≤ length (told s)
      → n - length (write_next true true queue s).stdout ≤ n - length s.stdout - 1
  unfolding write_next
  write_next-told [] s e n h =
      let all : length (told s) ≡ length s.stdout =
        ap (λ q. length (s.stdout ++ q)) e
        ∙ ap (λ (o : List Text). length o) (append-nil s.stdout) in
      omega arith
  write_next-told (l ∷ queue) s e n h = omega (arith, length-append s.stdout (l ∷ []))

  -- When the writer moves it comes nearer to what has been told.
  pub writes-told :
      (t : Turn H R) (s : System rtc.World)
      → is_writes t ≡ true
      → is_failing t ≡ false
      → Lives s
      → (n : ℕ) → n ≤ length (told s)
      → n - length (one t s).stdout ≤ n - length s.stdout - 1
  unfolding turn write_turn
  writes-told (writes true true) s w f h n k =
      simp h (write_next-told s.session.lines.queue s refl n k)
  writes-told (writes true false) s w f h n k = cc
  writes-told (writes false flushed) s w f h n k = cc
  writes-told reads s w f h n k = cc
  writes-told returns s w f h n k = cc
  writes-told forwards s w f h n k = cc
  writes-told (polls b) s w f h n k = cc
  writes-told (notified m) s w f h n k = cc
