-- ===== src/Pipe/Clock/Stream.antt =====
-- What the peer of `clock_loop` in pipe_audio.rs gets over the rounds of a connection.
use signal_call_tunnel.Base.{
  ℕ, ◌≡◌, sym, subst, ap, ◌∙◌, List, [], ◌∷◌, ◌++◌, append-nil, append_assoc, Option, some,
  unwrap_or,
}
use signal_call_tunnel.Pipe.Buffer.Thins.{Thins, Thins-refl, Thins-DropsPairs}
use signal_call_tunnel.Pipe.Socket.{Socket, IsStream}
use signal_call_tunnel.Pipe.Clock.{Clock, Round, Emitted, tick}
use signal_call_tunnel.Pipe.Clock.Phases.{IsSound}
use signal_call_tunnel.Pipe.Clock.Carried.{IsMoved, played, tick-Carried}
use signal_call_tunnel.Pipe.Clock.Rounds.{IsRound, tick-Ticked}

module _ (net : Socket) (laws : IsStream net) (fuel : ℕ) where
  -- Rounds after each of which there is still a connection.
  pub data Talks (c : Clock net) : List (Round net) → List Emitted → Clock net → Type 0 where
    no_round : Talks c [] [] c
    went_on :
        {rs : List (Round net)} {es : List Emitted} {d d' : Clock net} (r : Round net) (e : Emitted)
        (q : net.Peer)
        → Talks c rs es d
        → IsRound net laws fuel r
        → tick fuel r d ≡ some (d', e)
        → d'.stream ≡ some q
        → Talks c (rs ++ r ∷ []) (es ++ e ∷ []) d'

  -- The samples of the rounds that play, encoded.
  abbrev pub all_played : List (Round net) → List ℕ
  all_played [] = []
  all_played (r ∷ rs) = played net laws fuel r.playing r.play ++ all_played rs

  all_played-append :
      (rs : List (Round net)) (r : Round net)
      → all_played (rs ++ r ∷ []) ≡ all_played rs ++ played net laws fuel r.playing r.play
  all_played-append [] r = append-nil _
  all_played-append (s ∷ rs) r =
      ap (λ l. played net laws fuel s.playing s.play ++ l) (all_played-append rs r)
      ∙ sym (append_assoc (played net laws fuel s.playing s.play) (all_played rs) _)

  -- After the rounds: a sound state whose connection has got `whole`, thinned.
  pub record Spoken (whole : List ℕ) (d : Clock net) : Type 0 where
    pub peer : net.Peer
    pub connected : d.stream ≡ some peer
    pub sound : IsSound net fuel d
    pub spoken : Thins (net.sent peer ++ d.playout_buf) whole

  Spoken-tick :
      (whole : List ℕ) (d d' : Clock net) (r : Round net) (e : Emitted) (q : net.Peer)
      → IsRound net laws fuel r
      → tick fuel r d ≡ some (d', e)
      → d'.stream ≡ some q
      → Spoken whole d
      → Spoken (whole ++ played net laws fuel r.playing r.play) d'
  Spoken-tick whole d d' r e q h t s spoken =
      let k =
        tick-Carried net laws fuel r d spoken.peer h.0 spoken.connected
          spoken.sound.capture_bound in
      let u = tick-Ticked net laws fuel r d h spoken.sound in
      let same : k.clock ≡ d' =
        ap (λ (o : Option (Clock net × Emitted)). (unwrap_or o (d', e)).0) (sym k.returned ∙ t) in
      let same' : u.clock ≡ d' =
        ap (λ (o : Option (Clock net × Emitted)). (unwrap_or o (d', e)).0) (sym u.returned ∙ t) in
      let moved : IsMoved net laws fuel spoken.peer k.queued k.fresh (some q) d'.playout_buf =
        subst (λ o. IsMoved net laws fuel spoken.peer k.queued k.fresh o d'.playout_buf) s
          (subst
            (λ (f : Clock net).
              IsMoved net laws fuel spoken.peer k.queued k.fresh f.stream f.playout_buf)
            same k.moved) in
      record {
        peer = q;
        connected = s;
        sound = subst (IsSound net fuel) same' u.sound;
        spoken =
            subst (λ b. Thins b (whole ++ played net laws fuel r.playing r.play)) (sym moved.0)
              (Thins-DropsPairs _ _ _ _ _ spoken.spoken k.queue);
      }

  -- Over a socket that keeps to its documentation, with more fuel than bytes ever wait in it, after
  -- any rounds over one connection from a sound state: the bytes sent, followed by those still
  -- queued, are what was sent and queued before followed by the encoded samples of every round that
  -- played, without some pairs of neighbouring bytes, and in order. The state is sound.
  pub Talks-Spoken :
      (c : Clock net) (p : net.Peer) (rs : List (Round net)) (es : List Emitted) (d : Clock net)
      → c.stream ≡ some p
      → IsSound net fuel c
      → Talks c rs es d
      → Spoken ((net.sent p ++ c.playout_buf) ++ all_played rs) d
  Talks-Spoken c p _ _ _ e s no_round = record {
    peer = p;
    connected = e;
    sound = s;
    spoken = subst (Thins (net.sent p ++ c.playout_buf)) (sym (append-nil _)) (Thins-refl _);
  }
  Talks-Spoken c p _ _ d' e s (went_on {rs} {es} {d} r em q t h k g) =
      subst (λ w. Spoken w d')
        (append_assoc (net.sent p ++ c.playout_buf) (all_played rs) _
          ∙ ap (λ l. (net.sent p ++ c.playout_buf) ++ l) (sym (all_played-append rs r)))
        (Spoken-tick _ d d' r em q h k g (Talks-Spoken c p rs es d e s t))
