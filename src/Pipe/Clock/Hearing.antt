-- ===== src/Pipe/Clock/Hearing.antt =====
-- What WebRTC gets from `clock_loop` in pipe_audio.rs over the rounds of a connection.
use signal_call_tunnel.Base.{
  ℕ, ◌*◌, ◌%◌, ◌≤◌, arith, length, length-take, length-append, ◌≡◌, refl, sym, subst, ap, ap₂, ◌∙◌,
  Bool, true, false, ◌&&◌, List, [], ◌∷◌, ◌++◌, append-nil, append_assoc, map, Option, none, some,
  unwrap_or, take, take-append-drop,
}
use signal_call_tunnel.Pipe.Buffer.Thins.{Thins, done, Thins-DropsPairs}
use signal_call_tunnel.Pipe.Buffer.Window.{available, window_of, window_of-take}
use signal_call_tunnel.Pipe.Pcm.{webrtc_window}
use signal_call_tunnel.Pipe.Socket.{Socket, IsStream}
use signal_call_tunnel.Pipe.Clock.{Clock, Round, Emitted, max_buffered, Pushed, push_of, tick}
use signal_call_tunnel.Pipe.Clock.Phases.{IsSound, window_pushed}
use signal_call_tunnel.Pipe.Clock.Carried.{IsMoved, unheard, tick-Carried}
use signal_call_tunnel.Pipe.Clock.Rounds.{IsRound, tick-Ticked}
use signal_call_tunnel.Pipe.Clock.Stream.{Talks, no_round, went_on}

-- All bytes of some blocks.
abbrev pub joined : List (List ℕ) → List ℕ
joined [] = []
joined (b ∷ bs) = b ++ joined bs

-- The windows that WebRTC was handed.
abbrev pub pushes_of : Option Pushed → List Pushed
pushes_of none = []
pushes_of (some w) = w ∷ []

abbrev pub pushes : List Emitted → List Pushed
pushes [] = []
pushes (e ∷ es) = pushes_of e.pushed ++ pushes es

pushes-append :
    (es : List Emitted) (e : Emitted) → pushes (es ++ e ∷ []) ≡ pushes es ++ pushes_of e.pushed
pushes-append [] e = append-nil (pushes_of e.pushed)
pushes-append (d ∷ es) e =
    ap (λ l. pushes_of d.pushed ++ l) (pushes-append es e)
    ∙ sym (append_assoc (pushes_of d.pushed) (pushes es) (pushes_of e.pushed))

-- A window of the samples of a block, padded with silence.
abbrev pub played_block : List ℕ → Pushed
played_block block = push_of (window_of block)

-- Blocks that are whole in their windows: whole samples, and not more of them than a window has.
abbrev pub AllFit : List (List ℕ) → Type 0
AllFit [] = Unit
AllFit (b ∷ bs) = ((length b % 2 ≡ 0) × (length b ≤ webrtc_window * 2)) × AllFit bs

AllFit-append : (bs cs : List (List ℕ)) → AllFit bs → AllFit cs → AllFit (bs ++ cs)
AllFit-append [] cs h k = k
AllFit-append (b ∷ bs) cs h k = (h.0, AllFit-append bs cs h.1 k)

-- The block of a round, if a window is due.
abbrev block_of : Bool → List ℕ → List (List ℕ)
block_of false heard = []
block_of true heard = take (available heard * 2) heard ∷ []

block_of-AllFit : (go : Bool) (heard : List ℕ) → AllFit (block_of go heard)
block_of-AllFit false heard = tt
block_of-AllFit true heard =
    let e = length-take (available heard * 2) heard in ((omega (arith, e), omega (arith, e)), tt)

pushes_of-block :
    (go : Bool) (heard : List ℕ)
    → pushes_of (window_pushed go heard) ≡ map played_block (block_of go heard)
pushes_of-block false heard = refl
pushes_of-block true heard = ap (λ w. push_of w ∷ []) (sym (window_of-take heard))

map-append {ℓ κ} :
    {A : Type ℓ} {B : Type κ} (f : A → B) (xs ys : List A) → map f (xs ++ ys) ≡ map f xs ++ map f ys
map-append f [] ys = refl
map-append f (x ∷ xs) ys = ap (λ l. f x ∷ l) (map-append f xs ys)

joined-append_blocks : (bs cs : List (List ℕ)) → joined (bs ++ cs) ≡ joined bs ++ joined cs
joined-append_blocks [] cs = refl
joined-append_blocks (b ∷ bs) cs =
    ap (λ l. b ++ l) (joined-append_blocks bs cs) ∙ sym (append_assoc b (joined bs) (joined cs))

module _ (net : Socket) (laws : IsStream net) (fuel : ℕ) where
  block-unheard :
      (go : Bool) (heard : List ℕ)
      → joined (block_of go heard) ++ unheard net laws fuel go heard ≡ heard
  block-unheard false heard = refl
  block-unheard true heard = rw append-nil (take-append-drop (available heard * 2) heard)

  -- After the rounds: a sound state, and blocks of bytes that WebRTC got as windows, one each.
  pub record Heard (es : List Emitted) (d : Clock net) : Type 0 where
    pub peer : net.Peer
    pub connected : d.stream ≡ some peer
    pub sound : IsSound net fuel d
    pub blocks : List (List ℕ)
    pub delivered : pushes es ≡ map played_block blocks
    pub fit : AllFit blocks
    pub heard : Thins (joined blocks ++ d.capture_buf) (net.received peer)
    pub spare :
        length (net.received peer) ≤ max_buffered
        → joined blocks ++ d.capture_buf ≡ net.received peer

  -- The bytes that are delivered and kept after a round.
  heard-blocks :
      (go : Bool) (blocks : List (List ℕ)) (heard : List ℕ)
      → joined (blocks ++ block_of go heard) ++ unheard net laws fuel go heard
        ≡ joined blocks ++ heard
  heard-blocks go blocks heard =
      ap (λ l. l ++ unheard net laws fuel go heard)
        (joined-append_blocks blocks (block_of go heard))
      ∙ append_assoc (joined blocks) (joined (block_of go heard)) _
      ∙ ap (λ l. joined blocks ++ l) (block-unheard go heard)

  Heard-tick :
      (es : List Emitted) (d d' : Clock net) (r : Round net) (e : Emitted) (q : net.Peer)
      → IsRound net laws fuel r
      → tick fuel r d ≡ some (d', e)
      → d'.stream ≡ some q
      → Heard es d
      → Heard (es ++ e ∷ []) d'
  Heard-tick es d d' r e q h t s was =
      let k = tick-Carried net laws fuel r d was.peer h.0 was.connected was.sound.capture_bound in
      let u = tick-Ticked net laws fuel r d h was.sound in
      let go = r.recording && r.send_to_webrtc in
      let same : (k.clock, k.emitted) ≡ (d', e) =
        ap (λ (o : Option (Clock net × Emitted)). unwrap_or o (d', e)) (sym k.returned ∙ t) in
      let same' : u.clock ≡ d' =
        ap (λ (o : Option (Clock net × Emitted)). (unwrap_or o (d', e)).0) (sym u.returned ∙ t) in
      let moved : IsMoved net laws fuel was.peer k.queued k.fresh (some q) d'.playout_buf =
        subst (λ o. IsMoved net laws fuel was.peer k.queued k.fresh o d'.playout_buf) s
          (subst
            (λ (f : Clock net × Emitted).
              IsMoved net laws fuel was.peer k.queued k.fresh f.0.stream f.0.playout_buf)
            same k.moved) in
      let pushed : e.pushed ≡ window_pushed go k.heard =
        ap (λ (f : Clock net × Emitted). f.1.pushed) (sym same) ∙ k.pushed in
      let rest : d'.capture_buf ≡ unheard net laws fuel go k.heard =
        ap (λ (f : Clock net × Emitted). f.0.capture_buf) (sym same) ∙ k.rest in
      record {
        peer = q;
        connected = s;
        sound = subst (IsSound net fuel) same' u.sound;
        blocks = was.blocks ++ block_of go k.heard;
        delivered =
            pushes-append es e
            ∙ ap₂ (λ (l m : List Pushed). l ++ m) was.delivered
                (ap pushes_of pushed ∙ pushes_of-block go k.heard)
            ∙ sym (map-append played_block was.blocks (block_of go k.heard));
        fit = AllFit-append was.blocks (block_of go k.heard) was.fit (block_of-AllFit go k.heard);
        heard =
            subst (λ w. Thins (joined (was.blocks ++ block_of go k.heard) ++ d'.capture_buf) w)
              (sym moved.1)
              (subst (λ w. Thins w (net.received was.peer ++ k.fresh))
                (sym (
                  ap (λ l. joined (was.blocks ++ block_of go k.heard) ++ l) rest
                  ∙ heard-blocks go was.blocks k.heard))
                (Thins-DropsPairs _ _ _ _ _ was.heard k.capture));
        spare = λ small.
            let old : length (net.received was.peer) ≤ max_buffered = omega (
              arith,
              small,
              ap (λ (l : List ℕ). length l) moved.1,
              length-append (net.received was.peer) k.fresh,
            ) in
            let before = was.spare old in
            let room : length (d.capture_buf ++ k.fresh) ≤ max_buffered = omega (
              arith,
              small,
              ap (λ (l : List ℕ). length l) moved.1,
              length-append (net.received was.peer) k.fresh,
              ap (λ (l : List ℕ). length l) before,
              length-append (joined was.blocks) d.capture_buf,
              length-append d.capture_buf k.fresh,
            ) in
            ap (λ l. joined (was.blocks ++ block_of go k.heard) ++ l) rest
            ∙ heard-blocks go was.blocks k.heard
            ∙ ap (λ l. joined was.blocks ++ l) (k.spare room)
            ∙ sym (append_assoc (joined was.blocks) d.capture_buf k.fresh)
            ∙ ap (λ l. l ++ k.fresh) before
            ∙ sym moved.1;
      }

  -- Over a socket that keeps to its documentation, with more fuel than bytes ever wait in it,
  -- after any rounds over one connection that began in a sound state with nothing received or
  -- captured: each window that WebRTC got has the samples of a block of bytes, all of them, since
  -- the block is of whole samples and not longer than a window, and silence behind them; and the
  -- blocks together, followed by the bytes still buffered, are all that was received over the
  -- connection without some pairs of neighbouring bytes, and all of it without exception as long
  -- as no more than `max_buffered` bytes were received.
  pub Talks-Heard :
      (c : Clock net) (p : net.Peer) (rs : List (Round net)) (es : List Emitted) (d : Clock net)
      → c.stream ≡ some p
      → IsSound net fuel c
      → c.capture_buf ≡ []
      → net.received p ≡ []
      → Talks net laws fuel c rs es d
      → Heard es d
  Talks-Heard c p _ _ _ e s b n no_round = record {
    peer = p;
    connected = e;
    sound = s;
    blocks = [];
    delivered = refl;
    fit = tt;
    heard = rw (b, n) done;
    spare = λ small. rw (b, n) refl;
  }
  Talks-Heard c p _ _ d' e s b n (went_on {rs} {es} {d} r em q t h k g) =
      Heard-tick es d d' r em q h k g (Talks-Heard c p rs es d e s b n t)
