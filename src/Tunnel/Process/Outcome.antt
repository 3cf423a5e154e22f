-- ===== src/Tunnel/Process/Outcome.antt =====
-- What a run of `main` in main.rs comes to.
use signal_call_tunnel.Base.{
  ℕ, ◌≡◌, refl, sym, subst, ap, ◌∙◌, ◌⊎◌, inl, inr, true, false, List, [], ◌∷◌, ◌++◌, map, Option,
  none, some, Text, codes, Option-cases,
}
use signal_call_tunnel.Channel.{Channel, channel, send}
use signal_call_tunnel.Json.{Json}
use signal_call_tunnel.Config.{Config, AudioMode, device, pipe, resolve_audio_mode}
use signal_call_tunnel.Control.{ControlMessage, Codec}
use signal_call_tunnel.Platform.{PlatformEvent}
use signal_call_tunnel.Control.Commands.{AllBytes}
use signal_call_tunnel.Control.Threads.{
  Input, line, read_lines, ControlChannel, ready_line, send_line, start_control_channel,
}
use signal_call_tunnel.Tunnel.EventLoop.{Ringrtc, Exit, session}
use signal_call_tunnel.Tunnel.EventLoop.Exits.{ending, event_loop-ending}
use signal_call_tunnel.Tunnel.EventLoop.Requests.{Routed}
use signal_call_tunnel.Tunnel.Inbound.{
  Receives, codec, AreCommands, sent-commands, event_loop-commands,
}
use signal_call_tunnel.Tunnel.Setup.{Host, Setup, failed, waiting, ready, setup}
use signal_call_tunnel.Tunnel.Setup.Ready.{
  IsPipeSetup, IsDeviceSetup, pair, setup-IsPipeSetup, setup-IsDeviceSetup,
}
use signal_call_tunnel.Tunnel.Process.{
  Turn, Move, polls, forwards, turns_of, config_unread, config_unparsed, setup_failed, undecided,
  left_loop, Process, read_config_line, drive, local_of, lines_of, after_setup, main,
}
use signal_call_tunnel.Tunnel.Process.Turns.{polls_of, events_of, Logs, drive-SameEnd, drive-Logged}

-- The channel was started for an input and an output, and nothing has been queued behind its ready line.
abbrev pub IsStart : ControlChannel → Type 0
IsStart control = (input : Text) × (output : Text) × (control ≡ start_control_channel input output)

abbrev IsStarted : Setup → Type 0
IsStarted (failed stage none) = Unit
IsStarted (failed stage (some control)) = IsStart control
IsStarted (waiting control) = IsStart control
IsStarted (ready selected control) = IsStart control

module _ (host : Host) (config : Config) where
  pipe-IsStarted : (s : Setup) → IsPipeSetup host config s → IsStarted s
  pipe-IsStarted (failed stage none) h = tt
  pipe-IsStarted (failed stage (some control)) h = (_, _, h.1)
  pipe-IsStarted (waiting control) h = elim h [ ]
  pipe-IsStarted (ready selected control) h = (_, _, h.2)

  device-IsStarted :
      (p : Option host.Pair) (s : Setup) → IsDeviceSetup host config p s → IsStarted s
  device-IsStarted none s h = subst IsStarted (sym h) tt
  device-IsStarted (some p) (failed stage none) h = tt
  device-IsStarted (some p) (failed stage (some control)) h = (_, _, h.1)
  device-IsStarted (some p) (waiting control) h = (_, _, h.1)
  device-IsStarted (some p) (ready selected control) h = (_, _, h.2)

  mode-cases : (m : AudioMode) → (m ≡ pipe) ⊎ (m ≡ device)
  mode-cases pipe = inl refl
  mode-cases device = inr refl

  setup-IsStarted : IsStarted (setup host config)
  setup-IsStarted = elim (mode-cases (resolve_audio_mode host.env_mode config)) [
    | inl e ↦ pipe-IsStarted (setup host config) (setup-IsPipeSetup host config e)
    | inr e ↦
        device-IsStarted (pair host config) (setup host config) (setup-IsDeviceSetup host config e)
  ]

-- The ready line, and `added` behind it, are queued.
abbrev pub IsReady : List Text → Option (Channel Text) → Type 0
IsReady added lines =
    (input : Text) × (output : Text) × (lines
      ≡ some (record { is_open = true; queue = ready_line input output ∷ added }))

IsStart-lines :
    (control : ControlChannel)
    → IsStart control
    → (input : Text) × (output : Text) × (control.lines
        ≡ record { is_open = true; queue = ready_line input output ∷ [] })
unfolding start_control_channel send_line send channel
IsStart-lines control (input, output, e) = (input, output, ap (λ (c : ControlChannel). c.lines) e)

-- The events that the forwarding thread is given.
abbrev pub events_in : List Move → List PlatformEvent
events_in [] = []
events_in (forwards e ∷ moves) = e ∷ events_in moves
events_in (polls terminate arrived ∷ moves) = events_in moves

events_of-turns_of :
    (queue : List ControlMessage) (moves : List Move)
    → events_of (turns_of queue moves) ≡ events_in moves
unfolding turns_of
events_of-turns_of queue [] = refl
events_of-turns_of queue (forwards e ∷ moves) = ap (λ es. e ∷ es) (events_of-turns_of queue moves)
events_of-turns_of queue (polls terminate false ∷ moves) = events_of-turns_of queue moves
events_of-turns_of (m ∷ queue) (polls terminate true ∷ moves) = events_of-turns_of queue moves
events_of-turns_of [] (polls terminate true ∷ moves) = events_of-turns_of [] moves

module _ (encode : List ℕ → Text) (rtc : Ringrtc) where
  -- By what the setup comes to: where it fails or waits, no request is made, and the ready line is all
  -- that is queued, if the control channel was started; in the loop, the lines are those of the events.
  abbrev pub IsAfter : Setup → List PlatformEvent → Process → Type 0
  IsAfter (failed stage none) events p =
      (p.end ≡ setup_failed stage) × (p.lines ≡ none) × (p.calls ≡ [])
  IsAfter (failed stage (some control)) events p =
      (p.end ≡ setup_failed stage) × IsReady [] p.lines × (p.calls ≡ [])
  IsAfter (waiting control) events p = (p.end ≡ undecided) × IsReady [] p.lines × (p.calls ≡ [])
  IsAfter (ready selected control) events p =
      (x : Exit) × (added : List Text) × (p.end ≡ left_loop x)
      × IsReady added p.lines
      × Logs encode x events added

  -- By what is on stdin: a line that cannot be read or parsed ends the run before anything is queued.
  abbrev IsParsedOutcome : Host → List Move → Option Config → Process → Type 0
  IsParsedOutcome host moves none p = (p.end ≡ config_unparsed) × (p.lines ≡ none) × (p.calls ≡ [])
  IsParsedOutcome host moves (some config) p = IsAfter (setup host config) (events_in moves) p

  abbrev pub IsOutcome : Host → (Text → Option Config) → List Move → List Input → Process → Type 0
  IsOutcome host from_str moves [] p = IsParsedOutcome host moves (from_str []) p
  IsOutcome host from_str moves (line l ∷ rest) p =
      IsParsedOutcome host moves (from_str (l ++ b'\n' ∷ [])) p
  IsOutcome host from_str moves (Input.failed ∷ rest) p =
      (p.end ≡ config_unread) × (p.lines ≡ none) × (p.calls ≡ [])
  IsOutcome host from_str moves (Input.receiver_dropped ∷ rest) p =
      IsOutcome host from_str moves rest p

  after_setup-IsAfter :
      (w : rtc.World) (turns : List Turn) (config : Config) (s : Setup)
      → IsStarted s
      → IsAfter s (events_of turns) (after_setup encode rtc w turns config s)
  unfolding after_setup lines_of session
  after_setup-IsAfter w turns config (failed stage none) h = (refl, refl, refl)
  after_setup-IsAfter w turns config (failed stage (some control)) h =
      let (input, output, e) = IsStart-lines control h in
      (refl, (input, output, ap (λ c. some c) e), refl)
  after_setup-IsAfter w turns config (waiting control) h =
      let (input, output, e) = IsStart-lines control h in
      (refl, (input, output, ap (λ c. some c) e), refl)
  after_setup-IsAfter w turns config (ready selected control) h =
      let (input, output, e) = IsStart-lines control h in
      let g =
        drive-Logged encode rtc (local_of config) turns (ready_line input output ∷ [])
          (session w control.lines) e in
      (_, g.added, refl, (input, output, ap (λ c. some c) g.lines), g.logs)

  ready-IsAfter :
      (codec : Codec) (host : Host) (w : rtc.World) (moves : List Move) (config : Config)
      (rest : List Input)
      → IsAfter (setup host config) (events_in moves) (
          after_setup encode rtc w
            (turns_of (read_lines codec rest channel).queue moves)
            config
            (setup host config))
  ready-IsAfter codec host w moves config rest =
      let turns : List Turn = turns_of (read_lines codec rest channel).queue moves in
      subst
        (λ es.
          IsAfter (setup host config) es
            (after_setup encode rtc w turns config (setup host config)))
        (events_of-turns_of (read_lines codec rest channel).queue moves)
        (after_setup-IsAfter w turns config (setup host config) (setup-IsStarted host config))

  -- However a run goes: where the configuration cannot be read or parsed, no line is queued and no
  -- request made; where the setup fails or waits for devices, the run ends or stays there, no request
  -- is made, and the ready line is queued if the control channel was started, and nothing else; where
  -- the setup succeeds, the loop is entered, the ready line is queued first and behind it a line for
  -- each forwarded event, in order, with error lines between, where events are left over only if the
  -- loop has ended.
  pub main-IsOutcome :
      (codec : Codec) (host : Host) (from_str : Text → Option Config) (w : rtc.World)
      (moves : List Move) (stdin : List Input)
      → IsOutcome host from_str moves stdin (main encode rtc codec host from_str w moves stdin)
  unfolding main read_config_line
  main-IsOutcome codec host from_str w moves [] = elim (Option-cases (from_str [])) [
    | inl f ↦ rw (f, main) (refl, refl, refl)
    | inr (config, f) ↦ rw (f, main) (ready-IsAfter codec host w moves config [])
  ]
  main-IsOutcome codec host from_str w moves (line l ∷ rest) =
      elim (Option-cases (from_str (l ++ b'\n' ∷ []))) [
        | inl f ↦ rw (f, main) (refl, refl, refl)
        | inr (config, f) ↦ rw (f, main) (ready-IsAfter codec host w moves config rest)
      ]
  main-IsOutcome codec host from_str w moves (Input.failed ∷ rest) = (refl, refl, refl)
  main-IsOutcome codec host from_str w moves (Input.receiver_dropped ∷ rest) =
      main-IsOutcome codec host from_str w moves rest

-- What `main` does for the commands `ms`, in a run by `moves` that has come to the loop, with `turns` of
-- its two threads.
pub record Served (encode : List ℕ → Text) (rtc : Ringrtc) (config : Config) (w : rtc.World)
    (moves : List Move) (turns : List Turn) (ms : List ControlMessage) (p : Process) : Type 0 where
  pub exit : Exit
  pub ended : p.end ≡ left_loop exit
  pub reason : exit ≡ ending (polls_of turns)
  pub routed : Routed rtc (local_of config) (codes "remote") w ms p.calls
  pub added : List Text
  pub queued : IsReady added p.lines
  pub logs : Logs encode exit (events_in moves) added

module _ (from_str : Text → Option Json) (encode : List ℕ → Text) (decode : Text → Option (List ℕ))
    (decode-encode : (bytes : List ℕ) → AllBytes bytes → decode (encode bytes) ≡ some bytes) where
  -- If base64 decodes what it encodes, the first line of stdin is a configuration with which the setup
  -- succeeds, each line behind it is not blank and holds the document of a command whose numbers and
  -- blobs are in range, and the loop goes on without SIGTERM until it finds the channel closed behind the
  -- messages that the reader thread sends for these lines: then, in whatever order the loop and the
  -- forwarding thread move, and however often the loop waits in vain, the requests made are those of the
  -- commands, in order, each for the peer named last ("remote" at first), up to the first hangup, but
  -- for those, and only those, whose blob does not parse or whose tracks cannot be created in the state
  -- of RingRTC that the requests before have led to; the loop ends for the first reason there is; and
  -- the ready line is queued first, then the lines of the events, in order, with error lines between.
  pub main-Served :
      (rtc : Ringrtc) (host : Host) (parse_config : Text → Option Config) (w : rtc.World)
      (moves : List Move) (l : Text) (ls : List Text) (ms : List ControlMessage) (config : Config)
      (selected : Option (ℕ × ℕ)) (control : ControlChannel)
      → parse_config (l ++ b'\n' ∷ []) ≡ some config
      → setup host config ≡ ready selected control
      → AreCommands from_str encode decode decode-encode ls ms
      → Receives ms (polls_of (turns_of ms moves))
      → Served encode rtc config w moves (turns_of ms moves) ms (
          main encode rtc
            (codec from_str encode decode decode-encode)
            host
            parse_config
            w
            moves
            (line l ∷ map line ls))
  unfolding main after_setup read_config_line session
  main-Served rtc host parse_config w moves l ls ms config selected control hp hs hc hr =
      let started : IsStart control = subst IsStarted hs (setup-IsStarted host config) in
      let (input, output, e) = IsStart-lines control started in
      let s = session w control.lines in
      let local = local_of config in
      let turns : List Turn = turns_of ms moves in
      let logged = drive-Logged encode rtc local turns (ready_line input output ∷ []) s e in
      let same =
        drive-SameEnd encode rtc local turns s s
          (record { peer = refl; world = refl; calls = refl }) in
      let sent = sent-commands from_str encode decode decode-encode ls ms hc in
      let routes =
        event_loop-commands from_str encode decode decode-encode rtc local ls ms (polls_of turns) s
          hc (subst (λ q. Receives q (polls_of turns)) (sym sent) hr) in
      rw (hp, hs, sent)
        (record {
          exit = (drive encode rtc local turns s).0;
          ended = refl;
          reason = same.0 ∙ (event_loop-ending rtc local (polls_of turns) [] s).0;
          routed =
              subst (Routed rtc local (codes "remote") w ms) (sym (same.1.calls ∙ routes.added))
                routes.routed;
          added = logged.added;
          queued = (input, output, ap (λ c. some c) logged.lines);
          logs =
              subst (λ es. Logs encode (drive encode rtc local turns s).0 es logged.added)
                (events_of-turns_of ms moves) logged.logs;
        })
