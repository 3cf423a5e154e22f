-- ===== src/Tunnel/Setup/Ready.antt =====
-- What the parent is told by the setup in main.rs, and when.
use signal_call_tunnel.Base.{
  ℕ, ◌≡◌, ◌⊎◌, refl, inl, inr, true, false, List, [], ◌∷◌, ◌++◌, Option, none, some, Text, codes,
  arith, Option-cases,
}
use signal_call_tunnel.Config.{Config, device, pipe, resolve_audio_mode, pipe_socket_path}
use signal_call_tunnel.Control.Threads.{ControlChannel, start_control_channel}
use signal_call_tunnel.Tunnel.Setup.{
  Host, factory, pipe_device, virtual_devices, Setup, failed, waiting, ready, input_name,
  output_name, device_index, setup_device, setup_pipe, setup_mode, setup, wait_for_devices,
}

-- The index is the one by which the list is searched for the name.
abbrev pub IsChosen : Option (List Text) → Text → ℕ → Type 0
IsChosen none name i = ⊥
IsChosen (some devices) name i = device_index name devices ≡ some i

-- A list of devices that was got, and is not empty.
abbrev pub IsListed : Option (List Text) → Type 0
IsListed devices = (d : Text) × (ds : List Text) × (devices ≡ some (d ∷ ds))

-- One of the polls finds both a playout and a recording device.
pub data Appeared : List (Option (List Text) × Option (List Text)) → Type 0 where
  here :
      {playout recording : Option (List Text)}
      {polls : List (Option (List Text) × Option (List Text))}
      → IsListed playout
      → IsListed recording
      → Appeared ((playout, recording) ∷ polls)
  later :
      {poll : Option (List Text) × Option (List Text)}
      {polls : List (Option (List Text) × Option (List Text))}
      → Appeared polls
      → Appeared (poll ∷ polls)

wait-Appeared :
    (polls : List (Option (List Text) × Option (List Text)))
    → wait_for_devices polls ≡ true
    → Appeared polls
unfolding wait_for_devices
wait-Appeared [] h = cc
wait-Appeared ((some (p ∷ ps), some (r ∷ rs)) ∷ polls) h = here (p, ps, refl) (r, rs, refl)
wait-Appeared ((some (p ∷ ps), some []) ∷ polls) h = later (wait-Appeared polls h)
wait-Appeared ((some (p ∷ ps), none) ∷ polls) h = later (wait-Appeared polls h)
wait-Appeared ((some [], recording) ∷ polls) h = later (wait-Appeared polls h)
wait-Appeared ((none, recording) ∷ polls) h = later (wait-Appeared polls h)

Appeared-wait :
    (polls : List (Option (List Text) × Option (List Text)))
    → Appeared polls
    → wait_for_devices polls ≡ true
unfolding wait_for_devices
Appeared-wait _ (here (p, ps, e) (r, rs, f)) = rw (e, f) refl
Appeared-wait ((playout, recording) ∷ polls) (later a) =
    let found = Appeared-wait polls a in ground arith

module _ (host : Host) (config : Config) where
  abbrev pub path : Text
  path = pipe_socket_path host.env_dir host.temp_dir config

  -- In device mode the pair that was made.
  abbrev pub pair : Option host.Pair
  pair = host.new_pair (input_name host.macos config) (output_name host.macos config)

  -- The outcomes in pipe mode.
  abbrev pub IsPipeSetup : Setup → Type 0
  IsPipeSetup (ready selected control) =
      (host.pipe_binds path ≡ true)
      × (selected ≡ none)
      × (control ≡ start_control_channel (codes "unix:" ++ path) (codes "unix:" ++ path))
  IsPipeSetup (failed stage (some control)) =
      (host.pipe_binds path ≡ true)
      × (control ≡ start_control_channel (codes "unix:" ++ path) (codes "unix:" ++ path))
  IsPipeSetup (failed stage none) = (host.pipe_binds path ≡ false) × (stage ≡ pipe_device)
  IsPipeSetup (waiting control) = ⊥

  setup_pipe-IsPipeSetup : IsPipeSetup (setup_pipe host config)
  unfolding setup_pipe
  setup_pipe-IsPipeSetup = ground arith

  -- In pipe mode no device is waited for or selected, and the control channel, whose ready line
  -- names the socket, is started exactly if the socket was bound, also where a later step fails.
  pub setup-IsPipeSetup :
      resolve_audio_mode host.env_mode config ≡ pipe → IsPipeSetup (setup host config)
  unfolding setup
  setup-IsPipeSetup h = rw h (setup_pipe-IsPipeSetup)

  -- The devices that are selected are those of the pair, in each list.
  abbrev pub IsSelected : host.Pair → Option (ℕ × ℕ) → Type 0
  IsSelected p none = ⊥
  IsSelected p (some (i, j)) =
      IsChosen host.recording_devices (host.input_source p) i
      × IsChosen host.playout_devices (host.output_sink p) j

  abbrev Reported : host.Pair → ControlChannel → Type 0
  Reported p control = control ≡ start_control_channel (host.input_source p) (host.output_sink p)

  -- By the loop that waits.
  abbrev IsWaited : host.Pair → Setup → Type 0
  IsWaited p (failed stage none) = ⊥
  IsWaited p (failed stage (some control)) =
      (((stage ≡ factory) × (host.new_factory ≡ false)) ⊎ (wait_for_devices host.polls ≡ true))
      × Reported p control
  IsWaited p (waiting control) = (wait_for_devices host.polls ≡ false) × Reported p control
  IsWaited p (ready selected control) =
      (wait_for_devices host.polls ≡ true) × IsSelected p selected × Reported p control

  setup_device-IsWaited : (p : host.Pair) → IsWaited p (setup_device host config p)
  unfolding setup_device
  setup_device-IsWaited p = ground arith

  -- The outcomes in device mode: without a pair nothing is started, with one its names are reported.
  abbrev pub IsDeviceSetup : Option host.Pair → Setup → Type 0
  IsDeviceSetup none s = s ≡ failed virtual_devices none
  IsDeviceSetup (some p) (failed stage none) = ⊥
  IsDeviceSetup (some p) (failed stage (some control)) =
      (((stage ≡ factory) × (host.new_factory ≡ false)) ⊎ Appeared host.polls) × Reported p control
  IsDeviceSetup (some p) (waiting control) = (¬ Appeared host.polls) × Reported p control
  IsDeviceSetup (some p) (ready selected control) =
      Appeared host.polls × IsSelected p selected × Reported p control

  IsWaited-IsDeviceSetup : (p : host.Pair) (s : Setup) → IsWaited p s → IsDeviceSetup (some p) s
  IsWaited-IsDeviceSetup p (failed stage none) h = h
  IsWaited-IsDeviceSetup p (failed stage (some control)) (inl f, e) = (inl f, e)
  IsWaited-IsDeviceSetup p (failed stage (some control)) (inr w, e) =
      (inr (wait-Appeared host.polls w), e)
  IsWaited-IsDeviceSetup p (waiting control) (w, e) = (λ a. cc (w, Appeared-wait host.polls a), e)
  IsWaited-IsDeviceSetup p (ready selected control) (w, c, e) = (wait-Appeared host.polls w, c, e)

  setup_device-IsDeviceSetup : (p : host.Pair) → IsDeviceSetup (some p) (setup_device host config p)
  setup_device-IsDeviceSetup p =
      IsWaited-IsDeviceSetup p (setup_device host config p) (setup_device-IsWaited p)

  setup_mode-device :
      (p : host.Pair) → pair ≡ some p → setup_mode host config device ≡ setup_device host config p
  unfolding setup_mode
  setup_mode-device p e = rw (e, setup_mode)

  setup_mode-failed : pair ≡ none → setup_mode host config device ≡ failed virtual_devices none
  unfolding setup_mode
  setup_mode-failed e = rw (e, setup_mode)

  pub setup-IsDeviceSetup :
      resolve_audio_mode host.env_mode config ≡ device → IsDeviceSetup pair (setup host config)
  unfolding setup
  setup-IsDeviceSetup h = elim (Option-cases pair) [
    | inl e ↦ rw (h, setup_mode-failed e, e)
    | inr (p, e) ↦ rw (h, setup_mode-device p e, e) (setup_device-IsDeviceSetup p)
  ]
