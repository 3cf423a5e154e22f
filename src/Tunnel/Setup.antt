-- ===== src/Tunnel/Setup.antt =====
-- The part of `main` in main.rs before the event loop: the audio backend, the ready line and the
-- choice of devices.
pub mod Devices
pub mod Ready
use signal_call_tunnel.Base.{
  ℕ, suc, ◌%◌, ◌^◌, Bool, true, false, ◌&&◌, List, [], ◌∷◌, ◌++◌, Option, none, some, ◌>>=◌, Text,
  codes, text_eq, if◌then◌else◌, unwrap_or, decimal,
}
use signal_call_tunnel.Config.{
  Config, AudioMode, device, pipe, resolve_audio_mode, pipe_socket_path,
}
use signal_call_tunnel.Control.Threads.{ControlChannel, start_control_channel, is_empty}

-- What the setup finds outside the program: the platform and its environment, the results of the
-- calls of RingRTC, `pipe_binds` for `PipeAudioDevice::new`, and the device names that the factory
-- lists, at each poll and at the choice.
pub record Host : Type 1 where
  pub macos : Bool
  pub env_mode : Option Text
  pub env_dir : Option Text
  pub temp_dir : Text
  pub pipe_binds : Text → Bool
  pub Pair : Type 0
  pub new_pair : Text → Text → Option Pair
  pub input_source : Pair → Text
  pub output_sink : Pair → Text
  pub new_factory : Bool
  pub polls : List (Option (List Text) × Option (List Text))
  pub recording_devices : Option (List Text)
  pub playout_devices : Option (List Text)
  pub set_recording_device : ℕ → Bool
  pub set_playout_device : ℕ → Bool
  pub new_call_manager : Bool
  pub register_sigterm : Bool

-- The step that failed.
pub data Stage : Type 0 where
  pipe_device virtual_devices factory enumerate_recording find_recording set_recording : Stage
  enumerate_playout find_playout set_playout call_manager signal_handler : Stage

-- `ready` has the indices that were selected, if the backend has devices to select; in `failed`, the
-- control channel exists if it was started before. `waiting`: the devices have not appeared yet.
pub data Setup : Type 0 where
  failed : Stage → Option ControlChannel → Setup
  waiting : ControlChannel → Setup
  ready : Option (ℕ × ℕ) → ControlChannel → Setup

unfoldable pub input_name : Bool → Config → Text
input_name macos config =
    unwrap_or config.input_device_name
      (if macos then codes "signal_input" else codes "signal_input_" ++ decimal config.call_id)

unfoldable pub output_name : Bool → Config → Text
output_name macos config =
    unwrap_or config.output_device_name
      (if macos then codes "signal_output" else codes "signal_output_" ++ decimal config.call_id)

-- `iter().position(|d| d.name == name)`, the names of the devices given.
unfoldable pub position : Text → List Text → Option ℕ
position name [] = none
position name (d ∷ devices) =
    if text_eq d name then some 0 else (do i ← position name devices; some (suc i))

-- The index of a device by name, `as u16`.
unfoldable pub device_index : Text → List Text → Option ℕ
unfolding position
device_index name devices = do i ← position name devices; some (i % 2 ^ 16)

abbrev is_listed : Option (List Text) → Bool
is_listed none = false
is_listed (some []) = false
is_listed (some (d ∷ devices)) = true

-- The loop that waits for the devices: whether one of the polls finds both lists filled.
unfoldable pub wait_for_devices : List (Option (List Text) × Option (List Text)) → Bool
wait_for_devices [] = false
wait_for_devices ((playout, recording) ∷ polls) =
    if is_listed playout && is_listed recording then true else wait_for_devices polls

module _ (host : Host) (config : Config) where
  -- What follows the choice of devices.
  unfoldable pub finish : Option (ℕ × ℕ) → ControlChannel → Setup
  finish selected control =
      if host.new_call_manager
      then (if host.register_sigterm
          then ready selected control
          else failed signal_handler (some control))
      else failed call_manager (some control)

  unfoldable pub select_playout : host.Pair → ℕ → ControlChannel → Setup
  unfolding finish
  select_playout pair i control = elim host.playout_devices [
    | none ↦ failed enumerate_playout (some control)
    | some devices ↦ elim (device_index (host.output_sink pair) devices) [
      | none ↦ failed find_playout (some control)
      | some j ↦
          if host.set_playout_device j
          then finish (some (i, j)) control
          else failed set_playout (some control)
    ]
  ]

  unfoldable pub select_devices : host.Pair → ControlChannel → Setup
  unfolding select_playout
  select_devices pair control = elim host.recording_devices [
    | none ↦ failed enumerate_recording (some control)
    | some devices ↦ elim (device_index (host.input_source pair) devices) [
      | none ↦ failed find_recording (some control)
      | some i ↦
          if host.set_recording_device i
          then select_playout pair i control
          else failed set_recording (some control)
    ]
  ]

  unfoldable pub setup_device : host.Pair → Setup
  unfolding select_devices
  setup_device pair =
      let control = start_control_channel (host.input_source pair) (host.output_sink pair) in
      if host.new_factory
      then (if wait_for_devices host.polls then select_devices pair control else waiting control)
      else failed factory (some control)

  unfoldable pub setup_pipe : Setup
  unfolding finish
  setup_pipe =
      let path = pipe_socket_path host.env_dir host.temp_dir config in
      let report = codes "unix:" ++ path in
      let control = start_control_channel report report in
      if host.pipe_binds path
      then (if host.new_factory then finish none control else failed factory (some control))
      else failed pipe_device none

  unfoldable pub setup_mode : AudioMode → Setup
  unfolding setup_device setup_pipe
  setup_mode pipe = setup_pipe
  setup_mode device =
      elim (host.new_pair (input_name host.macos config) (output_name host.macos config)) [
        | none ↦ failed virtual_devices none
        | some pair ↦ setup_device pair
      ]

  unfoldable pub setup : Setup
  unfolding setup_mode
  setup = setup_mode (resolve_audio_mode host.env_mode config)
