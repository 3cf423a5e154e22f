-- ===== src/Config/Tests.antt =====
-- config.rs at concrete inputs.
use signal_call_tunnel.Base.{◌≡◌, ◌↔◌, refl, true, Option, none, some, Text, codes, decimal}
use signal_call_tunnel.Config.{device, pipe, resolve_audio_mode, pipe_socket_path}
use signal_call_tunnel.Config.Mode.{Selects, resolve_audio_mode-pipe_iff}
use signal_call_tunnel.Config.Paths.{pipe_socket_path_inj}
use signal_call_tunnel.Config.Deserialize.{from_str}
use signal_call_tunnel.Config.UnitTests.{config_with_mode, unit_tests}

resolve_tests :
    (resolve_audio_mode none (config_with_mode (some (codes "PIPE"))) ≡ pipe)
    × (resolve_audio_mode (some (codes "pipe")) (config_with_mode (some (codes "device"))) ≡ device)
    × (resolve_audio_mode (some (codes "Pipe")) (config_with_mode none) ≡ pipe)
    × (resolve_audio_mode none (config_with_mode none) ≡ device)
unfolding resolve_audio_mode
resolve_tests = (refl, refl, refl, refl)

path_test :
    pipe_socket_path none (codes "/tmp") (config_with_mode none) ≡ codes "/tmp/signal-call-7.sock"
unfolding pipe_socket_path decimal
path_test = refl

resolve_audio_mode-pipe_iff_example :
    (resolve_audio_mode (some (codes "pipe")) (config_with_mode none) ≡ pipe)
    ↔ Selects none (some (codes "pipe"))
resolve_audio_mode-pipe_iff_example =
    resolve_audio_mode-pipe_iff (some (codes "pipe")) (config_with_mode none)

pipe_socket_path_inj_example :
    (config_with_mode none).call_id ≡ (config_with_mode (some (codes "pipe"))).call_id
unfolding pipe_socket_path
pipe_socket_path_inj_example =
    pipe_socket_path_inj none (codes "/tmp") (config_with_mode none)
      (config_with_mode (some (codes "pipe"))) refl

-- They pass whatever the environment's audio mode is.
unit_tests_lem : (env_mode : Option Text) → unit_tests from_str env_mode none (codes "/tmp") ≡ true
unfolding unit_tests resolve_audio_mode pipe_socket_path decimal from_str
unit_tests_lem env_mode = refl
