-- ===== src/Config/UnitTests.antt =====
-- The unit tests of config.rs, as functions into Bool of what serde derives and of the environment: a
-- panic is false.
use signal_call_tunnel.Base.{
  Bool, true, false, not, ◌&&◌, ◌||◌, [], ◌∷◌, Option, none, some, Text, codes, lines, text_eq,
  ◌==◌, if◌then◌else◌, all_true, is_some_and, is_none,
}
use signal_call_tunnel.Config.{
  Config, AudioMode, device, pipe, resolve_audio_mode, pipe_socket_path,
}

abbrev has_slash : Text → Bool
has_slash [] = false
has_slash (c ∷ s) = c == b'/' || has_slash s

-- The last part of a path, which `Path::file_name` gives if the path does not end in a slash.
abbrev file_name : Text → Text
file_name [] = []
file_name (c ∷ s) = let rest = file_name s in if has_slash (c ∷ s) then rest else c ∷ s

-- `from_str` is what serde derives for `Config`.
module _ (from_str : Text → Option Config) where
  unfoldable pub deserialize_valid_config : Bool
  deserialize_valid_config =
      is_some_and
        (λ config.
          config.call_id == 12345678
          && (config.is_outgoing
              && (config.local_device_id == 1
                  && (is_none config.input_device_name && is_none config.output_device_name))))
        (from_str (
          lines (
            codes "{"
            ∷ codes "            \"call_id\": 12345678,"
            ∷ codes "            \"is_outgoing\": true,"
            ∷ codes "            \"local_device_id\": 1"
            ∷ codes "        }"
            ∷ [])))

  unfoldable pub deserialize_with_device_names : Bool
  deserialize_with_device_names =
      is_some_and
        (λ config.
          config.call_id == 99
          && (not config.is_outgoing
              && (config.local_device_id == 2
                  && (is_some_and (text_eq (codes "signal_input")) config.input_device_name
                      && is_some_and (text_eq (codes "signal_output")) config.output_device_name))))
        (from_str (
          lines (
            codes "{"
            ∷ codes "            \"call_id\": 99,"
            ∷ codes "            \"is_outgoing\": false,"
            ∷ codes "            \"local_device_id\": 2,"
            ∷ codes "            \"input_device_name\": \"signal_input\","
            ∷ codes "            \"output_device_name\": \"signal_output\""
            ∷ codes "        }"
            ∷ [])))

  unfoldable pub deserialize_missing_field_fails : Bool
  deserialize_missing_field_fails = is_none (
      from_str (
        lines (
          codes "{"
          ∷ codes "            \"call_id\": 1,"
          ∷ codes "            \"is_outgoing\": true"
          ∷ codes "        }"
          ∷ [])))

  unfoldable pub deserialize_wrong_type_fails : Bool
  deserialize_wrong_type_fails = is_none (
      from_str (
        lines (
          codes "{"
          ∷ codes "            \"call_id\": \"not_a_number\","
          ∷ codes "            \"is_outgoing\": true,"
          ∷ codes "            \"local_device_id\": 1"
          ∷ codes "        }"
          ∷ [])))

  unfoldable pub deserialize_extra_fields_ok : Bool
  deserialize_extra_fields_ok =
      is_some_and (λ config. config.call_id == 1)
        (from_str (
          lines (
            codes "{"
            ∷ codes "            \"call_id\": 1,"
            ∷ codes "            \"is_outgoing\": true,"
            ∷ codes "            \"local_device_id\": 1,"
            ∷ codes "            \"extra_field\": \"ignored\""
            ∷ codes "        }"
            ∷ [])))

  unfoldable pub audio_mode_defaults_to_none : Bool
  audio_mode_defaults_to_none =
      is_some_and (λ config. is_none config.audio_mode)
        (from_str (
          lines (
            codes "{"
            ∷ codes "            \"call_id\": 1,"
            ∷ codes "            \"is_outgoing\": true,"
            ∷ codes "            \"local_device_id\": 1"
            ∷ codes "        }"
            ∷ [])))

abbrev pub config_with_mode : Option Text → Config
config_with_mode mode = record {
  call_id = 7;
  is_outgoing = false;
  local_device_id = 1;
  input_device_name = none;
  output_device_name = none;
  audio_mode = mode;
}

abbrev is_pipe : AudioMode → Bool
is_pipe pipe = true
is_pipe device = false

-- `env_mode`, `env_dir` and `temp_dir` are the environment's.
unfoldable pub resolve_audio_mode_from_config_field : Option Text → Bool
unfolding resolve_audio_mode
resolve_audio_mode_from_config_field env_mode =
    is_pipe (resolve_audio_mode env_mode (config_with_mode (some (codes "pipe"))))
    && (is_pipe (resolve_audio_mode env_mode (config_with_mode (some (codes "PIPE"))))
        && (not (is_pipe (resolve_audio_mode env_mode (config_with_mode (some (codes "device")))))
            && not (
                is_pipe
                  (resolve_audio_mode env_mode (config_with_mode (some (codes "anything-else")))))))

unfoldable pub pipe_socket_path_is_keyed_by_call_id : Option Text → Text → Bool
unfolding pipe_socket_path
pipe_socket_path_is_keyed_by_call_id env_dir temp_dir =
    text_eq (file_name (pipe_socket_path env_dir temp_dir (config_with_mode (some (codes "pipe")))))
      (codes "signal-call-7.sock")

unfoldable pub unit_tests : (Text → Option Config) → Option Text → Option Text → Text → Bool
unfolding deserialize_valid_config deserialize_with_device_names deserialize_missing_field_fails
    deserialize_wrong_type_fails deserialize_extra_fields_ok audio_mode_defaults_to_none
    resolve_audio_mode_from_config_field pipe_socket_path_is_keyed_by_call_id
unit_tests from_str env_mode env_dir temp_dir = all_true (
    deserialize_valid_config from_str
    ∷ deserialize_with_device_names from_str
    ∷ deserialize_missing_field_fails from_str
    ∷ deserialize_wrong_type_fails from_str
    ∷ deserialize_extra_fields_ok from_str
    ∷ audio_mode_defaults_to_none from_str
    ∷ resolve_audio_mode_from_config_field env_mode
    ∷ pipe_socket_path_is_keyed_by_call_id env_dir temp_dir
    ∷ [])
