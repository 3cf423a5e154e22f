-- ===== src/Config.antt =====
-- signal-call-tunnel/src/config.rs: the configuration, the audio mode and the socket path.
pub mod Mode
pub mod Paths
pub mod Deserialize
pub mod UnitTests
mod Tests
use signal_call_tunnel.Base.{
  ℕ, ◌+◌, Bool, true, false, ◌&&◌, List, [], ◌∷◌, ◌++◌, Option, none, some, Text, codes, ltb, leb,
  ◌==◌, if◌then◌else◌, unwrap_or, decimal,
}

pub record Config : Type 0 where
  pub call_id : ℕ
  pub is_outgoing : Bool
  pub local_device_id : ℕ
  pub input_device_name : Option Text
  pub output_device_name : Option Text
  pub audio_mode : Option Text

pub data AudioMode : Type 0 where
  device pipe : AudioMode

-- `u8::to_ascii_lowercase`.
unfoldable pub to_ascii_lowercase : ℕ → ℕ
to_ascii_lowercase c = if leb b'A' c && leb c b'Z' then c + 32 else c

-- `str::eq_ignore_ascii_case`.
unfoldable pub eq_ignore_ascii_case : Text → Text → Bool
unfolding to_ascii_lowercase
eq_ignore_ascii_case [] [] = true
eq_ignore_ascii_case (x ∷ xs) (y ∷ ys) =
    to_ascii_lowercase x == to_ascii_lowercase y && eq_ignore_ascii_case xs ys
eq_ignore_ascii_case _ _ = false

-- `Option::or_else` on a value at hand.
abbrev pub or_else {ℓ} : {A : Type ℓ} → Option A → Option A → Option A
or_else none b = b
or_else (some a) b = some a

-- `env_mode` is `std::env::var(AUDIO_MODE_ENV).ok()`.
unfoldable pub resolve_audio_mode : Option Text → Config → AudioMode
unfolding eq_ignore_ascii_case
resolve_audio_mode env_mode config =
    let mode = unwrap_or (or_else config.audio_mode env_mode) [] in
    if eq_ignore_ascii_case mode (codes "pipe") then pipe else device

abbrev pub ends_with_slash : Text → Bool
ends_with_slash [] = false
ends_with_slash (c ∷ []) = c == b'/'
ends_with_slash (c ∷ d ∷ s) = ends_with_slash (d ∷ s)

abbrev pub starts_with_slash : Text → Bool
starts_with_slash [] = false
starts_with_slash (c ∷ s) = c == b'/'

abbrev is_empty : Text → Bool
is_empty [] = true
is_empty (c ∷ s) = false

-- `Path::join` on Unix.
unfoldable pub join : Text → Text → Text
join dir file =
    if starts_with_slash file
    then file
    else if is_empty dir
    then file
    else if ends_with_slash dir
    then dir ++ file
    else dir ++ b'/' ∷ file

unfoldable pub socket_file : ℕ → Text
socket_file call_id = codes "signal-call-" ++ (decimal call_id ++ codes ".sock")

-- `env_dir` is `std::env::var_os(SOCKET_DIR_ENV)`, `temp_dir` is `std::env::temp_dir()`.
unfoldable pub pipe_socket_path : Option Text → Text → Config → Text
unfolding socket_file join
pipe_socket_path env_dir temp_dir config =
    join (unwrap_or env_dir temp_dir) (socket_file config.call_id)
