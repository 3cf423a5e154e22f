-- ===== src/Pipe/Device.antt =====
-- `PipeAudioDevice` of pipe_audio.rs: binding the socket, and dropping the device.
pub mod Lifecycle
mod Tests
use signal_call_tunnel.Base.{Bool, true, false, Option, none, some, Text, text_eq, if◌then◌else◌}

-- What a path holds. `remove_file` removes files and sockets, and no directory.
pub data Entry : Type 0 where
  absent file socket directory : Entry

abbrev pub Files : Type 0
Files = Text → Entry

unfoldable pub update : Files → Text → Entry → Files
update files path e q = if text_eq path q then e else files q

abbrev removed : Entry → Entry
removed directory = directory
removed _ = absent

-- `std::fs::remove_file`, its result ignored.
unfoldable pub remove_file : Text → Files → Files
unfolding update
remove_file path files = update files path (removed (files path))

pub record PipeAudioDevice : Type 0 where
  pub socket_path : Text

abbrev is_absent : Entry → Bool
is_absent absent = true
is_absent _ = false

-- `UnixListener::bind` makes a socket at a free path; `allowed` is whether the system lets it.
unfoldable pub bind : (Text → Bool) → Text → Files → Option Files
unfolding update
bind allowed path files =
    if is_absent (files path)
    then (if allowed path then some (update files path socket) else none)
    else none

abbrev opened : Bool → Text → Files → Option PipeAudioDevice × Files
opened true path files = (some (record { socket_path = path }), files)
opened false path files = (none, files)

-- `PipeAudioDevice::new`; `nonblocking` is the result of `set_nonblocking`.
unfoldable pub new : (Text → Bool) → Bool → Text → Files → Option PipeAudioDevice × Files
unfolding bind remove_file
new allowed nonblocking socket_path files =
    let cleared = remove_file socket_path files in
    elim (bind allowed socket_path cleared) [
      | none ↦ (none, cleared)
      | some bound ↦ opened nonblocking socket_path bound
    ]

-- `Drop for PipeAudioDevice`.
unfoldable pub drop : PipeAudioDevice → Files → Files
unfolding remove_file
drop device files = remove_file device.socket_path files
