-- ===== src/Pipe/Device/Lifecycle.antt =====
-- The socket file of `PipeAudioDevice` in pipe_audio.rs, from binding to dropping.
use signal_call_tunnel.Base.{
  ◌≡◌, ◌≢◌, Bool, true, some, Text, text_eq, text_eq_refl, arith, if◌then◌else◌,
}
use signal_call_tunnel.Pipe.Device.{
  absent, socket, directory, Files, update, remove_file, PipeAudioDevice, new, drop,
}

-- If the system lets a socket be bound at the path, `set_nonblocking` succeeds and the path is no
-- directory, then the device is made and its socket stands at the path, also over a stale socket or
-- file.
pub new-replaces :
    (allowed : Text → Bool) (path : Text) (files : Files)
    → allowed path ≡ true
    → files path ≢ directory
    → ((new allowed true path files).0 ≡ some (record { socket_path = path }))
      × ((new allowed true path files).1 path ≡ socket)
unfolding new
new-replaces allowed path files h n = ground (arith, text_eq_refl path)

new-some :
    (allowed : Text → Bool) (nonblocking : Bool) (path : Text) (files : Files) (d : PipeAudioDevice)
    → (new allowed nonblocking path files).0 ≡ some d
    → (d.socket_path ≡ path)
      × ((new allowed nonblocking path files).1 ≡ update (remove_file path files) path socket)
unfolding new
new-some allowed nonblocking path files d h = ground (arith, text_eq_refl path)

remove_file-bound :
    (path q : Text) (files : Files)
    → remove_file path (update (remove_file path files) path socket) q
      ≡ (if text_eq path q then absent else files q)
unfolding remove_file
remove_file-bound path q files = ground (arith, text_eq_refl path)

-- When a device that was made is dropped nothing is left at its path, whatever stood there before,
-- and every other path holds what it held before the device was made.
pub drop-new :
    (allowed : Text → Bool) (nonblocking : Bool) (path q : Text) (files : Files)
    (d : PipeAudioDevice)
    → (new allowed nonblocking path files).0 ≡ some d
    → drop d (new allowed nonblocking path files).1 q ≡ (if text_eq path q then absent else files q)
unfolding drop
drop-new allowed nonblocking path q files d h =
    let (e, f) = new-some allowed nonblocking path files d h in
    rw (f, e) (remove_file-bound path q files)
