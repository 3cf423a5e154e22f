-- ===== src/Pipe/Device/Tests.antt =====
-- The device of pipe_audio.rs at a concrete file system.
use signal_call_tunnel.Base.{◌≡◌, ◌≢◌, refl, true, some, codes, if◌then◌else◌, text_eq}
use signal_call_tunnel.Pipe.Device.{absent, socket, directory, Files, new, drop}
use signal_call_tunnel.Pipe.Device.Lifecycle.{new-replaces, drop-new}

abbrev stale : Files
stale q = if text_eq (codes "/tmp/s.sock") q then socket else absent

stale_is_no_directory : stale (codes "/tmp/s.sock") ≢ directory
unfolding text_eq
stale_is_no_directory = λ h. cc

new-replaces_example :
    ((new (λ p. true) true (codes "/tmp/s.sock") stale).0
      ≡ some (record { socket_path = codes "/tmp/s.sock" }))
    × ((new (λ p. true) true (codes "/tmp/s.sock") stale).1 (codes "/tmp/s.sock") ≡ socket)
new-replaces_example =
    new-replaces (λ p. true) (codes "/tmp/s.sock") stale refl stale_is_no_directory

drop-new_example :
    drop
      (record { socket_path = codes "/tmp/s.sock" })
      (new (λ p. true) true (codes "/tmp/s.sock") stale).1
      (codes "/tmp/s.sock")
    ≡ absent
unfolding text_eq
drop-new_example =
    drop-new (λ p. true) true (codes "/tmp/s.sock") (codes "/tmp/s.sock") stale
      (record { socket_path = codes "/tmp/s.sock" }) new-replaces_example.0
