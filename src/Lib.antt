-- ===== src/Lib.antt =====
-- Verification of signal-call-tunnel: a process that runs one voice call through RingRTC. It reads
-- commands from its parent on stdin, hands them to RingRTC's call manager, writes RingRTC's events to
-- stdout as JSON lines, and exchanges the audio over virtual devices or a Unix socket.
--
-- The parts, by the file of the program:
--
-- signal-call-tunnel/src/pipe_audio.rs is Pipe. Pipe.Pcm has the constants and the two bytes of a
-- sample, Pipe.Buffer `cap_buffer` and `take_window`, Pipe.Socket `drain_playout` and `fill_capture`,
-- Pipe.Clock the phases of a round of `clock_loop` and the loop, Pipe.Flags the control thread of
-- `run`, the atomic flags and the loads of the loop, interleaved in any order, Pipe.Run `run` as a
-- whole, one load of the loop or one store of the control thread at a time, Pipe.Device
-- `PipeAudioDevice::new` and its drop. Byte buffers are lists of numbers, the oldest byte first;
-- samples are integers; instants are nanoseconds.
--
-- signal-call-tunnel/src/config.rs is Config: `resolve_audio_mode` and `pipe_socket_path`, with the
-- environment as arguments. Config.Deserialize is a deserialiser by serde's documented behaviour, which
-- shows what the parameter of `main` can be.
--
-- signal-call-tunnel/src/control.rs is Control: `parse_message` is `parse_message` over a `Codec`, the
-- JSON reader (serde_json) and the base64 decoder. Control.Threads has the reader thread, the writer
-- thread, `send_line`, `send_event` and the ready line of `start_control_channel`.
--
-- signal-call-tunnel/src/platform.rs is Platform: the events, `to_json`, and the callbacks
-- `send_signaling` and `handle_call_state`, here `relay_signaling` and `handle_call_state`.
-- Platform.Callbacks has all callbacks of the three traits, as RingRTC calls them. Platform.Parent is
-- the parent's side: how it reads an event from a line, as the tests of platform.rs do.
--
-- signal-call-tunnel/src/main.rs is Tunnel: Tunnel.Setup has what comes before the loop, where `Host`
-- holds what the setup finds outside, Tunnel.EventLoop the loop, where `Ringrtc` holds RingRTC and
-- every call of it is recorded as a `Request`, Tunnel.Forward the thread that forwards events, with
-- what the parent gets of RingRTC's notices, Tunnel.Inbound the way of the commands to RingRTC, and
-- Tunnel.Process `main` as a whole: the configuration line, the setup, and the loop with the
-- forwarding thread beside it, by turns, which takes what the reader thread sends of the rest of stdin;
-- when it waits in vain is given. Tunnel.System is the running process behind the setup: the
-- reader and the writer of control.rs, the forwarding thread, the loop and RingRTC's callbacks, by any
-- order of their moves. In both, stdin is a finite list, and its end is the end of stdin; a parent that
-- keeps it open and says nothing is a reader thread that does not move.
--
-- signal-call-tunnel/build.rs is Build: the patches and their application, over a `Tree`, the file
-- system and git.
--
-- The unit tests of config.rs, control.rs and platform.rs are Config.UnitTests, Control.UnitTests and
-- Platform.UnitTests, functions into Bool, which Config.Tests, Control.Tests and Platform.Tests run with
-- the readers named below; the two tests of received ICE, which do not compile, are left out.
--
-- Shared: Base has the names of the libraries and lemmas on lists, numbers and texts (a text is the
-- list of its codes), Channel the channels of std, Json the documents and their text, by which the
-- lines are judged, and Json.Read a reader of that text (RFC 8259, numbers as far as the program
-- writes them: whole and not negative). Base64 (RFC 4648) and Pipe.Socket.Memory are an encoding and a
-- socket that show that the hypotheses on base64 and on sockets can hold.
--
-- Fuel: `drain_playout` takes one step more than the buffer has bytes, since each round writes a byte
-- at least. `fill_capture` takes its fuel as an argument; each round reads a byte at least, so that
-- more fuel than bytes pending is enough, and the rounds of the clock assume that much. The buffers
-- are capped at 7680 bytes, eight windows, or one byte more. The digits of a number take as much fuel
-- as the number, the JSON reader two calls for each character.
--
-- Assumed of code that is not here: `IsStream` states the documented results of read and write on a
-- stream socket, `decode-encode` that base64 decodes what it encodes, `plain` that its text needs no
-- escape, `Marks` that a patch leaves its marker and the later ones keep it.
--
-- Not modelled: logging, what serde derives for the configuration, which is a parameter, the null video
-- sink and HTTP client, which are empty, RingRTC itself and the patches, and the tools under voice-test.
pub mod Base
pub mod Pipe
pub mod Config
pub mod Channel
pub mod Json
pub mod Platform
pub mod Control
pub mod Tunnel
pub mod Build
pub mod Base64
