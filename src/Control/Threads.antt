-- ===== src/Control/Threads.antt =====
-- The threads of control.rs: the reader of stdin, the writer of stdout, and what starts them.
pub mod Reading
pub mod Writing
use signal_call_tunnel.Base.{
  ℕ, suc, Bool, true, false, ◌&&◌, ◌||◌, List, [], ◌∷◌, ◌++◌, Text, codes, ltb, leb, ◌==◌,
  if◌then◌else◌,
}
use signal_call_tunnel.Channel.{Channel, channel, send}
use signal_call_tunnel.Platform.{PlatformEvent, to_json}
use signal_call_tunnel.Control.{ControlMessage, Codec, Parsed, ok, err, parse_message}

-- `char::is_whitespace`.
unfoldable pub is_whitespace : ℕ → Bool
is_whitespace c =
    (leb 9 c && leb c 13)
    || c == 32
    || c == 0x85
    || c == 0xa0
    || c == 0x1680
    || (leb 0x2000 c && leb c 0x200a)
    || c == 0x2028
    || c == 0x2029
    || c == 0x202f
    || c == 0x205f
    || c == 0x3000

unfoldable pub trim_start : Text → Text
trim_start [] = []
trim_start (c ∷ s) = if is_whitespace c then trim_start s else c ∷ s

abbrev pub is_empty {ℓ} : {A : Type ℓ} → List A → Bool
is_empty [] = true
is_empty (x ∷ xs) = false

unfoldable pub trim_end : Text → Text
trim_end [] = []
trim_end (c ∷ s) =
    let rest = trim_end s in if is_empty rest && is_whitespace c then [] else c ∷ rest

unfoldable pub trim : Text → Text
unfolding trim_start trim_end is_whitespace
trim s = trim_end (trim_start s)

-- What the reader thread meets: a line of stdin, a read error, or that the receiver of the messages
-- is dropped meanwhile. The end of the list is the end of stdin.
pub data Input : Type 0 where
  line : Text → Input
  failed receiver_dropped : Input

module _ (codec : Codec) where
  -- The end of a round: `again` reads on.
  unfoldable pub deliver :
      (Channel ControlMessage → Channel ControlMessage)
      → Channel ControlMessage
      → Parsed
      → Channel ControlMessage
  deliver again messages (err e) = again messages
  deliver again messages (ok m) =
      let (sent, messages') = send m messages in if sent then again messages' else messages'

  unfoldable pub read_lines : List Input → Channel ControlMessage → Channel ControlMessage
  unfolding deliver
  read_lines [] messages = messages
  read_lines (failed ∷ inputs) messages = messages
  read_lines (receiver_dropped ∷ inputs) messages =
      read_lines inputs (record messages { is_open = false })
  read_lines (line l ∷ inputs) messages = elim (is_empty (trim l)) [
    | true ↦ read_lines inputs messages
    | false ↦ deliver (λ ms. read_lines inputs ms) messages (parse_message codec l)
  ]

-- The writer thread: `answers n` says whether writing and flushing the line number `n` succeed. The
-- result are the lines on stdout.
unfoldable pub write_lines : (ℕ → Bool × Bool) → ℕ → List Text → List Text
write_lines answers n [] = []
write_lines answers n (l ∷ lines) =
    let rest = l ∷ write_lines answers (suc n) lines in
    if (answers n).0 then (if (answers n).1 then rest else l ∷ []) else []

-- `ControlWriter::send_line` and `send_event`; an error is only logged.
unfoldable pub send_line : Text → Channel Text → Channel Text
send_line l lines = (send l lines).1

unfoldable pub send_event : (List ℕ → Text) → PlatformEvent → Channel Text → Channel Text
unfolding send_line
send_event encode event lines = send_line (to_json encode event) lines

pub record ControlChannel : Type 0 where
  pub messages : Channel ControlMessage
  pub lines : Channel Text

unfoldable pub ready_line : Text → Text → Text
ready_line input_device_name output_device_name =
    codes "{\"type\":\"ready\",\"inputDeviceName\":\""
    ++ (input_device_name
        ++ (codes "\",\"outputDeviceName\":\"" ++ (output_device_name ++ codes "\"}")))

-- The channels as the threads find them.
unfoldable pub start_control_channel : Text → Text → ControlChannel
unfolding ready_line send_line
start_control_channel input_device_name output_device_name = record {
  messages = channel;
  lines = send_line (ready_line input_device_name output_device_name) channel;
}
