-- ===== src/Tunnel/Forward/Heard.antt =====
-- What the parent learns from stdout of the callbacks of RingRTC, through platform.rs, main.rs and
-- control.rs.
use signal_call_tunnel.Base.{
  ℕ, ◌≡◌, refl, ap, ◌∙◌, ap₂, none, Bool, true, List, [], ◌∷◌, ◌++◌, map, Option, some, Text, codes,
  arith,
}
use signal_call_tunnel.Config.{to_ascii_lowercase}
use signal_call_tunnel.Json.Escape.{IsPlain}
use signal_call_tunnel.Control.Commands.{AllBytes}
use signal_call_tunnel.Control.Threads.{ready_line}
use signal_call_tunnel.Platform.{
  CallMediaType, PlatformEvent, send_offer, send_answer, send_ice, send_hangup, send_busy,
  send_signaling, state_change, to_json, offer, answer, ice, hangup, busy, incoming, outgoing,
  ringing, connected, connecting, ended, rejected, concluded, event_of, state_of,
}
use signal_call_tunnel.Platform.Lines.{IsPlainEvent}
use signal_call_tunnel.Platform.Parent.{IsBytesEvent, read_line, read_line-to_json}
use signal_call_tunnel.Platform.Relay.{Notice, signaling, state, notice_event}
use signal_call_tunnel.Tunnel.Forward.EndToEnd.{line_of, output, output_lem}

append-IsPlain : (s t : Text) → IsPlain s → IsPlain t → IsPlain (s ++ t)
append-IsPlain [] t h k = k
append-IsPlain (c ∷ s) t h k = (h.0, append-IsPlain s t h.1 k)

lowercase-IsPlain : (s : Text) → IsPlain s → IsPlain (map to_ascii_lowercase s)
unfolding to_ascii_lowercase
lowercase-IsPlain [] h = tt
lowercase-IsPlain (c ∷ s) h =
    ((ground (arith, h.0), ground (arith, h.0), ground (arith, h.0)), lowercase-IsPlain s h.1)

named-IsPlain : (t : Text) → IsPlain t → IsPlain (t ++ codes ")")
named-IsPlain t h = append-IsPlain t (codes ")") h (omega arith)

module _ {H R : Type 0} (debug_hangup : H → Text) (debug_media : CallMediaType → Text)
    (debug_reason : R → Text) where
  -- What the parent is to learn: for each message of RingRTC its kind and its blobs, for each state
  -- its name, with the media type or the reason.
  abbrev pub meant : Notice H R → PlatformEvent
  meant (signaling call_id (offer opaque media)) = send_signaling call_id (send_offer opaque media)
  meant (signaling call_id (answer opaque)) = send_signaling call_id (send_answer opaque)
  meant (signaling call_id (ice candidates)) = send_signaling call_id (send_ice candidates)
  meant (signaling call_id (hangup h)) =
      send_signaling call_id (send_hangup (map to_ascii_lowercase (debug_hangup h)))
  meant (signaling call_id busy) = send_signaling call_id send_busy
  meant (state (incoming m)) = state_change (codes "Incoming(" ++ (debug_media m ++ codes ")")) none
  meant (state (outgoing m)) = state_change (codes "Outgoing(" ++ (debug_media m ++ codes ")")) none
  meant (state ringing) = state_change (codes "Ringing") none
  meant (state connected) = state_change (codes "Connected") none
  meant (state connecting) = state_change (codes "Connecting") none
  meant (state (ended r)) = state_change (codes "Ended") (some (debug_reason r))
  meant (state (rejected r)) = state_change (codes "Rejected") (some (debug_reason r))
  meant (state concluded) = state_change (codes "Concluded") none

module _ {H R : Type 0} (encode : List ℕ → Text) (decode : Text → Option (List ℕ))
    (decode-encode : (bytes : List ℕ) → AllBytes bytes → decode (encode bytes) ≡ some bytes)
    (plain : (bytes : List ℕ) → IsPlain (encode bytes)) (debug_hangup : H → Text)
    (debug_media : CallMediaType → Text) (debug_reason : R → Text)
    (hangup-plain : (h : H) → IsPlain (debug_hangup h))
    (media-plain : (m : CallMediaType) → IsPlain (debug_media m))
    (reason-plain : (r : R) → IsPlain (debug_reason r)) where
  abbrev known : Notice H R → PlatformEvent
  known = meant debug_hangup debug_media debug_reason

  abbrev event : Notice H R → PlatformEvent
  event = notice_event debug_hangup debug_media debug_reason

  event-meant : (n : Notice H R) → event n ≡ known n
  unfolding event_of state_of
  event-meant (signaling call_id (offer opaque media)) = refl
  event-meant (signaling call_id (answer opaque)) = refl
  event-meant (signaling call_id (ice candidates)) = refl
  event-meant (signaling call_id (hangup h)) = refl
  event-meant (signaling call_id busy) = refl
  event-meant (state (incoming m)) = refl
  event-meant (state (outgoing m)) = refl
  event-meant (state ringing) = refl
  event-meant (state connected) = refl
  event-meant (state connecting) = refl
  event-meant (state (ended r)) = refl
  event-meant (state (rejected r)) = refl
  event-meant (state concluded) = refl

  notice-IsPlain : (n : Notice H R) → IsPlainEvent (known n)
  notice-IsPlain (signaling call_id (offer opaque media)) = tt
  notice-IsPlain (signaling call_id (answer opaque)) = tt
  notice-IsPlain (signaling call_id (ice candidates)) = tt
  notice-IsPlain (signaling call_id (hangup h)) =
      lowercase-IsPlain (debug_hangup h) (hangup-plain h)
  notice-IsPlain (signaling call_id busy) = tt
  notice-IsPlain (state (incoming m)) =
      append-IsPlain (codes "Incoming(") (debug_media m ++ codes ")") (omega arith)
        (named-IsPlain (debug_media m) (media-plain m))
  notice-IsPlain (state (outgoing m)) =
      append-IsPlain (codes "Outgoing(") (debug_media m ++ codes ")") (omega arith)
        (named-IsPlain (debug_media m) (media-plain m))
  notice-IsPlain (state ringing) = omega arith
  notice-IsPlain (state connected) = omega arith
  notice-IsPlain (state connecting) = omega arith
  notice-IsPlain (state (ended r)) = (omega arith, reason-plain r)
  notice-IsPlain (state (rejected r)) = (omega arith, reason-plain r)
  notice-IsPlain (state concluded) = omega arith

  -- The blobs of the messages are of bytes.
  abbrev pub AllBytesIn : List (Notice H R) → Type 0
  AllBytesIn [] = Unit
  AllBytesIn (n ∷ ns) = IsBytesEvent (known n) × AllBytesIn ns

  lines-read :
      (ns : List (Notice H R))
      → AllBytesIn ns
      → map (read_line decode) (map (line_of encode debug_hangup debug_media debug_reason) ns)
        ≡ map (λ n. some (known n)) ns
  lines-read [] h = refl
  lines-read (n ∷ ns) h =
      ap₂ ◌∷◌
        (ap (λ e. read_line decode (to_json encode e)) (event-meant n)
          ∙ read_line-to_json encode decode decode-encode plain (known n) h.0 (notice-IsPlain n))
        (lines-read ns h.1)

  -- If base64 decodes what it encodes, its text and the names of RingRTC are plain, the blobs are
  -- bytes and stdout takes what is written, then stdout holds the ready line and further lines, one
  -- for each of RingRTC's notices in order, from which the parent reads what was meant: of a message
  -- its call, its kind and every blob, or the type of the hangup in lower case; of a state its name
  -- and media type or reason.
  pub output-Heard :
      (answers : ℕ → Bool × Bool) (input_name output_name : Text) (ns : List (Notice H R))
      → ((k : ℕ) → answers k ≡ (true, true))
      → AllBytesIn ns
      → (ls : List Text) × (output encode debug_hangup debug_media debug_reason answers input_name
            output_name ns
          ≡ ready_line input_name output_name ∷ ls)
        × (map (read_line decode) ls ≡ map (λ n. some (known n)) ns)
  output-Heard answers input_name output_name ns well h = (
    map (line_of encode debug_hangup debug_media debug_reason) ns,
    output_lem encode debug_hangup debug_media debug_reason answers input_name output_name ns well,
    lines-read ns h,
  )
