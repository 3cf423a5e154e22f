-- ===== src/Tunnel/Forward/EndToEnd.antt =====
-- From a callback of RingRTC to a line on stdout, through platform.rs, main.rs and control.rs.
use signal_call_tunnel.Base.{
  ℕ, ◌≡◌, refl, ap, ◌∙◌, Bool, true, List, [], ◌∷◌, ◌++◌, append-nil, append_assoc, map, Text,
}
use signal_call_tunnel.Channel.{channel, send}
use signal_call_tunnel.Platform.{CallMediaType, PlatformEvent, to_json}
use signal_call_tunnel.Platform.Relay.{Notice, notice_event, callbacks, callbacks-queue}
use signal_call_tunnel.Control.Threads.{send_event, write_lines, ready_line, start_control_channel}
use signal_call_tunnel.Control.Threads.Writing.{write_lines-all}
use signal_call_tunnel.Tunnel.Forward.{forward}

module _ (encode : List ℕ → Text) where
  forward-queue :
      (events : List PlatformEvent) (q : List Text)
      → forward encode events (record { is_open = true; queue = q })
        ≡ record { is_open = true; queue = q ++ map (to_json encode) events }
  unfolding forward send_event send
  forward-queue [] q = rw append-nil
  forward-queue (e ∷ events) q =
      forward-queue events (q ++ to_json encode e ∷ [])
      ∙ ap (λ (l : List Text). record { is_open = true; queue = l })
          (append_assoc q (to_json encode e ∷ []) (map (to_json encode) events))

module _ {H R : Type 0} (encode : List ℕ → Text) (debug_hangup : H → Text)
    (debug_media : CallMediaType → Text) (debug_reason : R → Text) where
  abbrev pub line_of : Notice H R → Text
  line_of n = to_json encode (notice_event debug_hangup debug_media debug_reason n)

  -- The lines on stdout after the notices, the channels being those of the start.
  abbrev pub output : (ℕ → Bool × Bool) → Text → Text → List (Notice H R) → List Text
  output answers input_name output_name ns =
      write_lines answers 0
        (forward encode (callbacks debug_hangup debug_media debug_reason ns channel).queue
          (start_control_channel input_name output_name).lines).queue

  lines_of :
      (ns : List (Notice H R))
      → map (to_json encode) (map (notice_event debug_hangup debug_media debug_reason) ns)
        ≡ map line_of ns
  lines_of [] = refl
  lines_of (n ∷ ns) = ap (λ l. line_of n ∷ l) (lines_of ns)

  -- As long as stdout takes what is written, it gets the ready line first and then one line for
  -- each notice of RingRTC, in order: none is lost, doubled or reordered.
  pub output_lem :
      (answers : ℕ → Bool × Bool) (input_name output_name : Text) (ns : List (Notice H R))
      → ((k : ℕ) → answers k ≡ (true, true))
      → output answers input_name output_name ns
        ≡ ready_line input_name output_name ∷ map line_of ns
  unfolding start_control_channel send channel
  output_lem answers input_name output_name ns h =
      write_lines-all answers 0 _ h
      ∙ rw (callbacks-queue debug_hangup debug_media debug_reason ns [], forward-queue encode)
          (ap (λ l. ready_line input_name output_name ∷ l) (lines_of ns))
