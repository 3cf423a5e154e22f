-- ===== src/Platform/Tests.antt =====
-- platform.rs at concrete inputs.
use signal_call_tunnel.Base.{
  false, ◌≡◌, refl, true, List, [], ◌∷◌, map, Option, none, some, text_eq, if◌then◌else◌, Text,
  codes, arith, decimal,
}
use signal_call_tunnel.Base64.{encode64, decode64, decode64-encode64, encode64-IsPlain}
use signal_call_tunnel.Config.{to_ascii_lowercase}
use signal_call_tunnel.Control.Commands.{json_codec}
use signal_call_tunnel.Json.Read.{read_json}
use signal_call_tunnel.Json.{Json, obj, end, field, render}
use signal_call_tunnel.Platform.UnitTests.{unit_tests}
use signal_call_tunnel.Json.Escape.{IsPlain}
use signal_call_tunnel.Platform.{
  PlatformEvent, CallMediaType, audio, video, send_ice, send_hangup, send_signaling, state_change,
  to_json, hangup, ended, event_of, state_of,
}
use signal_call_tunnel.Platform.Lines.{document, to_json-render}
use signal_call_tunnel.Platform.Parent.{read_line, read_line-to_json}
use signal_call_tunnel.Channel.{Channel}
use signal_call_tunnel.Platform.Callbacks.{
  Callback, notice, handle_audio_levels, handle_remote_audio_state, ok, respond_all, notices_of,
  extended, respond_all_lem,
}
use signal_call_tunnel.Platform.Relay.{Notice, signaling, state, notice_event}

hangup_line :
    to_json encode64 (send_signaling 50 (send_hangup (codes "normal")))
    ≡ codes "{\"type\":\"sendHangup\",\"callId\":50,\"hangupType\":\"normal\"}"
unfolding to_json decimal
hangup_line = refl

ice_line :
    to_json encode64 (send_signaling 7 (send_ice ((1 ∷ []) ∷ (2 ∷ []) ∷ [])))
    ≡ codes
        "{\"type\":\"sendIce\",\"callId\":7,\"candidates\":[{\"opaque\":\"AQ==\"},{\"opaque\":\"Ag==\"}]}"
unfolding to_json decimal encode64
ice_line = refl

ended-IsPlain : IsPlain (codes "Ended")
ended-IsPlain = omega arith

timeout-IsPlain : IsPlain (codes "Timeout")
timeout-IsPlain = omega arith

to_json-render_example :
    to_json encode64 (state_change (codes "Ended") (some (codes "Timeout")))
    ≡ render (document encode64 (state_change (codes "Ended") (some (codes "Timeout"))))
to_json-render_example =
    to_json-render encode64 encode64-IsPlain (state_change (codes "Ended") (some (codes "Timeout")))
      (ended-IsPlain, timeout-IsPlain)

-- The texts that RingRTC's `Debug` would give.
abbrev debug_media : CallMediaType → Text
debug_media audio = codes "Audio"
debug_media video = codes "Video"

abbrev as_is : Text → Text
as_is t = t

abbrev notices : List (Notice Text Text)
notices = signaling 9 (hangup (codes "NORMAL")) ∷ state (ended (codes "Timeout")) ∷ []

notice_tests :
    map (notice_event as_is debug_media as_is) notices
    ≡ send_signaling 9 (send_hangup (codes "normal"))
      ∷ state_change (codes "Ended") (some (codes "Timeout"))
      ∷ []
unfolding event_of state_of to_ascii_lowercase
notice_tests = refl

abbrev calls : List (Callback Text Text)
calls =
    handle_audio_levels
    ∷ notice (signaling 9 (hangup (codes "NORMAL")))
    ∷ handle_remote_audio_state true
    ∷ notice (state (ended (codes "Timeout")))
    ∷ []

abbrev closed_channel : Channel PlatformEvent
closed_channel = record { is_open = false; queue = [] }

respond_all_lem_example :
    ((respond_all as_is debug_media as_is calls closed_channel).0 ≡ map (λ c. ok) calls)
    × ((respond_all as_is debug_media as_is calls closed_channel).1
        ≡ extended as_is debug_media as_is
            (notices_of as_is debug_media as_is calls)
            closed_channel)
respond_all_lem_example = respond_all_lem as_is debug_media as_is calls closed_channel

-- The bytes of `round_trip_ice` in the tests of platform.rs.
abbrev candidates_event : PlatformEvent
candidates_event = send_signaling 456 (send_ice ((1 ∷ 2 ∷ 3 ∷ []) ∷ (4 ∷ 5 ∷ 6 ∷ 7 ∷ 8 ∷ []) ∷ []))

read_line-to_json_example :
    read_line decode64 (to_json encode64 candidates_event) ≡ some candidates_event
read_line-to_json_example =
    read_line-to_json encode64 decode64 decode64-encode64 encode64-IsPlain candidates_event
      (omega arith) tt

-- `Value::get`.
abbrev get : Json → Text → Option Json
get (obj end) key = none
get (obj (field k v fs)) key = if text_eq k key then some v else get (obj fs) key
get _ key = none

unit_tests_lem : unit_tests encode64 (json_codec read_json decode64) get ≡ true
unfolding unit_tests to_json decimal encode64 decode64 read_json text_eq
unit_tests_lem = refl
