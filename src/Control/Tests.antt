-- ===== src/Control/Tests.antt =====
-- control.rs at concrete inputs.
use signal_call_tunnel.Base.{
  ℕ, ◌<◌, ◌^◌, ◌≡◌, refl, [], ◌∷◌, ◌++◌, map, Option, none, some, Text, codes, arith, text_eq, List,
  ltb, if◌then◌else◌, true,
}
use signal_call_tunnel.Base64.{encode64, decode64, decode64-encode64}
use signal_call_tunnel.Json.Read.{read_json}
use signal_call_tunnel.Json.{Json, null, bool, num, str, arr, obj, nil, cons, end, field}
use signal_call_tunnel.Control.{
  ControlMessage, received_ice, received_answer, hangup, Codec, ok, err, invalid_json, unknown_type,
  parse_message,
}
use signal_call_tunnel.Control.Kinds.{
  IsParsed, parse_message-IsParsed, IsInRange, parse_message-IsInRange,
}
use signal_call_tunnel.Control.Commands.{json_codec, parse_message-command}
use signal_call_tunnel.Control.UnitTests.{unit_tests}
use signal_call_tunnel.Control.Threads.{line, failed, read_lines}
use signal_call_tunnel.Control.Threads.Reading.{messages_in, holding, read_lines_lem}

abbrev answer : ControlMessage
answer = received_answer (1 ∷ 2 ∷ 3 ∷ []) 2 (4 ∷ []) (7 ∷ [])

abbrev codec : Codec
codec = json_codec read_json decode64

abbrev answer_line : Text
answer_line =
    codes
      "{\"type\":\"receivedAnswer\", \"opaque\":\"AQID\", \"senderDeviceId\":2, \"senderIdentityKey\":\"BA==\", \"receiverIdentityKey\":\"Bw==\"}"

-- Three of the lines in the tests of control.rs.
parse_tests :
    (parse_message codec (codes "{\"type\":\"hangup\"}") ≡ ok hangup)
    × (parse_message codec (codes "{\"type\":\"foobar\"}") ≡ err (unknown_type (codes "foobar")))
    × (parse_message codec (codes "not json") ≡ err invalid_json)
unfolding parse_message text_eq read_json
parse_tests = (refl, refl, refl)

-- A missing device id is 1, a missing blob is empty.
defaults :
    parse_message
      (json_codec
        (λ l. some (obj (field (codes "type") (str (codes "receivedAnswer")) end)))
        decode64)
      []
    ≡ ok (received_answer [] 1 [] [])
unfolding parse_message text_eq decode64
defaults = refl

-- Candidates that are objects, as `to_json` writes them, are left out.
object_candidates :
    parse_message
      (json_codec
        (λ l. some (
          obj (
            field (codes "type") (str (codes "receivedIce")) (
              field
                (codes "candidates")
                (arr (
                  cons
                    (obj (field (codes "opaque") (str (codes "AQ==")) end))
                    (cons (str (codes "Ag==")) nil)))
                end))))
        decode64)
      []
    ≡ ok (received_ice ((2 ∷ []) ∷ []) 1)
unfolding parse_message text_eq decode64
object_candidates = refl

parse_message-command_example : parse_message codec answer_line ≡ ok answer
unfolding read_json encode64
parse_message-command_example =
    parse_message-command read_json encode64 decode64 decode64-encode64 answer answer_line
      (
        omega arith,
        (omega arith, (omega arith, (omega arith, tt))),
        (omega arith, tt),
        (omega arith, tt),
      )
      refl

parse_message-IsParsed_example : IsParsed codec answer_line (parse_message codec answer_line)
parse_message-IsParsed_example = parse_message-IsParsed codec answer_line

-- As serde_json does, numbers beyond `u64` are none.
abbrev as_bounded : Json → Option ℕ
as_bounded (num n) = if ltb n (2 ^ 64) then some n else none
as_bounded _ = none

abbrev bounded_codec : Codec
bounded_codec = record codec { as_u64 = as_bounded }

bounded-lt : (v : Json) (n : ℕ) → as_bounded v ≡ some n → n < 2 ^ 64
bounded-lt (num k) n h = ground arith
bounded-lt null n h = ground arith
bounded-lt (bool b) n h = ground arith
bounded-lt (str s) n h = ground arith
bounded-lt (arr xs) n h = ground arith
bounded-lt (obj fs) n h = ground arith

parse_message-IsInRange_example : IsInRange (parse_message bounded_codec answer_line)
parse_message-IsInRange_example = parse_message-IsInRange bounded_codec bounded-lt answer_line

abbrev several_lines : List Text
several_lines = answer_line ∷ codes " \t" ∷ codes "?" ∷ codes "{\"type\":\"hangup\"}" ∷ []

read_lines_lem_example :
    read_lines codec (map line several_lines ++ (failed ∷ [])) (holding codec [])
    ≡ holding codec (messages_in codec several_lines)
read_lines_lem_example = read_lines_lem codec several_lines (failed ∷ []) [] tt

unit_tests_lem : unit_tests codec ≡ true
unfolding unit_tests parse_message text_eq read_json decode64
unit_tests_lem = refl
