-- ===== src/Control/UnitTests.antt =====
-- The unit tests of control.rs, as functions into Bool of what serde_json and base64 give: a panic is
-- false. The tests `parse_received_ice` and `parse_received_ice_empty` are left out: their patterns
-- name one field of two, which the compiler refuses.
use signal_call_tunnel.Base.{
  Bool, true, false, ◌&&◌, ◌||◌, List, [], ◌∷◌, ◌++◌, Text, codes, text_eq, ◌==◌, not, length,
  all_true, lines, lines,
}
use signal_call_tunnel.Control.{
  IceServerConfig, create_outgoing_call, proceed, received_offer, received_answer, accept, hangup,
  Codec, Parsed, ParseError, invalid_json, ok, err, unknown_type, parse_message,
}

-- `str::contains`.
abbrev starts : Text → Text → Bool
starts [] s = true
starts (w ∷ word) [] = false
starts (w ∷ word) (c ∷ s) = w == c && starts word s

abbrev contains : Text → Text → Bool
contains [] word = starts word []
contains (c ∷ s) word = starts word (c ∷ s) || contains s word

-- The error's message, as anyhow shows it.
unfoldable error_text : ParseError → Text
error_text invalid_json = codes "invalid JSON"
error_text (unknown_type t) = codes "unknown message type: " ++ t

unfoldable is_created : Parsed → Bool
is_created (ok (create_outgoing_call call_id peer_id)) =
    call_id == 42 && text_eq peer_id (codes "abc-def")
is_created _ = false

-- Two URLs, the first as written.
unfoldable are_urls : List Text → Bool
are_urls (u ∷ v ∷ []) = text_eq u (codes "turn:example.com:3478")
are_urls _ = false

unfoldable are_servers : List IceServerConfig → Bool
unfolding are_urls
are_servers (s ∷ t ∷ []) =
    text_eq s.username (codes "user1")
    && (text_eq s.password (codes "pass1")
        && (are_urls s.urls && (text_eq t.username (codes "user2") && length t.urls == 1)))
are_servers _ = false

unfoldable is_proceeding : Parsed → Bool
unfolding are_servers
is_proceeding (ok (proceed call_id ice_servers hide_ip)) =
    call_id == 99 && (hide_ip && are_servers ice_servers)
is_proceeding _ = false

unfoldable is_bare : Parsed → Bool
is_bare (ok (proceed call_id [] hide_ip)) = call_id == 1 && not hide_ip
is_bare _ = false

unfoldable is_offer : Parsed → Bool
is_offer
      (ok (
        received_offer call_id peer_id sender_device_id opaque age_ms sender_identity_key
          receiver_identity_key)) =
    call_id == 100
    && (text_eq peer_id (codes "0b949a17-dc53-41b1-9ebc-dea99cb93920")
        && (sender_device_id == 3
            && (text_eq opaque (codes "hello")
                && (age_ms == 500
                    && (text_eq sender_identity_key (1 ∷ 2 ∷ 3 ∷ [])
                        && text_eq receiver_identity_key (4 ∷ 5 ∷ 6 ∷ []))))))
is_offer _ = false

unfoldable is_answer : Parsed → Bool
is_answer (ok (received_answer opaque sender_device_id sender_identity_key receiver_identity_key)) =
    text_eq opaque (1 ∷ 2 ∷ 3 ∷ [])
    && (sender_device_id == 2
        && (text_eq sender_identity_key (4 ∷ 5 ∷ 6 ∷ [])
            && text_eq receiver_identity_key (7 ∷ 8 ∷ 9 ∷ [])))
is_answer _ = false

unfoldable is_accept : Parsed → Bool
is_accept (ok accept) = true
is_accept _ = false

unfoldable is_hangup : Parsed → Bool
is_hangup (ok hangup) = true
is_hangup _ = false

unfoldable is_unknown : Parsed → Bool
unfolding error_text
is_unknown (err e) = contains (error_text e) (codes "unknown message type")
is_unknown (ok m) = false

unfoldable is_err : Parsed → Bool
is_err (err e) = true
is_err (ok m) = false

module _ (codec : Codec) where
  unfoldable pub parse_create_outgoing_call : Bool
  unfolding is_created
  parse_create_outgoing_call = is_created (
      parse_message codec
        (codes "{\"type\":\"createOutgoingCall\",\"callId\":42,\"peerId\":\"abc-def\"}"))

  unfoldable pub parse_proceed_with_ice_servers : Bool
  unfolding is_proceeding
  parse_proceed_with_ice_servers = is_proceeding (
      parse_message codec (
        lines (
          codes "{"
          ∷ codes "            \"type\": \"proceed\","
          ∷ codes "            \"callId\": 99,"
          ∷ codes "            \"hideIp\": true,"
          ∷ codes "            \"iceServers\": ["
          ∷ codes "                {"
          ∷ codes "                    \"username\": \"user1\","
          ∷ codes "                    \"password\": \"pass1\","
          ∷ codes
              "                    \"urls\": [\"turn:example.com:3478\", \"stun:example.com:3478\"]"
          ∷ codes "                },"
          ∷ codes "                {"
          ∷ codes "                    \"username\": \"user2\","
          ∷ codes "                    \"password\": \"pass2\","
          ∷ codes "                    \"urls\": [\"turn:other.com:443\"]"
          ∷ codes "                }"
          ∷ codes "            ]"
          ∷ codes "        }"
          ∷ [])))

  unfoldable pub parse_proceed_no_ice_servers : Bool
  unfolding is_bare
  parse_proceed_no_ice_servers =
      is_bare (parse_message codec (codes "{\"type\":\"proceed\",\"callId\":1}"))

  unfoldable pub parse_received_offer : Bool
  unfolding is_offer
  parse_received_offer = is_offer (
      parse_message codec (
        lines (
          codes "{"
          ∷ codes "            \"type\": \"receivedOffer\","
          ∷ codes "            \"callId\": 100,"
          ∷ codes "            \"peerId\": \"0b949a17-dc53-41b1-9ebc-dea99cb93920\","
          ∷ codes "            \"senderDeviceId\": 3,"
          ∷ codes "            \"opaque\": \"aGVsbG8=\","
          ∷ codes "            \"age\": 500,"
          ∷ codes "            \"senderIdentityKey\": \"AQID\","
          ∷ codes "            \"receiverIdentityKey\": \"BAUG\""
          ∷ codes "        }"
          ∷ [])))

  unfoldable pub parse_received_answer : Bool
  unfolding is_answer
  parse_received_answer = is_answer (
      parse_message codec (
        lines (
          codes "{"
          ∷ codes "            \"type\": \"receivedAnswer\","
          ∷ codes "            \"opaque\": \"AQID\","
          ∷ codes "            \"senderDeviceId\": 2,"
          ∷ codes "            \"senderIdentityKey\": \"BAUG\","
          ∷ codes "            \"receiverIdentityKey\": \"BwgJ\""
          ∷ codes "        }"
          ∷ [])))

  unfoldable pub parse_accept : Bool
  unfolding is_accept
  parse_accept = is_accept (parse_message codec (codes "{\"type\":\"accept\"}"))

  unfoldable pub parse_hangup : Bool
  unfolding is_hangup
  parse_hangup = is_hangup (parse_message codec (codes "{\"type\":\"hangup\"}"))

  unfoldable pub parse_unknown_type_fails : Bool
  unfolding is_unknown
  parse_unknown_type_fails = is_unknown (parse_message codec (codes "{\"type\":\"foobar\"}"))

  unfoldable pub parse_invalid_json_fails : Bool
  unfolding is_err
  parse_invalid_json_fails = is_err (parse_message codec (codes "not json at all"))

  unfoldable pub parse_missing_type_fails : Bool
  unfolding is_err
  parse_missing_type_fails = is_err (parse_message codec (codes "{\"callId\":1}"))

  unfoldable pub unit_tests : Bool
  unfolding parse_create_outgoing_call parse_proceed_with_ice_servers parse_proceed_no_ice_servers
      parse_received_offer parse_received_answer parse_accept parse_hangup parse_unknown_type_fails
      parse_invalid_json_fails parse_missing_type_fails
  unit_tests = all_true (
      parse_create_outgoing_call ∷ parse_proceed_with_ice_servers ∷ parse_proceed_no_ice_servers
      ∷ parse_received_offer ∷ parse_received_answer ∷ parse_accept ∷ parse_hangup
      ∷ parse_unknown_type_fails ∷ parse_invalid_json_fails ∷ parse_missing_type_fails ∷ [])
