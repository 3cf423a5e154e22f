-- ===== src/Platform/UnitTests.antt =====
-- The unit tests of platform.rs, as functions into Bool of what serde_json and base64 give: a panic
-- is false.
use signal_call_tunnel.Base.{
  ℕ, Bool, true, false, ◌&&◌, List, [], ◌∷◌, Option, none, some, ◌>>=◌, Text, codes, text_eq, ◌==◌,
  all_true, is_some_and, is_none,
}
use signal_call_tunnel.Control.{Codec}
use signal_call_tunnel.Platform.{
  audio, video, send_offer, send_answer, send_ice, send_hangup, send_busy, PlatformEvent,
  send_signaling, state_change, to_json,
}

-- `encode` is `BASE64.encode`, `get` is `Value::get`.
module _ (encode : List ℕ → Text) (codec : Codec)
    (get : codec.Value → Text → Option codec.Value) where
  unfoldable parse_event_json : PlatformEvent → Option codec.Value
  unfolding to_json
  parse_event_json event = codec.from_str (to_json encode event)

  -- `json[key] == text`, and so on; a number in JSON below 2 ^ 63 is the same as `u64` and as `i64`.
  abbrev is_text : codec.Value → Text → Text → Bool
  is_text json key text = is_some_and (text_eq text) (codec.as_str (codec.index json key))

  abbrev is_number : codec.Value → Text → ℕ → Bool
  is_number json key n = is_some_and (λ m. n == m) (codec.as_u64 (codec.index json key))

  abbrev decoded : codec.Value → Text → Option (List ℕ)
  decoded json key = do b64 ← codec.as_str (codec.index json key); codec.decode b64

  abbrev is_blob : codec.Value → Text → List ℕ → Bool
  is_blob json key bytes = is_some_and (text_eq bytes) (decoded json key)

  -- `json["candidates"]` has as many members, each with the blob of its place.
  abbrev are_blobs : List codec.Value → List (List ℕ) → Bool
  are_blobs [] [] = true
  are_blobs (c ∷ cs) (b ∷ bs) = is_blob c (codes "opaque") b && are_blobs cs bs
  are_blobs _ _ = false

  abbrev are_candidates : codec.Value → List (List ℕ) → Bool
  are_candidates json blobs =
      is_some_and (λ cs. are_blobs cs blobs)
        (codec.as_array (codec.index json (codes "candidates")))

  unfoldable send_offer_json : Bool
  send_offer_json =
      is_some_and
        (λ json.
          is_text json (codes "type") (codes "sendOffer")
          && (is_number json (codes "callId") 42
              && (is_text json (codes "callMediaType") (codes "audio")
                  && is_blob json (codes "opaque") (1 ∷ 2 ∷ 3 ∷ []))))
        (parse_event_json (send_signaling 42 (send_offer (1 ∷ 2 ∷ 3 ∷ []) audio)))

  unfoldable send_offer_video_json : Bool
  send_offer_video_json =
      is_some_and (λ json. is_text json (codes "callMediaType") (codes "video"))
        (parse_event_json (send_signaling 1 (send_offer [] video)))

  unfoldable send_answer_json : Bool
  send_answer_json =
      is_some_and
        (λ json.
          is_text json (codes "type") (codes "sendAnswer")
          && (is_number json (codes "callId") 99 && is_blob json (codes "opaque") (4 ∷ 5 ∷ 6 ∷ [])))
        (parse_event_json (send_signaling 99 (send_answer (4 ∷ 5 ∷ 6 ∷ []))))

  unfoldable send_ice_json : Bool
  send_ice_json =
      is_some_and
        (λ json.
          is_text json (codes "type") (codes "sendIce")
          && (is_number json (codes "callId") 7
              && are_candidates json ((10 ∷ 20 ∷ []) ∷ (30 ∷ 40 ∷ []) ∷ [])))
        (parse_event_json (send_signaling 7 (send_ice ((10 ∷ 20 ∷ []) ∷ (30 ∷ 40 ∷ []) ∷ []))))

  unfoldable send_ice_empty_candidates_json : Bool
  send_ice_empty_candidates_json =
      is_some_and (λ json. are_candidates json [])
        (parse_event_json (send_signaling 1 (send_ice [])))

  unfoldable send_hangup_json : Bool
  send_hangup_json =
      is_some_and
        (λ json.
          is_text json (codes "type") (codes "sendHangup")
          && (is_number json (codes "callId") 50
              && is_text json (codes "hangupType") (codes "normal")))
        (parse_event_json (send_signaling 50 (send_hangup (codes "normal"))))

  unfoldable send_busy_json : Bool
  send_busy_json =
      is_some_and
        (λ json.
          is_text json (codes "type") (codes "sendBusy") && is_number json (codes "callId") 8)
        (parse_event_json (send_signaling 8 send_busy))

  unfoldable state_change_with_reason_json : Bool
  state_change_with_reason_json =
      is_some_and
        (λ json.
          is_text json (codes "type") (codes "stateChange")
          && (is_text json (codes "state") (codes "Ended")
              && is_text json (codes "reason") (codes "Timeout")))
        (parse_event_json (state_change (codes "Ended") (some (codes "Timeout"))))

  unfoldable state_change_without_reason_json : Bool
  state_change_without_reason_json =
      is_some_and
        (λ json.
          is_text json (codes "type") (codes "stateChange")
          && (is_text json (codes "state") (codes "Connected")
              && is_none (get json (codes "reason"))))
        (parse_event_json (state_change (codes "Connected") none))

  unfoldable round_trip_offer : Bool
  round_trip_offer =
      let opaque : List ℕ = 222 ∷ 173 ∷ 190 ∷ 239 ∷ [] in
      is_some_and (λ json. is_blob json (codes "opaque") opaque)
        (parse_event_json (send_signaling 123 (send_offer opaque audio)))

  unfoldable round_trip_ice : Bool
  round_trip_ice =
      let candidates : List (List ℕ) = (1 ∷ 2 ∷ 3 ∷ []) ∷ (4 ∷ 5 ∷ 6 ∷ 7 ∷ 8 ∷ []) ∷ [] in
      is_some_and (λ json. are_candidates json candidates)
        (parse_event_json (send_signaling 456 (send_ice candidates)))

  unfoldable pub unit_tests : Bool
  unfolding parse_event_json send_offer_json send_offer_video_json send_answer_json send_ice_json
      send_ice_empty_candidates_json send_hangup_json send_busy_json state_change_with_reason_json
      state_change_without_reason_json round_trip_offer round_trip_ice
  unit_tests = all_true (
      send_offer_json ∷ send_offer_video_json ∷ send_answer_json ∷ send_ice_json
      ∷ send_ice_empty_candidates_json ∷ send_hangup_json ∷ send_busy_json
      ∷ state_change_with_reason_json ∷ state_change_without_reason_json ∷ round_trip_offer
      ∷ round_trip_ice ∷ [])
