-- ===== src/Platform/Lines.antt =====
-- The lines of `PlatformEvent::to_json` in platform.rs and the documents of the events.
use Prim.Native.String.{String}
use signal_call_tunnel.Base.{
  ℕ, ◌≡◌, refl, ap₂, List, [], ◌∷◌, ◌++◌, append_assoc, map, none, some, Text, codes,
}
use signal_call_tunnel.Json.{
  Json, num, str, arr, obj, Items, nil, cons, Fields, end, field, escape, escape_char, render,
  render_items,
}
use signal_call_tunnel.Json.Escape.{IsPlain, escape-plain}
use signal_call_tunnel.Platform.{
  audio, video, send_offer, send_answer, send_ice, send_hangup, send_busy, PlatformEvent,
  send_signaling, state_change, join, media_type, candidate_json, to_json,
}

-- The texts that come from elsewhere need no escape.
abbrev pub IsPlainEvent : PlatformEvent → Type 0
IsPlainEvent (send_signaling call_id (send_hangup hangup_type)) = IsPlain hangup_type
IsPlainEvent (send_signaling call_id message) = Unit
IsPlainEvent (state_change state none) = IsPlain state
IsPlainEvent (state_change state (some reason)) = IsPlain state × IsPlain reason

abbrev tagged : String → Fields → Json
tagged tag fields = obj (field (codes "type") (str (codes tag)) fields)

module _ (encode : List ℕ → Text) where
  abbrev pub candidates_of : List (List ℕ) → Items
  candidates_of [] = nil
  candidates_of (c ∷ cs) =
      cons (obj (field (codes "opaque") (str (encode c)) end)) (candidates_of cs)

  -- What an event says on the control channel, as a document.
  abbrev pub document : PlatformEvent → Json
  document (send_signaling call_id (send_offer opaque media)) = tagged "sendOffer" (
      field (codes "callId") (num call_id) (
        field (codes "opaque") (str (encode opaque))
          (field (codes "callMediaType") (str (media_type media)) end)))
  document (send_signaling call_id (send_answer opaque)) =
      tagged "sendAnswer"
        (field (codes "callId") (num call_id) (field (codes "opaque") (str (encode opaque)) end))
  document (send_signaling call_id (send_ice candidates)) = tagged "sendIce" (
      field (codes "callId") (num call_id)
        (field (codes "candidates") (arr (candidates_of candidates)) end))
  document (send_signaling call_id (send_hangup hangup_type)) =
      tagged "sendHangup"
        (field (codes "callId") (num call_id) (field (codes "hangupType") (str hangup_type) end))
  document (send_signaling call_id send_busy) =
      tagged "sendBusy" (field (codes "callId") (num call_id) end)
  document (state_change state (some reason)) =
      tagged "stateChange"
        (field (codes "state") (str state) (field (codes "reason") (str reason) end))
  document (state_change state none) = tagged "stateChange" (field (codes "state") (str state) end)

  module _ (plain : (bytes : List ℕ) → IsPlain (encode bytes)) where
    candidate_json-render :
        (c : List ℕ)
        → render (obj (field (codes "opaque") (str (encode c)) end)) ≡ candidate_json encode c
    unfolding render escape escape_char candidate_json
    candidate_json-render c = simp (append_assoc, escape-plain (encode c) (plain c))

    candidates-render :
        (cs : List (List ℕ))
        → render_items (candidates_of cs) ≡ join (codes ",") (map (candidate_json encode) cs)
    unfolding render_items join
    candidates-render [] = refl
    candidates-render (c ∷ []) = candidate_json-render c
    candidates-render (c ∷ d ∷ cs) =
        ap₂ (λ (a b : Text). a ++ b',' ∷ b) (candidate_json-render c) (candidates-render (d ∷ cs))

    -- On every event the line is the text of the event's document, if the base64 text is plain and
    -- so are the texts that come from elsewhere.
    pub to_json-render :
        (e : PlatformEvent) → IsPlainEvent e → to_json encode e ≡ render (document e)
    unfolding to_json render escape escape_char
    to_json-render (send_signaling call_id (send_offer opaque audio)) h =
        simp (append_assoc, escape-plain (encode opaque) (plain opaque))
    to_json-render (send_signaling call_id (send_offer opaque video)) h =
        simp (append_assoc, escape-plain (encode opaque) (plain opaque))
    to_json-render (send_signaling call_id (send_answer opaque)) h =
        simp (append_assoc, escape-plain (encode opaque) (plain opaque))
    to_json-render (send_signaling call_id (send_ice candidates)) h =
        simp (append_assoc, ← candidates-render candidates)
    to_json-render (send_signaling call_id (send_hangup hangup_type)) h =
        simp (append_assoc, escape-plain hangup_type h)
    to_json-render (send_signaling call_id send_busy) h = refl
    to_json-render (state_change state (some reason)) h =
        simp (append_assoc, escape-plain state h.0, escape-plain reason h.1)
    to_json-render (state_change state none) h = simp (append_assoc, escape-plain state h)
