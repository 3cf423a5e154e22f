-- ===== src/Platform/Parent.antt =====
-- What the parent process learns from the lines of `PlatformEvent::to_json` in platform.rs.
use signal_call_tunnel.Base.{
  ℕ, ◌≡◌, refl, List, [], ◌∷◌, Option, none, some, ◌>>=◌, Text, codes, text_eq, if◌then◌else◌,
}
use signal_call_tunnel.Json.{Json}
use signal_call_tunnel.Json.Access.{index, as_str, as_u64, as_array, items}
use signal_call_tunnel.Json.Escape.{IsPlain}
use signal_call_tunnel.Json.Read.{read_json}
use signal_call_tunnel.Json.Read.RoundTrip.{read_json-render}
use signal_call_tunnel.Control.Commands.{AllBytes, AllBlobs}
use signal_call_tunnel.Platform.{
  CallMediaType, audio, video, send_offer, send_answer, send_ice, send_hangup, send_busy,
  PlatformEvent, send_signaling, state_change, to_json,
}
use signal_call_tunnel.Platform.Lines.{IsPlainEvent, document, candidates_of, to_json-render}

abbrev read_media : Text → Option CallMediaType
read_media s =
    if text_eq s (codes "audio")
    then some audio
    else if text_eq s (codes "video")
    then some video
    else none

-- The blobs of an event are of bytes.
abbrev pub IsBytesEvent : PlatformEvent → Type 0
IsBytesEvent (send_signaling call_id (send_offer opaque media)) = AllBytes opaque
IsBytesEvent (send_signaling call_id (send_answer opaque)) = AllBytes opaque
IsBytesEvent (send_signaling call_id (send_ice candidates)) = AllBlobs candidates
IsBytesEvent _ = Unit

-- `decode` is the parent's decoder of base64.
module _ (decode : Text → Option (List ℕ)) where
  unfoldable pub blob_at : Json → Option (List ℕ)
  blob_at v = do s ← as_str (index v (codes "opaque")); decode s

  unfoldable pub blobs_at : List Json → Option (List (List ℕ))
  unfolding blob_at
  blobs_at [] = some []
  blobs_at (v ∷ vs) = do b ← blob_at v; bs ← blobs_at vs; some (b ∷ bs)

  abbrev read_offer : Json → Option PlatformEvent
  read_offer v = do
    call_id ← as_u64 (index v (codes "callId"))
    opaque ← blob_at v
    s ← as_str (index v (codes "callMediaType"))
    media ← read_media s
    some (send_signaling call_id (send_offer opaque media))

  abbrev read_answer : Json → Option PlatformEvent
  read_answer v = do
    call_id ← as_u64 (index v (codes "callId"))
    opaque ← blob_at v
    some (send_signaling call_id (send_answer opaque))

  abbrev read_ice : Json → Option PlatformEvent
  read_ice v = do
    call_id ← as_u64 (index v (codes "callId"))
    vs ← as_array (index v (codes "candidates"))
    candidates ← blobs_at vs
    some (send_signaling call_id (send_ice candidates))

  abbrev read_hangup : Json → Option PlatformEvent
  read_hangup v = do
    call_id ← as_u64 (index v (codes "callId"))
    hangup_type ← as_str (index v (codes "hangupType"))
    some (send_signaling call_id (send_hangup hangup_type))

  abbrev read_busy : Json → Option PlatformEvent
  read_busy v = do
    call_id ← as_u64 (index v (codes "callId"))
    some (send_signaling call_id send_busy)

  abbrev read_state : Json → Option PlatformEvent
  read_state v = do
    state ← as_str (index v (codes "state"))
    some (state_change state (as_str (index v (codes "reason"))))

  -- The members of the document that its type asks for.
  abbrev read_kind : Json → Text → Option PlatformEvent
  read_kind v kind =
      if text_eq kind (codes "sendOffer")
      then read_offer v
      else if text_eq kind (codes "sendAnswer")
      then read_answer v
      else if text_eq kind (codes "sendIce")
      then read_ice v
      else if text_eq kind (codes "sendHangup")
      then read_hangup v
      else if text_eq kind (codes "sendBusy")
      then read_busy v
      else if text_eq kind (codes "stateChange")
      then read_state v
      else none

  unfoldable pub read_document : Json → Option PlatformEvent
  unfolding blobs_at text_eq
  read_document v = do kind ← as_str (index v (codes "type")); read_kind v kind

  unfoldable pub read_line : Text → Option PlatformEvent
  unfolding read_json read_document
  read_line l = do v ← read_json l; read_document v

module _ (encode : List ℕ → Text) (decode : Text → Option (List ℕ))
    (decode-encode : (bytes : List ℕ) → AllBytes bytes → decode (encode bytes) ≡ some bytes) where
  blobs_at-candidates :
      (cs : List (List ℕ))
      → AllBlobs cs
      → blobs_at decode (items (candidates_of encode cs)) ≡ some cs
  unfolding blobs_at blob_at text_eq
  blobs_at-candidates [] h = refl
  blobs_at-candidates (c ∷ cs) h = rw (decode-encode c h.0, blobs_at-candidates cs h.1)

  read_document-document :
      (e : PlatformEvent) → IsBytesEvent e → read_document decode (document encode e) ≡ some e
  unfolding read_document blob_at text_eq
  read_document-document (send_signaling call_id (send_offer opaque audio)) h =
      rw (decode-encode opaque h)
  read_document-document (send_signaling call_id (send_offer opaque video)) h =
      rw (decode-encode opaque h)
  read_document-document (send_signaling call_id (send_answer opaque)) h =
      rw (decode-encode opaque h)
  read_document-document (send_signaling call_id (send_ice candidates)) h =
      rw (blobs_at-candidates candidates h)
  read_document-document (send_signaling call_id (send_hangup hangup_type)) h = refl
  read_document-document (send_signaling call_id send_busy) h = refl
  read_document-document (state_change state none) h = refl
  read_document-document (state_change state (some reason)) h = refl

  module _ (plain : (bytes : List ℕ) → IsPlain (encode bytes)) where
    -- If base64 decodes what it encodes and its text is plain, every event whose blobs are bytes and
    -- whose texts are plain is read back from its line: the JSON reader accepts the line, and the
    -- members of the document give the event, with every blob.
    pub read_line-to_json :
        (e : PlatformEvent)
        → IsBytesEvent e
        → IsPlainEvent e
        → read_line decode (to_json encode e) ≡ some e
    unfolding read_line
    read_line-to_json e b p =
        rw (to_json-render encode plain e p, read_json-render (document encode e))
          (read_document-document e b)
