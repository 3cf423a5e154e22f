-- ===== src/Control/Kinds.antt =====
-- Which lines `parse_message` of control.rs accepts.
use signal_call_tunnel.Base.{
  ℕ, ◌<◌, ◌^◌, ◌≡◌, refl, ◌≢◌, sym, subst, ap, ◌∙◌, inl, inr, [], none, some, Text, codes, text_eq,
  text_eq_sound, arith, Option-cases,
}
use signal_call_tunnel.Control.{
  ControlMessage, create_outgoing_call, proceed, received_offer, received_answer, received_ice,
  accept, hangup, Codec, ParseError, invalid_json, unknown_type, Parsed, ok, err, text_at, u64_at,
  message_of, parse_message,
}

-- The `type` of the line that carries a message.
abbrev pub tag : ControlMessage → Text
tag (create_outgoing_call call_id peer_id) = codes "createOutgoingCall"
tag (proceed call_id ice_servers hide_ip) = codes "proceed"
tag (received_offer call_id peer_id device opaque age sender receiver) = codes "receivedOffer"
tag (received_answer opaque device sender receiver) = codes "receivedAnswer"
tag (received_ice candidates device) = codes "receivedIce"
tag accept = codes "accept"
tag hangup = codes "hangup"

-- The outcome for a value whose `type` member reads `t`.
abbrev pub IsOutcome : Text → Parsed → Type 0
IsOutcome t (ok m) = tag m ≡ t
IsOutcome t (err e) = e ≡ unknown_type t

module _ (codec : Codec) where
  message_of-IsOutcome : (v : codec.Value) (t : Text) → IsOutcome t (message_of codec v t)
  unfolding message_of
  message_of-IsOutcome v t = ground (
    arith,
    text_eq_sound t (codes "createOutgoingCall"),
    text_eq_sound t (codes "proceed"),
    text_eq_sound t (codes "receivedOffer"),
    text_eq_sound t (codes "receivedAnswer"),
    text_eq_sound t (codes "receivedIce"),
    text_eq_sound t (codes "accept"),
    text_eq_sound t (codes "hangup"),
  )

  message_of-known :
      (v : codec.Value) (m : ControlMessage) {e : ParseError} → message_of codec v (tag m) ≢ err e
  unfolding message_of text_eq
  message_of-known v (create_outgoing_call call_id peer_id) = λ h. cc
  message_of-known v (proceed call_id ice_servers hide_ip) = λ h. cc
  message_of-known v (received_offer call_id peer_id device opaque age sender receiver) = λ h. cc
  message_of-known v (received_answer opaque device sender receiver) = λ h. cc
  message_of-known v (received_ice candidates device) = λ h. cc
  message_of-known v accept = λ h. cc
  message_of-known v hangup = λ h. cc

  -- What the outcome of a line says of the line.
  abbrev pub IsParsed : Text → Parsed → Type 0
  IsParsed line (ok m) =
      (v : codec.Value) × (codec.from_str line ≡ some v)
      × (text_at codec v (codes "type") [] ≡ tag m)
  IsParsed line (err invalid_json) = codec.from_str line ≡ none
  IsParsed line (err (unknown_type t)) =
      (v : codec.Value) × (codec.from_str line ≡ some v)
      × (text_at codec v (codes "type") [] ≡ t)
      × ((m : ControlMessage) → tag m ≢ t)

  outcome-IsParsed :
      (line : Text) (v : codec.Value) (t : Text) (p : Parsed)
      → codec.from_str line ≡ some v
      → text_at codec v (codes "type") [] ≡ t
      → message_of codec v t ≡ p
      → IsOutcome t p
      → IsParsed line p
  outcome-IsParsed line v t (ok m) e k q h = (v, e, k ∙ sym h)
  outcome-IsParsed line v t (err invalid_json) e k q h = cc
  outcome-IsParsed line v t (err (unknown_type u)) e k q h =
      let w : u ≡ t = ground arith in
      (v, e, k ∙ sym w, λ m f. message_of-known v m (ap (message_of codec v) (f ∙ w) ∙ q))

  parse_message-some :
      (line : Text) (v : codec.Value)
      → codec.from_str line ≡ some v
      → parse_message codec line ≡ message_of codec v (text_at codec v (codes "type") [])
  unfolding parse_message
  parse_message-some line v e = rw (e, parse_message)

  parse_message-none :
      (line : Text) → codec.from_str line ≡ none → parse_message codec line ≡ err invalid_json
  unfolding parse_message
  parse_message-none line e = rw (e, parse_message)

  -- `parse_message` fails exactly on a line that is no JSON, or whose `type` is none of the seven;
  -- a message it returns is of the kind that the `type` names, whatever other members are missing.
  pub parse_message-IsParsed : (line : Text) → IsParsed line (parse_message codec line)
  parse_message-IsParsed line = elim (Option-cases (codec.from_str line)) [
    | inl e ↦ subst (IsParsed line) (sym (parse_message-none line e)) e
    | inr (v, e) ↦
        let t : Text = text_at codec v (codes "type") [] in
        subst (IsParsed line) (sym (parse_message-some line v e))
          (outcome-IsParsed line v t (message_of codec v t) e refl refl (message_of-IsOutcome v t))
  ]

-- The ranges of `u64` and `u32` fields.
abbrev pub IsInRange : Parsed → Type 0
IsInRange (ok (create_outgoing_call call_id peer_id)) = call_id < 2 ^ 64
IsInRange (ok (proceed call_id ice_servers hide_ip)) = call_id < 2 ^ 64
IsInRange (ok (received_offer call_id peer_id device opaque age sender receiver)) =
    (call_id < 2 ^ 64) × (device < 2 ^ 32) × (age < 2 ^ 64)
IsInRange (ok (received_answer opaque device sender receiver)) = device < 2 ^ 32
IsInRange (ok (received_ice candidates device)) = device < 2 ^ 32
IsInRange (ok accept) = Unit
IsInRange (ok hangup) = Unit
IsInRange (err e) = Unit

module _ (codec : Codec)
    (u64_law : (v : codec.Value) (n : ℕ) → codec.as_u64 v ≡ some n → n < 2 ^ 64) where
  u64_at-lt : (v : codec.Value) (key : Text) → u64_at codec v key 0 < 2 ^ 64
  u64_at-lt v key = elim (Option-cases (codec.as_u64 (codec.index v key))) [
    | inl e ↦ rw e (omega arith)
    | inr (n, e) ↦ rw e (u64_law (codec.index v key) n e)
  ]

  message_of-IsInRange : (v : codec.Value) (t : Text) → IsInRange (message_of codec v t)
  unfolding message_of
  message_of-IsInRange v t = ground (arith, u64_at-lt v (codes "callId"), u64_at-lt v (codes "age"))

  -- If `as_u64` answers with numbers below 2 ^ 64, every number in a parsed message fits the type
  -- of its field: a device id is cut to 32 bits.
  pub parse_message-IsInRange : (line : Text) → IsInRange (parse_message codec line)
  parse_message-IsInRange line = elim (Option-cases (codec.from_str line)) [
    | inl e ↦ subst IsInRange (sym (parse_message-none codec line e)) tt
    | inr (v, e) ↦
        subst IsInRange (sym (parse_message-some codec line v e)) (message_of-IsInRange v _)
  ]
