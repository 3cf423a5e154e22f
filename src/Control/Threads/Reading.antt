-- ===== src/Control/Threads/Reading.antt =====
-- What the reader thread of control.rs delivers.
use signal_call_tunnel.Base.{
  ℕ, ◌≡◌, refl, ap, ◌∙◌, ◌⊎◌, inl, inr, Bool, true, false, List, [], ◌∷◌, ◌++◌, append-nil,
  append_assoc, map, Text, Bool-cases, arith, if◌then◌else◌,
}
use signal_call_tunnel.Channel.{Channel, send}
use signal_call_tunnel.Control.{ControlMessage, Codec, ParseError, Parsed, ok, err, parse_message}
use signal_call_tunnel.Control.Threads.{
  is_whitespace, trim_end, trim, is_empty, Input, line, failed, deliver, receiver_dropped,
  read_lines,
}

abbrev pub is_white : Text → Bool
is_white [] = true
is_white (c ∷ s) = if is_whitespace c then is_white s else false

trim_end-ne : (c : ℕ) (s : Text) → is_whitespace c ≡ false → is_empty (trim_end (c ∷ s)) ≡ false
unfolding trim_end
trim_end-ne c s h = ground arith

-- Nothing is left of a text by `trim` exactly if it is all white space.
pub trim-is_white : (s : Text) → is_empty (trim s) ≡ is_white s
unfolding trim
trim-is_white [] = refl
trim-is_white (c ∷ s) = elim (Bool-cases (is_whitespace c)) [
  | inl e ↦ rw e (trim-is_white s)
  | inr e ↦ rw e (trim_end-ne c s e)
]

Parsed-cases : (p : Parsed) → ((e : ParseError) × (p ≡ err e)) ⊎ ((m : ControlMessage) × (p ≡ ok m))
Parsed-cases (err e) = inl (e, refl)
Parsed-cases (ok m) = inr (m, refl)

module _ (codec : Codec) where
  abbrev pub message_in : Parsed → List ControlMessage
  message_in (ok m) = m ∷ []
  message_in (err e) = []

  -- The messages in lines: a line of white space has none, and a line that is no message has none.
  abbrev pub messages_in : List Text → List ControlMessage
  messages_in [] = []
  messages_in (l ∷ ls) =
      (if is_white l then [] else message_in (parse_message codec l)) ++ messages_in ls

  -- Reading ends with stdin, or with a read error whatever comes behind it.
  abbrev pub IsEnd : List Input → Type 0
  IsEnd [] = Unit
  IsEnd (failed ∷ inputs) = Unit
  IsEnd _ = ⊥

  abbrev pub holding : List ControlMessage → Channel ControlMessage
  holding q = record { is_open = true; queue = q }

  read_lines-blank :
      (l : Text) (inputs : List Input) (messages : Channel ControlMessage)
      → is_empty (trim l) ≡ true
      → read_lines codec (line l ∷ inputs) messages ≡ read_lines codec inputs messages
  unfolding read_lines
  read_lines-blank l inputs messages e = rw (e, read_lines)

  read_lines-parsed :
      (l : Text) (inputs : List Input) (messages : Channel ControlMessage)
      → is_empty (trim l) ≡ false
      → read_lines codec (line l ∷ inputs) messages
        ≡ deliver codec (λ ms. read_lines codec inputs ms) messages (parse_message codec l)
  unfolding read_lines
  read_lines-parsed l inputs messages e = rw (e, read_lines)

  -- While the receiver is there, the reader delivers the messages of the lines before the end of
  -- stdin or an error, all of them and in order, behind what was queued; a blank or malformed line
  -- costs no other line anything.
  pub read_lines_lem :
      (ls : List Text) (end : List Input) (q : List ControlMessage)
      → IsEnd end
      → read_lines codec (map line ls ++ end) (holding q) ≡ holding (q ++ messages_in ls)
  unfolding read_lines send
  read_lines_lem [] [] q h = rw append-nil
  read_lines_lem [] (failed ∷ inputs) q h = rw append-nil
  read_lines_lem [] (line l ∷ inputs) q h = elim h [ ]
  read_lines_lem [] (receiver_dropped ∷ inputs) q h = elim h [ ]
  read_lines_lem (l ∷ ls) end q h = elim (Bool-cases (is_white l)) [
    | inl white ↦
        rw (read_lines-blank l (map line ls ++ end) (holding q) (trim-is_white l ∙ white), white)
          (read_lines_lem ls end q h)
    | inr black ↦ elim (Parsed-cases (parse_message codec l)) [
      | inl (e, p) ↦
          rw
            (
              read_lines-parsed l (map line ls ++ end) (holding q) (trim-is_white l ∙ black),
              p,
              black,
            )
            (read_lines_lem ls end q h)
      | inr (m, p) ↦
          rw
            (
              read_lines-parsed l (map line ls ++ end) (holding q) (trim-is_white l ∙ black),
              p,
              black,
            )
            (read_lines_lem ls end (q ++ m ∷ []) h
              ∙ ap holding (append_assoc q (m ∷ []) (messages_in ls)))
    ]
  ]
