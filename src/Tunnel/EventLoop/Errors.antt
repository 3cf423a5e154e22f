-- ===== src/Tunnel/EventLoop/Errors.antt =====
-- The error lines of the event loop in main.rs.
use mathlib.Core.List.{append_cancel_left, append_cancel_right}
use signal_call_tunnel.Base.{
  ◌≡◌, ◌↔◌, sym, ap, ◌∙◌, true, false, ◌++◌, append_assoc, map, Option, none, some, Text, codes,
  arith,
}
use signal_call_tunnel.Channel.{Channel}
use signal_call_tunnel.Platform.{audio}
use signal_call_tunnel.Json.{Json, str, obj, end, field, escape, escape_char, render}
use signal_call_tunnel.Control.{ControlMessage}
use signal_call_tunnel.Control.Threads.{send_line}
use signal_call_tunnel.Tunnel.EventLoop.{
  Request, Ringrtc, Local, Session, ice_server, error_line, create_tracks, handle,
}

abbrev pub error_document : Text → Text → Json
error_document what e = obj (
    field (codes "type") (str (codes "error"))
      (field (codes "message") (str (what ++ (codes ": " ++ e))) end))

abbrev before : Text
before = codes "{\"type\":\"error\",\"message\":\""

error_line-split :
    (what e : Text) → error_line what e ≡ before ++ ((what ++ (codes ": " ++ e)) ++ codes "\"}")
unfolding error_line
error_line-split what e = simp append_assoc

render-split :
    (what e : Text)
    → render (error_document what e) ≡ before ++ (escape (what ++ (codes ": " ++ e)) ++ codes "\"}")
unfolding render escape escape_char
render-split what e = simp append_assoc

-- The error line is the JSON text of its document exactly if escaping leaves the message as it is.
pub error_line-render_iff :
    (what e : Text)
    → (error_line what e ≡ render (error_document what e))
      ↔ (what ++ (codes ": " ++ e) ≡ escape (what ++ (codes ": " ++ e)))
error_line-render_iff what e = (
  λ h.
      append_cancel_right _ _ (codes "\"}")
        (append_cancel_left before _ _ (sym (error_line-split what e) ∙ h ∙ render-split what e)),
  λ h.
      error_line-split what e
      ∙ ap (λ m. before ++ (m ++ codes "\"}")) h
      ∙ sym (render-split what e),
)

-- What is queued for the answer to a call that is reported.
abbrev pub reported : Text → Option Text → Channel Text → Channel Text
reported what none lines = lines
reported what (some e) lines = send_line (error_line what e) lines

module _ (rtc : Ringrtc) (local : Local) where
  -- Which lines a message adds: those of a failed call or proceed, and none in any other case.
  abbrev pub lines_after : ControlMessage → Session rtc.World → Channel Text
  lines_after (ControlMessage.create_outgoing_call cid pid) s =
      reported (codes "failed to create outgoing call")
        (rtc.call (Request.create_outgoing_call pid cid audio local.local_device_id) s.world).0
        s.lines
  lines_after (ControlMessage.proceed cid servers hide_ip) s =
      let (created, world) = create_tracks rtc local s.world in
      elim created [
        | true ↦
            reported (codes "failed to proceed")
              (rtc.call (Request.proceed cid hide_ip (map ice_server servers)) world).0 s.lines
        | false ↦ s.lines
      ]
  lines_after m s = s.lines

  -- For every message: the parent is told of a failure to create a call, and of a failure to
  -- proceed with one, with RingRTC's error; of a failure to create the tracks, and of every other
  -- failure, it is told nothing.
  pub lines-handle :
      (m : ControlMessage) (s : Session rtc.World) → (handle rtc local m s).lines ≡ lines_after m s
  unfolding handle
  lines-handle (ControlMessage.create_outgoing_call cid pid) s = ground arith
  lines-handle (ControlMessage.proceed cid servers hide_ip) s = ground arith
  lines-handle (ControlMessage.received_offer cid pid device opaque age sender receiver) s =
      ground arith
  lines-handle (ControlMessage.received_answer opaque device sender receiver) s = ground arith
  lines-handle (ControlMessage.received_ice candidates device) s = ground arith
  lines-handle ControlMessage.accept s = ground arith
  lines-handle ControlMessage.hangup s = ground arith
