-- ===== src/Control/Threads/Writing.antt =====
-- What the writer thread of control.rs puts on stdout.
use signal_call_tunnel.Base.{
  ℕ, suc, ◌≡◌, refl, ap, inl, inr, Bool, true, List, [], ◌∷◌, ◌++◌, append_assoc, Text, codes,
  Bool-cases,
}
use signal_call_tunnel.Control.Threads.{write_lines, ready_line}
use signal_call_tunnel.Json.{Json, str, obj, end, field, escape, escape_char, render}
use signal_call_tunnel.Json.Escape.{IsPlain, escape-plain}

-- Stdout gets the queued lines in order up to a failure, and nothing behind it.
pub write_lines-prefix :
    (answers : ℕ → Bool × Bool) (n : ℕ) (lines : List Text)
    → (unwritten : List Text) × (lines ≡ write_lines answers n lines ++ unwritten)
unfolding write_lines
write_lines-prefix answers n [] = ([], refl)
write_lines-prefix answers n (l ∷ lines) = elim (Bool-cases (answers n).0) [
  | inr unwritable ↦ (l ∷ lines, rw unwritable)
  | inl written ↦ elim (Bool-cases (answers n).1) [
    | inr unflushed ↦ (lines, rw (written, unflushed))
    | inl flushed ↦
        let (unwritten, e) = write_lines-prefix answers (suc n) lines in
        (unwritten, rw (written, flushed) (ap (λ ls. l ∷ ls) e))
  ]
]

-- Without a failure stdout gets every line.
pub write_lines-all :
    (answers : ℕ → Bool × Bool) (n : ℕ) (lines : List Text)
    → ((k : ℕ) → answers k ≡ (true, true))
    → write_lines answers n lines ≡ lines
unfolding write_lines
write_lines-all answers n [] h = refl
write_lines-all answers n (l ∷ lines) h =
    rw (h n) (ap (λ ls. l ∷ ls) (write_lines-all answers (suc n) lines h))

abbrev pub ready_document : Text → Text → Json
ready_document input output = obj (
    field (codes "type") (str (codes "ready")) (
      field (codes "inputDeviceName") (str input)
        (field (codes "outputDeviceName") (str output) end)))

-- The ready line is the JSON text of its document, if the names need no escape.
pub ready_line-render :
    (input output : Text)
    → IsPlain input
    → IsPlain output
    → ready_line input output ≡ render (ready_document input output)
unfolding ready_line render escape escape_char
ready_line-render input output h k =
    simp (append_assoc, escape-plain input h, escape-plain output k)
