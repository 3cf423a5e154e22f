-- ===== src/Pipe/Buffer/Cap.antt =====
-- What `cap_buffer` of pipe_audio.rs keeps and drops.
use signal_call_tunnel.Base.{
  ℕ, ◌+◌, ◌-◌, ◌%◌, ◌≤◌, ◌≡◌, refl, sym, ap, ◌∙◌, inl, inr, List, [], ◌++◌, append_assoc, arith,
  ltb, if◌then◌else◌, ltb→lt, Bool-cases, length, take, length-append, length-take, length-drop,
  take-append-drop,
}
use signal_call_tunnel.Pipe.Buffer.{cap_buffer}

-- `kept` is `whole` without some bytes at its front, an even number of them.
pub record DropsPairs (kept whole : List ℕ) : Type 0 where
  pub dropped : List ℕ
  pub split : whole ≡ dropped ++ kept
  pub even : length dropped % 2 ≡ 0

pub DropsPairs-refl : (buf : List ℕ) → DropsPairs buf buf
DropsPairs-refl buf = record { dropped = []; split = refl; even = refl }

-- Dropping from `kept`, more bytes having arrived behind it, drops from the whole.
pub DropsPairs-append :
    {kept whole : List ℕ} (more : List ℕ) {rest : List ℕ}
    → DropsPairs kept whole
    → DropsPairs rest (kept ++ more)
    → DropsPairs rest (whole ++ more)
DropsPairs-append {kept} {whole} more {rest} d e = record {
  dropped = d.dropped ++ e.dropped;
  split =
      ap (λ l. l ++ more) d.split
      ∙ append_assoc d.dropped kept more
      ∙ ap (λ l. d.dropped ++ l) e.split
      ∙ sym (append_assoc d.dropped e.dropped rest);
  even = omega (arith, length-append d.dropped e.dropped, d.even, e.even);
}

-- The parity of the length stays, so a buffer that begins at a sample still does.
pub DropsPairs-parity :
    {kept whole : List ℕ} → DropsPairs kept whole → length kept % 2 ≡ length whole % 2
DropsPairs-parity {kept} d = omega (arith, ap length d.split, length-append d.dropped kept, d.even)

-- `cap_buffer` removes bytes from the front only, always an even number of them.
pub cap_buffer-DropsPairs : (buf : List ℕ) (max : ℕ) → DropsPairs (cap_buffer buf max) buf
unfolding cap_buffer
cap_buffer-DropsPairs buf max = elim (Bool-cases (ltb max (length buf))) [
  | inl over ↦ rw over (record {
    dropped = take (length buf - max - (length buf - max) % 2) buf;
    split = sym (take-append-drop (length buf - max - (length buf - max) % 2) buf);
    even = omega (arith, length-take (length buf - max - (length buf - max) % 2) buf);
  })
  | inr fits ↦ rw fits (DropsPairs-refl buf)
]

pub cap_buffer-fits : (buf : List ℕ) (max : ℕ) → length buf ≤ max → cap_buffer buf max ≡ buf
unfolding cap_buffer
cap_buffer-fits buf max h = ground arith

-- A buffer within `max` is left as it is; a longer one is cut to `max` bytes, or to one more if
-- the excess is odd.
pub length-cap_buffer :
    (buf : List ℕ) (max : ℕ)
    → length (cap_buffer buf max)
      ≡ (if ltb max (length buf) then max + (length buf - max) % 2 else length buf)
unfolding cap_buffer
length-cap_buffer buf max = elim (Bool-cases (ltb max (length buf))) [
  | inl over ↦ rw over (
      omega (
        arith,
        ltb→lt max (length buf) over,
        length-drop (length buf - max - (length buf - max) % 2) buf,
      ))
  | inr fits ↦ rw fits
]

pub length-cap_buffer-le : (buf : List ℕ) (max : ℕ) → length (cap_buffer buf max) ≤ max + 1
length-cap_buffer-le buf max = ground (arith, length-cap_buffer buf max)
