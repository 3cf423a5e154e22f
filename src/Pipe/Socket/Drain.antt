-- ===== src/Pipe/Socket/Drain.antt =====
-- What `drain_playout` of pipe_audio.rs writes and keeps.
use signal_call_tunnel.Base.{
  ℕ, zero, suc, ◌+◌, ◌≤◌, ◌<◌, ◌≡◌, refl, ap, ◌∙◌, inl, inr, List, ◌++◌, append_assoc, append-nil,
  some, arith, ltb, Bool-cases, length, drop, length-drop, drop-drop, take-append-drop,
}
use signal_call_tunnel.Pipe.Socket.{
  would_block, unexpected_eof, other, IoResult, ok, err, Socket, IsStream, IsWritten, Moved,
  drain_step, drain_from, drain_playout,
}

module _ (net : Socket) (laws : IsStream net) where
  -- The call returned, and what it sent and what it left make up what was queued.
  pub record Drained (p : net.Peer) (buf : List ℕ) (out : Moved net) : Type 0 where
    pub result : IoResult (Unit {0})
    pub peer : net.Peer
    pub left : List ℕ
    pub returned : out ≡ some (result, peer, left)
    pub conserved : net.sent peer ++ left ≡ net.sent p ++ buf
    pub received : net.received peer ≡ net.received p
    pub pending : net.pending peer ≤ net.pending p
    pub shorter : length left ≤ length buf

  Drained-stop :
      (p : net.Peer) (buf : List ℕ) (r : IoResult (Unit {0})) (q : net.Peer)
      → (net.sent q ≡ net.sent p)
        × (net.received q ≡ net.received p)
        × (net.pending q ≤ net.pending p)
      → Drained p buf (some (r, q, buf))
  Drained-stop p buf r q h = record {
    result = r;
    peer = q;
    left = buf;
    returned = refl;
    conserved = rw (h.0);
    received = h.1;
    pending = h.2;
    shorter = omega arith;
  }

  -- After `n` bytes were written, what happens to the rest happens to the whole.
  Drained-write :
      (n : ℕ) (p q : net.Peer) (buf : List ℕ) {out : Moved net}
      → IsWritten net p buf (ok n, q)
      → Drained q (drop n buf) out
      → Drained p buf out
  Drained-write n p q buf h d = record {
    result = d.result;
    peer = d.peer;
    left = d.left;
    returned = d.returned;
    conserved =
        d.conserved ∙ rw (h.1, append_assoc) (ap (λ l. net.sent p ++ l) (take-append-drop n buf));
    received = d.received ∙ h.2;
    pending = omega (arith, d.pending, h.3);
    shorter = omega (arith, d.shorter, length-drop n buf);
  }

  module _ (again : net.Peer → ℕ → Moved net) (buf : List ℕ) (written : ℕ) (p : net.Peer) where
    drain_step-Drained :
        ((q : net.Peer) (n : ℕ)
          → suc n ≤ length (drop written buf)
          → Drained q (drop (written + suc n) buf) (again q (written + suc n)))
        → (w : IoResult ℕ × net.Peer) → IsWritten net p (drop written buf) w
        → Drained p (drop written buf) (drain_step net again buf written w)
    unfolding drain_step
    drain_step-Drained rec (ok zero, q) h =
        Drained-stop p (drop written buf) (ok tt) q (h.1 ∙ append-nil (net.sent p), h.2, h.3)
    drain_step-Drained rec (ok (suc n), q) h =
        Drained-write (suc n) p q (drop written buf) h
          (rw (drop-drop written (suc n) buf) (rec q n h.0))
    drain_step-Drained rec (err would_block, q) h = Drained-stop p (drop written buf) (ok tt) q h
    drain_step-Drained rec (err unexpected_eof, q) h = Drained-stop p (drop written buf) _ q h
    drain_step-Drained rec (err (other n), q) h = Drained-stop p (drop written buf) _ q h

  drain_from-Drained :
      (fuel : ℕ) (p : net.Peer) (buf : List ℕ) (written : ℕ)
      → written ≤ length buf
      → length buf < fuel + written
      → Drained p (drop written buf) (drain_from net fuel p buf written)
  unfolding drain_from
  drain_from-Drained zero p buf written hw hf = absurd (omega arith)
  drain_from-Drained (suc fuel) p buf written hw hf = elim (Bool-cases (ltb written (length buf))) [
    | inl more ↦ rw more (
        drain_step-Drained (λ q n. drain_from net fuel q buf n) buf written p
          (λ q n h.
            drain_from-Drained fuel q buf (written + suc n)
              (omega (arith, h, length-drop written buf)) (omega arith))
          (net.write p (drop written buf)) (laws.write_law p (drop written buf)))
    | inr done ↦ rw done (Drained-stop p (drop written buf) (ok tt) p (refl, refl, omega arith))
  ]

  -- Over a socket that keeps to its documentation `drain_playout` returns, on every answer of the
  -- socket: what it has sent, followed by what it leaves in the buffer, is what was sent before
  -- followed by the buffer; it receives nothing.
  pub drain_playout-Drained :
      (p : net.Peer) (buf : List ℕ) → Drained p buf (drain_playout net p buf)
  unfolding drain_playout
  drain_playout-Drained p buf =
      drain_from-Drained (suc (length buf)) p buf 0 (omega arith) (omega arith)
