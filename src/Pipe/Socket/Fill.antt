-- ===== src/Pipe/Socket/Fill.antt =====
-- What `fill_capture` of pipe_audio.rs reads and keeps.
use signal_call_tunnel.Base.{
  ℕ, zero, suc, ◌+◌, ◌≤◌, ◌<◌, ◌≡◌, refl, sym, ◌∙◌, List, [], ◌∷◌, ◌++◌, append_assoc, append-nil,
  some, arith, length, length-append, ap, subst,
}
use signal_call_tunnel.Pipe.Buffer.{cap_buffer}
use signal_call_tunnel.Pipe.Buffer.Cap.{
  DropsPairs, DropsPairs-refl, DropsPairs-append, cap_buffer-DropsPairs, cap_buffer-fits,
  length-cap_buffer-le,
}
use signal_call_tunnel.Pipe.Socket.{
  would_block, unexpected_eof, other, IoResult, ok, err, Socket, IsStream, IsRead, Moved, tmp_len,
  fill_step, fill_capture,
}

module _ (net : Socket) (laws : IsStream net) (max : ℕ) where
  -- The call returned; `fresh` is what the peer had sent, and the buffer is the old one with
  -- `fresh` behind it, less whole pairs of bytes from the front.
  pub record Filled (p : net.Peer) (buf : List ℕ) (out : Moved net) : Type 0 where
    pub result : IoResult (Unit {0})
    pub peer : net.Peer
    pub left : List ℕ
    pub fresh : List ℕ
    pub returned : out ≡ some (result, peer, left)
    pub received : net.received peer ≡ net.received p ++ fresh
    pub kept : DropsPairs left (buf ++ fresh)
    pub spare : length (buf ++ fresh) ≤ max → left ≡ buf ++ fresh
    pub bound : length left ≤ max + 1
    pub sent : net.sent peer ≡ net.sent p
    pub pending : net.pending peer ≤ net.pending p

  Filled-stop :
      (p : net.Peer) (buf : List ℕ) (r : IoResult (Unit {0})) (q : net.Peer)
      → length buf ≤ max + 1
      → (net.received q ≡ net.received p)
        × (net.sent q ≡ net.sent p)
        × (net.pending q ≤ net.pending p)
      → Filled p buf (some (r, q, buf))
  Filled-stop p buf r q hb h = record {
    result = r;
    peer = q;
    left = buf;
    fresh = [];
    returned = refl;
    received = h.0 ∙ sym (append-nil (net.received p));
    kept = rw append-nil (DropsPairs-refl buf);
    spare = λ h'. sym (append-nil buf);
    bound = hb;
    sent = h.1;
    pending = h.2;
  }

  Filled-read :
      (p q : net.Peer) (buf bytes : List ℕ) {out : Moved net}
      → IsRead net p tmp_len (ok bytes, q)
      → Filled q (cap_buffer (buf ++ bytes) max) out
      → Filled p buf out
  Filled-read p q buf bytes h d = record {
    result = d.result;
    peer = d.peer;
    left = d.left;
    fresh = bytes ++ d.fresh;
    returned = d.returned;
    received = d.received ∙ rw (h.1, append_assoc);
    kept =
        rw (← append_assoc buf bytes d.fresh)
          (DropsPairs-append d.fresh (cap_buffer-DropsPairs (buf ++ bytes) max) d.kept);
    spare = λ small.
        let fits : length (buf ++ bytes) ≤ max = omega (
          arith,
          small,
          length-append buf bytes,
          length-append buf (bytes ++ d.fresh),
          length-append bytes d.fresh,
        ) in
        let same : cap_buffer (buf ++ bytes) max ++ d.fresh ≡ buf ++ (bytes ++ d.fresh) =
          ap (λ b. b ++ d.fresh) (cap_buffer-fits (buf ++ bytes) max fits)
          ∙ append_assoc buf bytes d.fresh in
        d.spare (subst (λ b. length b ≤ max) (sym same) small) ∙ same;
    bound = d.bound;
    sent = d.sent ∙ h.2;
    pending = omega (arith, d.pending, h.3);
  }

  module _ (again : net.Peer → List ℕ → Moved net) (buf : List ℕ) (p : net.Peer) where
    fill_step-Filled :
        ((q : net.Peer) (kept : List ℕ)
          → length kept ≤ max + 1
          → net.pending q < net.pending p
          → Filled q kept (again q kept))
        → length buf ≤ max + 1
        → (r : IoResult (List ℕ) × net.Peer) → IsRead net p tmp_len r
        → Filled p buf (fill_step net again buf max r)
    unfolding fill_step
    fill_step-Filled rec hb (ok [], q) h =
        Filled-stop p buf (err unexpected_eof) q hb
          (h.1 ∙ append-nil (net.received p), h.2, omega (arith, h.3))
    fill_step-Filled rec hb (ok (b ∷ bytes), q) h = Filled-read p q buf (b ∷ bytes) h (
        rec q (cap_buffer (buf ++ b ∷ bytes) max) (length-cap_buffer-le (buf ++ b ∷ bytes) max)
          (omega (arith, h.3)))
    fill_step-Filled rec hb (err would_block, q) h = Filled-stop p buf (ok tt) q hb h
    fill_step-Filled rec hb (err unexpected_eof, q) h = Filled-stop p buf _ q hb h
    fill_step-Filled rec hb (err (other n), q) h = Filled-stop p buf _ q hb h

  -- Over a socket that keeps to its documentation, with more fuel than bytes pending and at most
  -- `max + 1` bytes buffered, `fill_capture` returns, on every answer of the socket: it keeps the
  -- newest bytes in order, drops whole pairs of the oldest, and nothing if `max` bytes are enough,
  -- holds `max + 1` bytes at most, and sends nothing.
  pub fill_capture-Filled :
      (fuel : ℕ) (p : net.Peer) (buf : List ℕ)
      → net.pending p < fuel
      → length buf ≤ max + 1
      → Filled p buf (fill_capture net fuel p buf max)
  unfolding fill_capture
  fill_capture-Filled zero p buf hf hb = absurd (omega arith)
  fill_capture-Filled (suc fuel) p buf hf hb =
      fill_step-Filled (λ q b. fill_capture net fuel q b max) buf p
        (λ q kept hk hq. fill_capture-Filled fuel q kept (omega (arith, hq)) hk) hb
        (net.read p tmp_len) (laws.read_law p tmp_len)
