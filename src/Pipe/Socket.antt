-- ===== src/Pipe/Socket.antt =====
-- `drain_playout` and `fill_capture` of pipe_audio.rs, over a connected Unix stream socket.
pub mod Drain
pub mod Fill
pub mod Memory
use signal_call_tunnel.Base.{
  ℕ, zero, suc, ◌+◌, ◌≤◌, ◌<◌, ◌≡◌, List, [], ◌∷◌, ◌++◌, Option, none, some, ltb, if◌then◌else◌,
  length, take, drop,
}
use signal_call_tunnel.Pipe.Buffer.{cap_buffer}

-- The kinds of `std::io::Error` that the code tells apart; `other` stands for the rest.
pub data ErrorKind : Type 0 where
  would_block unexpected_eof : ErrorKind
  other : ℕ → ErrorKind

pub data IoResult (A : Type 0) : Type 0 where
  ok : A → IoResult A
  err : ErrorKind → IoResult A

-- The socket is the environment's: `read p n` reads into a buffer of `n` bytes. `sent` and
-- `received` are all bytes that the calls have moved, and `pending` counts what can still be read
-- before the socket would block.
pub record Socket : Type 1 where
  pub Peer : Type 0
  pub write : Peer → List ℕ → IoResult ℕ × Peer
  pub read : Peer → ℕ → IoResult (List ℕ) × Peer
  pub sent : Peer → List ℕ
  pub received : Peer → List ℕ
  pub pending : Peer → ℕ

-- What the documentation of `Write::write` and `Read::read` says of the results.
module _ (net : Socket) where
  abbrev pub IsWritten : net.Peer → List ℕ → IoResult ℕ × net.Peer → Type 0
  IsWritten p bytes (ok n, p') =
      (n ≤ length bytes)
      × (net.sent p' ≡ net.sent p ++ take n bytes)
      × (net.received p' ≡ net.received p)
      × (net.pending p' ≤ net.pending p)
  IsWritten p bytes (err e, p') =
      (net.sent p' ≡ net.sent p)
      × (net.received p' ≡ net.received p)
      × (net.pending p' ≤ net.pending p)

  abbrev pub IsRead : net.Peer → ℕ → IoResult (List ℕ) × net.Peer → Type 0
  IsRead p n (ok bytes, p') =
      (length bytes ≤ n)
      × (net.received p' ≡ net.received p ++ bytes)
      × (net.sent p' ≡ net.sent p)
      × (net.pending p' + length bytes ≤ net.pending p)
  IsRead p n (err e, p') =
      (net.received p' ≡ net.received p)
      × (net.sent p' ≡ net.sent p)
      × (net.pending p' ≤ net.pending p)

  pub record IsStream : Type 0 where
    pub write_law : (p : net.Peer) (bytes : List ℕ) → IsWritten p bytes (net.write p bytes)
    pub read_law : (p : net.Peer) (n : ℕ) → IsRead p n (net.read p n)

-- The size of `tmp` in `fill_capture`.
abbrev pub tmp_len : ℕ
tmp_len = 4096

-- The result, the peer and the buffer after a call; `none` means that the fuel ran out.
abbrev pub Moved : Socket → Type 0
Moved net = Option (IoResult (Unit {0}) × net.Peer × List ℕ)

module _ (net : Socket) where
  -- One `stream.write` of `drain_playout` answered; `again` is the next round.
  unfoldable pub drain_step :
      (net.Peer → ℕ → Moved net) → List ℕ → ℕ → IoResult ℕ × net.Peer → Moved net
  drain_step again buf written (ok zero, p) = some (ok tt, p, drop written buf)
  drain_step again buf written (ok (suc n), p) = again p (written + suc n)
  drain_step again buf written (err would_block, p) = some (ok tt, p, drop written buf)
  drain_step again buf written (err e, p) = some (err e, p, drop written buf)

  unfoldable pub drain_from : ℕ → net.Peer → List ℕ → ℕ → Moved net
  unfolding drain_step
  drain_from zero p buf written = none
  drain_from (suc fuel) p buf written =
      if ltb written (length buf)
      then drain_step (λ q w. drain_from fuel q buf w) buf written (net.write p (drop written buf))
      else some (ok tt, p, drop written buf)

  -- Each round writes a byte at least, so one round more than there are bytes is enough fuel.
  unfoldable pub drain_playout : net.Peer → List ℕ → Moved net
  unfolding drain_from
  drain_playout p buf = drain_from (suc (length buf)) p buf 0

  unfoldable pub fill_step :
      (net.Peer → List ℕ → Moved net) → List ℕ → ℕ → IoResult (List ℕ) × net.Peer → Moved net
  fill_step again buf max (ok [], p) = some (err unexpected_eof, p, buf)
  fill_step again buf max (ok (b ∷ bytes), p) = again p (cap_buffer (buf ++ b ∷ bytes) max)
  fill_step again buf max (err would_block, p) = some (ok tt, p, buf)
  fill_step again buf max (err e, p) = some (err e, p, buf)

  unfoldable pub fill_capture : ℕ → net.Peer → List ℕ → ℕ → Moved net
  unfolding fill_step
  fill_capture zero p buf max = none
  fill_capture (suc fuel) p buf max =
      fill_step (λ q b. fill_capture fuel q b max) buf max (net.read p tmp_len)
