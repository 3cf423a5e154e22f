-- ===== src/Pipe/Socket/Memory.antt =====
-- A socket in memory, with which the assumptions on sockets are met and the code can be run.
use signal_call_tunnel.Base.{
  ℕ, ◌-◌, refl, min, inl, inr, Bool, List, [], ◌++◌, append-nil, arith, ltb, if◌then◌else◌, length,
  take, drop, length-take, length-drop, Bool-cases,
}
use signal_call_tunnel.Pipe.Socket.{
  would_block, IoResult, ok, err, Socket, IsStream, IsWritten, IsRead,
}

-- `room` bytes fit into the send queue; `inbox` is what the other side has written, and `closed`
-- says that it will write no more.
pub record MemoryPeer : Type 0 where
  pub room : ℕ
  pub inbox : List ℕ
  pub closed : Bool
  pub sent : List ℕ
  pub received : List ℕ

abbrev pub write : MemoryPeer → List ℕ → IoResult ℕ × MemoryPeer
write p bytes =
    if ltb 0 p.room
    then (
      ok (min p.room (length bytes)),
      record p {
        room = p.room - min p.room (length bytes);
        sent = p.sent ++ take (min p.room (length bytes)) bytes;
      },
    )
    else (err would_block, p)

abbrev at_end : MemoryPeer → IoResult (List ℕ) × MemoryPeer
at_end p = if p.closed then (ok [], p) else (err would_block, p)

abbrev pub read : MemoryPeer → ℕ → IoResult (List ℕ) × MemoryPeer
read p n =
    if ltb 0 (length p.inbox)
    then (
      ok (take n p.inbox),
      record p { inbox = drop n p.inbox; received = p.received ++ take n p.inbox },
    )
    else at_end p

abbrev pub memory : Socket
memory = record {
  Peer = MemoryPeer;
  write = write;
  read = read;
  sent = λ p. p.sent;
  received = λ p. p.received;
  pending = λ p. length p.inbox;
}

write-IsWritten : (p : MemoryPeer) (bytes : List ℕ) → IsWritten memory p bytes (write p bytes)
write-IsWritten p bytes = elim (Bool-cases (ltb 0 p.room)) [
  | inl free ↦ rw free (omega arith, refl, refl, omega arith)
  | inr full ↦ rw full (refl, refl, omega arith)
]

at_end-IsRead : (p : MemoryPeer) (n : ℕ) → IsRead memory p n (at_end p)
at_end-IsRead p n = elim (Bool-cases p.closed) [
  | inl e ↦ rw e (omega arith, rw append-nil, refl, omega arith)
  | inr e ↦ rw e (refl, refl, omega arith)
]

read-IsRead : (p : MemoryPeer) (n : ℕ) → IsRead memory p n (read p n)
read-IsRead p n = elim (Bool-cases (ltb 0 (length p.inbox))) [
  | inl some_bytes ↦ rw some_bytes (
    omega (arith, length-take n p.inbox),
    refl,
    refl,
    omega (arith, length-take n p.inbox, length-drop n p.inbox),
  )
  | inr empty ↦ rw empty (at_end-IsRead p n)
]

pub memory-IsStream : IsStream memory
memory-IsStream = record { write_law = write-IsWritten; read_law = read-IsRead }
