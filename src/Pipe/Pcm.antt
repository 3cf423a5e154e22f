-- ===== src/Pipe/Pcm.antt =====
-- The constants of pipe_audio.rs, its 16-bit samples and their two bytes on the wire.
pub mod RoundTrip
use signal_call_tunnel.Base.{
  ℕ, suc, ◌+◌, ◌-◌, ◌*◌, ◌/◌, ◌%◌, ◌^◌, ◌<◌, List, [], ◌∷◌, ◌++◌, ℤ, pos, negsuc, ltb,
  if◌then◌else◌,
}

abbrev pub sample_frequency : ℕ
sample_frequency = 48000

abbrev pub num_channels : ℕ
num_channels = 1

-- Milliseconds.
abbrev pub window_ms : ℕ
window_ms = 10

-- Samples per window.
abbrev pub webrtc_window : ℕ
webrtc_window = sample_frequency / 100

abbrev pub bytes_per_sample : ℕ
bytes_per_sample = 2

-- `WINDOW_MS as u16`.
abbrev pub pipe_playout_delay_ms : ℕ
pipe_playout_delay_ms = window_ms % 2 ^ 16

-- The range of an `i16`.
abbrev pub IsI16 : ℤ → Type 0
IsI16 (pos n) = n < 2 ^ 15
IsI16 (negsuc n) = n < 2 ^ 15

-- The two's complement bit pattern of an `i16`.
unfoldable pub bits16 : ℤ → ℕ
bits16 (pos n) = n % 2 ^ 16
bits16 (negsuc n) = 2 ^ 16 - 1 - n % 2 ^ 16

-- `i16::to_le_bytes`.
unfoldable pub to_le_bytes : ℤ → List ℕ
unfolding bits16
to_le_bytes s = bits16 s % 256 ∷ (bits16 s / 256) ∷ []

-- `i16::from_le_bytes`.
unfoldable pub from_le_bytes : ℕ → ℕ → ℤ
from_le_bytes lo hi =
    let u = lo + 256 * hi in if ltb u (2 ^ 15) then pos u else negsuc (2 ^ 16 - 1 - u)

-- The bytes that the playout loop queues for `for sample in &play`.
unfoldable pub encode : List ℤ → List ℕ
encode [] = []
encode (s ∷ play) = to_le_bytes s ++ encode play

-- The samples of a byte stream: each two bytes are one, and an odd byte at the end is none.
unfoldable pub decode : List ℕ → List ℤ
decode [] = []
decode (lo ∷ []) = []
decode (lo ∷ hi ∷ bytes) = from_le_bytes lo hi ∷ decode bytes
