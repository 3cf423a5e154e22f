-- ===== src/Pipe/Buffer.antt =====
-- `cap_buffer` and `take_window` of pipe_audio.rs.
pub mod Cap
pub mod Thins
pub mod Window
use signal_call_tunnel.Base.{
  ℕ, zero, suc, ◌+◌, ◌-◌, ◌*◌, ◌/◌, ◌%◌, min, List, Option, some, ◌>>=◌, ℤ, pos, ltb, if◌then◌else◌,
  length, drop, set, get_elem?, replicate,
}
use signal_call_tunnel.Pipe.Pcm.{bytes_per_sample, webrtc_window, from_le_bytes}

-- The buffer is the list of its bytes, the oldest first.
unfoldable pub cap_buffer : List ℕ → ℕ → List ℕ
cap_buffer buf max =
    let overflow = length buf - max in
    if ltb max (length buf) then drop (overflow - overflow % bytes_per_sample) buf else buf

-- The loop of `take_window` with `k` rounds left, at index `i`. An index out of range panics: `none`.
unfoldable pub fill_samples : ℕ → ℕ → List ℕ → List ℤ → Option (List ℤ)
fill_samples zero i buf samples = some samples
fill_samples (suc k) i buf samples = do
  lo ← get_elem? buf (i * bytes_per_sample)
  hi ← get_elem? buf (i * bytes_per_sample + 1)
  fill_samples k (i + 1) buf (set samples i (from_le_bytes lo hi))

unfoldable pub take_window : List ℕ → Option (List ℤ × List ℕ)
unfolding fill_samples
take_window buf =
    let available = min (length buf / bytes_per_sample) webrtc_window in
    do
      samples ← fill_samples available 0 buf (replicate webrtc_window (pos 0))
      some (samples, drop (available * bytes_per_sample) buf)
