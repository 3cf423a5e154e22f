-- ===== src/Pipe/Pcm/RoundTrip.antt =====
-- Samples and their bytes.
use signal_call_tunnel.Base.{
  ℕ, ◌*◌, ◌≡◌, refl, ap, List, [], ◌∷◌, ◌++◌, append_assoc, ℤ, pos, negsuc, arith, length,
}
use signal_call_tunnel.Pipe.Pcm.{IsI16, to_le_bytes, from_le_bytes, encode, decode}

from_le_bytes-to_le_bytes :
    (s : ℤ) → IsI16 s → (rest : List ℕ) → decode (to_le_bytes s ++ rest) ≡ s ∷ decode rest
unfolding to_le_bytes from_le_bytes decode
from_le_bytes-to_le_bytes (pos n) h rest = ground arith
from_le_bytes-to_le_bytes (negsuc n) h rest = ground arith

abbrev pub AllI16 : List ℤ → Type 0
AllI16 [] = Unit
AllI16 (s ∷ play) = IsI16 s × AllI16 play

-- Samples of 16 bits that were encoded are decoded to themselves, and the bytes behind them as they
-- would be alone.
pub decode-encode :
    (play : List ℤ) (rest : List ℕ)
    → AllI16 play
    → decode (encode play ++ rest) ≡ play ++ decode rest
unfolding encode
decode-encode [] rest h = refl
decode-encode (s ∷ play) rest h =
    rw (append_assoc, from_le_bytes-to_le_bytes s h.0)
      (ap (λ l. s ∷ l) (decode-encode play rest h.1))

pub length-encode : (play : List ℤ) → length (encode play) ≡ length play * 2
unfolding encode to_le_bytes
length-encode [] = refl
length-encode (s ∷ play) = omega (arith, length-encode play)
