-- ===== src/Json/Escape.antt =====
-- Texts that a JSON string holds as they are.
use signal_call_tunnel.Base.{ℕ, ◌≤◌, ◌≡◌, ◌≢◌, refl, ap, [], ◌∷◌, Text, arith}
use signal_call_tunnel.Json.{escape_char, escape}

-- No quote, no backslash, no control character.
abbrev pub IsPlain : Text → Type 0
IsPlain [] = Unit
IsPlain (c ∷ s) = ((c ≢ b'"') × (c ≢ 92) × (32 ≤ c)) × IsPlain s

pub escape_char-plain : (c : ℕ) → c ≢ b'"' → c ≢ 92 → 32 ≤ c → escape_char c ≡ c ∷ []
unfolding escape_char
escape_char-plain c q b h = ground arith

pub escape-plain : (s : Text) → IsPlain s → escape s ≡ s
unfolding escape
escape-plain [] h = refl
escape-plain (c ∷ s) h =
    rw (escape_char-plain c h.0.0 h.0.1 h.0.2) (ap (λ l. c ∷ l) (escape-plain s h.1))
