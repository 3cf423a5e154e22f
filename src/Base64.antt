-- ===== src/Base64.antt =====
-- Base64 with padding (RFC 4648), which shows that the hypotheses on the encoder and the decoder can
-- hold.
use signal_call_tunnel.Base.{
  ℕ, ◌+◌, ◌-◌, ◌*◌, ◌/◌, ◌%◌, ◌<◌, ◌≤◌, ◌≡◌, ◌≢◌, refl, true, false, ◌&&◌, List, [], ◌∷◌, ◌++◌,
  Option, none, some, ◌>>=◌, Text, arith, ltb, leb, ◌==◌, if◌then◌else◌,
}
use signal_call_tunnel.Json.Escape.{IsPlain}
use signal_call_tunnel.Control.Commands.{AllBytes}

unfoldable letter : ℕ → ℕ
letter n =
    if ltb n 26
    then 65 + n
    else if ltb n 52
    then 71 + n
    else if ltb n 62
    then n - 4
    else if n == 62
    then 43
    else 47

unfoldable value : ℕ → Option ℕ
value c =
    if leb 65 c && leb c 90
    then some (c - 65)
    else if leb 97 c && leb c 122
    then some (c - 71)
    else if leb 48 c && leb c 57
    then some (c + 4)
    else if c == 43
    then some 62
    else if c == 47
    then some 63
    else none

value-letter : (n : ℕ) → n < 64 → value (letter n) ≡ some n
unfolding value letter
value-letter n h = ground arith

letter-plain : (n : ℕ) → (letter n ≢ b'"') × (letter n ≢ 92) × (32 ≤ letter n)
unfolding letter
letter-plain n = (ground arith, ground arith, ground arith)

letter-no_pad : (n : ℕ) → (letter n == b'=') ≡ false
unfolding letter
letter-no_pad n = ground arith

unfoldable pub encode64 : List ℕ → Text
unfolding letter
encode64 [] = []
encode64 (a ∷ []) = letter (a / 4) ∷ letter (a % 4 * 16) ∷ b'=' ∷ b'=' ∷ []
encode64 (a ∷ b ∷ []) =
    letter (a / 4) ∷ letter (a % 4 * 16 + b / 16) ∷ letter (b % 16 * 4) ∷ b'=' ∷ []
encode64 (a ∷ b ∷ c ∷ bytes) =
    letter (a / 4)
    ∷ letter (a % 4 * 16 + b / 16)
    ∷ letter (b % 16 * 4 + c / 64)
    ∷ letter (c % 64)
    ∷ encode64 bytes

-- Two, three and four letters; the bits left over must be zero.
unfoldable decode2 : ℕ → ℕ → Option (List ℕ)
unfolding value
decode2 w x = do
  i ← value w
  j ← value x
  if j % 16 == 0 then some ((i * 4 + j / 16) ∷ []) else none

unfoldable decode3 : ℕ → ℕ → ℕ → Option (List ℕ)
unfolding value
decode3 w x y = do
  i ← value w
  j ← value x
  k ← value y
  if k % 4 == 0 then some ((i * 4 + j / 16) ∷ (j % 16 * 16 + k / 4) ∷ []) else none

unfoldable decode4 : ℕ → ℕ → ℕ → ℕ → Option (List ℕ)
unfolding value
decode4 w x y z = do
  i ← value w
  j ← value x
  k ← value y
  l ← value z
  some ((i * 4 + j / 16) ∷ (j % 16 * 16 + k / 4) ∷ (k % 4 * 64 + l) ∷ [])

-- A group with padding, which is the last.
unfoldable decode_padded : ℕ → ℕ → ℕ → Text → Option (List ℕ)
unfolding decode2 decode3
decode_padded w x y [] = if y == b'=' then decode2 w x else decode3 w x y
decode_padded w x y (c ∷ s) = none

abbrev decode_group : ℕ → ℕ → ℕ → ℕ → Option (List ℕ) → Option (List ℕ)
decode_group w x y z rest = do group ← decode4 w x y z; bytes ← rest; some (group ++ bytes)

unfoldable pub decode64 : Text → Option (List ℕ)
unfolding decode_padded decode4
decode64 [] = some []
decode64 (w ∷ x ∷ y ∷ z ∷ s) =
    let rest = decode64 s in if z == b'=' then decode_padded w x y s else decode_group w x y z rest
decode64 _ = none

pub encode64-IsPlain : (bytes : List ℕ) → IsPlain (encode64 bytes)
unfolding encode64
encode64-IsPlain [] = tt
encode64-IsPlain (a ∷ []) =
    (letter-plain (a / 4), (letter-plain (a % 4 * 16), (omega arith, (omega arith, tt))))
encode64-IsPlain (a ∷ b ∷ []) = (
  letter-plain (a / 4),
  (letter-plain (a % 4 * 16 + b / 16), (letter-plain (b % 16 * 4), (omega arith, tt))),
)
encode64-IsPlain (a ∷ b ∷ c ∷ bytes) = (
  letter-plain (a / 4),
  (
    letter-plain (a % 4 * 16 + b / 16),
    (letter-plain (b % 16 * 4 + c / 64), (letter-plain (c % 64), encode64-IsPlain bytes)),
  ),
)

decode2-letter :
    (i j a : ℕ)
    → i < 64
    → j < 64
    → (j % 16 == 0) ≡ true
    → i * 4 + j / 16 ≡ a
    → decode2 (letter i) (letter j) ≡ some (a ∷ [])
unfolding decode2
decode2-letter i j a hi hj z e = rw (value-letter i hi, value-letter j hj, z, e)

decode3-letter :
    (i j k a b : ℕ)
    → i < 64
    → j < 64
    → k < 64
    → (k % 4 == 0) ≡ true
    → i * 4 + j / 16 ≡ a
    → j % 16 * 16 + k / 4 ≡ b
    → decode3 (letter i) (letter j) (letter k) ≡ some (a ∷ b ∷ [])
unfolding decode3
decode3-letter i j k a b hi hj hk z e f =
    rw (value-letter i hi, value-letter j hj, value-letter k hk, z, e, f)

decode4-letter :
    (i j k l a b c : ℕ)
    → i < 64
    → j < 64
    → k < 64
    → l < 64
    → i * 4 + j / 16 ≡ a
    → j % 16 * 16 + k / 4 ≡ b
    → k % 4 * 64 + l ≡ c
    → decode4 (letter i) (letter j) (letter k) (letter l) ≡ some (a ∷ b ∷ c ∷ [])
unfolding decode4
decode4-letter i j k l a b c hi hj hk hl e f g =
    rw (value-letter i hi, value-letter j hj, value-letter k hk, value-letter l hl, e, f, g)

pub decode64-encode64 : (bytes : List ℕ) → AllBytes bytes → decode64 (encode64 bytes) ≡ some bytes
unfolding decode64 encode64
decode64-encode64 [] h = refl
decode64-encode64 (a ∷ []) (ha, u) =
    decode2-letter (a / 4) (a % 4 * 16) a (omega arith) (omega arith) (ground arith) (omega arith)
decode64-encode64 (a ∷ b ∷ []) (ha, (hb, u)) = rw (letter-no_pad (b % 16 * 4)) (
    decode3-letter (a / 4) (a % 4 * 16 + b / 16) (b % 16 * 4) a b (omega arith) (omega arith)
      (omega arith) (ground arith) (omega arith) (omega arith))
decode64-encode64 (a ∷ b ∷ c ∷ bytes) (ha, (hb, (hc, h))) =
    let group : decode4 (letter (a / 4)) (letter (a % 4 * 16 + b / 16))
          (letter (b % 16 * 4 + c / 64)) (letter (c % 64))
        ≡ some (a ∷ b ∷ c ∷ []) =
      decode4-letter (a / 4) (a % 4 * 16 + b / 16) (b % 16 * 4 + c / 64) (c % 64) a b c
        (omega arith) (omega arith) (omega arith) (omega arith) (omega arith) (omega arith)
        (omega arith) in
    rw (letter-no_pad (c % 64), group, decode64-encode64 bytes h)
