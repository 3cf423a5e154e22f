-- ===== src/Json/Read/Strings.antt =====
-- Strings of JSON text and the reader of strings.
use signal_call_tunnel.Base.{
  ℕ, zero, suc, ◌+◌, ◌*◌, ◌/◌, ◌%◌, ◌<◌, ◌≤◌, ◌≡◌, refl, ap, ◌∙◌, [], ◌∷◌, ◌++◌, append_assoc,
  length, length-append, some, Text, arith, ◌⊎◌, ◌≢◌, inl, inr,
}
use signal_call_tunnel.Json.{escape, escape_char, hex_digit}
use signal_call_tunnel.Json.Escape.{escape_char-plain}
use signal_call_tunnel.Json.Read.{
  char, next, code_escape, four_digits, unescape, hex_value, read_chars, read_string,
}

hex_value-hex_digit : (n : ℕ) → n < 16 → hex_value (hex_digit n) ≡ some n
unfolding hex_value
hex_value-hex_digit n h = ground arith

control_code : (n : ℕ) → n < 32 → ((0 * 16 + 0) * 16 + n / 16) * 16 + n % 16 ≡ n
control_code n h = omega arith

four_digits_lem :
    (a b c d i j k l : ℕ)
    → hex_value a ≡ some i
    → hex_value b ≡ some j
    → hex_value c ≡ some k
    → hex_value d ≡ some l
    → four_digits a b c d ≡ some (((i * 16 + j) * 16 + k) * 16 + l)
unfolding four_digits
four_digits_lem a b c d i j k l p q r t = rw (p, q, r, t)

code_escape-some :
    (a b c d n : ℕ) (s : Text)
    → four_digits a b c d ≡ some n
    → code_escape (a ∷ b ∷ c ∷ d ∷ s) ≡ char n s
unfolding code_escape
code_escape-some a b c d n s h = rw (code_escape, h)

next-control :
    (c : ℕ) (s : Text)
    → c < 32
    → next (92 ∷ b'u' ∷ 48 ∷ 48 ∷ hex_digit (c / 16) ∷ hex_digit (c % 16) ∷ s) ≡ char c s
unfolding next unescape
next-control c s h =
    let zeros : hex_value 48 ≡ some 0 = hex_value-hex_digit 0 (omega arith) in
    let high : hex_value (hex_digit (c / 16)) ≡ some (c / 16) =
      hex_value-hex_digit (c / 16) (omega arith) in
    let low : hex_value (hex_digit (c % 16)) ≡ some (c % 16) =
      hex_value-hex_digit (c % 16) (omega arith) in
    code_escape-some 48 48 (hex_digit (c / 16)) (hex_digit (c % 16)) c s (
      four_digits_lem 48 48 (hex_digit (c / 16)) (hex_digit (c % 16)) 0 0 (c / 16) (c % 16) zeros
        zeros high low
      ∙ ap some (control_code c h))

next-plain : (c : ℕ) (s : Text) → c ≢ b'"' → c ≢ 92 → 32 ≤ c → next (c ∷ s) ≡ char c s
unfolding next
next-plain c s q b k = ground arith

escape_char-control :
    (c : ℕ)
    → c < 32
    → escape_char c ≡ 92 ∷ b'u' ∷ 48 ∷ 48 ∷ hex_digit (c / 16) ∷ hex_digit (c % 16) ∷ []
unfolding escape_char
escape_char-control c h = ground arith

equal_or_not : (c d : ℕ) → (c ≡ d) ⊎ (c ≢ d)
equal_or_not c d = ground arith

below_or_not : (c d : ℕ) → (c < d) ⊎ (d ≤ c)
below_or_not c d = ground arith

next-quote : (s : Text) → next (escape_char b'"' ++ s) ≡ char b'"' s
unfolding next unescape escape_char
next-quote s = refl

next-backslash : (s : Text) → next (escape_char 92 ++ s) ≡ char 92 s
unfolding next unescape escape_char
next-backslash s = refl

next-escape_char : (c : ℕ) (s : Text) → next (escape_char c ++ s) ≡ char c s
next-escape_char c s = elim (below_or_not c 32) [
  | inl h ↦ rw (escape_char-control c h) (next-control c s h)
  | inr k ↦ elim (equal_or_not c b'"') [
    | inl e ↦ rw e (next-quote s)
    | inr q ↦ elim (equal_or_not c 92) [
      | inl e ↦ rw e (next-backslash s)
      | inr b ↦ rw (escape_char-plain c q b k) (next-plain c s q b k)
    ]
  ]
]

read_chars-escape :
    (s : Text) (rest : Text) (fuel : ℕ)
    → length s < fuel
    → read_chars fuel (escape s ++ b'"' ∷ rest) ≡ some (s, rest)
unfolding read_chars next escape
read_chars-escape s rest zero h = absurd (omega arith)
read_chars-escape [] rest (suc fuel) h = refl
read_chars-escape (c ∷ s) rest (suc fuel) h = rw (
  append_assoc (escape_char c) (escape s) (b'"' ∷ rest),
  next-escape_char c (escape s ++ b'"' ∷ rest),
  read_chars-escape s rest fuel (omega arith),
)

length-escape_char : (c : ℕ) → 1 ≤ length (escape_char c)
unfolding escape_char
length-escape_char c = ground arith

length-escape : (s : Text) → length s ≤ length (escape s)
unfolding escape
length-escape [] = omega arith
length-escape (c ∷ s) =
    omega (arith, length-append (escape_char c) (escape s), length-escape_char c, length-escape s)

-- Behind the opening quote.
pub read_string-escape : (s rest : Text) → read_string (escape s ++ b'"' ∷ rest) ≡ some (s, rest)
unfolding read_string
read_string-escape s rest =
    read_chars-escape s rest (suc (length (escape s ++ b'"' ∷ rest)))
      (omega (arith, length-append (escape s) (b'"' ∷ rest), length-escape s))
