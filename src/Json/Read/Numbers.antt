-- ===== src/Json/Read/Numbers.antt =====
-- Decimal digits and the reader of numbers.
use signal_call_tunnel.Base.{
  ℕ, ◌+◌, ◌*◌, ◌-◌, ◌≡◌, refl, [], ◌∷◌, ◌++◌, Text, arith, true, false, AllDigits, value_from,
}
use signal_call_tunnel.Json.Read.{is_digit, read_digits}

-- No digit comes first.
abbrev pub NoDigit : Text → Type 0
NoDigit [] = Unit
NoDigit (c ∷ s) = is_digit c ≡ false

pub read_digits-append :
    (ds rest : Text) (acc : ℕ)
    → AllDigits ds
    → NoDigit rest
    → read_digits acc (ds ++ rest) ≡ (value_from acc ds, rest)
unfolding read_digits
read_digits-append [] [] acc a h = refl
read_digits-append [] (c ∷ rest) acc a h = rw h
read_digits-append (d ∷ ds) rest acc a h =
    let e : is_digit d ≡ true = ground (arith, a.0) in
    rw e (read_digits-append ds rest (acc * 10 + (d - 48)) a.1 h)
