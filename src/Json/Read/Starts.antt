-- ===== src/Json/Read/Starts.antt =====
-- How values and fields begin, and numbers, which end where the digits end.
use signal_call_tunnel.Base.{
  Option, ℕ, ◌+◌, ◌*◌, ◌<◌, ◌≡◌, refl, true, false, [], ◌∷◌, ◌++◌, append_assoc, length,
  length-decimal, decimal, decimal-AllDigits, AllDigits, none, some, Text, arith, ◌==◌, ◌-◌,
  value_from, value_from-decimal,
}
use signal_call_tunnel.Json.{
  quote, Json, null, bool, num, str, arr, obj, Items, Fields, render, escape,
}
use signal_call_tunnel.Json.Read.{
  is_blank, is_digit, skip_blank, strip, expect, read_key, start_value,
}
use signal_call_tunnel.Json.Read.Strings.{read_string-escape}
use signal_call_tunnel.Json.Read.Numbers.{NoDigit, read_digits-append}

-- The text begins a value: with no blank, and with no bracket that closes an array.
abbrev Begins : Text → Type 0
Begins s = (skip_blank s ≡ s) × (expect b']' s ≡ none)

digits-Begins : (ds rest : Text) → AllDigits ds → 0 < length ds → Begins (ds ++ rest)
unfolding skip_blank expect strip
digits-Begins [] rest a h = absurd (omega arith)
digits-Begins (d ∷ ds) rest a h =
    let blank : is_blank d ≡ false = ground (arith, a.0) in
    let other : (b']' == d) ≡ false = ground (arith, a.0) in (rw blank, rw (blank, other))

pub render-Begins : (x : Json) (rest : Text) → Begins (render x ++ rest)
unfolding render skip_blank expect strip
render-Begins null rest = (refl, refl)
render-Begins (bool true) rest = (refl, refl)
render-Begins (bool false) rest = (refl, refl)
render-Begins (num n) rest = digits-Begins (decimal n) rest (decimal-AllDigits n) (length-decimal n)
render-Begins (str s) rest = (refl, refl)
render-Begins (arr xs) rest = (refl, refl)
render-Begins (obj fs) rest = (refl, refl)

module _ (items : Text → Option (Items × Text)) (fields : Text → Option (Fields × Text)) where
  start_value-digits :
      (ds rest : Text)
      → AllDigits ds
      → 0 < length ds
      → NoDigit rest
      → start_value items fields (ds ++ rest) ≡ some (num (value_from 0 ds), rest)
  unfolding start_value
  start_value-digits [] rest a h e = absurd (omega arith)
  start_value-digits (d ∷ ds) rest a h e =
      let quote : (d == b'"') ≡ false = ground (arith, a.0) in
      let square : (d == b'[') ≡ false = ground (arith, a.0) in
      let curly : (d == b'{') ≡ false = ground (arith, a.0) in
      let digit : is_digit d ≡ true = ground (arith, a.0) in
      rw (quote, square, curly, digit, read_digits-append ds rest (0 * 10 + (d - 48)) a.1 e)

  pub start_value-decimal :
      (n : ℕ) (rest : Text)
      → NoDigit rest
      → start_value items fields (decimal n ++ rest) ≡ some (num n, rest)
  start_value-decimal n rest e = rw (
    start_value-digits (decimal n) rest (decimal-AllDigits n) (length-decimal n) e,
    value_from-decimal n,
  )

pub read_key-quote : (k rest : Text) → read_key (quote k ++ b':' ∷ rest) ≡ some (k, rest)
unfolding read_key expect skip_blank strip
read_key-quote k rest =
    rw (append_assoc (escape k) (b'"' ∷ []) (b':' ∷ rest), read_string-escape k (b':' ∷ rest))
