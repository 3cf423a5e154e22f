-- ===== src/Base/Decimal.antt =====
-- `Display` of the unsigned integers: decimal digits.
use Prim.Native.Nat.{ℕ, zero, suc, ◌+◌, ◌-◌, ◌*◌, ◌/◌, ◌%◌, ◌<◌, ◌≤◌}
use mathlib.Core.List.{[], ◌∷◌}
use mathlib.Core.Logic.{inl, inr}
use mathlib.Core.Path.{◌≡◌, sym, ap, ◌∙◌}
use native.Mathlib.Omega.{arith}
use signal_call_tunnel.Base.Bools.{ltb, if◌then◌else◌, Bool-cases, ltb→lt, not-ltb→le}
use signal_call_tunnel.Base.Chars.{Text}
use signal_call_tunnel.Base.Lists.{length}

-- The digits of `n`, the last first put before `out`.
decimal_from : ℕ → ℕ → Text → Text
decimal_from zero n out = out
decimal_from (suc fuel) n out =
    let more = decimal_from fuel (n / 10) ((48 + n % 10) ∷ out) in
    if ltb n 10 then (48 + n) ∷ out else more

-- Each round divides by ten, so `n` rounds and one are enough.
unfoldable pub decimal : ℕ → Text
unfolding decimal_from
decimal n = decimal_from (suc n) n []

-- The number that digits stand for, those behind `acc` read already.
abbrev pub value_from : ℕ → Text → ℕ
value_from acc [] = acc
value_from acc (c ∷ s) = value_from (acc * 10 + (c - 48)) s

value_from-decimal_from :
    (fuel n : ℕ) (out : Text) → n < fuel → value_from 0 (decimal_from fuel n out) ≡ value_from n out
unfolding decimal_from
value_from-decimal_from zero n out h = absurd (omega arith)
value_from-decimal_from (suc fuel) n out h = elim (Bool-cases (ltb n 10)) [
  | inl small ↦ rw small (ap (λ k. value_from k out) (omega arith))
  | inr large ↦
      let e : n / 10 * 10 + (48 + n % 10 - 48) ≡ n = omega arith in
      rw large (
        value_from-decimal_from fuel (n / 10) ((48 + n % 10) ∷ out)
          (omega (arith, not-ltb→le n 10 large))
        ∙ ap (λ k. value_from k out) e)
]

pub value_from-decimal : (n : ℕ) → value_from 0 (decimal n) ≡ n
unfolding decimal
value_from-decimal n = value_from-decimal_from (suc n) n [] (omega arith)

-- Two numbers with the same digits are one.
pub decimal_inj : (n m : ℕ) → decimal n ≡ decimal m → n ≡ m
decimal_inj n m h = sym (value_from-decimal n) ∙ ap (λ s. value_from 0 s) h ∙ value_from-decimal m

abbrev pub AllDigits : Text → Type 0
AllDigits [] = Unit
AllDigits (c ∷ s) = ((48 ≤ c) × (c ≤ 57)) × AllDigits s

decimal_from-AllDigits :
    (fuel n : ℕ) (out : Text) → n < fuel → AllDigits out → AllDigits (decimal_from fuel n out)
unfolding decimal_from
decimal_from-AllDigits zero n out h a = a
decimal_from-AllDigits (suc fuel) n out h a = elim (Bool-cases (ltb n 10)) [
  | inl small ↦ rw small ((omega arith, omega (arith, ltb→lt n 10 small)), a)
  | inr large ↦ rw large (
      decimal_from-AllDigits fuel (n / 10) ((48 + n % 10) ∷ out)
        (omega (arith, not-ltb→le n 10 large)) ((omega arith, omega arith), a))
]

pub decimal-AllDigits : (n : ℕ) → AllDigits (decimal n)
unfolding decimal
decimal-AllDigits n = decimal_from-AllDigits (suc n) n [] (omega arith) tt

length-decimal_from :
    (fuel n : ℕ) (out : Text) → length out < length (decimal_from (suc fuel) n out)
unfolding decimal_from
length-decimal_from zero n out = ground arith
length-decimal_from (suc fuel) n out = elim (Bool-cases (ltb n 10)) [
  | inl small ↦ rw small (omega arith)
  | inr large ↦ rw large (omega (arith, length-decimal_from fuel (n / 10) ((48 + n % 10) ∷ out)))
]

pub length-decimal : (n : ℕ) → 0 < length (decimal n)
unfolding decimal
length-decimal n = length-decimal_from n n []
