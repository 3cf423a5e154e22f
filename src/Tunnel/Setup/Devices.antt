-- ===== src/Tunnel/Setup/Devices.antt =====
-- The names and the choice of the virtual devices in main.rs.

use signal_call_tunnel.Base.{
  ℕ, zero, suc, ◌%◌, ◌^◌, ◌≤◌, ◌<◌, ◌≡◌, ◌≢◌, sym, ap, ◌∙◌, inl, inr, false, List, [], ◌∷◌, Option,
  none, some, ◌>>=◌, Text, text_eq, text_eq_sound, text_eq_refl, arith, length, Bool-cases,
}
use signal_call_tunnel.Tunnel.Setup.{position, device_index}

-- None of the devices has the name.
abbrev pub IsAbsent : Text → List Text → Type 0
IsAbsent name [] = Unit
IsAbsent name (d ∷ devices) = (d ≢ name) × IsAbsent name devices

-- The device at the index has the name, and none before it.
abbrev pub IsFirst : Text → ℕ → List Text → Type 0
IsFirst name i [] = ⊥
IsFirst name zero (d ∷ devices) = d ≡ name
IsFirst name (suc i) (d ∷ devices) = (d ≢ name) × IsFirst name i devices

abbrev pub IsFound : Text → List Text → Option ℕ → Type 0
IsFound name devices none = IsAbsent name devices
IsFound name devices (some i) = IsFirst name i devices

ne_of_text_eq : (s t : Text) → text_eq s t ≡ false → s ≢ t
ne_of_text_eq s t h e = cc (sym (text_eq_refl s) ∙ ap (text_eq s) e ∙ h)

IsFound-suc :
    (name d : Text) (devices : List Text) (o : Option ℕ)
    → d ≢ name
    → IsFound name devices o
    → IsFound name (d ∷ devices) (o >>= λ i. some (suc i))
IsFound-suc name d devices none n h = (n, h)
IsFound-suc name d devices (some i) n h = (n, h)

position-IsFound :
    (name : Text) (devices : List Text) → IsFound name devices (position name devices)
unfolding position
position-IsFound name [] = tt
position-IsFound name (d ∷ devices) = elim (Bool-cases (text_eq d name)) [
  | inl e ↦ rw e (text_eq_sound d name e)
  | inr e ↦ rw e (
      IsFound-suc name d devices (position name devices) (ne_of_text_eq d name e)
        (position-IsFound name devices))
]

IsFirst-lt :
    (name : Text) (i : ℕ) (devices : List Text) → IsFirst name i devices → i < length devices
IsFirst-lt name i [] h = elim h [ ]
IsFirst-lt name zero (d ∷ devices) h = omega arith
IsFirst-lt name (suc i) (d ∷ devices) h = omega (arith, IsFirst-lt name i devices h.1)

IsFound-u16 :
    (name : Text) (devices : List Text) (o : Option ℕ)
    → length devices ≤ 2 ^ 16
    → IsFound name devices o
    → IsFound name devices (o >>= λ i. some (i % 2 ^ 16))
IsFound-u16 name devices none l h = h
IsFound-u16 name devices (some i) l h =
    let small : i % 2 ^ 16 ≡ i = omega (arith, IsFirst-lt name i devices h) in rw small h

-- With at most 2 ^ 16 devices the index that is selected is that of the first device of the name,
-- and none is selected if there is no such device.
pub device_index-IsFound :
    (name : Text) (devices : List Text)
    → length devices ≤ 2 ^ 16
    → IsFound name devices (device_index name devices)
unfolding device_index
device_index-IsFound name devices h =
    IsFound-u16 name devices (position name devices) h (position-IsFound name devices)
