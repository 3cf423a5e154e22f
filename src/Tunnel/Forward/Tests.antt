-- ===== src/Tunnel/Forward/Tests.antt =====
-- The way from RingRTC to stdout at concrete notices.
use signal_call_tunnel.Base.{
  ℕ, map, ◌≡◌, refl, Bool, true, false, List, [], ◌∷◌, some, Text, codes, arith,
}
use signal_call_tunnel.Base64.{encode64, decode64, decode64-encode64, encode64-IsPlain}
use signal_call_tunnel.Json.Escape.{IsPlain}
use signal_call_tunnel.Control.Threads.{ready_line}
use signal_call_tunnel.Platform.{CallMediaType, audio, ended, incoming, ice, hangup}
use signal_call_tunnel.Platform.Parent.{read_line}
use signal_call_tunnel.Platform.Relay.{Notice, signaling, state}
use signal_call_tunnel.Tunnel.Forward.EndToEnd.{output}
use signal_call_tunnel.Tunnel.Forward.Heard.{meant, output-Heard}

abbrev say_media : CallMediaType → Text
say_media m = codes "Audio"

abbrev all_well : ℕ → Bool × Bool
all_well k = (true, true)

-- Hangup types and reasons with the names that RingRTC would give them.
abbrev name_of : Bool → Text
name_of true = codes "Normal"
name_of false = codes "Timeout"

name_of-IsPlain : (b : Bool) → IsPlain (name_of b)
name_of-IsPlain true = omega arith
name_of-IsPlain false = omega arith

media-IsPlain : (m : CallMediaType) → IsPlain (say_media m)
media-IsPlain m = omega arith

abbrev told : List (Notice Bool Bool)
told =
    state (incoming audio)
    ∷ signaling 9 (ice ((1 ∷ 2 ∷ 3 ∷ []) ∷ (4 ∷ []) ∷ []))
    ∷ signaling 9 (hangup true)
    ∷ state (ended false)
    ∷ []

output-Heard_example :
    (ls : List Text) × (output encode64 name_of say_media name_of all_well
        (codes "in")
        (codes "out")
        told
      ≡ ready_line (codes "in") (codes "out") ∷ ls)
    × (map (read_line decode64) ls ≡ map (λ n. some (meant name_of say_media name_of n)) told)
output-Heard_example =
    output-Heard encode64 decode64 decode64-encode64 encode64-IsPlain name_of say_media name_of
      name_of-IsPlain media-IsPlain name_of-IsPlain all_well (codes "in") (codes "out") told
      (λ k. refl) (tt, (omega arith, (tt, (tt, tt))))
