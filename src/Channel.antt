-- ===== src/Channel.antt =====
-- `std::sync::mpsc` channels, as the tunnel uses them.
use signal_call_tunnel.Base.{Bool, true, false, List, [], ◌∷◌, ◌++◌, if◌then◌else◌}

-- What waits in a channel, the oldest first, and whether its receiver is still there.
pub record Channel (A : Type 0) : Type 0 where
  pub is_open : Bool
  pub queue : List A

module _ {A : Type 0} where
  unfoldable pub channel : Channel A
  channel = record { is_open = true; queue = [] }

  -- `Sender::send`: an error, and no effect, if the receiver is gone.
  unfoldable pub send : A → Channel A → Bool × Channel A
  send a c = if c.is_open then (true, record c { queue = c.queue ++ a ∷ [] }) else (false, c)
