-- ===== src/Channels/Manager.antt =====
-- `Manager` of pkg/channels/manager.go. A channel is a client of a messaging platform, which acts on
-- a world `W`. The construction from the configuration and the logging are left out.
use picoclawnim.Base.{
  Bool, true, false, Option, none, some, List, [], ◌∷◌, ◌++◌, map, Str, str, Map, lookup, insert,
  delete,
}
use picoclawnim.Bus.Queue.{OutboundMessage}

-- `start`, `stop` and `send` may return an error.
pub record Channel {ℓ} (W : Type ℓ) : Type ℓ where
  pub start : W → Option Str × W
  pub stop : W → Option Str × W
  pub send : OutboundMessage → W → Option Str × W
  pub is_running : W → Bool

-- `dispatching` tells whether there is a task that takes outbound messages from the bus.
pub record Manager {ℓ} (W : Type ℓ) : Type ℓ where
  pub channels : Map (Channel W)
  pub dispatching : Bool

module _ {ℓ} {W : Type ℓ} where
  unfoldable pub register_channel : Str → Channel W → Manager W → Manager W
  register_channel name c m = record m { channels = insert name c m.channels }

  unfoldable pub unregister_channel : Str → Manager W → Manager W
  unregister_channel name m = record m { channels = delete name m.channels }

  unfoldable pub get_channel : Str → Manager W → Option (Channel W)
  get_channel name m = lookup name m.channels

  unfoldable pub get_enabled_channels : Manager W → List Str
  get_enabled_channels m = map (λ e. e.0) m.channels

  unfoldable pub get_status : Manager W → W → Map Bool
  get_status m w = map (λ e. (e.0, e.1.is_running w)) m.channels

  -- The loops over the channels: errors are only logged.
  unfoldable pub start_each : Map (Channel W) → W → W
  start_each [] w = w
  start_each ((name, c) ∷ cs) w = start_each cs (c.start w).1

  unfoldable pub stop_each : Map (Channel W) → W → W
  stop_each [] w = w
  stop_each ((name, c) ∷ cs) w = stop_each cs (c.stop w).1

  unfoldable pub start_all : Manager W → W → Manager W × W
  unfolding start_each
  start_all m w = elim m.channels [
    | [] ↦ (m, w)
    | e ∷ cs ↦ (record m { dispatching = true }, start_each m.channels w)
  ]

  unfoldable pub stop_all : Manager W → W → Manager W × W
  unfolding stop_each
  stop_all m w = (record m { dispatching = false }, stop_each m.channels w)

  -- One turn of `dispatchOutbound`: a message for no channel is dropped, and an error is only logged.
  unfoldable pub deliver : Option (Channel W) → OutboundMessage → W → W
  deliver none msg w = w
  deliver (some c) msg w = (c.send msg w).1

  -- The messages that the bus gives, in order.
  unfoldable pub dispatch_outbound : Manager W → List OutboundMessage → W → W
  unfolding deliver
  dispatch_outbound m [] w = w
  dispatch_outbound m (msg ∷ msgs) w =
      dispatch_outbound m msgs (deliver (get_channel msg.channel m) msg w)

  send_found : Option (Channel W) → Str → OutboundMessage → W → Option Str × W
  send_found none name msg w = (some (str "channel " ++ (name ++ str " not found")), w)
  send_found (some c) name msg w = c.send msg w

  unfoldable pub send_to_channel : Str → Str → Str → Manager W → W → Option Str × W
  unfolding send_found
  send_to_channel name chat content m w =
      send_found (get_channel name m) name
        (record { channel = name; chat_id = chat; content = content }) w
