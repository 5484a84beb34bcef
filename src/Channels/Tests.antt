-- ===== src/Channels/Tests.antt =====
-- The gate of a channel (pkg/channels/base.go) at a concrete message.
use picoclawnim.Base.{
  ◌≡◌, refl, str_eq_iff, true, false, none, some, List, [], ◌∷◌, ◌++◌, arith, Str, str, str_eq,
  lookup,
}
use picoclawnim.Bus.Queue.{
  InboundMessage, OutboundMessage, Chan, sent, send, MessageBus, publish_inbound,
}
use picoclawnim.Channels.Base.{BaseChannel, allows, is_allowed, inbound_of, handle_message}
use picoclawnim.Channels.Manager.{Channel, Manager, get_channel}

abbrev telegram : BaseChannel
telegram = record { running = true; name = str "telegram"; allow_list = str "5" ∷ str "7" ∷ [] }

abbrev quiet_bus : MessageBus
quiet_bus = record {
  inbound = record { queue = []; closed = false };
  outbound = record { queue = []; closed = false };
}

abbrev hello : InboundMessage
hello = inbound_of telegram (str "7") (str "42") (str "hello") [] []

abbrev one_queued : Chan InboundMessage
one_queued = record { queue = hello ∷ []; closed = false }

passes :
    handle_message telegram (str "7") (str "42") (str "hello") [] [] quiet_bus
    ≡ some (sent one_queued)
unfolding handle_message is_allowed allows str_eq publish_inbound send
passes = refl

-- A world of what Telegram was sent; a second channel loses every message.
abbrev to_telegram : Channel (List OutboundMessage)
to_telegram = record {
  start = λ w. (none, w);
  stop = λ w. (none, w);
  send = λ m w. (none, w ++ m ∷ []);
  is_running = λ w. true;
}

abbrev to_nowhere : Channel (List OutboundMessage)
to_nowhere = record {
  start = λ w. (none, w);
  stop = λ w. (none, w);
  send = λ m w. (some (str "offline"), w);
  is_running = λ w. false;
}

abbrev two_channels : Manager (List OutboundMessage)
two_channels = record {
  channels = (str "telegram", to_telegram) ∷ (str "slack", to_nowhere) ∷ [];
  dispatching = true;
}

abbrev outbound : Str → OutboundMessage
outbound channel = record { channel = channel; chat_id = str "42"; content = str "hi" }

telegram_is_there : get_channel (str "telegram") two_channels ≡ some to_telegram
unfolding get_channel lookup str_eq
telegram_is_there = refl

not_telegram : (j : Str) → str_eq j (str "telegram") ≡ false → str_eq (str "telegram") j ≡ false
not_telegram j h = ground (arith, str_eq_iff j (str "telegram"), str_eq_iff (str "telegram") j)
