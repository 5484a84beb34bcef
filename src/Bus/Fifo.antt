-- ===== src/Bus/Fifo.antt =====
-- The bus of pkg/bus/bus.go delivers every message once and in order, and stays within its capacity.
use picoclawnim.Base.{◌≤◌, ◌≡◌, ◌≢◌, Bool, some, List, [], ◌∷◌, ◌++◌, length}
use picoclawnim.Bus.Queue.{
  InboundMessage, OutboundMessage, Chan, sent, received, capacity, MessageBus, publish_inbound,
  publish_outbound, consume_inbound, subscribe_outbound, close,
}

-- What was published and what was consumed in each direction, in the order of the events.
pub record Log : Type 0 where
  pub published : List InboundMessage
  pub consumed : List InboundMessage
  pub answered : List OutboundMessage
  pub delivered : List OutboundMessage

-- The runs of a bus, with any threads as its users. A receive finds a message, in a bus that is open
-- or was closed; of a closed and empty channel the zero message is no message.
pub data Run (start : MessageBus) : Log → MessageBus → Type 0 where
  idle : Run start (record { published = []; consumed = []; answered = []; delivered = [] }) start
  publishes :
      {log : Log} {mb : MessageBus} (c : Chan InboundMessage) (msg : InboundMessage)
      → Run start log mb
      → publish_inbound msg mb ≡ sent c
      → Run start (record log { published = log.published ++ msg ∷ [] }) (record mb { inbound = c })
  consumes :
      {log : Log} {mb : MessageBus} (c : Chan InboundMessage) (msg : InboundMessage)
      (done draw : Bool)
      → Run start log mb
      → mb.inbound.queue ≢ []
      → consume_inbound done draw mb ≡ received msg c
      → Run start (record log { consumed = log.consumed ++ msg ∷ [] }) (record mb { inbound = c })
  answers :
      {log : Log} {mb : MessageBus} (c : Chan OutboundMessage) (msg : OutboundMessage)
      → Run start log mb
      → publish_outbound msg mb ≡ sent c
      → Run start (record log { answered = log.answered ++ msg ∷ [] }) (record mb { outbound = c })
  delivers :
      {log : Log} {mb : MessageBus} (c : Chan OutboundMessage) (msg : OutboundMessage)
      (done draw : Bool)
      → Run start log mb
      → mb.outbound.queue ≢ []
      → subscribe_outbound done draw mb ≡ received msg c
      → Run start
          (record log { delivered = log.delivered ++ msg ∷ [] })
          (record mb { outbound = c })
  closes :
      {log : Log} {mb after : MessageBus}
      → Run start log mb
      → close mb ≡ some after
      → Run start log after

-- What was queued at the start and what was put in is, in order, what was taken out and then what is
-- queued, which is within the capacity.
abbrev pub IsFifo : {A : Type 0} → List A → List A → List A → List A → Type 0
IsFifo start ins outs queue = (start ++ ins ≡ outs ++ queue) × (length queue ≤ capacity)

pub record IsDelivered (start : MessageBus) (log : Log) (mb : MessageBus) : Type 0 where
  pub inward : IsFifo start.inbound.queue log.published log.consumed mb.inbound.queue
  pub outward : IsFifo start.outbound.queue log.answered log.delivered mb.outbound.queue
