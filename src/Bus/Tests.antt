-- ===== src/Bus/Tests.antt =====
-- The theorems on the bus (pkg/bus/bus.go) at concrete messages.
use picoclawnim.Base.{false, List, [], ◌∷◌, Str, str}
use picoclawnim.Bus.Queue.{InboundMessage, OutboundMessage, no_inbound, Chan, MessageBus}
use picoclawnim.Bus.Fifo.{Log}

abbrev hello : Str → InboundMessage
hello text = record no_inbound { content = text }

abbrev queued : List InboundMessage → Chan InboundMessage
queued q = record { queue = q; closed = false }

abbrev no_answers : Chan OutboundMessage
no_answers = record { queue = []; closed = false }

abbrev bus_of : List InboundMessage → MessageBus
bus_of q = record { inbound = queued q; outbound = no_answers }

abbrev both : List InboundMessage
both = hello (str "a") ∷ hello (str "b") ∷ []

abbrev one_consumed : Log
one_consumed = record {
  published = hello (str "b") ∷ [];
  consumed = hello (str "a") ∷ [];
  answered = [];
  delivered = [];
}
