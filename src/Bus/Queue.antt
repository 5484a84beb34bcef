-- ===== src/Bus/Queue.antt =====
-- pkg/bus/bus.go and types.go. `Chan`, `send` and `receive` are the channels of the language Go: a
-- channel of capacity 100 is a list, oldest first, as the language has it. The
-- handlers, which nothing registers, are left out.
use picoclawnim.Base.{
  ℕ, Bool, true, false, Option, none, some, List, [], ◌∷◌, ◌++◌, Str, if◌then◌else◌, ltb, length,
  Map,
}

pub record InboundMessage : Type 0 where
  pub channel : Str
  pub sender_id : Str
  pub chat_id : Str
  pub content : Str
  pub media : List Str
  pub session_key : Str
  pub metadata : Map Str

pub record OutboundMessage : Type 0 where
  pub channel : Str
  pub chat_id : Str
  pub content : Str

abbrev pub capacity : ℕ
capacity = 100

-- A buffered channel, generic in its messages.
pub record Chan {ℓ} (A : Type ℓ) : Type ℓ where
  pub queue : List A
  pub closed : Bool

-- A send is done, waits for room, or panics on a closed channel.
pub data Sent {ℓ} (A : Type ℓ) : Type ℓ where
  sent : Chan A → Sent A
  blocks : Sent A
  panics : Sent A

-- A `select` of a receive and `ctx.Done()`: a message and what is left, the end of the context, or
-- neither is ready. A closed and empty channel gives the zero message, which is `zero_message`.
pub data Received {ℓ} (A : Type ℓ) : Type ℓ where
  received : A → Chan A → Received A
  cancelled : Received A
  waits : Received A

module _ {ℓ} {A : Type ℓ} where
  pub empty_chan : Chan A
  empty_chan = record { queue = []; closed = false }

  unfoldable pub send : A → Chan A → Sent A
  send a c =
      if c.closed
      then panics
      else if ltb (length c.queue) capacity
      then sent (record c { queue = c.queue ++ a ∷ [] })
      else blocks

  -- The receive alone: `none` while there is nothing to receive.
  unfoldable pub receive_from : A → List A → Bool → Option (A × Chan A)
  receive_from zero_message [] true = some (zero_message, record { queue = []; closed = true })
  receive_from zero_message [] false = none
  receive_from zero_message (a ∷ q) closed = some (a, record { queue = q; closed = closed })

  -- `done` tells whether the context has ended, `draw` which case is taken if both are ready.
  unfoldable pub select_receive : Bool → Bool → Option (A × Chan A) → Received A
  select_receive true true (some (a, c)) = received a c
  select_receive true false (some (a, c)) = cancelled
  select_receive false draw (some (a, c)) = received a c
  select_receive true draw none = cancelled
  select_receive false draw none = waits

  unfoldable pub receive : A → Bool → Bool → Chan A → Received A
  unfolding receive_from select_receive
  receive zero_message done draw c =
      select_receive done draw (receive_from zero_message c.queue c.closed)

pub record MessageBus : Type 0 where
  pub inbound : Chan InboundMessage
  pub outbound : Chan OutboundMessage

unfoldable pub new_message_bus : MessageBus
unfolding empty_chan
new_message_bus = record { inbound = empty_chan; outbound = empty_chan }

abbrev pub no_inbound : InboundMessage
no_inbound = record {
  channel = [];
  sender_id = [];
  chat_id = [];
  content = [];
  media = [];
  session_key = [];
  metadata = [];
}

abbrev pub no_outbound : OutboundMessage
no_outbound = record { channel = []; chat_id = []; content = [] }

unfoldable pub publish_inbound : InboundMessage → MessageBus → Sent InboundMessage
publish_inbound msg mb = send msg mb.inbound

unfoldable pub publish_outbound : OutboundMessage → MessageBus → Sent OutboundMessage
publish_outbound msg mb = send msg mb.outbound

unfoldable pub consume_inbound : Bool → Bool → MessageBus → Received InboundMessage
consume_inbound done draw mb = receive no_inbound done draw mb.inbound

unfoldable pub subscribe_outbound : Bool → Bool → MessageBus → Received OutboundMessage
subscribe_outbound done draw mb = receive no_outbound done draw mb.outbound

-- `Close`. A second one panics, which `none` stands for.
unfoldable pub close : MessageBus → Option MessageBus
close mb =
    if mb.inbound.closed
    then none
    else some (record {
      inbound = record mb.inbound { closed = true };
      outbound = record mb.outbound { closed = true };
    })
