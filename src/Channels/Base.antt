-- ===== src/Channels/Base.antt =====
-- `BaseChannel` of pkg/channels/base.go.
use picoclawnim.Base.{
  Bool, true, false, Option, none, some, List, [], ◌∷◌, Str, Map, str_eq, if◌then◌else◌, any,
}
use picoclawnim.Bus.Queue.{InboundMessage, MessageBus, Sent, publish_inbound}
use picoclawnim.Agent.Route.{join_key}

pub record BaseChannel : Type 0 where
  pub running : Bool
  pub name : Str
  pub allow_list : List Str

unfoldable pub new_base_channel : Str → List Str → BaseChannel
new_base_channel name allow_list = record { running = false; name = name; allow_list = allow_list }

-- An empty list allows everyone.
unfoldable pub allows : List Str → Str → Bool
allows [] sender = true
allows (a ∷ allowed) sender = any (λ b. str_eq sender b) (a ∷ allowed)

unfoldable pub is_allowed : BaseChannel → Str → Bool
unfolding allows
is_allowed c sender = allows c.allow_list sender

unfoldable pub inbound_of : BaseChannel → Str → Str → Str → List Str → Map Str → InboundMessage
inbound_of c sender chat content media metadata = record {
  channel = c.name;
  sender_id = sender;
  chat_id = chat;
  content = content;
  media = media;
  session_key = join_key c.name chat;
  metadata = metadata;
}

-- `HandleMessage`: what the publication does, or nothing for a sender who is not allowed.
unfoldable pub handle_message :
    BaseChannel → Str → Str → Str → List Str → Map Str → MessageBus → Option (Sent InboundMessage)
unfolding is_allowed
handle_message c sender chat content media metadata mb =
    if is_allowed c sender
    then some (publish_inbound (inbound_of c sender chat content media metadata) mb)
    else none
