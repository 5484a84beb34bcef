-- ===== src/Channels/Gate.antt =====
-- What reaches the bus through a channel.
use picoclawnim.Base.{
  ◌≡◌, ◌⊎◌, inl, inr, refl, sym, ap, arith, true, Bool-cases, some, List, [], ◌∷◌, ◌++◌, Str, Map,
  str_eq, str_eq_sound, any,
}
use picoclawnim.Bus.Queue.{InboundMessage, MessageBus, Chan, sent, send, publish_inbound}
use picoclawnim.Channels.Base.{BaseChannel, allows, is_allowed, inbound_of, handle_message}

-- The sender stands in the list.
pub IsListed : Str → List Str → Type 0
IsListed sender allowed =
    (before : List Str) × (after : List Str) × (allowed ≡ before ++ sender ∷ after)

any-IsListed :
    (sender : Str) (allowed : List Str)
    → any (λ b. str_eq sender b) allowed ≡ true
    → IsListed sender allowed
unfolding IsListed
any-IsListed sender [] h = cc
any-IsListed sender (a ∷ allowed) h = elim (Bool-cases (str_eq sender a)) [
  | inl e ↦ ([], allowed, ap (λ s. s ∷ allowed) (sym (str_eq_sound sender a e)))
  | inr e ↦
      let (before, after, f) = any-IsListed sender allowed (ground arith) in
      (a ∷ before, after, ap (◌∷◌ a) f)
]

allows-IsListed :
    (allowed : List Str) (sender : Str)
    → allows allowed sender ≡ true
    → (allowed ≡ []) ⊎ IsListed sender allowed
unfolding allows
allows-IsListed [] sender h = inl refl
allows-IsListed (a ∷ allowed) sender h = inr (any-IsListed sender (a ∷ allowed) h)

sent-queue :
    (m : InboundMessage) (mb : MessageBus) (d : Chan InboundMessage)
    → publish_inbound m mb ≡ sent d
    → d.queue ≡ mb.inbound.queue ++ m ∷ []
unfolding publish_inbound send
sent-queue m mb d e = ground arith

-- A message that a channel puts on the bus comes from a sender on its list (or the list is empty),
-- and stands at the end of the queue under the channel's name and the session of channel and chat.
pub handle_message-IsListed :
    (c : BaseChannel) (sender chat content : Str) (media : List Str) (metadata : Map Str)
    (mb : MessageBus) (d : Chan InboundMessage)
    → handle_message c sender chat content media metadata mb ≡ some (sent d)
    → ((c.allow_list ≡ []) ⊎ IsListed sender c.allow_list)
      × (d.queue ≡ mb.inbound.queue ++ inbound_of c sender chat content media metadata ∷ [])
unfolding handle_message is_allowed
handle_message-IsListed c sender chat content media metadata mb d h =
    let m = inbound_of c sender chat content media metadata in
    elim (Bool-cases (allows c.allow_list sender)) [
      | inl e ↦ (allows-IsListed c.allow_list sender e, sent-queue m mb d (ground arith))
      | inr e ↦ ground arith
    ]
