-- ===== src/Channels/Delivery.antt =====
-- The dispatch of outbound messages.
use picoclawnim.Base.{
  ◌≡◌, refl, sym, ap, ◌∙◌, false, Bool-cases, Option-cases, inl, inr, some, List, [], ◌∷◌, ◌++◌,
  append-nil, append_assoc, Str, str_eq, str_eq_sound, keep,
}
use picoclawnim.Bus.Queue.{OutboundMessage}
use picoclawnim.Channels.Manager.{Channel, Manager, get_channel, deliver, dispatch_outbound}

keep_one :
    (k : Str) (msg : OutboundMessage) (msgs : List OutboundMessage)
    → keep (λ a. str_eq a.channel k) (msg ∷ []) ++ keep (λ a. str_eq a.channel k) msgs
      ≡ keep (λ a. str_eq a.channel k) (msg ∷ msgs)
keep_one k msg msgs = elim (Bool-cases (str_eq msg.channel k)) [
  | inl e ↦ rw e refl
  | inr e ↦ rw e refl
]

module _ {W : Type 0} (m : Manager W) (k : Str) (view : W → List OutboundMessage)
    (own : (c : Channel W) (msg : OutboundMessage) (w : W)
      → get_channel k m ≡ some c
      → view (c.send msg w).1 ≡ view w ++ msg ∷ [])
    (others : (j : Str) (c : Channel W) (msg : OutboundMessage) (w : W)
      → str_eq j k ≡ false
      → get_channel j m ≡ some c
      → view (c.send msg w).1 ≡ view w)
    (c : Channel W) (registered : get_channel k m ≡ some c) where
  deliver-view :
      (msg : OutboundMessage) (w : W)
      → view (deliver (get_channel msg.channel m) msg w)
        ≡ view w ++ keep (λ a. str_eq a.channel k) (msg ∷ [])
  unfolding deliver
  deliver-view msg w = elim (Bool-cases (str_eq msg.channel k)) [
    | inl e ↦
        let g : get_channel msg.channel m ≡ some c =
          ap (λ j. get_channel j m) (str_eq_sound msg.channel k e) ∙ registered in
        rw (e, g) (own c msg w registered)
    | inr e ↦ elim (Option-cases (get_channel msg.channel m)) [
      | inl f ↦ rw (e, f) (sym (append-nil (view w)))
      | inr (d, f) ↦ rw (e, f) (others msg.channel d msg w e f ∙ sym (append-nil (view w)))
    ]
  ]

  -- The outbound dispatcher gives a registered channel exactly the messages that name it, in the
  -- order of the bus, whatever errors channels return: `view` is any record of what the channel has
  -- been sent, to which its own `send` adds and which the other channels leave alone.
  pub dispatch_outbound-view :
      (msgs : List OutboundMessage) (w : W)
      → view (dispatch_outbound m msgs w) ≡ view w ++ keep (λ a. str_eq a.channel k) msgs
  unfolding dispatch_outbound
  dispatch_outbound-view [] w = sym (append-nil (view w))
  dispatch_outbound-view (msg ∷ msgs) w =
      dispatch_outbound-view msgs (deliver (get_channel msg.channel m) msg w)
      ∙ rw (deliver-view msg w) (
          append_assoc (view w) (keep (λ a. str_eq a.channel k) (msg ∷ []))
            (keep (λ a. str_eq a.channel k) msgs)
          ∙ ap (λ l. view w ++ l) (keep_one k msg msgs))
