-- ===== src/Channels/Slack/Reply.antt =====
-- Where an answer to a message from Slack goes (pkg/channels/slack.go).
use picoclawnim.Base.{
  ◌≡◌, ◌≢◌, refl, ◌∙◌, Bool, true, false, not, Option, none, some, List, [], ◌∷◌, ◌++◌,
  append_assoc, arith, Str, str, str_eq, str_eq_iff, str_eq_refl, ◌==◌, any, if◌then◌else◌, lookup,
  insert, lookup-insert, lookup-delete,
}
use picoclawnim.Base.Strings.{cut}
use picoclawnim.Bus.Queue.{OutboundMessage}
use picoclawnim.Channels.Slack.Client.{
  SlackChannel, MessageRef, Reaction, Post, or_none, parse_slack_chat_id, chat_of, noticed,
  acknowledged, posted, send_slack,
}

abbrev pub has_slash : Str → Bool
has_slash s = any (λ c. c == b'/') s

cut-slash : (s t : Str) → has_slash s ≡ false → cut b'/' (s ++ b'/' ∷ t) ≡ (s, some t)
unfolding cut
cut-slash [] t h = refl
cut-slash (c ∷ s) t h = ground (arith, cut-slash s t)

cut-whole : (s : Str) → has_slash s ≡ false → cut b'/' s ≡ (s, none)
unfolding cut
cut-whole [] h = refl
cut-whole (c ∷ s) h = ground (arith, cut-whole s)

-- The chat that a message gives is read as its channel and its thread, if the channel's name has no
-- slash: an answer goes to the thread that it belongs to, and to the channel if there is none.
pub parse_slack_chat_id-chat_of :
    (channel thread : Str)
    → has_slash channel ≡ false
    → parse_slack_chat_id (chat_of channel thread) ≡ (channel, thread)
unfolding parse_slack_chat_id chat_of or_none
parse_slack_chat_id-chat_of channel thread h =
    ground (arith, cut-slash channel thread h, cut-whole channel h, str_eq_iff thread [])

-- The marks of a message that was noticed and answered.
abbrev pub seen_and_ticked : MessageRef → List Reaction
seen_and_ticked ref =
    record { name = str "eyes"; item = ref }
    ∷ record { name = str "white_check_mark"; item = ref }
    ∷ []

-- The mark of a chat is gone, and its message is ticked.
abbrev pub IsTicked : Str → MessageRef → SlackChannel → SlackChannel → Type 0
IsTicked chat ref c after =
    (lookup chat after.pending_acks ≡ none) × (after.reactions ≡ c.reactions ++ seen_and_ticked ref)

acknowledged-noticed :
    (chat : Str) (ref : MessageRef) (c : SlackChannel)
    → IsTicked chat ref c
        (acknowledged chat (lookup chat (noticed chat ref c).pending_acks) (noticed chat ref c))
unfolding acknowledged noticed
acknowledged-noticed chat ref c =
    rw (lookup-insert chat chat ref c.pending_acks, str_eq_refl chat)
      (
        lookup-delete chat chat (insert chat ref c.pending_acks) ∙ ground (arith, str_eq_refl chat),
        append_assoc c.reactions (record { name = str "eyes"; item = ref } ∷ [])
            (record { name = str "white_check_mark"; item = ref } ∷ []),
      )

posted-noticed :
    (chat : Str) (o : Option Str) (ref : MessageRef) (c : SlackChannel)
    → (posted chat o (noticed chat ref c)).0 ≡ none
    → IsTicked chat ref c (posted chat o (noticed chat ref c)).1
unfolding posted
posted-noticed chat none ref c e = acknowledged-noticed chat ref c
posted-noticed chat (some x) ref c e = elim (wrong e) [ ]
  where
    wrong : {t : Str} → some t ≢ none
    wrong x = cc

if_sent :
    (P : SlackChannel → Type 0) (b : Bool) (x y : Option Str × SlackChannel)
    → (x.0 ≡ none → P x.1)
    → (y.0 ≡ none → P y.1)
    → (if b then x else y).0 ≡ none
    → P (if b then x else y).1
if_sent P true x y f g e = f e
if_sent P false x y f g e = g e

-- After a message was noticed and an answer to its chat was sent without an error, the message has
-- been ticked and no mark is left for its chat.
pub send_slack-IsTicked :
    (post : Post → Option Str) (msg : OutboundMessage) (ref : MessageRef) (c : SlackChannel)
    → (send_slack post msg (noticed msg.chat_id ref c)).0 ≡ none
    → IsTicked msg.chat_id ref c (send_slack post msg (noticed msg.chat_id ref c)).1
unfolding send_slack noticed
send_slack-IsTicked post msg ref c =
    let (channel, thread) = parse_slack_chat_id msg.chat_id in
    let result = post (record { channel = channel; thread = thread; text = msg.content }) in
    if_sent (IsTicked msg.chat_id ref c) (not c.base.running) (some _, _) _
      (λ e. elim (wrong e) [ ])
      (if_sent (IsTicked msg.chat_id ref c) (str_eq channel []) (some _, _) _
        (λ e. elim (wrong e) [ ]) (posted-noticed msg.chat_id result ref c))
  where
    wrong : {t : Str} → some t ≢ none
    wrong x = cc
