-- ===== src/Channels/Slack/Tests.antt =====
-- The theorems on Slack (pkg/channels/slack.go) for a message in a thread.
use picoclawnim.Base.{◌≡◌, refl, true, false, none, Option, [], ◌∷◌, ◌++◌, Str, str}
use picoclawnim.Bus.Queue.{OutboundMessage}
use picoclawnim.Channels.Slack.Client.{
  SlackChannel, MessageRef, Post, parse_slack_chat_id, chat_of, noticed, send_slack,
  strip_bot_mention,
}
use picoclawnim.Channels.Slack.Reply.{has_slash, parse_slack_chat_id-chat_of}

abbrev channel : SlackChannel
channel = record {
  base = record { running = true; name = str "slack"; allow_list = [] };
  bot_user_id = str "B1";
  pending_acks = [];
  reactions = [];
}

mention_stripped : strip_bot_mention channel (str "<@B1> hello") ≡ str "hello"
unfolding strip_bot_mention picoclawnim.Base.Strings.trim_space picoclawnim.Base.Strings.trim
    picoclawnim.Base.Strings.trim_right picoclawnim.Base.Strings.trim_left
    picoclawnim.Base.Replace.replace_text picoclawnim.Base.Replace.rewrite_matches
    picoclawnim.Base.Replace.rewrite_from picoclawnim.Base.has_prefix
    picoclawnim.Base.Strings.is_space
mention_stripped = refl

no_slash : has_slash (str "C1") ≡ false
no_slash = refl

parse_slack_chat_id-chat_of_example :
    parse_slack_chat_id (chat_of (str "C1") (str "17.5")) ≡ (str "C1", str "17.5")
parse_slack_chat_id-chat_of_example = parse_slack_chat_id-chat_of (str "C1") (str "17.5") no_slash

abbrev answer : OutboundMessage
answer = record { channel = str "slack"; chat_id = str "C1/17.5"; content = str "hi" }

abbrev asked : MessageRef
asked = record { channel_id = str "C1"; timestamp = str "17.6" }

abbrev works : Post → Option Str
works p = none

sent_well : (send_slack works answer (noticed answer.chat_id asked channel)).0 ≡ none
unfolding send_slack noticed picoclawnim.Base.str_eq picoclawnim.Base.Strings.cut
sent_well = refl
