-- ===== src/Channels/Slack/Client.antt =====
-- `SlackChannel` of pkg/channels/slack.go without the connection: what becomes of the events that
-- come in and of the messages that go out. Marks on messages (reactions) are listed.
use picoclawnim.Base.{
  Bool, not, ◌&&◌, ◌||◌, Option, none, some, List, [], ◌∷◌, ◌++◌, Str, str, str_eq, if◌then◌else◌,
  Map, lookup, insert, delete,
}
use picoclawnim.Base.Strings.{cut, trim_space}
use picoclawnim.Base.Replace.{replace_text}
use picoclawnim.Utils.Media.{is_audio_file}
use picoclawnim.Bus.Queue.{InboundMessage, OutboundMessage, MessageBus, Sent}
use picoclawnim.Channels.Base.{BaseChannel, is_allowed, handle_message}

pub record MessageRef : Type 0 where
  pub channel_id : Str
  pub timestamp : Str

-- A mark that is put on a message.
pub record Reaction : Type 0 where
  pub name : Str
  pub item : MessageRef

pub record SlackChannel : Type 0 where
  pub base : BaseChannel
  pub bot_user_id : Str
  pub pending_acks : Map MessageRef
  pub reactions : List Reaction

-- What the transcriber makes of a file: it is not there, it fails, or it gives a text.
pub data Transcript : Type 0 where
  unavailable failed : Transcript
  heard : Str → Transcript

-- The fields of the events that are read. A file has its local path, which is empty if it cannot be
-- downloaded, and what the transcriber makes of it.
pub record File : Type 0 where
  pub name : Str
  pub mimetype : Str
  pub local_path : Str
  pub transcript : Transcript

pub record MessageEvent : Type 0 where
  pub user : Str
  pub bot_id : Str
  pub sub_type : Str
  pub channel : Str
  pub thread_time_stamp : Str
  pub time_stamp : Str
  pub text : Str
  pub files : List File

pub record MentionEvent : Type 0 where
  pub user : Str
  pub channel : Str
  pub thread_time_stamp : Str
  pub time_stamp : Str
  pub text : Str

pub record SlashCommand : Type 0 where
  pub user_id : Str
  pub channel_id : Str
  pub text : Str
  pub trigger_id : Str

unfoldable pub or_none : Option Str → Str
or_none none = []
or_none (some s) = s

-- `parseSlackChatID`
unfoldable pub parse_slack_chat_id : Str → Str × Str
unfolding or_none
parse_slack_chat_id chat = let (channel, thread) = cut b'/' chat in (channel, or_none thread)

unfoldable pub chat_of : Str → Str → Str
chat_of channel thread = if str_eq thread [] then channel else channel ++ (b'/' ∷ thread)

unfoldable pub strip_bot_mention : SlackChannel → Str → Str
strip_bot_mention c s = trim_space (replace_text (str "<@" ++ (c.bot_user_id ++ str ">")) [] s)

-- A message is marked as seen, and its mark is remembered under its chat.
unfoldable pub noticed : Str → MessageRef → SlackChannel → SlackChannel
noticed chat ref c = record c {
  pending_acks = insert chat ref c.pending_acks;
  reactions = c.reactions ++ record { name = str "eyes"; item = ref } ∷ [];
}

unfoldable pub file_note : Str → Str
file_note name = str "[file: " ++ (name ++ str "]")

unfoldable pub voice_note : Str → Transcript → Str
unfolding file_note
voice_note name unavailable = file_note name
voice_note name failed = str "[audio: " ++ (name ++ str " (transcription failed)]")
voice_note name (heard s) = str "[voice transcription: " ++ (s ++ str "]")

-- What is added to the text for a file.
unfoldable pub note_of : File → Str
unfolding voice_note
note_of f =
    if is_audio_file f.name f.mimetype then voice_note f.name f.transcript else file_note f.name

-- The text and the paths of the files, one after the other.
unfoldable pub with_files : List File → Str → List Str → Str × List Str
unfolding note_of
with_files [] content paths = (content, paths)
with_files (f ∷ fs) content paths =
    if str_eq f.local_path []
    then with_files fs content paths
    else with_files fs (content ++ (str "\n" ++ note_of f)) (paths ++ f.local_path ∷ [])

-- What a handler gives to `HandleMessage`: nothing for a text of space.
unfoldable pub hand_on :
    SlackChannel
    → Str
    → Str
    → Str
    → List Str
    → Map Str
    → MessageBus
    → Option (Sent InboundMessage) × SlackChannel
hand_on c sender chat content media metadata mb =
    if str_eq (trim_space content) []
    then (none, c)
    else (handle_message c.base sender chat content media metadata mb, c)

unfoldable pub is_foreign : SlackChannel → MessageEvent → Bool
is_foreign c ev =
    not (str_eq ev.user c.bot_user_id || str_eq ev.user [])
    && str_eq ev.bot_id []
    && (str_eq ev.sub_type [] || str_eq ev.sub_type (str "file_share"))

unfoldable pub ref_of : Str → Str → MessageRef
ref_of channel time = record { channel_id = channel; timestamp = time }

unfoldable pub message_metadata : Str → Str → Str → Map Str
message_metadata time channel thread =
    (str "message_ts", time)
    ∷ (str "channel_id", channel)
    ∷ (str "thread_ts", thread)
    ∷ (str "platform", str "slack")
    ∷ []

unfoldable pub handle_message_event :
    MessageEvent → MessageBus → SlackChannel → Option (Sent InboundMessage) × SlackChannel
unfolding is_foreign chat_of noticed strip_bot_mention with_files hand_on message_metadata ref_of
handle_message_event ev mb c =
    if not (is_foreign c ev)
    then (none, c)
    else if not (is_allowed c.base ev.user)
    then (none, c)
    else let chat = chat_of ev.channel ev.thread_time_stamp in
      let (content, paths) = with_files ev.files (strip_bot_mention c ev.text) [] in
      hand_on (noticed chat (ref_of ev.channel ev.time_stamp) c) ev.user chat content paths
        (message_metadata ev.time_stamp ev.channel ev.thread_time_stamp) mb

unfoldable pub mention_chat : MentionEvent → Str
mention_chat ev =
    ev.channel
    ++ (b'/' ∷ (if str_eq ev.thread_time_stamp [] then ev.time_stamp else ev.thread_time_stamp))

unfoldable pub handle_app_mention :
    MentionEvent → MessageBus → SlackChannel → Option (Sent InboundMessage) × SlackChannel
unfolding mention_chat noticed strip_bot_mention hand_on message_metadata ref_of
handle_app_mention ev mb c =
    if str_eq ev.user c.bot_user_id
    then (none, c)
    else hand_on (noticed (mention_chat ev) (ref_of ev.channel ev.time_stamp) c) ev.user
        (mention_chat ev) (strip_bot_mention c ev.text) []
        (message_metadata ev.time_stamp ev.channel ev.thread_time_stamp
          ++ (str "is_mention", str "true") ∷ [])
        mb

unfoldable pub or_help : Str → Str
or_help s = if str_eq (trim_space s) [] then str "help" else s

unfoldable pub handle_slash_command :
    SlashCommand → MessageBus → SlackChannel → Option (Sent InboundMessage) × SlackChannel
unfolding or_help
handle_slash_command cmd mb c = (
  handle_message c.base cmd.user_id cmd.channel_id (or_help cmd.text) []
      ((str "channel_id", cmd.channel_id)
        ∷ (str "platform", str "slack")
        ∷ (str "is_command", str "true")
        ∷ (str "trigger_id", cmd.trigger_id)
        ∷ [])
      mb,
  c,
)

-- What is posted: the channel, the thread (empty for none) and the text.
pub record Post : Type 0 where
  pub channel : Str
  pub thread : Str
  pub text : Str

-- The mark that is remembered for a chat is taken, and the message that it names is ticked.
unfoldable pub acknowledged : Str → Option MessageRef → SlackChannel → SlackChannel
acknowledged chat none c = c
acknowledged chat (some ref) c = record c {
  pending_acks = delete chat c.pending_acks;
  reactions = c.reactions ++ record { name = str "white_check_mark"; item = ref } ∷ [];
}

unfoldable pub posted : Str → Option Str → SlackChannel → Option Str × SlackChannel
unfolding acknowledged
posted chat (some e) c = (some (str "failed to send slack message: " ++ e), c)
posted chat none c = (none, acknowledged chat (lookup chat c.pending_acks) c)

-- `Send`: its error and the channel. `post` is the call of the API, with the text of its error.
unfoldable pub send_slack :
    (Post → Option Str) → OutboundMessage → SlackChannel → Option Str × SlackChannel
unfolding parse_slack_chat_id posted
send_slack post msg c =
    let (channel, thread) = parse_slack_chat_id msg.chat_id in
    if not c.base.running
    then (some (str "slack channel not running"), c)
    else if str_eq channel []
    then (some (str "invalid slack chat ID: " ++ msg.chat_id), c)
    else posted msg.chat_id
        (post (record { channel = channel; thread = thread; text = msg.content })) c
