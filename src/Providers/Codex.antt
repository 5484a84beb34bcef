-- ===== src/Providers/Codex.antt =====
-- `CodexProvider` of pkg/providers/codex_provider.go: what is sent for a conversation, what is made
-- of the answer, and where the token comes from. The SDK's items are told apart by what the code puts
-- into them; `marshal` and `read_object` are JSON, `refresh` is `auth.RefreshAccessToken`.
use picoclawnim.Base.{
  ◌&&◌, not, Bool, Option, none, some, List, [], ◌∷◌, ◌++◌, Str, str, str_eq, if◌then◌else◌,
}
use picoclawnim.Base.Int.{ℤ}
use picoclawnim.Json.{Float64, text, Fields, field, end}
use picoclawnim.Auth.Store.{
  AuthCredential, File, Result, done, error, WriteOutcome, Error, get_credential, set_credential,
  needs_refresh,
}
use picoclawnim.Providers.Types.{ToolCall, Message, LlmResponse}
use picoclawnim.Providers.Http.{ChatOptions}

-- A message of a role, a call of a function, or the output of a call.
pub data InputItem : Type 0 where
  message_item : Str → Str → InputItem
  call_item : Str → Str → Str → InputItem
  output_item : Str → Str → InputItem

pub record CodexParams : Type 0 where
  pub model : Str
  pub input : List InputItem
  pub instructions : Option Str
  pub max_output_tokens : Option ℤ
  pub temperature : Option Float64

-- The output of the API: messages with typed contents, calls, and what is neither.
pub data OutputItem : Type 0 where
  message_output : List (Str × Str) → OutputItem
  call_output : Str → Str → Str → OutputItem
  other_output : OutputItem

pub record CodexResponse : Type 0 where
  pub output : List OutputItem
  pub status : Str

module _ (marshal : Fields → Str) where
  unfoldable pub call_items : List ToolCall → List InputItem
  call_items [] = []
  call_items (tc ∷ tcs) = call_item tc.id tc.name (marshal tc.arguments) ∷ call_items tcs

  unfoldable pub assistant_items : Str → List ToolCall → List InputItem
  unfolding call_items
  assistant_items content [] = message_item (str "assistant") content ∷ []
  assistant_items content (tc ∷ tcs) =
      if str_eq content []
      then call_items (tc ∷ tcs)
      else message_item (str "assistant") content ∷ call_items (tc ∷ tcs)

  -- What a message of a role adds to the input; a system message adds nothing.
  unfoldable pub role_items : Str → Message → List InputItem
  unfolding assistant_items
  role_items role m =
      if str_eq role (str "user")
      then (if str_eq m.tool_call_id []
          then message_item (str "user") m.content ∷ []
          else output_item m.tool_call_id m.content ∷ [])
      else if str_eq role (str "assistant")
      then assistant_items m.content m.tool_calls
      else if str_eq role (str "tool")
      then output_item m.tool_call_id m.content ∷ []
      else []

  unfoldable pub items_of : Message → List InputItem
  unfolding role_items
  items_of m = role_items m.role m

  unfoldable pub input_items : List Message → List InputItem
  unfolding items_of
  input_items [] = []
  input_items (m ∷ ms) = items_of m ++ input_items ms

  -- The last system message counts.
  unfoldable pub last_system : Str → List Message → Str
  last_system found [] = found
  last_system found (m ∷ ms) =
      last_system (if str_eq m.role (str "system") then m.content else found) ms

  unfoldable pub unless_empty : Str → Option Str
  unless_empty s = if str_eq s [] then none else some s

  unfoldable pub build_codex_params : List Message → Str → ChatOptions → CodexParams
  unfolding input_items last_system unless_empty
  build_codex_params ms model o = record {
    model = model;
    input = input_items ms;
    instructions = unless_empty (last_system [] ms);
    max_output_tokens = o.max_tokens;
    temperature = o.temperature;
  }

module _ (read_object : Str → Option Fields) where
  unfoldable pub object_or_raw : Str → Option Fields → Fields
  object_or_raw s none = field (str "raw") (text s) end
  object_or_raw s (some fs) = fs

  unfoldable pub output_texts : List (Str × Str) → Str
  output_texts [] = []
  output_texts ((kind, t) ∷ cs) =
      if str_eq kind (str "output_text") then t ++ output_texts cs else output_texts cs

  unfoldable pub content_of : List OutputItem → Str
  unfolding output_texts
  content_of [] = []
  content_of (message_output cs ∷ os) = output_texts cs ++ content_of os
  content_of (call_output id name args ∷ os) = content_of os
  content_of (other_output ∷ os) = content_of os

  unfoldable pub calls_of : List OutputItem → List ToolCall
  unfolding object_or_raw
  calls_of [] = []
  calls_of (message_output cs ∷ os) = calls_of os
  calls_of (call_output id name args ∷ os) =
      record {
        id = id;
        type = [];
        function = none;
        name = name;
        arguments = object_or_raw args (read_object args);
      }
      ∷ calls_of os
  calls_of (other_output ∷ os) = calls_of os

  unfoldable pub finish_of : Str → List ToolCall → Str
  finish_of status tcs =
      if str_eq status (str "incomplete")
      then str "length"
      else elim tcs [ [] ↦ str "stop" | tc ∷ rest ↦ str "tool_calls" ]

  unfoldable pub parse_codex_response : CodexResponse → LlmResponse
  unfolding content_of calls_of finish_of
  parse_codex_response r = record {
    content = content_of r.output;
    tool_calls = calls_of r.output;
    finish_reason = finish_of r.status (calls_of r.output);
  }

-- A token and an account, or the text of an error, whose cause is left out.
pub data Token : Type 0 where
  token : Str → Str → Token
  no_token : Str → Token

module _ (refresh : AuthCredential → Option AuthCredential) where
  unfoldable pub saved_token : AuthCredential → File × Option Error → Token × File
  saved_token c (f, none) = (token c.access_token c.account_id, f)
  saved_token c (f, some e) = (no_token (str "saving refreshed token"), f)

  unfoldable pub refreshed_token : WriteOutcome → File → Option AuthCredential → Token × File
  unfolding saved_token
  refreshed_token w f none = (no_token (str "refreshing token"), f)
  refreshed_token w f (some c) = saved_token c (set_credential (str "openai") c w f)

  unfoldable pub is_stale : ℤ → AuthCredential → Bool
  is_stale now c =
      str_eq c.auth_method (str "oauth") && needs_refresh now c && not (str_eq c.refresh_token [])

  unfoldable pub token_of : ℤ → WriteOutcome → File → Result (Option AuthCredential) → Token × File
  unfolding is_stale refreshed_token
  token_of now w f (error e) = (no_token (str "loading auth credentials"), f)
  token_of now w f (done none) =
      (no_token (str "no credentials for openai. Run: picoclaw auth login --provider openai"), f)
  token_of now w f (done (some c)) =
      if is_stale now c
      then refreshed_token w f (refresh c)
      else (token c.access_token c.account_id, f)

  -- The token source that `createCodexTokenSource` makes.
  unfoldable pub codex_token_source : ℤ → WriteOutcome → File → Token × File
  unfolding token_of
  codex_token_source now w f = token_of now w f (get_credential (str "openai") f)
