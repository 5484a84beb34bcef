-- ===== src/Providers/Http.antt =====
-- `HTTPProvider` of pkg/providers/http_provider.go: the request that `Chat` builds and what
-- `parseResponse` makes of the answer. `post` is the exchange over HTTP; `read_response` and
-- `read_object` are `json.Unmarshal` into the response's type and into a map. The text of an error that
-- json wraps is left out.
use picoclawnim.Base.{
  Bool, ◌||◌, Option, none, some, List, [], ◌∷◌, ◌++◌, map, ℕ, ◌==◌, Str, str, str_eq,
  if◌then◌else◌, contains, to_lower,
}
use picoclawnim.Base.Int.{ℤ}
use picoclawnim.Json.{Float64, text, Fields, field, end}
use picoclawnim.Providers.Types.{FunctionCall, ToolCall, Message, LlmResponse}

pub record HttpProvider : Type 0 where
  pub api_key : Str
  pub api_base : Str

-- The entries of `options` that `Chat` reads.
pub record ChatOptions : Type 0 where
  pub max_tokens : Option ℤ
  pub temperature : Option Float64

-- The request's body; `D` is the type of a tool's definition. A field that is not sent has `none`.
pub record RequestBody (D : Type 0) : Type 0 where
  pub model : Str
  pub messages : List Message
  pub tools : Option (List D)
  pub tool_choice : Option Str
  pub max_tokens : Option ℤ
  pub max_completion_tokens : Option ℤ
  pub temperature : Option Float64

pub record HttpRequest (D : Type 0) : Type 0 where
  pub url : Str
  pub authorization : Option Str
  pub body : RequestBody D

-- How the exchange ends: an error before or after the status, or a status and a body.
pub data Exchange : Type 0 where
  send_failed : Str → Exchange
  read_failed : Str → Exchange
  replied : ℕ → Str → Exchange

-- The fields of the API's answer that the code declares.
pub record ApiToolCall : Type 0 where
  pub id : Str
  pub type : Str
  pub function : Option FunctionCall

pub record ApiChoice : Type 0 where
  pub content : Str
  pub tool_calls : List ApiToolCall
  pub finish_reason : Str

pub data ChatOutcome : Type 0 where
  answered : LlmResponse → ChatOutcome
  chat_error : Str → ChatOutcome

-- Models that take `max_completion_tokens`.
unfoldable pub counts_completion : Str → Bool
counts_completion model =
    contains (to_lower model) (str "glm") || contains (to_lower model) (str "o1")

module _ {D : Type 0} where
  unfoldable pub some_tools : List D → Option (List D)
  some_tools [] = none
  some_tools (t ∷ ts) = some (t ∷ ts)

  unfoldable pub choice_of : List D → Option Str
  choice_of [] = none
  choice_of (t ∷ ts) = some (str "auto")

  unfoldable pub request_body : List Message → List D → Str → ChatOptions → RequestBody D
  unfolding some_tools choice_of counts_completion
  request_body ms tools model o = record {
    model = model;
    messages = ms;
    tools = some_tools tools;
    tool_choice = choice_of tools;
    max_tokens = if counts_completion model then none else o.max_tokens;
    max_completion_tokens = if counts_completion model then o.max_tokens else none;
    temperature = o.temperature;
  }

  unfoldable pub request_of :
      HttpProvider → List Message → List D → Str → ChatOptions → HttpRequest D
  unfolding request_body
  request_of p ms tools model o = record {
    url = p.api_base ++ str "/chat/completions";
    authorization = if str_eq p.api_key [] then none else some (str "Bearer " ++ p.api_key);
    body = request_body ms tools model o;
  }

module _ (read_response : Str → Option (List ApiChoice)) (read_object : Str → Option Fields) where
  unfoldable pub read_or_raw : Option Fields → Str → Fields
  read_or_raw (some fs) s = fs
  read_or_raw none s = field (str "raw") (text s) end

  unfoldable pub arguments_of : Str → Fields
  unfolding read_or_raw
  arguments_of s = if str_eq s [] then end else read_or_raw (read_object s) s

  -- The two branches for a call with a function, with and without a type, are the same.
  unfoldable pub name_of : Option FunctionCall → Str
  name_of none = []
  name_of (some f) = f.name

  unfoldable pub call_arguments : Option FunctionCall → Fields
  unfolding arguments_of
  call_arguments none = end
  call_arguments (some f) = arguments_of f.arguments

  unfoldable pub tool_call_of : ApiToolCall → ToolCall
  unfolding name_of call_arguments
  tool_call_of tc = record {
    id = tc.id;
    type = [];
    function = none;
    name = name_of tc.function;
    arguments = call_arguments tc.function;
  }

  unfoldable pub response_of : List ApiChoice → LlmResponse
  unfolding tool_call_of
  response_of [] = record { content = []; tool_calls = []; finish_reason = str "stop" }
  response_of (c ∷ cs) = record {
    content = c.content;
    tool_calls = map tool_call_of c.tool_calls;
    finish_reason = c.finish_reason;
  }

  unfoldable pub parsed : Option (List ApiChoice) → ChatOutcome
  unfolding response_of
  parsed none = chat_error (str "failed to unmarshal response")
  parsed (some cs) = answered (response_of cs)

  -- `parseResponse`
  unfoldable pub parse_response : Str → ChatOutcome
  unfolding parsed
  parse_response body = parsed (read_response body)

  unfoldable pub outcome_of : Exchange → ChatOutcome
  unfolding parse_response
  outcome_of (send_failed e) = chat_error (str "failed to send request: " ++ e)
  outcome_of (read_failed e) = chat_error (str "failed to read response: " ++ e)
  outcome_of (replied status body) =
      if status == 200 then parse_response body else chat_error (str "API error: " ++ body)

  -- `Chat`, for messages and tools that can be encoded and a base that is a URL.
  unfoldable pub http_chat :
      {D : Type 0}
      → (HttpRequest D → Exchange)
      → HttpProvider
      → List Message
      → List D
      → Str
      → ChatOptions
      → ChatOutcome
  unfolding outcome_of request_of
  http_chat post p ms tools model o =
      if str_eq p.api_base []
      then chat_error (str "API base not configured")
      else outcome_of (post (request_of p ms tools model o))
