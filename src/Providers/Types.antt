-- ===== src/Providers/Types.antt =====
-- pkg/providers/types.go: messages, tool calls and responses. Token counts, which nothing in the
-- program reads, are left out.
use picoclawnim.Base.{Option, List, [], Str}
use picoclawnim.Json.{Fields}

pub record FunctionCall : Type 0 where
  pub name : Str
  pub arguments : Str

-- A nil map of arguments is the one without fields, as for all reads; how JSON writes it is up to the
-- parameters that stand for `json.Marshal`.
pub record ToolCall : Type 0 where
  pub id : Str
  pub type : Str
  pub function : Option FunctionCall
  pub name : Str
  pub arguments : Fields

pub record Message : Type 0 where
  pub role : Str
  pub content : Str
  pub tool_calls : List ToolCall
  pub tool_call_id : Str

pub record LlmResponse : Type 0 where
  pub content : Str
  pub tool_calls : List ToolCall
  pub finish_reason : Str

-- `providers.Message{Role: role, Content: content}`
abbrev pub plain : Str → Str → Message
plain role content = record { role = role; content = content; tool_calls = []; tool_call_id = [] }
