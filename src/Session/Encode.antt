-- ===== src/Session/Encode.antt =====
-- What `json.MarshalIndent` and `json.Unmarshal`, which `Save` and `loadSessions` of
-- pkg/session/manager.go call, make of a session: the texts come back with U+FFFD for each byte that
-- is in no valid sequence, and all else as it was.
use picoclawnim.Base.{Option, none, some, map, Str}
use picoclawnim.Json.{Value, null, bool, num, text, arr, obj, Items, nil, cons, Fields, end, field}
use picoclawnim.Utils.Runes.{runes, of_runes}
use picoclawnim.Providers.Types.{FunctionCall, ToolCall, Message}
use picoclawnim.Session.Manager.{Session}

unfoldable pub valid_text : Str → Str
valid_text s = of_runes (runes s)

mutual
  unfolding valid_text

  valid_value : Value → Value
  valid_value null = null
  valid_value (bool b) = bool b
  valid_value (num f) = num f
  valid_value (text s) = text (valid_text s)
  valid_value (arr vs) = arr (valid_items vs)
  valid_value (obj fs) = obj (valid_fields fs)

  valid_items : Items → Items
  valid_items nil = nil
  valid_items (cons v vs) = cons (valid_value v) (valid_items vs)

  pub valid_fields : Fields → Fields
  valid_fields end = end
  valid_fields (field k v fs) = field (valid_text k) (valid_value v) (valid_fields fs)

unfoldable pub valid_function : Option FunctionCall → Option FunctionCall
valid_function none = none
valid_function (some f) =
    some (record { name = valid_text f.name; arguments = valid_text f.arguments })

unfoldable pub valid_call : ToolCall → ToolCall
unfolding valid_function
valid_call tc = record {
  id = valid_text tc.id;
  type = valid_text tc.type;
  function = valid_function tc.function;
  name = valid_text tc.name;
  arguments = valid_fields tc.arguments;
}

unfoldable pub valid_message : Message → Message
unfolding valid_call
valid_message m = record {
  role = valid_text m.role;
  content = valid_text m.content;
  tool_calls = map valid_call m.tool_calls;
  tool_call_id = valid_text m.tool_call_id;
}

-- A session that was encoded and decoded.
unfoldable pub reencoded : Session → Session
unfolding valid_message
reencoded s = record {
  key = valid_text s.key;
  messages = map valid_message s.messages;
  summary = valid_text s.summary;
  created = s.created;
  updated = s.updated;
}
