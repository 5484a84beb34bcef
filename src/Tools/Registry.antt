-- ===== src/Tools/Registry.antt =====
-- pkg/tools/registry.go and base.go. A tool acts on a world `W`, which holds whatever tools read and
-- change: the bus, files, the context that was set. The logging is left out.
use picoclawnim.Base.{
  ℕ, not, ◌&&◌, Option, none, some, List, [], ◌++◌, map, Str, str, str_eq, if◌then◌else◌, length,
  Map, lookup, insert,
}
use picoclawnim.Json.{Fields}

-- A text, or the text of an error.
pub data ToolResult : Type 0 where
  ok : Str → ToolResult
  err : Str → ToolResult

-- `set_context` is there for the tools that implement `ContextualTool`.
pub record Tool {ℓ} (W : Type ℓ) : Type ℓ where
  pub name : Str
  pub description : Str
  pub set_context : Option (Str → Str → W → W)
  pub execute : Fields → W → ToolResult × W

module _ {ℓ} {W : Type ℓ} where
  unfoldable pub register : Tool W → Map (Tool W) → Map (Tool W)
  register t r = insert t.name t r

  unfoldable pub get : Str → Map (Tool W) → Option (Tool W)
  get name r = lookup name r

  -- A context is set only if both of its parts are given.
  unfoldable pub in_context : Option (Str → Str → W → W) → Str → Str → W → W
  in_context none channel chat w = w
  in_context (some set) channel chat w =
      if not (str_eq channel []) && not (str_eq chat []) then set channel chat w else w

  unfoldable pub execute_found : Str → Option (Tool W) → Fields → Str → Str → W → ToolResult × W
  unfolding in_context
  execute_found name none args channel chat w =
      (err (str "tool '" ++ (name ++ str "' not found")), w)
  execute_found name (some t) args channel chat w =
      t.execute args (in_context t.set_context channel chat w)

  unfoldable pub execute_with_context : Map (Tool W) → Str → Fields → Str → Str → W → ToolResult × W
  unfolding execute_found
  execute_with_context r name args channel chat w =
      execute_found name (get name r) args channel chat w

  -- `Execute`
  unfoldable pub execute_plain : Map (Tool W) → Str → Fields → W → ToolResult × W
  execute_plain r name args w = execute_with_context r name args [] [] w

  -- `List`, `Count`, `GetSummaries`, in the order of the map.
  unfoldable pub list : Map (Tool W) → List Str
  list r = map (λ e. e.0) r

  unfoldable pub count : Map (Tool W) → ℕ
  count r = length r

  unfoldable pub get_summaries : Map (Tool W) → List Str
  get_summaries r = map (λ e. str "- `" ++ ((e.1).name ++ (str "` - " ++ (e.1).description))) r
