-- ===== src/Tools/Dispatch.antt =====
-- What a registered tool name runs.
use picoclawnim.Base.{
  ◌≡◌, Bool, true, false, ◌++◌, Str, str, str_eq, if◌then◌else◌, Map, lookup-insert, none, Option,
  some, refl,
}
use picoclawnim.Json.{Fields}
use picoclawnim.Tools.Registry.{
  Tool, err, register, get, in_context, execute_found, execute_with_context,
}

module _ {ℓ} {W : Type ℓ} where
  if_found :
      (b : Bool) (name : Str) (o p : Option (Tool W)) (args : Fields) (channel chat : Str) (w : W)
      → execute_found name (if b then o else p) args channel chat w ≡ (
          if b
          then execute_found name o args channel chat w
          else execute_found name p args channel chat w)
  if_found true name o p args channel chat w = refl
  if_found false name o p args channel chat w = refl

  -- After a registration its name runs the new tool, in the context that is given, and every other
  -- name runs what it ran before.
  pub execute_with_context-register :
      (t : Tool W) (r : Map (Tool W)) (name : Str) (args : Fields) (channel chat : Str) (w : W)
      → execute_with_context (register t r) name args channel chat w ≡ (
          if str_eq t.name name
          then t.execute args (in_context t.set_context channel chat w)
          else execute_with_context r name args channel chat w)
  unfolding execute_with_context register get
  execute_with_context-register t r name args channel chat w =
      rw lookup-insert (if_found (str_eq t.name name) name (some t) _ args channel chat w)

  -- An unknown name is an error that names it, and changes nothing.
  pub execute_unknown :
      (r : Map (Tool W)) (name : Str) (args : Fields) (channel chat : Str) (w : W)
      → get name r ≡ none
      → execute_with_context r name args channel chat w
        ≡ (err (str "tool '" ++ (name ++ str "' not found")), w)
  unfolding execute_with_context
  execute_unknown r name args channel chat w e = rw (e, execute_found)
