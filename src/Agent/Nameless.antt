-- ===== src/Agent/Nameless.antt =====
-- What a client of pkg/providers/codex_provider.go makes of the calls that pkg/agent/loop.go records.
use picoclawnim.Base.{
  ◌≡◌, refl, ap, ◌∙◌, Bool-cases, inl, inr, List, [], ◌∷◌, ◌++◌, map, Str, str_eq,
}
use picoclawnim.Json.{Fields, end}
use picoclawnim.Providers.Types.{ToolCall, Message, LlmResponse}
use picoclawnim.Providers.Codex.{
  InputItem, message_item, call_item, output_item, call_items, assistant_items, role_items,
  items_of, input_items,
}
use picoclawnim.Agent.State.{Env}
use picoclawnim.Agent.Loop.{call_message, assistant_message}

-- The calls in an input: identifier, name and arguments.
abbrev pub sent_calls : List InputItem → List (Str × Str × Str)
sent_calls [] = []
sent_calls (message_item r c ∷ is) = sent_calls is
sent_calls (call_item id n a ∷ is) = (id, n, a) ∷ sent_calls is
sent_calls (output_item id c ∷ is) = sent_calls is

sent_calls-append :
    (xs ys : List InputItem) → sent_calls (xs ++ ys) ≡ sent_calls xs ++ sent_calls ys
sent_calls-append [] ys = refl
sent_calls-append (message_item r c ∷ xs) ys = sent_calls-append xs ys
sent_calls-append (call_item id n a ∷ xs) ys = ap (◌∷◌ (id, n, a)) (sent_calls-append xs ys)
sent_calls-append (output_item id c ∷ xs) ys = sent_calls-append xs ys

module _ {W : Type 0} (env : Env W) (marshal : Fields → Str) where
  abbrev pub nameless : List ToolCall → List (Str × Str × Str)
  nameless tcs = map (λ tc. (tc.id, [], marshal end)) tcs

  sent_calls-call_items :
      (tcs : List ToolCall)
      → sent_calls (call_items marshal (map (call_message env) tcs)) ≡ nameless tcs
  unfolding call_items call_message
  sent_calls-call_items [] = refl
  sent_calls-call_items (tc ∷ tcs) = ap (◌∷◌ (tc.id, [], marshal end)) (sent_calls-call_items tcs)

  sent_calls-assistant_items :
      (c : Str) (tcs : List ToolCall)
      → sent_calls (assistant_items marshal c (map (call_message env) tcs)) ≡ nameless tcs
  unfolding assistant_items
  sent_calls-assistant_items c [] = refl
  sent_calls-assistant_items c (tc ∷ tcs) = elim (Bool-cases (str_eq c [])) [
    | inl e ↦ rw e (sent_calls-call_items (tc ∷ tcs))
    | inr e ↦ rw e (sent_calls-call_items (tc ∷ tcs))
  ]

  -- The calls that a message records for an answer of the model reach Codex with their identifiers
  -- only: the name of each is empty and its arguments are those of no field, whatever the model
  -- called, so that in the next round the model does not see what it has called.
  pub sent_calls-assistant_message :
      (r : LlmResponse) (ms : List Message)
      → sent_calls (input_items marshal (assistant_message env r ∷ ms))
        ≡ nameless r.tool_calls ++ sent_calls (input_items marshal ms)
  unfolding input_items items_of role_items assistant_message str_eq
  sent_calls-assistant_message r ms =
      sent_calls-append (items_of marshal (assistant_message env r)) (input_items marshal ms)
      ∙ ap (λ x. x ++ sent_calls (input_items marshal ms))
          (sent_calls-assistant_items r.content r.tool_calls)
