-- ===== src/Providers/Calls.antt =====
-- The calls and their results in what is sent to Codex (pkg/providers/codex_provider.go).
use picoclawnim.Base.{
  ◌≡◌, refl, ap, ◌∙◌, Bool-cases, inl, inr, List, [], ◌∷◌, ◌++◌, map, arith, Str, str, str_eq,
  str_eq_sound, if◌then◌else◌,
}
use picoclawnim.Json.{Fields}
use picoclawnim.Providers.Types.{ToolCall, Message}
use picoclawnim.Providers.Codex.{
  InputItem, message_item, call_item, output_item, call_items, assistant_items, role_items,
  items_of, input_items,
}

-- The identifiers of the calls, and of the outputs, in an input.
abbrev pub call_ids : List InputItem → List Str
call_ids [] = []
call_ids (message_item r c ∷ is) = call_ids is
call_ids (call_item id n a ∷ is) = id ∷ call_ids is
call_ids (output_item id c ∷ is) = call_ids is

-- The same in a conversation.
abbrev pub called_ids : List Message → List Str
called_ids [] = []
called_ids (m ∷ ms) =
    (if str_eq m.role (str "assistant") then map (λ tc. tc.id) m.tool_calls else [])
    ++ called_ids ms

call_ids-append : (xs ys : List InputItem) → call_ids (xs ++ ys) ≡ call_ids xs ++ call_ids ys
call_ids-append [] ys = refl
call_ids-append (message_item r c ∷ xs) ys = call_ids-append xs ys
call_ids-append (call_item id n a ∷ xs) ys = ap (◌∷◌ id) (call_ids-append xs ys)
call_ids-append (output_item id c ∷ xs) ys = call_ids-append xs ys

module _ (marshal : Fields → Str) where
  call_ids-call_items :
      (tcs : List ToolCall) → call_ids (call_items marshal tcs) ≡ map (λ tc. tc.id) tcs
  unfolding call_items
  call_ids-call_items [] = refl
  call_ids-call_items (tc ∷ tcs) = ap (◌∷◌ tc.id) (call_ids-call_items tcs)

  call_ids-assistant_items :
      (c : Str) (tcs : List ToolCall)
      → call_ids (assistant_items marshal c tcs) ≡ map (λ tc. tc.id) tcs
  unfolding assistant_items
  call_ids-assistant_items c [] = refl
  call_ids-assistant_items c (tc ∷ tcs) = elim (Bool-cases (str_eq c [])) [
    | inl e ↦ rw e (call_ids-call_items (tc ∷ tcs))
    | inr e ↦ rw e (call_ids-call_items (tc ∷ tcs))
  ]

  abbrev calls_in : Str → Message → List Str
  calls_in role m = if str_eq role (str "assistant") then map (λ tc. tc.id) m.tool_calls else []

  call_ids-role_items : (r : Str) (m : Message) → call_ids (role_items marshal r m) ≡ calls_in r m
  unfolding role_items str_eq
  call_ids-role_items r m = elim (Bool-cases (str_eq r (str "user"))) [
    | inl e ↦
        rw (str_eq_sound r (str "user") e)
          (elim (Bool-cases (str_eq m.tool_call_id [])) [ inl f ↦ rw f refl | inr f ↦ rw f refl ])
    | inr e ↦ elim (Bool-cases (str_eq r (str "assistant"))) [
      | inl f ↦ rw (e, f) (call_ids-assistant_items m.content m.tool_calls)
      | inr f ↦ elim (Bool-cases (str_eq r (str "tool"))) [
        | inl g ↦ rw (e, f, g) refl
        | inr g ↦ rw (e, f, g) refl
      ]
    ]
  ]

  -- The calls that are sent are those of the conversation's assistant messages, in their order, so
  -- that none is lost or sent twice.
  pub call_ids-input_items : (ms : List Message) → call_ids (input_items marshal ms) ≡ called_ids ms
  unfolding input_items items_of
  call_ids-input_items [] = refl
  call_ids-input_items (m ∷ ms) =
      call_ids-append (items_of marshal m) (input_items marshal ms)
      ∙ ground (arith, call_ids-role_items m.role m, call_ids-input_items ms)
