-- ===== src/Providers/Answered.antt =====
-- When `Chat` of pkg/providers/http_provider.go gives an answer, and what its tool calls are.
use picoclawnim.Base.{
  ◌≡◌, ◌≢◌, refl, ap, sym, subst, map, str, ◌∷◌, Option-cases, if◌then◌else◌, Bool-cases, inl, inr,
  Option, none, some, List, [], arith, Str, str_eq, str_eq_iff, ◌==◌, ==_iff,
}
use picoclawnim.Json.{Fields, text, field, end}
use picoclawnim.Providers.Types.{FunctionCall, ToolCall, Message, LlmResponse}
use picoclawnim.Providers.Http.{
  HttpProvider, ChatOptions, HttpRequest, Exchange, send_failed, read_failed, replied, ApiToolCall,
  ApiChoice, tool_call_of, name_of, call_arguments, arguments_of, read_or_raw, answered, chat_error,
  request_of, response_of, parsed, parse_response, outcome_of, http_chat,
}

module _ (read_response : Str → Option (List ApiChoice)) (read_object : Str → Option Fields) where
  -- The call of an answer is that of the API: its name is the function's and its arguments are the
  -- object that the function's text decodes to, the text itself under `raw` where it does not, and
  -- none where it is empty.
  abbrev pub IsCalled : Option FunctionCall → Str → Fields → Type 0
  IsCalled none name args = (name ≡ []) × (args ≡ end)
  IsCalled (some f) name args =
      (name ≡ f.name)
      × (args ≡ (
          if str_eq f.arguments [] then end else elim (read_object f.arguments) [
            | none ↦ field (str "raw") (text f.arguments) end
            | some fs ↦ fs
          ]))

  abbrev pub IsCall : ApiToolCall → ToolCall → Type 0
  IsCall a c = (c.id ≡ a.id) × IsCalled a.function c.name c.arguments

  abbrev pub AreCalls : List ApiToolCall → List ToolCall → Type 0
  AreCalls [] [] = Unit
  AreCalls [] (c ∷ cs) = ⊥
  AreCalls (a ∷ rest) [] = ⊥
  AreCalls (a ∷ rest) (c ∷ cs) = IsCall a c × AreCalls rest cs

  -- An answer has what stands in the first choice; it is empty if there is no choice.
  abbrev pub IsFirst : List ApiChoice → LlmResponse → Type 0
  IsFirst [] r = (r.content ≡ []) × (r.tool_calls ≡ []) × (r.finish_reason ≡ str "stop")
  IsFirst (c ∷ cs) r =
      (r.content ≡ c.content)
      × (r.finish_reason ≡ c.finish_reason)
      × AreCalls c.tool_calls r.tool_calls

  -- Where an answer came from, and what it holds.
  abbrev pub IsAnswer : Exchange → LlmResponse → Type 0
  IsAnswer x r =
      (body : Str) × (cs : List ApiChoice) × (x ≡ replied 200 body)
      × (read_response body ≡ some cs)
      × IsFirst cs r

  arguments-read :
      (t : Str)
      → arguments_of read_response read_object t ≡ (
          if str_eq t []
          then end
          else elim (read_object t) [ none ↦ field (str "raw") (text t) end | some fs ↦ fs ])
  unfolding arguments_of read_or_raw
  arguments-read t = elim (Option-cases (read_object t)) [
    | inl e ↦ rw e refl
    | inr (fs, e) ↦ rw e refl
  ]

  function-IsCalled :
      (f : Option FunctionCall)
      → IsCalled f
          (name_of read_response read_object f)
          (call_arguments read_response read_object f)
  unfolding name_of call_arguments
  function-IsCalled none = (refl, refl)
  function-IsCalled (some f) = (refl, arguments-read f.arguments)

  tool_call_of-IsCall : (a : ApiToolCall) → IsCall a (tool_call_of read_response read_object a)
  unfolding tool_call_of
  tool_call_of-IsCall a = (refl, function-IsCalled a.function)

  calls-AreCalls :
      (tcs : List ApiToolCall) → AreCalls tcs (map (tool_call_of read_response read_object) tcs)
  calls-AreCalls [] = tt
  calls-AreCalls (a ∷ tcs) = (tool_call_of-IsCall a, calls-AreCalls tcs)

  response_of-IsFirst :
      (cs : List ApiChoice) → IsFirst cs (response_of read_response read_object cs)
  unfolding response_of
  response_of-IsFirst [] = (refl, refl, refl)
  response_of-IsFirst (c ∷ cs) = (refl, refl, calls-AreCalls c.tool_calls)

  parsed_answer :
      (o : Option (List ApiChoice)) (r : LlmResponse)
      → parsed read_response read_object o ≡ answered r
      → (cs : List ApiChoice) × (o ≡ some cs) × (r ≡ response_of read_response read_object cs)
  unfolding parsed
  parsed_answer none r e = elim (refused e) [ ]
    where
      refused : {t : Str} → chat_error t ≢ answered r
      refused x = cc
  parsed_answer (some cs) r e = (cs, refl, cc)

  outcome-IsAnswer :
      (x : Exchange) (r : LlmResponse)
      → outcome_of read_response read_object x ≡ answered r
      → IsAnswer x r
  unfolding outcome_of parse_response
  outcome-IsAnswer (send_failed t) r e = ground (arith, e)
  outcome-IsAnswer (read_failed t) r e = ground (arith, e)
  outcome-IsAnswer (replied n body) r e = elim (Bool-cases (n == 200)) [
    | inl h ↦
        let (cs, f, g) = parsed_answer (read_response body) r (ground (arith, e)) in
        (
          body,
          cs,
          ap (λ m. replied m body) ((==_iff n 200).0 h),
          f,
          subst (IsFirst cs) (sym g) (response_of-IsFirst cs),
        )
    | inr h ↦ ground (arith, e)
  ]

  -- `Chat` gives an answer only if a base is configured and the API replied to the request with the
  -- status 200 and a body that can be decoded. The answer then has the text, the reason and, one by one, the
  -- calls of the first choice of that body, with the names and the decoded arguments of their
  -- functions; of a body without choices it is the empty answer that stops.
  pub http_chat_answered :
      {D : Type 0} (post : HttpRequest D → Exchange) (p : HttpProvider) (ms : List Message)
      (tools : List D) (model : Str) (o : ChatOptions) (r : LlmResponse)
      → http_chat read_response read_object post p ms tools model o ≡ answered r
      → (p.api_base ≢ []) × IsAnswer (post (request_of p ms tools model o)) r
  unfolding http_chat
  http_chat_answered post p ms tools model o r e = elim (Bool-cases (str_eq p.api_base [])) [
    | inl h ↦ ground (arith, e)
    | inr h ↦ (
      (λ n. ground (arith, str_eq_iff p.api_base [])),
      outcome-IsAnswer (post (request_of p ms tools model o)) r (ground (arith, e)),
    )
  ]
