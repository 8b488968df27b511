-- ===== src/Api/Request/Answered.antt =====
-- api/chat.ts and api/responses.ts together: the calls of a Responses request and their outputs.
use ninfer_studio.Base.{
  if◌then◌else◌, trim, Text, String, ◌===◌, or_else, is_blank, any, any-append, All, All-imp, map,
  if_elim, or_true, List, [], ◌∷◌, ◌++◌, Option, none, some, Bool, true, false, ◌||◌, Bool-cases,
  eq_iff, ◌≡◌, refl, ap, ◌∙◌, ◌⊎◌, inl, inr, arith,
}
use ninfer_studio.Message.{Role, ToolCall, Message, is_assistant, is_system, is_tool}
use ninfer_studio.Chat.Sanitize.{id_is, leading_tools, sanitize_messages_for_api}
use ninfer_studio.Chat.Sanitize.Answered.{
  answers, IsAnswered, Answered, sanitize_messages_for_api-Answered,
}
use ninfer_studio.Api.Request.Messages.{
  Part, ApiMessage, kept_id, api_message, api_messages, system_message, request_messages,
}
use ninfer_studio.Api.Request.Items.{
  Item, has_text, function_call_output, function_call, message, to_responses_items, responses_input,
}

abbrev pub is_output_of : String → Item → Bool
is_output_of id (function_call_output i output) = i === id
is_output_of id _ = false

-- Every call is answered by an output behind it.
unfoldable pub CallsAnswered : List Item → Type 0
CallsAnswered [] = Unit
CallsAnswered (function_call tc ∷ items) =
    (any (is_output_of tc.id) items ≡ true) × CallsAnswered items
CallsAnswered (_ ∷ items) = CallsAnswered items

or_else-kept_id :
    (o : Option String) (id : String) → id_is o id ≡ true → or_else (kept_id o) "" === id ≡ true
unfolding kept_id
or_else-kept_id none id h = absurd (cc h)
or_else-kept_id (some s) id h = elim (Bool-cases (s === "")) [
  | inl e ↦ rw e (ground (arith, eq_iff s "", eq_iff s id, eq_iff "" id))
  | inr e ↦ rw e h
]

CallsAnswered-calls :
    (calls : List ToolCall) (items : List Item)
    → All (λ tc. any (is_output_of tc.id) items ≡ true) calls
    → CallsAnswered items
    → CallsAnswered (map function_call calls ++ items)
unfolding CallsAnswered
CallsAnswered-calls [] items all h = h
CallsAnswered-calls (tc ∷ calls) items (first, all) h = (
  any-append (is_output_of tc.id) (map function_call calls) items
      ∙ rw first (or_true (any (is_output_of tc.id) (map function_call calls))),
  CallsAnswered-calls calls items all h,
)

tool-is_system : (r : Role) → is_tool r ≡ true → is_system r ≡ false
tool-is_system Role.system h = absurd (cc h)
tool-is_system Role.user h = refl
tool-is_system Role.assistant h = refl
tool-is_system Role.tool h = refl

tool-leading_tools :
    (p : Message → Bool) (m : Message) (rest : List Message)
    → any p (leading_tools (m ∷ rest)) ≡ true
    → (is_tool m.role ≡ true) × ((p m ≡ true) ⊎ (any p (leading_tools rest) ≡ true))
unfolding leading_tools
tool-leading_tools p m rest h = ground (arith, h)

module _ (stringify : List Part → Text) where
  to_responses_items-CallsAnswered :
      (m : ApiMessage) (items : List Item)
      → (is_assistant m.role ≡ true
          → All (λ tc. any (is_output_of tc.id) items ≡ true) m.tool_calls)
      → CallsAnswered items
      → CallsAnswered (to_responses_items stringify m ++ items)
  unfolding to_responses_items CallsAnswered
  to_responses_items-CallsAnswered m items all h =
      let calls = if is_assistant m.role then map function_call m.tool_calls else [] in
      let behind : CallsAnswered (calls ++ items) = elim (Bool-cases (is_assistant m.role)) [
        | inl e ↦ rw e (CallsAnswered-calls m.tool_calls items (all e) h)
        | inr e ↦ rw e h
      ] in
      if_elim (λ is. CallsAnswered (is ++ items)) (is_tool m.role) _ _ h
        (if_elim (λ is. CallsAnswered ((is ++ calls) ++ items)) (has_text m.content)
          (message m.role m.content ∷ []) [] behind behind)

  -- The output for a call of the run of tool messages is among the items.
  any-is_output_of :
      (cache : Bool) (id : String) (rest : List Message)
      → any (answers id) (leading_tools rest) ≡ true
      → any (is_output_of id) (responses_input stringify (api_messages cache rest)) ≡ true
  unfolding leading_tools responses_input api_messages to_responses_items api_message
  any-is_output_of cache id [] h = absurd (cc h)
  any-is_output_of cache id (m ∷ rest) h =
      let found = tool-leading_tools (answers id) m rest h in
      let later = any (is_output_of id) (responses_input stringify (api_messages cache rest)) in
      rw (tool-is_system m.role found.0, found.0)
        (elim found.1 [
          | inl e ↦ ap (λ b. b || later) (or_else-kept_id m.tool_call_id id e)
          | inr e ↦
              ap (λ b. (or_else (kept_id m.tool_call_id) "" === id) || b)
                (any-is_output_of cache id rest e)
              ∙ or_true (or_else (kept_id m.tool_call_id) "" === id)
        ])

  api_messages-CallsAnswered :
      (cache : Bool) (history : List Message)
      → Answered history
      → CallsAnswered (responses_input stringify (api_messages cache history))
  unfolding api_messages responses_input CallsAnswered api_message
  api_messages-CallsAnswered cache [] h = tt
  api_messages-CallsAnswered cache (m ∷ rest) (here, h) =
      let behind = api_messages-CallsAnswered cache rest h in
      if_elim (λ ms. CallsAnswered (responses_input stringify ms)) (is_system m.role) _ _ behind
        (to_responses_items-CallsAnswered (api_message _ m) _
          (λ a.
            All-imp (IsAnswered rest) _ m.tool_calls (λ tc. any-is_output_of cache tc.id rest)
              (here a))
          behind)

  -- In the input of a Responses request, every `function_call` item is answered by a
  -- `function_call_output` item with its call id behind it, whatever the history is.
  pub responses_input-CallsAnswered :
      (cache : Bool) (system_prompt : Text) (history : List Message)
      → CallsAnswered (responses_input stringify (request_messages cache system_prompt history))
  unfolding request_messages responses_input
  responses_input-CallsAnswered cache system_prompt history =
      let sent =
        api_messages-CallsAnswered cache (sanitize_messages_for_api history)
          (sanitize_messages_for_api-Answered history) in
      if_elim (λ ms. CallsAnswered (responses_input stringify ms)) (is_blank (trim system_prompt)) _
        _ sent
        (to_responses_items-CallsAnswered (system_message cache (trim system_prompt)) _
          (λ a. absurd (cc a)) sent)
