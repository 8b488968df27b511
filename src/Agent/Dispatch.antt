-- ===== src/Agent/Dispatch.antt =====
-- agentLoop.ts, `executeToolCalls`. The registry, the handlers and `JSON.parse` are parameters; `W`
-- is whatever the handlers and the abort signal depend on.
use ninfer_studio.Base.{
  Text, units, json_error, String, List, [], ◌∷◌, ◌++◌, map, Option, none, some, ◌≡◌, refl,
}
use ninfer_studio.Message.{Role, tool, ToolCall, Message, plain}

-- What `JSON.parse` gives: an object, another value, or the message that it throws.
pub data Parsed (Args : Type 0) : Type 0 where
  object : Args → Parsed Args
  other_value : Parsed Args
  unparsed : Text → Parsed Args

-- What a handler's promise gives.
pub data Handled : Type 0 where
  resolved : Text → Handled
  rejected : Text → Handled

abbrev pub Handler : Type 0 → Type 0 → Type 0
Handler W Args = Args → W → Handled × W

abbrev pub result_text : Handled → Text
result_text (resolved r) = r
result_text (rejected m) = json_error m

abbrev pub label_of : Message → Role × Option String × Option String
label_of m = (m.role, m.tool_call_id, m.name)

abbrev pub answer_label : ToolCall → Role × Option String × Option String
answer_label c = (Role.tool, some c.id, some c.name)

module _ {W Args : Type 0} (parse : Text → Parsed Args) (empty : Args)
    (registry : String → Option (Handler W Args)) where
  unfoldable pub call_result : ToolCall → W → Text × W
  call_result call w = elim (registry call.name) [
    | none ↦ (json_error (units "unknown tool: " ++ units call.name), w)
    | some handler ↦ elim (parse call.arguments) [
      | unparsed m ↦ (json_error m, w)
      | other_value ↦ (result_text (handler empty w).0, (handler empty w).1)
      | object args ↦ (result_text (handler args w).0, (handler args w).1)
    ]
  ]

  abbrev pub tool_message : ToolCall → Text → Message
  tool_message call result = record (plain tool result) {
    tool_call_id = some call.id;
    name = some call.name;
  }

  -- One message for each call, in order; the handlers run one after the other.
  unfoldable pub execute_tool_calls : List ToolCall → W → List Message × W
  unfolding call_result
  execute_tool_calls [] w = ([], w)
  execute_tool_calls (call ∷ calls) w =
      let done = call_result call w in
      let rest = execute_tool_calls calls done.1 in (tool_message call done.0 ∷ rest.0, rest.1)

  -- Whatever the handlers do, every call gets one tool message, with its id and name, in order.
  pub execute_tool_calls-ids :
      (calls : List ToolCall) (w : W)
      → map label_of (execute_tool_calls calls w).0 ≡ map answer_label calls
  unfolding execute_tool_calls
  execute_tool_calls-ids [] w = refl
  execute_tool_calls-ids (call ∷ calls) w =
      rw (execute_tool_calls-ids calls (call_result call w).1) refl
