-- ===== src/Chat/Sanitize.antt =====
-- apps/web/src/lib/chatHelpers.ts, `sanitizeMessagesForApi`. The index loop, which jumps to `k - 1`
-- after an assistant message with calls, is a recursion on the list that skips as many messages.
pub mod Answered
pub mod Kept
use ninfer_studio.Base.{
  ℕ, zero, suc, Text, units, is_blank, ◌===◌, String, List, [], ◌∷◌, ◌++◌, map, filter, any, length,
  Option, none, some, Bool, true, false, not, ◌&&◌, ◌||◌, if◌then◌else◌,
}
use mathlib.Core.List.{reverse}
use ninfer_studio.Message.{
  Role, tool, ToolCall, Message, is_system, is_user, is_assistant, is_tool, plain, labelled,
}

-- `tc.id === tcid`, where `tcid` may be undefined
abbrev pub id_is : Option String → String → Bool
id_is none id = false
id_is (some i) id = i === id

abbrev pub calls_id : Message → Option String → Bool
calls_id m id = any (λ tc. id_is id tc.id) m.tool_calls

-- The inner loop over `out`, from its end.
pub find_call : Option String → List Message → Bool
find_call id [] = false
find_call id (prev ∷ more) =
    if is_assistant prev.role && calls_id prev id
    then true
    else if is_user prev.role || is_system prev.role
    then false
    else find_call id more

-- `a || b` on optional strings
unfoldable pub or_string : Option String → String → String
or_string none d = d
or_string (some s) d = if s === "" then d else s

pub historical : Message → Message
historical m = labelled "Historical Tool Result" (
    units "[Historical tool result for "
    ++ units (or_string m.name "tool")
    ++ units "]:\n"
    ++ m.content)

pub tool_entry : List Message → Message → Message
tool_entry out m = if find_call m.tool_call_id (reverse out) then m else historical m

-- The run of tool messages from `i + 1` up to `k`.
unfoldable pub leading_tools : List Message → List Message
leading_tools [] = []
leading_tools (m ∷ rest) = if is_tool m.role then m ∷ leading_tools rest else []

-- `foundIds.has(id)`: an empty id is never added to the set.
abbrev pub has_result : List Message → String → Bool
has_result run id = not (id === "") && any (λ t. id_is t.tool_call_id id) run

pub omitted : ToolCall → Message
omitted tc =
    record (plain tool (units "{\"error\":\"tool execution was interrupted or omitted\"}")) {
      tool_call_id = some tc.id;
      name = some tc.name;
    }

abbrev pub missing : List Message → List ToolCall → List ToolCall
missing run = filter (λ tc. not (has_result run tc.id))

-- What one round appends to `out`, and how many of the messages behind it it consumes.
pub entries : List Message → Message → List Message → List Message × ℕ
entries out m rest =
    if is_tool m.role
    then (tool_entry out m ∷ [], 0)
    else if is_assistant m.role && not (is_blank m.tool_calls)
    then (
      m ∷ (leading_tools rest ++ map omitted (missing (leading_tools rest) m.tool_calls)),
      length (leading_tools rest),
    )
    else (m ∷ [], 0)

pub sanitize_from : List Message → ℕ → List Message → List Message
sanitize_from out skip [] = out
sanitize_from out (suc n) (m ∷ rest) = sanitize_from out n rest
sanitize_from out zero (m ∷ rest) =
    let e = entries out m rest in sanitize_from (out ++ e.0) e.1 rest

pub sanitize_messages_for_api : List Message → List Message
sanitize_messages_for_api history = sanitize_from [] 0 history
