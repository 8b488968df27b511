-- ===== src/Api/Request/Items.antt =====
-- api/responses.ts: the `input` of a Responses request. `stringify` is `JSON.stringify` on the parts
-- of a content.
use ninfer_studio.Base.{
  Text, trim, is_blank, String, or_else, not, if◌then◌else◌, map, List, [], ◌∷◌, ◌++◌, Bool,
}
use ninfer_studio.Message.{Role, ToolCall, is_assistant, is_tool}
use ninfer_studio.Api.Request.Messages.{Part, Content, ApiMessage, plain_text, parts}

pub data Item : Type 0 where
  function_call_output : String → Text → Item
  message : Role → Content → Item
  function_call : ToolCall → Item

abbrev pub has_text : Content → Bool
has_text (plain_text s) = not (is_blank (trim s))
has_text (parts ps) = not (is_blank ps)

module _ (stringify : List Part → Text) where
  abbrev pub output_of : Content → Text
  output_of (plain_text s) = s
  output_of (parts ps) = stringify ps

  -- `toResponsesItems`
  unfoldable pub to_responses_items : ApiMessage → List Item
  to_responses_items m =
      if is_tool m.role
      then function_call_output (or_else m.tool_call_id "") (output_of m.content) ∷ []
      else (if has_text m.content then message m.role m.content ∷ [] else [])
        ++ (if is_assistant m.role then map function_call m.tool_calls else [])

  -- `messages.flatMap(toResponsesItems)`
  unfoldable pub responses_input : List ApiMessage → List Item
  unfolding to_responses_items
  responses_input [] = []
  responses_input (m ∷ messages) = to_responses_items m ++ responses_input messages
