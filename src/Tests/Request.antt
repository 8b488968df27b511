-- ===== src/Tests/Request.antt =====
-- The requests to the engine, on a short history.
use ninfer_studio.Base.{
  Text, units, String, includes, Dict, get, List, [], ◌∷◌, Option, none, some, true, false, ◌≡◌,
  refl,
}
use ninfer_studio.Message.{ToolCall, Message, plain, user, assistant}
use ninfer_studio.Api.Values.{Json}
use ninfer_studio.Api.Request.Messages.{Part, fence_of, request_messages}
use ninfer_studio.Api.Request.Items.{responses_input}
use ninfer_studio.Api.Request.Answered.{CallsAnswered, responses_input-CallsAnswered}
use ninfer_studio.Api.Request.Fence.{includes-fence_of}
use ninfer_studio.Api.Request.Body.{ChatParams, json_object, request_fields}
use ninfer_studio.Api.Request.Greedy.{request_fields-greedy}

abbrev stringify : List Part → Text
stringify ps = units "[]"

abbrev list_call : ToolCall
list_call = record { id = "c1"; name = "ls"; arguments = units "{}" }

-- The call of the second message has no result.
abbrev history : List Message
history =
    plain user (units "What is there?")
    ∷ record (plain assistant []) { tool_calls = list_call ∷ [] }
    ∷ []

responses_input-CallsAnswered_example :
    CallsAnswered (responses_input stringify (request_messages true (units "Be brief.") history))
responses_input-CallsAnswered_example =
    responses_input-CallsAnswered stringify true (units "Be brief.") history

includes-fence_of_example : includes (fence_of (units "a ````\nb `")) (units "a ````\nb `") ≡ false
includes-fence_of_example = includes-fence_of (units "a ````\nb `")

fence_run : fence_of (units "a ````\nb `") ≡ units "`````"
unfolding fence_of units
fence_run = refl

abbrev greedy_params : ChatParams
greedy_params = record {
  thinking = true;
  reasoning_effort = some "none";
  preserve_thinking = none;
  max_tokens = some 100;
  temperature = some (Json.integer 2);
  top_p = none;
  top_k = some (Json.integer 40);
  min_p = none;
  presence_penalty = none;
  frequency_penalty = none;
  seed = some (Json.integer 7);
  greedy = true;
  structured_output = some json_object;
  auto_tool_constraints = true;
  parallel_tool_calls = some false;
}

abbrev extra : Dict Json
extra = ("top_k", Json.integer 5) ∷ []

abbrev parse : Text → Option Json
parse s = none

abbrev same_name : String → String
same_name s = s

abbrev sent : Dict Json
sent = request_fields parse same_name "m" greedy_params extra

request_fields-greedy_example :
    (get "temperature" sent ≡ some (Json.integer 0))
    × (get "top_p" sent ≡ some (Json.integer 1))
    × (get "top_k" sent ≡ none)
    × (get "min_p" sent ≡ none)
request_fields-greedy_example = request_fields-greedy parse same_name "m" greedy_params extra refl

effort_run :
    (get "enable_thinking" sent ≡ some (Json.boolean false))
    × (get "reasoning_effort" sent ≡ some (Json.string "none"))
unfolding request_fields get
effort_run = (refl, refl)
