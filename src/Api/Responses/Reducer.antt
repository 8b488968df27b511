-- ===== src/Api/Responses/Reducer.antt =====
-- api/responses.ts: `applyResponsesEvent`. `parse` is `JSON.parse`, which fails with `none`. Ids,
-- names and arguments, where the engine gives them, are strings.
use ninfer_studio.Base.{
  Text, units, String, ◌===◌, Dict, get, put, or_else, if◌then◌else◌, any, List, [], ◌∷◌, Option,
  none, some, Bool, true, false,
}
use ninfer_studio.Api.Values.{
  Json, is_null, field, optional_field, if_truthy, string_of, some_text, string_or, array_of,
}
use ninfer_studio.Api.Transport.{MessageMeta, no_meta}

-- An entry of `calls`.
pub record Call : Type 0 where
  pub name : String
  pub arguments : String

pub record ResponsesState : Type 0 where
  pub calls : Dict Call
  pub item_id_to_call_id : Dict String
  pub meta : MessageMeta
  pub completed : Bool
  pub errored : Bool

abbrev pub init_responses_state : ResponsesState
init_responses_state = record {
  calls = [];
  item_id_to_call_id = [];
  meta = no_meta;
  completed = false;
  errored = false;
}

-- `ResponsesEventEffect`: at most one of the fields is set.
pub data Effect : Type 0 where
  nothing : Effect
  content_delta reasoning_delta : String → Effect
  usage : Json → Effect
  error : Text → Effect

-- The new state and the effect; a field of `null` throws.
pub data Reduced : Type 0 where
  thrown : Reduced
  reduced : ResponsesState → Effect → Reduced

-- `x ?? ''`
abbrev pub or_empty : Option Json → String
or_empty o = or_else (string_of o) ""

abbrev pub is_call : Json → Bool
is_call item = or_empty (field "type" item) === "function_call"

-- `response.output_item.added`
unfoldable pub add_item : Option Json → ResponsesState → ResponsesState
unfolding field some_text put
add_item none s = s
add_item (some item) s =
    if is_call item
    then elim (some_text (field "call_id" item)) [
      | none ↦ s
      | some call_id ↦ elim (some_text (field "id" item)) [
        | none ↦ s
        | some id ↦ record s {
          item_id_to_call_id = put id call_id s.item_id_to_call_id;
          calls =
              put call_id (record { name = or_empty (field "name" item); arguments = "" }) s.calls;
        }
      ]
    ]
    else s

-- The call that an item's id stands for.
abbrev pub call_id_of : String → ResponsesState → String
call_id_of item_id s = or_else (get item_id s.item_id_to_call_id) item_id

-- `response.function_call_arguments.done`
unfoldable pub arguments_done : Json → ResponsesState → ResponsesState
unfolding field get put
arguments_done chunk s =
    let call_id = call_id_of (or_empty (field "item_id" chunk)) s in
    let entry = or_else (get call_id s.calls) (record { name = ""; arguments = "" }) in
    if call_id === "" then s else record s {
      calls =
          put call_id
            (record {
              name = or_else (string_of (field "name" chunk)) entry.name;
              arguments = or_empty (field "arguments" chunk);
            })
            s.calls;
    }

abbrev pub with_usage : Json → MessageMeta → MessageMeta
with_usage u m = record m {
  prompt_tokens = field "input_tokens" u;
  completion_tokens = field "output_tokens" u;
  cached_tokens = optional_field "cached_tokens" (field "input_tokens_details" u);
  reasoning_tokens = optional_field "reasoning_tokens" (field "output_tokens_details" u);
}

-- The counts of a truthy `usage`.
abbrev pub take_usage : Option Json → ResponsesState → ResponsesState
take_usage none s = s
take_usage (some u) s = record s { meta = with_usage u s.meta }

abbrev pub usage_effect : Option Json → Effect
usage_effect none = Effect.nothing
usage_effect (some u) = Effect.usage u

-- The server's list of calls is laid over the calls that were collected.
unfoldable pub reconcile : List Json → Dict Call → Dict Call
unfolding field some_text put
reconcile [] calls = calls
reconcile (item ∷ output) calls =
    let call : Call = record {
      name = or_empty (field "name" item);
      arguments = or_empty (field "arguments" item);
    } in
    let skipped = reconcile output calls in
    elim (if is_call item then some_text (field "call_id" item) else none) [
      | none ↦ skipped
      | some call_id ↦ reconcile output (put call_id call calls)
    ]

abbrev pub finish_reason_of : Option Json → List Json → String
finish_reason_of response output =
    if any is_call output
    then "tool_calls"
    else if or_empty (optional_field "status" response) === "incomplete"
    then "length"
    else "stop"

abbrev pub with_finish_reason : String → ResponsesState → ResponsesState
with_finish_reason reason s = record s { meta = record s.meta { finish_reason = some reason } }

abbrev pub usage_of : Option Json → Option Json
usage_of response = if_truthy (optional_field "usage" response)

-- `response.completed`
unfoldable pub complete : Option Json → ResponsesState → ResponsesState
unfolding reconcile field if_truthy
complete response s =
    let output = array_of (optional_field "output" response) in
    let t = take_usage (usage_of response) s in
    with_finish_reason (finish_reason_of response output)
      (record t { completed = true; calls = reconcile output t.calls })

-- `response.incomplete`
unfoldable pub leave_incomplete : Option Json → ResponsesState → ResponsesState
unfolding field if_truthy
leave_incomplete response s =
    take_usage (usage_of response) (with_finish_reason "length" (record s { completed = true }))

-- `String(resp?.error?.message || 'response did not complete')`
unfoldable pub failure_of : Option Json → Text
unfolding field string_or units
failure_of response =
    string_or (optional_field "message" (optional_field "error" response))
      (units "response did not complete")

unfoldable pub apply_chunk : Json → ResponsesState → Reduced
unfolding field add_item arguments_done complete leave_incomplete failure_of if_truthy
apply_chunk chunk s =
    let kind = or_empty (field "type" chunk) in
    let response = field "response" chunk in
    if is_null chunk
    then Reduced.thrown
    else if kind === "response.output_text.delta"
    then Reduced.reduced s (Effect.content_delta (or_empty (field "delta" chunk)))
    else if kind === "response.reasoning_text.delta"
    then Reduced.reduced s (Effect.reasoning_delta (or_empty (field "delta" chunk)))
    else if kind === "response.output_item.added"
    then Reduced.reduced (add_item (field "item" chunk) s) Effect.nothing
    else if kind === "response.function_call_arguments.done"
    then Reduced.reduced (arguments_done chunk s) Effect.nothing
    else if kind === "response.completed"
    then Reduced.reduced (complete response s) (usage_effect (usage_of response))
    else if kind === "response.incomplete"
    then Reduced.reduced (leave_incomplete response s) (usage_effect (usage_of response))
    else if kind === "response.failed"
    then Reduced.reduced (record s { errored = true }) (Effect.error (failure_of response))
    else Reduced.reduced s Effect.nothing

-- What is no JSON is ignored.
unfoldable pub apply_parsed : Option Json → ResponsesState → Reduced
unfolding apply_chunk
apply_parsed none s = Reduced.reduced s Effect.nothing
apply_parsed (some chunk) s = apply_chunk chunk s

-- `applyResponsesEvent`
unfoldable pub apply_responses_event : (Text → Option Json) → Text → ResponsesState → Reduced
unfolding apply_parsed
apply_responses_event parse payload s = apply_parsed (parse payload) s
