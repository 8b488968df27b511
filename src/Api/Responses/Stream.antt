-- ===== src/Api/Responses/Stream.antt =====
-- api/responses.ts: the stream of `streamResponses`. `parse` is `JSON.parse`, and `null_field` the
-- message of the `TypeError` that a field of `null` throws.
use ninfer_studio.Base.{
  Text, units, trim, is_blank, String, Dict, or_else, map, not, ◌&&◌, if◌then◌else◌, List, [], ◌∷◌,
  ◌++◌, Option, none, some,
}
use ninfer_studio.Message.{ToolCall}
use ninfer_studio.Api.Values.{Json}
use ninfer_studio.Api.Splitter.{lines}
use ninfer_studio.Api.ReadLoop.{Verdict, onwards, read_loop}
use ninfer_studio.Api.Transport.{
  MessageMeta, Callback, Failure, Ending, Fetched, strip_cr, data_of, detail_of, request_failed,
  stream_ended,
}
use ninfer_studio.Api.Responses.Reducer.{
  Call, ResponsesState, Effect, Reduced, init_responses_state, apply_responses_event,
}

-- The accumulator, and the callbacks that were made.
pub record Streaming : Type 0 where
  pub state : ResponsesState
  pub said : List Callback

abbrev pub at_start : Streaming
at_start = record { state = init_responses_state; said = [] }

-- The callbacks for an effect.
unfoldable pub callbacks_of : MessageMeta → Effect → List Callback
unfolding units
callbacks_of meta Effect.nothing = []
callbacks_of meta (Effect.content_delta s) = Callback.content_delta (units s) ∷ []
callbacks_of meta (Effect.reasoning_delta s) = Callback.reasoning_delta (units s) ∷ []
callbacks_of meta (Effect.usage u) = Callback.usage u meta ∷ []
callbacks_of meta (Effect.error s) = if is_blank s then [] else Callback.failed s ∷ []

-- What a thrown error leaves: the state, and the failure.
abbrev pub Thrown : Type 0
Thrown = Streaming × Failure

abbrev pub call_entry : String × Call → ToolCall
call_entry (id, c) = record { id = id; name = c.name; arguments = units c.arguments }

-- `onToolCalls`, if there are any.
unfoldable pub calls_of : Dict Call → List Callback
calls_of calls = if is_blank calls then [] else Callback.tool_calls (map call_entry calls) ∷ []

unfoldable pub ending_of : ResponsesState → List Callback
ending_of s =
    if not s.completed && not s.errored
    then stream_ended ∷ []
    else if s.completed
    then Callback.done s.meta ∷ []
    else []

-- Behind the end of the stream.
unfoldable pub finish : Streaming → List Callback
unfolding calls_of ending_of
finish t = t.said ++ (calls_of t.state.calls ++ ending_of t.state)

-- The `catch` clause.
unfoldable pub catch : Thrown → List Callback
catch (t, Failure.aborted) =
    let meta = t.state.meta in
    let reason = some (or_else meta.finish_reason "cancelled") in
    t.said ++ (Callback.done (record meta { finish_reason = reason }) ∷ [])
catch (t, Failure.broke message) = t.said ++ (Callback.failed message ∷ [])

module _ (parse : Text → Option Json) (null_field : Text) where
  unfoldable pub take_effect : Streaming → Reduced → Verdict Streaming Thrown
  unfolding callbacks_of
  take_effect t Reduced.thrown = Verdict.left (t, Failure.broke null_field)
  take_effect t (Reduced.reduced s effect) =
      Verdict.going (record { state = s; said = t.said ++ callbacks_of s.meta effect })

  -- `handleDataLine`
  unfoldable pub handle_data_line : Text → Streaming → Verdict Streaming Thrown
  unfolding apply_responses_event take_effect
  handle_data_line payload t = take_effect t (apply_responses_event parse payload t.state)

  abbrev pub handle_payload : Option Text → Streaming → Verdict Streaming Thrown
  handle_payload none t = Verdict.going t
  handle_payload (some payload) t = handle_data_line payload t

  unfoldable pub handle_line : Text → Streaming → Verdict Streaming Thrown
  unfolding handle_data_line strip_cr data_of
  handle_line line t = handle_payload (data_of (strip_cr line)) t

  -- What no line feed ended, when the stream is over.
  unfoldable pub handle_tail : Streaming × Text → Verdict Streaming Thrown
  unfolding handle_data_line data_of trim
  handle_tail (t, buf) = handle_payload (data_of (trim buf)) t

  abbrev pub outcome : Verdict Streaming Thrown → List Callback
  outcome (Verdict.going t) = finish t
  outcome (Verdict.left thrown) = catch thrown

  abbrev pub at_end : Ending → Streaming × Text → Verdict Streaming Thrown
  at_end Ending.end_of_stream read = handle_tail read
  at_end (Ending.interrupted f) read = Verdict.left (read.0, f)

  -- The callbacks of `streamResponses`, for what the request to the local engine comes to.
  unfoldable pub stream_responses : Fetched → List Callback
  unfolding handle_line handle_tail finish catch
  stream_responses (Fetched.unreached f) = catch (at_start, f)
  stream_responses (Fetched.refused status text) = request_failed (detail_of parse status text) ∷ []
  stream_responses (Fetched.opened chunks ending) =
      outcome (onwards (at_end ending) (read_loop handle_line lines [] at_start chunks))
