-- ===== src/Api/ChatStream/Stream.antt =====
-- api/chat.ts: the stream of `streamChat`, its end, and the second try on the local engine. `parse`
-- is `JSON.parse`, `plus` is `+` on numbers, and `null_field` the message of the `TypeError` that a
-- field of `null` throws.
use ninfer_studio.Base.{
  ℕ, Text, units, text_eq, String, leb, ◌==◌, or_else, is_blank, ◌&&◌, ◌||◌, map, any,
  if◌then◌else◌, List, [], ◌∷◌, ◌++◌, Option, none, some, Bool, true, false,
}
use ninfer_studio.Api.Values.{
  Json, is_null, field, optional_field, if_truthy, some_text, or_default, array_of,
}
use ninfer_studio.Api.Splitter.{lines}
use ninfer_studio.Api.ReadLoop.{Verdict, onwards, read_loop}
use ninfer_studio.Api.Transport.{
  MessageMeta, no_meta, Callback, Failure, Ending, Fetched, strip_cr, data_of, detail_of,
  request_failed, stream_ended,
}
use ninfer_studio.Api.ChatStream.Think.{flush_content, push_content}
use ninfer_studio.Api.ChatStream.Calls.{Piece, pieces, calls_from, call_delta, add_deltas}

-- The variables of `streamChat`, and the callbacks that were made.
pub record Chatting : Type 0 where
  pub meta : MessageMeta
  pub tool_acc : List (Option Piece)
  pub content_buf : Text
  pub said : List Callback

abbrev pub at_start : Chatting
at_start = record { meta = no_meta; tool_acc = []; content_buf = []; said = [] }

-- Why the loop is left: the closing line was seen, or an error was thrown.
pub data Left : Type 0 where
  done_seen : Chatting → Left
  thrown : Chatting → Failure → Left

abbrev pub say : List Callback → Chatting → Chatting
say cbs t = record t { said = t.said ++ cbs }

-- `finish`
unfoldable pub finish : Chatting → List Callback
unfolding pieces calls_from
finish t =
    let calls = calls_from 0 (pieces t.tool_acc) in
    let call_cbs = if is_blank calls then [] else Callback.tool_calls calls ∷ [] in
    t.said ++ (flush_content t.content_buf ++ (call_cbs ++ (Callback.done t.meta ∷ [])))

-- `meta.finishReason = meta.finishReason || 'cancelled'`
abbrev pub cancelled : Chatting → Chatting
cancelled t = record t {
  meta = record t.meta { finish_reason = some (or_else t.meta.finish_reason "cancelled") };
}

unfoldable pub catch : Chatting → Failure → List Callback
unfolding finish
catch t Failure.aborted = finish (cancelled t)
catch t (Failure.broke message) = t.said ++ (Callback.failed message ∷ [])

-- `chunk.usage`
abbrev pub take_usage : Option Json → MessageMeta → MessageMeta
take_usage none m = m
take_usage (some u) m = record m {
  prompt_tokens = or_default (field "prompt_tokens" u) m.prompt_tokens;
  completion_tokens = or_default (field "completion_tokens" u) m.completion_tokens;
  cached_tokens =
      or_default (optional_field "cached_tokens" (field "prompt_tokens_details" u)) m.cached_tokens;
  reasoning_tokens = optional_field "reasoning_tokens" (field "completion_tokens_details" u);
}

abbrev pub or_kept : Option Json → Option Json → Option Json
or_kept none old = old
or_kept (some j) old = some j

abbrev pub reasoning_of : Option String → List Callback
reasoning_of none = []
reasoning_of (some s) = Callback.reasoning_delta (units s) ∷ []

unfoldable pub push : Option String → Chatting → Chatting
unfolding push_content
push none t = t
push (some s) t =
    let held = push_content t.content_buf (units s) in
    record t { content_buf = held.1; said = t.said ++ held.0 }

-- The first of `choices`, where there is one.
unfoldable pub first_of : Option Json → Option Json
unfolding if_truthy
first_of choices = elim (array_of choices) [ [] ↦ none | c ∷ rest ↦ if_truthy (some c) ]

-- What a choice says, and whether one of its tool calls is `null`, whose field throws. The pieces in
-- front of that one are not added: behind a thrown error the accumulator is not read.
unfoldable pub take_choice : Option Json → Chatting → Bool × Chatting
unfolding push field some_text add_deltas call_delta
take_choice none t = (false, t)
take_choice (some choice) t =
    let d = field "delta" choice in
    let u =
      push (some_text (optional_field "content" d))
        (say (reasoning_of (some_text (optional_field "reasoning_content" d))) t) in
    let tool_calls = array_of (optional_field "tool_calls" d) in
    let finished = some_text (field "finish_reason" choice) in
    if any is_null tool_calls then (true, u) else (
      false,
      record u {
        tool_acc = add_deltas (map call_delta tool_calls) u.tool_acc;
        meta = record u.meta {
          finish_reason = elim finished [ none ↦ u.meta.finish_reason | some s ↦ some s ];
        };
      },
    )

abbrev pub usage_callback : Option Json → Chatting → Chatting
usage_callback none t = t
usage_callback (some u) t = say (Callback.usage u t.meta ∷ []) t

module _ (parse : Text → Option Json) (plus : Json → Json → Json) (null_field : Text) where
  -- `chunk.timings`
  abbrev pub take_timings : Option Json → MessageMeta → MessageMeta
  take_timings none m = m
  take_timings (some t) m = record m {
    prompt_tok_per_sec = field "prompt_per_second" t;
    decode_tok_per_sec = field "predicted_per_second" t;
    cached_tokens = field "cache_n" t;
    prompt_tokens = some (
        plus (or_else (or_default (field "cache_n" t) none) (Json.integer 0))
          (or_else (or_default (field "prompt_n" t) none) (Json.integer 0)));
    completion_tokens = field "predicted_n" t;
    draft_n = or_kept (field "draft_n" t) m.draft_n;
    draft_n_accepted = or_kept (field "draft_n_accepted" t) m.draft_n_accepted;
  }

  -- What follows a choice, unless it threw.
  abbrev pub after_choice : Option Json → Bool × Chatting → Verdict Chatting Left
  after_choice usage (true, t) = Verdict.left (Left.thrown t (Failure.broke null_field))
  after_choice usage (false, t) = Verdict.going (usage_callback usage t)

  unfoldable pub take_chunk : Json → Chatting → Verdict Chatting Left
  unfolding take_choice first_of field if_truthy
  take_chunk chunk t =
      let usage = if_truthy (field "usage" chunk) in
      let meta = take_usage usage (take_timings (if_truthy (field "timings" chunk)) t.meta) in
      after_choice usage (take_choice (first_of (field "choices" chunk)) (record t { meta = meta }))

  unfoldable pub handle_parsed : Option Json → Chatting → Verdict Chatting Left
  unfolding take_chunk
  handle_parsed none t = Verdict.going t
  handle_parsed (some chunk) t =
      if is_null chunk
      then Verdict.left (Left.thrown t (Failure.broke null_field))
      else take_chunk chunk t

  unfoldable pub handle_payload : Option Text → Chatting → Verdict Chatting Left
  unfolding handle_parsed text_eq
  handle_payload none t = Verdict.going t
  handle_payload (some payload) t =
      if text_eq payload (units "[DONE]")
      then Verdict.left (Left.done_seen t)
      else handle_parsed (parse payload) t

  -- `handleLine`
  unfoldable pub handle_line : Text → Chatting → Verdict Chatting Left
  unfolding handle_payload strip_cr data_of
  handle_line line t = handle_payload (data_of (strip_cr line)) t

  -- The last line need not be ended.
  unfoldable pub handle_tail : Chatting × Text → Verdict Chatting Left
  unfolding handle_line
  handle_tail (t, buf) = if is_blank buf then Verdict.going t else handle_line buf t

  abbrev pub at_end : Ending → Chatting × Text → Verdict Chatting Left
  at_end Ending.end_of_stream read = handle_tail read
  at_end (Ending.interrupted f) read = Verdict.left (Left.thrown read.0 f)

  -- Without the closing line the stream counts as cut.
  unfoldable pub outcome : Verdict Chatting Left → List Callback
  unfolding catch
  outcome (Verdict.going t) = t.said ++ (stream_ended ∷ [])
  outcome (Verdict.left (Left.done_seen t)) = finish t
  outcome (Verdict.left (Left.thrown t f)) = catch t f

  -- One request.
  unfoldable pub stream_once : Fetched → List Callback
  unfolding outcome handle_line handle_tail
  stream_once (Fetched.unreached f) = catch at_start f
  stream_once (Fetched.refused status text) = request_failed (detail_of parse status text) ∷ []
  stream_once (Fetched.opened chunks ending) =
      outcome (onwards (at_end ending) (read_loop handle_line lines [] at_start chunks))

  abbrev pub falling_back : Text → Callback
  falling_back detail = Callback.reasoning_delta (
      units "\n⚠"
      ++ (65039 ∷ units " *Cloud API error (")
      ++ detail
      ++ units "). Falling back to local engine...*\n\n")

  -- Is the local engine asked, if the request is refused?
  abbrev pub falls_back : Bool → Bool → ℕ → Bool
  falls_back has_base_url allow_fallback status =
      has_base_url && allow_fallback && (status == 429 || leb 500 status)

  -- `streamChat`, for what the request comes to, and the one to the local engine if it is made.
  unfoldable pub stream_chat : Bool → Bool → Fetched → Fetched → List Callback
  unfolding stream_once
  stream_chat has_base_url allow_fallback (Fetched.refused status text) second =
      let first = Fetched.refused status text in
      if falls_back has_base_url allow_fallback status
      then falling_back (detail_of parse status text) ∷ stream_once second
      else stream_once first
  stream_chat has_base_url allow_fallback first second = stream_once first
