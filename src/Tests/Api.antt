-- ===== src/Tests/Api.antt =====
-- The streams and what is read from them, on concrete texts.
use ninfer_studio.Base.{
  Text, units, text_eq, map, if◌then◌else◌, All, List, [], ◌∷◌, ◌++◌, Option, none, some, Bool,
  true, false, ◌≡◌, refl,
}
use ninfer_studio.Api.Values.{Json, Items, Members, list_of}
use ninfer_studio.Api.Splitter.{cut_line, lines, cut_frame, frames}
use ninfer_studio.Api.Drain.{drain}
use ninfer_studio.Api.ReadLoop.{joined, read_loop}
use ninfer_studio.Api.Transport.{Callback, Ending, Failure, Fetched, strip_cr, data_of}
use ninfer_studio.Api.Responses.Reports.{is_mute}
use ninfer_studio.Api.Responses.Stream.{stream_responses}
use ninfer_studio.Api.Responses.Ends.{is_loud, Ends, stream_responses-Ends}
use ninfer_studio.Api.ChatStream.Segments.{NoTag}
use ninfer_studio.Api.ChatStream.Stream.{at_start, stream_chat}
use ninfer_studio.Api.ChatStream.Shown.{shown_of, stream_chat-shown_of, stream_chat-joined}
use ninfer_studio.Api.ChatStream.Kept.{received, push_each, push_each-received}
use ninfer_studio.Api.Runs.Attach.{Events, Round, consume, loop}
use ninfer_studio.Api.Runs.Order.{
  calls_of, events_of, until_end, run_events, unclosed, consume-until_end,
}
use ninfer_studio.Api.Runs.Once.{Orderly, loop-Orderly}
use ninfer_studio.Api.Receipt.{Kind, Status, OutputReceipt, validate_output_receipt}
use ninfer_studio.Api.Receipt.Verified.{IsVerified, validate_output_receipt-IsVerified}

abbrev typed : Json → Members → Json
typed kind rest = Json.object (Members.member "type" kind rest)

abbrev no_more : Members
no_more = Members.no_members

-- The payloads that stand below, each with its value.
abbrev delta_event : Json
delta_event =
    typed (Json.string "response.output_text.delta")
      (Members.member "delta" (Json.string "Hi") no_more)

abbrev run_event : Json
run_event = typed (Json.string "token") no_more

abbrev done_event : Json
done_event = typed (Json.string "done") no_more

abbrev text_chunk : Json
text_chunk = Json.object (
    Members.member "choices"
      (Json.array (
        Items.item
          (Json.object (
            Members.member "delta"
              (Json.object (Members.member "content" (Json.string "so</think>Yes") no_more))
              no_more))
          Items.no_items))
      no_more)

abbrev parse : Text → Option Json
parse s =
    if text_eq s (units "1")
    then some delta_event
    else if text_eq s (units "2")
    then some text_chunk
    else if text_eq s (units "3")
    then some run_event
    else if text_eq s (units "4")
    then some done_event
    else none

abbrev plus : Json → Json → Json
plus a b = b

abbrev in_two : List Text
in_two = units "data: 2\nda" ∷ units "ta: [DONE]\n" ∷ []

stream_responses-Ends_example : Ends (
    stream_responses parse
      (units "null")
      (Fetched.opened (units "data: 1\n" ∷ []) Ending.end_of_stream))
stream_responses-Ends_example =
    stream_responses-Ends parse (units "null")
      (Fetched.opened (units "data: 1\n" ∷ []) Ending.end_of_stream)
      (unfold is_loud drain lines cut_line units strip_cr data_of is_mute in refl)

-- A failure whose message is `[]` makes no callback at all.
abbrev mute_failure : Json
mute_failure = Json.object (
    Members.member "type" (Json.string "response.failed") (
      Members.member "response"
        (Json.object (
          Members.member "error"
            (Json.object (Members.member "message" (Json.array Items.no_items) Members.no_members))
            Members.no_members))
        Members.no_members))

mute_run :
    stream_responses
      (λ t. some mute_failure)
      (units "null")
      (Fetched.opened (units "data: 1\n" ∷ []) Ending.end_of_stream)
    ≡ []
unfolding stream_responses drain lines cut_line units strip_cr data_of read_loop
mute_run = refl

stream_chat-shown_of_example : All NoTag (
    shown_of (
      stream_chat parse plus
        (units "null")
        true
        true
        (Fetched.refused 503 (units "busy"))
        (Fetched.opened in_two Ending.end_of_stream)))
stream_chat-shown_of_example =
    stream_chat-shown_of parse plus (units "null") true true (Fetched.refused 503 (units "busy"))
      (Fetched.opened in_two Ending.end_of_stream)

stream_chat-joined_example :
    stream_chat parse plus
      (units "null")
      false
      true
      (Fetched.opened in_two Ending.end_of_stream)
      (Fetched.unreached Failure.aborted)
    ≡ stream_chat parse plus
        (units "null")
        false
        true
        (Fetched.opened (joined in_two ∷ []) Ending.end_of_stream)
        (Fetched.unreached Failure.aborted)
stream_chat-joined_example =
    stream_chat-joined parse plus (units "null") false true in_two Ending.end_of_stream
      (Fetched.unreached Failure.aborted)

abbrev said : Callback → Text
said (Callback.content_delta s) = s
said (Callback.reasoning_delta s) = s
said _ = []

-- The text in front of the tag is reasoning, and the rest is shown.
stream_chat_run :
    map said (
      stream_chat parse plus
        (units "null")
        false
        true
        (Fetched.opened in_two Ending.end_of_stream)
        (Fetched.unreached Failure.aborted))
    ≡ units "so</think>" ∷ units "Yes" ∷ [] ∷ []
unfolding stream_chat lines cut_line read_loop drain list_of
stream_chat_run = refl

push_each-received_example :
    received (push_each ("a</thi" ∷ "nk>b" ∷ []) at_start)
    ≡ received at_start ++ joined (map units ("a</thi" ∷ "nk>b" ∷ []))
push_each-received_example = push_each-received ("a</thi" ∷ "nk>b" ∷ []) at_start

abbrev run_chunks : List Text
run_chunks = units "data: 3\n" ∷ units "\ndata: 4\n\ndata: 3\n\n" ∷ []

consume-until_end_example :
    events_of (calls_of (consume parse (Events.opened (unclosed parse run_chunks) false)))
    ≡ until_end (run_events parse (drain frames (joined run_chunks)).0)
consume-until_end_example = consume-until_end parse run_chunks false

abbrev running : Json
running = Json.object (Members.member "status" (Json.string "running") no_more)

abbrev round_of : List Text → Bool → Round
round_of chunks is_cut = record {
  closed_at_start = false;
  first = some running;
  closed_behind_first = false;
  events = Events.opened (unclosed parse chunks) is_cut;
  closed_at_cut = false;
  closed_behind_pause = false;
  last = some running;
}

abbrev rounds : List Round
rounds = round_of (units "data: 3\n\n" ∷ []) true ∷ round_of run_chunks false ∷ []

loop-Orderly_example : Orderly (events_of (loop parse rounds))
loop-Orderly_example = loop-Orderly parse rounds

-- The event of the first stream, and those of the second one up to the end.
loop_run : events_of (loop parse rounds) ≡ run_event ∷ run_event ∷ done_event ∷ []
unfolding loop events_of drain frames cut_frame
loop_run = refl

abbrev receipt_json : Json
receipt_json = Json.object (
    Members.member "schema" (Json.string "ninfer_output_receipt_v1") (
      Members.member "status" (Json.string "failure") (
        Members.member "uncertain" (Json.boolean false) (
          Members.member "evidence"
            (Json.array (
              Items.item
                (Json.object (
                  Members.member "kind" (Json.string "fatal")
                    (Members.member "quote" (Json.string "no space") no_more)))
                Items.no_items))
            no_more))))

abbrev receipt : OutputReceipt
receipt = record {
  status = Status.failure;
  uncertain = false;
  evidence = record { kind = Kind.fatal; quote = "no space" } ∷ [];
}

accepted :
    validate_output_receipt (λ s. some receipt_json) [] (units "error: no space left") (some true)
    ≡ some receipt
unfolding validate_output_receipt
accepted = refl

validate_output_receipt-IsVerified_example :
    IsVerified (units "error: no space left") (some true) receipt
validate_output_receipt-IsVerified_example =
    validate_output_receipt-IsVerified (λ s. some receipt_json) [] (units "error: no space left")
      (some true) receipt accepted
