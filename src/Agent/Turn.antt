-- ===== src/Agent/Turn.antt =====
-- agentLoop.ts, `streamTurn`, with `toolNameOf`, `stripToolMarkup` and `contextNoteMessage`. The
-- transport is a list of the callbacks that it makes; `parseMarkupToolCalls` is a parameter.
use ninfer_studio.Base.{
  ℕ, zero, suc, Text, units, trim, is_blank, starts_with, String, ◌===◌, Dict, get, spread,
  if◌then◌else◌, length, List, [], ◌∷◌, ◌++◌, map, filter, any, Option, none, some, Bool, not, ◌&&◌,
}
use ninfer_studio.Message.{ToolCall, Message, labelled}

-- `MessageMeta`: the fields that are set, by name.
abbrev pub Meta : Type 0
Meta = Dict Text

abbrev pub finish_reason_of : Meta → Option Text
finish_reason_of m = get "finishReason" m

-- The callbacks of a transport.
pub data StreamEvent : Type 0 where
  content_delta reasoning_delta : Text → StreamEvent
  tool_calls : List ToolCall → StreamEvent
  usage done : Meta → StreamEvent
  failed : Text → StreamEvent

pub data Source : Type 0 where
  content reasoning : Source

-- `TurnResult`
pub record TurnResult : Type 0 where
  pub content : Text
  pub reasoning : Text
  pub tool_calls : List ToolCall
  pub finish_reason : Option Text
  pub meta : Meta
  pub recovered_from : Option Source
  pub dropped : List String

abbrev pub no_turn : TurnResult
no_turn = record {
  content = [];
  reasoning = [];
  tool_calls = [];
  finish_reason = none;
  meta = [];
  recovered_from = none;
  dropped = [];
}

unfoldable pub on_event : TurnResult → StreamEvent → TurnResult
on_event t (content_delta s) = record t { content = t.content ++ s }
on_event t (reasoning_delta s) = record t { reasoning = t.reasoning ++ s }
on_event t (tool_calls c) = record t { tool_calls = c }
on_event t (usage m) = record t { meta = m }
on_event t (done m) = record t { meta = spread t.meta m; finish_reason = finish_reason_of m }
on_event t (failed m) = t

unfoldable pub accumulate : TurnResult → List StreamEvent → TurnResult
unfolding on_event
accumulate t [] = t
accumulate t (e ∷ events) = accumulate (on_event t e) events

-- The last message that `onError` was called with.
unfoldable pub stream_error : Option Text → List StreamEvent → Option Text
stream_error last [] = last
stream_error last (failed m ∷ events) = stream_error (some m) events
stream_error last (_ ∷ events) = stream_error last events

-- An entry of `tools`: the name at `function.name`, where there is one and it is a string.
pub record ToolSchema : Type 0 where
  pub function_name : Option String

-- `toolNameOf`
abbrev pub tool_name_of : ToolSchema → Option String
tool_name_of t = elim t.function_name [ none ↦ none | some n ↦ if n === "" then none else some n ]

-- The names of the tools, without those that have none.
unfoldable pub names_of : List ToolSchema → List String
names_of [] = []
names_of (t ∷ tools) = elim (tool_name_of t) [ none ↦ names_of tools | some n ↦ n ∷ names_of tools ]

abbrev pub declares : List String → ToolCall → Bool
declares names c = any (λ n. n === c.name) names

-- `out.split(c).join('')`; `skip` counts what is left of an occurrence.
unfoldable pub cut_out : Text → ℕ → Text → Text
cut_out c skip [] = []
cut_out c (suc n) (x ∷ s) = cut_out c n s
cut_out [] zero (x ∷ s) = x ∷ s
cut_out (d ∷ c) zero (x ∷ s) =
    let behind = cut_out (d ∷ c) (length c) s in
    let rest = cut_out (d ∷ c) zero s in if starts_with (d ∷ c) (x ∷ s) then behind else x ∷ rest

unfoldable pub cut_all : Text → List Text → Text
unfolding cut_out
cut_all text [] = text
cut_all text (c ∷ consumed) = cut_all (cut_out c 0 text) consumed

-- `stripToolMarkup`
unfoldable pub strip_tool_markup : Text → List Text → Text
unfolding cut_all trim
strip_tool_markup text consumed = trim (cut_all text consumed)

-- What `parseMarkupToolCalls` finds.
pub record Recovered : Type 0 where
  pub calls : List ToolCall
  pub consumed : List Text

module _ (parse_markup : Text → Recovered) where
  -- Is the markup looked for in the reasoning?
  unfoldable pub from_reasoning : TurnResult → Bool
  unfolding trim
  from_reasoning t =
      is_blank (parse_markup t.content).calls
      && is_blank (trim t.content)
      && not (is_blank (trim t.reasoning))

  abbrev pub recovered_of : TurnResult → Recovered
  recovered_of t = if from_reasoning t then parse_markup t.reasoning else parse_markup t.content

  abbrev pub usable_of : List String → TurnResult → List ToolCall
  usable_of names t = filter (declares names) (recovered_of t).calls

  abbrev pub with_dropped : List String → TurnResult → TurnResult
  with_dropped names t = record t {
    dropped = map (λ c. c.name) (filter (λ c. not (declares names c)) (recovered_of t).calls);
  }

  -- The recovered calls, and the text without their markup.
  abbrev pub with_usable : List String → TurnResult → TurnResult → TurnResult
  with_usable names t u =
      let consumed = (recovered_of t).consumed in
      if from_reasoning t
      then record u {
        reasoning = strip_tool_markup t.reasoning consumed;
        tool_calls = usable_of names t;
        recovered_from = some Source.reasoning;
      }
      else record u {
        content = strip_tool_markup t.content consumed;
        tool_calls = usable_of names t;
        recovered_from = some Source.content;
      }

  unfoldable pub recover : Bool → List ToolSchema → TurnResult → TurnResult
  unfolding from_reasoning
  recover recover_markup tools t =
      let names = names_of tools in
      if recover_markup
        && is_blank t.tool_calls
        && not (is_blank (trim t.content) && is_blank (trim t.reasoning))
      then (if is_blank (usable_of names t)
          then with_dropped names t
          else with_usable names t (with_dropped names t))
      else t

  -- `streamTurn`, for the callbacks that the transport made.
  unfoldable pub stream_turn : Bool → List ToolSchema → List StreamEvent → TurnResult
  unfolding recover accumulate
  stream_turn recover_markup tools events = recover recover_markup tools (accumulate no_turn events)

-- `[extra, block].filter(Boolean).join('\n\n')`
unfoldable pub join_blocks : Text → Text → Text
join_blocks extra block =
    if is_blank extra
    then block
    else if is_blank block
    then extra
    else extra ++ units "\n\n" ++ block

-- `contextNoteMessage`, where `clock` is what `localDateTimeBlock` returns.
unfoldable pub context_note_message : Text → Text → Option Message
unfolding join_blocks trim
context_note_message extra clock =
    let text = trim (join_blocks extra clock) in
    if is_blank text
    then none
    else some (
        labelled "Context"
          (units "[System context for this turn — not something the user said]\n\n" ++ text))
