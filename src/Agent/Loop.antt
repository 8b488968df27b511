-- ===== src/Agent/Loop.antt =====
-- agentLoop.ts, `runToolLoop`. The transport, the registry, the hook, the clock and the abort signal
-- are arguments of the code, and parameters here; `W` is whatever they depend on. The callbacks
-- that only show progress are left out, but for `onAppended`, whose calls are logged.
pub mod Transcript
pub mod Answered
use ninfer_studio.Base.{
  ℕ, zero, suc, ◌+◌, Text, units, trim, is_blank, String, ◌===◌, or_else, if◌then◌else◌, List, [],
  ◌∷◌, ◌++◌, filter, any, Option, none, some, Bool, true, false, not, ◌&&◌, ◌||◌,
}
use ninfer_studio.Message.{Role, ToolCall, Message, plain}
use ninfer_studio.Agent.Dispatch.{Parsed, Handler, execute_tool_calls}
use ninfer_studio.Agent.Turn.{
  Meta, StreamEvent, TurnResult, ToolSchema, Recovered, names_of, stream_error, stream_turn,
  context_note_message,
}

-- `ToolLoopStop`
pub data Stop : Type 0 where
  done steps aborted empty halted : Stop

-- `AssistantHook`
pub record Hook : Type 0 where
  pub content : Option Text
  pub inject : List Message
  pub halt : Bool
  pub proceed : Option Bool

-- `ToolLoopOptions`, with the functions that the loop calls.
pub record Options (W Args : Type 0) : Type 0 where
  pub tools : List ToolSchema
  pub max_steps : ℕ
  pub append_date_time : Bool
  pub recover_markup : Bool
  pub is_aborted : W → Bool
  pub clock : W → Text
  pub stream : List Message → W → List StreamEvent × W
  pub registry : String → Option (Handler W Args)
  pub parse_args : Text → Parsed Args
  pub no_args : Args
  pub parse_markup : Text → Recovered
  pub on_assistant_turn : Message → TurnResult → ℕ → W → Option Hook × W

-- The variables of `runToolLoop`, and the calls of `onAppended`.
pub record Loop (W : Type 0) : Type 0 where
  pub messages : List Message
  pub turns : ℕ
  pub finish_reason : Option Text
  pub meta : Meta
  pub log : List (List Message × ℕ)
  pub world : W

-- What one round of the loop does: it returns, throws, or goes on.
pub data Round (W : Type 0) : Type 0 where
  ended : Stop → Loop W → Round W
  threw : Text → Loop W → Round W
  again : Loop W → Round W

-- `[...new Set(names)]`
unfoldable pub unique : List String → List String → List String
unique seen [] = []
unique seen (n ∷ names) =
    let rest = unique seen names in
    let more = n ∷ unique (n ∷ seen) names in if any (λ k. k === n) seen then rest else more

-- `names.join(', ')`
unfoldable pub join_names : List String → Text
join_names [] = []
join_names (n ∷ []) = units n
join_names (n ∷ k ∷ names) = units n ++ units ", " ++ join_names (k ∷ names)

unfoldable pub dropped_note : List ToolSchema → List String → Message
unfolding unique join_names units
dropped_note tools dropped =
    let names = join_names (unique [] dropped) in
    let start = units "[System: your tool-call markup for " ++ names in
    plain Role.user (
      if is_blank (names_of tools)
      then start
        ++ units
            " was ignored — no tools are available in this conversation. Answer directly in prose.]"
      else start
        ++ units " was ignored — those tools are not available right now. Available tools: "
        ++ join_names (names_of tools)
        ++ units
            ". Call one of the available tools using the native tool-call format, or answer directly in prose.]")

abbrev pub assistant_message : TurnResult → Message
assistant_message t = record (plain Role.assistant t.content) {
  reasoning = t.reasoning;
  tool_calls = t.tool_calls;
}

abbrev pub with_hook : Option Hook → Message → Message
with_hook none m = m
with_hook (some h) m = record m { content = or_else h.content m.content }

abbrev pub injected : Option Hook → List Message
injected none = []
injected (some h) = h.inject

abbrev pub halts : Option Hook → Bool
halts none = false
halts (some h) = h.halt

abbrev pub proceeds : Option Hook → TurnResult → Bool
proceeds none t = not (is_blank t.tool_calls)
proceeds (some h) t = or_else h.proceed (not (is_blank t.tool_calls))

module _ {W Args : Type 0} (o : Options W Args) where
  -- `messages = [...messages, ...more]`, and the call of `onAppended`.
  abbrev pub append : Loop W → List Message → Loop W
  append s more = record s { messages = s.messages ++ more; log = s.log ++ ((more, s.turns) ∷ []) }

  abbrev pub append_some : Loop W → List Message → Loop W
  append_some s more = if is_blank more then s else append s more

  abbrev pub next_turn : Loop W → Loop W
  next_turn s = record s { turns = s.turns + 1 }

  unfoldable pub with_note : Loop W → Loop W
  with_note s =
      if o.append_date_time
      then elim (context_note_message [] (o.clock s.world)) [
        | none ↦ s
        | some note ↦ append s (note ∷ [])
      ]
      else s

  -- Running the calls, and the next round.
  unfoldable pub dispatch : TurnResult → Loop W → Loop W
  dispatch t s =
      let results = execute_tool_calls o.parse_args o.no_args o.registry t.tool_calls s.world in
      next_turn (record (append s results.0) { world = results.1 })

  -- From the answer of `onAssistantTurn` on.
  unfoldable pub hooked : TurnResult → Option Hook → Loop W → Round W
  unfolding dispatch
  hooked t hook s =
      let s' = append_some (append s (with_hook hook (assistant_message t) ∷ [])) (injected hook) in
      if halts hook
      then ended halted s'
      else if not (proceeds hook t)
          && not (o.is_aborted s'.world)
          && is_blank t.tool_calls
          && not (is_blank t.dropped)
      then again (next_turn (append s' (dropped_note o.tools t.dropped ∷ [])))
      else if not (proceeds hook t)
      then ended done s'
      else again (dispatch t s')

  -- From the end of the stream on.
  unfoldable pub streamed : TurnResult → Option Text → Loop W → Round W
  unfolding hooked
  streamed t error s =
      let s' = record s { finish_reason = t.finish_reason; meta = t.meta } in
      let answer = o.on_assistant_turn (assistant_message t) t s.turns s.world in
      if (elim error [ none ↦ false | some _ ↦ not (o.is_aborted s.world) ])
      then threw (or_else error []) s
      else if is_blank (trim t.content) && is_blank t.tool_calls
      then ended empty s'
      else hooked t answer.0 (record s' { world = answer.1 })

  unfoldable pub round : Loop W → Round W
  unfolding with_note streamed
  round s =
      let s' = with_note s in
      let streaming = o.stream s'.messages s'.world in
      if o.is_aborted s.world
      then ended aborted s
      else streamed (stream_turn o.parse_markup o.recover_markup o.tools streaming.0)
          (stream_error none streaming.0) (record s' { world = streaming.1 })

  -- The `while`, where `rest` is `maxSteps - turns`: a round that goes on adds one to `turns`.
  unfoldable pub run_from : ℕ → Loop W → Round W
  run_from zero s = ended steps s
  run_from (suc rest) s = elim (round s) [
    | ended stop s' ↦ ended stop s'
    | threw m s' ↦ threw m s'
    | again s' ↦ run_from rest s'
  ]

  abbrev pub at_start : List Message → W → Loop W
  at_start messages w = record {
    messages = messages;
    turns = 0;
    finish_reason = none;
    meta = [];
    log = [];
    world = w;
  }

  -- `runToolLoop`; the result is `ended` or `threw`.
  unfoldable pub run_tool_loop : List Message → W → Round W
  unfolding run_from
  run_tool_loop messages w = run_from o.max_steps (at_start messages w)
