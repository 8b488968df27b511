-- ===== src/Tests/Agent.antt =====
-- agentLoop.ts with a concrete engine, tool and clock.
use ninfer_studio.Base.{
  ℕ, zero, suc, ◌≤◌, Text, units, starts_with, is_blank, String, ◌===◌, if◌then◌else◌, map, List,
  [], ◌∷◌, Option, none, some, Bool, true, false, ◌≡◌, refl, ◌⊎◌,
}
use ninfer_studio.Message.{user, ToolCall, Message, plain}
use ninfer_studio.Chat.Sanitize.Answered.{Answered}
use ninfer_studio.Agent.Compact.{
  is_compacted_msg, compacted_context, IsLastCheckpoint, compacted_context-last,
}
use ninfer_studio.Agent.Dispatch.{
  Parsed, Handled, Handler, label_of, answer_label, execute_tool_calls, execute_tool_calls-ids,
}
use ninfer_studio.Agent.Turn.{StreamEvent}
use ninfer_studio.Agent.Humanize.{max_depth, humanize_pass_text, humanize_pass_text-bounds}
use ninfer_studio.Agent.Loop.{Options, run_tool_loop}
use ninfer_studio.Agent.Loop.Transcript.{IsEnd, run_tool_loop-IsEnd}
use ninfer_studio.Agent.Loop.Answered.{transcript, run_tool_loop-Answered}

-- The number of requests made so far is the world.
abbrev World : Type 0
World = ℕ

abbrev list_call : ToolCall
list_call = record { id = "c1"; name = "ls"; arguments = units "{}" }

abbrev parse : Text → Parsed Text
parse s = if starts_with (units "{") s then Parsed.object s else Parsed.unparsed (units "bad JSON")

abbrev ls : Handler World Text
ls args w = (Handled.resolved (units "[]"), w)

abbrev tools_by_name : String → Option (Handler World Text)
tools_by_name name = if name === "ls" then some ls else none

-- The engine calls `ls` first, and answers after that.
abbrev engine : List Message → World → List StreamEvent × World
engine ms zero = (StreamEvent.tool_calls (list_call ∷ []) ∷ StreamEvent.done [] ∷ [], 1)
engine ms (suc w) = (StreamEvent.content_delta (units "Empty.") ∷ StreamEvent.done [] ∷ [], suc w)

abbrev options : Options World Text
options = record {
  tools = record { function_name = some "ls" } ∷ [];
  max_steps = 4;
  append_date_time = true;
  recover_markup = true;
  is_aborted = λ w. false;
  clock = λ w. units "now";
  stream = engine;
  registry = tools_by_name;
  parse_args = parse;
  no_args = [];
  parse_markup = λ s. record { calls = []; consumed = [] };
  on_assistant_turn = λ m t n w. (none, w);
}

abbrev question : List Message
question = plain user (units "What is there?") ∷ []

run_tool_loop-IsEnd_example : IsEnd options question 4 (run_tool_loop options question 0)
run_tool_loop-IsEnd_example = run_tool_loop-IsEnd options question 0

run_tool_loop-Answered_example : Answered (transcript (run_tool_loop options question 0))
run_tool_loop-Answered_example =
    run_tool_loop-Answered options question 0 (λ m t n v. refl) (λ a. tt, tt)

execute_tool_calls-ids_example :
    map label_of (execute_tool_calls parse [] tools_by_name (list_call ∷ []) 0).0
    ≡ map answer_label (list_call ∷ [])
execute_tool_calls-ids_example = execute_tool_calls-ids parse [] tools_by_name (list_call ∷ []) 0

abbrev gate : Text → Bool
gate s = starts_with (units "Delve") s

abbrev rewrite : Text → World → Option Text × World
rewrite s w = (some (units "Look."), w)

humanize_pass_text-bounds_example :
    ((humanize_pass_text gate (λ w. false) rewrite (units "Delve in.") 0).1 ≤ max_depth)
    × (((humanize_pass_text gate (λ w. false) rewrite (units "Delve in.") 0).0 ≡ units "Delve in.")
        ⊎ (is_blank (humanize_pass_text gate (λ w. false) rewrite (units "Delve in.") 0).0 ≡ false))
humanize_pass_text-bounds_example =
    humanize_pass_text-bounds gate (λ w. false) rewrite (units "Delve in.") 0

abbrev reloaded : List Message
reloaded =
    plain user (units "first")
    ∷ plain user (units "<compacted-summary>")
    ∷ plain user (units "next")
    ∷ []

compacted_context-last_example : IsLastCheckpoint reloaded (compacted_context reloaded)
unfolding is_compacted_msg
compacted_context-last_example = compacted_context-last reloaded refl
