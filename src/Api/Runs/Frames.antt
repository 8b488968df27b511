-- ===== src/Api/Runs/Frames.antt =====
-- agentRuns.ts: `parseFrame`, and the frames of one event stream in `consume`.
use ninfer_studio.Base.{
  Text, split_lines, units, starts_with, is_blank, drop, String, ◌===◌, or_else, ◌||◌,
  if◌then◌else◌, List, [], ◌∷◌, ◌++◌, Option, none, some, Bool, true,
}
use ninfer_studio.Api.Values.{Json, field, string_of, if_truthy}
use ninfer_studio.Api.Splitter.{frames}
use ninfer_studio.Api.Drain.{drain}
use ninfer_studio.Api.ReadLoop.{Verdict, onwards, handle_all}

abbrev pub with_data : Text → Text → Text
with_data acc s = acc ++ ((if is_blank acc then [] else 10 ∷ []) ++ s)

unfoldable pub add_line : Text → Text → Text
unfolding starts_with units
add_line acc line =
    if starts_with (units "data: ") line
    then with_data acc (drop 6 line)
    else if starts_with (units "data:") line
    then with_data acc (drop 5 line)
    else acc

unfoldable pub add_lines : Text → List Text → Text
unfolding add_line
add_lines acc [] = acc
add_lines acc (l ∷ ls) = add_lines (add_line acc l) ls

-- A call of the handlers that a stream was made with.
pub data Reason : Type 0 where
  resync closed : Reason

pub data Call : Type 0 where
  snapshot : Option Json → Call
  event : Json → Call
  dropped : Reason → Call

-- `isTerminalStatus`
abbrev pub is_terminal_status : String → Bool
is_terminal_status s = s === "done" || s === "stopped" || s === "error"

abbrev pub type_of : Json → String
type_of ev = or_else (string_of (field "type" ev)) ""

abbrev pub ends_run : Json → Bool
ends_run ev = type_of ev === "done" || type_of ev === "error"

-- The variables of `consume`, and the calls that were made.
pub record Consuming : Type 0 where
  pub saw_state_frame : Bool
  pub said : List Call

-- Why `consume` returns in front of the end: the run is over, or the stream was closed.
pub data Stop : Type 0 where
  terminal closed_now : Consuming → Stop

abbrev pub say : Call → Consuming → Consuming
say c t = record t { said = t.said ++ (c ∷ []) }

-- The first `state` frame is a snapshot, and no other one is used.
unfoldable pub take_state : Json → Consuming → Consuming
unfolding field
take_state ev t = if t.saw_state_frame then t else record t {
  saw_state_frame = true;
  said = t.said ++ (Call.snapshot (field "snapshot" ev) ∷ []);
}

unfoldable pub take_event : Option Json → Consuming → Verdict Consuming Stop
unfolding take_state
take_event none t = Verdict.going t
take_event (some ev) t =
    if type_of ev === "state"
    then Verdict.going (take_state ev t)
    else if ends_run ev
    then Verdict.left (Stop.terminal (say (Call.event ev) t))
    else Verdict.going (say (Call.event ev) t)

module _ (parse : Text → Option Json) where
  -- `parseFrame`; what is falsy is passed over by its caller.
  unfoldable pub parse_frame : Text → Option Json
  unfolding add_lines split_lines if_truthy
  parse_frame frame =
      let acc = add_lines [] (split_lines frame) in
      if is_blank acc then none else if_truthy (parse acc)

  unfoldable pub handle_frame : Text → Consuming → Verdict Consuming Stop
  unfolding parse_frame take_event
  handle_frame frame t = take_event (parse_frame frame) t

  -- The read loop of `consume`: each chunk comes with whether the stream is closed behind it. What
  -- no empty line ended is not read.
  unfoldable pub consume_from : Text → Consuming → List (Text × Bool) → Verdict Consuming Stop
  unfolding handle_all handle_frame
  consume_from buf t [] = Verdict.going t
  consume_from buf t ((c, is_closed) ∷ chunks) =
      let found = drain frames (buf ++ c) in
      onwards
        (λ u.
          let rest = consume_from found.1 u chunks in
          if is_closed then Verdict.left (Stop.closed_now u) else rest)
        (handle_all handle_frame found.0 t)
