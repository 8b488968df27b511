-- ===== src/Api/Runs/Attach.antt =====
-- agentRuns.ts: `RunStream`, which attaches to a run again until it is over.
use ninfer_studio.Base.{
  ℕ, Text, String, or_else, ◌==◌, not, ◌&&◌, if◌then◌else◌, List, [], ◌∷◌, ◌++◌, Option, none, some,
  Bool, true, false,
}
use ninfer_studio.Api.Values.{Json, field, string_of}
use ninfer_studio.Api.ReadLoop.{Verdict}
use ninfer_studio.Api.Runs.Frames.{Reason, Call, Consuming, Stop, is_terminal_status, consume_from}

-- What the request for the events comes to: it fails, it is refused with a status, or the chunks
-- of its body arrive, each with whether the stream is closed behind it. At the end the body is
-- over, or the reader throws.
pub data Events : Type 0 where
  unreached : Events
  refused : ℕ → Events
  opened : List (Text × Bool) → Bool → Events

-- What one turn of the loop meets: the snapshots that the server gives, if it does, the events, and
-- whether `close` was called by each place that asks for it.
pub record Round : Type 0 where
  pub closed_at_start : Bool
  pub first : Option Json
  pub closed_behind_first : Bool
  pub events : Events
  pub closed_at_cut : Bool
  pub closed_behind_pause : Bool
  pub last : Option Json

-- What one turn comes to: the calls, whether the loop goes on, and whether the run is known to be
-- over. With the last, the next turn returns at once.
pub record Turn : Type 0 where
  pub said : List Call
  pub goes_on : Bool
  pub terminal : Bool

abbrev pub returns : List Call → Bool → Turn
returns calls t = record { said = calls; goes_on = false; terminal = t }

abbrev pub goes : List Call → Bool → Turn
goes calls t = record { said = calls; goes_on = true; terminal = t }

abbrev pub status_of : Json → String
status_of snap = or_else (string_of (field "status" snap)) ""

abbrev pub fresh : Consuming
fresh = record { saw_state_frame = false; said = [] }

-- What `consume` comes to.
pub data Consumed : Type 0 where
  ended : List Call → Bool → Consumed
  threw : List Call → Consumed

module _ (parse : Text → Option Json) where
  unfoldable pub consumed_of : Verdict Consuming Stop → Bool → Consumed
  consumed_of (Verdict.left (Stop.terminal t)) cut = Consumed.ended t.said true
  consumed_of (Verdict.left (Stop.closed_now t)) cut = Consumed.ended t.said false
  consumed_of (Verdict.going t) cut =
      if cut then Consumed.threw t.said else Consumed.ended t.said false

  -- `consume`
  unfoldable pub consume : Events → Consumed
  unfolding consumed_of consume_from
  consume Events.unreached = Consumed.threw []
  consume (Events.refused status) =
      Consumed.threw (if status == 404 then Call.dropped Reason.closed ∷ [] else [])
  consume (Events.opened chunks cut) = consumed_of (consume_from parse [] fresh chunks) cut

  -- Behind a stream that is over.
  unfoldable pub behind_end : List Call → Bool → Option Json → Turn
  unfolding field
  behind_end calls t none = returns (calls ++ (Call.dropped Reason.closed ∷ [])) t
  behind_end calls t (some cur) =
      if is_terminal_status (status_of cur)
      then returns (calls ++ (Call.snapshot (some cur) ∷ [])) true
      else goes (calls ++ (Call.dropped Reason.resync ∷ [])) t

  -- Behind a stream that was cut.
  unfoldable pub behind_cut : List Call → Round → Turn
  behind_cut calls r =
      if r.closed_at_cut
      then returns calls false
      else if r.closed_behind_pause
      then returns (calls ++ (Call.dropped Reason.resync ∷ [])) false
      else goes (calls ++ (Call.dropped Reason.resync ∷ [])) false

  unfoldable pub behind_consume : Consumed → Round → Turn
  unfolding behind_cut behind_end
  behind_consume (Consumed.threw calls) r = behind_cut calls r
  behind_consume (Consumed.ended calls t) r = behind_end calls t r.last

  abbrev pub before : Call → Turn → Turn
  before c turn = record turn { said = c ∷ turn.said }

  unfoldable pub with_snapshot : Json → Round → Turn
  unfolding field consume behind_consume
  with_snapshot snap r =
      if r.closed_behind_first
      then returns [] false
      else before (Call.snapshot (some snap)) (
          if is_terminal_status (status_of snap)
          then returns [] true
          else behind_consume (consume r.events) r)

  -- Without a snapshot the run counts as gone.
  unfoldable pub answered : Option Json → Round → Turn
  unfolding with_snapshot
  answered none r = returns (Call.dropped Reason.closed ∷ []) false
  answered (some snap) r = with_snapshot snap r

  -- One turn of `loop`.
  unfoldable pub turn_of : Round → Turn
  unfolding answered
  turn_of r = if r.closed_at_start then returns [] false else answered r.first r

  -- `loop`: the calls of all turns, for as many turns as the environment answers.
  unfoldable pub loop : List Round → List Call
  unfolding turn_of
  loop [] = []
  loop (r ∷ rounds) =
      let turn = turn_of r in
      let rest = loop rounds in
      if turn.goes_on && not turn.terminal then turn.said ++ rest else turn.said
