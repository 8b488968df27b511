-- ===== src/Api/Runs/Order.antt =====
-- agentRuns.ts: which events of a run reach the handlers, and in which order.
use ninfer_studio.Base.{
  Text, ◌===◌, if◌then◌else◌, if_elim, List, [], ◌∷◌, ◌++◌, append_assoc, append-nil, Option, none,
  some, Bool, true, false, Bool-cases, ◌≡◌, refl, sym, ap, ◌∙◌, inl, inr,
}
use ninfer_studio.Api.Values.{Json}
use ninfer_studio.Api.Splitter.{cut_frame, frames}
use ninfer_studio.Api.Drain.{drain}
use ninfer_studio.Api.ReadLoop.{
  Verdict, joined, onwards, handle_all, read_loop, read_loop-joined, onwards_congr, onwards-onwards,
  onwards-going,
}
use ninfer_studio.Api.Runs.Frames.{
  Call, Consuming, Stop, say, take_state, take_event, type_of, ends_run, parse_frame, handle_frame,
  consume_from,
}
use ninfer_studio.Api.Runs.Attach.{Consumed, Events, fresh, consumed_of, consume}

-- The events among the calls.
unfoldable pub events_of : List Call → List Json
events_of [] = []
events_of (Call.event ev ∷ calls) = ev ∷ events_of calls
events_of (_ ∷ calls) = events_of calls

pub events_of-append : (a b : List Call) → events_of (a ++ b) ≡ events_of a ++ events_of b
unfolding events_of
events_of-append [] b = refl
events_of-append (Call.event ev ∷ a) b = ap (λ es. ev ∷ es) (events_of-append a b)
events_of-append (Call.snapshot s ∷ a) b = events_of-append a b
events_of-append (Call.dropped r ∷ a) b = events_of-append a b

-- What a stream is for: its events up to the first one that ends the run, with that one.
unfoldable pub until_end : List Json → List Json
until_end [] = []
until_end (ev ∷ events) = let rest = until_end events in if ends_run ev then ev ∷ [] else ev ∷ rest

-- The calls of one stream.
abbrev pub calls_of : Consumed → List Call
calls_of (Consumed.ended calls t) = calls
calls_of (Consumed.threw calls) = calls

-- The event of a frame, if it is one of the run.
abbrev pub one_event : Option Json → List Json
one_event none = []
one_event (some ev) = if type_of ev === "state" then [] else ev ∷ []

abbrev events_in : Verdict Consuming Stop → List Json
events_in (Verdict.going t) = events_of t.said
events_in (Verdict.left (Stop.terminal t)) = events_of t.said
events_in (Verdict.left (Stop.closed_now t)) = events_of t.said

events_of-take_state :
    (ev : Json) (t : Consuming) → events_of (take_state ev t).said ≡ events_of t.said
unfolding take_state events_of
events_of-take_state ev t =
    if_elim (λ (u : Consuming). events_of u.said ≡ events_of t.said) t.saw_state_frame _ _ refl
      (events_of-append t.said _ ∙ append-nil (events_of t.said))

events_of-say :
    (ev : Json) (t : Consuming)
    → events_of (say (Call.event ev) t).said ≡ events_of t.said ++ (ev ∷ [])
unfolding events_of
events_of-say ev t = events_of-append t.said (Call.event ev ∷ [])

until_end-over :
    (ev : Json) (rest : List Json) → ends_run ev ≡ true → until_end (ev ∷ rest) ≡ ev ∷ []
unfolding until_end
until_end-over ev rest e = rw e refl

until_end-more :
    (ev : Json) (rest : List Json)
    → ends_run ev ≡ false
    → until_end (ev ∷ rest) ≡ ev ∷ until_end rest
unfolding until_end
until_end-more ev rest e = rw e refl

-- A frame's event is the next one, whatever comes behind it.
take_event-events :
    (o : Option Json) (t : Consuming) (k : Consuming → Verdict Consuming Stop) (rest : List Json)
    → ((u : Consuming) → events_in (k u) ≡ events_of u.said ++ until_end rest)
    → events_in (onwards k (take_event o t)) ≡ events_of t.said ++ until_end (one_event o ++ rest)
unfolding take_event
take_event-events none t k rest ih = ih t
take_event-events (some ev) t k rest ih = elim (Bool-cases (type_of ev === "state")) [
  | inl e ↦
      rw e (ih (take_state ev t) ∙ ap (λ es. es ++ until_end rest) (events_of-take_state ev t))
  | inr e ↦ rw e (elim (Bool-cases (ends_run ev)) [
    | inl f ↦ rw (f, until_end-over ev rest f) (events_of-say ev t)
    | inr f ↦
        rw (f, until_end-more ev rest f)
          (ih (say (Call.event ev) t)
            ∙ ap (λ es. es ++ until_end rest) (events_of-say ev t)
            ∙ append_assoc (events_of t.said) (ev ∷ []) (until_end rest))
  ])
]

module _ (parse : Text → Option Json) where
  -- The events that are written in the frames.
  unfoldable pub run_events : List Text → List Json
  unfolding parse_frame
  run_events [] = []
  run_events (frame ∷ pieces) = one_event (parse_frame parse frame) ++ run_events pieces

  handle_all-events :
      (pieces : List Text) (t : Consuming)
      → events_in (handle_all (handle_frame parse) pieces t)
        ≡ events_of t.said ++ until_end (run_events pieces)
  unfolding handle_all handle_frame run_events until_end
  handle_all-events [] t = sym (append-nil (events_of t.said))
  handle_all-events (frame ∷ pieces) t =
      take_event-events (parse_frame parse frame) t (handle_all (handle_frame parse) pieces)
        (run_events pieces) (handle_all-events pieces)

  -- A stream that nobody closes.
  abbrev pub unclosed : List Text → List (Text × Bool)
  unclosed [] = []
  unclosed (c ∷ chunks) = (c, false) ∷ unclosed chunks

  consume_from-unclosed :
      (buf : Text) (t : Consuming) (chunks : List Text)
      → consume_from parse buf t (unclosed chunks)
        ≡ onwards
            (λ read. Verdict.going read.0)
            (read_loop (handle_frame parse) frames buf t chunks)
  unfolding consume_from read_loop
  consume_from-unclosed buf t [] = refl
  consume_from-unclosed buf t (c ∷ chunks) =
      let found = drain frames (buf ++ c) in
      let pieces = handle_all (handle_frame parse) found.0 t in
      onwards_congr (λ u. consume_from-unclosed found.1 u chunks) pieces
      ∙ sym (
          onwards-onwards (λ (read : Consuming × Text). Verdict.going read.0)
            (λ u. read_loop (handle_frame parse) frames found.1 u chunks) pieces)

  read_loop-events :
      (t : Consuming) (chunks : List Text)
      → events_in (consume_from parse [] t (unclosed chunks))
        ≡ events_of t.said ++ until_end (run_events (drain frames (joined chunks)).0)
  unfolding read_loop cut_frame frames
  read_loop-events t chunks =
      let found = drain frames (joined chunks) in
      let pieces = handle_all (handle_frame parse) found.0 t in
      ap events_in (
        consume_from-unclosed [] t chunks
        ∙ ap (onwards (λ (read : Consuming × Text). Verdict.going read.0))
            (read_loop-joined (handle_frame parse) frames t chunks refl)
        ∙ onwards-onwards (λ (read : Consuming × Text). Verdict.going read.0)
            (λ u. Verdict.going (u, found.1)) pieces
        ∙ onwards-going pieces)
      ∙ handle_all-events found.0 t

  consumed_of-events :
      (v : Verdict Consuming Stop) (cut : Bool)
      → events_of (calls_of (consumed_of parse v cut)) ≡ events_in v
  unfolding consumed_of
  consumed_of-events (Verdict.left (Stop.terminal t)) cut = refl
  consumed_of-events (Verdict.left (Stop.closed_now t)) cut = refl
  consumed_of-events (Verdict.going t) true = refl
  consumed_of-events (Verdict.going t) false = refl

  -- The events that one stream hands on, if it is not closed, are those of the frames in its text,
  -- in order, up to the first `done` or `error` and with it; neither the bounds of the chunks nor
  -- the `state` frames matter.
  pub consume-until_end :
      (chunks : List Text) (cut : Bool)
      → events_of (calls_of (consume parse (Events.opened (unclosed chunks) cut)))
        ≡ until_end (run_events (drain frames (joined chunks)).0)
  unfolding consume events_of
  consume-until_end chunks cut =
      consumed_of-events (consume_from parse [] fresh (unclosed chunks)) cut
      ∙ read_loop-events fresh chunks
