-- ===== src/Api/Runs/Once.antt =====
-- agentRuns.ts, `RunStream`: nothing of a run is handed on behind its end, over all attachments.
use ninfer_studio.Base.{
  Text, ◌===◌, ◌==◌, if◌then◌else◌, if_elim, All, All-append, List, [], ◌∷◌, ◌++◌, append-nil,
  Option, none, some, Bool, true, false, not, ◌&&◌, Bool-cases, ◌≡◌, refl, sym, ap, subst, ◌∙◌, inl,
  inr,
}
use ninfer_studio.Api.Values.{Json, field}
use ninfer_studio.Api.Splitter.{frames}
use ninfer_studio.Api.Drain.{drain}
use ninfer_studio.Api.ReadLoop.{Verdict, Comes, Comes-onwards, handle_all, handle_all-Comes}
use ninfer_studio.Api.Runs.Frames.{
  Reason, Call, Consuming, Stop, say, take_state, take_event, type_of, ends_run, parse_frame,
  handle_frame, consume_from, is_terminal_status,
}
use ninfer_studio.Api.Runs.Attach.{
  Consumed, Events, Round, Turn, returns, goes, fresh, consumed_of, consume, behind_end, behind_cut,
  behind_consume, before, with_snapshot, answered, status_of, turn_of, loop,
}
use ninfer_studio.Api.Runs.Order.{events_of, events_of-append}

Calm : List Json → Type 0
Calm events = All (λ ev. ends_run ev ≡ false) events

-- An event that ends the run is the last one.
unfoldable pub Orderly : List Json → Type 0
Orderly [] = Unit
Orderly (ev ∷ events) = (ends_run ev ≡ true → events ≡ []) × Orderly events

Orderly-append : (a b : List Json) → Calm a → Orderly b → Orderly (a ++ b)
unfolding Calm Orderly
Orderly-append [] b c o = o
Orderly-append (ev ∷ a) b (e, c) o = (λ h. absurd (cc (e, h)), Orderly-append a b c o)

-- The events of the calls are in order, and none ends the run unless `t` says so.
Fine : List Call → Bool → Type 0
Fine calls t = Orderly (events_of calls) × (t ≡ false → Calm (events_of calls))

Calm-Fine : (calls : List Call) (t : Bool) → Calm (events_of calls) → Fine calls t
unfolding Fine Orderly
Calm-Fine calls t c = (
  subst Orderly (append-nil (events_of calls)) (Orderly-append (events_of calls) [] c tt),
  λ _. c,
)

-- A call that is no event changes nothing.
Fine-behind :
    (calls : List Call) (c : Call) (t : Bool)
    → events_of (c ∷ []) ≡ []
    → Fine calls t
    → Fine (calls ++ (c ∷ [])) t
unfolding Fine
Fine-behind calls c t e (o, f) =
    let same = sym (
      events_of-append calls (c ∷ [])
      ∙ ap (λ es. events_of calls ++ es) e
      ∙ append-nil (events_of calls)) in
    (subst Orderly same o, λ h. subst Calm same (f h))

CalmSoFar : Consuming → Type 0
CalmSoFar t = Calm (events_of t.said)

StopFine : Stop → Type 0
StopFine (Stop.terminal t) = Orderly (events_of t.said)
StopFine (Stop.closed_now t) = CalmSoFar t

take_state-CalmSoFar : (ev : Json) (t : Consuming) → CalmSoFar t → CalmSoFar (take_state ev t)
unfolding take_state CalmSoFar events_of Calm
take_state-CalmSoFar ev t p = if_elim CalmSoFar t.saw_state_frame _ _ p (
    subst Calm
      (sym (
        events_of-append t.said (Call.snapshot (field "snapshot" ev) ∷ [])
        ∙ append-nil (events_of t.said)))
      p)

say_more :
    (ev : Json) (t : Consuming)
    → CalmSoFar t
    → ends_run ev ≡ false
    → CalmSoFar (say (Call.event ev) t)
unfolding CalmSoFar Calm events_of
say_more ev t p e =
    subst Calm (sym (events_of-append t.said (Call.event ev ∷ [])))
      (All-append (λ x. ends_run x ≡ false) (events_of t.said) (ev ∷ []) p (e, tt))

say_over :
    (ev : Json) (t : Consuming) → CalmSoFar t → StopFine (Stop.terminal (say (Call.event ev) t))
unfolding CalmSoFar StopFine events_of Orderly
say_over ev t p =
    subst Orderly (sym (events_of-append t.said (Call.event ev ∷ [])))
      (Orderly-append (events_of t.said) (ev ∷ []) p ((λ _. refl), tt))

take_event-CalmSoFar :
    (o : Option Json) (t : Consuming) → CalmSoFar t → Comes CalmSoFar StopFine (take_event o t)
unfolding take_event
take_event-CalmSoFar none t p = p
take_event-CalmSoFar (some ev) t p =
    if_elim (Comes CalmSoFar StopFine) (type_of ev === "state") _ _ (take_state-CalmSoFar ev t p)
      (elim (Bool-cases (ends_run ev)) [
        | inl e ↦ rw e (say_over ev t p)
        | inr e ↦ rw e (say_more ev t p e)
      ])

-- What `consume` comes to.
ConsumedFine : Consumed → Type 0
ConsumedFine (Consumed.ended calls t) = Fine calls t
ConsumedFine (Consumed.threw calls) = Calm (events_of calls)

-- If the loop goes on, the run is not over.
TurnFine : Turn → Type 0
TurnFine turn =
    Orderly (events_of turn.said)
    × ((turn.goes_on && not turn.terminal) ≡ true → Calm (events_of turn.said))

returns-TurnFine : (calls : List Call) (t u : Bool) → Fine calls t → TurnFine (returns calls u)
unfolding TurnFine Fine
returns-TurnFine calls t u (o, f) = (o, λ h. absurd (cc h))

goes-TurnFine : (calls : List Call) (t : Bool) → Fine calls t → TurnFine (goes calls t)
unfolding TurnFine Fine
goes-TurnFine calls true (o, f) = (o, λ h. absurd (cc h))
goes-TurnFine calls false (o, f) = (o, λ _. f refl)

module _ (parse : Text → Option Json) where
  consume_from-CalmSoFar :
      (buf : Text) (t : Consuming) (chunks : List (Text × Bool))
      → CalmSoFar t
      → Comes CalmSoFar StopFine (consume_from parse buf t chunks)
  unfolding consume_from StopFine handle_frame
  consume_from-CalmSoFar buf t [] p = p
  consume_from-CalmSoFar buf t ((c, is_closed) ∷ chunks) p =
      let found = drain frames (buf ++ c) in
      Comes-onwards CalmSoFar CalmSoFar StopFine _ (handle_all (handle_frame parse) found.0 t)
        (λ u q.
          if_elim (Comes CalmSoFar StopFine) is_closed _ _ q
            (consume_from-CalmSoFar found.1 u chunks q))
        (handle_all-Comes (handle_frame parse) frames CalmSoFar StopFine
          (λ frame u q. take_event-CalmSoFar (parse_frame parse frame) u q) found.0 t p)

  consumed_of-ConsumedFine :
      (v : Verdict Consuming Stop) (cut : Bool)
      → Comes CalmSoFar StopFine v
      → ConsumedFine (consumed_of parse v cut)
  unfolding consumed_of StopFine CalmSoFar Fine ConsumedFine
  consumed_of-ConsumedFine (Verdict.left (Stop.terminal t)) cut p = (p, λ h. absurd (cc h))
  consumed_of-ConsumedFine (Verdict.left (Stop.closed_now t)) cut p = Calm-Fine t.said false p
  consumed_of-ConsumedFine (Verdict.going t) true p = p
  consumed_of-ConsumedFine (Verdict.going t) false p = Calm-Fine t.said false p

  consume-ConsumedFine : (events : Events) → ConsumedFine (consume parse events)
  unfolding consume ConsumedFine Calm events_of CalmSoFar
  consume-ConsumedFine Events.unreached = tt
  consume-ConsumedFine (Events.refused status) =
      if_elim (λ calls. Calm (events_of calls)) (status == 404) _ _ tt tt
  consume-ConsumedFine (Events.opened chunks cut) =
      consumed_of-ConsumedFine _ cut (consume_from-CalmSoFar [] fresh chunks tt)

  behind_consume-TurnFine :
      (consumed : Consumed) (r : Round)
      → ConsumedFine consumed
      → TurnFine (behind_consume parse consumed r)
  unfolding behind_consume behind_cut behind_end ConsumedFine events_of
  behind_consume-TurnFine (Consumed.threw calls) r p =
      let resynced =
        Fine-behind calls (Call.dropped Reason.resync) false refl (Calm-Fine calls false p) in
      if_elim TurnFine r.closed_at_cut _ _
        (returns-TurnFine calls false false (Calm-Fine calls false p))
        (if_elim TurnFine r.closed_behind_pause _ _ (returns-TurnFine _ false false resynced)
          (goes-TurnFine _ false resynced))
  behind_consume-TurnFine (Consumed.ended calls t) r p = ended r.last
    where
      ended : (last : Option Json) → TurnFine (behind_end parse calls t last)
      ended none = returns-TurnFine _ t t (Fine-behind calls (Call.dropped Reason.closed) t refl p)
      ended (some cur) =
          if_elim TurnFine (is_terminal_status (status_of cur)) _ _
            (returns-TurnFine _ t true (Fine-behind calls (Call.snapshot (some cur)) t refl p))
            (goes-TurnFine _ t (Fine-behind calls (Call.dropped Reason.resync) t refl p))

  before-TurnFine :
      (snap : Option Json) (turn : Turn)
      → TurnFine turn
      → TurnFine (before parse (Call.snapshot snap) turn)
  unfolding TurnFine events_of
  before-TurnFine snap turn p = p

  quiet : (calls : List Call) (t : Bool) → events_of calls ≡ [] → TurnFine (returns calls t)
  unfolding Calm
  quiet calls t e = returns-TurnFine calls false t (Calm-Fine calls false (subst Calm (sym e) tt))

  answered-TurnFine : (first : Option Json) (r : Round) → TurnFine (answered parse first r)
  unfolding answered with_snapshot events_of
  answered-TurnFine none r = quiet (Call.dropped Reason.closed ∷ []) false refl
  answered-TurnFine (some snap) r =
      let behind = behind_consume parse (consume parse r.events) r in
      let over = is_terminal_status (status_of snap) in
      if_elim TurnFine r.closed_behind_first _ _ (quiet [] false refl) (
        before-TurnFine (some snap) (if over then returns [] true else behind) (
          if_elim TurnFine over (returns [] true) behind (quiet [] true refl)
            (behind_consume-TurnFine (consume parse r.events) r (consume-ConsumedFine r.events))))

  turn_of-TurnFine : (r : Round) → TurnFine (turn_of parse r)
  unfolding turn_of events_of
  turn_of-TurnFine r =
      if_elim TurnFine r.closed_at_start _ _ (quiet [] false refl) (answered-TurnFine r.first r)

  -- Over all attachments, whatever the server answers and whenever the stream is cut or closed, no
  -- event of a run is handed on behind a `done` or `error` event.
  pub loop-Orderly : (rounds : List Round) → Orderly (events_of (loop parse rounds))
  unfolding loop Orderly events_of TurnFine
  loop-Orderly [] = tt
  loop-Orderly (r ∷ rounds) =
      let turn = turn_of parse r in
      let fine = turn_of-TurnFine r in
      elim (Bool-cases (turn.goes_on && not turn.terminal)) [
        | inl e ↦ rw e (
            subst Orderly (sym (events_of-append turn.said (loop parse rounds))) (
              Orderly-append (events_of turn.said) (events_of (loop parse rounds)) (fine.1 e)
                (loop-Orderly rounds)))
        | inr e ↦ rw e fine.0
      ]
