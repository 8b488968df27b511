-- ===== src/Agent/Loop/Answered.antt =====
-- `runToolLoop`: the tool calls of the transcript and their results.
use ninfer_studio.Base.{
  ℕ, zero, suc, Text, is_blank, trim, String, List, [], ◌∷◌, append_assoc, any, All, All-imp,
  Option, none, some, true, false, not, ◌&&◌, ◌||◌, ◌≡◌, refl, sym, ap, ◌∙◌, subst, arith,
  Bool-cases, Option-cases, inl, inr, ===_refl,
}
use ninfer_studio.Message.{ToolCall, Message}
use ninfer_studio.Chat.Sanitize.{leading_tools}
use ninfer_studio.Chat.Sanitize.Answered.{answers, IsAnswered, Answered, Answered-append, All-blank}
use ninfer_studio.Agent.Turn.{
  StreamEvent, TurnResult, join_blocks, context_note_message, stream_turn, stream_error,
}
use ninfer_studio.Agent.Dispatch.{Parsed, Handler, tool_message, call_result, execute_tool_calls}
use ninfer_studio.Agent.Loop.{
  Options, Loop, Round, ended, threw, again, dropped_note, assistant_message, with_note, dispatch,
  hooked, streamed, round, run_from, at_start, run_tool_loop,
}

module _ {W Args : Type 0} (parse : Text → Parsed Args) (empty_args : Args)
    (registry : String → Option (Handler W Args)) where
  abbrev results : List ToolCall → W → List Message
  results calls w = (execute_tool_calls parse empty_args registry calls w).0

  leading_tools-results :
      (calls : List ToolCall) (w : W) → leading_tools (results calls w) ≡ results calls w
  unfolding execute_tool_calls leading_tools
  leading_tools-results [] w = refl
  leading_tools-results (c ∷ calls) w =
      ap
        (λ (rest : List Message).
          tool_message parse empty_args registry c (call_result parse empty_args registry c w).0
          ∷ rest)
        (leading_tools-results calls (call_result parse empty_args registry c w).1)

  any-results :
      (calls : List ToolCall) (w : W) → All (λ c. any (answers c.id) (results calls w) ≡ true) calls
  unfolding execute_tool_calls
  any-results [] w = tt
  any-results (c ∷ calls) w =
      let w' = (call_result parse empty_args registry c w).1 in
      (
        rw (===_refl c.id) refl,
        All-imp (λ d. any (answers d.id) (results calls w') ≡ true)
            (λ d.
              (answers d.id (
                  tool_message parse empty_args registry c
                    (call_result parse empty_args registry c w).0)
                || any (answers d.id) (results calls w'))
              ≡ true)
            calls (λ d h. ground arith) (any-results calls w'),
      )

  Answered-results : (calls : List ToolCall) (w : W) → Answered (results calls w)
  unfolding execute_tool_calls
  Answered-results [] w = tt
  Answered-results (c ∷ calls) w =
      (λ a. cc, Answered-results calls (call_result parse empty_args registry c w).1)

  Answered-dispatched : (m : Message) (w : W) → Answered (m ∷ results m.tool_calls w)
  Answered-dispatched m w = (
    λ a.
        All-imp (λ c. any (answers c.id) (results m.tool_calls w) ≡ true)
          (IsAnswered (results m.tool_calls w)) m.tool_calls
          (λ c h. ap (any (answers c.id)) (leading_tools-results m.tool_calls w) ∙ h)
          (any-results m.tool_calls w),
    Answered-results m.tool_calls w,
  )

-- The transcript at the end of a round.
abbrev pub transcript : {W : Type 0} → Round W → List Message
transcript (ended stop s) = s.messages
transcript (threw m s) = s.messages
transcript (again s) = s.messages

Answered-message : (m : Message) → is_blank m.tool_calls ≡ true → Answered (m ∷ [])
Answered-message m h = (λ a. All-blank (IsAnswered []) m.tool_calls h, tt)

context_note_message-calls :
    (clock : Text) (note : Message)
    → context_note_message [] clock ≡ some note
    → is_blank note.tool_calls ≡ true
unfolding context_note_message
context_note_message-calls clock note h =
    elim (Bool-cases (is_blank (trim (join_blocks [] clock)))) [
      | inl e ↦ absurd (cc (rw e at h))
      | inr e ↦
          ap (λ (x : Option Message). elim x [ none ↦ true | some n ↦ is_blank n.tool_calls ])
            (sym (rw e at h))
    ]

module _ {W Args : Type 0} (o : Options W Args) where
  with_note-Answered : (s : Loop W) → Answered s.messages → Answered (with_note o s).messages
  unfolding with_note
  with_note-Answered s h = elim (Bool-cases o.append_date_time) [
    | inr e ↦ rw e h
    | inl e ↦ elim (Option-cases (context_note_message [] (o.clock s.world))) [
      | inl nothing ↦ rw (e, nothing) h
      | inr (note, made) ↦
          rw (e, made)
            (Answered-append s.messages (note ∷ []) h
              (Answered-message note (context_note_message-calls (o.clock s.world) note made)))
    ]
  ]

  hooked-Answered :
      (t : TurnResult) (s : Loop W)
      → Answered s.messages
      → Answered (transcript (hooked o t none s))
  unfolding hooked dispatch dropped_note
  hooked-Answered t s h =
      let m = assistant_message t in
      elim (Bool-cases (is_blank t.tool_calls)) [
        | inr calls ↦ rw calls (
            subst Answered
              (sym (
                append_assoc s.messages (m ∷ [])
                  (results o.parse_args o.no_args o.registry t.tool_calls s.world)))
              (Answered-append s.messages _ h
                (Answered-dispatched o.parse_args o.no_args o.registry m s.world)))
        | inl blank ↦
            let spoken = Answered-append s.messages (m ∷ []) h (Answered-message m blank) in
            elim (Bool-cases (not (o.is_aborted s.world) && true && not (is_blank t.dropped))) [
              | inl nudge ↦
                  rw (blank, nudge)
                    (Answered-append _ (dropped_note o.tools t.dropped ∷ []) spoken
                      (Answered-message (dropped_note o.tools t.dropped) refl))
              | inr plain ↦ rw (blank, plain) spoken
            ]
      ]

  module _
      (no_hook : (m : Message) (t : TurnResult) (n : ℕ) (w : W)
        → (o.on_assistant_turn m t n w).0 ≡ none) where
    streamed-Answered :
        (t : TurnResult) (error : Option Text) (s : Loop W)
        → Answered s.messages
        → Answered (transcript (streamed o t error s))
    unfolding streamed
    streamed-Answered t error s h =
        elim (Bool-cases (elim error [ none ↦ false | some _ ↦ not (o.is_aborted s.world) ])) [
          | inl failed ↦ rw failed h
          | inr fine ↦ elim (Bool-cases (is_blank (trim t.content) && is_blank t.tool_calls)) [
            | inl nothing ↦ rw (fine, nothing) h
            | inr something ↦
                let m = assistant_message t in
                rw (fine, something, no_hook m t s.turns s.world)
                  (hooked-Answered t
                    (record s {
                      finish_reason = t.finish_reason;
                      meta = t.meta;
                      world = (o.on_assistant_turn m t s.turns s.world).1;
                    })
                    h)
          ]
        ]

    round-Answered : (s : Loop W) → Answered s.messages → Answered (transcript (round o s))
    unfolding round
    round-Answered s h = elim (Bool-cases (o.is_aborted s.world)) [
      | inl stop ↦ rw stop h
      | inr on ↦ rw on (
          streamed-Answered (stream_turn o.parse_markup o.recover_markup o.tools streaming.0)
            (stream_error none streaming.0) (record s' { world = streaming.1 })
            (with_note-Answered s h))
    ]
      where
        s' : Loop W
        s' = with_note o s

        streaming : List StreamEvent × W
        streaming = o.stream s'.messages s'.world

    next-Answered :
        (rest : ℕ)
        → ((s : Loop W) → Answered s.messages → Answered (transcript (run_from o rest s)))
        → (r : Round W) → Answered (transcript r)
        → Answered (
            transcript (elim r [
              | ended stop s' ↦ ended stop s'
              | threw m s' ↦ threw m s'
              | again s' ↦ run_from o rest s'
            ]))
    next-Answered rest more (ended stop s) h = h
    next-Answered rest more (threw m s) h = h
    next-Answered rest more (again s) h = more s h

    run_from-Answered :
        (rest : ℕ) (s : Loop W) → Answered s.messages → Answered (transcript (run_from o rest s))
    unfolding run_from
    run_from-Answered zero s h = h
    run_from-Answered (suc rest) s h =
        next-Answered rest (run_from-Answered rest) (round o s) (round-Answered s h)

-- With a hook that asks for nothing, the transcript at the end of `runToolLoop` has the result of
-- every call right behind its assistant message, if the transcript that it was given has.
pub run_tool_loop-Answered :
    {W Args : Type 0} (o : Options W Args) (initial : List Message) (w : W)
    → ((m : Message) (t : TurnResult) (n : ℕ) (v : W) → (o.on_assistant_turn m t n v).0 ≡ none)
    → Answered initial
    → Answered (transcript (run_tool_loop o initial w))
unfolding run_tool_loop
run_tool_loop-Answered o initial w no_hook h =
    run_from-Answered o no_hook o.max_steps (at_start o initial w) h
