-- ===== src/Agent/Loop/Transcript.antt =====
-- `runToolLoop`: the transcript, the log of what was appended, and the number of turns.
use ninfer_studio.Base.{
  ℕ, zero, suc, ◌+◌, ◌<◌, Text, is_blank, trim, subst, List, [], ◌∷◌, ◌++◌, append_assoc,
  append-nil, Option, none, some, Bool, true, false, not, ◌&&◌, ◌≡◌, refl, sym, ap, ◌∙◌, arith,
  Bool-cases, Option-cases, inl, inr,
}
use ninfer_studio.Message.{Message}
use ninfer_studio.Agent.Turn.{
  StreamEvent, TurnResult, context_note_message, stream_turn, stream_error,
}
use ninfer_studio.Agent.Dispatch.{execute_tool_calls}
use ninfer_studio.Agent.Loop.{
  Stop, done, steps, aborted, empty, halted, Hook, Options, Loop, Round, ended, threw, again,
  dropped_note, assistant_message, with_hook, injected, halts, proceeds, append, append_some,
  with_note, dispatch, hooked, streamed, round, run_from, at_start, run_tool_loop,
}

-- All that `onAppended` was called with.
abbrev pub logged : List (List Message × ℕ) → List Message
logged [] = []
logged ((more, turn) ∷ log) = more ++ logged log

logged-append :
    (log : List (List Message × ℕ)) (more : List Message) (turn : ℕ)
    → logged (log ++ ((more, turn) ∷ [])) ≡ logged log ++ more
logged-append [] more turn = append-nil more
logged-append ((first, n) ∷ log) more turn = rw (logged-append log more turn, append_assoc) refl

abbrev pub is_steps : Stop → Bool
is_steps steps = true
is_steps _ = false

module _ {W Args : Type 0} (o : Options W Args) (initial : List Message) where
  -- The transcript is the one that the loop was given, and what was logged.
  abbrev pub IsLogged : Loop W → Type 0
  IsLogged s = s.messages ≡ initial ++ logged s.log

  -- The loop `s`, later in a turn that started with the count `n`.
  abbrev In : ℕ → Loop W → Type 0
  In n s = IsLogged s × (s.turns ≡ n)

  -- What a round that starts with the count `n` comes to.
  abbrev IsRound : ℕ → Round W → Type 0
  IsRound n (ended stop s) = In n s × (is_steps stop ≡ false)
  IsRound n (threw m s) = In n s
  IsRound n (again s) = In (n + 1) s

  append-In : (n : ℕ) (s : Loop W) (more : List Message) → In n s → In n (append o s more)
  append-In n s more (h, t) = (
    ap (λ (m : List Message). m ++ more) h
        ∙ rw (logged-append s.log more s.turns, append_assoc) refl,
    t,
  )

  append_some-In : (n : ℕ) (s : Loop W) (more : List Message) → In n s → In n (append_some o s more)
  append_some-In n s [] h = h
  append_some-In n s (m ∷ more) h = append-In n s (m ∷ more) h

  with_note-In : (n : ℕ) (s : Loop W) → In n s → In n (with_note o s)
  unfolding with_note
  with_note-In n s h = elim (Bool-cases o.append_date_time) [
    | inr e ↦ rw e h
    | inl e ↦ elim (Option-cases (context_note_message [] (o.clock s.world))) [
      | inl nothing ↦ rw (e, nothing) h
      | inr (note, some_note) ↦ rw (e, some_note) (append-In n s (note ∷ []) h)
    ]
  ]

  dispatch-In : (n : ℕ) (t : TurnResult) (s : Loop W) → In n s → In (n + 1) (dispatch o t s)
  unfolding dispatch
  dispatch-In n t s h =
      let results = execute_tool_calls o.parse_args o.no_args o.registry t.tool_calls s.world in
      let later = append-In n s results.0 h in (later.0, omega (arith, later.1))

  hooked-IsRound :
      (n : ℕ) (t : TurnResult) (hook : Option Hook) (s : Loop W)
      → In n s
      → IsRound n (hooked o t hook s)
  unfolding hooked
  hooked-IsRound n t hook s h = elim (Bool-cases (halts hook)) [
    | inl stop ↦ rw stop (later, refl)
    | inr on ↦
        elim (Bool-cases (
          not (proceeds hook t)
          && not (o.is_aborted s'.world)
          && is_blank t.tool_calls
          && not (is_blank t.dropped))) [
            | inl nudge ↦
                let noted = append-In n s' (dropped_note o.tools t.dropped ∷ []) later in
                rw (on, nudge) (noted.0, omega (arith, noted.1))
            | inr plain ↦ elim (Bool-cases (not (proceeds hook t))) [
              | inl finished ↦ rw (on, plain, finished) (later, refl)
              | inr more ↦ rw (on, plain, more) (dispatch-In n t s' later)
            ]
          ]
  ]
    where
      s' : Loop W
      s' = append_some o (append o s (with_hook hook (assistant_message t) ∷ [])) (injected hook)

      later : In n s'
      later =
          append_some-In n _ (injected hook)
            (append-In n s (with_hook hook (assistant_message t) ∷ []) h)

  streamed-IsRound :
      (n : ℕ) (t : TurnResult) (error : Option Text) (s : Loop W)
      → In n s
      → IsRound n (streamed o t error s)
  unfolding streamed
  streamed-IsRound n t error s h =
      elim (Bool-cases (elim error [ none ↦ false | some _ ↦ not (o.is_aborted s.world) ])) [
        | inl failed ↦ rw failed h
        | inr fine ↦ elim (Bool-cases (is_blank (trim t.content) && is_blank t.tool_calls)) [
          | inl nothing ↦ rw (fine, nothing) (h, refl)
          | inr something ↦
              rw (fine, something)
                (hooked-IsRound n t answer.0
                  (record s { finish_reason = t.finish_reason; meta = t.meta; world = answer.1 }) h)
        ]
      ]
    where
      answer : Option Hook × W
      answer = o.on_assistant_turn (assistant_message t) t s.turns s.world

  round-IsRound : (n : ℕ) (s : Loop W) → In n s → IsRound n (round o s)
  unfolding round
  round-IsRound n s h = elim (Bool-cases (o.is_aborted s.world)) [
    | inl stop ↦ rw stop (h, refl)
    | inr on ↦ rw on (
        streamed-IsRound n (stream_turn o.parse_markup o.recover_markup o.tools streaming.0)
          (stream_error none streaming.0) (record s' { world = streaming.1 }) (with_note-In n s h))
  ]
    where
      s' : Loop W
      s' = with_note o s

      streaming : List StreamEvent × W
      streaming = o.stream s'.messages s'.world

  -- The loop returns or throws, with the transcript that it was given, followed by what
  -- `onAppended` was called with. It has made at most `last` turns, and that many just if it
  -- stopped for them.
  abbrev pub IsEnd : ℕ → Round W → Type 0
  IsEnd last (ended steps s) = IsLogged s × (s.turns ≡ last)
  IsEnd last (ended stop s) = IsLogged s × (s.turns < last)
  IsEnd last (threw m s) = IsLogged s × (s.turns < last)
  IsEnd last (again s) = ⊥

  ended-IsEnd :
      (last : ℕ) (stop : Stop) (s : Loop W)
      → is_steps stop ≡ false
      → IsLogged s
      → s.turns < last
      → IsEnd last (ended stop s)
  ended-IsEnd last steps s early h t = cc
  ended-IsEnd last done s early h t = (h, t)
  ended-IsEnd last aborted s early h t = (h, t)
  ended-IsEnd last empty s early h t = (h, t)
  ended-IsEnd last halted s early h t = (h, t)

  next-IsEnd :
      (n rest : ℕ)
      → ((s : Loop W) → In (n + 1) s → IsEnd (n + 1 + rest) (run_from o rest s))
      → (r : Round W) → IsRound n r
      → IsEnd (n + suc rest) (elim r [
        | ended stop s' ↦ ended stop s'
        | threw m s' ↦ threw m s'
        | again s' ↦ run_from o rest s'
      ])
  next-IsEnd n rest more (ended stop s) (i, e) =
      ended-IsEnd (n + suc rest) stop s e i.0 (omega (arith, i.1))
  next-IsEnd n rest more (threw m s) i = (i.0, omega (arith, i.1))
  next-IsEnd n rest more (again s) i =
      let same : n + 1 + rest ≡ n + suc rest = omega arith in
      subst (λ k. IsEnd k (run_from o rest s)) same (more s i)

  run_from-IsEnd : (rest n : ℕ) (s : Loop W) → In n s → IsEnd (n + rest) (run_from o rest s)
  unfolding run_from
  run_from-IsEnd zero n s h = (h.0, omega (arith, h.1))
  run_from-IsEnd (suc rest) n s h =
      next-IsEnd n rest (run_from-IsEnd rest (n + 1)) (round o s) (round-IsRound n s h)

-- `runToolLoop` ends, whatever the engine, the tools and the hook do: it returns or throws. The
-- transcript is then the one that it was given, followed by all that `onAppended` was called with,
-- in order. It stops for the step limit with exactly that many turns, and otherwise with fewer.
pub run_tool_loop-IsEnd :
    {W Args : Type 0} (o : Options W Args) (initial : List Message) (w : W)
    → IsEnd o initial o.max_steps (run_tool_loop o initial w)
unfolding run_tool_loop
run_tool_loop-IsEnd o initial w =
    let same : 0 + o.max_steps ≡ o.max_steps = omega arith in
    subst (λ k. IsEnd o initial k (run_tool_loop o initial w)) same
      (run_from-IsEnd o initial o.max_steps 0 (at_start o initial w)
        (sym (append-nil initial), refl))
