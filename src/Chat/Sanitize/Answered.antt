-- ===== src/Chat/Sanitize/Answered.antt =====
-- `sanitizeMessagesForApi`: the calls of the sanitised sequence and their results.
use ninfer_studio.Base.{
  ℕ, zero, suc, String, List, [], ◌∷◌, ◌++◌, map, any, All, All-imp, Bool, true, false, not, ◌&&◌,
  ◌||◌, ◌≡◌, refl, arith, Bool-cases, inl, inr, ===_refl, is_blank, ◌∙◌,
}
use ninfer_studio.Message.{ToolCall, Message, is_assistant, is_tool}
use ninfer_studio.Chat.Sanitize.{
  id_is, leading_tools, missing, omitted, tool_entry, historical, entries, sanitize_from,
  sanitize_messages_for_api,
}

abbrev pub answers : String → Message → Bool
answers id t = id_is t.tool_call_id id

-- Some message of the run of tool messages that stands next is the result of call `tc`.
abbrev pub IsAnswered : List Message → ToolCall → Type 0
IsAnswered rest tc = any (answers tc.id) (leading_tools rest) ≡ true

-- Every call of every assistant message is answered by a tool message of the run behind it.
abbrev pub Answered : List Message → Type 0
Answered [] = Unit
Answered (m ∷ rest) =
    (is_assistant m.role ≡ true → All (IsAnswered rest) m.tool_calls) × Answered rest

any-leading_tools-append :
    (p : Message → Bool) (xs ys : List Message)
    → any p (leading_tools xs) ≡ true
    → any p (leading_tools (xs ++ ys)) ≡ true
unfolding leading_tools
any-leading_tools-append p [] ys h = cc
any-leading_tools-append p (m ∷ xs) ys h = ground (arith, any-leading_tools-append p xs ys)

pub Answered-append : (xs ys : List Message) → Answered xs → Answered ys → Answered (xs ++ ys)
Answered-append [] ys h k = k
Answered-append (m ∷ xs) ys (p, h) k = (
  λ a.
      All-imp (IsAnswered xs) (IsAnswered (xs ++ ys)) m.tool_calls
        (λ tc. any-leading_tools-append (answers tc.id) xs ys) (p a),
  Answered-append xs ys h k,
)

-- Tool messages alone hold no call that wants an answer.
Answered-omitted : (calls : List ToolCall) → Answered (map omitted calls)
unfolding omitted
Answered-omitted [] = tt
Answered-omitted (tc ∷ calls) = (λ a. cc, Answered-omitted calls)

Answered-leading_tools : (rest : List Message) → Answered (leading_tools rest)
unfolding leading_tools
Answered-leading_tools [] = tt
Answered-leading_tools (m ∷ rest) = elim (Bool-cases (is_tool m.role)) [
  | inl t ↦ rw t (λ a. ground arith, Answered-leading_tools rest)
  | inr f ↦ rw f tt
]

leading_tools-omitted :
    (p : Message → Bool) (calls : List ToolCall)
    → any p (leading_tools (map omitted calls)) ≡ any p (map omitted calls)
unfolding leading_tools omitted
leading_tools-omitted p [] = refl
leading_tools-omitted p (tc ∷ calls) = rw (leading_tools-omitted p calls)

any-leading_tools-run :
    (p : Message → Bool) (rest : List Message) (calls : List ToolCall)
    → any p (leading_tools (leading_tools rest ++ map omitted calls))
      ≡ (any p (leading_tools rest) || any p (map omitted calls))
unfolding leading_tools
any-leading_tools-run p [] calls = leading_tools-omitted p calls
any-leading_tools-run p (m ∷ rest) calls =
    ground (arith, any-leading_tools-run p rest calls, leading_tools-omitted p calls)

-- A call is found in the run, or an error result is made for it.
abbrev Covered : List Message → List ToolCall → ToolCall → Type 0
Covered run calls tc =
    (any (answers tc.id) run || any (answers tc.id) (map omitted (missing run calls))) ≡ true

Covered-cons :
    (run : List Message) (tc : ToolCall) (calls : List ToolCall) → Covered run (tc ∷ calls) tc
unfolding omitted
Covered-cons run tc calls = ground (arith, ===_refl tc.id)

Covered-weaken :
    (run : List Message) (c : ToolCall) (calls : List ToolCall) (tc : ToolCall)
    → Covered run calls tc
    → Covered run (c ∷ calls) tc
Covered-weaken run c calls tc h = ground arith

All-Covered : (run : List Message) (calls : List ToolCall) → All (Covered run calls) calls
All-Covered run [] = tt
All-Covered run (c ∷ calls) = (
  Covered-cons run c calls,
  All-imp (Covered run calls) (Covered run (c ∷ calls)) calls (Covered-weaken run c calls)
      (All-Covered run calls),
)

tool_entry-role :
    (out : List Message) (m : Message)
    → is_tool m.role ≡ true
    → is_assistant (tool_entry out m).role ≡ false
unfolding tool_entry historical
tool_entry-role out m h = ground arith

pub All-blank :
    (P : ToolCall → Type 0) (calls : List ToolCall) → is_blank calls ≡ true → All P calls
All-blank P [] h = tt
All-blank P (c ∷ calls) h = cc

Answered-call :
    (m : Message) (rest : List Message)
    → Answered (m ∷ (leading_tools rest ++ map omitted (missing (leading_tools rest) m.tool_calls)))
Answered-call m rest = (
  λ a.
      All-imp (Covered run m.tool_calls) (IsAnswered (run ++ made)) m.tool_calls
        (λ tc h. any-leading_tools-run (answers tc.id) rest (missing run m.tool_calls) ∙ h)
        (All-Covered run m.tool_calls),
  Answered-append run made (Answered-leading_tools rest)
      (Answered-omitted (missing run m.tool_calls)),
)
  where
    run : List Message
    run = leading_tools rest

    made : List Message
    made = map omitted (missing run m.tool_calls)

Answered-single :
    (m : Message) → (is_assistant m.role && not (is_blank m.tool_calls)) ≡ false → Answered (m ∷ [])
Answered-single m h = (λ a. All-blank (IsAnswered []) m.tool_calls (ground arith), tt)

Answered-entries :
    (out : List Message) (m : Message) (rest : List Message) → Answered (entries out m rest).0
unfolding entries
Answered-entries out m rest = elim (Bool-cases (is_tool m.role)) [
  | inl t ↦ rw t (λ a. cc (tool_entry-role out m t), tt)
  | inr n ↦ elim (Bool-cases (is_assistant m.role && not (is_blank m.tool_calls))) [
    | inl c ↦ rw (n, c) (Answered-call m rest)
    | inr e ↦ rw (n, e) (Answered-single m e)
  ]
]

sanitize_from-Answered :
    (history : List Message) (out : List Message) (skip : ℕ)
    → Answered out
    → Answered (sanitize_from out skip history)
unfolding sanitize_from
sanitize_from-Answered [] out skip h = h
sanitize_from-Answered (m ∷ rest) out (suc n) h = sanitize_from-Answered rest out n h
sanitize_from-Answered (m ∷ rest) out zero h =
    let e = entries out m rest in
    sanitize_from-Answered rest (out ++ e.0) e.1
      (Answered-append out e.0 h (Answered-entries out m rest))

-- In the sanitised sequence every call of an assistant message is answered by a tool message with
-- its id, in the run of tool messages directly behind that message.
pub sanitize_messages_for_api-Answered :
    (history : List Message) → Answered (sanitize_messages_for_api history)
unfolding sanitize_messages_for_api
sanitize_messages_for_api-Answered history = sanitize_from-Answered history [] 0 tt
