-- ===== src/Chat/Sanitize/Kept.antt =====
-- `sanitizeMessagesForApi`: what it keeps, and the tool messages that it does not check.
use ninfer_studio.Base.{
  ℕ, zero, suc, List, [], ◌∷◌, ◌++◌, map, append_assoc, append-nil, filter, filter-append, drop,
  length, Bool, true, false, not, ◌&&◌, ◌≡◌, refl, sym, ◌∙◌, arith, Bool-cases, inl, inr, ===_refl,
  is_blank, ap,
}
use ninfer_studio.Message.{ToolCall, Message, is_assistant, is_tool}
use ninfer_studio.Chat.Sanitize.{
  id_is, calls_id, find_call, leading_tools, missing, omitted, tool_entry, historical, entries,
  sanitize_from, sanitize_messages_for_api,
}

-- A message that is neither a tool result nor the note that stands for one.
abbrev pub is_spoken : Message → Bool
is_spoken m = not (is_tool m.role) && not (id_is m.display_name "Historical Tool Result")

filter-omitted : (calls : List ToolCall) → filter is_spoken (map omitted calls) ≡ []
unfolding omitted
filter-omitted [] = refl
filter-omitted (tc ∷ calls) = filter-omitted calls

filter-leading_tools : (rest : List Message) → filter is_spoken (leading_tools rest) ≡ []
unfolding leading_tools
filter-leading_tools [] = refl
filter-leading_tools (m ∷ rest) = ground (arith, filter-leading_tools rest)

filter-drop-leading_tools :
    (rest : List Message)
    → filter is_spoken (drop (length (leading_tools rest)) rest) ≡ filter is_spoken rest
unfolding leading_tools
filter-drop-leading_tools [] = refl
filter-drop-leading_tools (m ∷ rest) = elim (Bool-cases (is_tool m.role)) [
  | inl t ↦ rw (t, filter-drop-leading_tools rest) (ground arith)
  | inr f ↦ rw f (ground arith)
]

is_spoken-tool_entry :
    (out : List Message) (m : Message)
    → is_tool m.role ≡ true
    → is_spoken (tool_entry out m) ≡ false
unfolding tool_entry historical
is_spoken-tool_entry out m h = ground (arith, ===_refl "Historical Tool Result")

filter-cons-append :
    (p : Message → Bool) (m : Message) (xs ys zs : List Message)
    → filter p xs ++ filter p ys ≡ filter p zs
    → filter p (m ∷ xs) ++ filter p ys ≡ filter p (m ∷ zs)
filter-cons-append p m xs ys zs h = elim (Bool-cases (p m)) [
  | inl t ↦ rw (t, h)
  | inr f ↦ rw (f, h)
]

filter-run :
    (rest : List Message) (calls : List ToolCall)
    → filter is_spoken (leading_tools rest ++ map omitted calls)
        ++ filter is_spoken (drop (length (leading_tools rest)) rest)
      ≡ filter is_spoken rest
filter-run rest calls =
    rw (filter-append, filter-leading_tools, filter-omitted) (filter-drop-leading_tools rest)

entries-call :
    (out : List Message) (m : Message) (rest : List Message)
    → is_tool m.role ≡ false
    → (is_assistant m.role && not (is_blank m.tool_calls)) ≡ true
    → entries out m rest ≡ (
      m ∷ (leading_tools rest ++ map omitted (missing (leading_tools rest) m.tool_calls)),
      length (leading_tools rest),
    )
unfolding entries
entries-call out m rest n c = rw (n, c) refl

filter-entries :
    (out : List Message) (m : Message) (rest : List Message)
    → filter is_spoken (entries out m rest).0 ++ filter is_spoken (drop (entries out m rest).1 rest)
      ≡ filter is_spoken (m ∷ rest)
unfolding entries
filter-entries out m rest = elim (Bool-cases (is_tool m.role)) [
  | inl t ↦ rw (t, is_spoken-tool_entry out m t) refl
  | inr n ↦ elim (Bool-cases (is_assistant m.role && not (is_blank m.tool_calls))) [
    | inl c ↦
        let run = leading_tools rest in
        let made = missing run m.tool_calls in
        rw (entries-call out m rest n c) (
          filter-cons-append is_spoken m (run ++ map omitted made) (drop (length run) rest) rest
            (filter-run rest made))
    | inr e ↦
        let single : entries out m rest ≡ (m ∷ [], 0) = rw (n, e) refl in
        rw single (filter-cons-append is_spoken m [] rest rest refl)
  ]
]

filter-sanitize_from :
    (history : List Message) (out : List Message) (skip : ℕ)
    → filter is_spoken (sanitize_from out skip history)
      ≡ filter is_spoken out ++ filter is_spoken (drop skip history)
unfolding sanitize_from
filter-sanitize_from [] out zero = sym (append-nil _)
filter-sanitize_from [] out (suc n) = sym (append-nil _)
filter-sanitize_from (m ∷ rest) out (suc n) = filter-sanitize_from rest out n
filter-sanitize_from (m ∷ rest) out zero =
    let e = entries out m rest in
    filter-sanitize_from rest (out ++ e.0) e.1
    ∙ rw (filter-append, append_assoc) (ap (filter is_spoken out ++◌) (filter-entries out m rest))

-- Every message of the history that is neither a tool result nor a note for one is sent, unchanged
-- and in the same order, and no other such message is added.
pub filter-sanitize_messages_for_api :
    (history : List Message)
    → filter is_spoken (sanitize_messages_for_api history) ≡ filter is_spoken history
unfolding sanitize_messages_for_api
filter-sanitize_messages_for_api history = filter-sanitize_from history [] 0

-- Each tool message has a call with its id before it, with no user or system message between.
-- `before` is what stands in front, the nearest message first.
abbrev pub PairedFrom : List Message → List Message → Type 0
PairedFrom before [] = Unit
PairedFrom before (m ∷ rest) =
    (is_tool m.role ≡ true → find_call m.tool_call_id before ≡ true) × PairedFrom (m ∷ before) rest

leading_tools-single : (t : Message) → is_tool t.role ≡ true → leading_tools (t ∷ []) ≡ t ∷ []
unfolding leading_tools
leading_tools-single t c = rw c refl

sanitize_messages_for_api-pair :
    (m t : Message)
    → is_assistant m.role ≡ true
    → is_blank m.tool_calls ≡ false
    → is_tool t.role ≡ true
    → sanitize_messages_for_api (m ∷ t ∷ []) ≡ m ∷ t ∷ map omitted (missing (t ∷ []) m.tool_calls)
unfolding sanitize_messages_for_api sanitize_from
sanitize_messages_for_api-pair m t a b c =
    ap (λ (e : List Message × ℕ). sanitize_from e.0 e.1 (t ∷ []))
      (entries-call [] m (t ∷ []) (ground arith) (rw (a, b) refl))
    ∙ rw (leading_tools-single t c) refl

-- Where a history is an assistant message with calls and a tool message with an id that none of them
-- has, the sequence that is sent has a tool message without a call with its id before it.
pub sanitize_messages_for_api-not_paired :
    (m t : Message)
    → is_assistant m.role ≡ true
    → is_blank m.tool_calls ≡ false
    → is_tool t.role ≡ true
    → calls_id m t.tool_call_id ≡ false
    → ¬ PairedFrom [] (sanitize_messages_for_api (m ∷ t ∷ []))
unfolding find_call
sanitize_messages_for_api-not_paired m t a b c d paired =
    let found = (rw (sanitize_messages_for_api-pair m t a b c) at paired).1.0 c in ground arith
