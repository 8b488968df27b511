-- ===== src/Chat/History.antt =====
-- apps/web/src/lib/chatHelpers.ts, `modelHistory`, `withMessages` and `dedupeTools`, and
-- api/chat.ts, `frameCompactedSummary`.
use ninfer_studio.Base.{
  ℕ, zero, suc, Text, units, trim, is_blank, leb, if◌then◌else◌, length, drop, List, [], ◌∷◌, ◌++◌,
  filter, Option, none, or_else, Bool, false, not, ◌&&◌, ◌||◌, ◌≡◌, refl, arith, Bool-cases, inl,
  inr,
}
use ninfer_studio.Message.{Message, is_assistant, labelled}

-- `Conversation`, with the fields that the model context is built from.
pub record Conversation : Type 0 where
  pub messages : List Message
  pub compacted_summary : Option Text
  pub compacted_count : Option ℕ

-- Is the summary there, and not empty?
abbrev pub is_compacted : Conversation → Bool
is_compacted c = not (is_blank (or_else c.compacted_summary []))

-- `frameCompactedSummary`
pub frame_compacted_summary : Text → Text
unfolding trim
frame_compacted_summary summary =
    units
      "This is an automatically generated checkpoint condensing an earlier span of the conversation to free up context. Treat the captured context as established background and build on it without restating it. Continue the task directly from the messages that follow, without acknowledging this checkpoint."
    ++ units "\n\n<compacted-summary>\n"
    ++ trim summary
    ++ units "\n</compacted-summary>"

unfoldable pub tail_of : Conversation → List Message
tail_of c = if is_compacted c then drop (or_else c.compacted_count 0) c.messages else c.messages

-- A finished turn, or one with content.
abbrev pub is_sent : Message → Bool
is_sent m =
    not (is_assistant m.role)
    || not (is_blank (units (or_else m.finish_reason "")))
    || not (is_blank m.content)

abbrev pub summary_message : Conversation → Message
summary_message c =
    labelled "Compaction Summary" (frame_compacted_summary (or_else c.compacted_summary []))

-- `modelHistory`
unfoldable pub model_history : Conversation → List Message
unfolding tail_of
model_history c =
    let filtered = filter is_sent (tail_of c) in
    if is_compacted c then summary_message c ∷ filtered else filtered

-- `withMessages`
unfoldable pub with_messages : Conversation → List Message → Conversation
with_messages c messages =
    if is_compacted c && leb (length messages) (or_else c.compacted_count 0)
    then record c { messages = messages; compacted_summary = none; compacted_count = none }
    else record c { messages = messages }

drop-filled : (n : ℕ) (ms : List Message) → leb (length ms) n ≡ false → is_blank (drop n ms) ≡ false
drop-filled zero [] h = cc
drop-filled zero (m ∷ ms) h = refl
drop-filled (suc n) [] h = ground arith
drop-filled (suc n) (m ∷ ms) h = drop-filled n ms (ground arith)

-- After `withMessages` with some messages, the part of the conversation that is sent behind the
-- summary is not empty, however short the messages became.
pub with_messages-tail :
    (c : Conversation) (messages : List Message)
    → is_blank messages ≡ false
    → is_blank (tail_of (with_messages c messages)) ≡ false
unfolding with_messages tail_of
with_messages-tail c messages h = elim (Bool-cases (is_compacted c)) [
  | inr plain ↦ rw (plain, plain) h
  | inl compacted ↦ elim (Bool-cases (leb (length messages) (or_else c.compacted_count 0))) [
    | inl short ↦ rw (compacted, short) h
    | inr long ↦
        rw (compacted, long, compacted) (drop-filled (or_else c.compacted_count 0) messages long)
  ]
]
