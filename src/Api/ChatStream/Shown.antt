-- ===== src/Api/ChatStream/Shown.antt =====
-- api/chat.ts: what `streamChat` makes its callers show.
use ninfer_studio.Base.{
  Bool-cases, append-nil, sym, subst, ap₂, ◌∙◌, inl, inr, if◌then◌else◌, Text, units, text_eq, All,
  All-append, is_blank, if_elim, List, [], ◌∷◌, ◌++◌, Option, none, some, Bool, true, false, ◌≡◌,
  refl, ap,
}
use ninfer_studio.Api.Values.{Json, field, if_truthy, is_null}
use ninfer_studio.Api.Splitter.{cut_line, lines}
use ninfer_studio.Api.ReadLoop.{
  Verdict, Comes, Comes-onwards, onwards, joined, read_loop, read_loop-joined, read_loop-Comes,
}
use ninfer_studio.Api.Transport.{Callback, Failure, Ending, Fetched, strip_cr, data_of, detail_of}
use ninfer_studio.Api.ChatStream.Calls.{calls_from, pieces}
use ninfer_studio.Api.ChatStream.Think.{flush_content}
use ninfer_studio.Api.ChatStream.Tags.{has_tag, has_tag-first}
use ninfer_studio.Api.ChatStream.Segments.{
  NoTag, open_shown, closed_shown, open_shown-append, closed_shown-append, open_shown-flush,
  closed_shown-flush,
}
use ninfer_studio.Api.ChatStream.Stream.{
  Chatting, Left, at_start, finish, cancelled, catch, first_of, after_choice, take_chunk,
  handle_parsed, handle_payload, handle_line, handle_tail, at_end, outcome, stream_once,
  stream_chat, falls_back, falling_back,
}
use ninfer_studio.Api.ChatStream.Tidy.{Tidy, take_choice-Tidy, usage_callback-Tidy, at_start-Tidy}

-- All the stretches of content that are shown, the last one included.
unfoldable pub shown_of : List Callback → List Text
unfolding open_shown closed_shown
shown_of cbs = closed_shown [] cbs ++ (open_shown [] cbs ∷ [])

abbrev Clean : List Callback → Type 0
Clean cbs = All NoTag (shown_of cbs)

-- Callbacks behind others that end with the stretch `o`.
Clean-append :
    (said cbs : List Callback)
    → All NoTag (closed_shown [] said)
    → closed_shown (open_shown [] said) cbs ≡ []
    → NoTag (open_shown (open_shown [] said) cbs)
    → Clean (said ++ cbs)
unfolding shown_of
Clean-append said cbs closed none_closed h =
    All-append NoTag (closed_shown [] (said ++ cbs)) _
      (subst (All NoTag)
        (sym (
          closed_shown-append [] said cbs
          ∙ ap (λ l. closed_shown [] said ++ l) none_closed
          ∙ append-nil (closed_shown [] said)))
        closed)
      (ap has_tag (open_shown-append [] said cbs) ∙ h, tt)

-- `onToolCalls` and `onDone`, which show nothing.
ending : Chatting → List Callback
ending t =
    let calls = calls_from 0 (pieces t.tool_acc) in
    (if is_blank calls then [] else Callback.tool_calls calls ∷ []) ++ (Callback.done t.meta ∷ [])

ending-quiet :
    (o : Text) (t : Chatting) → (closed_shown o (ending t) ≡ []) × (open_shown o (ending t) ≡ o)
unfolding ending open_shown closed_shown
ending-quiet o t = elim (Bool-cases (is_blank (calls_from 0 (pieces t.tool_acc)))) [
  | inl e ↦ rw e (refl, refl)
  | inr e ↦ rw e (refl, refl)
]

finish-Clean : (t : Chatting) → Tidy t → Clean (finish t)
unfolding finish Tidy ending
finish-Clean t (closed, guarded) =
    let o = open_shown [] t.said in
    let flushed = flush_content t.content_buf in
    let quiet = ending-quiet (open_shown o flushed) t in
    Clean-append t.said (flushed ++ ending t) closed
      (closed_shown-append o flushed (ending t)
        ∙ ap₂ (λ a b. a ++ b) (closed_shown-flush o t.content_buf) quiet.0)
      (ap has_tag
          (open_shown-append o flushed (ending t) ∙ quiet.1 ∙ open_shown-flush o t.content_buf)
        ∙ guarded.0)

cut-Clean :
    (t : Chatting) (message : Text) → Tidy t → Clean (t.said ++ (Callback.failed message ∷ []))
unfolding Tidy open_shown closed_shown
cut-Clean t message (closed, guarded) =
    Clean-append t.said (Callback.failed message ∷ []) closed refl
      (has_tag-first (open_shown [] t.said) t.content_buf guarded.0)

catch-Clean : (t : Chatting) (f : Failure) → Tidy t → Clean (catch t f)
unfolding catch Tidy
catch-Clean t Failure.aborted p = finish-Clean (cancelled t) p
catch-Clean t (Failure.broke message) p = cut-Clean t message p

TidyLeft : Left → Type 0
TidyLeft (Left.done_seen t) = Tidy t
TidyLeft (Left.thrown t f) = Tidy t

module _ (parse : Text → Option Json) (plus : Json → Json → Json) (null_field : Text) where
  after_choice-Tidy :
      (usage : Option Json) (r : Bool × Chatting)
      → Tidy r.1
      → Comes Tidy TidyLeft (after_choice parse plus null_field usage r)
  unfolding TidyLeft
  after_choice-Tidy usage (true, t) p = p
  after_choice-Tidy usage (false, t) p = usage_callback-Tidy usage t p

  take_chunk-Tidy :
      (chunk : Json) (t : Chatting)
      → Tidy t
      → Comes Tidy TidyLeft (take_chunk parse plus null_field chunk t)
  unfolding take_chunk Tidy
  take_chunk-Tidy chunk t p =
      after_choice-Tidy (if_truthy (field "usage" chunk)) _
        (take_choice-Tidy (first_of (field "choices" chunk)) _ p)

  handle_parsed-Tidy :
      (o : Option Json) (t : Chatting)
      → Tidy t
      → Comes Tidy TidyLeft (handle_parsed parse plus null_field o t)
  unfolding handle_parsed TidyLeft
  handle_parsed-Tidy none t p = p
  handle_parsed-Tidy (some chunk) t p =
      if_elim (Comes Tidy TidyLeft) (is_null chunk) _ _ p (take_chunk-Tidy chunk t p)

  handle_payload-Tidy :
      (payload : Option Text) (t : Chatting)
      → Tidy t
      → Comes Tidy TidyLeft (handle_payload parse plus null_field payload t)
  unfolding handle_payload TidyLeft
  handle_payload-Tidy none t p = p
  handle_payload-Tidy (some payload) t p =
      if_elim (Comes Tidy TidyLeft) (text_eq payload (units "[DONE]")) _ _ p
        (handle_parsed-Tidy (parse payload) t p)

  handle_line-Tidy :
      (line : Text) (t : Chatting)
      → Tidy t
      → Comes Tidy TidyLeft (handle_line parse plus null_field line t)
  unfolding handle_line
  handle_line-Tidy line t p = handle_payload-Tidy (data_of (strip_cr line)) t p

  at_end-Tidy :
      (ending : Ending) (read : Chatting × Text)
      → Tidy read.0
      → Comes Tidy TidyLeft (at_end parse plus null_field ending read)
  unfolding handle_tail TidyLeft
  at_end-Tidy Ending.end_of_stream read p =
      if_elim (Comes Tidy TidyLeft) (is_blank read.1) _ _ p (handle_line-Tidy read.1 read.0 p)
  at_end-Tidy (Ending.interrupted f) read p = p

  outcome-Clean :
      (v : Verdict Chatting Left) → Comes Tidy TidyLeft v → Clean (outcome parse plus null_field v)
  unfolding outcome TidyLeft
  outcome-Clean (Verdict.going t) p = cut-Clean t _ p
  outcome-Clean (Verdict.left (Left.done_seen t)) p = finish-Clean t p
  outcome-Clean (Verdict.left (Left.thrown t f)) p = catch-Clean t f p

  stream_once-Clean : (fetched : Fetched) → Clean (stream_once parse plus null_field fetched)
  unfolding stream_once shown_of has_tag
  stream_once-Clean (Fetched.unreached f) = catch-Clean at_start f at_start-Tidy
  stream_once-Clean (Fetched.refused status text) = (refl, tt)
  stream_once-Clean (Fetched.opened chunks ending) =
      let handle = handle_line parse plus null_field in
      outcome-Clean _ (
        Comes-onwards (λ (t : Chatting × Text). Tidy t.0) Tidy TidyLeft
          (at_end parse plus null_field ending) (read_loop handle lines [] at_start chunks)
          (at_end-Tidy ending)
          (read_loop-Comes handle lines Tidy TidyLeft handle_line-Tidy [] at_start chunks
            at_start-Tidy))

  -- The content that `streamChat` hands on between two pieces of reasoning, put together, holds no
  -- closing think tag, in whatever pieces the engine sends the text and the tags, and whether the
  -- stream ends, breaks off or is started again.
  pub stream_chat-shown_of :
      (has_base_url allow_fallback : Bool) (first second : Fetched)
      → All NoTag
          (shown_of (stream_chat parse plus null_field has_base_url allow_fallback first second))
  unfolding stream_chat shown_of has_tag
  stream_chat-shown_of b a (Fetched.unreached f) second = stream_once-Clean (Fetched.unreached f)
  stream_chat-shown_of b a (Fetched.opened chunks ending) second =
      stream_once-Clean (Fetched.opened chunks ending)
  stream_chat-shown_of b a (Fetched.refused status text) second =
      if_elim Clean (falls_back parse plus null_field b a status)
        (falling_back parse plus null_field (detail_of parse status text)
          ∷ stream_once parse plus null_field second)
        (stream_once parse plus null_field (Fetched.refused status text))
        (refl, stream_once-Clean second) (stream_once-Clean (Fetched.refused status text))

  -- However the network cuts the body of a response into chunks, `streamChat` makes the same
  -- callbacks in the same order.
  pub stream_chat-joined :
      (has_base_url allow_fallback : Bool) (chunks : List Text) (ending : Ending) (second : Fetched)
      → stream_chat parse plus null_field has_base_url allow_fallback
          (Fetched.opened chunks ending)
          second
        ≡ stream_chat parse plus null_field has_base_url allow_fallback
            (Fetched.opened (joined chunks ∷ []) ending)
            second
  unfolding stream_chat stream_once cut_line lines
  stream_chat-joined b a chunks ending second =
      ap (λ v. outcome parse plus null_field (onwards (at_end parse plus null_field ending) v))
        (read_loop-joined (handle_line parse plus null_field) lines at_start chunks refl)
