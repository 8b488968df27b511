-- ===== src/Api/Responses/Ends.antt =====
-- api/responses.ts: what every run of `streamResponses` makes of its callbacks.
use Prim.Native.Nat.{◌≤◌}
use ninfer_studio.Base.{
  Text, trim, ◌||◌, or_true, Dict, if◌then◌else◌, any, any-append, sum_of-append, List, [], ◌∷◌,
  ◌++◌, ◌&&◌, not, all, and_left, and_right, subst, Option, none, some, Bool, true, false, ◌≡◌,
  refl, sym, ap, ◌∙◌, ◌⊎◌, inl, inr, arith,
}
use ninfer_studio.Api.Values.{Json}
use ninfer_studio.Api.ReadLoop.{
  Verdict, Comes, onwards, joined, read_loop, read_loop-joined, read_loop-Comes-ok, Comes-onwards,
}
use ninfer_studio.Api.Drain.{drain}
use ninfer_studio.Api.Splitter.{cut_line, lines}
use ninfer_studio.Api.Transport.{Callback, Failure, Ending, Fetched, strip_cr, data_of}
use ninfer_studio.Api.Responses.Reducer.{Call, ResponsesState, Reduced, apply_responses_event}
use ninfer_studio.Api.Responses.Stream.{
  Streaming, Thrown, at_start, callbacks_of, calls_of, ending_of, finish, catch, handle_data_line,
  handle_line, handle_tail, handle_payload, take_effect, at_end, outcome, stream_responses,
}
use ninfer_studio.Api.Responses.Reports.{
  is_done, is_failed, dones, is_mute, Reports, apply_parsed-Reports,
}

is_end : Callback → Bool
is_end c = is_done c || is_failed c

-- A `done` or `failed` callback is made, and at most one `done`.
unfoldable pub Ends : List Callback → Type 0
unfolding is_end
Ends cbs = (any is_end cbs ≡ true) × (dones cbs ≤ 1)

failed-is_end : (cbs : List Callback) → any is_failed cbs ≡ true → any is_end cbs ≡ true
unfolding is_end
failed-is_end [] h = h
failed-is_end (c ∷ cbs) h = ground (arith, failed-is_end cbs)

Ends-append :
    (a b : List Callback)
    → dones a ≡ 0
    → dones b ≤ 1
    → (any is_failed a ≡ true) ⊎ (any is_end b ≡ true)
    → Ends (a ++ b)
unfolding Ends
Ends-append a b da db h = (
  any-append is_end a b ∙ ground (arith, h, failed-is_end a),
  let more = sum_of-append (λ c. if is_done c then 1 else 0) a b in omega (arith, more, da, db),
)

dones-calls_of : (calls : Dict Call) → dones (calls_of calls) ≡ 0
unfolding calls_of
dones-calls_of [] = refl
dones-calls_of (_ ∷ _) = refl

dones-ending_of : (s : ResponsesState) → dones (ending_of s) ≤ 1
unfolding ending_of
dones-ending_of s = ground arith

is_end-ending_of : (s : ResponsesState) → (s.errored ≡ true) ⊎ (any is_end (ending_of s) ≡ true)
unfolding ending_of is_end
is_end-ending_of s = ground arith

-- What is made behind the callbacks of the stream.
finishing-Ends :
    (said : List Callback) (s : ResponsesState)
    → s.errored ≡ any is_failed said
    → dones said ≡ 0
    → Ends (said ++ (calls_of s.calls ++ ending_of s))
finishing-Ends said s e d =
    let calls = calls_of s.calls in
    let last = ending_of s in
    let counted = sum_of-append (λ c. if is_done c then 1 else 0) calls last in
    let few : dones (calls ++ last) ≤ 1 =
      omega (arith, counted, dones-calls_of s.calls, dones-ending_of s) in
    let ended : (any is_failed said ≡ true) ⊎ (any is_end (calls ++ last) ≡ true) =
      elim (is_end-ending_of s) [
        | inl h ↦ inl (sym e ∙ h)
        | inr h ↦ inr (any-append is_end calls last ∙ rw h (or_true (any is_end calls)))
      ] in
    Ends-append said (calls ++ last) d few ended

-- Does a payload, a line, or what is left at the end report such a failure?
abbrev pub mute_payload : (Text → Option Json) → Option Text → Bool
mute_payload parse none = false
mute_payload parse (some payload) = is_mute (parse payload)

abbrev pub mute_line : (Text → Option Json) → Text → Bool
mute_line parse line = mute_payload parse (data_of (strip_cr line))

abbrev pub mute_tail : (Text → Option Json) → Ending → Text → Bool
mute_tail parse Ending.end_of_stream rest = mute_payload parse (data_of (trim rest))
mute_tail parse (Ending.interrupted f) rest = false

-- No line of the response reports one.
unfoldable pub is_loud : (Text → Option Json) → Fetched → Bool
is_loud parse (Fetched.opened chunks ending) =
    let found = drain lines (joined chunks) in
    all (λ l. not (mute_line parse l)) found.0 && not (mute_tail parse ending found.1)
is_loud parse other = true

module _ (parse : Text → Option Json) (null_field : Text) where
  -- However the network cuts the body of a response into chunks, `streamResponses` makes the same
  -- callbacks in the same order.
  pub stream_responses-joined :
      (chunks : List Text) (ending : Ending)
      → stream_responses parse null_field (Fetched.opened chunks ending)
        ≡ stream_responses parse null_field (Fetched.opened (joined chunks ∷ []) ending)
  unfolding stream_responses cut_line lines
  stream_responses-joined chunks ending =
      ap (λ v. outcome parse null_field (onwards (at_end parse null_field ending) v))
        (read_loop-joined (handle_line parse null_field) lines at_start chunks refl)

  -- `errored` is set exactly if an error was reported, and no end was.
  Consistent : Streaming → Type 0
  Consistent t = (t.state.errored ≡ any is_failed t.said) × (dones t.said ≡ 0)

  Left : Thrown → Type 0
  Left thrown = Consistent thrown.0

  take_effect-Consistent :
      (t : Streaming) (r : Reduced)
      → Reports t.state r
      → Consistent t
      → Comes Consistent Left (take_effect parse null_field t r)
  unfolding take_effect Consistent Reports Left
  take_effect-Consistent t Reduced.thrown reports p = p
  take_effect-Consistent t (Reduced.reduced s effect) (e', d') (e, d) =
      let cbs = callbacks_of s.meta effect in
      (
        e' ∙ ap (λ b. b || any is_failed cbs) e ∙ sym (any-append is_failed t.said cbs),
        sum_of-append (λ c. if is_done c then 1 else 0) t.said cbs ∙ omega (arith, d, d'),
      )

  handle_data_line-Consistent :
      (payload : Text) (t : Streaming)
      → is_mute (parse payload) ≡ false
      → Consistent t
      → Comes Consistent Left (handle_data_line parse null_field payload t)
  unfolding handle_data_line apply_responses_event
  handle_data_line-Consistent payload t loud p =
      take_effect-Consistent t _ (apply_parsed-Reports (parse payload) t.state loud) p

  handle_payload-Consistent :
      (payload : Option Text) (t : Streaming)
      → not (mute_payload parse payload) ≡ true
      → Consistent t
      → Comes Consistent Left (handle_payload parse null_field payload t)
  handle_payload-Consistent none t loud p = p
  handle_payload-Consistent (some payload) t loud p =
      let h : is_mute (parse payload) ≡ false = ground arith in
      handle_data_line-Consistent payload t h p

  handle_line-Consistent :
      (line : Text) (t : Streaming)
      → not (mute_line parse line) ≡ true
      → Consistent t
      → Comes Consistent Left (handle_line parse null_field line t)
  unfolding handle_line
  handle_line-Consistent line t loud p =
      handle_payload-Consistent (data_of (strip_cr line)) t loud p

  at_end-Consistent :
      (ending : Ending) (read : Streaming × Text)
      → not (mute_tail parse ending read.1) ≡ true
      → Consistent read.0
      → Comes Consistent Left (at_end parse null_field ending read)
  unfolding handle_tail Left
  at_end-Consistent Ending.end_of_stream read loud p =
      handle_payload-Consistent (data_of (trim read.1)) read.0 loud p
  at_end-Consistent (Ending.interrupted f) read loud p = p

  finish-Ends : (t : Streaming) → Consistent t → Ends (finish t)
  unfolding finish Consistent
  finish-Ends t (e, d) = finishing-Ends t.said t.state e d

  catch-Ends : (t : Streaming) (f : Failure) → Consistent t → Ends (catch (t, f))
  unfolding catch Consistent is_end
  catch-Ends t Failure.aborted (e, d) = Ends-append t.said _ d (omega arith) (inr refl)
  catch-Ends t (Failure.broke message) (e, d) = Ends-append t.said _ d (omega arith) (inr refl)

  outcome-Ends :
      (v : Verdict Streaming Thrown) → Comes Consistent Left v → Ends (outcome parse null_field v)
  unfolding Left
  outcome-Ends (Verdict.going t) p = finish-Ends t p
  outcome-Ends (Verdict.left (t, f)) p = catch-Ends t f p

  -- Every run of `streamResponses` makes at least one of the callbacks `onDone` and `onError`, and
  -- `onDone` at most once, whatever the engine sends and wherever the stream breaks off, unless the
  -- engine reports a failure whose message is empty as a text.
  pub stream_responses-Ends :
      (fetched : Fetched)
      → is_loud parse fetched ≡ true
      → Ends (stream_responses parse null_field fetched)
  unfolding stream_responses Consistent is_end is_loud
  stream_responses-Ends (Fetched.unreached f) loud = catch-Ends at_start f (refl, refl)
  stream_responses-Ends (Fetched.refused status text) loud =
      Ends-append [] _ refl (omega arith) (inr refl)
  stream_responses-Ends (Fetched.opened chunks ending) loud =
      let handle = handle_line parse null_field in
      let found = drain lines (joined chunks) in
      let ok : Text → Bool = λ l. not (mute_line parse l) in
      let read = read_loop handle lines [] at_start chunks in
      let fine : not (mute_tail parse ending found.1) ≡ true =
        and_right (all ok found.0) (not (mute_tail parse ending found.1)) loud in
      outcome-Ends _ (
        Comes-onwards (λ (t : Streaming × Text). Consistent t.0 × (t.1 ≡ found.1)) Consistent Left
          (at_end parse null_field ending) read
          (λ t q.
            at_end-Consistent ending t
              (subst (λ b. not (mute_tail parse ending b) ≡ true) (sym q.1) fine) q.0)
          (read_loop-Comes-ok handle lines Consistent Left ok handle_line-Consistent at_start chunks
            (unfold cut_line lines in refl)
            (and_left (all ok found.0) (not (mute_tail parse ending found.1)) loud) (refl, refl)))
