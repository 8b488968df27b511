-- ===== src/Api/Responses/Reports.antt =====
-- api/responses.ts: what an event makes known by its effect.
use ninfer_studio.Base.{
  ℕ, Text, is_blank, ◌===◌, ◌&&◌, ◌||◌, if_elim, if◌then◌else◌, any, sum_of, List, Option, none,
  some, Bool, true, false, ◌≡◌, refl, arith,
}
use ninfer_studio.Api.Values.{Json, field}
use ninfer_studio.Api.Transport.{MessageMeta, Callback}
use ninfer_studio.Api.Responses.Reducer.{
  ResponsesState, Effect, Reduced, add_item, arguments_done, complete, leave_incomplete, usage_of,
  usage_effect, take_usage, apply_chunk, apply_parsed, failure_of, or_empty,
}
use ninfer_studio.Api.Responses.Stream.{callbacks_of}

abbrev pub is_done : Callback → Bool
is_done (Callback.done meta) = true
is_done _ = false

abbrev pub is_failed : Callback → Bool
is_failed (Callback.failed message) = true
is_failed _ = false

abbrev pub dones : List Callback → ℕ
dones = sum_of (λ c. if is_done c then 1 else 0)

errored-add_item : (item : Option Json) (s : ResponsesState) → (add_item item s).errored ≡ s.errored
unfolding add_item
errored-add_item none s = refl
errored-add_item (some item) s = ground arith

errored-arguments_done :
    (chunk : Json) (s : ResponsesState) → (arguments_done chunk s).errored ≡ s.errored
unfolding arguments_done
errored-arguments_done chunk s = ground arith

errored-take_usage :
    (usage : Option Json) (s : ResponsesState) → (take_usage usage s).errored ≡ s.errored
errored-take_usage none s = refl
errored-take_usage (some u) s = refl

errored-complete :
    (response : Option Json) (s : ResponsesState) → (complete response s).errored ≡ s.errored
unfolding complete
errored-complete response s = errored-take_usage (usage_of response) s

errored-leave_incomplete :
    (response : Option Json) (s : ResponsesState)
    → (leave_incomplete response s).errored ≡ s.errored
unfolding leave_incomplete
errored-leave_incomplete response s = errored-take_usage (usage_of response) _

-- An error is reported exactly by the event that sets `errored`, and no event reports the end.
unfoldable pub Reports : ResponsesState → Reduced → Type 0
Reports s Reduced.thrown = Unit
Reports s (Reduced.reduced t effect) =
    let cbs = callbacks_of t.meta effect in
    (t.errored ≡ (s.errored || any is_failed cbs)) × (dones cbs ≡ 0)

keeps :
    (s t : ResponsesState) (effect : Effect)
    → t.errored ≡ s.errored
    → any is_failed (callbacks_of t.meta effect) ≡ false
    → dones (callbacks_of t.meta effect) ≡ 0
    → Reports s (Reduced.reduced t effect)
unfolding Reports
keeps s t effect e f d = (ground arith, d)

throws : (s : ResponsesState) → Reports s Reduced.thrown
unfolding Reports
throws s = tt

fails :
    (s : ResponsesState) (message : Text)
    → is_blank message ≡ false
    → Reports s (Reduced.reduced (record s { errored = true }) (Effect.error message))
unfolding Reports callbacks_of
fails s message h = ground (arith, h)

usage_effect-quiet :
    (usage : Option Json) (meta : MessageMeta)
    → (any is_failed (callbacks_of meta (usage_effect usage)) ≡ false)
      × (dones (callbacks_of meta (usage_effect usage)) ≡ 0)
unfolding callbacks_of
usage_effect-quiet none meta = (refl, refl)
usage_effect-quiet (some u) meta = (refl, refl)

-- Is it a failure whose message is empty as a text, so that nothing is reported?
unfoldable pub is_mute : Option Json → Bool
unfolding field failure_of
is_mute none = false
is_mute (some chunk) =
    or_empty (field "type" chunk) === "response.failed"
    && is_blank (failure_of (field "response" chunk))

fails_if :
    (b : Bool) (s : ResponsesState) (message : Text)
    → (b && is_blank message) ≡ false
    → Reports s (
        if b
        then Reduced.reduced (record s { errored = true }) (Effect.error message)
        else Reduced.reduced s Effect.nothing)
unfolding callbacks_of
fails_if true s message loud = fails s message loud
fails_if false s message loud = keeps s s Effect.nothing refl refl refl

apply_chunk-Reports :
    (chunk : Json) (s : ResponsesState)
    → is_mute (some chunk) ≡ false
    → Reports s (apply_chunk chunk s)
unfolding apply_chunk callbacks_of is_mute
apply_chunk-Reports chunk s loud =
    let response = field "response" chunk in
    let quiet = usage_effect-quiet (usage_of response) in
    let same =
      λ (e : Effect) (f : any is_failed (callbacks_of s.meta e) ≡ false)
          (d : dones (callbacks_of s.meta e) ≡ 0).
        keeps s s e refl f d in
    if_elim (Reports s) _ _ _ (throws s) (
      if_elim (Reports s) _ _ _ (same (Effect.content_delta _) refl refl) (
        if_elim (Reports s) _ _ _ (same (Effect.reasoning_delta _) refl refl) (
          if_elim (Reports s) _ _ _
            (keeps s (add_item (field "item" chunk) s) Effect.nothing
              (errored-add_item (field "item" chunk) s) refl refl)
            (if_elim (Reports s) _ _ _
              (keeps s (arguments_done chunk s) Effect.nothing (errored-arguments_done chunk s) refl
                refl)
              (if_elim (Reports s) _ _ _
                (keeps s (complete response s) (usage_effect (usage_of response))
                  (errored-complete response s) (quiet (complete response s).meta).0
                  (quiet (complete response s).meta).1)
                (if_elim (Reports s) _ _ _
                  (keeps s (leave_incomplete response s) (usage_effect (usage_of response))
                    (errored-leave_incomplete response s)
                    (quiet (leave_incomplete response s).meta).0
                    (quiet (leave_incomplete response s).meta).1)
                  (fails_if (or_empty (field "type" chunk) === "response.failed") s
                    (failure_of response) loud)))))))

pub apply_parsed-Reports :
    (o : Option Json) (s : ResponsesState) → is_mute o ≡ false → Reports s (apply_parsed o s)
unfolding apply_parsed callbacks_of
apply_parsed-Reports none s loud = keeps s s Effect.nothing refl refl refl
apply_parsed-Reports (some chunk) s loud = apply_chunk-Reports chunk s loud
