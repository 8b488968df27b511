-- ===== src/Api/ChatStream/Tidy.antt =====
-- api/chat.ts: no step of `streamChat` lets a closing think tag through.
use ninfer_studio.Base.{
  sym, subst, inl, Text, units, String, All, All-append, List, [], ◌∷◌, ◌++◌, Option, none, some,
  refl, Bool, any, if_elim,
}
use ninfer_studio.Api.Values.{Json, field, is_null, optional_field, some_text, array_of}
use ninfer_studio.Api.Transport.{Callback}
use ninfer_studio.Api.ChatStream.Think.{push_content}
use ninfer_studio.Api.ChatStream.Tags.{has_tag, has_tag-first, has_tag-second}
use ninfer_studio.Api.ChatStream.Segments.{
  NoTag, Guarded, After, open_shown, closed_shown, open_shown-append, closed_shown-append,
  push_content-After,
}
use ninfer_studio.Api.ChatStream.Stream.{
  Chatting, at_start, say, reasoning_of, push, take_choice, usage_callback,
}

-- Nothing that was said shows a tag, and what is held back guards against one.
unfoldable pub Tidy : Chatting → Type 0
Tidy t = After [] (t.said, t.content_buf)

-- More callbacks, and another text held back.
After-append :
    (said cbs : List Callback) (buf : Text)
    → All NoTag (closed_shown [] said)
    → After (open_shown [] said) (cbs, buf)
    → After [] (said ++ cbs, buf)
After-append said cbs buf closed (more, guarded) = (
  subst (All NoTag) (sym (closed_shown-append [] said cbs))
      (All-append NoTag (closed_shown [] said) _ closed more),
  subst (λ o. Guarded o buf) (sym (open_shown-append [] said cbs)) guarded,
)

pub push-Tidy : (text : Option String) (t : Chatting) → Tidy t → Tidy (push text t)
unfolding push Tidy
push-Tidy none t p = p
push-Tidy (some s) t (closed, guarded) =
    let held = push_content t.content_buf (units s) in
    After-append t.said held.0 held.1 closed
      (push_content-After (open_shown [] t.said) t.content_buf (units s) guarded)

say_reasoning-Tidy :
    (text : Option String) (t : Chatting) → Tidy t → Tidy (say (reasoning_of text) t)
unfolding Tidy open_shown closed_shown
say_reasoning-Tidy none t (closed, guarded) =
    After-append t.said [] t.content_buf closed (tt, guarded)
say_reasoning-Tidy (some s) t (closed, guarded) =
    let shown = open_shown [] t.said in
    After-append t.said (reasoning_of (some s)) t.content_buf closed (
      (has_tag-first shown t.content_buf guarded.0, tt),
      (has_tag-second shown t.content_buf guarded.0, inl refl),
    )

pub take_choice-Tidy :
    (choice : Option Json) (t : Chatting) → Tidy t → Tidy (take_choice choice t).1
unfolding take_choice Tidy
take_choice-Tidy none t p = p
take_choice-Tidy (some choice) t p =
    let d = field "delta" choice in
    let reasoning = some_text (optional_field "reasoning_content" d) in
    let content = some_text (optional_field "content" d) in
    let pushed =
      push-Tidy content (say (reasoning_of reasoning) t) (say_reasoning-Tidy reasoning t p) in
    if_elim (λ (r : Bool × Chatting). After [] (r.1.said, r.1.content_buf))
      (any is_null (array_of (optional_field "tool_calls" d))) _ _ pushed pushed

pub usage_callback-Tidy :
    (usage : Option Json) (t : Chatting) → Tidy t → Tidy (usage_callback usage t)
unfolding Tidy open_shown closed_shown
usage_callback-Tidy none t p = p
usage_callback-Tidy (some u) t (closed, guarded) =
    After-append t.said (Callback.usage u t.meta ∷ []) t.content_buf closed (tt, guarded)

pub at_start-Tidy : Tidy at_start
unfolding Tidy open_shown closed_shown has_tag
at_start-Tidy = (tt, (refl, inl refl))
