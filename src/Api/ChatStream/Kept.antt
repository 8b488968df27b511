-- ===== src/Api/ChatStream/Kept.antt =====
-- api/chat.ts, `streamChat`: no text is lost on its way from the engine to the callbacks.
use Prim.Native.Nat.{◌+◌, ◌-◌}
use ninfer_studio.Base.{
  ℕ, Text, units, String, ltb, take, drop, length, take-append-drop, map, List, [], ◌∷◌, ◌++◌,
  append_assoc, append-nil, Option, none, some, Bool-cases, ◌≡◌, refl, sym, ap, ◌∙◌, inl, inr,
}
use ninfer_studio.Api.ReadLoop.{joined}
use ninfer_studio.Api.Transport.{Callback}
use ninfer_studio.Api.ChatStream.Think.{
  tag_holdback, flush_content, Held, leak, release, close_of, think_tags, push_content,
}
use ninfer_studio.Api.ChatStream.Stream.{Chatting, push}

-- What the callbacks show as content or reasoning, one behind the other.
unfoldable pub spoken : List Callback → Text
spoken [] = []
spoken (Callback.content_delta s ∷ cbs) = s ++ spoken cbs
spoken (Callback.reasoning_delta s ∷ cbs) = s ++ spoken cbs
spoken (_ ∷ cbs) = spoken cbs

spoken-append : (a b : List Callback) → spoken (a ++ b) ≡ spoken a ++ spoken b
unfolding spoken
spoken-append [] b = refl
spoken-append (Callback.content_delta s ∷ a) b =
    ap (λ t. s ++ t) (spoken-append a b) ∙ sym (append_assoc s (spoken a) (spoken b))
spoken-append (Callback.reasoning_delta s ∷ a) b =
    ap (λ t. s ++ t) (spoken-append a b) ∙ sym (append_assoc s (spoken a) (spoken b))
spoken-append (Callback.usage u m ∷ a) b = spoken-append a b
spoken-append (Callback.done m ∷ a) b = spoken-append a b
spoken-append (Callback.failed m ∷ a) b = spoken-append a b
spoken-append (Callback.tool_calls c ∷ a) b = spoken-append a b

abbrev all_of : Held → Text
all_of (said, buf) = spoken said ++ buf

flush_content-spoken : (s : Text) → spoken (flush_content s) ≡ s
unfolding spoken
flush_content-spoken [] = refl
flush_content-spoken (c ∷ s) = append-nil (c ∷ s)

leak-all_of : (best : Option (ℕ × ℕ)) (buf : Text) → all_of (leak best buf) ≡ buf
unfolding spoken
leak-all_of none buf = refl
leak-all_of (some (i, n)) buf =
    ap (λ t. t ++ drop (i + n) buf) (append-nil (take (i + n) buf)) ∙ take-append-drop (i + n) buf

release-all_of : (held : Held) → all_of (release held) ≡ all_of held
unfolding release
release-all_of (said, buf) = elim (Bool-cases (ltb tag_holdback (length buf))) [
  | inl e ↦
      let safe = length buf - tag_holdback in
      rw e (
        ap (λ t. t ++ drop safe buf)
          (spoken-append said (flush_content (take safe buf))
            ∙ ap (λ t. spoken said ++ t) (flush_content-spoken (take safe buf)))
        ∙ append_assoc (spoken said) (take safe buf) (drop safe buf)
        ∙ ap (λ t. spoken said ++ t) (take-append-drop safe buf))
  | inr e ↦ rw e refl
]

push_content-all_of : (buf text : Text) → all_of (push_content buf text) ≡ buf ++ text
unfolding push_content
push_content-all_of buf text =
    release-all_of (leak (close_of none think_tags (buf ++ text)) (buf ++ text))
    ∙ leak-all_of (close_of none think_tags (buf ++ text)) (buf ++ text)

-- What was said, with what is held back.
unfoldable pub received : Chatting → Text
unfolding spoken
received t = spoken t.said ++ t.content_buf

received-push : (s : String) (t : Chatting) → received (push (some s) t) ≡ received t ++ units s
unfolding received push
received-push s t =
    let held = push_content t.content_buf (units s) in
    ap (λ x. x ++ held.1) (spoken-append t.said held.0)
    ∙ append_assoc (spoken t.said) (spoken held.0) held.1
    ∙ ap (λ x. spoken t.said ++ x) (push_content-all_of t.content_buf (units s))
    ∙ sym (append_assoc (spoken t.said) t.content_buf (units s))

unfoldable pub push_each : List String → Chatting → Chatting
unfolding push
push_each [] t = t
push_each (s ∷ texts) t = push_each texts (push (some s) t)

-- `pushContent` loses, repeats and reorders nothing: behind any sequence of texts, the deltas that
-- were handed on, with what is held back, are what was there before, with these texts behind it.
pub push_each-received :
    (texts : List String) (t : Chatting)
    → received (push_each texts t) ≡ received t ++ joined (map units texts)
unfolding push_each
push_each-received [] t = sym (append-nil (received t))
push_each-received (s ∷ texts) t =
    push_each-received texts (push (some s) t)
    ∙ ap (λ x. x ++ joined (map units texts)) (received-push s t)
    ∙ append_assoc (received t) (units s) (joined (map units texts))
