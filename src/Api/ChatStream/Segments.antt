-- ===== src/Api/ChatStream/Segments.antt =====
-- api/chat.ts, `pushContent`: the content that is shown between two pieces of reasoning.
use Prim.Native.Nat.{◌≤◌, ◌<◌, ◌-◌}
use ninfer_studio.Base.{
  ℕ, Text, take, drop, length, length-append, length-drop, take-append-drop, All, ltb, ltb→lt, List,
  [], ◌∷◌, ◌++◌, append_assoc, append-nil, Option, none, some, false, ◌≡◌, refl, sym, ap, subst,
  ◌∙◌, ◌⊎◌, inl, inr, arith, Bool-cases,
}
use ninfer_studio.Api.Transport.{Callback}
use ninfer_studio.Api.ChatStream.Think.{
  think_tags, tag_holdback, close_of, flush_content, Held, leak, release, push_content,
}
use ninfer_studio.Api.ChatStream.Tags.{has_tag, leak-has_tag, has_tag-span, has_tag-first}

abbrev pub NoTag : Text → Type 0
NoTag s = has_tag s ≡ false

-- The content that was shown since the last reasoning, with what was shown before the callbacks.
unfoldable pub open_shown : Text → List Callback → Text
open_shown o [] = o
open_shown o (Callback.content_delta s ∷ cbs) = open_shown (o ++ s) cbs
open_shown o (Callback.reasoning_delta s ∷ cbs) = open_shown [] cbs
open_shown o (_ ∷ cbs) = open_shown o cbs

-- The stretches of content that reasoning ended.
unfoldable pub closed_shown : Text → List Callback → List Text
closed_shown o [] = []
closed_shown o (Callback.content_delta s ∷ cbs) = closed_shown (o ++ s) cbs
closed_shown o (Callback.reasoning_delta s ∷ cbs) = o ∷ closed_shown [] cbs
closed_shown o (_ ∷ cbs) = closed_shown o cbs

pub open_shown-append :
    (o : Text) (a b : List Callback) → open_shown o (a ++ b) ≡ open_shown (open_shown o a) b
unfolding open_shown
open_shown-append o [] b = refl
open_shown-append o (Callback.content_delta s ∷ a) b = open_shown-append (o ++ s) a b
open_shown-append o (Callback.reasoning_delta s ∷ a) b = open_shown-append [] a b
open_shown-append o (Callback.usage u m ∷ a) b = open_shown-append o a b
open_shown-append o (Callback.done m ∷ a) b = open_shown-append o a b
open_shown-append o (Callback.failed m ∷ a) b = open_shown-append o a b
open_shown-append o (Callback.tool_calls c ∷ a) b = open_shown-append o a b

pub closed_shown-append :
    (o : Text) (a b : List Callback)
    → closed_shown o (a ++ b) ≡ closed_shown o a ++ closed_shown (open_shown o a) b
unfolding closed_shown open_shown
closed_shown-append o [] b = refl
closed_shown-append o (Callback.content_delta s ∷ a) b = closed_shown-append (o ++ s) a b
closed_shown-append o (Callback.reasoning_delta s ∷ a) b =
    ap (λ l. o ∷ l) (closed_shown-append [] a b)
closed_shown-append o (Callback.usage u m ∷ a) b = closed_shown-append o a b
closed_shown-append o (Callback.done m ∷ a) b = closed_shown-append o a b
closed_shown-append o (Callback.failed m ∷ a) b = closed_shown-append o a b
closed_shown-append o (Callback.tool_calls c ∷ a) b = closed_shown-append o a b

-- `o` was shown and `buf` is held back: no tag has got through, and `buf` is long enough for the
-- start of a tag if something was shown.
abbrev pub Guarded : Text → Text → Type 0
Guarded o buf = NoTag (o ++ buf) × ((o ≡ []) ⊎ (tag_holdback ≤ length buf))

-- Behind the callbacks of `held`, where `o` was shown before them.
abbrev pub After : Text → Held → Type 0
After o (cbs, buf) = All NoTag (closed_shown o cbs) × Guarded (open_shown o cbs) buf

pub open_shown-flush : (o s : Text) → open_shown o (flush_content s) ≡ o ++ s
unfolding open_shown
open_shown-flush o [] = sym (append-nil o)
open_shown-flush o (c ∷ s) = refl

pub closed_shown-flush : (o s : Text) → closed_shown o (flush_content s) ≡ []
unfolding closed_shown
closed_shown-flush o [] = refl
closed_shown-flush o (c ∷ s) = refl

release_safe :
    (o : Text) (cbs : List Callback) (buf : Text)
    → All NoTag (closed_shown o cbs)
    → NoTag (open_shown o cbs ++ buf)
    → tag_holdback < length buf
    → After o (
      cbs ++ flush_content (take (length buf - tag_holdback) buf),
      drop (length buf - tag_holdback) buf,
    )
release_safe o cbs buf closed h long =
    let safe = length buf - tag_holdback in
    let shown = open_shown o cbs in
    let now_open =
      open_shown-append o cbs (flush_content (take safe buf))
      ∙ open_shown-flush shown (take safe buf) in
    let now_closed =
      closed_shown-append o cbs (flush_content (take safe buf))
      ∙ ap (λ l. closed_shown o cbs ++ l) (closed_shown-flush shown (take safe buf))
      ∙ append-nil (closed_shown o cbs) in
    let whole =
      ap (λ y. y ++ drop safe buf) now_open
      ∙ append_assoc shown (take safe buf) (drop safe buf)
      ∙ ap (λ y. shown ++ y) (take-append-drop safe buf) in
    (
      subst (All NoTag) (sym now_closed) closed,
      (subst NoTag (sym whole) h, inr (omega (arith, long, length-drop safe buf))),
    )

release-After : (o : Text) (held : Held) → After o held → After o (release held)
unfolding release
release-After o (cbs, buf) (closed, guarded) = elim (Bool-cases (ltb tag_holdback (length buf))) [
  | inl e ↦ rw e (release_safe o cbs buf closed guarded.0 (ltb→lt _ _ e))
  | inr e ↦ rw e (closed, guarded)
]

leak-After :
    (best : Option (ℕ × ℕ)) (o buf : Text)
    → NoTag (leak best buf).1
    → NoTag o
    → (NoTag buf → Guarded o buf)
    → After o (leak best buf)
unfolding open_shown closed_shown
leak-After none o buf h shown guarded = (tt, guarded h)
leak-After (some (i, n)) o buf h shown guarded = ((shown, tt), (h, inl refl))

Guarded-append : (o b t : Text) → Guarded o b → NoTag (b ++ t) → Guarded o (b ++ t)
Guarded-append o b t (h, inl e) k = (subst (λ x. NoTag (x ++ (b ++ t))) (sym e) k, inl e)
Guarded-append o b t (h, inr n) k =
    (has_tag-span o b t n h k, inr (omega (arith, n, length-append b t)))

pub push_content-After :
    (o content_buf text : Text) → Guarded o content_buf → After o (push_content content_buf text)
unfolding push_content
push_content-After o content_buf text guarded =
    let buf = content_buf ++ text in
    let best = close_of none think_tags buf in
    release-After o (leak best buf) (
      leak-After best o buf (leak-has_tag buf) (has_tag-first o content_buf guarded.0)
        (Guarded-append o content_buf text guarded))
