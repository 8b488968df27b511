-- ===== src/Api/ChatStream/Think.antt =====
-- api/chat.ts, in `streamChat`: `pushContent`, which hands the text in front of a closing think tag
-- to the reasoning, and holds back what may be the start of such a tag.
use Prim.Native.Nat.{◌+◌, ◌-◌, max}
use ninfer_studio.Base.{
  ℕ, suc, Text, units, ltb, starts_with, is_blank, length, take, drop, if◌then◌else◌, List, [], ◌∷◌,
  ◌++◌, Option, none, some, Bool, true, false,
}
use ninfer_studio.Api.Transport.{Callback}

unfoldable pub think_tags : List Text
unfolding units
think_tags = units "</think>" ∷ units "</thinking>" ∷ []

unfoldable pub longest : List Text → ℕ
longest [] = 0
longest (t ∷ tags) = max (length t) (longest tags)

-- `MAX_TAG_LEN - 1`
unfoldable pub tag_holdback : ℕ
unfolding longest think_tags
tag_holdback = longest think_tags - 1

abbrev pub shifted : Bool → Option ℕ → Option ℕ
shifted here (some i) = some (suc i)
shifted true none = some 0
shifted false none = none

-- `lastIndexOf`, for a tag that is not empty.
unfoldable pub last_index_of : Text → Text → Option ℕ
unfolding starts_with
last_index_of tag [] = none
last_index_of tag (c ∷ s) = shifted (starts_with tag (c ∷ s)) (last_index_of tag s)

-- `closeIdx` and `tagLen`, when the loop has seen another tag.
abbrev pub later : Option (ℕ × ℕ) → Option ℕ → ℕ → Option (ℕ × ℕ)
later best none n = best
later none (some i) n = some (i, n)
later (some (j, m)) (some i) n = if ltb j i then some (i, n) else some (j, m)

unfoldable pub close_of : Option (ℕ × ℕ) → List Text → Text → Option (ℕ × ℕ)
unfolding last_index_of
close_of best [] buf = best
close_of best (tag ∷ tags) buf = close_of (later best (last_index_of tag buf) (length tag)) tags buf

-- `flushContent`
abbrev pub flush_content : Text → List Callback
flush_content text = if is_blank text then [] else Callback.content_delta text ∷ []

-- What has been said, and the text that is held back.
abbrev pub Held : Type 0
Held = List Callback × Text

-- The text up to the end of the last closing tag is reasoning.
abbrev pub leak : Option (ℕ × ℕ) → Text → Held
leak none buf = ([], buf)
leak (some (i, n)) buf = (Callback.reasoning_delta (take (i + n) buf) ∷ [], drop (i + n) buf)

unfoldable pub release : Held → Held
unfolding tag_holdback
release (said, buf) =
    let safe = length buf - tag_holdback in
    if ltb tag_holdback (length buf)
    then (said ++ flush_content (take safe buf), drop safe buf)
    else (said, buf)

-- `pushContent`: the callbacks, and the new `contentBuf`.
unfoldable pub push_content : Text → Text → Held
unfolding release close_of
push_content content_buf text =
    let buf = content_buf ++ text in release (leak (close_of none think_tags buf) buf)
