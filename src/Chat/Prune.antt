-- ===== src/Chat/Prune.antt =====
-- apps/web/src/lib/chatHelpers.ts, `pruneContextForCloud`.
pub mod Bounds
use mathlib.Core.List.{reverse}
use ninfer_studio.Base.{
  ℕ, zero, suc, ◌+◌, ◌-◌, Text, units, decimal, ltb, leb, ◌&&◌, if◌then◌else◌, List, [], ◌∷◌, ◌++◌,
  take, drop, take_last, length, sum_of, Bool, true, false,
}
use ninfer_studio.Message.{Message, labelled}
use ninfer_studio.Chat.Sanitize.{sanitize_messages_for_api}

abbrev pub max_cloud_chars : ℕ
max_cloud_chars = 600000

abbrev pub chars : Message → ℕ
chars m = length m.content

unfoldable pub prune_content : Text → Text
prune_content t =
    if ltb 1200 (length t)
    then take 600 t
      ++ units "\n\n...["
      ++ decimal (length t - 900)
      ++ units " bytes of historical tool output pruned for cloud optimization]...\n\n"
      ++ take_last 300 t
    else t

-- The `map`: the messages before index `cutoff` are shortened.
unfoldable pub prune_before : ℕ → List Message → List Message
prune_before zero ms = ms
prune_before (suc n) [] = []
prune_before (suc n) (m ∷ ms) = record m { content = prune_content m.content } ∷ prune_before n ms

-- The loop that keeps middle messages from the newest back, while they fit; `middle` is reversed.
unfoldable pub keep_back : ℕ → List Message → List Message → List Message
keep_back current kept [] = kept
keep_back current kept (m ∷ older) =
    let rest = keep_back (current + chars m) (m ∷ kept) older in
    if ltb max_cloud_chars (current + chars m) then kept else rest

pub notice : ℕ → Message
notice omitted = labelled "Pruned Context" (
    units "[System Notice: "
    ++ decimal omitted
    ++ units
        " older historical turns were automatically omitted to stay within cloud context limits.]")

unfoldable pub first_part : List Message → List Message
first_part pruned = take 2 pruned

unfoldable pub last_part : List Message → List Message
last_part pruned = take_last 4 pruned

unfoldable pub middle_part : List Message → List Message
middle_part pruned = take (length pruned - 6) (drop 2 pruned)

unfoldable pub kept_middle : List Message → List Message
kept_middle pruned =
    keep_back (sum_of chars (first_part pruned) + sum_of chars (last_part pruned)) []
      (reverse (middle_part pruned))

-- The safeguard on the total size.
unfoldable pub omit_middle : List Message → List Message
omit_middle pruned =
    if ltb max_cloud_chars (sum_of chars pruned) && ltb 6 (length pruned)
    then (let omitted = length (middle_part pruned) - length (kept_middle pruned) in
        if ltb 0 omitted
        then first_part pruned ++ (notice omitted ∷ (kept_middle pruned ++ last_part pruned))
        else pruned)
    else pruned

-- What `pruneContextForCloud` hands to `sanitizeMessagesForApi`.
unfoldable pub pruned_context : List Message → List Message
pruned_context messages =
    if leb (length messages) 2
    then messages
    else omit_middle (prune_before (length messages - 4) messages)

pub prune_context_for_cloud : List Message → List Message
prune_context_for_cloud messages = sanitize_messages_for_api (pruned_context messages)
