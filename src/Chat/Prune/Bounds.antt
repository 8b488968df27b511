-- ===== src/Chat/Prune/Bounds.antt =====
-- `pruneContextForCloud`: what it keeps, and the size of what it sends.
use mathlib.Core.List.{reverse, reverse-cons, reverse-reverse}
use ninfer_studio.Base.{
  ℕ, zero, suc, ◌+◌, ◌-◌, ◌≤◌, ◌<◌, max, ltb, leb, List, [], ◌∷◌, ◌++◌, append_assoc, append-nil,
  take, drop, take_last, length, length-append, take-append-drop, drop-drop, sum_of, sum_of-append,
  false, ◌&&◌, ◌≡◌, refl, sym, ◌∙◌, ap, arith, Bool-cases, inl, inr,
}
use ninfer_studio.Message.{Message}
use ninfer_studio.Chat.Prune.{
  max_cloud_chars, chars, prune_before, keep_back, notice, first_part, last_part, middle_part,
  kept_middle, omit_middle, pruned_context,
}

sum-keep_back :
    (current : ℕ) (kept middle : List Message)
    → sum_of chars (keep_back current kept middle) + current
      ≤ sum_of chars kept + max max_cloud_chars current
unfolding keep_back
sum-keep_back current kept [] = omega arith
sum-keep_back current kept (m ∷ older) =
    ground (arith, sum-keep_back (current + chars m) (m ∷ kept) older)

-- What the loop keeps is a run at the end of the middle.
keep_back-suffix :
    (current : ℕ) (kept middle : List Message)
    → (dropped : List Message) × (dropped ++ keep_back current kept middle ≡ reverse middle ++ kept)
unfolding keep_back
keep_back-suffix current kept [] = ([], refl)
keep_back-suffix current kept (m ∷ older) =
    elim (Bool-cases (ltb max_cloud_chars (current + chars m))) [
      | inl stop ↦ (reverse (m ∷ older), rw stop refl)
      | inr go ↦
          let (dropped, e) = keep_back-suffix (current + chars m) (m ∷ kept) older in
          (dropped, rw go (e ∙ rw (reverse-cons, append_assoc) refl))
    ]

-- The kept middle messages are the newest of the middle ones, in order.
pub kept_middle-suffix :
    (pruned : List Message)
    → (dropped : List Message) × (dropped ++ kept_middle pruned ≡ middle_part pruned)
unfolding kept_middle
kept_middle-suffix pruned =
    let current = sum_of chars (first_part pruned) + sum_of chars (last_part pruned) in
    let (dropped, e) = keep_back-suffix current [] (reverse (middle_part pruned)) in
    (dropped, e ∙ append-nil _ ∙ reverse-reverse (middle_part pruned))

length-prune_before : (n : ℕ) (ms : List Message) → length (prune_before n ms) ≡ length ms
unfolding prune_before
length-prune_before zero ms = refl
length-prune_before (suc n) [] = refl
length-prune_before (suc n) (m ∷ ms) = omega (arith, length-prune_before n ms)

drop-prune_before : (n : ℕ) (ms : List Message) → drop n (prune_before n ms) ≡ drop n ms
unfolding prune_before
drop-prune_before zero ms = refl
drop-prune_before (suc n) [] = refl
drop-prune_before (suc n) (m ∷ ms) = drop-prune_before n ms

omit_middle-last :
    (pruned : List Message)
    → (front : List Message) × (omit_middle pruned ≡ front ++ last_part pruned)
unfolding omit_middle
omit_middle-last pruned =
    elim (Bool-cases (ltb max_cloud_chars (sum_of chars pruned) && ltb 6 (length pruned))) [
      | inr small ↦ (whole, rw small same)
      | inl large ↦ elim (Bool-cases (ltb 0 omitted)) [
        | inr none_left ↦ (whole, rw (large, none_left) same)
        | inl some_left ↦ (
          first_part pruned ++ (notice omitted ∷ kept_middle pruned),
          rw (large, some_left, append_assoc) refl,
        )
      ]
    ]
  where
    omitted : ℕ
    omitted = length (middle_part pruned) - length (kept_middle pruned)

    whole : List Message
    whole = take (length pruned - 4) pruned

    same : pruned ≡ whole ++ last_part pruned
    same = unfold last_part in sym (take-append-drop (length pruned - 4) pruned)

-- The messages with the older contents shortened.
abbrev pub shortened : List Message → List Message
shortened messages = prune_before (length messages - 4) messages

-- Of three messages or more, the last four are handed on unchanged, as the end of the sequence.
pub pruned_context-last :
    (messages : List Message)
    → 2 < length messages
    → (front : List Message) × (pruned_context messages ≡ front ++ take_last 4 messages)
unfolding pruned_context
pruned_context-last messages h =
    let (front, e) = omit_middle-last (shortened messages) in
    let more : leb (length messages) 2 ≡ false = ground arith in
    (front, rw more (e ∙ ap (front ++◌) same))
  where
    same : last_part (shortened messages) ≡ take_last 4 messages
    same =
        unfold last_part in
        rw (length-prune_before (length messages - 4) messages)
          (drop-prune_before (length messages - 4) messages)

partition :
    (pruned : List Message)
    → 6 < length pruned
    → first_part pruned ++ (middle_part pruned ++ last_part pruned) ≡ pruned
unfolding first_part middle_part last_part
partition pruned h =
    rw (← drop-drop 2 (length pruned - 6) (length pruned - 4) pruned (omega arith)) (
      ap (take 2 pruned ++◌) (take-append-drop (length pruned - 6) (drop 2 pruned))
      ∙ take-append-drop 2 pruned)

eq-of_same_length :
    (dropped kept middle : List Message)
    → dropped ++ kept ≡ middle
    → length middle ≤ length kept
    → kept ≡ middle
eq-of_same_length [] kept middle e h = e
eq-of_same_length (m ∷ dropped) kept middle e h =
    absurd (omega (arith, ap length e, length-append dropped kept))

sum-parts :
    (pruned : List Message)
    → 6 < length pruned
    → sum_of chars pruned
      ≡ sum_of chars (first_part pruned)
        + (sum_of chars (middle_part pruned) + sum_of chars (last_part pruned))
sum-parts pruned h =
    ap (sum_of chars) (sym (partition pruned h)) ∙ rw (sum_of-append, sum_of-append) refl

sum-kept_middle :
    (pruned : List Message)
    → sum_of chars (kept_middle pruned)
        + (sum_of chars (first_part pruned) + sum_of chars (last_part pruned))
      ≤ max max_cloud_chars (sum_of chars (first_part pruned) + sum_of chars (last_part pruned))
unfolding kept_middle
sum-kept_middle pruned =
    let current = sum_of chars (first_part pruned) + sum_of chars (last_part pruned) in
    omega (arith, sum-keep_back current [] (reverse (middle_part pruned)))

sum-omitted :
    (pruned : List Message) (n : ℕ)
    → sum_of chars (first_part pruned ++ (notice n ∷ (kept_middle pruned ++ last_part pruned)))
      ≡ sum_of chars (first_part pruned)
        + (chars (notice n) + (sum_of chars (kept_middle pruned) + sum_of chars (last_part pruned)))
sum-omitted pruned n = omega (
  arith,
  sum_of-append chars (first_part pruned) (notice n ∷ (kept_middle pruned ++ last_part pruned)),
  sum_of-append chars (kept_middle pruned) (last_part pruned),
)

-- With more than six messages, what is handed on has at most 600,000 characters, or as many as its
-- first two and last four messages if those alone have more, and the notice.
pub omit_middle-chars :
    (pruned : List Message)
    → 6 < length pruned
    → sum_of chars (omit_middle pruned)
      ≤ max max_cloud_chars (sum_of chars (first_part pruned) + sum_of chars (last_part pruned))
        + chars (notice (length (middle_part pruned) - length (kept_middle pruned)))
unfolding omit_middle
omit_middle-chars pruned h =
    elim (Bool-cases (ltb max_cloud_chars (sum_of chars pruned) && ltb 6 (length pruned))) [
      | inr small ↦
          let fits : sum_of chars pruned ≤ max_cloud_chars = ground arith in rw small (omega arith)
      | inl large ↦ elim (Bool-cases (ltb 0 omitted)) [
        | inl some_left ↦
            rw (large, some_left)
              (omega (arith, sum-omitted pruned omitted, sum-kept_middle pruned))
        | inr none_left ↦
            let (dropped, e) = kept_middle-suffix pruned in
            let all_kept = eq-of_same_length dropped _ _ e (ground arith) in
            rw (large, none_left)
              (omega
                (arith, sum-parts pruned h, sum-kept_middle pruned, ap (sum_of chars) all_kept))
      ]
    ]
  where
    omitted : ℕ
    omitted = length (middle_part pruned) - length (kept_middle pruned)
