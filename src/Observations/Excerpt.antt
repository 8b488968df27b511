-- ===== src/Observations/Excerpt.antt =====
-- observationPack.ts, `completeLineExcerpt` and `placeholderFor`.
use mathlib.Core.List.{reverse, reverse-append, reverse-reverse}
use ninfer_studio.Base.{
  ℕ, ◌+◌, ◌-◌, ◌*◌, ◌/◌, ltb, ◌==◌, Text, units, decimal, is_blank, if◌then◌else◌, length, List, [],
  ◌∷◌, ◌++◌, append_assoc, Bool, true, false, ◌≡◌, refl, sym, ap, ◌∙◌, Bool-cases, inl, inr,
}
use ninfer_studio.Observations.Pages.{utf8}

abbrev pub joined : List Text → Text
joined [] = []
joined (l ∷ ls) = l ++ joined ls

-- `text.split(/(?<=\n)/)`: each line with its newline; `line` is what stands before.
unfoldable pub lines_from : Text → Text → List Text
lines_from line [] = if is_blank line then [] else line ∷ []
lines_from line (c ∷ s) =
    let rest = lines_from [] s in
    let more = lines_from (line ++ (c ∷ [])) s in
    if c == 10 then (line ++ (c ∷ [])) ∷ rest else more

abbrev pub byte_length : Text → ℕ
byte_length s = length (utf8 s)

-- The loop: whole lines, while they fit in what is left of the budget.
unfoldable pub fitting : ℕ → List Text → List Text
fitting budget [] = []
fitting budget (l ∷ ls) =
    let rest = fitting (budget - byte_length l) ls in
    if ltb budget (byte_length l) then [] else l ∷ rest

-- `completeLineExcerpt`
unfoldable pub complete_line_excerpt : Text → ℕ → Bool → Text
unfolding lines_from fitting
complete_line_excerpt text budget from_end =
    if from_end
    then joined (reverse (fitting budget (reverse (lines_from [] text))))
    else joined (fitting budget (lines_from [] text))

abbrev pub pack_excerpt_bytes : ℕ
pack_excerpt_bytes = 1024

unfoldable pub newlines : Text → ℕ
newlines [] = 0
newlines (c ∷ s) = (if c == 10 then 1 else 0) + newlines s

abbrev pub ends_line : Text → Bool
ends_line s = elim (reverse s) [ [] ↦ false | ◌∷◌ c cs ↦ c == 10 ]

-- `countLines`
unfoldable pub count_lines : Text → ℕ
unfolding newlines
count_lines s = if is_blank s then 0 else if ends_line s then newlines s else newlines s + 1

-- `estimateTokens`: the length by 3.2, rounded up.
abbrev pub estimate_tokens : Text → ℕ
estimate_tokens s = (length s * 10 + 31) / 32

-- `placeholderFor`
unfoldable pub placeholder_for : Text → Text → Text → Text
unfolding complete_line_excerpt count_lines units decimal
placeholder_for id tool_name text =
    units "[large "
    ++ tool_name
    ++ units
        " result — sent in full for the last 2 turns, now replaced with an excerpt to save context; nothing is lost, page it back in with obs_recall]\nid: "
    ++ id
    ++ units "\noriginal_bytes: "
    ++ decimal (byte_length text)
    ++ units "\noriginal_lines: "
    ++ decimal (count_lines text)
    ++ units "\nestimated_tokens: "
    ++ decimal (estimate_tokens text)
    ++ units "\nretrieve: call obs_recall with {\"id\":\""
    ++ id
    ++ units
        "\",\"offset\":0}; continue with the returned next_offset until eof is true\n[first complete lines, up to 512 bytes]\n"
    ++ complete_line_excerpt text 512 false
    ++ units "\n[middle omitted; last complete lines, up to 512 bytes]\n"
    ++ complete_line_excerpt text 512 true

joined-append : (xs ys : List Text) → joined (xs ++ ys) ≡ joined xs ++ joined ys
joined-append [] ys = refl
joined-append (x ∷ xs) ys = rw (joined-append xs ys, append_assoc) refl

joined-lines_from : (s line : Text) → joined (lines_from line s) ≡ line ++ s
unfolding lines_from
joined-lines_from [] [] = refl
joined-lines_from [] (c ∷ line) = refl
joined-lines_from (c ∷ s) line = elim (Bool-cases (c == 10)) [
  | inl e ↦ rw (e, joined-lines_from s [], append_assoc) refl
  | inr e ↦ rw e (joined-lines_from s (line ++ (c ∷ [])) ∙ rw append_assoc refl)
]

-- What fits is a run of lines at the start.
fitting-prefix :
    (ls : List Text) (budget : ℕ) → (rest : List Text) × (fitting budget ls ++ rest ≡ ls)
unfolding fitting
fitting-prefix [] budget = ([], refl)
fitting-prefix (l ∷ ls) budget = elim (Bool-cases (ltb budget (byte_length l))) [
  | inl full ↦ (l ∷ ls, rw full refl)
  | inr fits ↦
      let (rest, e) = fitting-prefix ls (budget - byte_length l) in (rest, rw fits (ap (l ∷◌) e))
]

-- The excerpt from the start is a prefix of the text, and the one from
-- the end is a suffix of it.
pub complete_line_excerpt-split :
    (text : Text) (budget : ℕ)
    → ((behind : Text) × (complete_line_excerpt text budget false ++ behind ≡ text))
      × ((front : Text) × (front ++ complete_line_excerpt text budget true ≡ text))
unfolding complete_line_excerpt
complete_line_excerpt-split text budget =
    let ls = lines_from [] text in
    let (behind, e) = fitting-prefix ls budget in
    let (front, d) = fitting-prefix (reverse ls) budget in
    (
      (
        joined behind,
        sym (joined-append (fitting budget ls) behind) ∙ ap joined e ∙ joined-lines_from text [],
      ),
      (
        joined (reverse front),
        sym (joined-append (reverse front) (reverse (fitting budget (reverse ls))))
            ∙ ap joined (
                sym (reverse-append (fitting budget (reverse ls)) front)
                ∙ ap reverse d
                ∙ reverse-reverse ls)
            ∙ joined-lines_from text [],
      ),
    )
