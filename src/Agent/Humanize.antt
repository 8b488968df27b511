-- ===== src/Agent/Humanize.antt =====
-- agentLoop.ts, `humanizePassText`. The gate of notai.ts and the rewrite are parameters; `W` is
-- whatever the rewrite and the abort signal depend on.
use ninfer_studio.Base.{
  ℕ, zero, suc, ◌+◌, ◌≤◌, Text, text_eq, trim, is_blank, if◌then◌else◌, [], Option, none, some,
  Bool, true, false, not, ◌||◌, ◌≡◌, refl, ap, ◌∙◌, ◌⊎◌, arith, Bool-cases, inl, inr,
}

-- `HUMANIZE_MAX_DEPTH`
abbrev pub max_depth : ℕ
max_depth = 2

module _ {W : Type 0} (needs_humanize : Text → Bool) (aborted : W → Bool)
    (rewrite : Text → W → Option Text × W) where
  -- Is the rewrite taken? `none` stands for no text and for a rewrite that throws.
  abbrev pub is_taken : Text → Option Text → Bool
  is_taken current none = false
  is_taken current (some text) =
      not (is_blank text || is_blank (trim text) || text_eq (trim text) (trim current))

  abbrev pub trimmed : Option Text → Text
  trimmed none = []
  trimmed (some text) = trim text

  taken-filled :
      (current : Text) (answer : Option Text)
      → is_taken current answer ≡ true
      → is_blank (trimmed answer) ≡ false
  taken-filled current none h = cc
  taken-filled current (some text) h = ground arith

  -- The text, the number of rewrites asked for, and the world behind them.
  abbrev pub Pass : Type 0
  Pass = Text × ℕ × W

  abbrev more : Pass → Pass
  more p = (p.0, p.1 + 1, p.2)

  unfoldable pub humanize_from : ℕ → Text → W → Pass
  unfolding trim
  humanize_from zero current w = (current, 0, w)
  humanize_from (suc attempts) current w =
      let answer = rewrite current w in
      let rest = humanize_from attempts (trimmed answer.0) answer.1 in
      if not (needs_humanize current) || aborted w
      then (current, 0, w)
      else if is_taken current answer.0
      then more rest
      else (current, 1, answer.1)

  unfoldable pub humanize_pass_text : Text → W → Pass
  unfolding humanize_from
  humanize_pass_text text w = humanize_from max_depth text w

  humanize_from-count :
      (attempts : ℕ) (current : Text) (w : W) → (humanize_from attempts current w).1 ≤ attempts
  unfolding humanize_from
  humanize_from-count zero current w = omega arith
  humanize_from-count (suc attempts) current w =
      elim (Bool-cases (not (needs_humanize current) || aborted w)) [
        | inl stop ↦ rw stop (omega arith)
        | inr go ↦ elim (Bool-cases (is_taken current (rewrite current w).0)) [
          | inr left ↦ rw (go, left) (omega arith)
          | inl taken ↦
              rw (go, taken) (omega (arith, humanize_from-count attempts _ (rewrite current w).1))
        ]
      ]

  humanize_from-text :
      (attempts : ℕ) (current : Text) (w : W)
      → ((humanize_from attempts current w).0 ≡ current)
        ⊎ (is_blank (humanize_from attempts current w).0 ≡ false)
  unfolding humanize_from
  humanize_from-text zero current w = inl refl
  humanize_from-text (suc attempts) current w =
      elim (Bool-cases (not (needs_humanize current) || aborted w)) [
        | inl stop ↦ rw stop (inl refl)
        | inr go ↦ elim (Bool-cases (is_taken current (rewrite current w).0)) [
          | inr left ↦ rw (go, left) (inl refl)
          | inl taken ↦
              let new = trimmed (rewrite current w).0 in
              let filled = taken-filled current (rewrite current w).0 taken in
              rw (go, taken)
                (elim (humanize_from-text attempts new (rewrite current w).1) [
                  | inl same ↦ inr (ap is_blank same ∙ filled)
                  | inr more_filled ↦ inr more_filled
                ])
        ]
      ]

  -- At most two rewrites are asked for, and the result is the text itself, or a text that is not
  -- empty.
  pub humanize_pass_text-bounds :
      (text : Text) (w : W)
      → ((humanize_pass_text text w).1 ≤ max_depth)
        × (((humanize_pass_text text w).0 ≡ text)
            ⊎ (is_blank (humanize_pass_text text w).0 ≡ false))
  unfolding humanize_pass_text
  humanize_pass_text-bounds text w =
      (humanize_from-count max_depth text w, humanize_from-text max_depth text w)
