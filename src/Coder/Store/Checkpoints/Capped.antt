-- ===== src/Coder/Store/Checkpoints/Capped.antt =====
-- useCoderCheckpoints.ts: which checkpoints are kept when one is added.
use ninfer_studio.Base.{
  ℕ, ◌-◌, ◌≤◌, ltb, ◌===◌, length, take, drop, List, [], ◌∷◌, ◌++◌, filter, filter-append,
  length-filter, length-drop, take-append-drop, Bool, true, not, ◌&&◌, ◌≡◌, refl, sym, ap, ◌∙◌,
  Bool-cases, inl, inr, arith, All, All-imp, or_true, ===_refl,
}
use ninfer_studio.Coder.Store.{Checkpoint}
use ninfer_studio.Coder.Store.Checkpoints.{
  max_auto_checkpoints, is_dropped, too_old, with_checkpoint,
}

filter-swap {ℓ} :
    {A : Type ℓ} (p r : A → Bool) (xs : List A) → filter p (filter r xs) ≡ filter r (filter p xs)
filter-swap p r [] = refl
filter-swap p r (x ∷ xs) = ground (arith, filter-swap p r xs)

-- Nothing is left of the items whose ids are dropped.
filter-is_dropped :
    (old cs : List Checkpoint)
    → All (λ c. is_dropped old c ≡ true) cs
    → filter (λ c. not (is_dropped old c)) cs ≡ []
filter-is_dropped old [] h = refl
filter-is_dropped old (c ∷ cs) (h, hs) = rw h (filter-is_dropped old cs hs)

All-is_dropped : (cs : List Checkpoint) → All (λ c. is_dropped cs c ≡ true) cs
All-is_dropped [] = tt
All-is_dropped (c ∷ cs) =
    let self : is_dropped (c ∷ cs) c ≡ true = rw (===_refl c.id) refl in
    let wider : (d : Checkpoint) → is_dropped cs d ≡ true → is_dropped (c ∷ cs) d ≡ true =
      λ d h. rw h (or_true (c.id === d.id)) in
    (
      self,
      All-imp (λ d. is_dropped cs d ≡ true) (λ d. is_dropped (c ∷ cs) d ≡ true) cs wider
          (All-is_dropped cs),
    )

filter-oldest :
    (k : ℕ) (cs : List Checkpoint)
    → let keep : Checkpoint → Bool = λ c. not (is_dropped (take k cs) c) in
      filter keep cs ≡ filter keep (drop k cs)
filter-oldest k cs =
    let keep : Checkpoint → Bool = λ c. not (is_dropped (take k cs) c) in
    let gone : filter keep (take k cs) ≡ [] =
      filter-is_dropped (take k cs) (take k cs) (All-is_dropped (take k cs)) in
    ap (filter keep) (sym (take-append-drop k cs))
    ∙ filter-append keep (take k cs) (drop k cs)
    ∙ ap (λ xs. xs ++ filter keep (drop k cs)) gone

length-kept :
    (k : ℕ) (cs : List Checkpoint)
    → length (filter (λ c. not (is_dropped (take k cs) c)) cs) ≤ length cs - k
length-kept k cs =
    let keep : Checkpoint → Bool = λ c. not (is_dropped (take k cs) c) in
    let few = length-filter keep (drop k cs) in
    let size = length-drop k cs in rw (filter-oldest k cs, sym size) few

abbrev pub autos : List Checkpoint → List Checkpoint
autos cs = filter (λ c. c.auto) cs

abbrev pub manuals : List Checkpoint → List Checkpoint
manuals cs = filter (λ c. not c.auto) cs

-- When an automatic checkpoint is added, at most five automatic ones are kept.
pub with_checkpoint-auto_cap :
    (cs : List Checkpoint) (cp : Checkpoint)
    → cp.auto ≡ true
    → length (autos (with_checkpoint cs cp)) ≤ max_auto_checkpoints
unfolding with_checkpoint
with_checkpoint-auto_cap cs cp a =
    let list = cs ++ (cp ∷ []) in
    let n = length (autos list) in
    let keep : Checkpoint → Bool = λ c. not (is_dropped (too_old list) c) in
    let fewer : length (autos (filter keep list)) ≤ n - (n - 5) =
      rw (filter-swap (λ c. c.auto) keep list) (length-kept (n - 5) (autos list)) in
    elim (Bool-cases (ltb 5 n)) [
      | inl e ↦ rw (ap (λ b. b && ltb 5 n) a ∙ e) (omega arith)
      | inr e ↦ rw (ap (λ b. b && ltb 5 n) a ∙ e) (ground arith)
    ]
