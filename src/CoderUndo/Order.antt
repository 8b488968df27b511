-- ===== src/CoderUndo/Order.antt =====
-- useCoderUndo.ts: what must have come before a file is removed, and what follows a change on disk.
use ninfer_studio.Base.{
  Text, trim, is_blank, ◌==◌, List, [], ◌∷◌, ◌&&◌, ◌||◌, not, any, Bool, true, false, ◌≡◌, refl,
  Bool-cases, if_elim, inl, inr, or_true,
}
use ninfer_studio.GitStatus.{Exec, finished, threw}
use ninfer_studio.CoderUndo.{
  Command, Step, last_commit, discard, remove, commit, parent_of, existed_before, checkout_parent,
  ran, refreshed_tabs, after_commit, after_revert, after_existed, after_parent, after_discard,
  after_last, undo_file_edit, shell_of,
}

abbrev pub succeeded : Exec → Bool
succeeded (threw message) = false
succeeded (finished code out err) = code == 0

-- A command that did not do what was asked, the plane's own failures left out.
abbrev pub refused : Exec → Bool
refused (threw message) = false
refused (finished code out err) = not (code == 0)

abbrev pub changes_file : Command → Bool
changes_file (discard path) = true
changes_file (remove path) = true
changes_file (checkout_parent hash path) = true
changes_file other = false

-- A change of the file that went through.
abbrev pub changed : Step → Bool
changed (ran c r) = changes_file c && succeeded r
changed other = false

abbrev pub cut_off : Step → Bool
cut_off (ran c (threw message)) = true
cut_off other = false

abbrev pub refreshes_tabs : Step → Bool
refreshes_tabs refreshed_tabs = true
refreshes_tabs other = false

abbrev pub removes : Step → Bool
removes (ran (remove path) r) = true
removes other = false

abbrev pub parent_found : Step → Bool
parent_found (ran (parent_of hash) r) = succeeded r
parent_found other = false

abbrev pub was_missing : Step → Bool
was_missing (ran (existed_before hash path) r) = refused r
was_missing other = false

abbrev pub commits : Step → Bool
commits (ran (commit path) r) = true
commits other = false

-- The tabs were refreshed, or a command threw.
abbrev pub refreshed_or_cut : List Step → Bool
refreshed_or_cut t = any refreshes_tabs t || any cut_off t

-- Behind each step that passes `p`, the steps that are left pass `q`.
abbrev pub each_followed : (Step → Bool) → (List Step → Bool) → List Step → Bool
each_followed p q [] = true
each_followed p q (x ∷ t) = (not (p x) || q t) && each_followed p q t

-- In front of each step that passes `p`, one passes `q`; `seen` says whether one did so far.
abbrev pub each_preceded : (Step → Bool) → (Step → Bool) → Bool → List Step → Bool
each_preceded p q seen [] = true
each_preceded p q seen (x ∷ t) = (not (p x) || seen) && each_preceded p q (seen || q x) t

-- In front of a commit stands a change that went through; behind such a change the tabs are
-- refreshed or a command throws; and in front of a removal the parent was found, and the file was
-- not found in it.
abbrev pub is_sound : List Step → Bool
is_sound t =
    each_preceded commits changed false t
    && (each_followed changed refreshed_or_cut t
        && (each_preceded removes parent_found false t
            && each_preceded removes was_missing false t))

-- The same as four equations.
abbrev Sound : List Step → Type 0
Sound t =
    (each_preceded commits changed false t ≡ true)
    × (each_followed changed refreshed_or_cut t ≡ true)
    × (each_preceded removes parent_found false t ≡ true)
    × (each_preceded removes was_missing false t ≡ true)

and_intro : (a b : Bool) → a ≡ true → b ≡ true → (a && b) ≡ true
and_intro true b h k = k
and_intro false b h k = h

each_preceded-seen : (p q : Step → Bool) (t : List Step) → each_preceded p q true t ≡ true
each_preceded-seen p q [] = refl
each_preceded-seen p q (x ∷ t) =
    and_intro (not (p x) || true) (each_preceded p q true t) (or_true (not (p x)))
      (each_preceded-seen p q t)

module _ {W : Type 0} (git : W → Text → Exec × W) where
  after_commit-facts :
      (path : Text) (r : Exec)
      → let t = ran (commit path) r ∷ after_commit git path r in
        (refreshed_or_cut t ≡ true)
        × (each_followed changed refreshed_or_cut t ≡ true)
        × (each_preceded removes was_missing false t ≡ true)
  unfolding after_commit
  after_commit-facts path (threw message) = (refl, refl, refl)
  after_commit-facts path (finished code out err) = elim (Bool-cases (code == 0)) [
    | inl e ↦ rw e (refl, refl, refl)
    | inr e ↦ rw e (refl, refl, refl)
  ]

  after_revert-facts :
      (path : Text) (r : Exec) (w : W)
      → let t = after_revert git path r w in
        (each_preceded commits changed (succeeded r) t ≡ true)
        × ((not (succeeded r) || refreshed_or_cut t) ≡ true)
        × (each_followed changed refreshed_or_cut t ≡ true)
        × (each_preceded removes was_missing false t ≡ true)
  unfolding after_revert shell_of
  after_revert-facts path (threw message) w = (refl, refl, refl, refl)
  after_revert-facts path (finished code out err) w =
      let c = (git w (shell_of (commit path))).0 in
      let done = ran (commit path) c ∷ after_commit git path c in
      let f = after_commit-facts path c in
      elim (Bool-cases (code == 0)) [
        | inl e ↦ rw e (each_preceded-seen commits changed done, f.0, f.1, f.2)
        | inr e ↦ rw e (refl, refl, refl, refl)
      ]

  -- Behind the question whether the file was there; the parent was found.
  after_existed-facts :
      (hash path : Text) (r : Exec) (w : W)
      → let t = ran (existed_before hash path) r ∷ after_existed git hash path r w in
        (each_preceded commits changed false t ≡ true)
        × (each_followed changed refreshed_or_cut t ≡ true)
        × (each_preceded removes parent_found true t ≡ true)
        × (each_preceded removes was_missing false t ≡ true)
  unfolding after_existed shell_of
  after_existed-facts hash path (threw message) w = (refl, refl, refl, refl)
  after_existed-facts hash path (finished code out err) w =
      let old = git w (shell_of (checkout_parent hash path)) in
      let gone = git w (shell_of (remove path)) in
      let f = after_revert-facts path old.0 old.1 in
      let g = after_revert-facts path gone.0 gone.1 in
      let reverted = after_revert git path old.0 old.1 in
      let removed = after_revert git path gone.0 gone.1 in
      let from_old = ran (checkout_parent hash path) old.0 ∷ reverted in
      let from_gone = ran (remove path) gone.0 ∷ removed in
      let settled : (b c d : Bool) → (not b || c) ≡ true → d ≡ true → ((not b || c) && d) ≡ true =
        λ b c d. and_intro (not b || c) d in
      elim (Bool-cases (code == 0)) [
        | inl e ↦ rw e (
          f.0,
          settled (succeeded old.0) (refreshed_or_cut reverted)
              (each_followed changed refreshed_or_cut reverted) f.1 f.2,
          each_preceded-seen removes parent_found from_old,
          f.3,
        )
        | inr e ↦ rw e (
          g.0,
          settled (succeeded gone.0) (refreshed_or_cut removed)
              (each_followed changed refreshed_or_cut removed) g.1 g.2,
          each_preceded-seen removes parent_found from_gone,
          each_preceded-seen removes was_missing from_gone,
        )
      ]

  nothing-Sound : Sound []
  nothing-Sound = (refl, refl, refl, refl)

  discarded-Sound :
      (path : Text) (r : Exec) → Sound (ran (discard path) r ∷ after_discard git path r)
  unfolding after_discard
  discarded-Sound path (threw message) = (refl, refl, refl, refl)
  discarded-Sound path (finished code out err) = elim (Bool-cases (code == 0)) [
    | inl e ↦ rw e (refl, refl, refl, refl)
    | inr e ↦ rw e (refl, refl, refl, refl)
  ]

  -- Behind the question for the parent of the commit.
  after_parent-Sound :
      (hash path : Text) (r : Exec) (w : W)
      → Sound (ran (parent_of hash) r ∷ after_parent git hash path r w)
  unfolding after_parent shell_of
  after_parent-Sound hash path (threw message) w = (refl, refl, refl, refl)
  after_parent-Sound hash path (finished code out err) w =
      let s = git w (shell_of (existed_before hash path)) in
      let f = after_existed-facts hash path s.0 s.1 in
      elim (Bool-cases (code == 0)) [
        | inl e ↦ rw e (f.0, f.1, f.2, f.3)
        | inr e ↦ rw e (refl, refl, refl, refl)
      ]

  after_last-Sound :
      (path : Text) (r : Exec) (w : W) → Sound (ran (last_commit path) r ∷ after_last git path r w)
  unfolding after_last after_discard shell_of
  after_last-Sound path (threw message) w = (refl, refl, refl, refl)
  after_last-Sound path (finished code out err) w =
      let d = git w (shell_of (discard path)) in
      let s = git w (shell_of (parent_of (trim out))) in
      elim (Bool-cases (is_blank (trim out))) [
        | inl e ↦ rw e (discarded-Sound path d.0)
        | inr e ↦ rw e (after_parent-Sound (trim out) path s.0 s.1)
      ]

  undo_file_edit-Sound :
      (running : Bool) (dir : Text) (confirmed : Bool) (w : W) (path : Text)
      → Sound (undo_file_edit git running dir confirmed w path)
  unfolding undo_file_edit shell_of
  undo_file_edit-Sound running dir confirmed w path =
      let r = git w (shell_of (last_commit path)) in
      if_elim Sound running _ _ nothing-Sound (
        if_elim Sound (is_blank dir) _ _ nothing-Sound
          (if_elim Sound confirmed _ _ (after_last-Sound path r.0 r.1) nothing-Sound))

  is_sound-Sound : (t : List Step) → Sound t → is_sound t ≡ true
  is_sound-Sound t s =
      let found = each_preceded removes parent_found false t in
      let missing = each_preceded removes was_missing false t in
      let followed = each_followed changed refreshed_or_cut t in
      and_intro (each_preceded commits changed false t) (followed && (found && missing)) s.0
        (and_intro followed (found && missing) s.1 (and_intro found missing s.2 s.3))

  -- For every undo of a file, whatever the commands answer: in front of a commit stands a change of
  -- the file that went through; after each such change the tabs are refreshed or a command throws;
  -- and before the file is removed, the parent of the commit was found and the file was not found in
  -- it.
  pub undo_file_edit-is_sound :
      (running : Bool) (dir : Text) (confirmed : Bool) (w : W) (path : Text)
      → is_sound (undo_file_edit git running dir confirmed w path) ≡ true
  undo_file_edit-is_sound running dir confirmed w path =
      is_sound-Sound (undo_file_edit git running dir confirmed w path)
        (undo_file_edit-Sound running dir confirmed w path)
