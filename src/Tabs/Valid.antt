-- ===== src/Tabs/Valid.antt =====
-- tabModel.ts: the invariant of the hook's state, and the lemmas on patches that it needs.
pub mod Disk
pub mod Save
pub mod Actions
pub mod Edit
pub mod Workspace
pub mod Reach
use ninfer_studio.Base.{
  Text, String, ◌===◌, Dict, get, put, delete, get-put, get-delete, List, [], ◌∷◌, ◌++◌, filter,
  any, All, All-append, All-imp, All-pair, subst, sym, ap, ◌∙◌, Option, none, some, Bool, true,
  false, not, ◌&&◌, ◌≡◌, refl, arith, eq_iff, Bool-cases, inl, inr,
}
use ninfer_studio.Tabs.State.{Tab, Snapshot, Tabs, Request, has_id, find_tab, patch_tab}
use ninfer_studio.Tabs.Save.{and_then}
use ninfer_studio.Tabs.Workspace.{put_all}

-- The tab has a live text, which without unsaved changes is the last known text on disk.
abbrev pub IsSynced : Dict Text → Tab → Type 0
IsSynced docs t =
    (live : Text) × (get t.id docs ≡ some live)
    × (t.dirty ≡ false → t.truncated ≡ false → live ≡ t.base)

abbrev pub IsOther : String → Tab → Type 0
IsOther id t = (t.id === id) ≡ false

abbrev pub HasDistinctIds : List Tab → Type 0
HasDistinctIds [] = Unit
HasDistinctIds (t ∷ ts) = All (IsOther t.id) ts × HasDistinctIds ts

pub record IsConsistent (tabs : List Tab) (docs : Dict Text) : Type 0 where
  pub distinct : HasDistinctIds tabs
  pub synced : All (IsSynced docs) tabs

abbrev pub IsStored : String × Snapshot → Type 0
IsStored e = IsConsistent (e.1).tabs (put_all (e.1).docs [])

-- The open tabs, and those of every remembered workspace, are consistent with their live texts.
pub record IsValid (s : Tabs) : Type 0 where
  pub current : IsConsistent s.tabs s.docs
  pub stored : All IsStored s.per_ws

pub and_then-IsValid :
    (a : Tabs × List Request) (f : Tabs → Tabs × List Request)
    → ((s : Tabs) → IsValid s → IsValid (f s).0)
    → IsValid a.0
    → IsValid (and_then a f).0
and_then-IsValid a f keep v = keep a.0 v

-- Every tab of a patched list has a property, if the patch gives it and the other tabs get it.
pub All-patch_tab {ℓ κ} :
    (P : Tab → Type ℓ) (Q : Tab → Type κ) (id : String) (f : Tab → Tab) (ts : List Tab)
    → ((t : Tab) → has_id id t ≡ true → P t → Q (f t))
    → ((t : Tab) → has_id id t ≡ false → P t → Q t)
    → All P ts
    → All Q (patch_tab id f ts)
unfolding patch_tab
All-patch_tab P Q id f [] hit miss h = tt
All-patch_tab P Q id f (t ∷ ts) hit miss (p, h) = elim (Bool-cases (has_id id t)) [
  | inl e ↦ rw e (hit t e p, All-patch_tab P Q id f ts hit miss h)
  | inr e ↦ rw e (miss t e p, All-patch_tab P Q id f ts hit miss h)
]

module _ (id : String) (f : Tab → Tab) (same_id : (t : Tab) → (f t).id ≡ t.id) where
  pub HasDistinctIds-patch_tab :
      (ts : List Tab) → HasDistinctIds ts → HasDistinctIds (patch_tab id f ts)
  unfolding patch_tab
  HasDistinctIds-patch_tab [] h = tt
  HasDistinctIds-patch_tab (t ∷ ts) (p, h) =
      let others =
        All-patch_tab (IsOther t.id) (IsOther t.id) id f ts (λ u _ o. rw (same_id u) o) (λ u _ o. o)
          p in
      let rest = HasDistinctIds-patch_tab ts h in
      elim (Bool-cases (has_id id t)) [
        | inl e ↦ rw (e, same_id t) (others, rest)
        | inr e ↦ rw e (others, rest)
      ]

-- A patch that keeps what the invariant speaks of.
pub patch_tab-IsConsistent :
    (id : String) (f : Tab → Tab) (tabs : List Tab) (docs : Dict Text)
    → ((t : Tab) → (f t).id ≡ t.id)
    → ((t : Tab) → IsSynced docs t → IsSynced docs (f t))
    → IsConsistent tabs docs
    → IsConsistent (patch_tab id f tabs) docs
patch_tab-IsConsistent id f tabs docs same_id keep c = record {
  distinct = HasDistinctIds-patch_tab id f same_id tabs c.distinct;
  synced =
      All-patch_tab (IsSynced docs) (IsSynced docs) id f tabs (λ t _. keep t) (λ t _ h. h) c.synced;
}

-- A write of another tab's text is not seen.
pub IsSynced-put_other :
    (id : String) (doc : Text) (docs : Dict Text) (t : Tab)
    → has_id id t ≡ false
    → IsSynced docs t
    → IsSynced (put id doc docs) t
IsSynced-put_other id doc docs t e (live, has, same) =
    (live, ground (arith, get-put id t.id doc docs, eq_iff id t.id, eq_iff t.id id), same)

-- What a write of its own text leaves a tab with.
pub get-put_id :
    (id : String) (doc : Text) (docs : Dict Text) (t : Tab)
    → has_id id t ≡ true
    → get t.id (put id doc docs) ≡ some doc
get-put_id id doc docs t e =
    ground (arith, get-put id t.id doc docs, eq_iff id t.id, eq_iff t.id id)

pub All-any-false : (p : Tab → Bool) (ts : List Tab) → any p ts ≡ false → All (λ t. p t ≡ false) ts
All-any-false p [] h = tt
All-any-false p (t ∷ ts) h = (ground arith, All-any-false p ts (ground arith))

pub find_tab-id : (id : String) (ts : List Tab) (t : Tab) → find_tab id ts ≡ some t → t.id ≡ id
find_tab-id id [] t h = cc
find_tab-id id (u ∷ ts) t h = elim (Bool-cases (has_id id u)) [
  | inl e ↦ ground (arith, eq_iff u.id id)
  | inr e ↦ find_tab-id id ts t (rw e at h)
]

pub find_tab_self :
    (id : String) (ts : List Tab) (t : Tab) → find_tab id ts ≡ some t → find_tab t.id ts ≡ some t
find_tab_self id ts t h = ap (λ (k : String). find_tab k ts) (find_tab-id id ts t h) ∙ h

-- Is the tab the only one of its id?
abbrev pub IsOnly : String → Tab → Tab → Type 0
IsOnly id t u = has_id id u ≡ true → u ≡ t

pub find_tab-IsOnly :
    (id : String) (ts : List Tab) (t : Tab)
    → HasDistinctIds ts
    → find_tab id ts ≡ some t
    → All (IsOnly id t) ts
find_tab-IsOnly id [] t d h = tt
find_tab-IsOnly id (u ∷ ts) t (p, d) h = elim (Bool-cases (has_id id u)) [
  | inl e ↦ (
    λ _. ground arith,
    All-imp (IsOther u.id) (IsOnly id t) ts
        (λ v o k. ground (arith, eq_iff u.id id, eq_iff v.id id, eq_iff v.id u.id)) p,
  )
  | inr e ↦ (λ k. ground arith, find_tab-IsOnly id ts t d (rw e at h))
]

-- A patch of the tab that `find` gives.
pub patch_found-IsConsistent :
    (id : String) (f : Tab → Tab) (tabs : List Tab) (docs : Dict Text) (t : Tab)
    → ((u : Tab) → (f u).id ≡ u.id)
    → find_tab id tabs ≡ some t
    → (IsSynced docs t → IsSynced docs (f t))
    → IsConsistent tabs docs
    → IsConsistent (patch_tab id f tabs) docs
patch_found-IsConsistent id f tabs docs t same_id found keep c = record {
  distinct = HasDistinctIds-patch_tab id f same_id tabs c.distinct;
  synced =
      All-patch_tab (λ u. IsOnly id t u × IsSynced docs u) (IsSynced docs) id f tabs
        (λ u e (only, h).
          subst (λ v. IsSynced docs (f v)) (sym (only e)) (keep (subst (IsSynced docs) (only e) h)))
        (λ u e (only, h). h)
        (All-pair (IsOnly id t) (IsSynced docs) tabs (find_tab-IsOnly id tabs t c.distinct found)
          c.synced);
}
