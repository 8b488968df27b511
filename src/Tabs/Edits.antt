-- ===== src/Tabs/Edits.antt =====
-- tabModel.ts, `readDisk`: what an answer does to unsaved edits.
use ninfer_studio.Base.{
  Text, text_eq, text_eq_refl, text_eq_sound, String, ◌===◌, get, get-put, or_else, ===_refl, List,
  [], ◌∷◌, any, All, Option, none, some, Bool, true, false, ◌&&◌, ◌≡◌, refl, sym, ap, ◌∙◌, arith,
  Bool-cases, inl, inr,
}
use ninfer_studio.Tabs.State.{Tab, Tabs, Read, has_id, find_tab, patch_tab, push_doc_tab, bump_rev}
use ninfer_studio.Tabs.Disk.{
  Body, read_content, adopts, adopts_truncated, patch_whole, patch_truncated, docs_after,
  in_conflict, is_loading,
}
use ninfer_studio.Tabs.Valid.{HasDistinctIds, IsOnly, find_tab-IsOnly}

find_tab-hit :
    (id : String) (t : Tab) (ts : List Tab) → has_id id t ≡ true → find_tab id (t ∷ ts) ≡ some t
find_tab-hit id t ts e = rw e refl

find_tab-miss :
    (id : String) (t : Tab) (ts : List Tab)
    → has_id id t ≡ false
    → find_tab id (t ∷ ts) ≡ find_tab id ts
find_tab-miss id t ts e = rw e refl

pub find_tab-patch_tab :
    (id : String) (f : Tab → Tab) (ts : List Tab) (t : Tab)
    → ((u : Tab) → (f u).id ≡ u.id)
    → find_tab id ts ≡ some t
    → find_tab id (patch_tab id f ts) ≡ some (f t)
unfolding patch_tab
find_tab-patch_tab id f [] t same_id h = cc
find_tab-patch_tab id f (u ∷ ts) t same_id h = elim (Bool-cases (has_id id u)) [
  | inl e ↦
      let it : some u ≡ some t = sym (find_tab-hit id u ts e) ∙ h in
      ap (λ (v : Tab). find_tab id (v ∷ patch_tab id f ts)) (rw e refl)
      ∙ find_tab-hit id (f u) (patch_tab id f ts) (ap (λ (k : String). k === id) (same_id u) ∙ e)
      ∙ ap (λ (o : Option Tab). elim o [ none ↦ none | some v ↦ some (f v) ]) it
  | inr e ↦
      ap (λ (v : Tab). find_tab id (v ∷ patch_tab id f ts)) (rw e refl)
      ∙ find_tab-miss id u (patch_tab id f ts) e
      ∙ find_tab-patch_tab id f ts t same_id (sym (find_tab-miss id u ts e) ∙ h)
]

any-only :
    (id : String) (takes : Tab → Bool) (ts : List Tab) (t : Tab)
    → takes t ≡ false
    → All (IsOnly id t) ts
    → any (λ u. has_id id u && takes u) ts ≡ false
any-only id takes [] t left only = refl
any-only id takes (u ∷ ts) t left (p, only) = elim (Bool-cases (has_id id u)) [
  | inl e ↦ rw (e, p e, left) (any-only id takes ts t left only)
  | inr e ↦ rw e (any-only id takes ts t left only)
]

-- The tab has unsaved edits, and has been read.
abbrev pub IsEdited : Tab → Type 0
IsEdited t = (t.dirty ≡ true) × (t.truncated ≡ false) × (is_loading t.status ≡ false)

module _ (s : Tabs) (r : Read) (b : Body) (t : Tab) (found : find_tab r.id s.tabs ≡ some t)
    (edited : IsEdited t) (unforced : r.force ≡ false) where
  whole_answer :
      HasDistinctIds s.tabs
      → text_eq (or_else b.content []) t.base ≡ false
      → docs_after (adopts r.force (or_else b.content [])) r.id (or_else b.content []) s ≡ s.docs
  whole_answer d new =
      let left : adopts r.force (or_else b.content []) t ≡ false =
        rw (edited.0, edited.1, edited.2, unforced, new) refl in
      rw
        (any-only r.id (adopts r.force (or_else b.content [])) s.tabs t left
          (find_tab-IsOnly r.id s.tabs t d found))
        refl

  truncated_answer :
      HasDistinctIds s.tabs
      → docs_after (adopts_truncated r.force) r.id (or_else b.content []) s ≡ s.docs
  truncated_answer d =
      let left : adopts_truncated r.force t ≡ false = rw (edited.0, edited.1, unforced) refl in
      rw
        (any-only r.id (adopts_truncated r.force) s.tabs t left
          (find_tab-IsOnly r.id s.tabs t d found))
        refl

bump_rev-same : (f : Tab → Tab) (t u : Tab) → f t ≡ u → u.doc ≡ t.doc → bump_rev f t ≡ u
bump_rev-same f t u e same =
    let eq : text_eq (f t).doc t.doc ≡ true =
      ap (λ (v : Tab). text_eq v.doc t.doc) e
      ∙ ap (λ (d : Text). text_eq d t.doc) same
      ∙ text_eq_refl t.doc in
    rw eq e

bump_rev-id : (f : Tab → Tab) → ((v : Tab) → (f v).id ≡ v.id) → (v : Tab) → (bump_rev f v).id ≡ v.id
bump_rev-id f same_id v = elim (Bool-cases (text_eq (f v).doc v.doc)) [
  | inl e ↦ rw e (same_id v)
  | inr e ↦ rw e (same_id v)
]

push_doc_tab-same :
    (id : String) (f : Tab → Tab) (ts : List Tab) (t u : Tab)
    → ((v : Tab) → (f v).id ≡ v.id)
    → find_tab id ts ≡ some t
    → f t ≡ u
    → u.doc ≡ t.doc
    → find_tab id (push_doc_tab id f ts) ≡ some u
push_doc_tab-same id f ts t u same_id found e same =
    find_tab-patch_tab id (bump_rev f) ts t (bump_rev-id f same_id) found
    ∙ ap (λ (v : Tab). some v) (bump_rev-same f t u e same)

patch_whole-id : (force : Bool) (content : Text) (t : Tab) → (patch_whole force content t).id ≡ t.id
patch_whole-id force content t = ground arith

patch_truncated-id :
    (force : Bool) (content : Text) (t : Tab) → (patch_truncated force content t).id ≡ t.id
patch_truncated-id force content t = ground arith

-- An answer with another text than the last known one on disk, to an unforced read of a tab with
-- unsaved edits, leaves every live text as it is, and marks the tab as in conflict.
pub read_content-keeps_edits :
    (s : Tabs) (r : Read) (b : Body) (t : Tab)
    → HasDistinctIds s.tabs
    → find_tab r.id s.tabs ≡ some t
    → IsEdited t
    → r.force ≡ false
    → or_else b.binary false ≡ false
    → text_eq (or_else b.content []) t.base ≡ false
    → ((read_content s r b).docs ≡ s.docs)
      × (find_tab r.id (read_content s r b).tabs ≡ some (in_conflict t))
unfolding read_content
read_content-keeps_edits s r b t d found edited unforced text new = elim (Bool-cases b.truncated) [
  | inl cut ↦
      rw (text, cut)
        (
          truncated_answer s r b t found edited unforced d,
          push_doc_tab-same r.id (patch_truncated r.force content) s.tabs t (in_conflict t)
              (patch_truncated-id r.force content) found (rw (edited.0, edited.1, unforced) refl)
              refl,
        )
  | inr whole ↦
      rw (text, whole)
        (
          whole_answer s r b t found edited unforced d new,
          push_doc_tab-same r.id (patch_whole r.force content) s.tabs t (in_conflict t)
              (patch_whole-id r.force content) found
              (rw (edited.0, edited.1, edited.2, unforced, new) refl) refl,
        )
]
  where
    content : Text
    content = or_else b.content []

bump_rev-dirty : (f : Tab → Tab) (t : Tab) → (f t).dirty ≡ true → (bump_rev f t).dirty ≡ true
bump_rev-dirty f t h = elim (Bool-cases (text_eq (f t).doc t.doc)) [
  | inl e ↦ rw e h
  | inr e ↦ rw e h
]

find_tab-read_content :
    (s : Tabs) (r : Read) (b : Body) (t : Tab)
    → find_tab r.id s.tabs ≡ some t
    → IsEdited t
    → r.force ≡ false
    → or_else b.binary false ≡ false
    → b.truncated ≡ false
    → text_eq (or_else b.content []) t.base ≡ true
    → find_tab r.id (read_content s r b).tabs
      ≡ some (bump_rev (patch_whole r.force (or_else b.content [])) t)
unfolding read_content
find_tab-read_content s r b t found edited unforced text whole same =
    rw (text, whole)
      (find_tab-patch_tab r.id (bump_rev (patch_whole r.force (or_else b.content []))) s.tabs t
        (bump_rev-id (patch_whole r.force (or_else b.content []))
          (patch_whole-id r.force (or_else b.content [])))
        found)

any-found :
    (id : String) (takes : Tab → Bool) (ts : List Tab) (t : Tab)
    → find_tab id ts ≡ some t
    → takes t ≡ true
    → any (λ u. has_id id u && takes u) ts ≡ true
any-found id takes [] t h taken = cc
any-found id takes (u ∷ ts) t h taken = elim (Bool-cases (has_id id u)) [
  | inl e ↦
      let it : takes u ≡ true = cc (sym (find_tab-hit id u ts e) ∙ h, taken) in rw (e, it) refl
  | inr e ↦ rw e (any-found id takes ts t (sym (find_tab-miss id u ts e) ∙ h) taken)
]

get-read_content :
    (s : Tabs) (r : Read) (b : Body) (t : Tab)
    → find_tab r.id s.tabs ≡ some t
    → or_else b.binary false ≡ false
    → b.truncated ≡ false
    → adopts r.force (or_else b.content []) t ≡ true
    → get r.id (read_content s r b).docs ≡ some (or_else b.content [])
unfolding read_content
get-read_content s r b t found text whole taken =
    rw (text, whole, any-found r.id (adopts r.force (or_else b.content [])) s.tabs t found taken)
      (get-put r.id r.id (or_else b.content []) s.docs ∙ rw (===_refl r.id) refl)

-- An answer with the last known text on disk, to an unforced read of a tab with unsaved edits,
-- puts that text in place of the live text, and leaves the tab marked as having unsaved changes.
pub read_content-drops_edits :
    (s : Tabs) (r : Read) (b : Body) (t : Tab)
    → find_tab r.id s.tabs ≡ some t
    → IsEdited t
    → r.force ≡ false
    → or_else b.binary false ≡ false
    → b.truncated ≡ false
    → text_eq (or_else b.content []) t.base ≡ true
    → (get r.id (read_content s r b).docs ≡ some t.base)
      × ((u : Tab) × (find_tab r.id (read_content s r b).tabs ≡ some u) × (u.dirty ≡ true))
read_content-drops_edits s r b t found edited unforced text whole same =
    let content = or_else b.content [] in
    let f = patch_whole r.force content in
    (
      get-read_content s r b t found text whole (rw (edited.1, edited.2, same) refl)
          ∙ ap (λ (d : Text). some d) (text_eq_sound content t.base same),
      (
        bump_rev f t,
        find_tab-read_content s r b t found edited unforced text whole same,
        bump_rev-dirty f t stays,
      ),
    )
  where
    stays : (patch_whole r.force (or_else b.content []) t).dirty ≡ true
    stays = rw (edited.1, edited.2, same, unforced, edited.0) refl
