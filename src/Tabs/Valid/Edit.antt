-- ===== src/Tabs/Valid/Edit.antt =====
-- tabModel.ts: the invariant, `closeTab` and `onDocChange`.
use ninfer_studio.Base.{
  All-pair, Text, text_eq, text_eq_sound, String, ===_refl, Dict, get, put, delete, get-delete,
  List, [], ◌∷◌, filter, All, All-imp, none, some, Bool, false, not, ◌&&◌, ◌≡◌, refl, sym, subst,
  arith, eq_iff, Bool-cases, Option-cases, inl, inr,
}
use ninfer_studio.Tabs.State.{Tab, Tabs, has_id, patch_tab, find_tab}
use ninfer_studio.Tabs.Actions.{close_tab, mark_dirty, on_doc_change}
use ninfer_studio.Tabs.Valid.{
  IsSynced, IsOther, HasDistinctIds, IsConsistent, IsValid, All-patch_tab, HasDistinctIds-patch_tab,
  IsSynced-put_other, get-put_id, find_tab-id, find_tab-IsOnly, IsOnly,
}

-- A text of one tab is dropped with the tab.
IsSynced-delete_other :
    (id : String) (docs : Dict Text) (t : Tab)
    → has_id id t ≡ false
    → IsSynced docs t
    → IsSynced (delete id docs) t
IsSynced-delete_other id docs t e (live, has, same) =
    (live, ground (arith, get-delete id t.id docs, eq_iff id t.id, eq_iff t.id id), same)

All-without :
    (id : String) (docs : Dict Text) (ts : List Tab)
    → All (IsSynced docs) ts
    → All (IsSynced (delete id docs)) (filter (λ x. not (has_id id x)) ts)
All-without id docs [] h = tt
All-without id docs (t ∷ ts) (p, h) = elim (Bool-cases (has_id id t)) [
  | inl e ↦ rw e (All-without id docs ts h)
  | inr e ↦ rw e (IsSynced-delete_other id docs t e p, All-without id docs ts h)
]

All-filter {ℓ} :
    (P : Tab → Type ℓ) (p : Tab → Bool) (ts : List Tab) → All P ts → All P (filter p ts)
All-filter P p [] h = tt
All-filter P p (t ∷ ts) (q, h) = elim (Bool-cases (p t)) [
  | inl e ↦ rw e (q, All-filter P p ts h)
  | inr e ↦ rw e (All-filter P p ts h)
]

HasDistinctIds-filter :
    (p : Tab → Bool) (ts : List Tab) → HasDistinctIds ts → HasDistinctIds (filter p ts)
HasDistinctIds-filter p [] h = tt
HasDistinctIds-filter p (t ∷ ts) (q, h) = elim (Bool-cases (p t)) [
  | inl e ↦ rw e (All-filter (IsOther t.id) p ts q, HasDistinctIds-filter p ts h)
  | inr e ↦ rw e (HasDistinctIds-filter p ts h)
]

pub close_tab-IsValid :
    (s : Tabs) (id : String) (agreed : Bool) → IsValid s → IsValid (close_tab s id agreed)
unfolding close_tab
close_tab-IsValid s id agreed v = elim (Option-cases (find_tab id s.tabs)) [
  | inl missing ↦ rw (missing, close_tab) v
  | inr (t, found) ↦ elim (Bool-cases (t.dirty && not agreed)) [
    | inl kept ↦ rw (found, close_tab, kept) v
    | inr closed ↦
        rw (found, close_tab, closed)
          (record {
            current = record {
              distinct = HasDistinctIds-filter (λ x. not (has_id id x)) s.tabs v.current.distinct;
              synced = All-without id s.docs s.tabs v.current.synced;
            };
            stored = v.stored;
          })
  ]
]

-- The typed text is the base, or the tab is dirty already, or is marked so now.
edited-IsConsistent :
    (s : Tabs) (id : String) (doc : Text) (t : Tab) (f : Tab → Tab)
    → ((u : Tab) → (f u).id ≡ u.id)
    → find_tab id s.tabs ≡ some t
    → ((f t).dirty ≡ false → (f t).truncated ≡ false → doc ≡ (f t).base)
    → IsConsistent s.tabs s.docs
    → IsConsistent (patch_tab id f s.tabs) (put id doc s.docs)
edited-IsConsistent s id doc t f same_id found same c = record {
  distinct = HasDistinctIds-patch_tab id f same_id s.tabs c.distinct;
  synced =
      All-patch_tab (λ u. IsOnly id t u × IsSynced s.docs u) (IsSynced (put id doc s.docs)) id f
        s.tabs
        (λ u e (only, h).
          subst (λ w. IsSynced (put id doc s.docs) (f w)) (sym (only e))
            (
              doc,
              rw (same_id t)
                  (get-put_id id doc s.docs t (rw (find_tab-id id s.tabs t found) (===_refl id))),
              same,
            ))
        (λ u e (only, h). IsSynced-put_other id doc s.docs u e h)
        (All-pair (IsOnly id t) (IsSynced s.docs) s.tabs
          (find_tab-IsOnly id s.tabs t c.distinct found) c.synced);
}

patch_tab-same : (id : String) (ts : List Tab) → patch_tab id (λ t. t) ts ≡ ts
unfolding patch_tab
patch_tab-same id [] = refl
patch_tab-same id (t ∷ ts) = ground (arith, patch_tab-same id ts)

All-missing :
    (id : String) (ts : List Tab) → find_tab id ts ≡ none → All (λ u. has_id id u ≡ false) ts
All-missing id [] h = tt
All-missing id (t ∷ ts) h = (ground arith, All-missing id ts (ground arith))

-- No open tab has the id.
strayed-IsConsistent :
    (s : Tabs) (id : String) (doc : Text)
    → find_tab id s.tabs ≡ none
    → IsConsistent s.tabs s.docs
    → IsConsistent s.tabs (put id doc s.docs)
strayed-IsConsistent s id doc missing c = record {
  distinct = c.distinct;
  synced =
      All-imp (λ u. (has_id id u ≡ false) × IsSynced s.docs u) (IsSynced (put id doc s.docs)) s.tabs
        (λ u (o, h). IsSynced-put_other id doc s.docs u o h)
        (All-pair _ _ s.tabs (All-missing id s.tabs missing) c.synced);
}

typed-IsConsistent :
    (s : Tabs) (id : String) (doc : Text) (t : Tab)
    → find_tab id s.tabs ≡ some t
    → (t.dirty ≡ false → t.truncated ≡ false → doc ≡ t.base)
    → IsConsistent s.tabs s.docs
    → IsConsistent s.tabs (put id doc s.docs)
typed-IsConsistent s id doc t found same c =
    subst (λ ts. IsConsistent ts (put id doc s.docs)) (patch_tab-same id s.tabs)
      (edited-IsConsistent s id doc t (λ u. u) (λ u. refl) found same c)

abbrev is_unchanged : Tabs → String → Text → Bool
is_unchanged s id doc = elim (get id s.docs) [ none ↦ false | some old ↦ text_eq old doc ]

pub on_doc_change-IsValid :
    (s : Tabs) (id : String) (doc : Text) → IsValid s → IsValid (on_doc_change s id doc)
unfolding on_doc_change
on_doc_change-IsValid s id doc v = elim (Bool-cases (is_unchanged s id doc)) [
  | inl same ↦ rw same v
  | inr new ↦ elim (Option-cases (find_tab id s.tabs)) [
    | inl missing ↦
        rw (new, missing)
          (record { current = strayed-IsConsistent s id doc missing v.current; stored = v.stored })
    | inr (t, found) ↦
        elim (Bool-cases (not t.truncated && not t.dirty && not (text_eq doc t.base))) [
          | inl marks ↦
              rw (new, found, marks)
                (record {
                  current =
                      edited-IsConsistent s id doc t mark_dirty (λ u. ground arith) found
                        (λ clean whole. ground arith) v.current;
                  stored = v.stored;
                })
          | inr quiet ↦
              rw (new, found, quiet)
                (record {
                  current =
                      typed-IsConsistent s id doc t found
                        (λ clean whole. text_eq_sound doc t.base (ground arith)) v.current;
                  stored = v.stored;
                })
        ]
  ]
]
