-- ===== src/Tabs/Valid/Workspace.antt =====
-- tabModel.ts: the invariant and the workspace switch.
use ninfer_studio.Base.{
  Text, String, ◌===◌, Dict, get, put, delete, or_else, ltb, length, List, [], ◌∷◌, ◌++◌, map,
  filter, append_assoc, append-nil, All-pair, All-always, All, All-append, All-imp, Option, none,
  some, false, not, ◌&&◌, ◌≡◌, refl, sym, subst, ◌∙◌, arith, eq_iff, ===_refl, Bool-cases, inl, inr,
}
use ninfer_studio.Tabs.State.{Tab, Snapshot, Tabs, is_ready, is_set, live_doc}
use ninfer_studio.Tabs.Workspace.{
  max_ws_snapshots, stored_tab, put_all, snapshot, oldest_dropped, remember, leave, same_ws,
  rereads, emptied, restored, enter, remembered, switch_workspace,
}
use ninfer_studio.Tabs.Valid.{IsSynced, IsOther, HasDistinctIds, IsConsistent, IsStored, IsValid}
use ninfer_studio.Tabs.Valid.Actions.{read_all-IsValid}

abbrev IsFresh : Dict Text → String → Type 0
IsFresh m k = All (λ e. (e.0 === k) ≡ false) m

abbrev HasDistinctKeys : Dict Text → Type 0
HasDistinctKeys [] = Unit
HasDistinctKeys ((k, v) ∷ m) = All (λ e. (e.0 === k) ≡ false) m × HasDistinctKeys m

put_fresh : (k : String) (v : Text) (m : Dict Text) → IsFresh m k → put k v m ≡ m ++ ((k, v) ∷ [])
unfolding put
put_fresh k v [] h = refl
put_fresh k v ((j, w) ∷ m) (p, h) = rw (p, put_fresh k v m h) refl

put_all-append :
    (pairs m : Dict Text)
    → HasDistinctKeys pairs
    → All (λ e. IsFresh m e.0) pairs
    → put_all pairs m ≡ m ++ pairs
unfolding put_all
put_all-append [] m d h = sym (append-nil m)
put_all-append ((k, v) ∷ pairs) m (o, d) (p, h) = rw (put_fresh k v m p) (
    put_all-append pairs (m ++ ((k, v) ∷ [])) d (
      All-imp (λ e. ((e.0 === k) ≡ false) × IsFresh m e.0) (λ e. IsFresh (m ++ ((k, v) ∷ [])) e.0)
        pairs
        (λ e (other, fresh).
          All-append (λ x. (x.0 === e.0) ≡ false) m ((k, v) ∷ []) fresh
            (ground (arith, eq_iff k e.0, eq_iff e.0 k), tt))
        (All-pair _ _ pairs o h))
    ∙ append_assoc m ((k, v) ∷ []) pairs)

put_all-nil : (pairs : Dict Text) → HasDistinctKeys pairs → put_all pairs [] ≡ pairs
put_all-nil pairs d = put_all-append pairs [] d (All-always (λ e. IsFresh [] e.0) pairs (λ e. tt))

IsSynced-cons_other :
    (id : String) (doc : Text) (docs : Dict Text) (t : Tab)
    → IsOther id t
    → IsSynced docs t
    → IsSynced ((id, doc) ∷ docs) t
unfolding get
IsSynced-cons_other id doc docs t o (live, has, same) =
    (live, ground (arith, eq_iff id t.id, eq_iff t.id id), same)

module _ (s : Tabs) where
  abbrev pairs_of : List Tab → Dict Text
  pairs_of ts = map (λ t. (t.id, live_doc s t)) ts

  pairs_of-other :
      (id : String) (ts : List Tab)
      → All (IsOther id) ts
      → All (λ e. (e.0 === id) ≡ false) (pairs_of ts)
  pairs_of-other id [] h = tt
  pairs_of-other id (t ∷ ts) (p, h) = (p, pairs_of-other id ts h)

  pairs_of-HasDistinctKeys : (ts : List Tab) → HasDistinctIds ts → HasDistinctKeys (pairs_of ts)
  pairs_of-HasDistinctKeys [] h = tt
  pairs_of-HasDistinctKeys (t ∷ ts) (p, h) =
      (pairs_of-other t.id ts p, pairs_of-HasDistinctKeys ts h)

  stored-IsOther :
      (id : String) (us : List Tab) → All (IsOther id) us → All (IsOther id) (map (stored_tab s) us)
  stored-IsOther id [] h = tt
  stored-IsOther id (u ∷ us) (q, h) = (q, stored-IsOther id us h)

  stored-HasDistinctIds :
      (ts : List Tab) → HasDistinctIds ts → HasDistinctIds (map (stored_tab s) ts)
  stored-HasDistinctIds [] h = tt
  stored-HasDistinctIds (t ∷ ts) (p, h) = (stored-IsOther t.id ts p, stored-HasDistinctIds ts h)

  -- The stored texts: each tab's own.
  stored-IsSynced :
      (t : Tab) (m : Dict Text)
      → IsSynced s.docs t
      → IsSynced ((t.id, live_doc s t) ∷ m) (stored_tab s t)
  unfolding get
  stored-IsSynced t m (live, has, same) =
      (live_doc s t, rw (===_refl t.id) refl, λ clean whole. rw has (same clean whole))

  stored-All :
      (ts : List Tab)
      → HasDistinctIds ts
      → All (IsSynced s.docs) ts
      → All (IsSynced (pairs_of ts)) (map (stored_tab s) ts)
  stored-All [] d h = tt
  stored-All (t ∷ ts) (o, d) (p, h) = (
    stored-IsSynced t (pairs_of ts) p,
    All-imp (λ u. IsOther t.id u × IsSynced (pairs_of ts) u)
        (IsSynced ((t.id, live_doc s t) ∷ pairs_of ts)) (map (stored_tab s) ts)
        (λ u (other, k). IsSynced-cons_other t.id (live_doc s t) (pairs_of ts) u other k)
        (All-pair _ _ (map (stored_tab s) ts) (stored-IsOther t.id ts o) (stored-All ts d h)),
  )

  snapshot-IsStored : (ws : String) → IsConsistent s.tabs s.docs → IsStored (ws, snapshot s)
  unfolding snapshot
  snapshot-IsStored ws c =
      let keys = pairs_of-HasDistinctKeys s.tabs c.distinct in
      record {
        distinct = stored-HasDistinctIds s.tabs c.distinct;
        synced =
            rw (put_all-nil (pairs_of s.tabs) keys, put_all-nil (pairs_of s.tabs) keys)
              (stored-All s.tabs c.distinct c.synced);
      }

IsStored-put :
    (ws : String) (snap : Snapshot) (m : Dict Snapshot)
    → IsStored (ws, snap)
    → All IsStored m
    → All IsStored (put ws snap m)
unfolding put
IsStored-put ws snap [] p h = (p, tt)
IsStored-put ws snap ((k, w) ∷ m) p (q, h) = elim (Bool-cases (k === ws)) [
  | inl e ↦ rw e (p, h)
  | inr e ↦ rw e (q, IsStored-put ws snap m p h)
]

IsStored-delete : (ws : String) (m : Dict Snapshot) → All IsStored m → All IsStored (delete ws m)
unfolding delete
IsStored-delete ws [] h = tt
IsStored-delete ws ((k, w) ∷ m) (p, h) = elim (Bool-cases (k === ws)) [
  | inl e ↦ rw e (IsStored-delete ws m h)
  | inr e ↦ rw e (p, IsStored-delete ws m h)
]

oldest_dropped-IsStored : (m : Dict Snapshot) → All IsStored m → All IsStored (oldest_dropped m)
oldest_dropped-IsStored [] h = tt
oldest_dropped-IsStored ((k, w) ∷ m) h = IsStored-delete k ((k, w) ∷ m) h

remember-IsStored :
    (ws : String) (snap : Snapshot) (m : Dict Snapshot)
    → IsStored (ws, snap)
    → All IsStored m
    → All IsStored (remember ws snap m)
unfolding remember
remember-IsStored ws snap m p h =
    elim (Bool-cases (ltb max_ws_snapshots (length (put ws snap m)))) [
      | inl e ↦ rw e (oldest_dropped-IsStored (put ws snap m) (IsStored-put ws snap m p h))
      | inr e ↦ rw e (IsStored-put ws snap m p h)
    ]

leave-IsStored : (s : Tabs) (next : Option String) → IsValid s → All IsStored (leave s next)
unfolding leave
leave-IsStored s next v = elim (Bool-cases (is_set s.prev_ws && not (same_ws s.prev_ws next))) [
  | inl e ↦
      rw e (remember-IsStored ws (snapshot s) s.per_ws (snapshot-IsStored s ws v.current) v.stored)
  | inr e ↦ rw e v.stored
]
  where
    ws : String
    ws = or_else s.prev_ws ""

IsStored-get :
    (ws : String) (m : Dict Snapshot) (snap : Snapshot)
    → get ws m ≡ some snap
    → All IsStored m
    → IsStored (ws, snap)
unfolding get
IsStored-get ws [] snap e h = cc
IsStored-get ws ((k, w) ∷ m) snap e (p, h) = elim (Bool-cases (k === ws)) [
  | inl same ↦ let it : w ≡ snap = ground arith in subst (λ x. IsStored (ws, x)) it p
  | inr other ↦ IsStored-get ws m snap (rw other at e) h
]

restored-IsValid :
    (s : Tabs) (ws : String) (snap : Snapshot)
    → get ws s.per_ws ≡ some snap
    → IsValid s
    → IsValid (restored s ws snap)
restored-IsValid s ws snap found v =
    let stored = IsStored-get ws s.per_ws snap found v.stored in
    record {
      current = record { distinct = stored.distinct; synced = stored.synced };
      stored = IsStored-delete ws s.per_ws v.stored;
    }

enter-IsValid :
    (s : Tabs) (ws : String) (found : Option Snapshot)
    → ((snap : Snapshot) → found ≡ some snap → get ws s.per_ws ≡ some snap)
    → IsValid s
    → IsValid (enter s ws found).0
unfolding enter
enter-IsValid s ws none from v = v
enter-IsValid s ws (some snap) from v =
    let back = restored-IsValid s ws snap (from snap refl) v in
    elim (Bool-cases (is_ready (restored s ws snap))) [
      | inl e ↦ rw e (read_all-IsValid (filter rereads snap.tabs) (restored s ws snap) back)
      | inr e ↦ rw e back
    ]

pub switch_workspace-IsValid :
    (s : Tabs) (next : Option String) → IsValid s → IsValid (switch_workspace s next).0
unfolding switch_workspace
switch_workspace-IsValid s next v =
    enter-IsValid (emptied s next) (or_else next "") (remembered (emptied s next) next)
      (λ snap e. ground arith)
      (record { current = record { distinct = tt; synced = tt }; stored = leave-IsStored s next v })
