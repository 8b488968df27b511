-- ===== src/Tabs/Valid/Disk.antt =====
-- tabModel.ts: the invariant, `readDisk` and `refreshGitStatus`.
use ninfer_studio.Base.{
  All-pair, Text, text_eq, String, Dict, put, or_else, ◌==◌, List, [], ◌∷◌, any, All, Option, none,
  some, Bool, true, false, not, ◌&&◌, ◌≡◌, refl, sym, arith, ◌⊎◌, Bool-cases, inl, inr,
  if◌then◌else◌, map,
}
use ninfer_studio.FileKind.{FileKind}
use ninfer_studio.Tabs.State.{
  Tab, Tabs, Read, Request, GitQuery, has_id, push_doc_tab, bump_rev, is_ready,
}
use ninfer_studio.Tabs.Disk.{
  Body, Reply, threw, body, settled, still_valid, read_disk, set_binary, is_binary, is_image,
  adopts_truncated, patch_truncated, adopts, patch_whole, docs_after, patch_failed, read_failed,
  read_content, read_replied, patch_image, image_replied,
}
use ninfer_studio.Tabs.Git.{with_letter, refresh_git_status, git_replied}
use ninfer_studio.Tabs.Valid.{
  IsSynced, IsOther, HasDistinctIds, IsConsistent, IsValid, patch_tab-IsConsistent, All-patch_tab,
  HasDistinctIds-patch_tab, IsSynced-put_other, get-put_id, All-any-false,
}

pub read_disk-IsValid :
    (s : Tabs) (id path : String) (kind : FileKind) (force : Bool)
    → IsValid s
    → IsValid (read_disk s id path kind force).0
unfolding read_disk
read_disk-IsValid s id path kind force v = elim (Bool-cases (not (is_ready s))) [
  | inl held ↦ rw held v
  | inr open_ ↦ elim (Bool-cases (is_binary kind)) [
    | inr text ↦ rw (open_, text) (record { current = v.current; stored = v.stored })
    | inl bin ↦
        rw (open_, bin)
          (record {
            current =
                patch_tab-IsConsistent id set_binary s.tabs s.docs (λ t. refl) (λ t h. h) v.current;
            stored = v.stored;
          })
  ]
]

bump_rev-IsSynced :
    (f : Tab → Tab) (docs : Dict Text) (t : Tab)
    → IsSynced docs (f t)
    → IsSynced docs (bump_rev f t)
bump_rev-IsSynced f docs t h = elim (Bool-cases (text_eq (f t).doc t.doc)) [
  | inl same ↦ rw same h
  | inr new ↦ rw new h
]

-- A content that goes into some tabs, and into the live text with them, while the others are
-- marked as having unsaved changes.
module _ (id : String) (content : Text) (takes : Tab → Bool) (f : Tab → Tab)
    (same_id : (t : Tab) → (f t).id ≡ t.id)
    (taken : (t : Tab) → takes t ≡ true → (f t).base ≡ content)
    (left : (t : Tab) → takes t ≡ false → (f t).dirty ≡ true) where
  left-IsSynced :
      (docs : Dict Text) (t : Tab) → takes t ≡ false → IsSynced docs t → IsSynced docs (f t)
  left-IsSynced docs t e (live, has, same) =
      (live, rw (same_id t) has, λ clean whole. ground (arith, left t e))

  put-IsSynced :
      (docs : Dict Text) (t : Tab) → has_id id t ≡ true → IsSynced (put id content docs) (f t)
  put-IsSynced docs t e =
      (content, rw (same_id t) (get-put_id id content docs t e), same (Bool-cases (takes t)))
    where
      same :
          (takes t ≡ true) ⊎ (takes t ≡ false)
          → (f t).dirty ≡ false
          → (f t).truncated ≡ false
          → content ≡ (f t).base
      same (inl k) clean whole = sym (taken t k)
      same (inr k) clean whole = ground (arith, left t k)

  push-IsSynced :
      (s : Tabs)
      → All (IsSynced s.docs) s.tabs
      → All (IsSynced (docs_after takes id content s)) (push_doc_tab id f s.tabs)
  push-IsSynced s h = elim (Bool-cases (any (λ t. has_id id t && takes t) s.tabs)) [
    | inl some_take ↦ rw some_take (
        All-patch_tab (IsSynced s.docs) (IsSynced (put id content s.docs)) id (bump_rev f) s.tabs
          (λ t e _. bump_rev-IsSynced f (put id content s.docs) t (put-IsSynced s.docs t e))
          (λ t e. IsSynced-put_other id content s.docs t e) h)
    | inr none_take ↦ rw none_take (
        All-patch_tab (λ t. (has_id id t && takes t) ≡ false × IsSynced s.docs t) (IsSynced s.docs)
          id (bump_rev f) s.tabs
          (λ t e p. bump_rev-IsSynced f s.docs t (left-IsSynced s.docs t (ground arith) p.1))
          (λ t e p. p.1) (All-pair _ _ s.tabs (All-any-false _ s.tabs none_take) h))
  ]

  push-IsConsistent :
      (s : Tabs)
      → IsConsistent s.tabs s.docs
      → IsConsistent (push_doc_tab id f s.tabs) (docs_after takes id content s)
  push-IsConsistent s c = record {
    distinct =
        HasDistinctIds-patch_tab id (bump_rev f) (λ t. ground (arith, same_id t)) s.tabs c.distinct;
    synced = push-IsSynced s c.synced;
  }

patch_failed-IsSynced :
    (m : Text) (docs : Dict Text) (t : Tab) → IsSynced docs t → IsSynced docs (patch_failed m t)
patch_failed-IsSynced m docs t h = ground (arith, h)

read_failed-IsValid : (s : Tabs) (r : Read) (m : Text) → IsValid s → IsValid (read_failed s r m)
unfolding read_failed
read_failed-IsValid s r m v = record {
  current =
      patch_tab-IsConsistent r.id (patch_failed m) s.tabs s.docs (λ t. ground arith)
        (patch_failed-IsSynced m s.docs) v.current;
  stored = v.stored;
}

read_content-IsValid : (s : Tabs) (r : Read) (b : Body) → IsValid s → IsValid (read_content s r b)
unfolding read_content
read_content-IsValid s r b v =
    let content = or_else b.content [] in
    elim (Bool-cases (or_else b.binary false)) [
      | inl bin ↦ rw bin (record {
        current =
            patch_tab-IsConsistent r.id set_binary s.tabs s.docs (λ t. refl) (λ t h. h) v.current;
        stored = v.stored;
      })
      | inr text ↦ elim (Bool-cases b.truncated) [
        | inl cut ↦
            rw (text, cut)
              (record {
                current =
                    push-IsConsistent r.id content (adopts_truncated r.force)
                      (patch_truncated r.force content) (λ t. ground arith) (λ t e. ground arith)
                      (λ t e. ground arith) s v.current;
                stored = v.stored;
              })
        | inr whole ↦
            rw (text, whole)
              (record {
                current =
                    push-IsConsistent r.id content (adopts r.force content)
                      (patch_whole r.force content) (λ t. ground arith) (λ t e. ground arith)
                      (λ t e. ground arith) s v.current;
                stored = v.stored;
              })
      ]
    ]

pub read_replied-IsValid :
    (s : Tabs) (r : Read) (reply : Reply) → IsValid s → IsValid (read_replied s r reply).0
unfolding read_replied
read_replied-IsValid s r reply v = elim (Bool-cases (still_valid s r)) [
  | inr late ↦ rw late v
  | inl valid ↦ rw valid (answered (settled reply))
]
  where
    answered :
        (reply : Reply)
        → IsValid
            (elim reply as (λ x. Tabs × List Request) [
              | threw m ↦ (read_failed s r m, [])
              | body b ↦
                  if is_image r.kind then (s, Request.image r ∷ []) else (read_content s r b, [])
            ]).0
    answered (threw m) = read_failed-IsValid s r m v
    answered (body b) = elim (Bool-cases (is_image r.kind)) [
      | inl i ↦ rw i v
      | inr n ↦ rw n (read_content-IsValid s r b v)
    ]

patch_image-id : (reply : Reply) (t : Tab) → (patch_image reply t).id ≡ t.id
patch_image-id (threw m) t = refl
patch_image-id (body b) t = ground arith

patch_image-IsSynced :
    (reply : Reply) (docs : Dict Text) (t : Tab)
    → IsSynced docs t
    → IsSynced docs (patch_image reply t)
patch_image-IsSynced (threw m) docs t h = h
patch_image-IsSynced (body b) docs t h = ground (arith, h)

pub image_replied-IsValid :
    (s : Tabs) (r : Read) (reply : Reply) → IsValid s → IsValid (image_replied s r reply)
unfolding image_replied
image_replied-IsValid s r reply v = elim (Bool-cases (still_valid s r)) [
  | inr late ↦ rw late v
  | inl valid ↦ rw valid (record {
    current =
        patch_tab-IsConsistent r.id (patch_image (settled reply)) s.tabs s.docs
          (patch_image-id (settled reply)) (patch_image-IsSynced (settled reply) s.docs) v.current;
    stored = v.stored;
  })
]

pub refresh_git_status-IsValid : (s : Tabs) → IsValid s → IsValid (refresh_git_status s).0
unfolding refresh_git_status
refresh_git_status-IsValid s v = elim (Bool-cases (is_ready s)) [
  | inl r ↦ rw r (record { current = v.current; stored = v.stored })
  | inr n ↦ rw n v
]

module _ (letters : Dict String) where
  letters-IsOther :
      (id : String) (ts : List Tab)
      → All (IsOther id) ts
      → All (IsOther id) (map (with_letter letters) ts)
  letters-IsOther id [] h = tt
  letters-IsOther id (t ∷ ts) (p, h) = (p, letters-IsOther id ts h)

  letters-distinct :
      (ts : List Tab) → HasDistinctIds ts → HasDistinctIds (map (with_letter letters) ts)
  letters-distinct [] h = tt
  letters-distinct (t ∷ ts) (p, h) = (letters-IsOther t.id ts p, letters-distinct ts h)

  letters-IsSynced :
      (docs : Dict Text) (ts : List Tab)
      → All (IsSynced docs) ts
      → All (IsSynced docs) (map (with_letter letters) ts)
  letters-IsSynced docs [] h = tt
  letters-IsSynced docs (t ∷ ts) (p, h) = (p, letters-IsSynced docs ts h)

pub git_replied-IsValid :
    (s : Tabs) (q : GitQuery) (letters : Option (Dict String))
    → IsValid s
    → IsValid (git_replied s q letters)
unfolding git_replied
git_replied-IsValid s q none v = v
git_replied-IsValid s q (some letters) v =
    elim (Bool-cases (q.gen == s.gen && q.seq == s.git_seq)) [
      | inr late ↦ rw late v
      | inl valid ↦ rw valid (record {
        current = record {
          distinct = letters-distinct letters s.tabs v.current.distinct;
          synced = letters-IsSynced letters s.docs s.tabs v.current.synced;
        };
        stored = v.stored;
      })
    ]
