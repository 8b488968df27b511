-- ===== src/Tabs/Valid/Save.antt =====
-- tabModel.ts: the invariant, `saveTab` and `runLint`.
use ninfer_studio.Base.{
  Text, text_eq, text_eq_sound, String, Dict, get, put, or_else, List, [], Option, none, some, Bool,
  true, false, not, ◌&&◌, ◌≡◌, refl, arith, Bool-cases, Option-cases, inl, inr, ◌==◌, ◌++◌, units,
}
use ninfer_studio.Tabs.State.{
  Tab, Tabs, Write, Lint, Request, has_id, find_tab, patch_tab, is_ready, is_set, live_doc, seq_of,
}
use ninfer_studio.Tabs.Disk.{Reply, threw, body, settled}
use ninfer_studio.Tabs.Git.{refresh_git_status}
use ninfer_studio.Tabs.Save.{
  held_message, target_of, can_save, save_found, save_tab, diverged, patch_saved, run_lint,
  after_write, lint_of, write_done, write_replied, LintReply, failed, passed, crashed, patch_linted,
  lint_replied,
}
use ninfer_studio.Tabs.Valid.{
  IsSynced, IsValid, patch_tab-IsConsistent, patch_found-IsConsistent, All-patch_tab,
  HasDistinctIds-patch_tab, IsSynced-put_other, get-put_id, find_tab_self,
}
use ninfer_studio.Tabs.Valid.Disk.{refresh_git_status-IsValid}

clean-IsSynced :
    (s : Tabs) (t : Tab)
    → text_eq (live_doc s t) t.base ≡ true
    → IsSynced s.docs t
    → IsSynced s.docs (record t { dirty = false })
clean-IsSynced s t e (live, has, same) = (live, has, λ _ _. text_eq_sound live t.base (rw has at e))

save_found-IsValid :
    (s : Tabs) (t : Tab) → find_tab t.id s.tabs ≡ some t → IsValid s → IsValid (save_found s t).0
unfolding save_found
save_found-IsValid s t found v = elim (Bool-cases (not (can_save t))) [
  | inl e ↦ rw e v
  | inr e ↦ elim (Bool-cases (text_eq (live_doc s t) t.base)) [
    | inl same ↦
        rw (e, same)
          (record {
            current =
                patch_found-IsConsistent t.id (λ x. record x { dirty = false }) s.tabs s.docs t
                  (λ u. refl) found (clean-IsSynced s t same) v.current;
            stored = v.stored;
          })
    | inr new ↦ elim (Bool-cases (not (is_ready s))) [
      | inl held ↦
          rw (e, new, held)
            (record {
              current =
                  patch_tab-IsConsistent t.id (λ x. record x { error_text = some held_message })
                    s.tabs s.docs (λ u. refl) (λ u h. h) v.current;
              stored = v.stored;
            })
      | inr go ↦ rw (e, new, go) (record { current = v.current; stored = v.stored })
    ]
  ]
]

pub save_tab-IsValid : (s : Tabs) (id : Option String) → IsValid s → IsValid (save_tab s id).0
unfolding save_tab
save_tab-IsValid s id v = elim (Bool-cases (is_set (target_of id s.active))) [
  | inr e ↦ rw e v
  | inl e ↦ elim (Option-cases (find_tab (or_else (target_of id s.active) "") s.tabs)) [
    | inl missing ↦ rw (e, missing) v
    | inr (t, found) ↦
        rw (e, found)
          (save_found-IsValid s t
            (find_tab_self (or_else (target_of id s.active) "") s.tabs t found) v)
  ]
]

-- After a write the tab is clean just when its live text is what was written.
after_write-IsValid : (s : Tabs) (w : Write) → IsValid s → IsValid (after_write s w)
after_write-IsValid s w v = record {
  current = record {
    distinct =
        HasDistinctIds-patch_tab w.id (patch_saved live w.doc) (λ t. refl) s.tabs
          v.current.distinct;
    synced =
        All-patch_tab (IsSynced s.docs) (IsSynced docs) w.id (patch_saved live w.doc) s.tabs
          (λ t e _. saved t e) (λ t e. IsSynced-put_other w.id (or_else live w.doc) s.docs t e)
          v.current.synced;
  };
  stored = v.stored;
}
  where
    live : Option Text
    live = get w.id s.docs

    docs : Dict Text
    docs = put w.id (or_else live w.doc) s.docs

    same : (o : Option Text) → diverged o w.doc ≡ false → or_else o w.doc ≡ w.doc
    same none h = refl
    same (some l) h = text_eq_sound l w.doc (ground arith)

    saved : (t : Tab) → has_id w.id t ≡ true → IsSynced docs (patch_saved live w.doc t)
    saved t e = (
      or_else live w.doc,
      get-put_id w.id (or_else live w.doc) s.docs t e,
      λ clean _. same live clean,
    )

run_lint-IsValid : (s : Tabs) (l : Lint) → IsValid s → IsValid (run_lint s l).0
unfolding run_lint
run_lint-IsValid s l v = record {
  current =
      patch_tab-IsConsistent l.id (λ t. record t { linting = true }) s.tabs s.docs (λ u. refl)
        (λ u h. h) v.current;
  stored = v.stored;
}

write_done-IsValid :
    (s : Tabs) (w : Write) (has_lint : Bool) → IsValid s → IsValid (write_done s w has_lint).0
unfolding write_done
write_done-IsValid s w true v =
    run_lint-IsValid (refresh_git_status (after_write s w)).0 (lint_of w)
      (refresh_git_status-IsValid (after_write s w) (after_write-IsValid s w v))
write_done-IsValid s w false v =
    refresh_git_status-IsValid (after_write s w) (after_write-IsValid s w v)

pub write_replied-IsValid :
    (s : Tabs) (w : Write) (reply : Reply) (has_lint : Bool)
    → IsValid s
    → IsValid (write_replied s w reply has_lint).0
unfolding write_replied
write_replied-IsValid s w reply has_lint v = elim (Bool-cases (w.gen == s.gen)) [
  | inr late ↦ rw late v
  | inl valid ↦ rw valid (answered (settled reply))
]
  where
    answered :
        (reply : Reply)
        → IsValid
            (elim reply as (λ x. Tabs × List Request) [
              | threw m ↦ (
                record s {
                  tabs =
                      patch_tab w.id
                        (λ x. record x { error_text = some (units "Save failed: " ++ m) })
                        s.tabs;
                },
                [],
              )
              | body b ↦ write_done s w has_lint
            ]).0
    answered (threw m) = record {
      current =
          patch_tab-IsConsistent w.id
            (λ x. record x { error_text = some (units "Save failed: " ++ m) }) s.tabs s.docs
            (λ u. refl) (λ u h. h) v.current;
      stored = v.stored;
    }
    answered (body b) = write_done-IsValid s w has_lint v

patch_linted-id :
    (path : Text) (reply : LintReply) (t : Tab) → (patch_linted path reply t).id ≡ t.id
patch_linted-id path (failed all) t = refl
patch_linted-id path passed t = refl
patch_linted-id path crashed t = refl

patch_linted-IsSynced :
    (path : Text) (reply : LintReply) (docs : Dict Text) (t : Tab)
    → IsSynced docs t
    → IsSynced docs (patch_linted path reply t)
patch_linted-IsSynced path (failed all) docs t h = h
patch_linted-IsSynced path passed docs t h = h
patch_linted-IsSynced path crashed docs t h = h

pub lint_replied-IsValid :
    (s : Tabs) (l : Lint) (reply : LintReply) → IsValid s → IsValid (lint_replied s l reply)
unfolding lint_replied
lint_replied-IsValid s l reply v =
    elim (Bool-cases (l.gen == s.gen && l.seq == seq_of l.id s.lint_seq)) [
      | inr late ↦ rw late v
      | inl valid ↦ rw valid (record {
        current =
            patch_tab-IsConsistent l.id (patch_linted (units l.path) reply) s.tabs s.docs
              (patch_linted-id (units l.path) reply)
              (patch_linted-IsSynced (units l.path) reply s.docs) v.current;
        stored = v.stored;
      })
    ]
