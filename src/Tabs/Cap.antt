-- ===== src/Tabs/Cap.antt =====
-- tabModel.ts, `openFile`: the number of open tabs.
use ninfer_studio.Base.{
  ◌+◌, leb, String, ◌===◌, List, [], ◌∷◌, length, length-append, find, none, some, Bool, true,
  false, not, ◌≡◌, refl, ◌∙◌, arith, Bool-cases, inl, inr,
}
use ninfer_studio.FileKind.{FileKind}
use ninfer_studio.Tabs.State.{Tab, Tabs, is_ready, patch_tab}
use ninfer_studio.Tabs.Disk.{read_disk, is_binary, set_binary}
use ninfer_studio.Tabs.Git.{refresh_git_status}
use ninfer_studio.Tabs.Actions.{max_tabs, is_victim, fresh_tab, add_tab, open_file}

length-patch_tab :
    (id : String) (f : Tab → Tab) (ts : List Tab) → length (patch_tab id f ts) ≡ length ts
unfolding patch_tab
length-patch_tab id f [] = refl
length-patch_tab id f (t ∷ ts) = omega (arith, length-patch_tab id f ts)

length-read_disk :
    (s : Tabs) (id path : String) (kind : FileKind) (force : Bool)
    → length (read_disk s id path kind force).0.tabs ≡ length s.tabs
unfolding read_disk
length-read_disk s id path kind force = elim (Bool-cases (not (is_ready s))) [
  | inl held ↦ rw held refl
  | inr open_ ↦ elim (Bool-cases (is_binary kind)) [
    | inr text ↦ rw (open_, text) refl
    | inl bin ↦ rw (open_, bin) (length-patch_tab id set_binary s.tabs)
  ]
]

length-refresh_git_status : (s : Tabs) → length (refresh_git_status s).0.tabs ≡ length s.tabs
unfolding refresh_git_status
length-refresh_git_status s = elim (Bool-cases (is_ready s)) [
  | inl e ↦ rw e refl
  | inr e ↦ rw e refl
]

length-add_tab :
    (s : Tabs) (id path : String) → length (add_tab s id path).0.tabs ≡ length s.tabs + 1
unfolding add_tab
length-add_tab s id path =
    let tab = fresh_tab id path in
    length-read_disk _ id path tab.kind false
    ∙ length-refresh_git_status _
    ∙ length-append s.tabs (tab ∷ [])

-- With the cap's number of tabs or more, a path that no tab has, and a tab that may make room, a new
-- tab is opened and none is taken out: there is one tab more than before.
pub open_file-over_cap :
    (s : Tabs) (id path : String) (victim : Tab)
    → is_ready s ≡ true
    → find (λ t. t.path === path) s.tabs ≡ none
    → leb max_tabs (length s.tabs) ≡ true
    → find (is_victim s.active) s.tabs ≡ some victim
    → length (open_file s id path).0.0.tabs ≡ length s.tabs + 1
unfolding open_file
open_file-over_cap s id path victim open_ new full found =
    rw (open_, new, full, found) (length-add_tab _ id path)

-- Without a tab that may make room, the file is not opened, and no tab changes.
pub open_file-full :
    (s : Tabs) (id path : String)
    → is_ready s ≡ true
    → find (λ t. t.path === path) s.tabs ≡ none
    → leb max_tabs (length s.tabs) ≡ true
    → find (is_victim s.active) s.tabs ≡ none
    → ((open_file s id path).1 ≡ false) × ((open_file s id path).0.0.tabs ≡ s.tabs)
unfolding open_file
open_file-full s id path open_ new full none_left =
    (rw (open_, new, full, none_left) refl, rw (open_, new, full, none_left) refl)
